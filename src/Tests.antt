-- ===== src/Tests.antt =====
-- Tests of the definitions at concrete inputs, and the theorems at inputs that meet their hypotheses.
mod Registry
mod Config
mod Tokens
mod Images
mod Control
mod Replicas
mod Delivery
mod Plans
mod Media
