-- ===== src/Delivery.antt =====
-- src/runtime-read-delivery.ts: the delivery of a stored object to a caller with a read grant.
pub mod Decimal
pub mod Errors
pub mod Range
pub mod Copies
pub mod Attempt
pub mod Coordinator
pub mod Stream
