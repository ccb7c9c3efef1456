-- ===== src/Prelude/Outcome.antt =====
-- A computation that returns or throws: `err` carries what is thrown.
use mathlib.Core.Path.{◌≡◌, refl, subst}
use mathlib.Core.Logic.{◌⊎◌, inl, inr}
use mathlib.Core.Bool.{Bool, true, false}
use z_s_app.Prelude.Tests.{if◌then◌else◌}

pub data Result {ℓ κ} (E : Type ℓ) (A : Type κ) : Type (ℓ ⊔ κ) where
  ok : A → Result E A
  err : E → Result E A

module _ {ℓ κ μ} {E : Type ℓ} {A : Type κ} {B : Type μ} where
  infixl 5 ◌>>=◌
  abbrev pub ◌>>=◌ : Result E A → (A → Result E B) → Result E B
  err e >>= next = err e
  ok v >>= next = next v

infixl 5 ◌>>◌
abbrev pub ◌>>◌ {ℓ κ} : {E : Type ℓ} {B : Type κ} → Result E (Unit {0}) → Result E B → Result E B
first >> then_run = first >>= λ _. then_run

-- `if (test) fail(code)`
abbrev pub fail_if {ℓ} : {E : Type ℓ} → Bool → E → Result E (Unit {0})
fail_if true e = err e
fail_if false e = ok tt

pub bind-eq-ok {ℓ κ μ} :
    {E : Type ℓ} {A : Type κ} {B : Type μ} (r : Result E A) (next : A → Result E B) {x : B}
    → (r >>= next) ≡ ok x
    → (v : A) × (r ≡ ok v) × (next v ≡ ok x)
bind-eq-ok (err e) next h = cc
bind-eq-ok (ok v) next h = (v, refl, h)

pub fail_if-eq-ok {ℓ} : {E : Type ℓ} (b : Bool) (e : E) {u : Unit} → fail_if b e ≡ ok u → b ≡ false
fail_if-eq-ok true e h = cc
fail_if-eq-ok false e h = refl

pub ok-injective {ℓ κ} :
    {E : Type ℓ} {A : Type κ} (a b : A) → ◌≡◌ {A = Result E A} (ok a) (ok b) → a ≡ b
ok-injective a b h = cc

-- `if (test) fail(code)` was passed.
pub fail_if-then {ℓ κ} :
    {E : Type ℓ} {B : Type κ} (b : Bool) (e : E) (k : Result E B) {x : B}
    → (fail_if b e >> k) ≡ ok x
    → (b ≡ false) × (k ≡ ok x)
fail_if-then true e k h = cc
fail_if-then false e k h = (refl, h)

pub Result-cases {ℓ κ} :
    {E : Type ℓ} {A : Type κ} (r : Result E A) → ((v : A) × (r ≡ ok v)) ⊎ ((e : E) × (r ≡ err e))
Result-cases (ok v) = inl (v, refl)
Result-cases (err e) = inr (e, refl)

-- `Q` holds of what is returned, if anything is.
pub record Yields {ℓ κ μ} {E : Type ℓ} {A : Type κ} (r : Result E A) (Q : A → Type μ)
    : Type (ℓ ⊔ κ ⊔ μ) where
  pub apply : (v : A) → r ≡ ok v → Q v

module _ {ℓ κ μ} {E : Type ℓ} {A : Type κ} where
  pub Yields-ok : {Q : A → Type μ} (v : A) → Q v → Yields {E = E} (ok v) Q
  Yields-ok {Q} v q = record { apply = λ w same. subst Q (ok-injective v w same) q }

  pub Yields-err : {Q : A → Type μ} (e : E) → Yields (err e) Q
  Yields-err e = record { apply = λ v same. absurd (cc) }

  pub Yields-bind {ν π} :
      {B : Type ν} {P : A → Type π} {Q : B → Type μ} {r : Result E A} {next : A → Result E B}
      → Yields r P
      → ((v : A) → P v → Yields (next v) Q)
      → Yields (r >>= next) Q
  Yields-bind {r} {next} first later = record {
    apply = λ w same.
        let (v, given, after) = bind-eq-ok r next same in
        (later v (first.apply v given)).apply w after;
  }

pub Yields-fail_if {ℓ} : {E : Type ℓ} (b : Bool) (e : E) → Yields (fail_if b e) (λ _. b ≡ false)
Yields-fail_if b e = record { apply = λ u same. fail_if-eq-ok b e same }

pub Yields-unless {ℓ κ μ} :
    {E : Type ℓ} {A : Type κ} {Q : A → Type μ} {r : Result E A} (b : Bool) (e : E)
    → (b ≡ false → Yields r Q)
    → Yields (if b then err e else r) Q
Yields-unless true e h = Yields-err e
Yields-unless false e h = h refl

pub Yields-any {ℓ κ} : {E : Type ℓ} {A : Type κ} (r : Result E A) → Yields r (λ _. Unit {0})
Yields-any r = record { apply = λ v same. tt }

pub Yields-weaken {ℓ κ μ ν} :
    {E : Type ℓ} {A : Type κ} {r : Result E A} {P : A → Type μ} {Q : A → Type ν}
    → Yields r P
    → ((v : A) → P v → Q v)
    → Yields r Q
Yields-weaken h f = record { apply = λ v same. f v (h.apply v same) }

pub Yields-if {ℓ κ μ} :
    {E : Type ℓ} {A : Type κ} {Q : A → Type μ} {r s : Result E A} (b : Bool)
    → (b ≡ true → Yields r Q)
    → (b ≡ false → Yields s Q)
    → Yields (if b then r else s) Q
Yields-if true f g = f refl
Yields-if false f g = g refl
