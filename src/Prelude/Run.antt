-- ===== src/Prelude/Run.antt =====
-- A computation that calls on others: it reads the log of the calls made so far, the latest first,
-- and returns or throws with a longer log. What a call replies may depend on the log.
pub mod Raising
use mathlib.Core.Path.{◌≡◌, refl}
use mathlib.Core.List.{List, ◌∷◌}
use z_s_app.Prelude.Outcome.{Result, ok, err}

abbrev pub Run {ℓ κ μ} : Type ℓ → Type κ → Type μ → Type (ℓ ⊔ κ ⊔ μ)
Run C E A = List C → Result E A × List C

module _ {ℓ κ μ ν} {C : Type ℓ} {E : Type κ} {A : Type μ} {B : Type ν} where
  abbrev pub continue : (A → Run C E B) → Result E A × List C → Result E B × List C
  continue next (ok v, log) = next v log
  continue next (err e, log) = (err e, log)

  infixl 5 ◌>>=◌
  abbrev pub ◌>>=◌ : Run C E A → (A → Run C E B) → Run C E B
  (m >>= next) log = continue next (m log)

infixl 5 ◌>>◌
abbrev pub ◌>>◌ {ℓ κ μ} :
    {C : Type ℓ} {E : Type κ} {B : Type μ} → Run C E (Unit {0}) → Run C E B → Run C E B
first >> then_run = first >>= λ _. then_run

module _ {ℓ κ μ} {C : Type ℓ} {E : Type κ} {A : Type μ} where
  abbrev pub pure : A → Run C E A
  pure v log = (ok v, log)

  abbrev pub throw : E → Run C E A
  throw e log = (err e, log)

  -- a call and what it replies
  abbrev pub call : C → (List C → Result E A) → Run C E A
  call c reply log = (reply log, c ∷ log)

  -- `try … catch (e) …`
  abbrev pub recover_with : (E → Run C E A) → Result E A × List C → Result E A × List C
  recover_with handler (ok v, log) = (ok v, log)
  recover_with handler (err e, log) = handler e log

  abbrev pub try_catch : Run C E A → (E → Run C E A) → Run C E A
  try_catch m handler log = recover_with handler (m log)

  -- `try … finally c`, where the call of `c` does not throw
  abbrev pub try_finally : Run C E A → C → Run C E A
  try_finally m c log = let r = m log in (r.0, c ∷ r.1)

  -- What holds of the log, and of the value if one is returned.
  abbrev pub Ends {π} : (A → List C → Type π) → (List C → Type π) → Result E A × List C → Type π
  Ends Q R (ok v, log) = Q v log
  Ends Q R (err e, log) = R log

-- Where `P` holds of the log before, `Q` holds after a return and `R` after a throw.
pub record Ensures {ℓ κ μ π ρ} {C : Type ℓ} {E : Type κ} {A : Type μ} (P : List C → Type π)
    (m : Run C E A) (Q : A → List C → Type ρ) (R : List C → Type ρ) : Type (ℓ ⊔ κ ⊔ μ ⊔ π ⊔ ρ) where
  pub apply : (log : List C) → P log → Ends Q R (m log)

module _ {ℓ κ μ} {C : Type ℓ} {E : Type κ} {A : Type μ} where
  Ends-bind {ν ρ} :
      {B : Type ν} (r : Result E A × List C) (next : A → Run C E B) (Q : A → List C → Type ρ)
      (S : B → List C → Type ρ) (R : List C → Type ρ)
      → ((v : A) → Ensures (Q v) (next v) S R)
      → Ends Q R r
      → Ends S R (continue next r)
  Ends-bind (ok v, log) next Q S R h q = (h v).apply log q
  Ends-bind (err e, log) next Q S R h q = q

  pub Ensures-bind {ν π ρ} :
      {B : Type ν} {P : List C → Type π} {m : Run C E A} {next : A → Run C E B}
      {Q : A → List C → Type ρ} {S : B → List C → Type ρ} {R : List C → Type ρ}
      → Ensures P m Q R
      → ((v : A) → Ensures (Q v) (next v) S R)
      → Ensures P (m >>= next) S R
  Ensures-bind {m} {next} {Q} {S} {R} first later = record {
    apply = λ log p. Ends-bind (m log) next Q S R later (first.apply log p);
  }

  Ends-catch {ρ} :
      (r : Result E A × List C) (handler : E → Run C E A) (Q : A → List C → Type ρ)
      (R S : List C → Type ρ)
      → ((e : E) → Ensures R (handler e) Q S)
      → Ends Q R r
      → Ends Q S (recover_with handler r)
  Ends-catch (ok v, log) handler Q R S h q = q
  Ends-catch (err e, log) handler Q R S h q = (h e).apply log q

  pub Ensures-catch {π ρ} :
      {P : List C → Type π} {m : Run C E A} {handler : E → Run C E A} {Q : A → List C → Type ρ}
      {R S : List C → Type ρ}
      → Ensures P m Q R
      → ((e : E) → Ensures R (handler e) Q S)
      → Ensures P (try_catch m handler) Q S
  Ensures-catch {m} {handler} {Q} {R} {S} first later = record {
    apply = λ log p. Ends-catch (m log) handler Q R S later (first.apply log p);
  }

  Ends-map {ρ} :
      (r : Result E A × List C) (c : C) (Q Q' : A → List C → Type ρ) (R R' : List C → Type ρ)
      → ((v : A) (log : List C) → Q v log → Q' v (c ∷ log))
      → ((log : List C) → R log → R' (c ∷ log))
      → Ends Q R r
      → Ends Q' R' (r.0, c ∷ r.1)
  Ends-map (ok v, log) c Q Q' R R' f g q = f v log q
  Ends-map (err e, log) c Q Q' R R' f g q = g log q

  pub Ensures-finally {π ρ} :
      {P : List C → Type π} {m : Run C E A} {c : C} {Q Q' : A → List C → Type ρ}
      {R R' : List C → Type ρ}
      → Ensures P m Q R
      → ((v : A) (log : List C) → Q v log → Q' v (c ∷ log))
      → ((log : List C) → R log → R' (c ∷ log))
      → Ensures P (try_finally m c) Q' R'
  Ensures-finally {m} {c} {Q} {Q'} {R} {R'} first f g = record {
    apply = λ log p. Ends-map (m log) c Q Q' R R' f g (first.apply log p);
  }

  Ends-weaken {ρ} :
      (r : Result E A × List C) (Q Q' : A → List C → Type ρ) (R R' : List C → Type ρ)
      → ((v : A) (log : List C) → Q v log → Q' v log)
      → ((log : List C) → R log → R' log)
      → Ends Q R r
      → Ends Q' R' r
  Ends-weaken (ok v, log) Q Q' R R' f g q = f v log q
  Ends-weaken (err e, log) Q Q' R R' f g q = g log q

  pub Ensures-weaken {π ρ} :
      {P P' : List C → Type π} {m : Run C E A} {Q Q' : A → List C → Type ρ} {R R' : List C → Type ρ}
      → Ensures P m Q R
      → ((log : List C) → P' log → P log)
      → ((v : A) (log : List C) → Q v log → Q' v log)
      → ((log : List C) → R log → R' log)
      → Ensures P' m Q' R'
  Ensures-weaken {m} {Q} {Q'} {R} {R'} h before f g = record {
    apply = λ log p. Ends-weaken (m log) Q Q' R R' f g (h.apply log (before log p));
  }

  pub Ensures-pure {π} :
      {Q : A → List C → Type π} {R : List C → Type π} (v : A) → Ensures {E = E} (Q v) (pure v) Q R
  Ensures-pure v = record { apply = λ log p. p }

  pub Ensures-throw {π} :
      {Q : A → List C → Type π} {R : List C → Type π} (e : E) → Ensures R (throw {A = A} e) Q R
  Ensures-throw e = record { apply = λ log p. p }

  Ends-reply {ρ} :
      (r : Result E A) (log : List C) (Q : A → List C → Type ρ) (R : List C → Type ρ)
      → ((v : A) → r ≡ ok v → Q v log)
      → ((e : E) → r ≡ err e → R log)
      → Ends Q R (r, log)
  Ends-reply (ok v) log Q R f g = f v refl
  Ends-reply (err e) log Q R f g = g e refl

  pub Ensures-call {π ρ} :
      {P : List C → Type π} {Q : A → List C → Type ρ} {R : List C → Type ρ} (c : C)
      (reply : List C → Result E A)
      → ((log : List C) (v : A) → P log → reply log ≡ ok v → Q v (c ∷ log))
      → ((log : List C) (e : E) → P log → reply log ≡ err e → R (c ∷ log))
      → Ensures P (call c reply) Q R
  Ensures-call {Q} {R} c reply f g = record {
    apply = λ log p. Ends-reply (reply log) (c ∷ log) Q R (λ v. f log v p) (λ e. g log e p);
  }

  Ends-any :
      (r : Result E A × List C)
      → Ends (λ (_ : A) (_ : List C). Unit {0}) (λ (_ : List C). Unit {0}) r
  Ends-any (ok v, log) = tt
  Ends-any (err e, log) = tt

  -- Nothing is asked and nothing is said.
  pub Ensures-any {π} :
      {P : List C → Type π} (m : Run C E A)
      → Ensures P m (λ (_ : A) (_ : List C). Unit {0}) (λ (_ : List C). Unit {0})
  Ensures-any m = record { apply = λ log p. Ends-any (m log) }

module _ {C : Type 0} {E : Type 0} {A : Type 0} where
  -- a computation that makes no call
  abbrev pub given : Result E A → Run C E A
  given r log = (r, log)

  Ends-given :
      (r : Result E A) (log : List C) (P : List C → Type 0)
      → P log
      → Ends (λ v l. P l × (r ≡ ok v)) P (r, log)
  Ends-given (ok v) log P p = (p, refl)
  Ends-given (err e) log P p = p

  pub Ensures-given :
      {P : List C → Type 0} (r : Result E A) → Ensures P (given r) (λ v l. P l × (r ≡ ok v)) P
  Ensures-given {P} r = record { apply = λ log p. Ends-given r log P p }
