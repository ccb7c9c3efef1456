-- ===== src/Prelude/Run/Raising.antt =====
-- What a computation that calls on others ensures, where it matters which error it throws.
use z_s_app.Prelude.{◌≡◌, refl, List, ◌∷◌, Result, ok, err}
use z_s_app.Prelude.Run.{Run, ◌>>=◌, continue, throw, call, given, recover_with, try_catch}

module _ {C E : Type 0} {A : Type 0} where
  abbrev pub EndsAs : (A → List C → Type 0) → (E → List C → Type 0) → Result E A × List C → Type 0
  EndsAs Q R (ok v, log) = Q v log
  EndsAs Q R (err e, log) = R e log

-- Where `P` holds of the log before, `Q` holds of a value and the log after it, and `R` of an error.
pub record Raises {C E : Type 0} {A : Type 0} (P : List C → Type 0) (m : Run C E A)
    (Q : A → List C → Type 0) (R : E → List C → Type 0) : Type 0 where
  pub apply : (log : List C) → P log → EndsAs Q R (m log)

module _ {C E : Type 0} {A : Type 0} where
  EndsAs-bind :
      {B : Type 0} (r : Result E A × List C) (next : A → Run C E B) (Q : A → List C → Type 0)
      (S : B → List C → Type 0) (R : E → List C → Type 0)
      → ((v : A) → Raises (Q v) (next v) S R)
      → EndsAs Q R r
      → EndsAs S R (continue next r)
  EndsAs-bind (ok v, log) next Q S R h q = (h v).apply log q
  EndsAs-bind (err e, log) next Q S R h q = q

  pub Raises-bind :
      {B : Type 0} {P : List C → Type 0} {m : Run C E A} {next : A → Run C E B}
      {Q : A → List C → Type 0} {S : B → List C → Type 0} {R : E → List C → Type 0}
      → Raises P m Q R
      → ((v : A) → Raises (Q v) (next v) S R)
      → Raises P (m >>= next) S R
  Raises-bind {m} {next} {Q} {S} {R} first later = record {
    apply = λ log p. EndsAs-bind (m log) next Q S R later (first.apply log p);
  }

  EndsAs-catch :
      (r : Result E A × List C) (handler : E → Run C E A) (Q : A → List C → Type 0)
      (R S : E → List C → Type 0)
      → ((e : E) → Raises (R e) (handler e) Q S)
      → EndsAs Q R r
      → EndsAs Q S (recover_with handler r)
  EndsAs-catch (ok v, log) handler Q R S h q = q
  EndsAs-catch (err e, log) handler Q R S h q = (h e).apply log q

  pub Raises-catch :
      {P : List C → Type 0} {m : Run C E A} {handler : E → Run C E A} {Q : A → List C → Type 0}
      {R S : E → List C → Type 0}
      → Raises P m Q R
      → ((e : E) → Raises (R e) (handler e) Q S)
      → Raises P (try_catch m handler) Q S
  Raises-catch {m} {handler} {Q} {R} {S} first later = record {
    apply = λ log p. EndsAs-catch (m log) handler Q R S later (first.apply log p);
  }

  EndsAs-weaken :
      (r : Result E A × List C) (Q Q' : A → List C → Type 0) (R R' : E → List C → Type 0)
      → ((v : A) (log : List C) → Q v log → Q' v log)
      → ((e : E) (log : List C) → R e log → R' e log)
      → EndsAs Q R r
      → EndsAs Q' R' r
  EndsAs-weaken (ok v, log) Q Q' R R' f g q = f v log q
  EndsAs-weaken (err e, log) Q Q' R R' f g q = g e log q

  pub Raises-weaken :
      {P P' : List C → Type 0} {m : Run C E A} {Q Q' : A → List C → Type 0}
      {R R' : E → List C → Type 0}
      → Raises P m Q R
      → ((log : List C) → P' log → P log)
      → ((v : A) (log : List C) → Q v log → Q' v log)
      → ((e : E) (log : List C) → R e log → R' e log)
      → Raises P' m Q' R'
  Raises-weaken {m} {Q} {Q'} {R} {R'} h before f g = record {
    apply = λ log p. EndsAs-weaken (m log) Q Q' R R' f g (h.apply log (before log p));
  }

  pub Raises-throw :
      {Q : A → List C → Type 0} {R : E → List C → Type 0} (e : E)
      → Raises (R e) (throw {A = A} e) Q R
  Raises-throw e = record { apply = λ log p. p }

  EndsAs-reply :
      (r : Result E A) (log : List C) (Q : A → List C → Type 0) (R : E → List C → Type 0)
      → ((v : A) → r ≡ ok v → Q v log)
      → ((e : E) → r ≡ err e → R e log)
      → EndsAs Q R (r, log)
  EndsAs-reply (ok v) log Q R f g = f v refl
  EndsAs-reply (err e) log Q R f g = g e refl

  pub Raises-call :
      {P : List C → Type 0} {Q : A → List C → Type 0} {R : E → List C → Type 0} (c : C)
      (reply : List C → Result E A)
      → ((log : List C) (v : A) → P log → reply log ≡ ok v → Q v (c ∷ log))
      → ((log : List C) (e : E) → P log → reply log ≡ err e → R e (c ∷ log))
      → Raises P (call c reply) Q R
  Raises-call {Q} {R} c reply f g = record {
    apply = λ log p. EndsAs-reply (reply log) (c ∷ log) Q R (λ v. f log v p) (λ e. g log e p);
  }

  pub Raises-given :
      {P : List C → Type 0} {R : E → List C → Type 0} (r : Result E A)
      → ((e : E) (log : List C) → P log → R e log)
      → Raises P (given r) (λ v. P) R
  Raises-given {P} {R} r g = record {
    apply = λ log p. EndsAs-reply r log (λ v. P) R (λ v same. p) (λ e same. g e log p);
  }
