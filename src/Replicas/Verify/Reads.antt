-- ===== src/Replicas/Verify/Reads.antt =====
-- src/runtime-replica-protection.ts: what a verdict of `verifyProviderObject` says of the calls made.
use z_s_app.Prelude.{
  ℕ, ◌≡◌, ◌↔◌, refl, sym, ap, subst, ◌∙◌, String, Bool, true, false, not, Option, none, some, List,
  [], ◌∷◌, ◌++◌, length, ltb, nat_beq, length-append, nat_beq_iff, ◌==◌, string_eq, if◌then◌else◌,
  Result, ok, err, eq_iff, arith, &&-true,
}
use mathlib.Core.List.{append-nil, append_assoc}
use z_s_app.Prelude.Run.{Ensures, Ensures-bind, Ensures-catch, Ensures-call, Ends, pure, throw}
use z_s_app.Replicas.Errors.{Thrown, is_missing}
use z_s_app.Replicas.Jobs.{ResolvedProviderReadTarget, Opened, Call, Collaborators}
use z_s_app.Replicas.Verify.{
  Verdict, verified, missing, mismatch, hash_chunks, judge, some_opened, judge_opened,
  verify_provider_object,
}

-- the bytes that a stream yields
abbrev pub joined : List (List ℕ) → List ℕ
joined [] = []
joined (c ∷ rest) = c ++ joined rest

-- The object has the expected length, by the provider and by its bytes, and the expected digest.
pub record Matches (digest : List ℕ → String) (checksum : String) (n : ℕ) (o : Opened)
    : Type 0 where
  pub reported : o.byte_length ≡ n
  pub intact : o.breaks ≡ none
  pub sized : length (joined o.chunks) ≡ n
  pub hashed : digest (joined o.chunks) ≡ checksum

-- The last two calls read the target and close it, and the reply to the first matches.
pub record IsVerifiedRead (digest : List ℕ → String) (c : Collaborators)
    (target : ResolvedProviderReadTarget) (checksum : String) (n : ℕ) (log : List Call)
    : Type 0 where
  pub earlier : List Call
  pub opened : Opened
  pub calls : log ≡ Call.close target ∷ Call.read target ∷ earlier
  pub replied : c.get earlier target ≡ ok opened
  pub matches : Matches digest checksum n opened

module _ (digest : List ℕ → String) where
  Hashed : String → ℕ → List ℕ → List (List ℕ) → Option Thrown → Type 0
  Hashed checksum n seen chunks breaks =
      (breaks ≡ none)
      × ((length (seen ++ joined chunks) ≡ n) × (digest (seen ++ joined chunks) ≡ checksum))

  abbrev verdict_if : Bool → Result Thrown Verdict
  verdict_if b = if b then ok verified else ok mismatch

  abbrev mismatch_or : Bool → Result Thrown Verdict → Result Thrown Verdict
  mismatch_or b r = elim b [ true ↦ ok mismatch | false ↦ r ]

  verdict_if-verified : (b : Bool) → verdict_if b ≡ ok verified → b ≡ true
  verdict_if-verified true p = refl
  verdict_if-verified false p = grind arith

  mismatch_or-verified :
      (b : Bool) (r : Result Thrown Verdict)
      → mismatch_or b r ≡ ok verified
      → (b ≡ false) × (r ≡ ok verified)
  mismatch_or-verified true r p = grind arith
  mismatch_or-verified false r p = (refl, p)

  hash_chunks-verified :
      (checksum : String) (n : ℕ) (seen : List ℕ) (chunks : List (List ℕ)) (breaks : Option Thrown)
      → hash_chunks digest checksum n seen chunks breaks ≡ ok verified
      → Hashed checksum n seen chunks breaks
  unfolding hash_chunks Hashed
  hash_chunks-verified checksum n seen [] (some e) p = grind arith
  hash_chunks-verified checksum n seen [] none p =
      let both =
        &&-true (nat_beq (length seen) n) (digest seen == checksum) (verdict_if-verified _ p) in
      subst
        (λ bytes.
          (◌≡◌ {A = Option Thrown} none none) × ((length bytes ≡ n) × (digest bytes ≡ checksum)))
        (sym (append-nil seen))
        (refl, ((nat_beq_iff (length seen) n).0 both.0, (eq_iff _ _).0 both.1))
  hash_chunks-verified checksum n seen (c ∷ rest) breaks p =
      let next = hash_chunks digest checksum n (seen ++ c) rest breaks in
      let past = mismatch_or-verified (ltb n (length (seen ++ c))) next p in
      subst (λ bytes. (breaks ≡ none) × ((length bytes ≡ n) × (digest bytes ≡ checksum)))
        (append_assoc seen c (joined rest))
        (hash_chunks-verified checksum n (seen ++ c) rest breaks past.1)

  mismatch_if-verified :
      (b : Bool) (r : Result Thrown Verdict)
      → (if b then ok mismatch else r) ≡ ok verified
      → (b ≡ false) × (r ≡ ok verified)
  mismatch_if-verified true r p = grind arith
  mismatch_if-verified false r p = (refl, p)

  judge-verified :
      (checksum : String) (n : ℕ) (o : Opened)
      → judge digest checksum n o ≡ ok verified
      → Matches digest checksum n o
  unfolding judge Hashed
  judge-verified checksum n o p =
      let next = hash_chunks digest checksum n [] o.chunks o.breaks in
      let same = mismatch_if-verified (not (nat_beq o.byte_length n)) next p in
      let bytes = hash_chunks-verified checksum n [] o.chunks o.breaks same.1 in
      record {
        reported = (nat_beq_iff o.byte_length n).0 (ground arith);
        intact = bytes.0;
        sized = bytes.1.0;
        hashed = bytes.1.1;
      }

  mismatch_or-of_false :
      {b : Bool} {r x : Result Thrown Verdict} → b ≡ false → r ≡ x → mismatch_or b r ≡ x
  mismatch_or-of_false {b} h same = grind arith

  mismatch_if-of_false :
      {b : Bool} {r x : Result Thrown Verdict}
      → b ≡ false
      → r ≡ x
      → (if b then ok mismatch else r) ≡ x
  mismatch_if-of_false {b} h same = grind arith

  hash_chunks-of_Hashed :
      (checksum : String) (n : ℕ) (seen : List ℕ) (chunks : List (List ℕ))
      → length (seen ++ joined chunks) ≡ n
      → digest (seen ++ joined chunks) ≡ checksum
      → hash_chunks digest checksum n seen chunks none ≡ ok verified
  unfolding hash_chunks
  hash_chunks-of_Hashed checksum n seen [] sized hashed = grind (arith, append-nil, eq_iff)
  hash_chunks-of_Hashed checksum n seen (c ∷ rest) sized hashed =
      let more = length-append (seen ++ c) (joined rest) in
      let same = append_assoc seen c (joined rest) in
      let total : length ((seen ++ c) ++ joined rest) ≡ n = ap length same ∙ sized in
      let bounded : ltb n (length (seen ++ c)) ≡ false = ground arith in
      mismatch_or-of_false bounded
        (hash_chunks-of_Hashed checksum n (seen ++ c) rest total (ap digest same ∙ hashed))

  judge-of_Matches :
      (checksum : String) (n : ℕ) (o : Opened)
      → Matches digest checksum n o
      → judge digest checksum n o ≡ ok verified
  unfolding judge
  judge-of_Matches checksum n o m = mismatch_if-of_false (grind (arith, nat_beq_iff, m.reported)) (
      subst (λ b. hash_chunks digest checksum n [] o.chunks b ≡ ok verified) (sym m.intact)
        (hash_chunks-of_Hashed checksum n [] o.chunks m.sized m.hashed))

  -- An object is found to be verified exactly if its reported length, the length of the bytes that
  -- its stream yields to the end, and their digest are the expected ones. That the reading stops at
  -- the first byte too many makes no difference.
  pub judge_iff_Matches :
      (checksum : String) (n : ℕ) (o : Opened)
      → (judge digest checksum n o ≡ ok verified) ↔ Matches digest checksum n o
  unfolding judge
  judge_iff_Matches checksum n o = (judge-verified checksum n o, judge-of_Matches checksum n o)

module _ (digest : List ℕ → String) (c : Collaborators) (target : ResolvedProviderReadTarget)
    (checksum : String) (n : ℕ) where
  -- What holds after a verdict: `P`, and a verified read if it is `verified`.
  abbrev pub After : (List Call → Type 0) → Verdict → List Call → Type 0
  After P verified log = P log × IsVerifiedRead digest c target checksum n log
  After P _ log = P log

  Read : (List Call → Type 0) → Option Opened → List Call → Type 0
  Read P none log = P log
  Read P (some o) log =
      P log
      × ((earlier : List Call) × ((log ≡ Call.read target ∷ earlier)
            × (c.get earlier target ≡ ok o)))

  opened-Read :
      (P : List Call → Type 0) (log : List Call) (r : Result Thrown Opened) (v : Option Opened)
      → P (Call.read target ∷ log)
      → c.get log target ≡ r
      → some_opened digest r ≡ ok v
      → Read P v (Call.read target ∷ log)
  unfolding Read
  opened-Read P log (ok o) none p got same = grind arith
  opened-Read P log (ok o) (some o') p got same = (p, (log, (refl, cc)))
  opened-Read P log (err e) v p got same = grind arith

  missing_or_throw-Ensures :
      (P : List Call → Type 0) (b : Bool) (e : Thrown)
      → Ensures P (if b then pure none else throw e) (Read P) P
  unfolding Read
  missing_or_throw-Ensures P true e = record { apply = λ log p. p }
  missing_or_throw-Ensures P false e = record { apply = λ log p. p }

  closed-After :
      (P : List Call → Type 0) (o : Opened) (log : List Call) (v : Verdict)
      → ((log : List Call) → P log → P (Call.close target ∷ log))
      → Read P (some o) log
      → judge digest checksum n o ≡ ok v
      → After P v (Call.close target ∷ log)
  unfolding Read
  closed-After P o log verified closing (p, (earlier, (called, got))) judged = (
    closing log p,
    record {
      earlier = earlier;
      opened = o;
      calls = ap (λ l. Call.close target ∷ l) called;
      replied = got;
      matches = judge-verified digest checksum n o judged;
    },
  )
  closed-After P o log missing closing read judged = closing log read.0
  closed-After P o log mismatch closing read judged = closing log read.0

  closed-Ends :
      (P : List Call → Type 0) (o : Opened) (log : List Call) (r : Result Thrown Verdict)
      → ((log : List Call) → P log → P (Call.close target ∷ log))
      → Read P (some o) log
      → judge digest checksum n o ≡ r
      → Ends (After P) P (r, Call.close target ∷ log)
  unfolding Read
  closed-Ends P o log (ok v) closing read judged = closed-After P o log v closing read judged
  closed-Ends P o log (err e) closing read judged = closing log read.0

  judge_opened-Ensures :
      (P : List Call → Type 0)
      → ((log : List Call) → P log → P (Call.close target ∷ log))
      → (v : Option Opened)
      → Ensures (Read P v) (judge_opened digest target checksum n v) (After P) P
  unfolding Read
  judge_opened-Ensures P closing none = record { apply = λ log p. p }
  judge_opened-Ensures P closing (some o) = record {
    apply = λ log read. closed-Ends P o log _ closing read refl;
  }

  -- A reading keeps what the two calls it makes keep.
  pub verify_provider_object-Ensures :
      (P : List Call → Type 0)
      → ((log : List Call) → P log → P (Call.read target ∷ log))
      → ((log : List Call) → P log → P (Call.close target ∷ log))
      → Ensures P (verify_provider_object digest c target checksum n) (After P) P
  unfolding verify_provider_object
  verify_provider_object-Ensures P reading closing =
      Ensures-bind {Q = Read P}
        (Ensures-catch {R = P}
          (Ensures-call (Call.read target) (λ log. some_opened digest (c.get log target))
            (λ log v p same. opened-Read P log (c.get log target) v (reading log p) refl same)
            (λ log e p same. reading log p))
          (λ e. missing_or_throw-Ensures P (is_missing e) _))
        (judge_opened-Ensures P closing)
