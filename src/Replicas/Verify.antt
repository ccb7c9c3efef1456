-- ===== src/Replicas/Verify.antt =====
-- src/runtime-replica-protection.ts: `verifyProviderObject` and `sourceMirror`.
pub mod Reads
use z_s_app.Prelude.{
  ℕ, zero, suc, ◌+◌, String, Bool, true, false, ◌&&◌, not, Option, none, some, List, [], ◌∷◌, ◌++◌,
  length, ltb, nat_beq, ◌==◌, string_eq, if◌then◌else◌, Result, ok, err,
}
use z_s_app.Prelude.Run.{
  Run, ◌>>=◌, pure, throw, call, continue, recover_with, try_catch, try_finally,
}
use z_s_app.Replicas.Errors.{DiagnosticCategory, Thrown, unknown, fails, is_missing}
use z_s_app.Replicas.Jobs.{ResolvedProviderReadTarget, Opened, Call, Collaborators}

pub data Verdict : Type 0 where
  verified missing mismatch : Verdict

module _ (digest : List ℕ → String) where
  -- the loop over the chunks, with the bytes seen so far
  unfoldable pub hash_chunks :
      String → ℕ → List ℕ → List (List ℕ) → Option Thrown → Result Thrown Verdict
  hash_chunks checksum n seen [] (some e) = err e
  hash_chunks checksum n seen [] none =
      if nat_beq (length seen) n && digest seen == checksum then ok verified else ok mismatch
  hash_chunks checksum n seen (c ∷ rest) breaks = elim (ltb n (length (seen ++ c))) [
    | true ↦ ok mismatch
    | false ↦ hash_chunks checksum n (seen ++ c) rest breaks
  ]

  unfoldable pub judge : String → ℕ → Opened → Result Thrown Verdict
  unfolding hash_chunks
  judge checksum n o =
      if not (nat_beq o.byte_length n)
      then ok mismatch
      else hash_chunks checksum n [] o.chunks o.breaks

  abbrev pub missing_or_throw : Thrown → Run Call Thrown (Option Opened)
  missing_or_throw e =
      if is_missing e
      then pure none
      else throw
          (fails DiagnosticCategory.dependency_unavailable "storage-replica-read-unavailable" true)

  abbrev pub some_opened : Result Thrown Opened → Result Thrown (Option Opened)
  some_opened (ok o) = ok (some o)
  some_opened (err e) = err e

  abbrev pub returned : Result Thrown Verdict → Run Call Thrown Verdict
  returned r log = (r, log)

  abbrev pub judge_opened :
      ResolvedProviderReadTarget → String → ℕ → Option Opened → Run Call Thrown Verdict
  judge_opened target checksum n none = pure missing
  judge_opened target checksum n (some o) =
      try_finally (returned (judge checksum n o)) (Call.close target)

  unfoldable pub verify_provider_object :
      Collaborators → ResolvedProviderReadTarget → String → ℕ → Run Call Thrown Verdict
  unfolding judge
  verify_provider_object c target checksum n = do
    opened ←
        try_catch (call (Call.read target) (λ log. some_opened (c.get log target))) missing_or_throw
    judge_opened target checksum n opened

-- what the mirror has counted and hashed
pub record Mirror : Type 0 where
  pub bytes : List ℕ
  pub byte_length : ℕ
  pub completed : Bool

abbrev pub at_end : Option Thrown → Mirror → Mirror
at_end (some e) m = m
at_end none m = record m { completed = true }

-- `sourceMirror`, after the writer has asked for `pulls` chunks. A chunk past the expected length is
-- counted and not hashed, and ends the generator.
unfoldable pub mirrored : ℕ → ℕ → List (List ℕ) → Option Thrown → Mirror → Mirror
mirrored expected zero chunks breaks m = m
mirrored expected (suc pulls) [] breaks m = at_end breaks m
mirrored expected (suc pulls) (c ∷ rest) breaks m = elim (ltb expected (m.byte_length + length c)) [
  | true ↦ record m { byte_length = m.byte_length + length c }
  | false ↦
      mirrored expected pulls rest breaks
        (record m { bytes = m.bytes ++ c; byte_length = m.byte_length + length c })
]

abbrev pub no_bytes : Mirror
no_bytes = record { bytes = []; byte_length = 0; completed = false }
