-- ===== src/Capability.antt =====
-- src/capability-registry.ts: the capability results of a deployment and the readiness test.
-- A registry is its list of results; `now` is what the clock returns.
pub mod Readiness
pub mod Soundness
pub mod Recording
use z_s_app.Prelude.{
  ℕ, zero, suc, ◌+◌, ◌-◌, ◌/◌, ◌%◌, String, Bool, true, false, ◌&&◌, ◌||◌, not, Option, none, some,
  List, [], ◌∷◌, ◌++◌, ltb, leb, ◌==◌, nat_beq, nat_eq, string_eq, if◌then◌else◌, head?, filter,
  every, codes, sort_desc, Result, ok, err, ◌>>=◌, ◌>>◌, fail_if,
}
use z_s_app.Prefix.{codes_beq}
use z_s_app.Domain.{
  Capability, put, head, get, delete, checksum, size, range, CapabilityResultState,
  ControlPlaneErrorCode, capability_not_verified, capability_failed, capability_expired,
  capability_eq, capability_result_state_eq,
}
use z_s_app.Records.{
  StorageProfileProviderBinding, StorageCapabilityResult, HeadContentLength, RangeRead,
  ProviderCapabilityPolicy, CapabilityReadinessInput,
}

abbrev pub strict_required_capabilities : List Capability
strict_required_capabilities = put ∷ head ∷ get ∷ delete ∷ checksum ∷ []

-- the text of a number in base 10, the digits of `n` before `rest`
digits_before : ℕ → ℕ → List ℕ → List ℕ
digits_before zero n rest = rest
digits_before (suc fuel) n rest =
    let text = (b'0' + n % 10) ∷ rest in
    let more = digits_before fuel (n / 10) text in if ltb n 10 then text else more

pub decimal : ℕ → List ℕ
unfolding digits_before
decimal n = digits_before (n + 1) n []

abbrev capability_text : Capability → String
capability_text put = "put"
capability_text head = "head"
capability_text get = "get"
capability_text delete = "delete"
capability_text checksum = "checksum"
capability_text size = "size"
capability_text range = "range"

-- `parts.join('|')`
abbrev join_bars : List (List ℕ) → List ℕ
join_bars [] = []
join_bars (x ∷ []) = x
join_bars (x ∷ y ∷ l) = x ++ (b'|' ∷ join_bars (y ∷ l))

unfoldable pub result_identity : StorageCapabilityResult → List ℕ
unfolding decimal
result_identity r = join_bars (
    codes r.capability_run_id
    ∷ codes r.profile_id
    ∷ decimal r.profile_version
    ∷ codes r.provider_id
    ∷ codes r.bucket_label
    ∷ codes r.prefix_class_id
    ∷ codes (capability_text r.capability)
    ∷ [])

-- The first result of that identity is overwritten; without one the result is appended.
pub replace_or_push :
    (StorageCapabilityResult → Bool)
    → StorageCapabilityResult
    → List StorageCapabilityResult
    → List StorageCapabilityResult
replace_or_push same input [] = input ∷ []
replace_or_push same input (r ∷ rest) =
    let later = r ∷ replace_or_push same input rest in if same r then input ∷ rest else later

unfoldable pub record_result :
    List StorageCapabilityResult → StorageCapabilityResult → List StorageCapabilityResult
unfolding replace_or_push
record_result results input =
    replace_or_push (λ r. codes_beq (result_identity r) (result_identity input)) input results

-- What the results are looked up by.
pub record Scope : Type 0 where
  pub profile_id : String
  pub profile_version : ℕ
  pub provider_id : String
  pub bucket_label : String
  pub prefix_class_id : String

abbrev pub in_scope : Scope → Capability → StorageCapabilityResult → Bool
in_scope s c r =
    r.profile_id == s.profile_id
    && r.profile_version == s.profile_version
    && r.provider_id == s.provider_id
    && r.bucket_label == s.bucket_label
    && r.prefix_class_id == s.prefix_class_id
    && r.capability == c

abbrev pub is_expired : ℕ → Option ℕ → Bool
is_expired now none = false
is_expired now (some t) = leb t now

-- `matches[0]` of the matching results, the latest first
unfoldable pub latest :
    List StorageCapabilityResult → Scope → Capability → Option StorageCapabilityResult
latest results s c = head? (sort_desc (λ r. r.verified_at) (filter (in_scope s c) results))

abbrev pub unexpired :
    ℕ → Option StorageCapabilityResult → Result ControlPlaneErrorCode StorageCapabilityResult
unexpired now none = err capability_not_verified
unexpired now (some r) = if is_expired now r.expires_at then err capability_expired else ok r

pub data RangeState : Type 0 where
  passed not_supported missing : RangeState

abbrev pub is_passed : RangeState → Bool
is_passed RangeState.passed = true
is_passed _ = false

abbrev pub is_not_supported : RangeState → Bool
is_not_supported RangeState.not_supported = true
is_not_supported _ = false

abbrev pub range_state_of :
    ℕ → Option StorageCapabilityResult → Result ControlPlaneErrorCode RangeState
range_state_of now none = ok RangeState.missing
range_state_of now (some r) =
    if is_expired now r.expires_at then ok RangeState.missing else elim r.result [
      | CapabilityResultState.failed ↦ err capability_failed
      | CapabilityResultState.passed ↦ ok RangeState.passed
      | CapabilityResultState.not_supported ↦ ok RangeState.not_supported
    ]

abbrev pub scope_of : CapabilityReadinessInput → StorageProfileProviderBinding → Scope
scope_of input b = record {
  profile_id = input.profile_id;
  profile_version = input.profile_version;
  provider_id = b.provider_id;
  bucket_label = b.bucket_label;
  prefix_class_id = input.prefix_class_id;
}

abbrev pub range_read_of : List RangeState → RangeRead
range_read_of states =
    if every is_passed states
    then RangeRead.required
    else if every is_not_supported states
    then RangeRead.not_applicable
    else RangeRead.optional

module _ (results : List StorageCapabilityResult) (now : ℕ) where
  unfoldable pub current_result :
      Scope → Capability → Result ControlPlaneErrorCode StorageCapabilityResult
  current_result s c = unexpired now (latest results s c)

  pub check_strict : Scope → List Capability → Result ControlPlaneErrorCode (Unit {0})
  check_strict s [] = ok tt
  check_strict s (c ∷ rest) = do
    r ← current_result s c
    fail_if (not (r.result == CapabilityResultState.passed)) capability_failed
    check_strict s rest

  -- one round over a binding: whether the size is unsupported, and the state of range reads
  pub check_binding : Scope → Result ControlPlaneErrorCode (Bool × RangeState)
  check_binding s = do
    check_strict s strict_required_capabilities
    size_result ← current_result s size
    fail_if (size_result.result == CapabilityResultState.failed) capability_failed
    state ← range_state_of now (latest results s range)
    ok (size_result.result == CapabilityResultState.not_supported, state)

  -- the loop over the bindings with its two variables
  pub check_bindings :
      CapabilityReadinessInput
      → Bool
      → List RangeState
      → List StorageProfileProviderBinding
      → Result ControlPlaneErrorCode (Bool × List RangeState)
  check_bindings input unsupported states [] = ok (unsupported, states)
  check_bindings input unsupported states (b ∷ rest) = do
    found ← check_binding (scope_of input b)
    check_bindings input (unsupported || found.0) (states ++ found.1 ∷ []) rest

  unfoldable pub assert_ready :
      CapabilityReadinessInput → Result ControlPlaneErrorCode ProviderCapabilityPolicy
  unfolding check_bindings check_binding check_strict
  assert_ready input = do
    found ← check_bindings input false [] input.bindings
    ok (record {
      head_content_length =
          if found.0 then HeadContentLength.optional_with_checksum else HeadContentLength.required;
      range_read = range_read_of found.1;
    })
