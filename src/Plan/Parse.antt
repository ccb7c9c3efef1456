-- ===== src/Plan/Parse.antt =====
-- src/storage-control-plan.ts: the fields, vaults, routes and image derivatives of a plan.
pub mod Ranges
use z_s_app.Prelude.{
  ℕ, suc, ◌+◌, String, Bool, true, false, not, ◌&&◌, ◌||◌, Option, none, some, List, [], ◌∷◌,
  length, any, every, ltb, leb, nat_beq, ◌==◌, string_eq, if◌then◌else◌, Result, ok, err, ◌>>=◌,
  ◌>>◌, fail_if,
}
use z_s_app.Config.Document.{JsNumber, natural, other}
use z_s_app.Config.Text.{matches_token, is_lower, is_digit, utf16_length}
use z_s_app.Delivery.Decimal.{trim, is_safe}
use z_s_app.Plan.{
  Value, Elements, Properties, ProviderType, VaultRole, RetentionPolicy, PlanAssetClass,
  ImageFormat, VaultPlan, RoutePlan, ImageDerivativePlan, PlanError, invalid, named,
}

-- `record[key]`
unfoldable pub get : Properties → String → Value
get Properties.no_properties key = Value.missing
get (Properties.property name v rest) key =
    let later = get rest key in if name == key then v else later

-- IDENTIFIER_PATTERN
unfoldable pub is_identifier_text : List ℕ → Bool
is_identifier_text s =
    matches_token (λ c. is_lower c || is_digit c)
      (λ c.
        is_lower c
        || is_digit c
        || nat_beq c b'.'
        || nat_beq c b'_'
        || nat_beq c b':'
        || nat_beq c b'-')
      127 s

-- BUCKET_LABEL_PATTERN
unfoldable pub is_bucket_text : List ℕ → Bool
is_bucket_text s =
    matches_token (λ c. is_lower c || is_digit c)
      (λ c. is_lower c || is_digit c || nat_beq c b'.' || nat_beq c b'-') 127 s
    && leb 2 (length s)

abbrev is_label_text : List ℕ → Bool
is_label_text s =
    not (ltb (utf16_length s) 1) && (not (ltb 160 (utf16_length s)) && not (any (λ c. ltb c 32) s))

abbrev checked_text : (List ℕ → Bool) → String → Value → Result PlanError (List ℕ)
checked_text test key (Value.text s) = if test (trim s) then ok (trim s) else err (invalid key)
checked_text test key _ = err (invalid key)

unfoldable pub required_string : (List ℕ → Bool) → Properties → String → Result PlanError (List ℕ)
unfolding get
required_string pattern fields key = checked_text pattern key (get fields key)

unfoldable pub required_label : Properties → String → Result PlanError (List ℕ)
unfolding get utf16_length
required_label fields key = checked_text is_label_text key (get fields key)

abbrev pub the_named {ℓ} : {A : Type ℓ} → String → Option A → Result PlanError A
the_named key none = err (invalid key)
the_named key (some v) = ok v

abbrev pub provider_type : List ℕ → Result PlanError ProviderType
provider_type s = the_named "providerType" (
    named
      (("minio", ProviderType.minio)
        ∷ ("r2", ProviderType.r2)
        ∷ ("s3-compatible", ProviderType.s3_compatible)
        ∷ [])
      s)

abbrev pub vault_role : List ℕ → Result PlanError VaultRole
vault_role s = the_named "role" (
    named
      (("canonical", VaultRole.canonical)
        ∷ ("hot", VaultRole.hot)
        ∷ ("derivative", VaultRole.derivative)
        ∷ [])
      s)

abbrev pub retention_policy : List ℕ → Result PlanError RetentionPolicy
retention_policy s = the_named "retentionPolicy" (
    named
      (("permanent", RetentionPolicy.permanent)
        ∷ ("hot-cache-short", RetentionPolicy.hot_cache_short)
        ∷ ("custom", RetentionPolicy.custom)
        ∷ [])
      s)

abbrev pub asset_class : List ℕ → Result PlanError PlanAssetClass
asset_class s = the_named "assetClass" (
    named
      (("raw-image", PlanAssetClass.raw_image)
        ∷ ("raw-video", PlanAssetClass.raw_video)
        ∷ ("image-derivative", PlanAssetClass.image_derivative)
        ∷ ("document", PlanAssetClass.document)
        ∷ [])
      s)

abbrev pub image_format : List ℕ → Result PlanError ImageFormat
image_format s = the_named "format" (
    named
      (("webp", ImageFormat.webp)
        ∷ ("avif", ImageFormat.avif)
        ∷ ("jpeg", ImageFormat.jpeg)
        ∷ ("png", ImageFormat.png)
        ∷ [])
      s)

abbrev pub is_absent : Value → Bool
is_absent Value.missing = true
is_absent Value.null = true
is_absent (Value.text []) = true
is_absent _ = false

abbrev pub days_of : JsNumber → Result PlanError (Option ℕ)
days_of (natural n) =
    if not (is_safe n) || (ltb n 1 || ltb 36500 n)
    then err (invalid "deleteAfterDays")
    else ok (some n)
days_of (other s) = err (invalid "deleteAfterDays")

-- `Number(value)` of the engine, for a value that is no number
module _ (to_number : Value → JsNumber) where
  abbrev pub number_of : Value → JsNumber
  number_of (Value.number n) = n
  number_of v = to_number v

  unfoldable pub optional_delete_after_days : Properties → Result PlanError (Option ℕ)
  unfolding get
  optional_delete_after_days fields =
      let v = get fields "deleteAfterDays" in if is_absent v then ok none else days_of (number_of v)

  -- the last switch of `parseVault`
  abbrev pub with_days : RetentionPolicy → Option ℕ → VaultPlan → Result PlanError VaultPlan
  with_days RetentionPolicy.permanent none vault = ok vault
  with_days RetentionPolicy.permanent (some n) vault = err (invalid "deleteAfterDays")
  with_days _ none vault = err (invalid "deleteAfterDays")
  with_days _ (some n) vault = ok (record vault { delete_after_days = some n })

  abbrev pub vault_of : Properties → Result PlanError VaultPlan
  vault_of value = do
    policy_label ← required_label value "retentionPolicy"
    policy ← retention_policy policy_label
    days ← optional_delete_after_days value
    vault_id ← required_string is_identifier_text value "vaultId"
    drive_label ← required_label value "driveLabel"
    provider_label ← required_label value "providerType"
    provider ← provider_type provider_label
    bucket_label ← required_string is_bucket_text value "bucketLabel"
    secret_reference_id ← required_string is_identifier_text value "secretReferenceId"
    role_label ← required_label value "role"
    role ← vault_role role_label
    with_days policy days (record {
      vault_id = vault_id;
      drive_label = drive_label;
      provider_type = provider;
      bucket_label = bucket_label;
      secret_reference_id = secret_reference_id;
      retention_policy = policy;
      delete_after_days = none;
      role = role;
    })

  unfoldable pub parse_vault : Value → Result PlanError VaultPlan
  unfolding required_string required_label optional_delete_after_days is_identifier_text
      is_bucket_text
  parse_vault (Value.object value) = vault_of value
  parse_vault _ = err (invalid "vault")

-- a vault id that may be left out or blank
abbrev pub given_vault : Properties → String → Value → Result PlanError (Option (List ℕ))
given_vault value key (Value.text s) = elim (trim s) [
  | [] ↦ ok none
  | c ∷ t ↦ do vault_id ← required_string is_identifier_text value key; ok (some vault_id)
]
given_vault value key _ = ok none

abbrev pub is_raw_image : PlanAssetClass → Bool
is_raw_image PlanAssetClass.raw_image = true
is_raw_image _ = false

abbrev pub is_given : Option (List ℕ) → Bool
is_given none = false
is_given (some s) = true

abbrev pub route_of : Properties → Result PlanError RoutePlan
route_of value = do
  class_label ← required_label value "assetClass"
  class ← asset_class class_label
  primary ← required_string is_identifier_text value "primaryVaultId"
  replica ← given_vault value "replicaVaultId" (get value "replicaVaultId")
  derivative ← given_vault value "derivativeVaultId" (get value "derivativeVaultId")
  fail_if (is_given derivative && not (is_raw_image class)) (invalid "derivativeVaultId")
  ok (record {
    asset_class = class;
    primary_vault_id = primary;
    replica_vault_id = replica;
    derivative_vault_id = derivative;
  })

unfoldable pub parse_route : Value → Result PlanError RoutePlan
unfolding required_string required_label is_identifier_text get
parse_route (Value.object value) = route_of value
parse_route _ = err (invalid "route")

abbrev pub width_of : Value → Result PlanError ℕ
width_of (Value.number (natural n)) =
    if not (is_safe n) || (ltb n 16 || ltb 8192 n) then err (invalid "widths") else ok n
width_of _ = err (invalid "widths")

abbrev pub count : Elements → ℕ
count Elements.no_elements = 0
count (Elements.element v rest) = suc (count rest)

unfoldable pub widths_of : Elements → Result PlanError (List ℕ)
widths_of Elements.no_elements = ok []
widths_of (Elements.element v rest) =
    let later = widths_of rest in do width ← width_of v; widths ← later; ok (width ∷ widths)

-- `[...new Set(widths)].sort((left, right) => left - right)`: a width that is there is not inserted.
unfoldable pub insert_width : ℕ → List ℕ → List ℕ
insert_width w [] = w ∷ []
insert_width w (v ∷ l) =
    let later = insert_width w l in
    if ltb w v then w ∷ v ∷ l else if nat_beq w v then v ∷ l else v ∷ later

unfoldable pub sorted_widths : List ℕ → List ℕ
unfolding insert_width
sorted_widths [] = []
sorted_widths (w ∷ l) = insert_width w (sorted_widths l)

unfoldable pub parse_widths : Value → Result PlanError (List ℕ)
unfolding widths_of sorted_widths
parse_widths (Value.array items) = do
  fail_if (ltb (count items) 1 || ltb 8 (count items)) (invalid "widths")
  widths ← widths_of items
  ok (sorted_widths widths)
parse_widths _ = err (invalid "widths")

abbrev pub derivative_of : Properties → Result PlanError ImageDerivativePlan
derivative_of value = do
  derivative_id ← required_string is_identifier_text value "derivativeId"
  source ← required_string is_identifier_text value "sourceVaultId"
  target ← required_string is_identifier_text value "targetVaultId"
  widths ← parse_widths (get value "widths")
  format_label ← required_label value "format"
  format ← image_format format_label
  ok (record {
    derivative_id = derivative_id;
    source_vault_id = source;
    target_vault_id = target;
    widths = widths;
    format = format;
  })

unfoldable pub parse_image_derivative : Value → Result PlanError ImageDerivativePlan
unfolding required_string required_label is_identifier_text get parse_widths
parse_image_derivative (Value.object value) = derivative_of value
parse_image_derivative _ = err (invalid "image-derivative")
