-- ===== src/Config/Validation.antt =====
-- src/client-storage-configuration.ts: `validateConfigurationDraft`.
-- `to_lower_case` is the engine's Unicode mapping.
pub mod Sound
use z_s_app.Prelude.{
  ℕ, ◌+◌, ◌≡◌, ◌↔◌, String, Bool, true, false, ◌&&◌, ◌||◌, not, Option, none, some, List, [], ◌∷◌,
  ◌++◌, map, ltb, leb, nat_beq, ◌==◌, string_eq, Comparable, filter, any, every, length, codes,
  arith, if◌then◌else◌, Result, ok, err,
}
use z_s_app.Prefix.{codes_beq}
use z_s_app.Config.Document.{
  TargetRole, AssetClass, JsNumber, natural, other, number_beq, Json, null, object, last, Retention,
  permanent, delete_after_days, ProviderConnectionInput, ConfigurationVaultInput,
  ConfigurationRouteTargetInput, ConfigurationRouteInput, ConfigurationImagePresetInput,
  ConfigurationDraftDocument, target_role_eq, asset_class_eq, asset_class_tag,
}
use z_s_app.Config.Text.{
  utf16_length, is_space, is_identifier, is_secret_reference, is_label, is_prefix_template,
}
use z_s_app.Config.Metadata.{
  MetadataError, invalid_safe_metadata, safe_metadata_too_large, unsafe_metadata_key,
  assert_safe_metadata,
}

pub data ValidationError : Type 0 where
  duplicate_provider_connection_id duplicate_vault_id : ValidationError
  duplicate_image_preset_id duplicate_route_id duplicate_asset_class_route : ValidationError
  invalid_provider_connection_id invalid_provider_connection_label : ValidationError
  invalid_secret_reference_id invalid_vault_id unknown_provider_connection : ValidationError
  invalid_vault_label invalid_bucket_label invalid_prefix_template : ValidationError
  invalid_delete_after_days invalid_image_preset_id unknown_image_preset_vault : ValidationError
  invalid_image_preset_widths invalid_image_preset_quality invalid_route_id : ValidationError
  route_primary_required too_many_route_targets duplicate_route_vault : ValidationError
  unknown_route_vault too_many_route_replicas image_preset_on_non_image_route : ValidationError
  unknown_route_image_preset : ValidationError
  metadata : MetadataError → ValidationError

abbrev pub error_tag : ValidationError → ℕ
error_tag duplicate_provider_connection_id = 0
error_tag duplicate_vault_id = 1
error_tag duplicate_image_preset_id = 2
error_tag duplicate_route_id = 3
error_tag duplicate_asset_class_route = 4
error_tag invalid_provider_connection_id = 5
error_tag invalid_provider_connection_label = 6
error_tag invalid_secret_reference_id = 7
error_tag invalid_vault_id = 8
error_tag unknown_provider_connection = 9
error_tag invalid_vault_label = 10
error_tag invalid_bucket_label = 11
error_tag invalid_prefix_template = 12
error_tag invalid_delete_after_days = 13
error_tag invalid_image_preset_id = 14
error_tag unknown_image_preset_vault = 15
error_tag invalid_image_preset_widths = 16
error_tag invalid_image_preset_quality = 17
error_tag invalid_route_id = 18
error_tag route_primary_required = 19
error_tag too_many_route_targets = 20
error_tag duplicate_route_vault = 21
error_tag unknown_route_vault = 22
error_tag too_many_route_replicas = 23
error_tag image_preset_on_non_image_route = 24
error_tag unknown_route_image_preset = 25
error_tag (metadata invalid_safe_metadata) = 26
error_tag (metadata safe_metadata_too_large) = 27
error_tag (metadata unsafe_metadata_key) = 28

-- `new Set(values).size === values.length`
abbrev pub unique {ℓ} : {A : Type ℓ} → (A → A → Bool) → List A → Bool
unique same [] = true
unique same (x ∷ l) = not (any (same x) l) && unique same l

-- `if (test) errors.push(error)`
unfoldable pub report : Bool → ValidationError → List ValidationError
report true e = e ∷ []
report false e = []

abbrev pub has : String → List String → Bool
has x l = any (λ y. y == x) l

-- a number from `low` to `high`; all others are refused
abbrev pub in_range : ℕ → ℕ → JsNumber → Bool
in_range low high (natural n) = leb low n && leb n high
in_range low high (other s) = false

abbrev pub metadata_errors : Result MetadataError (Unit {0}) → List ValidationError
metadata_errors (ok _) = []
metadata_errors (err e) = metadata e ∷ []

abbrev pub metadata_of : Option Json → Json
metadata_of none = object last
metadata_of (some null) = object last
metadata_of (some v) = v

unfoldable pub connection_errors : ProviderConnectionInput → List ValidationError
connection_errors c =
    report (not (is_identifier c.connection_id)) invalid_provider_connection_id
    ++ (report (not (is_label c.display_label)) invalid_provider_connection_label
        ++ (report (not (is_secret_reference c.secret_reference_id)) invalid_secret_reference_id
            ++ metadata_errors (assert_safe_metadata (metadata_of c.safe_metadata))))

abbrev pub valid_retention : Retention → Bool
valid_retention permanent = true
valid_retention (delete_after_days n) = in_range 1 36500 n

module _ (to_lower_case : List ℕ → List ℕ) where
  pub is_bucket_label : String → Bool
  is_bucket_label label =
      let s = codes label in
      not (ltb (utf16_length s) 1)
      && not (ltb 255 (utf16_length s))
      && codes_beq s (to_lower_case s)
      && not (any is_space s)

  unfoldable pub vault_errors : List String → ConfigurationVaultInput → List ValidationError
  unfolding is_bucket_label
  vault_errors connection_ids v =
      report (not (is_identifier v.vault_id)) invalid_vault_id
      ++ (report (not (has v.provider_connection_id connection_ids)) unknown_provider_connection
          ++ (report (not (is_label v.display_label)) invalid_vault_label
              ++ (report (not (is_bucket_label v.bucket_label)) invalid_bucket_label
                  ++ (report (not (is_prefix_template v.prefix_template)) invalid_prefix_template
                      ++ report (not (valid_retention v.retention)) invalid_delete_after_days))))

unfoldable pub preset_errors : List String → ConfigurationImagePresetInput → List ValidationError
preset_errors vault_ids p =
    report (not (is_identifier p.preset_id)) invalid_image_preset_id
    ++ (report (not (has p.target_vault_id vault_ids)) unknown_image_preset_vault
        ++ (report
              (ltb (length p.widths) 1
                || ltb 8 (length p.widths)
                || not (unique number_beq p.widths)
                || any (λ w. not (in_range 16 16384 w)) p.widths)
              invalid_image_preset_widths
            ++ report (not (in_range 1 100 p.quality)) invalid_image_preset_quality))

abbrev pub of_role : TargetRole → ConfigurationRouteTargetInput → Bool
of_role role t = t.role == role

abbrev pub is_some {ℓ} : {A : Type ℓ} → Option A → Bool
is_some none = false
is_some (some x) = true

abbrev pub unknown_preset : List String → Option String → Bool
unknown_preset preset_ids none = false
unknown_preset preset_ids (some p) = not (has p preset_ids)

unfoldable pub route_errors :
    List String → List String → ConfigurationRouteInput → List ValidationError
route_errors vault_ids preset_ids r =
    report (not (is_identifier r.route_id)) invalid_route_id
    ++ (report (not (nat_beq (length (filter (of_role TargetRole.primary) r.targets)) 1))
          route_primary_required
        ++ (report (ltb 33 (length r.targets)) too_many_route_targets
            ++ (report (not (unique (λ a b. a == b) (map (λ t. t.vault_id) r.targets)))
                  duplicate_route_vault
                ++ (report (any (λ t. not (has t.vault_id vault_ids)) r.targets) unknown_route_vault
                    ++ (report (ltb 32 (length (filter (of_role TargetRole.replica) r.targets)))
                          too_many_route_replicas
                        ++ (report
                              (not (r.asset_class == AssetClass.image) && is_some r.image_preset_id)
                              image_preset_on_non_image_route
                            ++ report (unknown_preset preset_ids r.image_preset_id)
                                unknown_route_image_preset))))))

-- `for (const x of list) …` where each round pushes errors
pub errors_of {ℓ} : {A : Type ℓ} → (A → List ValidationError) → List A → List ValidationError
errors_of f [] = []
errors_of f (x ∷ l) = f x ++ errors_of f l

-- `[...new Set(errors)]`
pub distinct_errors : List ValidationError → List ValidationError → List ValidationError
distinct_errors seen [] = []
distinct_errors seen (e ∷ l) = elim (any (λ d. nat_beq (error_tag d) (error_tag e)) seen) [
  | true ↦ distinct_errors seen l
  | false ↦ e ∷ distinct_errors (e ∷ seen) l
]

unfoldable pub validate_configuration_draft :
    (List ℕ → List ℕ) → ConfigurationDraftDocument → List ValidationError
unfolding errors_of distinct_errors
validate_configuration_draft to_lower_case input =
    let connection_ids = map (λ c. c.connection_id) input.provider_connections in
    let vault_ids = map (λ v. v.vault_id) input.vaults in
    let preset_ids = map (λ p. p.preset_id) input.image_presets in
    let route_ids = map (λ r. r.route_id) input.routes in
    let classes = map (λ r. asset_class_tag r.asset_class) input.routes in
    distinct_errors [] (
      report (not (unique (λ a b. a == b) connection_ids)) duplicate_provider_connection_id
      ++ (report (not (unique (λ a b. a == b) vault_ids)) duplicate_vault_id
          ++ (report (not (unique (λ a b. a == b) preset_ids)) duplicate_image_preset_id
              ++ (report (not (unique (λ a b. a == b) route_ids)) duplicate_route_id
                  ++ (report (not (unique nat_beq classes)) duplicate_asset_class_route
                      ++ (errors_of connection_errors input.provider_connections
                          ++ (errors_of (vault_errors to_lower_case connection_ids) input.vaults
                              ++ (errors_of (preset_errors vault_ids) input.image_presets
                                  ++ errors_of (route_errors vault_ids preset_ids)
                                      input.routes))))))))
