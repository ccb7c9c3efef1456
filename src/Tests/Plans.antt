-- ===== src/Tests/Plans.antt =====
-- src/storage-control-plan.ts: a plan with two vaults, a route and an image derivative.
use z_s_app.Prelude.{◌≡◌, refl, String, List, [], ◌∷◌, codes, ok, err}
use z_s_app.Config.Document.{JsNumber, natural, other}
use z_s_app.Config.Text.{utf16_length, is_space}
use z_s_app.Delivery.Decimal.{trim_start, trim_end}
use z_s_app.Plan.{Value, Elements, Properties, StorageControlPlan, duplicate_vault}
use z_s_app.Plan.Parse.{
  get, is_identifier_text, is_bucket_text, required_string, required_label,
  optional_delete_after_days, parse_vault, parse_route, widths_of, insert_width, sorted_widths,
  parse_widths, parse_image_derivative,
}
use z_s_app.Plan.Build.{parse_all, check_all, build_storage_control_plan}
use z_s_app.Plan.Build.Soundness.{IsSoundPlan, build_storage_control_plan-IsSoundPlan}

plans : Unit {0}
unfolding utf16_length is_space trim_start trim_end get is_identifier_text is_bucket_text
    required_string required_label optional_delete_after_days parse_vault parse_route widths_of
    insert_width sorted_widths parse_widths parse_image_derivative parse_all check_all
    build_storage_control_plan
plans = tt

abbrev to_number : Value → JsNumber
to_number v = other "NaN"

abbrev text_of : String → Value
text_of s = Value.text (codes s)

abbrev fields : List (String × Value) → Properties
fields [] = Properties.no_properties
fields ((name, v) ∷ rest) = Properties.property name v (fields rest)

abbrev items : List Value → Elements
items [] = Elements.no_elements
items (v ∷ rest) = Elements.element v (items rest)

abbrev vault : String → String → Value → Value
vault id policy days = Value.object (
    fields (
      ("vaultId", text_of id)
      ∷ ("driveLabel", text_of " Drive ")
      ∷ ("providerType", text_of "r2")
      ∷ ("bucketLabel", text_of "bucket-1")
      ∷ ("secretReferenceId", text_of "key-1")
      ∷ ("retentionPolicy", text_of policy)
      ∷ ("deleteAfterDays", days)
      ∷ ("role", text_of "canonical")
      ∷ []))

abbrev plan_with : String → Value
plan_with second = Value.object (
    fields (
      ("clientId", text_of "shop")
      ∷ ("tokenPurpose", text_of "uploads")
      ∷ (
        "vaults",
        Value.array (
            items (
              vault "main" "permanent" Value.missing
              ∷ vault second "custom" (Value.number (natural 30))
              ∷ [])),
      )
      ∷ (
        "routes",
        Value.array (
            items (
              Value.object (
                fields (
                  ("assetClass", text_of "raw-image")
                  ∷ ("primaryVaultId", text_of "main")
                  ∷ ("derivativeVaultId", text_of "small")
                  ∷ []))
              ∷ [])),
      )
      ∷ (
        "imageDerivatives",
        Value.array (
            items (
              Value.object (
                fields (
                  ("derivativeId", text_of "thumb")
                  ∷ ("sourceVaultId", text_of "main")
                  ∷ ("targetVaultId", text_of "small")
                  ∷ (
                    "widths",
                    Value.array (
                        items (
                          Value.number (natural 640)
                          ∷ Value.number (natural 320)
                          ∷ Value.number (natural 640)
                          ∷ [])),
                  )
                  ∷ ("format", text_of "webp")
                  ∷ []))
              ∷ [])),
      )
      ∷ []))

refused : build_storage_control_plan to_number (plan_with "main") ≡ err duplicate_vault
unfolding plans
refused = refl

built :
    (plan : StorageControlPlan) × (build_storage_control_plan to_number (plan_with "small")
      ≡ ok plan)
unfolding plans
built = (_, refl)

build_storage_control_plan-IsSoundPlan_example : IsSoundPlan built.0
build_storage_control_plan-IsSoundPlan_example =
    build_storage_control_plan-IsSoundPlan to_number (plan_with "small") built.0 built.1
