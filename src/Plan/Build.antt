-- ===== src/Plan/Build.antt =====
-- src/storage-control-plan.ts: `buildStorageControlPlan`.
pub mod Soundness
use z_s_app.Prelude.{
  ℕ, String, Bool, true, false, not, Option, none, some, List, [], ◌∷◌, map, any, Result, ok, err,
  ◌>>=◌, ◌>>◌, fail_if,
}
use z_s_app.Config.Document.{JsNumber}
use z_s_app.Config.Validation.{unique}
use z_s_app.Prefix.{codes_beq}
use z_s_app.Plan.{
  Value, Elements, Properties, VaultPlan, RoutePlan, ImageDerivativePlan, StorageControlPlan,
  PlanError, invalid, duplicate_vault, unknown_vault,
}
use z_s_app.Plan.Parse.{
  get, required_string, is_identifier_text, parse_vault, parse_route, parse_image_derivative,
}

-- `items.map(parse)`, which throws what the first failing call throws
unfoldable pub parse_all {ℓ} :
    {A : Type ℓ} → (Value → Result PlanError A) → Elements → Result PlanError (List A)
parse_all parse Elements.no_elements = ok []
parse_all parse (Elements.element v rest) =
    let later = parse_all parse rest in do x ← parse v; xs ← later; ok (x ∷ xs)

-- a loop of checks
unfoldable pub check_all {ℓ} :
    {A : Type ℓ} → (A → Result PlanError (Unit {0})) → List A → Result PlanError (Unit {0})
check_all check [] = ok tt
check_all check (x ∷ rest) = let later = check_all check rest in check x >> later

abbrev pub items_of : Value → Result PlanError Elements
items_of (Value.array items) = ok items
items_of _ = err (invalid "plan")

abbrev pub items_or_none : Value → Elements
items_or_none (Value.array items) = items
items_or_none _ = Elements.no_elements

abbrev pub assert_vault_exists : List (List ℕ) → List ℕ → Result PlanError (Unit {0})
assert_vault_exists vault_ids id = fail_if (not (any (codes_beq id) vault_ids)) unknown_vault

abbrev pub assert_given : List (List ℕ) → Option (List ℕ) → Result PlanError (Unit {0})
assert_given vault_ids none = ok tt
assert_given vault_ids (some id) = assert_vault_exists vault_ids id

abbrev pub check_route : List (List ℕ) → RoutePlan → Result PlanError (Unit {0})
check_route vault_ids route = do
  assert_vault_exists vault_ids route.primary_vault_id
  assert_given vault_ids route.replica_vault_id
  assert_given vault_ids route.derivative_vault_id

abbrev pub check_derivative : List (List ℕ) → ImageDerivativePlan → Result PlanError (Unit {0})
check_derivative vault_ids derivative = do
  assert_vault_exists vault_ids derivative.source_vault_id
  assert_vault_exists vault_ids derivative.target_vault_id

abbrev pub ids_of : List VaultPlan → List (List ℕ)
ids_of vaults = map (λ v. v.vault_id) vaults

module _ (to_number : Value → JsNumber) where
  abbrev pub plan_of : Properties → Result PlanError StorageControlPlan
  plan_of input = do
    vault_items ← items_of (get input "vaults")
    route_items ← items_of (get input "routes")
    vaults ← parse_all (parse_vault to_number) vault_items
    fail_if (not (unique codes_beq (ids_of vaults))) duplicate_vault
    routes ← parse_all parse_route route_items
    check_all (check_route (ids_of vaults)) routes
    derivatives ← parse_all parse_image_derivative (items_or_none (get input "imageDerivatives"))
    check_all (check_derivative (ids_of vaults)) derivatives
    client_id ← required_string is_identifier_text input "clientId"
    token_purpose ← required_string is_identifier_text input "tokenPurpose"
    ok (record {
      client_id = client_id;
      token_purpose = token_purpose;
      vaults = vaults;
      routes = routes;
      image_derivatives = derivatives;
    })

  unfoldable pub build_storage_control_plan : Value → Result PlanError StorageControlPlan
  unfolding get required_string is_identifier_text parse_all check_all parse_vault parse_route
      parse_image_derivative
  build_storage_control_plan (Value.object input) = plan_of input
  build_storage_control_plan _ = err (invalid "plan")
