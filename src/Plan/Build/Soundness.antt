-- ===== src/Plan/Build/Soundness.antt =====
-- src/storage-control-plan.ts: what holds of a plan that is built.
use z_s_app.Prelude.{
  Yields-weaken, ℕ, ◌≡◌, true, not, Option, none, some, List, [], ◌∷◌, any, All, Holds, here, there,
  Bool-cases, inl, inr, arith, Result, ok, Yields, Yields-ok, Yields-err, Yields-any, Yields-bind,
  Yields-fail_if,
}
use z_s_app.Config.Document.{JsNumber}
use z_s_app.Config.Validation.{unique}
use z_s_app.Config.Validation.Sound.{AllDistinct, unique-AllDistinct}
use z_s_app.Prefix.{codes_beq, codes_beq_iff}
use z_s_app.Plan.{
  Value, Elements, Properties, RoutePlan, ImageDerivativePlan, StorageControlPlan, PlanError,
}
use z_s_app.Plan.Parse.{
  get, required_string, is_identifier_text, parse_vault, parse_route, parse_image_derivative,
}
use z_s_app.Plan.Parse.Ranges.{
  IsRetained, IsFit, AreWidths, parse_vault-IsRetained, parse_route-IsFit,
  parse_image_derivative-AreWidths,
}
use z_s_app.Plan.Build.{
  parse_all, check_all, items_of, items_or_none, assert_vault_exists, assert_given, check_route,
  check_derivative, ids_of, plan_of, build_storage_control_plan,
}

-- one of the vaults of the plan
abbrev pub IsVault : List (List ℕ) → List ℕ → Type 0
IsVault vault_ids id = Holds (λ v. id ≡ v) vault_ids

abbrev pub IsVaultIfGiven : List (List ℕ) → Option (List ℕ) → Type 0
IsVaultIfGiven vault_ids none = Unit {0}
IsVaultIfGiven vault_ids (some id) = IsVault vault_ids id

-- A route that refers to vaults of the plan.
pub record IsRouted (vault_ids : List (List ℕ)) (r : RoutePlan) : Type 0 where
  pub primary : IsVault vault_ids r.primary_vault_id
  pub replica : IsVaultIfGiven vault_ids r.replica_vault_id
  pub derivative : IsVaultIfGiven vault_ids r.derivative_vault_id

pub record IsDerived (vault_ids : List (List ℕ)) (d : ImageDerivativePlan) : Type 0 where
  pub source : IsVault vault_ids d.source_vault_id
  pub target : IsVault vault_ids d.target_vault_id

-- A plan whose parts fit together.
pub record IsSoundPlan (p : StorageControlPlan) : Type 0 where
  pub distinct : AllDistinct (ids_of p.vaults)
  pub retained : All IsRetained p.vaults
  pub fit : All IsFit p.routes
  pub routed : All (IsRouted (ids_of p.vaults)) p.routes
  pub widths : All (λ d. AreWidths d.widths) p.image_derivatives
  pub derived : All (IsDerived (ids_of p.vaults)) p.image_derivatives

any-IsVault : (id : List ℕ) (l : List (List ℕ)) → any (codes_beq id) l ≡ true → IsVault l id
any-IsVault id [] h = grind arith
any-IsVault id (x ∷ l) h = elim (Bool-cases (codes_beq id x)) [
  | inl same ↦ here ((codes_beq_iff id x).0 same)
  | inr differs ↦ there (any-IsVault id l (ground (arith, differs, h)))
]

parse_all-All :
    {A : Type 0} {Q : A → Type 0} (parse : Value → Result PlanError A) (items : Elements)
    → ((v : Value) → Yields (parse v) Q)
    → Yields (parse_all parse items) (All Q)
unfolding parse_all
parse_all-All parse Elements.no_elements h = Yields-ok [] tt
parse_all-All parse (Elements.element v rest) h =
    Yields-bind (h v)
      (λ x q. Yields-bind (parse_all-All parse rest h) (λ xs qs. Yields-ok (x ∷ xs) (q, qs)))

check_all-All :
    {A : Type 0} {Q : A → Type 0} (check : A → Result PlanError (Unit {0})) (l : List A)
    → ((x : A) → Yields (check x) (λ _. Q x))
    → Yields (check_all check l) (λ _. All Q l)
unfolding check_all
check_all-All check [] h = Yields-ok tt tt
check_all-All check (x ∷ rest) h =
    Yields-bind (h x) (λ u q. Yields-weaken (check_all-All check rest h) (λ u' qs. (q, qs)))

assert_vault_exists-IsVault :
    (l : List (List ℕ)) (id : List ℕ) → Yields (assert_vault_exists l id) (λ _. IsVault l id)
assert_vault_exists-IsVault l id =
    Yields-weaken (Yields-fail_if (not (any (codes_beq id) l)) _)
      (λ u h. any-IsVault id l (ground (arith, h)))

assert_given-IsVault :
    (l : List (List ℕ)) (o : Option (List ℕ)) → Yields (assert_given l o) (λ _. IsVaultIfGiven l o)
assert_given-IsVault l none = Yields-ok tt tt
assert_given-IsVault l (some id) = assert_vault_exists-IsVault l id

check_route-IsRouted :
    (l : List (List ℕ)) (r : RoutePlan) → Yields (check_route l r) (λ _. IsRouted l r)
check_route-IsRouted l r = Yields-bind (assert_vault_exists-IsVault l r.primary_vault_id) (λ u p.
    Yields-bind (assert_given-IsVault l r.replica_vault_id) (λ u' q.
      Yields-weaken (assert_given-IsVault l r.derivative_vault_id)
        (λ u'' d. record { primary = p; replica = q; derivative = d })))

check_derivative-IsDerived :
    (l : List (List ℕ)) (d : ImageDerivativePlan)
    → Yields (check_derivative l d) (λ _. IsDerived l d)
check_derivative-IsDerived l d =
    Yields-bind (assert_vault_exists-IsVault l d.source_vault_id) (λ u p.
      Yields-weaken (assert_vault_exists-IsVault l d.target_vault_id)
        (λ u' q. record { source = p; target = q }))

module _ (to_number : Value → JsNumber) where
  plan_of-IsSoundPlan : (input : Properties) → Yields (plan_of to_number input) IsSoundPlan
  plan_of-IsSoundPlan input =
      Yields-bind (Yields-any (items_of (get input "vaults"))) (λ vault_items u1.
        Yields-bind (Yields-any (items_of (get input "routes"))) (λ route_items u2.
          Yields-bind
            (parse_all-All (parse_vault to_number) vault_items (parse_vault-IsRetained to_number))
            (λ vaults retained.
              Yields-bind (Yields-fail_if (not (unique codes_beq (ids_of vaults))) _)
                (λ u3 distinct.
                  Yields-bind (parse_all-All parse_route route_items parse_route-IsFit)
                    (λ routes fit.
                      Yields-bind
                        (check_all-All (check_route (ids_of vaults)) routes
                          (check_route-IsRouted (ids_of vaults)))
                        (λ u4 routed.
                          Yields-bind
                            (parse_all-All parse_image_derivative
                              (items_or_none (get input "imageDerivatives"))
                              parse_image_derivative-AreWidths)
                            (λ derivatives widths.
                              Yields-bind
                                (check_all-All (check_derivative (ids_of vaults)) derivatives
                                  (check_derivative-IsDerived (ids_of vaults)))
                                (λ u5 derived.
                                  Yields-bind
                                    (Yields-any
                                      (required_string is_identifier_text input "clientId"))
                                    (λ client u6.
                                      Yields-bind
                                        (Yields-any
                                          (required_string is_identifier_text input "tokenPurpose"))
                                        (λ purpose u7. Yields-ok _ (record {
                                          distinct =
                                              unique-AllDistinct codes_beq codes_beq_iff
                                                (ids_of vaults) (ground (arith, distinct));
                                          retained = retained;
                                          fit = fit;
                                          routed = routed;
                                          widths = widths;
                                          derived = derived;
                                        })))))))))))

  build-Yields : (input : Value) → Yields (build_storage_control_plan to_number input) IsSoundPlan
  unfolding build_storage_control_plan
  build-Yields (Value.object entries) = plan_of-IsSoundPlan entries
  build-Yields (Value.number n) = Yields-err _
  build-Yields Value.missing = Yields-err _
  build-Yields Value.null = Yields-err _
  build-Yields Value.other = Yields-err _
  build-Yields (Value.boolean b) = Yields-err _
  build-Yields (Value.text s) = Yields-err _
  build-Yields (Value.array items) = Yields-err _

  -- A plan that is built fits together, whatever value it was read from: its vaults have different ids
  -- and keep objects for ever or for one to 36500 days, its routes and image derivatives refer to its
  -- vaults, only routes of raw images have a vault for derivatives, and each derivative has one to
  -- eight ascending widths between 16 and 8192.
  pub build_storage_control_plan-IsSoundPlan :
      (input : Value) (plan : StorageControlPlan)
      → build_storage_control_plan to_number input ≡ ok plan
      → IsSoundPlan plan
  build_storage_control_plan-IsSoundPlan input plan same = (build-Yields input).apply plan same
