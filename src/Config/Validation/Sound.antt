-- ===== src/Config/Validation/Sound.antt =====
-- src/client-storage-configuration.ts: what a document without validation errors keeps to.
use z_s_app.Prelude.{
  ℕ, ◌≤◌, ◌≡◌, ◌↔◌, refl, String, Bool, true, false, ◌&&◌, not, Option, none, some, ◌⊎◌, inl, inr,
  List, [], ◌∷◌, ◌++◌, map, nat_beq, nat_beq_iff, ◌==◌, eq_iff, string_eq, filter, any, length, All,
  Holds, here, there, arith, Bool-cases,
}
use z_s_app.Config.Document.{
  TargetRole, AssetClass, JsNumber, natural, other, ConfigurationVaultInput,
  ConfigurationRouteTargetInput, ConfigurationRouteInput, ConfigurationImagePresetInput,
  ConfigurationDraftDocument, asset_class_eq, asset_class_tag, target_role_eq,
}
use z_s_app.Config.Text.{is_prefix_template}
use z_s_app.Config.Validation.{
  ValidationError, report, unique, has, in_range, of_role, is_some, unknown_preset, errors_of,
  distinct_errors, vault_errors, preset_errors, route_errors, validate_configuration_draft,
  valid_retention,
}

-- The elements differ in pairs.
abbrev pub AllDistinct {ℓ} : {A : Type ℓ} → List A → Type ℓ
AllDistinct [] = Unit
AllDistinct (x ∷ l) = All (λ y. ¬ (x ≡ y)) l × AllDistinct l

-- A number from `low` to `high`.
abbrev pub IsWithin : ℕ → ℕ → JsNumber → Type 0
IsWithin low high n = (k : ℕ) × (n ≡ natural k) × (low ≤ k) × (k ≤ high)

module _ {ℓ} {A : Type ℓ} (beq : A → A → Bool) (iff : (x y : A) → (beq x y ≡ true) ↔ (x ≡ y)) where
  none_same : (x : A) (l : List A) → any (beq x) l ≡ false → All (λ y. ¬ (x ≡ y)) l
  none_same x [] h = tt
  none_same x (y ∷ l) h = (λ e. ground (arith, (iff x y).1 e, h), none_same x l (ground (arith, h)))

  pub unique-AllDistinct : (l : List A) → unique beq l ≡ true → AllDistinct l
  unique-AllDistinct [] h = tt
  unique-AllDistinct (x ∷ l) h =
      (none_same x l (ground (arith, h)), unique-AllDistinct l (ground (arith, h)))

append-nil : (a b : List ValidationError) → (a ++ b) ≡ [] → (a ≡ []) × (b ≡ [])
append-nil [] b h = (refl, h)
append-nil (e ∷ a) b h = cc

report-nil : (b : Bool) (e : ValidationError) → report b e ≡ [] → b ≡ false
unfolding report
report-nil true e h = cc
report-nil false e h = refl

-- the first check of a row of checks reported nothing
report_first :
    (b : Bool) (e : ValidationError) (rest : List ValidationError)
    → (report b e ++ rest) ≡ []
    → (b ≡ false) × (rest ≡ [])
report_first b e rest h =
    let (first, later) = append-nil (report b e) rest h in (report-nil b e first, later)

distinct_errors-nil : (l : List ValidationError) → distinct_errors [] l ≡ [] → l ≡ []
unfolding distinct_errors
distinct_errors-nil [] h = refl
distinct_errors-nil (e ∷ l) h = cc

errors_of-nil {ℓ} :
    {A : Type ℓ} (f : A → List ValidationError) (l : List A)
    → errors_of f l ≡ []
    → All (λ x. f x ≡ []) l
unfolding errors_of
errors_of-nil f [] h = tt
errors_of-nil f (x ∷ l) h =
    let (a, b) = append-nil (f x) (errors_of f l) h in (a, errors_of-nil f l b)

All-map-All {ℓ κ μ} :
    {A : Type ℓ} {P : A → Type κ} {Q : A → Type μ} (l : List A)
    → ((x : A) → P x → Q x)
    → All P l
    → All Q l
All-map-All [] f h = tt
All-map-All (x ∷ l) f h = (f x h.0, All-map-All l f h.1)

has-Holds {ℓ} :
    {A : Type ℓ} (name_of : A → String) (k : String) (l : List A)
    → has k (map name_of l) ≡ true
    → Holds (λ x. name_of x ≡ k) l
has-Holds name_of k [] h = cc
has-Holds name_of k (x ∷ l) h = elim (Bool-cases (name_of x == k)) [
  | inl e ↦ here ((eq_iff (name_of x) k).0 e)
  | inr e ↦ there (has-Holds name_of k l (rw e at h))
]

in_range-IsWithin : (low high : ℕ) (n : JsNumber) → in_range low high n ≡ true → IsWithin low high n
in_range-IsWithin low high (natural k) h = (k, refl, ground (arith, h), ground (arith, h))
in_range-IsWithin low high (other s) h = cc

single_of {ℓ} : {A : Type ℓ} (l : List A) → nat_beq (length l) 1 ≡ true → (x : A) × (l ≡ x ∷ [])
single_of [] h = ground (arith, h)
single_of (x ∷ []) h = (x, refl)
single_of (x ∷ y ∷ l) h = ground (arith, h)

none_unknown :
    (vaults : List ConfigurationVaultInput) (l : List ConfigurationRouteTargetInput)
    → any (λ t. not (has t.vault_id (map (λ v. v.vault_id) vaults))) l ≡ false
    → All (λ t. Holds (λ v. v.vault_id ≡ t.vault_id) vaults) l
none_unknown vaults [] h = tt
none_unknown vaults (t ∷ l) h = (
  has-Holds (λ v. v.vault_id) t.vault_id vaults (ground (arith, h)),
  none_unknown vaults l (ground (arith, h)),
)

-- A route with one primary target, vaults of the document, each once, and at most 33 of them.
abbrev pub IsSoundRoute : ConfigurationDraftDocument → ConfigurationRouteInput → Type 0
IsSoundRoute d r =
    ((t : ConfigurationRouteTargetInput) × (filter (of_role TargetRole.primary) r.targets ≡ t ∷ []))
    × (length r.targets ≤ 33)
    × AllDistinct (map (λ t. t.vault_id) r.targets)
    × All (λ t. Holds (λ v. v.vault_id ≡ t.vault_id) d.vaults) r.targets
    × ((r.image_preset_id ≡ none)
        ⊎ ((p : String) × (r.image_preset_id ≡ some p)
            × (r.asset_class ≡ AssetClass.image)
            × Holds (λ q. q.preset_id ≡ p) d.image_presets))

abbrev pub IsSoundVault : ConfigurationDraftDocument → ConfigurationVaultInput → Type 0
IsSoundVault d v =
    Holds (λ c. c.connection_id ≡ v.provider_connection_id) d.provider_connections
    × (is_prefix_template v.prefix_template ≡ true)
    × (valid_retention v.retention ≡ true)

abbrev pub IsSoundPreset : ConfigurationDraftDocument → ConfigurationImagePresetInput → Type 0
IsSoundPreset d p =
    Holds (λ v. v.vault_id ≡ p.target_vault_id) d.vaults
    × (1 ≤ length p.widths)
    × (length p.widths ≤ 8)
    × All (IsWithin 16 16384) p.widths
    × IsWithin 1 100 p.quality

abbrev pub IsSound : ConfigurationDraftDocument → Type 0
IsSound d =
    AllDistinct (map (λ c. c.connection_id) d.provider_connections)
    × AllDistinct (map (λ v. v.vault_id) d.vaults)
    × AllDistinct (map (λ p. p.preset_id) d.image_presets)
    × AllDistinct (map (λ r. r.route_id) d.routes)
    × AllDistinct (map (λ r. asset_class_tag r.asset_class) d.routes)
    × All (IsSoundVault d) d.vaults
    × All (IsSoundPreset d) d.image_presets
    × All (IsSoundRoute d) d.routes

true_of_false : (b : Bool) → not b ≡ false → b ≡ true
true_of_false b h = ground (arith, h)

distinct_texts : (l : List String) → not (unique (λ a b. a == b) l) ≡ false → AllDistinct l
distinct_texts l h = unique-AllDistinct (λ a b. a == b) eq_iff l (true_of_false _ h)

preset_case :
    (d : ConfigurationDraftDocument) (class : AssetClass) (o : Option String)
    → (not (class == AssetClass.image) && is_some o) ≡ false
    → unknown_preset (map (λ q. q.preset_id) d.image_presets) o ≡ false
    → (o ≡ none)
      ⊎ ((p : String) × (o ≡ some p)
          × (class ≡ AssetClass.image)
          × Holds (λ q. q.preset_id ≡ p) d.image_presets)
preset_case d class none a b = inl refl
preset_case d class (some p) a b =
    inr (
      p,
      refl,
      ground (arith, a),
      has-Holds (λ q. q.preset_id) p d.image_presets (true_of_false _ b),
    )

route_errors-nil :
    (d : ConfigurationDraftDocument) (r : ConfigurationRouteInput)
    → route_errors (map (λ v. v.vault_id) d.vaults) (map (λ p. p.preset_id) d.image_presets) r ≡ []
    → IsSoundRoute d r
unfolding route_errors
route_errors-nil d r h =
    let (id_fine, h1) = report_first _ _ _ h in
    let (one_primary, h2) = report_first _ _ _ h1 in
    let (few, h3) = report_first _ _ _ h2 in
    let (distinct, h4) = report_first _ _ _ h3 in
    let (known, h5) = report_first _ _ _ h4 in
    let (few_replicas, h6) = report_first _ _ _ h5 in
    let (only_image, h7) = report_first _ _ _ h6 in
    (
      single_of _ (true_of_false _ one_primary),
      ground (arith, few),
      distinct_texts _ distinct,
      none_unknown d.vaults r.targets known,
      preset_case d r.asset_class r.image_preset_id only_image (report-nil _ _ h7),
    )

vault_errors-nil :
    (to_lower_case : List ℕ → List ℕ) (d : ConfigurationDraftDocument) (v : ConfigurationVaultInput)
    → vault_errors to_lower_case (map (λ c. c.connection_id) d.provider_connections) v ≡ []
    → IsSoundVault d v
unfolding vault_errors
vault_errors-nil to_lower_case d v h =
    let (id_fine, h1) = report_first _ _ _ h in
    let (known, h2) = report_first _ _ _ h1 in
    let (label_fine, h3) = report_first _ _ _ h2 in
    let (bucket_fine, h4) = report_first _ _ _ h3 in
    let (prefix_fine, h5) = report_first _ _ _ h4 in
    (
      has-Holds (λ c. c.connection_id) v.provider_connection_id d.provider_connections
          (true_of_false _ known),
      true_of_false _ prefix_fine,
      true_of_false _ (report-nil _ _ h5),
    )

All-IsWithin :
    (low high : ℕ) (l : List JsNumber)
    → any (λ w. not (in_range low high w)) l ≡ false
    → All (IsWithin low high) l
All-IsWithin low high [] h = tt
All-IsWithin low high (n ∷ l) h =
    (in_range-IsWithin low high n (ground (arith, h)), All-IsWithin low high l (ground (arith, h)))

preset_errors-nil :
    (d : ConfigurationDraftDocument) (p : ConfigurationImagePresetInput)
    → preset_errors (map (λ v. v.vault_id) d.vaults) p ≡ []
    → IsSoundPreset d p
unfolding preset_errors
preset_errors-nil d p h =
    let (id_fine, h1) = report_first _ _ _ h in
    let (known, h2) = report_first _ _ _ h1 in
    let (widths_fine, h3) = report_first _ _ _ h2 in
    (
      has-Holds (λ v. v.vault_id) p.target_vault_id d.vaults (true_of_false _ known),
      ground (arith, widths_fine),
      ground (arith, widths_fine),
      All-IsWithin 16 16384 p.widths (ground (arith, widths_fine)),
      in_range-IsWithin 1 100 p.quality (true_of_false _ (report-nil _ _ h3)),
    )

distinct_classes : (l : List ℕ) → not (unique nat_beq l) ≡ false → AllDistinct l
distinct_classes l h = unique-AllDistinct nat_beq nat_beq_iff l (true_of_false _ h)

-- A document that `validateConfigurationDraft` reports no error of has distinct connection, vault,
-- preset and route ids and one route at most for an asset class; each vault names a connection of
-- it, a prefix template of the right form and a valid retention; each preset names a vault of it
-- and has from 1 to 8 widths from 16 to 16384 and a quality from 1 to 100; each route has one
-- primary target and at most 33 targets, each a different vault of the document, and if it names a
-- preset, it is a route for images and the preset is in the document.
pub validate_configuration_draft-IsSound :
    (to_lower_case : List ℕ → List ℕ) (d : ConfigurationDraftDocument)
    → validate_configuration_draft to_lower_case d ≡ []
    → IsSound d
unfolding validate_configuration_draft
validate_configuration_draft-IsSound to_lower_case d h =
    let (connections, h1) = report_first _ _ _ (distinct_errors-nil _ h) in
    let (vaults, h2) = report_first _ _ _ h1 in
    let (presets, h3) = report_first _ _ _ h2 in
    let (routes, h4) = report_first _ _ _ h3 in
    let (classes, h5) = report_first _ _ _ h4 in
    let (each_connection, h6) = append-nil _ _ h5 in
    let (each_vault, h7) = append-nil _ _ h6 in
    let (each_preset, each_route) = append-nil _ _ h7 in
    (
      distinct_texts _ connections,
      distinct_texts _ vaults,
      distinct_texts _ presets,
      distinct_texts _ routes,
      distinct_classes _ classes,
      All-map-All _ (vault_errors-nil to_lower_case d) (errors_of-nil _ _ each_vault),
      All-map-All _ (preset_errors-nil d) (errors_of-nil _ _ each_preset),
      All-map-All _ (route_errors-nil d) (errors_of-nil _ _ each_route),
    )
