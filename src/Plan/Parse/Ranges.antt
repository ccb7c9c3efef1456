-- ===== src/Plan/Parse/Ranges.antt =====
-- src/storage-control-plan.ts: what holds of a parsed vault, route or image derivative.
use z_s_app.Prelude.{
  ℕ, suc, ◌≤◌, ◌≡◌, ◌⊎◌, inl, inr, refl, sym, ap, subst, Bool, true, false, not, ◌&&◌, ◌||◌, Option,
  none, some, List, [], ◌∷◌, length, ltb, nat_beq, All, arith, if◌then◌else◌, Bool-cases, Result,
  ok, ◌>>=◌, Yields, Yields-unless, if-of_true, if-of_false, Yields-ok, Yields-err, Yields-any,
  Yields-bind, Yields-fail_if,
}
use z_s_app.Config.Document.{JsNumber, natural, other}
use z_s_app.Delivery.Decimal.{is_safe}
use z_s_app.Plan.{
  Value, Elements, Properties, RetentionPolicy, PlanAssetClass, VaultPlan, RoutePlan, PlanError,
}
use z_s_app.Plan.Parse.{
  required_string, required_label, is_identifier_text, image_format, asset_class, given_vault, get,
  provider_type, vault_role, retention_policy, is_bucket_text, number_of, is_absent, days_of,
  optional_delete_after_days, with_days, vault_of, parse_vault, is_given, is_raw_image, route_of,
  parse_route, width_of, widths_of, insert_width, sorted_widths, parse_widths, derivative_of,
  parse_image_derivative, count,
}

-- A vault keeps its objects for ever, or for one to 36500 days.
pub data IsRetained (v : VaultPlan) : Type 0 where
  for_ever :
      v.retention_policy ≡ RetentionPolicy.permanent → v.delete_after_days ≡ none → IsRetained v
  for_days :
      (n : ℕ)
      → ¬ (v.retention_policy ≡ RetentionPolicy.permanent)
      → v.delete_after_days ≡ some n
      → 1 ≤ n
      → n ≤ 36500
      → IsRetained v

-- Only a route of raw images has a vault for derivatives.
pub data IsFit (r : RoutePlan) : Type 0 where
  without : r.derivative_vault_id ≡ none → IsFit r
  of_images : r.asset_class ≡ PlanAssetClass.raw_image → IsFit r

-- The numbers ascend strictly and lie between 16 and 8192.
abbrev pub AreAbove : ℕ → List ℕ → Type 0
AreAbove low [] = Unit {0}
AreAbove low (w ∷ l) = (low ≤ w) × ((w ≤ 8192) × AreAbove (suc w) l)

-- one to eight different widths, from the least to the greatest
pub record AreWidths (l : List ℕ) : Type 0 where
  pub ascending : AreAbove 16 l
  pub some_width : 1 ≤ length l
  pub few : length l ≤ 8

InRange : Option ℕ → Type 0
InRange none = Unit {0}
InRange (some n) = (1 ≤ n) × (n ≤ 36500)

days_of-InRange : (n : JsNumber) → Yields (days_of n) InRange
unfolding InRange
days_of-InRange (natural n) =
    Yields-unless (not (is_safe n) || (ltb n 1 || ltb 36500 n)) _
      (λ f. Yields-ok (some n) (ground arith, ground arith))
days_of-InRange (other s) = Yields-err _

abbrev pub AreIn : List ℕ → Type 0
AreIn l = All (λ w. (16 ≤ w) × (w ≤ 8192)) l

width_of-In : (v : Value) → Yields (width_of v) (λ w. (16 ≤ w) × (w ≤ 8192))
width_of-In (Value.number (natural n)) =
    Yields-unless (not (is_safe n) || (ltb n 16 || ltb 8192 n)) _
      (λ f. Yields-ok n (ground arith, ground arith))
width_of-In (Value.number (other s)) = Yields-err _
width_of-In Value.missing = Yields-err _
width_of-In Value.null = Yields-err _
width_of-In Value.other = Yields-err _
width_of-In (Value.boolean b) = Yields-err _
width_of-In (Value.text s) = Yields-err _
width_of-In (Value.array items) = Yields-err _
width_of-In (Value.object entries) = Yields-err _

widths_of-In :
    (items : Elements) → Yields (widths_of items) (λ l. (length l ≡ count items) × AreIn l)
unfolding widths_of
widths_of-In Elements.no_elements = Yields-ok [] (refl, tt)
widths_of-In (Elements.element v rest) =
    Yields-bind (width_of-In v)
      (λ w h. Yields-bind (widths_of-In rest) (λ l k. Yields-ok (w ∷ l) (ap suc k.0, (h, k.1))))

insert_width-AreAbove :
    (low w : ℕ) (l : List ℕ) → low ≤ w → w ≤ 8192 → AreAbove low l → AreAbove low (insert_width w l)
unfolding insert_width
insert_width-AreAbove low w [] h k a = (h, (k, tt))
insert_width-AreAbove low w (v ∷ l) h k (above, (below, rest)) =
    let later = insert_width w l in
    elim (Bool-cases (ltb w v)) [
      | inl less ↦
          subst (AreAbove low) (sym (if-of_true _ _ less)) (h, (k, (ground arith, (below, rest))))
      | inr more ↦
          subst (AreAbove low) (sym (if-of_false _ _ more)) (elim (Bool-cases (nat_beq w v)) [
            | inl same ↦
                subst (AreAbove low) (sym (if-of_true (v ∷ l) (v ∷ later) same))
                  (above, (below, rest))
            | inr differs ↦
                subst (AreAbove low) (sym (if-of_false (v ∷ l) (v ∷ later) differs))
                  (above, (below, insert_width-AreAbove (suc v) w l (ground arith) k rest))
          ])
    ]

sorted_widths-AreAbove : (l : List ℕ) → AreIn l → AreAbove 16 (sorted_widths l)
unfolding sorted_widths
sorted_widths-AreAbove [] h = tt
sorted_widths-AreAbove (w ∷ l) ((low, high), rest) =
    insert_width-AreAbove 16 w (sorted_widths l) low high (sorted_widths-AreAbove l rest)

-- no more than one wider, and never empty
length-insert_width :
    (w : ℕ) (l : List ℕ)
    → (1 ≤ length (insert_width w l)) × (length (insert_width w l) ≤ suc (length l))
unfolding insert_width
length-insert_width w [] = (omega arith, omega arith)
length-insert_width w (v ∷ l) = let rest = length-insert_width w l in ground arith

length-sorted_widths : (l : List ℕ) → length (sorted_widths l) ≤ length l
unfolding sorted_widths
length-sorted_widths [] = omega arith
length-sorted_widths (w ∷ l) =
    let rest = length-sorted_widths l in
    let step = length-insert_width w (sorted_widths l) in omega (arith, step.1)

sorted_widths-AreWidths :
    (l : List ℕ) → 1 ≤ length l → length l ≤ 8 → AreIn l → AreWidths (sorted_widths l)
unfolding sorted_widths
sorted_widths-AreWidths [] h k a = absurd (omega arith)
sorted_widths-AreWidths (w ∷ l) h k a = record {
  ascending = sorted_widths-AreAbove (w ∷ l) a;
  some_width = (length-insert_width w (sorted_widths l)).0;
  few = let shorter = length-sorted_widths (w ∷ l) in omega arith;
}

parse_widths-AreWidths : (v : Value) → Yields (parse_widths v) AreWidths
unfolding parse_widths
parse_widths-AreWidths (Value.array items) =
    Yields-bind (Yields-fail_if (ltb (count items) 1 || ltb 8 (count items)) _) (λ u few.
      Yields-bind (widths_of-In items) (λ l h.
        let low : 1 ≤ length l = ground (arith, h.0) in
        let high : length l ≤ 8 = ground (arith, h.0) in
        Yields-ok (sorted_widths l) (sorted_widths-AreWidths l low high h.1)))
parse_widths-AreWidths (Value.number n) = Yields-err _
parse_widths-AreWidths Value.missing = Yields-err _
parse_widths-AreWidths Value.null = Yields-err _
parse_widths-AreWidths Value.other = Yields-err _
parse_widths-AreWidths (Value.boolean b) = Yields-err _
parse_widths-AreWidths (Value.text s) = Yields-err _
parse_widths-AreWidths (Value.object entries) = Yields-err _

-- `Q` holds of what is returned after a call of which nothing is asked.
Yields-after :
    {A : Type 0} {B : Type 0} {Q : B → Type 0} (r : Result PlanError A)
    {next : A → Result PlanError B}
    → ((v : A) → Yields (next v) Q)
    → Yields (r >>= next) Q
Yields-after r later = Yields-bind (Yields-any r) (λ v u. later v)

derivative_of-AreWidths :
    (entries : Properties) → Yields (derivative_of entries) (λ d. AreWidths d.widths)
derivative_of-AreWidths entries =
    Yields-after (required_string is_identifier_text entries "derivativeId") (λ id.
      Yields-after (required_string is_identifier_text entries "sourceVaultId") (λ s.
        Yields-after (required_string is_identifier_text entries "targetVaultId") (λ t.
          Yields-bind (parse_widths-AreWidths (get entries "widths")) (λ l h.
            Yields-after (required_label entries "format")
              (λ label. Yields-after (image_format label) (λ f. Yields-ok _ h))))))

pub parse_image_derivative-AreWidths :
    (v : Value) → Yields (parse_image_derivative v) (λ d. AreWidths d.widths)
unfolding parse_image_derivative
parse_image_derivative-AreWidths (Value.object entries) = derivative_of-AreWidths entries
parse_image_derivative-AreWidths (Value.number n) = Yields-err _
parse_image_derivative-AreWidths Value.missing = Yields-err _
parse_image_derivative-AreWidths Value.null = Yields-err _
parse_image_derivative-AreWidths Value.other = Yields-err _
parse_image_derivative-AreWidths (Value.boolean b) = Yields-err _
parse_image_derivative-AreWidths (Value.text s) = Yields-err _
parse_image_derivative-AreWidths (Value.array items) = Yields-err _

fit_tests :
    (o : Option (List ℕ)) (class : PlanAssetClass)
    → (is_given o && not (is_raw_image class)) ≡ false
    → (o ≡ none) ⊎ (class ≡ PlanAssetClass.raw_image)
fit_tests none class h = inl refl
fit_tests (some s) PlanAssetClass.raw_image h = inr refl
fit_tests (some s) PlanAssetClass.raw_video h = absurd (grind arith)
fit_tests (some s) PlanAssetClass.image_derivative h = absurd (grind arith)
fit_tests (some s) PlanAssetClass.document h = absurd (grind arith)

fit-of_test :
    (r : RoutePlan)
    → (is_given r.derivative_vault_id && not (is_raw_image r.asset_class)) ≡ false
    → IsFit r
fit-of_test r h = elim (fit_tests r.derivative_vault_id r.asset_class h) [
  | inl e ↦ without e
  | inr e ↦ of_images e
]

route_of-IsFit : (entries : Properties) → Yields (route_of entries) IsFit
route_of-IsFit entries = Yields-after (required_label entries "assetClass") (λ label.
    Yields-after (asset_class label) (λ class.
      Yields-after (required_string is_identifier_text entries "primaryVaultId") (λ primary.
        Yields-after (given_vault entries "replicaVaultId" (get entries "replicaVaultId"))
          (λ replica.
            Yields-after (given_vault entries "derivativeVaultId" (get entries "derivativeVaultId"))
              (λ derivative.
                Yields-bind (Yields-fail_if (is_given derivative && not (is_raw_image class)) _)
                  (λ u h. Yields-ok _ (fit-of_test _ h)))))))

pub parse_route-IsFit : (v : Value) → Yields (parse_route v) IsFit
unfolding parse_route
parse_route-IsFit (Value.object entries) = route_of-IsFit entries
parse_route-IsFit (Value.number n) = Yields-err _
parse_route-IsFit Value.missing = Yields-err _
parse_route-IsFit Value.null = Yields-err _
parse_route-IsFit Value.other = Yields-err _
parse_route-IsFit (Value.boolean b) = Yields-err _
parse_route-IsFit (Value.text s) = Yields-err _
parse_route-IsFit (Value.array items) = Yields-err _

module _ (to_number : Value → JsNumber) where
  with_days-IsRetained :
      (policy : RetentionPolicy) (days : Option ℕ) (v : VaultPlan)
      → InRange days
      → v.retention_policy ≡ policy
      → v.delete_after_days ≡ none
      → Yields (with_days to_number policy days v) IsRetained
  unfolding InRange
  with_days-IsRetained RetentionPolicy.permanent none v h p d = Yields-ok v (for_ever p d)
  with_days-IsRetained RetentionPolicy.permanent (some n) v h p d = Yields-err _
  with_days-IsRetained RetentionPolicy.hot_cache_short none v h p d = Yields-err _
  with_days-IsRetained RetentionPolicy.custom none v h p d = Yields-err _
  with_days-IsRetained RetentionPolicy.hot_cache_short (some n) v h p d =
      Yields-ok _ (for_days n (λ e. grind arith) refl h.0 h.1)
  with_days-IsRetained RetentionPolicy.custom (some n) v h p d =
      Yields-ok _ (for_days n (λ e. grind arith) refl h.0 h.1)

  InRange-if :
      (b : Bool) (r : Result PlanError (Option ℕ))
      → Yields r InRange
      → Yields (if b then ok none else r) InRange
  unfolding InRange
  InRange-if true r h = Yields-ok none tt
  InRange-if false r h = h

  optional_delete_after_days-InRange :
      (entries : Properties) → Yields (optional_delete_after_days to_number entries) InRange
  unfolding optional_delete_after_days
  optional_delete_after_days-InRange entries =
      InRange-if (is_absent (get entries "deleteAfterDays")) _
        (days_of-InRange (number_of to_number (get entries "deleteAfterDays")))

  vault_of-IsRetained : (entries : Properties) → Yields (vault_of to_number entries) IsRetained
  vault_of-IsRetained entries =
      Yields-after (required_label entries "retentionPolicy") (λ policy_label.
        Yields-after (retention_policy policy_label) (λ policy.
          Yields-bind (optional_delete_after_days-InRange entries) (λ days h.
            Yields-after (required_string is_identifier_text entries "vaultId") (λ id.
              Yields-after (required_label entries "driveLabel") (λ drive.
                Yields-after (required_label entries "providerType") (λ provider_label.
                  Yields-after (provider_type provider_label) (λ provider.
                    Yields-after (required_string is_bucket_text entries "bucketLabel") (λ bucket.
                      Yields-after (required_string is_identifier_text entries "secretReferenceId")
                        (λ secret. Yields-after (required_label entries "role") (λ role_label.
                          Yields-after (vault_role role_label)
                            (λ role. with_days-IsRetained policy days _ h refl refl)))))))))))

  pub parse_vault-IsRetained : (v : Value) → Yields (parse_vault to_number v) IsRetained
  unfolding parse_vault
  parse_vault-IsRetained (Value.object entries) = vault_of-IsRetained entries
  parse_vault-IsRetained (Value.number n) = Yields-err _
  parse_vault-IsRetained Value.missing = Yields-err _
  parse_vault-IsRetained Value.null = Yields-err _
  parse_vault-IsRetained Value.other = Yields-err _
  parse_vault-IsRetained (Value.boolean b) = Yields-err _
  parse_vault-IsRetained (Value.text s) = Yields-err _
  parse_vault-IsRetained (Value.array items) = Yields-err _
