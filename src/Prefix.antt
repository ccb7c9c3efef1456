-- ===== src/Prefix.antt =====
-- src/prefix-authorizer.ts: object keys, key patterns and the prefix classes of a profile.
-- Keys are walked by code points; each character that the source looks for is a single one.
pub mod Keys
pub mod Matching
pub mod Authority
use z_s_app.Prelude.{
  ◌≡◌, ◌↔◌, ◌∙◌, refl, ap, nat_beq_iff, &&-true, arith, ℕ, zero, suc, String, Bool, true, false,
  ◌&&◌, ◌||◌, not, Option, none, some, List, [], ◌∷◌, ◌++◌, nat_beq, ltb, ◌==◌, nat_eq, string_eq,
  if◌then◌else◌, length, codes, filter, any, Result, ok, err, ◌>>=◌,
}
use z_s_app.Domain.{
  OperationClass, ActiveStatus, ControlPlaneErrorCode, prefix_class_not_found,
  prefix_class_ambiguous, object_key_outside_prefix, operation_class_eq, active_status_eq,
}
use z_s_app.Records.{StoragePrefixClass}

-- `text.includes(character)`
abbrev pub includes : ℕ → List ℕ → Bool
includes c s = any (λ d. nat_beq d c) s

-- `text.startsWith(character)`
abbrev pub starts_with_char : ℕ → List ℕ → Bool
starts_with_char c [] = false
starts_with_char c (d ∷ s) = nat_beq d c

-- `text.endsWith(character)`
abbrev pub ends_with_char : ℕ → List ℕ → Bool
ends_with_char c [] = false
ends_with_char c (d ∷ []) = nat_beq d c
ends_with_char c (d ∷ e ∷ s) = ends_with_char c (e ∷ s)

-- `text.slice(0, -1)`
abbrev pub drop_last : List ℕ → List ℕ
drop_last [] = []
drop_last (d ∷ []) = []
drop_last (d ∷ e ∷ s) = d ∷ drop_last (e ∷ s)

-- `text.startsWith(prefix)`
abbrev pub starts_with : List ℕ → List ℕ → Bool
starts_with [] s = true
starts_with (c ∷ p) [] = false
starts_with (c ∷ p) (d ∷ s) = nat_beq d c && starts_with p s

abbrev pub codes_beq : List ℕ → List ℕ → Bool
codes_beq [] [] = true
codes_beq (c ∷ s) (d ∷ t) = nat_beq c d && codes_beq s t
codes_beq _ _ = false

pub codes_beq_iff : (s t : List ℕ) → (codes_beq s t ≡ true) ↔ (s ≡ t)
codes_beq_iff [] [] = (λ h. refl, λ h. refl)
codes_beq_iff [] (d ∷ t) = (λ h. grind arith, λ h. grind arith)
codes_beq_iff (c ∷ s) [] = (λ h. grind arith, λ h. grind arith)
codes_beq_iff (c ∷ s) (d ∷ t) = (
  λ h.
      let both = &&-true (nat_beq c d) (codes_beq s t) h in
      let first = (nat_beq_iff c d).0 both.0 in let rest = (codes_beq_iff s t).0 both.1 in cc,
  λ e.
      let first : c ≡ d = cc in
      let rest : s ≡ t = cc in
      let beq = (nat_beq_iff c d).1 first in
      let later = (codes_beq_iff s t).1 rest in ap (λ b. b && codes_beq s t) beq ∙ later,
)

-- `text.split('/')`: `cur` holds the characters of the open segment.
pub split_from : List ℕ → List ℕ → List (List ℕ)
split_from cur [] = cur ∷ []
split_from cur (c ∷ s) =
    let closed = cur ∷ split_from [] s in
    let longer = split_from (cur ++ c ∷ []) s in if nat_beq c b'/' then closed else longer

pub split : List ℕ → List (List ℕ)
unfolding split_from
split s = split_from [] s

unfoldable pub pattern_prefix : List ℕ → Result ControlPlaneErrorCode (List ℕ)
pattern_prefix p =
    if not (ends_with_char b'*' p) || includes 92 p || starts_with_char b'/' p
    then err prefix_class_not_found
    else ok (drop_last p)

pub is_valid_key : List ℕ → Bool
unfolding split
is_valid_key key =
    not (nat_beq (length key) 0 || includes 92 key || starts_with_char b'/' key)
    && not
        (any (codes_beq (b'.' ∷ b'.' ∷ [])) (split key) || any (codes_beq (b'.' ∷ [])) (split key))

pub key_matches : List ℕ → List ℕ → Result ControlPlaneErrorCode Bool
unfolding is_valid_key pattern_prefix
key_matches key p = if not (is_valid_key key) then ok false else do
  prefix ← pattern_prefix p
  ok (starts_with prefix key && ltb (length prefix) (length key))

unfoldable pub object_key_matches_pattern : String → String → Result ControlPlaneErrorCode Bool
unfolding key_matches
object_key_matches_pattern object_key p = key_matches (codes object_key) (codes p)

abbrev pub is_active_class : String → ℕ → OperationClass → StoragePrefixClass → Bool
is_active_class profile_id version operation r =
    r.profile_id == profile_id
    && r.profile_version == version
    && r.operation_class == operation
    && r.status == ActiveStatus.active

-- no match, several matches, or the one match
pub single_class : List StoragePrefixClass → Result ControlPlaneErrorCode StoragePrefixClass
single_class [] = err prefix_class_not_found
single_class (r ∷ []) = ok r
single_class (r ∷ s ∷ rest) = err prefix_class_ambiguous

module _ (prefix_classes : List StoragePrefixClass) where
  unfoldable pub find_active_prefix_class :
      String → ℕ → OperationClass → Result ControlPlaneErrorCode StoragePrefixClass
  unfolding single_class
  find_active_prefix_class profile_id version operation =
      single_class (filter (is_active_class profile_id version operation) prefix_classes)

  unfoldable pub assert_object_key_allowed :
      String → ℕ → OperationClass → String → Result ControlPlaneErrorCode (Unit {0})
  assert_object_key_allowed profile_id version operation object_key = do
    prefix_class ← find_active_prefix_class profile_id version operation
    allowed ← object_key_matches_pattern object_key prefix_class.normalized_prefix_pattern
    if allowed then ok tt else err object_key_outside_prefix
