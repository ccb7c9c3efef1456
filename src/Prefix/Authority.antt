-- ===== src/Prefix/Authority.antt =====
-- src/prefix-authorizer.ts: the meaning of a match, and of an allowed object key.
use mathlib.Core.Bool.{false≢true}
use z_s_app.Prelude.{
  ℕ, String, ◌≡◌, refl, ap, ◌∙◌, ◌↔◌, inl, inr, Bool, true, false, ◌||◌, not, List, [], ◌∷◌, ◌++◌,
  arith, ltb, length, codes, if◌then◌else◌, Bool-cases, ok, err, bind-eq-ok, filter, &&-true,
  ok-injective,
}
use z_s_app.Domain.{
  ControlPlaneErrorCode, OperationClass, prefix_class_not_found, object_key_outside_prefix,
}
use z_s_app.Records.{StoragePrefixClass}
use z_s_app.Prefix.{
  ends_with_char, drop_last, starts_with, pattern_prefix, is_valid_key, key_matches,
  object_key_matches_pattern, find_active_prefix_class, assert_object_key_allowed, single_class,
  is_active_class,
}
use z_s_app.Prefix.Keys.{IsSafeKey, includes_iff}
use z_s_app.Prefix.Matching.{IsPatternOf, IsSafeKey-is_valid_key, is_valid_key-IsSafeKey}

ends_with_char_lem : (c : ℕ) (p : List ℕ) → ends_with_char c p ≡ true → p ≡ drop_last p ++ c ∷ []
ends_with_char_lem c [] h = cc
ends_with_char_lem c (d ∷ []) h = ground arith
ends_with_char_lem c (d ∷ e ∷ p) h = ap (λ t. d ∷ t) (ends_with_char_lem c (e ∷ p) h)

ends_with_char-append : (c : ℕ) (q : List ℕ) → ends_with_char c (q ++ c ∷ []) ≡ true
ends_with_char-append c [] = ground arith
ends_with_char-append c (d ∷ []) = ground arith
ends_with_char-append c (d ∷ e ∷ q) = ends_with_char-append c (e ∷ q)

drop_last-append : (c : ℕ) (q : List ℕ) → drop_last (q ++ c ∷ []) ≡ q
drop_last-append c [] = refl
drop_last-append c (d ∷ []) = refl
drop_last-append c (d ∷ e ∷ q) = ap (λ t. d ∷ t) (drop_last-append c (e ∷ q))

starts_with_lem :
    (p s : List ℕ)
    → starts_with p s ≡ true
    → ltb (length p) (length s) ≡ true
    → (first : ℕ) × (rest : List ℕ) × (s ≡ p ++ first ∷ rest)
starts_with_lem [] [] h k = absurd (ground arith)
starts_with_lem [] (d ∷ s) h k = (d, s, refl)
starts_with_lem (c ∷ p) [] h k = absurd (ground arith)
starts_with_lem (c ∷ p) (d ∷ s) h k =
    let (x, r, e) = starts_with_lem p s (ground arith) (ground arith) in (x, r, ground (arith, e))

starts_with-append :
    (p : List ℕ) (first : ℕ) (rest : List ℕ)
    → (starts_with p (p ++ first ∷ rest) ≡ true)
      × (ltb (length p) (length (p ++ first ∷ rest)) ≡ true)
starts_with-append [] first rest = (refl, ground arith)
starts_with-append (c ∷ p) first rest =
    let (a, b) = starts_with-append p first rest in (ground arith, ground arith)

prefix_parts :
    (a b c : Bool) (q r : List ℕ)
    → (if not a || b || c then err prefix_class_not_found else ok q) ≡ ok r
    → (a ≡ true) × (b ≡ false) × (c ≡ false) × (q ≡ r)
prefix_parts a b c q r h = ground arith

key_matches-IsPatternOf :
    (key p : List ℕ) → key_matches key p ≡ ok true → IsSafeKey key × IsPatternOf p key
unfolding key_matches
key_matches-IsPatternOf key p h = elim (Bool-cases (is_valid_key key)) [
  | inr invalid ↦
      absurd (false≢true (ok-injective {E = ControlPlaneErrorCode} false true (rw invalid at h)))
  | inl valid ↦
      let (prefix, found, matched) = bind-eq-ok (pattern_prefix p) _ (rw valid at h) in
      let (a, b, c, e) = prefix_parts _ _ _ _ _ found in
      let (starts, longer) = &&-true _ _ (ok-injective _ true matched) in
      let (first, rest, continued) = starts_with_lem prefix key starts longer in
      (
        IsSafeKey-is_valid_key key valid,
        record {
          prefix = prefix;
          first = first;
          rest = rest;
          starred = ends_with_char_lem b'*' p a ∙ ap (λ t. t ++ b'*' ∷ []) e;
          no_backslash = (includes_iff 92 p).0 b;
          relative = c;
          continued = continued;
        },
      )
]

pattern_prefix_of : (p key : List ℕ) (h : IsPatternOf p key) → pattern_prefix p ≡ ok h.prefix
unfolding pattern_prefix
pattern_prefix_of p key h =
    let ends : ends_with_char b'*' p ≡ true =
      ap (ends_with_char b'*') h.starred ∙ ends_with_char-append b'*' h.prefix in
    let dropped : drop_last p ≡ h.prefix =
      ap drop_last h.starred ∙ drop_last-append b'*' h.prefix in
    rw (ends, (includes_iff 92 p).1 h.no_backslash, h.relative, dropped)

IsPatternOf-key_matches :
    (key p : List ℕ) → IsSafeKey key → IsPatternOf p key → key_matches key p ≡ ok true
unfolding key_matches
IsPatternOf-key_matches key p safe h =
    let (starts, longer) = starts_with-append h.prefix h.first h.rest in
    let starts' : starts_with h.prefix key ≡ true =
      ap (starts_with h.prefix) h.continued ∙ starts in
    let longer' : ltb (length h.prefix) (length key) ≡ true =
      ap (λ s. ltb (length h.prefix) (length s)) h.continued ∙ longer in
    rw (is_valid_key-IsSafeKey key safe, pattern_prefix_of p key h, starts', longer')

-- A key matches a pattern exactly when it is a relative path of plain segments, with no backslash,
-- the pattern is a relative prefix with a star behind it, and the key goes on behind the prefix.
pub object_key_matches_pattern_iff :
    (object_key p : String)
    → (object_key_matches_pattern object_key p ≡ ok true)
      ↔ (IsSafeKey (codes object_key) × IsPatternOf (codes p) (codes object_key))
unfolding object_key_matches_pattern
object_key_matches_pattern_iff object_key p = (
  key_matches-IsPatternOf (codes object_key) (codes p),
  (λ h. IsPatternOf-key_matches (codes object_key) (codes p) h.0 h.1),
)

single_class-eq-ok :
    (l : List StoragePrefixClass) {r : StoragePrefixClass} → single_class l ≡ ok r → l ≡ r ∷ []
unfolding single_class
single_class-eq-ok [] h = cc
single_class-eq-ok (a ∷ []) h = cc
single_class-eq-ok (a ∷ b ∷ l) h = cc

pub allowed-eq-ok :
    (b : Bool) {u : Unit {0}}
    → (if b then ok tt else err object_key_outside_prefix) ≡ ok u
    → b ≡ true
allowed-eq-ok true h = refl
allowed-eq-ok false h = cc

-- An object key is allowed only where the profile has exactly one active class for the operation,
-- and then the key is safe and lies behind the prefix of that class.
pub assert_object_key_allowed_sound :
    (classes : List StoragePrefixClass) (profile_id : String) (version : ℕ)
    (operation : OperationClass) (object_key : String)
    → assert_object_key_allowed classes profile_id version operation object_key ≡ ok tt
    → (r : StoragePrefixClass) × (filter (is_active_class profile_id version operation) classes
        ≡ r ∷ [])
      × IsSafeKey (codes object_key)
      × IsPatternOf (codes r.normalized_prefix_pattern) (codes object_key)
unfolding assert_object_key_allowed find_active_prefix_class
assert_object_key_allowed_sound classes profile_id version operation object_key h =
    let (r, found, h1) = bind-eq-ok _ _ h in
    let (b, matched, h2) = bind-eq-ok _ _ h1 in
    let e = allowed-eq-ok b h2 in
    let (safe, behind) =
      (object_key_matches_pattern_iff object_key r.normalized_prefix_pattern).0
        (matched ∙ ap ok e) in
    (r, single_class-eq-ok _ found, safe, behind)
