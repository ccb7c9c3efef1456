-- ===== src/Prefix/Matching.antt =====
-- src/prefix-authorizer.ts: when a key matches a pattern, described without the code's tests.
use z_s_app.Prelude.{
  ℕ, ◌≡◌, refl, sym, ap, ◌∙◌, ◌≢◌, inl, inr, Bool, true, false, ◌&&◌, ◌||◌, not, List, [], ◌∷◌,
  ◌++◌, arith, nat_beq, length, All, Bool-cases,
}
use z_s_app.Prefix.{starts_with_char, split_from, split, is_valid_key}
use z_s_app.Prefix.Keys.{
  Without, tails, join, IsPlain, IsSafeKey, includes_iff, any_codes_iff, tails-split_from,
  split_from-Without, split_from-tails,
}

-- `pattern` is a prefix and a star, and `key` goes on behind that prefix.
pub record IsPatternOf (p key : List ℕ) : Type 0 where
  pub prefix : List ℕ
  pub first : ℕ
  pub rest : List ℕ
  pub starred : p ≡ prefix ++ b'*' ∷ []
  pub no_backslash : Without 92 p
  pub relative : starts_with_char b'/' p ≡ false
  pub continued : key ≡ prefix ++ first ∷ rest

combine_segments :
    (l : List (List ℕ))
    → All (Without b'/') l
    → All (λ y. y ≢ b'.' ∷ b'.' ∷ []) l
    → All (λ y. y ≢ b'.' ∷ []) l
    → All IsPlain l
combine_segments [] a b c = tt
combine_segments (x ∷ l) a b c =
    (record { no_slash = a.0; not_dot = c.0; not_dot_dot = b.0 }, combine_segments l a.1 b.1 c.1)

plain_parts :
    (l : List (List ℕ))
    → All IsPlain l
    → All (Without b'/') l × All (λ y. y ≢ b'.' ∷ b'.' ∷ []) l × All (λ y. y ≢ b'.' ∷ []) l
plain_parts [] h = (tt, tt, tt)
plain_parts (x ∷ l) h =
    let (a, b, c) = plain_parts l h.1 in ((h.0.no_slash, a), (h.0.not_dot_dot, b), (h.0.not_dot, c))

split_from-cons : (cur s : List ℕ) → (x : List ℕ) × (r : List (List ℕ)) × (split_from cur s ≡ x ∷ r)
unfolding split_from
split_from-cons cur [] = (cur, [], refl)
split_from-cons cur (c ∷ s) = elim (Bool-cases (nat_beq c b'/')) [
  | inl e ↦ (cur, split_from [] s, rw e)
  | inr e ↦ let (x, r, h) = split_from-cons (cur ++ c ∷ []) s in (x, r, rw e h)
]

cons-tail {ℓ} : {A : Type ℓ} {x y : A} {s t : List A} → x ∷ s ≡ y ∷ t → s ≡ t
cons-tail h = cc

join-split : (s : List ℕ) → join (split s) ≡ s
unfolding split
join-split s =
    let (x, r, h) = split_from-cons [] s in
    rw h (cons-tail (ap tails (sym h) ∙ tails-split_from [] s))

relative_of : (s : List ℕ) → starts_with_char b'/' s ≡ false → (rest : List ℕ) → s ≢ b'/' ∷ rest
relative_of [] h rest e = cc
relative_of (c ∷ s) h rest e = ground arith

of_relative : (s : List ℕ) → ((rest : List ℕ) → s ≢ b'/' ∷ rest) → starts_with_char b'/' s ≡ false
of_relative [] h = refl
of_relative (c ∷ s) h = elim (Bool-cases (nat_beq c b'/')) [
  | inl e ↦ absurd (h s (ap (λ d. d ∷ s) (ground arith)))
  | inr e ↦ e
]

nonempty_of : (s : List ℕ) → nat_beq (length s) 0 ≡ false → s ≢ []
nonempty_of [] h e = cc
nonempty_of (c ∷ s) h e = cc

of_nonempty : (s : List ℕ) → s ≢ [] → nat_beq (length s) 0 ≡ false
of_nonempty [] h = absurd (h refl)
of_nonempty (c ∷ s) h = ground arith

valid_parts :
    (a b c d e : Bool)
    → (not (a || b || c) && not (d || e)) ≡ true
    → (a ≡ false) × (b ≡ false) × (c ≡ false) × (d ≡ false) × (e ≡ false)
valid_parts a b c d e h = ground arith

pub IsSafeKey-is_valid_key : (key : List ℕ) → is_valid_key key ≡ true → IsSafeKey key
unfolding is_valid_key
IsSafeKey-is_valid_key key h =
    let (a, b, c, d, e) = valid_parts _ _ _ _ _ h in
    record {
      nonempty = nonempty_of key a;
      no_backslash = (includes_iff 92 key).0 b;
      relative = relative_of key c;
      segments = split key;
      plain =
          combine_segments (split key) (unfold split in split_from-Without [] key tt)
            ((any_codes_iff _ (split key)).0 d) ((any_codes_iff _ (split key)).0 e);
      joined = join-split key;
    }

split-join : (l : List (List ℕ)) → l ≢ [] → All (Without b'/') l → split (join l) ≡ l
unfolding split
split-join [] n h = absurd (n refl)
split-join (x ∷ r) n h = split_from-tails r [] x h.0 h.1

pub is_valid_key-IsSafeKey : (key : List ℕ) → IsSafeKey key → is_valid_key key ≡ true
unfolding is_valid_key
is_valid_key-IsSafeKey key h =
    let (a, b, c) = plain_parts h.segments h.plain in
    let nonempty : h.segments ≢ [] = λ e. h.nonempty (sym h.joined ∙ ap join e) in
    let same : split key ≡ h.segments =
      ap split (sym h.joined) ∙ split-join h.segments nonempty a in
    rw (
      of_nonempty key h.nonempty,
      (includes_iff 92 key).1 h.no_backslash,
      of_relative key h.relative,
      same,
      (any_codes_iff _ h.segments).1 b,
      (any_codes_iff _ h.segments).1 c,
    )
