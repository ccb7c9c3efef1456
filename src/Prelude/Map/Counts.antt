-- ===== src/Prelude/Map/Counts.antt =====
-- How many values of a `Map` of JavaScript pass a test.
use z_s_app.Prelude.{
  ◌≤◌, ◌≡◌, refl, ap, subst, ◌∙◌, String, Bool, true, false, none, some, inl, inr, [], ◌∷◌, find,
  any, Holds, here, there, arith, Bool-cases, some_same,
}
use z_s_app.Prelude.Map
use z_s_app.Prelude.Map.{Map, values, count-put}

module _ {ℓ} {V : Type ℓ} (test : V → Bool) where
  pub count-Holds :
      (m : Map V) (x : V) → Map.count test m ≡ 0 → Holds (λ y. y ≡ x) (values m) → test x ≡ false
  unfolding Map.count
  count-Holds [] x none_pass h = elim h [ ]
  count-Holds ((k, v) ∷ m) x none_pass (here e) =
      subst (λ t. test t ≡ false) e (ground (arith, none_pass))
  count-Holds ((k, v) ∷ m) x none_pass (there h) = count-Holds m x (ground (arith, none_pass)) h

  pub count-any : (m : Map V) → any test (values m) ≡ false → Map.count test m ≡ 0
  unfolding Map.count
  count-any [] h = refl
  count-any ((k, v) ∷ m) h = elim (Bool-cases (test v)) [
    | inl e ↦ absurd (ground (arith, e, h))
    | inr e ↦ ground (arith, e, h, count-any m)
  ]

  pub count-find : (m : Map V) (v : V) → find test (values m) ≡ some v → 1 ≤ Map.count test m
  unfolding Map.count find
  count-find [] v h = cc
  count-find ((k, w) ∷ m) v h = elim (Bool-cases (test w)) [
    | inl e ↦ rw e (omega arith)
    | inr e ↦ rw e (omega (arith, count-find m v (rw e at h)))
  ]

  -- A value that does not pass is put under a new key.
  pub count-put-new :
      (k : String) (v : V) (m : Map V)
      → Map.get k m ≡ none
      → test v ≡ false
      → Map.count test (Map.put k v m) ≡ Map.count test m
  count-put-new k v m new out = ground (arith, count-put test k v m, new, out)

  pub count-put-grows :
      (k : String) (v : V) (m : Map V)
      → Map.get k m ≡ none
      → Map.count test m ≤ Map.count test (Map.put k v m)
  count-put-grows k v m new = ground (arith, count-put test k v m, new)

  pub count-update_first-same :
      (other : V → Bool) (f : V → V) (m : Map V)
      → ((v : V) → test (f v) ≡ test v)
      → Map.count test (Map.update_first other f m) ≡ Map.count test m
  unfolding Map.count Map.update_first
  count-update_first-same other f [] h = refl
  count-update_first-same other f ((k, v) ∷ m) h = elim (Bool-cases (other v)) [
    | inl e ↦ rw (e, h v) refl
    | inr e ↦ rw (e, count-update_first-same other f m h) refl
  ]

  module _ (live : V → Bool) (passes : (v : V) → live v ≡ true → test v ≡ true) where
    count-live : (m : Map V) → Map.count test m ≡ 0 → Map.count live m ≡ 0
    unfolding Map.count
    count-live [] h = refl
    count-live ((k, v) ∷ m) h = ground (arith, h, passes v, count-live m)

    -- Where one value passes at most, none is live after `update_first` has ended its life.
    pub count-ended :
        (f : V → V) (m : Map V)
        → ((v : V) → live (f v) ≡ false)
        → Map.count test m ≤ 1
        → Map.count live (Map.update_first test f m) ≡ 0
    unfolding Map.count Map.update_first
    count-ended f [] ends few = refl
    count-ended f ((k, v) ∷ m) ends few = elim (Bool-cases (test v)) [
      | inl e ↦ rw (e, ends v) (omega (arith, count-live m (ground (arith, few, e))))
      | inr e ↦ rw e (ground (arith, e, passes v, few, count-ended f m ends))
    ]

    pub count-found :
        (m : Map V) (v : V)
        → find test (values m) ≡ some v
        → live v ≡ false
        → Map.count test m ≤ 1
        → Map.count live m ≡ 0
    unfolding Map.count find
    count-found [] v found dead few = refl
    count-found ((k, w) ∷ m) v found dead few = elim (Bool-cases (test w)) [
      | inl e ↦
          let same = ap live (some_same w v (rw e at found)) ∙ dead in
          rw same (omega (arith, count-live m (ground (arith, few, e))))
      | inr e ↦ ground (arith, e, passes w, few, count-found m v (rw e at found) dead)
    ]

-- A key that is missing is missing after `update_first`.
pub get-missing {ℓ} :
    {V : Type ℓ} (test : V → Bool) (f : V → V) (k : String) (m : Map V)
    → Map.get k m ≡ none
    → Map.get k (Map.update_first test f m) ≡ none
unfolding Map.get Map.update_first
get-missing test f k [] h = refl
get-missing test f k ((j, v) ∷ m) h = elim (Bool-cases (test v)) [
  | inl e ↦ rw e (ground (arith, h))
  | inr e ↦ rw e (ground (arith, h, get-missing test f k m))
]
