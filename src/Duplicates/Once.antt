-- ===== src/Duplicates/Once.antt =====
-- src/runtime-service.ts: an operation is started once for a key.
use z_s_app.Prelude.{
  ℕ, String, ◌≡◌, refl, ap, ◌∙◌, true, false, Option, none, some, inl, inr, List, [], ◌∷◌, nat_beq,
  ◌==◌, eq_iff, string_eq, arith, Bool-cases, Option-cases, if◌then◌else◌,
}
use z_s_app.Prelude.Map
use z_s_app.Prelude.Map.{Map, get-put, get-put-other, get-remove}
use z_s_app.Duplicates.{
  Operation, DuplicateProtectionStore, idempotency_key_reused, replays, starts, map_key, begun,
  execute, is_of, operation_threw, Step, executed, threw, cleared, run, run_all,
}

-- The step is neither the failure of the promise nor a `clear`.
abbrev pub IsOther : ℕ → Step → Type 0
IsOther promise (executed scope key fingerprint) = Unit
IsOther promise (threw scope key p) = nat_beq promise p ≡ false
IsOther promise cleared = ⊥

abbrev pub AllOther : ℕ → List Step → Type 0
AllOther promise [] = Unit
AllOther promise (step ∷ rest) = IsOther promise step × AllOther promise rest

taken_key :
    (j k : String) (m : Map Operation) (o : Operation)
    → Map.get k m ≡ some o
    → Map.get j m ≡ none
    → (j == k) ≡ false
taken_key j k m o held missing = ground (arith, held, missing, eq_iff j k)

execute-keeps :
    (scope key fingerprint k : String) (s : DuplicateProtectionStore) (o : Operation)
    → Map.get k s.entries ≡ some o
    → Map.get k (execute scope key fingerprint s).1.entries ≡ some o
unfolding execute
execute-keeps scope key fingerprint k s o held =
    elim (Option-cases (Map.get (map_key scope key) s.entries)) [
      | inl missing ↦ rw missing (
          get-put-other (map_key scope key) k _ s.entries
            (taken_key (map_key scope key) k s.entries o held missing)
          ∙ held)
      | inr (old, found) ↦ elim (Bool-cases (old.fingerprint == fingerprint)) [
        | inl same ↦ rw (found, same) held
        | inr other ↦ rw (found, other) held
      ]
    ]

threw-keeps :
    (scope key : String) (p : ℕ) (k : String) (s : DuplicateProtectionStore) (o : Operation)
    → nat_beq o.promise p ≡ false
    → Map.get k s.entries ≡ some o
    → Map.get k (operation_threw scope key p s).entries ≡ some o
unfolding operation_threw
threw-keeps scope key p k s o other held =
    elim (Bool-cases (is_of p (Map.get (map_key scope key) s.entries))) [
      | inr kept ↦ rw kept held
      | inl gone ↦ rw gone (
          get-remove (map_key scope key) k s.entries
          ∙ ap (λ b. if b then none else Map.get k s.entries)
              (not_removed (map_key scope key) s.entries gone held)
          ∙ held)
    ]
  where
    not_removed :
        (j : String) (m : Map Operation)
        → is_of p (Map.get j m) ≡ true
        → Map.get k m ≡ some o
        → (j == k) ≡ false
    not_removed j m gone held' = elim (Bool-cases (j == k)) [
      | inr e ↦ e
      | inl e ↦
          let same = (eq_iff j k).0 e in
          absurd (ground (arith, ap (is_of p) (ap (λ x. Map.get x m) same ∙ held'), gone, other))
    ]

run_all-keeps :
    (steps : List Step) (k : String) (s : DuplicateProtectionStore) (o : Operation)
    → AllOther o.promise steps
    → Map.get k s.entries ≡ some o
    → Map.get k (run_all steps s).entries ≡ some o
unfolding run_all run
run_all-keeps [] k s o others held = held
run_all-keeps (executed scope key fingerprint ∷ rest) k s o others held =
    run_all-keeps rest k (execute scope key fingerprint s).1 o others.1
      (execute-keeps scope key fingerprint k s o held)
run_all-keeps (threw scope key p ∷ rest) k s o others held =
    run_all-keeps rest k (operation_threw scope key p s) o others.1
      (threw-keeps scope key p k s o others.0 held)
run_all-keeps (cleared ∷ rest) k s o others held = absurd others.0

begun-starts :
    (k fingerprint : String) (s : DuplicateProtectionStore) (o : Option Operation) (p : ℕ)
    → (begun k fingerprint s o).0 ≡ starts p
    → (o ≡ none) × (s.next_promise ≡ p)
begun-starts k fingerprint s none p h = (refl, ground (arith, h))
begun-starts k fingerprint s (some o) p h = absurd (ground (arith, h))

put_there : (k : String) (o : Operation) (m : Map Operation) → Map.get k (Map.put k o m) ≡ some o
put_there k o m = ground (arith, get-put k k o m, eq_iff k k)

started :
    (scope key fingerprint : String) (s : DuplicateProtectionStore) (p : ℕ)
    → (execute scope key fingerprint s).0 ≡ starts p
    → Map.get (map_key scope key) (execute scope key fingerprint s).1.entries
      ≡ some (record { fingerprint = fingerprint; promise = p })
unfolding execute
started scope key fingerprint s p h =
    let (missing, same) = begun-starts (map_key scope key) fingerprint s _ p h in
    rw missing (
      put_there (map_key scope key) _ s.entries
      ∙ ap (λ n. some (record { fingerprint = fingerprint; promise = n })) same)

-- After a call has started an operation for a scope and key, and after any further calls of `execute`,
-- for any scopes and keys, and failures of other operations, in any order, a call for the scope and
-- key waits for that operation if its fingerprint is the same, and throws if it differs: no second
-- operation is started. The store has not been cleared, and the operation has not failed, in between.
pub execute-once :
    (scope key fingerprint later : String) (s : DuplicateProtectionStore) (p : ℕ)
    (steps : List Step)
    → (execute scope key fingerprint s).0 ≡ starts p
    → AllOther p steps
    → (execute scope key later (run_all steps (execute scope key fingerprint s).1)).0
      ≡ (if fingerprint == later then replays p else idempotency_key_reused)
unfolding execute
execute-once scope key fingerprint later s p steps h others =
    let held =
      run_all-keeps steps (map_key scope key) (execute scope key fingerprint s).1 _ others
        (started scope key fingerprint s p h) in
    rw held (elim (Bool-cases (fingerprint == later)) [
      | inl same ↦ rw same refl
      | inr other ↦ rw other refl
    ])
