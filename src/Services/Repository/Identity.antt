-- ===== src/Services/Repository/Identity.antt =====
-- src/storage-service-memory.ts: what no request changes in a stored service.
use z_s_app.Prelude.{
  ℕ, String, ◌≡◌, refl, sym, ap, subst, ◌∙◌, false, none, some, inl, inr, List, [], ◌∷◌, ◌++◌,
  arith, Bool-cases, Option-cases, if◌then◌else◌, ◌==◌, eq_iff, string_eq,
}
use z_s_app.Prelude.Map
use z_s_app.Prelude.Map.{Map, get-put, get-put-other}
use z_s_app.Config.Document.{ClientStorageEnvironment}
use z_s_app.Services.{StorageServiceActivityEvent}
use z_s_app.Services.Repository.{
  Entry, Entries, key, entry, CreateInput, create, change, Update, bind_secret, record_test,
  disable, archive, set_dependencies, record_activity, apply, tested, Request, create_service,
  update_service, settle, handle, handle_all,
}

-- The same service, with an activity log that the old one ends.
abbrev pub IsSameService : Entry → Entry → Type 0
IsSameService e f =
    (f.snapshot.id ≡ e.snapshot.id)
    × (f.snapshot.service_id ≡ e.snapshot.service_id)
    × (f.snapshot.client_id ≡ e.snapshot.client_id)
    × (f.snapshot.environment ≡ e.snapshot.environment)
    × (f.snapshot.display_name ≡ e.snapshot.display_name)
    × (f.snapshot.provider_type ≡ e.snapshot.provider_type)
    × (f.snapshot.ownership ≡ e.snapshot.ownership)
    × (f.snapshot.created_at ≡ e.snapshot.created_at)
    × ((events : List StorageServiceActivityEvent) × (f.activity ≡ events ++ e.activity))

unchanged : (e : Entry) → IsSameService e e
unchanged e = (refl, refl, refl, refl, refl, refl, refl, refl, ([], refl))

append_assoc : (a b c : List StorageServiceActivityEvent) → (a ++ (b ++ c)) ≡ ((a ++ b) ++ c)
append_assoc [] b c = refl
append_assoc (x ∷ a) b c = ap (λ l. x ∷ l) (append_assoc a b c)

twice : (e f g : Entry) → IsSameService e f → IsSameService f g → IsSameService e g
twice e f g (a, b, c, d, n, p, o, t, (l, m)) (a', b', c', d', n', p', o', t', (l', m')) = (
  a' ∙ a,
  b' ∙ b,
  c' ∙ c,
  d' ∙ d,
  n' ∙ n,
  p' ∙ p,
  o' ∙ o,
  t' ∙ t,
  (l' ++ l, m' ∙ ap (λ x. l' ++ x) m ∙ append_assoc l' l e.activity),
)

other_key :
    (j k : String) (entries : Entries) (e : Entry)
    → Map.get k entries ≡ some e
    → Map.get j entries ≡ none
    → (j == k) ≡ false
other_key j k entries e held missing = ground (arith, held, missing, eq_iff j k)

module _ (number : ℕ → String) where
  apply-IsSameService : (u : Update) (e : Entry) → IsSameService e (apply number u e)
  unfolding apply tested
  apply-IsSameService (bind_secret secret_id now) e = unchanged e
  apply-IsSameService (record_test r now) e = unchanged e
  apply-IsSameService (disable now) e = unchanged e
  apply-IsSameService (archive now) e = unchanged e
  apply-IsSameService (set_dependencies d) e = unchanged e
  apply-IsSameService (record_activity event_type summary now) e =
      (refl, refl, refl, refl, refl, refl, refl, refl, (_ ∷ [], refl))

  change-IsSameService :
      (u : Update) (c : String) (n : ClientStorageEnvironment) (id k : String) (entries : Entries)
      (e : Entry)
      → Map.get k entries ≡ some e
      → (f : Entry) × (Map.get k (settle entries (change (apply number u) c n id entries)) ≡ some f)
        × IsSameService e f
  unfolding change entry
  change-IsSameService u c n id k entries e held =
      elim (Option-cases (Map.get (key c n id) entries)) [
        | inl missing ↦ rw missing (e, held, unchanged e)
        | inr (old, found) ↦ rw found (elim (Bool-cases (key c n id == k)) [
          | inl same ↦
              let at_k = (eq_iff (key c n id) k).0 same in
              let is_old : e ≡ old =
                cc (sym held ∙ ap (λ j. Map.get j entries) (sym at_k) ∙ found) in
              (
                apply number u old,
                get-put (key c n id) k _ entries
                    ∙ ap (λ b. if b then some (apply number u old) else Map.get k entries) same,
                subst (λ x. IsSameService x (apply number u old)) (sym is_old)
                    (apply-IsSameService u old),
              )
          | inr other ↦ (
            e,
            get-put (key c n id) k _ entries
                ∙ ap (λ b. if b then some (apply number u old) else Map.get k entries) other
                ∙ held,
            unchanged e,
          )
        ])
      ]

  create-IsSameService :
      (input : CreateInput) (now : ℕ) (k : String) (entries : Entries) (e : Entry)
      → Map.get k entries ≡ some e
      → Map.get k (settle entries (create input now entries)) ≡ some e
  unfolding create
  create-IsSameService input now k entries e held =
      let j = key input.client_id input.environment input.service_id in
      elim (Option-cases (Map.get j entries)) [
        | inr (old, found) ↦ rw found held
        | inl missing ↦
            rw missing (get-put-other j k _ entries (other_key j k entries e held missing) ∙ held)
      ]

  handle-IsSameService :
      (r : Request) (k : String) (entries : Entries) (e : Entry)
      → Map.get k entries ≡ some e
      → (f : Entry) × (Map.get k (handle number r entries) ≡ some f) × IsSameService e f
  unfolding handle
  handle-IsSameService (create_service input now) k entries e held =
      (e, create-IsSameService input now k entries e held, unchanged e)
  handle-IsSameService (update_service u c n id) k entries e held =
      change-IsSameService u c n id k entries e held

  -- Whatever creations and updates a repository is sent, a stored service stays stored under its
  -- key, with its id, service id, client, environment, name, provider type, ownership and time of
  -- creation, and its activity log only grows at the front.
  pub handle_all-keeps_service :
      (requests : List Request) (k : String) (entries : Entries) (e : Entry)
      → Map.get k entries ≡ some e
      → (f : Entry) × (Map.get k (handle_all number requests entries) ≡ some f) × IsSameService e f
  unfolding handle_all
  handle_all-keeps_service [] k entries e held = (e, held, unchanged e)
  handle_all-keeps_service (r ∷ rest) k entries e held =
      let (f, held', kept) = handle-IsSameService r k entries e held in
      let (g, held'', kept') = handle_all-keeps_service rest k (handle number r entries) f held' in
      (g, held'', twice e f g kept kept')
