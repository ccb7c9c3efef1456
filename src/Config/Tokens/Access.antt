-- ===== src/Config/Tokens/Access.antt =====
-- src/client-storage-configuration.ts: which tokens authenticate.
use z_s_app.Prelude.{
  ℕ, ◌<◌, String, ◌≡◌, refl, subst, true, false, Option, none, some, inl, inr, List, [], ◌∷◌, find,
  find-some, any, Holds, here, there, arith, Bool-cases, Option-cases, ◌==◌, eq_iff, string_eq,
}
use z_s_app.Prelude.Map.{values}
use z_s_app.Config.Document.{
  ClientStorageEnvironment, IntegrationTokenScope, client_environment_eq, token_scope_eq,
  token_scope_tag_iff,
}
use z_s_app.Config.State.{
  TokenStatus, IntegrationTokenMetadata, StoredIntegrationToken, ConfigurationStore,
}
use z_s_app.Config.Tokens.{
  status_at, public_token_metadata, invalid, authenticated, lacks, decide, answer_of,
  authenticate_integration_token,
}

-- The required scope, if one is required, is among the scopes.
abbrev pub IsGranted : Option IntegrationTokenScope → List IntegrationTokenScope → Type 0
IsGranted none scopes = Unit
IsGranted (some s) scopes = Holds (λ t. t ≡ s) scopes

-- The time of expiry, if there is one, is later.
abbrev pub IsBefore : ℕ → Option ℕ → Type 0
IsBefore now none = Unit
IsBefore now (some expires_at) = now < expires_at

any-Holds :
    (s : IntegrationTokenScope) (l : List IntegrationTokenScope)
    → any (λ t. t == s) l ≡ true
    → Holds (λ t. t ≡ s) l
any-Holds s [] h = cc
any-Holds s (t ∷ l) h = elim (Bool-cases (t == s)) [
  | inl e ↦ here ((token_scope_tag_iff t s).0 e)
  | inr e ↦ there (any-Holds s l (rw e at h))
]

not_lacking :
    (required : Option IntegrationTokenScope) (l : List IntegrationTokenScope)
    → lacks required l ≡ false
    → IsGranted required l
not_lacking none l h = tt
not_lacking (some s) l h = any-Holds s l (ground (arith, h))

still_active :
    (now : ℕ) (status : TokenStatus) (expires_at : Option ℕ)
    → status_at now status expires_at ≡ TokenStatus.active
    → (status ≡ TokenStatus.active) × IsBefore now expires_at
still_active now TokenStatus.active none h = (refl, tt)
still_active now TokenStatus.active (some t) h = (refl, ground (arith, h))
still_active now TokenStatus.revoked o h = cc
still_active now TokenStatus.expired o h = cc

module _ (required : Option IntegrationTokenScope) where
  decide-authenticated :
      (client c : String) (m : IntegrationTokenMetadata) (e : ClientStorageEnvironment)
      (id : String) (scopes : List IntegrationTokenScope)
      → decide required client m ≡ authenticated c e id scopes
      → (m.status ≡ TokenStatus.active)
        × (lacks required m.scopes ≡ false)
        × (client ≡ c)
        × (m.environment ≡ e)
        × (m.token_id ≡ id)
        × (m.scopes ≡ scopes)
  decide-authenticated client c m e id scopes h = ground (arith, h)

IsGranted-subst :
    (required : Option IntegrationTokenScope) (l k : List IntegrationTokenScope)
    → l ≡ k
    → IsGranted required l
    → IsGranted required k
IsGranted-subst required l k e h = subst (IsGranted required) e h

not_authenticated :
    {c : String} {e : ClientStorageEnvironment} {id : String} {l : List IntegrationTokenScope}
    → invalid ≡ authenticated c e id l
    → ⊥
not_authenticated h = cc

module _ (digest : String → String) where
  -- A token that authenticates, with the client, environment, token id and scopes that are returned,
  -- is the raw token of a stored token of that client, environment, id and scopes, which is not
  -- revoked and has not expired at the time, and the required scope, if any, is one of the scopes.
  pub authenticate_integration_token_sound :
      (token : String) (required : Option IntegrationTokenScope) (now : ℕ) (s : ConfigurationStore)
      (c : String) (e : ClientStorageEnvironment) (id : String)
      (scopes : List IntegrationTokenScope)
      → authenticate_integration_token digest token required now s ≡ authenticated c e id scopes
      → (t : StoredIntegrationToken) × Holds (λ x. x ≡ t) (values s.tokens)
        × (t.digest ≡ digest token)
        × (t.client_id ≡ c)
        × (t.metadata.environment ≡ e)
        × (t.metadata.token_id ≡ id)
        × (t.metadata.scopes ≡ scopes)
        × (t.metadata.status ≡ TokenStatus.active)
        × IsBefore now t.metadata.expires_at
        × IsGranted required scopes
  unfolding authenticate_integration_token public_token_metadata
  authenticate_integration_token_sound token required now s c e id scopes h =
      let goal_of : (o : Option StoredIntegrationToken)
          → find (λ t. t.digest == digest token) (values s.tokens) ≡ o
          → answer_of required now o ≡ authenticated c e id scopes =
        λ o p. subst (λ o. answer_of required now o ≡ authenticated c e id scopes) p h in
      elim (Option-cases (find (λ t. t.digest == digest token) (values s.tokens))) [
        | inl missing ↦ absurd (not_authenticated (goal_of none missing))
        | inr (t, found) ↦
            let (is_stored, same_digest) = find-some _ _ t found in
            let (is_active, granted, is_c, is_e, is_id, is_scopes) =
              decide-authenticated required t.client_id c (public_token_metadata t.metadata now) e
                id scopes (rw found at h) in
            let (active_now, in_time) =
              still_active now t.metadata.status t.metadata.expires_at is_active in
            (
              t,
              is_stored,
              (eq_iff t.digest (digest token)).0 same_digest,
              is_c,
              is_e,
              is_id,
              is_scopes,
              active_now,
              in_time,
              IsGranted-subst required _ _ is_scopes
                  (not_lacking required t.metadata.scopes granted),
            )
      ]
