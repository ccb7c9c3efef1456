-- ===== src/Config/Tokens/Issue.antt =====
-- src/client-storage-configuration.ts: a token that was just issued authenticates.
use z_s_app.Prelude.{
  ℕ, String, ◌≡◌, refl, ap, subst, ◌∙◌, Bool, true, not, Option, none, some, inl, inr, [], ◌∷◌,
  find, any, arith, Bool-cases, ◌==◌, eq_iff, string_eq, ok, bind-eq-ok, fail_if-then, ok-injective,
}
use z_s_app.Prelude.Map
use z_s_app.Prelude.Map.{Map, values}
use z_s_app.Config.Document.{IntegrationTokenScope}
use z_s_app.Config.State.{
  TokenStatus, IntegrationTokenMetadata, StoredIntegrationToken, ConfigurationStore,
}
use z_s_app.Config.Text.{is_identifier, is_label}
use z_s_app.Config.Store.{assert_client}
use z_s_app.Config.Tokens.{
  CreateIntegrationTokenInput, IntegrationTokenCreationResult, status_at, is_over,
  public_token_metadata, invalid, authenticated, decide, answer_of, authenticate_integration_token,
  create_integration_token, normalize_integration_token_scopes, is_token, with_token,
}
use z_s_app.Config.Tokens.Access.{IsBefore}

module _ {ℓ} {V : Type ℓ} (test : V → Bool) where
  -- Where no value passes, `put` of one that passes makes it the first to pass.
  find-put :
      (k : String) (v : V) (m : Map V)
      → find test (values m) ≡ none
      → test v ≡ true
      → find test (values (Map.put k v m)) ≡ some v
  unfolding find Map.put
  find-put k v [] h p = rw p refl
  find-put k v ((j, w) ∷ m) h p = elim (Bool-cases (test w)) [
    | inl e ↦ cc (rw e at h)
    | inr e ↦ elim (Bool-cases (j == k)) [
      | inl same ↦ rw (same, p) refl
      | inr other ↦ rw (other, e) (find-put k v m (rw e at h) p)
    ]
  ]

answer_of-invalid :
    (required : Option IntegrationTokenScope) (now : ℕ) (o : Option StoredIntegrationToken)
    → answer_of required now o ≡ invalid
    → o ≡ none
unfolding public_token_metadata
answer_of-invalid required now none h = refl
answer_of-invalid required now (some t) h = absurd (ground (arith, h))

in_time :
    (now : ℕ) (expires_at : Option ℕ)
    → IsBefore now expires_at
    → status_at now TokenStatus.active expires_at ≡ TokenStatus.active
in_time now none h = refl
in_time now (some t) h = ground (arith, h)

active_answer :
    (c : String) (n : IntegrationTokenMetadata) (at : ℕ)
    → n.status ≡ TokenStatus.active
    → IsBefore at n.expires_at
    → decide none c (public_token_metadata n at) ≡ authenticated c n.environment n.token_id n.scopes
unfolding public_token_metadata
active_answer c n at a b =
    ap (λ x. decide none c (record n { status = x }))
      (ap (λ x. status_at at x n.expires_at) a ∙ in_time at n.expires_at b)

module _ (digest : String → String) where
  -- a token of the store's map that was just put, with no other of its digest
  issued-authenticated :
      (client raw : String) (m : IntegrationTokenMetadata) (later : ℕ) (s : ConfigurationStore)
      (tokens : Map StoredIntegrationToken)
      → find (λ t. t.digest == digest raw) (values tokens) ≡ none
      → m.status ≡ TokenStatus.active
      → IsBefore later m.expires_at
      → authenticate_integration_token digest raw none later
          (record s { tokens = with_token digest client raw m tokens })
        ≡ authenticated client m.environment m.token_id m.scopes
  unfolding authenticate_integration_token
  issued-authenticated client raw m later s tokens fresh is_active before =
      let t : StoredIntegrationToken = record {
        client_id = client;
        digest = digest raw;
        metadata = m;
      } in
      let found =
        find-put (λ t. t.digest == digest raw) m.id t tokens fresh
          ((eq_iff (digest raw) (digest raw)).1 refl) in
      ap (answer_of none later) found ∙ active_answer client m later is_active before

  -- If no stored token had the raw token's digest, a token that was created authenticates, as the
  -- client's token of that id, environment and scopes, at every time before its expiry.
  pub create_integration_token-authenticated :
      (client : String) (input : CreateIntegrationTokenInput) (now : ℕ) (raw new_id : String)
      (s s' : ConfigurationStore) (r : IntegrationTokenCreationResult) (later : ℕ)
      → authenticate_integration_token digest raw none now s ≡ invalid
      → create_integration_token digest client input now raw new_id s ≡ ok (r, s')
      → IsBefore later input.expires_at
      → authenticate_integration_token digest r.token none later s'
        ≡ authenticated client input.environment input.token_id r.metadata.scopes
  unfolding create_integration_token authenticate_integration_token
  create_integration_token-authenticated client input now raw new_id s s' r later fresh done
        before =
      let (u, registered, rest) = bind-eq-ok (assert_client client s) _ done in
      let (good_id, h1) = fail_if-then (not (is_identifier input.token_id)) _ _ rest in
      let (good_label, h2) = fail_if-then (not (is_label input.display_label)) _ _ h1 in
      let (scopes, normal, h3) =
        bind-eq-ok (normalize_integration_token_scopes input.scopes) _ h2 in
      let (not_over, h4) = fail_if-then (is_over now input.expires_at) _ _ h3 in
      let (no_conflict, h5) =
        fail_if-then (any (is_token client input.environment input.token_id) (values s.tokens)) _ _
          h4 in
      let m : IntegrationTokenMetadata = record {
        id = new_id;
        token_id = input.token_id;
        environment = input.environment;
        display_label = input.display_label;
        scopes = scopes;
        status = TokenStatus.active;
        expires_at = input.expires_at;
        revoked_at = none;
        rotated_from_token_id = none;
        created_at = now;
        updated_at = now;
      } in
      subst
        (λ p.
          authenticate_integration_token digest p.0.token none later p.1
          ≡ authenticated client input.environment input.token_id p.0.metadata.scopes)
        (ok-injective _ _ h5)
        (issued-authenticated client raw m later s s.tokens (answer_of-invalid none now _ fresh)
          refl before)
