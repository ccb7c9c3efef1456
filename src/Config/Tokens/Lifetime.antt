-- ===== src/Config/Tokens/Lifetime.antt =====
-- src/client-storage-configuration.ts: what a revocation of a token ends for good.
use z_s_app.Prelude.{
  ℕ, ◌≤◌, String, ◌≡◌, refl, subst, Bool, true, false, not, ◌&&◌, Option, none, some, inl, inr,
  List, [], ◌∷◌, find, any, arith, Bool-cases, eq_iff, string_eq, Result, ok, err, ◌>>=◌, fail_if,
  Yields, Yields-ok, Yields-bind, Yields-fail_if,
}
use z_s_app.Prelude.Map
use z_s_app.Prelude.Map.{Map, values, count-update_first-le}
use z_s_app.Prelude.Map.Counts.{
  count-Holds, count-any, count-find, count-put-new, count-put-grows, count-update_first-same,
  count-ended, count-found, get-missing,
}
use z_s_app.Config.Document.{
  ClientStorageEnvironment, IntegrationTokenScope, client_environment_eq, token_scope_eq,
  client_environment_tag_iff,
}
use z_s_app.Config.State.{
  IntegrationTokenMetadata, StoredIntegrationToken, ConfigurationStore, ConfigurationError,
}
use z_s_app.Config.Store.{assert_client}
use z_s_app.Config.Store.Requests.{settle_pair}
use z_s_app.Config.Tokens.{
  revoked_at, authenticated, authenticate_integration_token, is_token, revoke_integration_token,
  revoked_or_kept, found_or_missing, is_revoked_status, create_integration_token,
  rotate_integration_token, CreateIntegrationTokenInput, with_token,
  normalize_integration_token_scopes, is_active_status, status_at, is_over,
}
use z_s_app.Config.Text.{is_identifier, is_label}
use z_s_app.Config.Tokens.Access.{authenticate_integration_token_sound}
use z_s_app.Config.Tokens.Requests.{
  TokenRequest, create, rotate, revoke, handle_token, handle_tokens,
}
use Prim.Native.String.{◌++◌ as joined}

abbrev is_live : String → ClientStorageEnvironment → String → StoredIntegrationToken → Bool
is_live c e id t = is_token c e id t && not (is_revoked_status t.metadata.status)

-- What the source draws at random is new: the id of the entry, and the name of a rotated token.
abbrev pub IsFresh : TokenRequest → ConfigurationStore → Type 0
IsFresh (create c input now raw_token new_id) s = Map.get new_id s.tokens ≡ none
IsFresh (rotate c e id now raw_token new_id suffix) s =
    (Map.get new_id s.tokens ≡ none)
    × (Map.count (is_token c e (joined id (joined "-r-" suffix))) s.tokens ≡ 0)
IsFresh (revoke c e id now) s = Unit

abbrev pub AreFresh : (String → String) → List TokenRequest → ConfigurationStore → Type 0
AreFresh digest [] s = Unit
AreFresh digest (r ∷ rest) s = IsFresh r s × AreFresh digest rest (handle_token digest r s)

found-Yields : (o : Option StoredIntegrationToken) → Yields (found_or_missing o) (λ t. o ≡ some t)
found-Yields none = record { apply = λ t same. cc }
found-Yields (some u) = Yields-ok u refl

module _ (c : String) (e : ClientStorageEnvironment) (id : String) where
  -- There are tokens of the id, and all of them are revoked.
  record IsRevoked (tokens : Map StoredIntegrationToken) : Type 0 where
    exists : 1 ≤ Map.count (is_token c e id) tokens
    none_live : Map.count (is_live c e id) tokens ≡ 0

  is_live-token : (t : StoredIntegrationToken) → is_live c e id t ≡ true → is_token c e id t ≡ true
  is_live-token t h = ground (arith, h)

  revokes-IsRevoked :
      (test : StoredIntegrationToken → Bool) (now : ℕ) (m : Map StoredIntegrationToken)
      → IsRevoked m
      → IsRevoked (Map.update_first test (revoked_at now) m)
  revokes-IsRevoked test now m h = record {
    exists =
        rw (count-update_first-same (is_token c e id) test (revoked_at now) m (λ t. refl)) h.exists;
    none_live = omega (
      arith,
      count-update_first-le (is_live c e id) test (revoked_at now) m
          (λ t live. ground (arith, live)),
      h.none_live,
    );
  }

  -- A token is none of the id, if no token stands under its own name.
  other_name :
      (t : StoredIntegrationToken) (m : Map StoredIntegrationToken)
      → Map.count (is_token t.client_id t.metadata.environment t.metadata.token_id) m ≡ 0
      → IsRevoked m
      → is_token c e id t ≡ false
  other_name t m unused h = elim (Bool-cases (is_token c e id t)) [
    | inr out ↦ out
    | inl same ↦
        let is_c = (eq_iff t.client_id c).0 (ground (arith, same)) in
        let is_e = (client_environment_tag_iff t.metadata.environment e).0 (ground (arith, same)) in
        let is_id = (eq_iff t.metadata.token_id id).0 (ground (arith, same)) in
        let none_here : Map.count (is_token c e id) m ≡ 0 =
          subst (λ x. Map.count (is_token x e id) m ≡ 0) is_c
            (subst (λ x. Map.count (is_token t.client_id x id) m ≡ 0) is_e
              (subst (λ x. Map.count (is_token t.client_id t.metadata.environment x) m ≡ 0) is_id
                unused)) in
        absurd (omega (arith, none_here, h.exists))
  ]

  with_token-IsRevoked :
      (digest : String → String) (other raw_token : String) (n : IntegrationTokenMetadata)
      (m : Map StoredIntegrationToken)
      → Map.get n.id m ≡ none
      → Map.count (is_token other n.environment n.token_id) m ≡ 0
      → IsRevoked m
      → IsRevoked (with_token digest other raw_token n m)
  with_token-IsRevoked digest other raw_token n m new unused h =
      let t : StoredIntegrationToken = record {
        client_id = other;
        digest = digest raw_token;
        metadata = n;
      } in
      record {
        exists = omega (arith, h.exists, count-put-grows (is_token c e id) n.id t m new);
        none_live = omega (
          arith,
          h.none_live,
          count-put-new (is_live c e id) n.id t m new (ground (arith, other_name t m unused h)),
        );
      }

  settle-kept :
      {A : Type 0} (s : ConfigurationStore) (r : Result ConfigurationError (A × ConfigurationStore))
      → Yields r (λ p. IsRevoked p.1.tokens)
      → IsRevoked s.tokens
      → IsRevoked (settle_pair s r).tokens
  settle-kept s (ok p) h kept = h.apply p refl
  settle-kept s (err x) h kept = kept

  -- whatever a step returns
  after_any :
      {E A B : Type 0} {Q : B → Type 0} (r : Result E A) (next : A → Result E B)
      → ((v : A) → Yields (next v) Q)
      → Yields (r >>= next) Q
  after_any r next later =
      Yields-bind {P = λ _. Unit {0}} (record { apply = λ v same. tt }) (λ v u. later v)

  revoked_or_kept-IsRevoked :
      (current : StoredIntegrationToken) (others : Map StoredIntegrationToken) (now : ℕ)
      (s : ConfigurationStore)
      → IsRevoked others
      → IsRevoked s.tokens
      → IsRevoked (revoked_or_kept current others now s).1.tokens
  revoked_or_kept-IsRevoked current others now s changed kept =
      elim (Bool-cases (is_revoked_status current.metadata.status)) [
        | inl was ↦ rw was kept
        | inr open_still ↦ rw open_still changed
      ]

  module _ (digest : String → String) where
    create-IsRevoked :
        (client : String) (input : CreateIntegrationTokenInput) (now : ℕ)
        (raw_token new_id : String) (s : ConfigurationStore)
        → Map.get new_id s.tokens ≡ none
        → IsRevoked s.tokens
        → Yields
            (create_integration_token digest client input now raw_token new_id s)
            (λ p. IsRevoked p.1.tokens)
    unfolding create_integration_token
    create-IsRevoked client input now raw_token new_id s new h =
        let test = is_token client input.environment input.token_id in
        after_any (assert_client client s) _ (λ u.
          after_any (fail_if (not (is_identifier input.token_id)) _) _ (λ u.
            after_any (fail_if (not (is_label input.display_label)) _) _ (λ u.
              after_any (normalize_integration_token_scopes input.scopes) _ (λ scopes.
                after_any (fail_if (is_over now input.expires_at) _) _ (λ u.
                  Yields-bind (Yields-fail_if (any test (values s.tokens)) _) (λ u free.
                    Yields-ok _ (
                      with_token-IsRevoked digest client raw_token _ s.tokens new
                        (count-any test s.tokens free) h)))))))

    rotate-IsRevoked :
        (client : String) (environment : ClientStorageEnvironment) (token_id : String) (now : ℕ)
        (raw_token new_id suffix : String) (s : ConfigurationStore)
        → Map.get new_id s.tokens ≡ none
        → Map.count (is_token client environment (joined token_id (joined "-r-" suffix))) s.tokens
          ≡ 0
        → IsRevoked s.tokens
        → Yields
            (rotate_integration_token digest client environment token_id now raw_token new_id suffix
              s)
            (λ p. IsRevoked p.1.tokens)
    unfolding rotate_integration_token
    rotate-IsRevoked client environment token_id now raw_token new_id suffix s new free h =
        let test = is_token client environment token_id in
        after_any (assert_client client s) _ (λ u.
          after_any (found_or_missing (find test (values s.tokens))) _ (λ current.
            let status = status_at now current.metadata.status current.metadata.expires_at in
            after_any (fail_if (not (is_active_status status)) _) _ (λ u. Yields-ok _ (
              with_token-IsRevoked digest client raw_token _ _
                (get-missing test (revoked_at now) new_id s.tokens new) (none_renamed free)
                (revokes-IsRevoked test now s.tokens h)))))
      where
        none_renamed :
            Map.count (is_token client environment (joined token_id (joined "-r-" suffix))) s.tokens
              ≡ 0
            → Map.count
                (is_token client environment (joined token_id (joined "-r-" suffix)))
                (Map.update_first (is_token client environment token_id) (revoked_at now) s.tokens)
              ≡ 0
        none_renamed free' =
            rw
              (count-update_first-same
                (is_token client environment (joined token_id (joined "-r-" suffix)))
                (is_token client environment token_id) (revoked_at now) s.tokens (λ t. refl))
              free'

    revoke-IsRevoked :
        (client : String) (environment : ClientStorageEnvironment) (token_id : String) (now : ℕ)
        (s : ConfigurationStore)
        → IsRevoked s.tokens
        → Yields
            (revoke_integration_token client environment token_id now s)
            (λ p. IsRevoked p.1.tokens)
    unfolding revoke_integration_token
    revoke-IsRevoked client environment token_id now s h =
        let test = is_token client environment token_id in
        after_any (assert_client client s) _ (λ u.
          after_any (found_or_missing (find test (values s.tokens))) _ (λ current.
            Yields-ok _ (
              revoked_or_kept-IsRevoked current _ now s (revokes-IsRevoked test now s.tokens h) h)))

    handle_token-IsRevoked :
        (r : TokenRequest) (s : ConfigurationStore)
        → IsFresh r s
        → IsRevoked s.tokens
        → IsRevoked (handle_token digest r s).tokens
    unfolding handle_token
    handle_token-IsRevoked (create client input now raw_token new_id) s fresh h =
        settle-kept s _ (create-IsRevoked client input now raw_token new_id s fresh h) h
    handle_token-IsRevoked (rotate client e' k now raw_token new_id suffix) s fresh h =
        settle-kept s _
          (rotate-IsRevoked client e' k now raw_token new_id suffix s fresh.0 fresh.1 h) h
    handle_token-IsRevoked (revoke client e' k now) s fresh h =
        settle-kept s _ (revoke-IsRevoked client e' k now s h) h

    handle_tokens-IsRevoked :
        (l : List TokenRequest) (s : ConfigurationStore)
        → AreFresh digest l s
        → IsRevoked s.tokens
        → IsRevoked (handle_tokens digest l s).tokens
    unfolding handle_tokens
    handle_tokens-IsRevoked [] s fresh h = h
    handle_tokens-IsRevoked (r ∷ rest) s fresh h =
        handle_tokens-IsRevoked rest _ fresh.1 (handle_token-IsRevoked r s fresh.0 h)

    authenticated-live :
        (raw_token : String) (required : Option IntegrationTokenScope) (now : ℕ)
        (s : ConfigurationStore) (scopes : List IntegrationTokenScope)
        → IsRevoked s.tokens
        → ¬ (
            authenticate_integration_token digest raw_token required now s
            ≡ authenticated c e id scopes)
    authenticated-live raw_token required now s scopes h a =
        let (t, held, d, is_c, is_e, is_id, is_scopes, is_active, in_time, granted) =
          authenticate_integration_token_sound digest raw_token required now s c e id scopes a in
        let dead = count-Holds (is_live c e id) s.tokens t h.none_live held in
        absurd (
          ground (
            arith,
            dead,
            is_active,
            is_c,
            is_e,
            is_id,
            eq_iff t.client_id c,
            client_environment_tag_iff t.metadata.environment e,
            eq_iff t.metadata.token_id id,
          ))

  first-IsRevoked :
      (now : ℕ) (s : ConfigurationStore) (current : StoredIntegrationToken)
      → Map.count (is_token c e id) s.tokens ≤ 1
      → find (is_token c e id) (values s.tokens) ≡ some current
      → IsRevoked
          (revoked_or_kept current
            (Map.update_first (is_token c e id) (revoked_at now) s.tokens)
            now
            s).1.tokens
  first-IsRevoked now s current few found =
      elim (Bool-cases (is_revoked_status current.metadata.status)) [
        | inl was ↦ rw was (record {
          exists = count-find (is_token c e id) s.tokens current found;
          none_live =
              count-found (is_token c e id) (is_live c e id) is_live-token s.tokens current found
                (ground (arith, was)) few;
        })
        | inr open_still ↦ rw open_still (record {
          exists =
              rw
                (count-update_first-same (is_token c e id) (is_token c e id) (revoked_at now)
                  s.tokens (λ t. refl))
                (count-find (is_token c e id) s.tokens current found);
          none_live =
              count-ended (is_token c e id) (is_live c e id) is_live-token (revoked_at now) s.tokens
                (λ t. ground arith) few;
        })
      ]

  revoke_once-IsRevoked :
      (now : ℕ) (s : ConfigurationStore)
      → Map.count (is_token c e id) s.tokens ≤ 1
      → Yields (revoke_integration_token c e id now s) (λ p. IsRevoked p.1.tokens)
  unfolding revoke_integration_token
  revoke_once-IsRevoked now s few = after_any (assert_client c s) _ (λ u.
      Yields-bind (found-Yields _)
        (λ current found. Yields-ok _ (first-IsRevoked now s current few found)))

-- After a token was revoked, and after any further requests that create, rotate and revoke tokens, no
-- raw token authenticates as it, with any scope required and at any time. The client had one token at
-- most of that id in the environment, and what the requests draw at random is new when it is drawn:
-- the id of an entry, and the name of a rotated token in its client and environment.
pub revoke_integration_token-revoked :
    (digest : String → String) (c : String) (e : ClientStorageEnvironment) (id : String) (now : ℕ)
    (s s' : ConfigurationStore) (m : IntegrationTokenMetadata) (requests : List TokenRequest)
    (raw_token : String) (required : Option IntegrationTokenScope) (later : ℕ)
    (scopes : List IntegrationTokenScope)
    → Map.count (is_token c e id) s.tokens ≤ 1
    → revoke_integration_token c e id now s ≡ ok (m, s')
    → AreFresh digest requests s'
    → ¬ (
        authenticate_integration_token digest raw_token required later
          (handle_tokens digest requests s')
        ≡ authenticated c e id scopes)
revoke_integration_token-revoked digest c e id now s s' m requests raw_token required later scopes
      few done fresh =
    authenticated-live c e id digest raw_token required later _ scopes (
      handle_tokens-IsRevoked c e id digest requests s' fresh
        ((revoke_once-IsRevoked c e id now s few).apply (m, s') done))
