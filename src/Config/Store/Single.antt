-- ===== src/Config/Store/Single.antt =====
-- src/client-storage-configuration.ts: one active version, under any requests.
use z_s_app.Prelude.{ℕ, sym, subst, List, [], ◌∷◌, arith}
use z_s_app.Prelude.Map.{Map, count-remove}
use z_s_app.Config.State.{StoredVersion, ConfigurationStore}
use z_s_app.Config.Store.{is_active_in}
use z_s_app.Config.Store.Active.{IsSingle, put-IsSingle, activate-IsSingle}
use z_s_app.Config.Store.Requests.{Request, handle_all}
use z_s_app.Config.Store.Changes.{
  Change, same, added, replaced, deleted, activated_draft, handle-Change,
}

module _ (to_lower_case : List ℕ → List ℕ) where
  change-IsSingle :
      (r : Request) (m m' : Map StoredVersion)
      → Change to_lower_case r m m'
      → IsSingle m
      → IsSingle m'
  change-IsSingle r m m' (same e) h = subst IsSingle (sym e) h
  change-IsSingle r m m' (added k v n d e) h = subst IsSingle (sym e) (put-IsSingle k v m d h)
  change-IsSingle r m m' (replaced k old v g d d' e) h =
      subst IsSingle (sym e) (put-IsSingle k v m d' h)
  change-IsSingle r m m' (deleted k old g d e) h =
      subst IsSingle (sym e) (λ c n. omega (arith, count-remove (is_active_in c n) k m, h c n))
  change-IsSingle r m m' (activated_draft k now v g d valid e) h =
      subst IsSingle (sym e) (activate-IsSingle now m v k h)

  -- Whatever requests a store is sent, valid or refused, in any order: if each client had at most
  -- one active version in each environment before them, it has at most one after them.
  pub handle_all-IsSingle :
      (requests : List Request) (s : ConfigurationStore)
      → IsSingle s.versions
      → IsSingle (handle_all to_lower_case requests s).versions
  unfolding handle_all
  handle_all-IsSingle [] s h = h
  handle_all-IsSingle (r ∷ rest) s h =
      handle_all-IsSingle rest _ (change-IsSingle r _ _ (handle-Change to_lower_case r s) h)
