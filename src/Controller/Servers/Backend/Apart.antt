-- ===== src/Controller/Servers/Backend/Apart.antt =====
-- The functions on the API key and the backend Secret
-- (internal/controller/powerdnsserver_controller.go) leave the rest of the cluster alone.
use aether_powerdns.Prelude.{
  String, true, false, Option, none, some, ◌≡◌, refl, not, Result, ok, err, api_not_found, is_kind,
}
use aether_powerdns.Api.Server.{PowerDnsServer, ByoPostgres}
use aether_powerdns.Manifests.Naming.{name_set}
use aether_powerdns.Manifests.Unstructured.{Unstructured}
use aether_powerdns.Controller.Kube.{Kind, OwnedSecret, server, Kube}
use aether_powerdns.Controller.Kube.Apart.{
  Leaves, IsApart, bind-Leaves, then-Leaves, if-Leaves, still,
}
use aether_powerdns.Controller.Kube.Answers.{
  Gives, after-Gives, then-Gives, return-Gives, fail-Gives, if-Gives,
}
use aether_powerdns.Controller.Kube.Children.{look}
use aether_powerdns.Controller.Servers.Backend.{
  api_key_ref, api_key_name, with_api_key, new_api_key, api_key_found, own_api_key, ensure_api_key,
  secret_found, write_backend_secret, app_secret_found, materialise_cnpg_backend_secret,
  credentials_found, materialise_byo_backend_secret, cluster_found, cnpg_cluster_ready,
}
use aether_powerdns.Controller.Services.{same_map}

module _ (A : Kube) {V : Type 0} (view : A.State → V) (law : IsApart A view)
    (s : PowerDnsServer) where
  new_api_key-Leaves : (name : String) → Leaves view (new_api_key A s name)
  unfolding new_api_key
  new_api_key-Leaves name = bind-Leaves (law.rand_read 32) (λ bytes.
      bind-Leaves (still (λ c. A.own Kind.secret (server s) _)) (λ owned.
        then-Leaves (law.create Kind.secret owned) (still (λ c. ok (with_api_key s name)))))

  api_key_found-Leaves :
      (name : String) (r : Result OwnedSecret) → Leaves view (api_key_found A s name r)
  unfolding api_key_found
  api_key_found-Leaves name (ok _) = still (λ c. ok (with_api_key s name))
  api_key_found-Leaves name (err e) =
      if-Leaves (not (is_kind api_not_found e.kind)) (still (λ c. err e)) (new_api_key-Leaves name)

  own_api_key-Leaves : (ref : Option String) → Leaves view (own_api_key A s ref)
  unfolding own_api_key
  own_api_key-Leaves (some ref) = still (λ c. ok (with_api_key s ref))
  own_api_key-Leaves none =
      bind-Leaves (still (λ c. ok (A.get Kind.secret _ c)))
        (λ r. api_key_found-Leaves (name_set s).api_key_secret r)

  pub ensure_api_key-Leaves : Leaves view (ensure_api_key A s)
  unfolding ensure_api_key
  ensure_api_key-Leaves = own_api_key-Leaves (api_key_ref s)

  secret_found-Leaves :
      (desired : OwnedSecret) (r : Result OwnedSecret) → Leaves view (secret_found A desired r)
  unfolding secret_found
  secret_found-Leaves desired (err e) =
      if-Leaves (is_kind api_not_found e.kind) (law.create Kind.secret desired) (still (λ c. err e))
  secret_found-Leaves desired (ok existing) =
      if-Leaves (same_map existing.entries desired.entries) (still (λ c. ok tt))
        (law.update Kind.secret _)

  write_backend_secret-Leaves :
      (host port user password database : String)
      → Leaves view (write_backend_secret A s host port user password database)
  unfolding write_backend_secret
  write_backend_secret-Leaves host port user password database =
      bind-Leaves (still (λ c. A.own Kind.secret (server s) _)) (λ desired.
        bind-Leaves (still (λ c. ok (A.get Kind.secret _ c))) (λ r. secret_found-Leaves desired r))

  app_secret_found-Leaves :
      (name : String) (r : Result OwnedSecret) → Leaves view (app_secret_found A s name r)
  unfolding app_secret_found
  app_secret_found-Leaves name (err e) =
      if-Leaves (is_kind api_not_found e.kind) (still (λ c. ok false)) (still (λ c. err e))
  app_secret_found-Leaves name (ok src) =
      if-Leaves _ (still (λ c. ok false))
        (then-Leaves (write_backend_secret-Leaves _ _ _ _ _) (still (λ c. ok true)))

  pub materialise_cnpg_backend_secret-Leaves :
      (name : String) → Leaves view (materialise_cnpg_backend_secret A s name)
  unfolding materialise_cnpg_backend_secret
  materialise_cnpg_backend_secret-Leaves name =
      bind-Leaves (still (λ c. ok (A.get Kind.secret _ c))) (λ r. app_secret_found-Leaves name r)

  credentials_found-Leaves :
      (byo : ByoPostgres) (r : Result OwnedSecret) → Leaves view (credentials_found A s byo r)
  unfolding credentials_found
  credentials_found-Leaves byo (err e) =
      if-Leaves (is_kind api_not_found e.kind) (still (λ c. ok false)) (still (λ c. err e))
  credentials_found-Leaves byo (ok src) =
      if-Leaves _ (still (λ c. err _))
        (then-Leaves (write_backend_secret-Leaves _ _ _ _ _) (still (λ c. ok true)))

  pub materialise_byo_backend_secret-Leaves :
      (byo : ByoPostgres) → Leaves view (materialise_byo_backend_secret A s byo)
  unfolding materialise_byo_backend_secret
  materialise_byo_backend_secret-Leaves byo =
      bind-Leaves (still (λ c. ok (A.get Kind.secret _ c))) (λ r. credentials_found-Leaves byo r)

  cluster_found-Leaves : (r : Result Unstructured) → Leaves view (cluster_found A r)
  unfolding cluster_found
  cluster_found-Leaves (err e) =
      if-Leaves (is_kind api_not_found e.kind) (still (λ c. ok false)) (still (λ c. err e))
  cluster_found-Leaves (ok u) = still (λ c. _)

  pub cnpg_cluster_ready-Leaves : (name : String) → Leaves view (cnpg_cluster_ready A s name)
  unfolding cnpg_cluster_ready
  cnpg_cluster_ready-Leaves name =
      bind-Leaves (still (λ c. ok (A.get Kind.cluster _ c))) (λ r. cluster_found-Leaves r)

-- What `ensureAPIKey` puts into the status.
module _ (A : Kube) (s : PowerDnsServer) where
  new_api_key-Gives : (name : String) → Gives (λ t. t ≡ with_api_key s name) (new_api_key A s name)
  unfolding new_api_key
  new_api_key-Gives name = after-Gives (A.rand_read 32) (λ bytes.
      after-Gives (λ c. (A.own Kind.secret (server s) _, c))
        (λ owned.
          then-Gives (A.create Kind.secret owned)
            (return-Gives (λ t. t ≡ with_api_key s name) (with_api_key s name) refl)))

  api_key_found-Gives :
      (name : String) (r : Result OwnedSecret)
      → Gives (λ t. t ≡ with_api_key s name) (api_key_found A s name r)
  unfolding api_key_found
  api_key_found-Gives name (ok _) =
      return-Gives (λ t. t ≡ with_api_key s name) (with_api_key s name) refl
  api_key_found-Gives name (err e) =
      if-Gives (not (is_kind api_not_found e.kind)) (fail-Gives e) (new_api_key-Gives name)

  named_key : (ref : String) → api_key_ref s ≡ some ref → api_key_name s ≡ ref
  unfolding api_key_name
  named_key ref e = rw (e, api_key_name) refl

  own_key : api_key_ref s ≡ none → api_key_name s ≡ (name_set s).api_key_secret
  unfolding api_key_name
  own_key e = rw (e, api_key_name) refl

  own_api_key-Gives :
      (ref : Option String)
      → api_key_ref s ≡ ref
      → Gives (λ t. t ≡ with_api_key s (api_key_name s)) (own_api_key A s ref)
  unfolding own_api_key
  own_api_key-Gives (some ref) e =
      rw (named_key ref e) (return-Gives (λ t. t ≡ with_api_key s ref) (with_api_key s ref) refl)
  own_api_key-Gives none e = rw (own_key e) (
      after-Gives (look (A.get Kind.secret _))
        (λ r. api_key_found-Gives (name_set s).api_key_secret r))

  pub ensure_api_key-Gives : Gives (λ t. t ≡ with_api_key s (api_key_name s)) (ensure_api_key A s)
  unfolding ensure_api_key
  ensure_api_key-Gives = own_api_key-Gives (api_key_ref s) refl
