-- ===== src/Controller/Kube/Apart.antt =====
-- Actions on the objects of the cluster (internal/controller) that leave a part of its state alone,
-- such as the custom resource that a pass is about.
use aether_powerdns.Prelude.{
  ℕ, String, Bool, true, false, List, ◌≡◌, refl, ◌∙◌, Result, ok, err, api_not_found, no_match,
  is_kind, Action, bind_result, ◌>>=◌, ◌>>◌, attempt, if◌then◌else◌,
}
use aether_powerdns.Api.Meta.{NamespacedName}
use aether_powerdns.Manifests.Pods.{ConfigMap, Deployment}
use aether_powerdns.Controller.Kube.{Kind, Object, key_of, Owner, Kube}
use aether_powerdns.Controller.Kube.Children.{
  within, create_absent, ensure_owned, deployment_found, update_deployment, services, object_at,
  replace_entries, config_map_at, converge_owned_service, converge_config_map, delete_object,
}
use aether_powerdns.Controller.Objects.{
  ignore_absent, delete_found, delete_if_exists, replace_found, replace_data, with_config_map,
  update_config_map,
}
use aether_powerdns.Controller.Services.{
  Service, updated_service, with_existing, converge_service, update_service,
}

-- The action leaves what `view` sees as it is.
pub record Leaves {S V B : Type 0} (view : S → V) (m : Action S B) : Type 0 where
  pub same : (c : S) → view (m c).1 ≡ view c

if-view :
    {S V B : Type 0} (view : S → V) (b : Bool) (x y : Result B × S) (v : V)
    → view x.1 ≡ v
    → view y.1 ≡ v
    → view (if b then x else y).1 ≡ v
if-view view true x y v h q = h
if-view view false x y v h q = q

module _ {S V : Type 0} {view : S → V} where
  pub bind_result-view :
      {B D : Type 0} (x : Result B × S) (f : B → Action S D) (v : V)
      → view x.1 ≡ v
      → ((b : B) → Leaves view (f b))
      → view (bind_result x f).1 ≡ v
  bind_result-view (ok b, c) f v h q = (q b).same c ∙ h
  bind_result-view (err e, c) f v h q = h

  pub bind-Leaves :
      {B D : Type 0} {m : Action S B} {f : B → Action S D}
      → Leaves view m
      → ((b : B) → Leaves view (f b))
      → Leaves view (m >>= f)
  bind-Leaves {m} {f} h q = record { same = λ c. bind_result-view (m c) f (view c) (h.same c) q }

  pub then-Leaves :
      {D : Type 0} {m : Action S (Unit {0})} {k : Action S D}
      → Leaves view m
      → Leaves view k
      → Leaves view (m >> k)
  then-Leaves {m} {k} h q = record {
    same = λ c. bind_result-view (m c) (λ _. k) (view c) (h.same c) (λ _. q);
  }

  pub within-Leaves :
      {B : Type 0} (text : String) {m : Action S B} → Leaves view m → Leaves view (within text m)
  within-Leaves text h = record { same = h.same }

  pub attempt-Leaves : {B : Type 0} {m : Action S B} → Leaves view m → Leaves view (attempt m)
  attempt-Leaves h = record { same = h.same }

  pub if-Leaves :
      {B : Type 0} (b : Bool) {m k : Action S B}
      → Leaves view m
      → Leaves view k
      → Leaves view (if b then m else k)
  if-Leaves true h q = h
  if-Leaves false h q = q

  pub still : {B : Type 0} (f : S → Result B) → Leaves view (λ c. (f c, c))
  still f = record { same = λ c. refl }

-- What is asked of the client: its writes of other objects leave the view alone.
pub record IsApart (A : Kube) {V : Type 0} (view : A.State → V) : Type 0 where
  pub create : (k : Kind) (o : Object k) → Leaves view (A.create k o)
  pub update : (k : Kind) (o : Object k) → Leaves view (A.update k o)
  pub delete : (k : Kind) (key : NamespacedName) → Leaves view (A.delete k key)
  pub create_or_update :
      (k : Kind) (key : NamespacedName) (f : Object k → Result (Object k))
      → Leaves view (A.create_or_update k key f)
  pub retry : (m : Action A.State (Unit {0})) → Leaves view m → Leaves view (A.retry m)
  pub rand_read : (n : ℕ) → Leaves view (A.rand_read n)

module _ (A : Kube) {V : Type 0} (view : A.State → V) (law : IsApart A view) where
  create_absent-Leaves :
      (k : Kind) (obj : Object k) (r : Result (Object k)) → Leaves view (create_absent A k obj r)
  unfolding create_absent
  create_absent-Leaves k obj (ok _) = still (λ c. ok tt)
  create_absent-Leaves k obj (err e) =
      if-Leaves (is_kind api_not_found e.kind) (law.create k obj) (still (λ c. err e))

  pub ensure_owned-Leaves :
      (k : Kind) (owner : Owner) (obj : Object k) → Leaves view (ensure_owned A k owner obj)
  unfolding ensure_owned
  ensure_owned-Leaves k owner obj = bind-Leaves (still (λ c. A.own k owner obj)) (λ owned.
      bind-Leaves (still (λ c. ok (A.get k (key_of k owned) c)))
        (λ r. create_absent-Leaves k owned r))

  deployment_found-Leaves :
      (owner : Owner) (desired : Deployment) (r : Result Deployment)
      → Leaves view (deployment_found A owner desired r)
  unfolding deployment_found
  deployment_found-Leaves owner desired (err e) =
      if-Leaves (is_kind api_not_found e.kind) (ensure_owned-Leaves Kind.deployment owner desired)
        (still (λ c. err e))
  deployment_found-Leaves owner desired (ok existing) = law.update Kind.deployment _

  pub update_deployment-Leaves :
      (owner : Owner) (desired : Deployment) → Leaves view (update_deployment A owner desired)
  unfolding update_deployment
  update_deployment-Leaves owner desired =
      bind-Leaves (still (λ c. ok (A.get Kind.deployment (key_of Kind.deployment desired) c)))
        (λ r. deployment_found-Leaves owner desired r)

  with_existing-view :
      (desired : Service) (r : Result Service) (c : A.State)
      → view (with_existing (services A) desired r c).1 ≡ view c
  unfolding with_existing
  with_existing-view desired (err e) c =
      if-view view _ _ _ _ ((law.create Kind.service desired).same c) refl
  with_existing-view desired (ok existing) c =
      if-view view _ _ _ _ refl
        ((law.update Kind.service (updated_service desired existing)).same c)

  pub update_service-Leaves :
      (owned : Service) → Leaves view (update_service (services A) A.retry owned)
  unfolding update_service converge_service
  update_service-Leaves owned = law.retry _ (record { same = λ c. with_existing-view owned _ c })

  pub converge_owned_service-Leaves :
      (owner : Owner) (desired : Service) → Leaves view (converge_owned_service A owner desired)
  unfolding converge_owned_service
  converge_owned_service-Leaves owner desired =
      bind-Leaves (still (λ c. A.own Kind.service owner desired))
        (λ owned. update_service-Leaves owned)

  pub ignore_absent-Leaves :
      (k : Kind) (key : NamespacedName) (r : Result (Unit {0}))
      → Leaves view (ignore_absent (object_at A k key) r)
  unfolding ignore_absent
  ignore_absent-Leaves k key (ok _) = still (λ c. ok tt)
  ignore_absent-Leaves k key (err e) =
      if-Leaves (is_kind api_not_found e.kind) (still (λ c. ok tt)) (still (λ c. err e))

  delete_found-Leaves :
      (k : Kind) (key : NamespacedName) (r : Result (Unit {0}))
      → Leaves view (delete_found (object_at A k key) r)
  unfolding delete_found
  delete_found-Leaves k key (ok _) =
      bind-Leaves (attempt-Leaves (law.delete k key)) (λ r. ignore_absent-Leaves k key r)
  delete_found-Leaves k key (err e) =
      if-Leaves (is_kind no_match e.kind) (still (λ c. ok tt)) (ignore_absent-Leaves k key (err e))

  pub delete_object-Leaves : (k : Kind) (key : NamespacedName) → Leaves view (delete_object A k key)
  unfolding delete_object delete_if_exists
  delete_object-Leaves k key = record {
    same = λ c. (delete_found-Leaves k key ((object_at A k key).get c)).same c;
  }

  replace_entries-Leaves :
      (entries : List (String × String)) (r : Result ConfigMap)
      → Leaves view (replace_entries A entries r)
  unfolding replace_entries
  replace_entries-Leaves entries (ok cm) = law.update Kind.config_map _
  replace_entries-Leaves entries (err e) = still (λ c. err e)

  module _ (owner : Owner) (desired : ConfigMap) where
    replace_found-view :
        (r : Result (List (String × String))) (c : A.State)
        → view (replace_found (config_map_at A owner desired) desired.entries r c).1 ≡ view c
    unfolding replace_found
    replace_found-view (err e) c = refl
    replace_found-view (ok live) c =
        (replace_entries-Leaves desired.entries
            (A.get Kind.config_map (key_of Kind.config_map desired) c)).same
          c

    with_config_map-view :
        (r : Result (List (String × String))) (c : A.State)
        → view (with_config_map (config_map_at A owner desired) desired.entries r c).1 ≡ view c
    unfolding with_config_map replace_data
    with_config_map-view (err e) c =
        if-view view _ _ _ _ ((ensure_owned-Leaves Kind.config_map owner desired).same c) refl
    with_config_map-view (ok live) c =
        let again =
          law.retry (replace_data (config_map_at A owner desired) desired.entries)
            (record { same = λ c. replace_found-view ((config_map_at A owner desired).get c) c }) in
        if-view view _ _ _ _ refl (again.same c)

    pub converge_config_map-Leaves : Leaves view (converge_config_map A owner desired)
    unfolding converge_config_map update_config_map
    converge_config_map-Leaves = record {
      same = λ c. with_config_map-view ((config_map_at A owner desired).get c) c;
    }
