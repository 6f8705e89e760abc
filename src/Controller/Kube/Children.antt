-- ===== src/Controller/Kube/Children.antt =====
-- `ensureOwned`, `ensureUnstructured`, `updateDeployment` and the wrappers of
-- internal/controller/powerdnsserver_controller.go and converge.go, and `upsertOwned` of
-- dnsdist_controller.go.
use aether_powerdns.Prelude.{
  String, List, ◌<>◌, Result, ok, err, api_not_found, is_kind, Action, ◌>>=◌, return, fail,
  if◌then◌else◌,
}
use aether_powerdns.Api.Meta.{NamespacedName}
use aether_powerdns.Manifests.Pods.{ConfigMap, Deployment}
use aether_powerdns.Controller.Kube.{Kind, Object, key_of, Owner, Kube}
use aether_powerdns.Controller.Objects.{
  ObjectApi, delete_if_exists, ConfigMapApi, update_config_map,
}
use aether_powerdns.Controller.Services.{Service, ServiceApi, update_service}

-- `fmt.Errorf("text: %w", err)`.
abbrev pub with_text : {A : Type 0} → String → Result A → Result A
with_text text (ok a) = ok a
with_text text (err e) = err (record e { text = text <> (": " <> e.text) })

abbrev pub within : {W A : Type 0} → String → Action W A → Action W A
within text m w = let (r, w') = m w in (with_text text r, w')

-- A result that was computed before.
abbrev pub lift : {W A : Type 0} → Result A → Action W A
lift r w = (r, w)

-- A read, whose answer the code looks at.
abbrev pub look : {W A : Type 0} → (W → Result A) → Action W (Result A)
look f w = (ok (f w), w)

module _ (A : Kube) where
  -- With the answer to the Get.
  unfoldable pub create_absent :
      (k : Kind) → Object k → Result (Object k) → Action A.State (Unit {0})
  create_absent k obj (ok _) = return tt
  create_absent k obj (err e) = if is_kind api_not_found e.kind then A.create k obj else fail e

  -- `ensureOwned`, and `ensureUnstructured`, which does the same for objects without a Go type.
  unfoldable pub ensure_owned : (k : Kind) → Owner → Object k → Action A.State (Unit {0})
  unfolding create_absent
  ensure_owned k owner obj = do
    owned ← lift (A.own k owner obj)
    existing ← look (A.get k (key_of k owned))
    create_absent k owned existing

  unfoldable pub deployment_found :
      Owner → Deployment → Result Deployment → Action A.State (Unit {0})
  deployment_found owner desired (err e) =
      if is_kind api_not_found e.kind then ensure_owned Kind.deployment owner desired else fail e
  deployment_found owner desired (ok existing) = A.update Kind.deployment (record existing {
    spec = record existing.spec {
      replicas = desired.spec.replicas;
      template = desired.spec.template;
    };
  })

  unfoldable pub update_deployment : Owner → Deployment → Action A.State (Unit {0})
  unfolding deployment_found
  update_deployment owner desired = do
    existing ← look (A.get Kind.deployment (key_of Kind.deployment desired))
    deployment_found owner desired existing

  -- The client at Services, and at one object, for the functions of converge.go.
  abbrev pub services : ServiceApi
  services = record {
    State = A.State;
    get = A.get Kind.service;
    create = A.create Kind.service;
    update = A.update Kind.service;
  }

  abbrev found : {B : Type 0} → Result B → Result (Unit {0})
  found (ok b) = ok tt
  found (err e) = err e

  abbrev pub object_at : (k : Kind) → NamespacedName → ObjectApi
  object_at k key = record {
    State = A.State;
    get = λ s. found (A.get k key s);
    delete = A.delete k key;
  }

  unfoldable pub entries_of : Result ConfigMap → Result (List (String × String))
  entries_of (ok cm) = ok cm.entries
  entries_of (err e) = err e

  unfoldable pub replace_entries :
      List (String × String) → Result ConfigMap → Action A.State (Unit {0})
  replace_entries entries (ok cm) = A.update Kind.config_map (record cm { entries = entries })
  replace_entries entries (err e) = fail e

  abbrev pub config_map_at : Owner → ConfigMap → ConfigMapApi
  config_map_at owner desired =
      let key = key_of Kind.config_map desired in
      record {
        State = A.State;
        get = λ s. entries_of (A.get Kind.config_map key s);
        create = ensure_owned Kind.config_map owner desired;
        update = λ entries s. replace_entries entries (A.get Kind.config_map key s) s;
        retry = A.retry;
      }

  -- The methods `updateService`, `updateConfigMap` and `deleteIfExists`.
  unfoldable pub converge_owned_service : Owner → Service → Action A.State (Unit {0})
  converge_owned_service owner desired = do
    owned ← lift (A.own Kind.service owner desired)
    update_service services A.retry owned

  unfoldable pub converge_config_map : Owner → ConfigMap → Action A.State (Unit {0})
  unfolding entries_of replace_entries
  converge_config_map owner desired =
      update_config_map (config_map_at owner desired) desired.entries

  unfoldable pub delete_object : (k : Kind) → NamespacedName → Action A.State (Unit {0})
  delete_object k key = delete_if_exists (object_at k key)
