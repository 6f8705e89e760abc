-- ===== src/Controller/Servers/Workload/Apart.antt =====
-- `ensureWorkload` and the correction of drift (internal/controller/powerdnsserver_controller.go)
-- leave the custom resources alone.
use aether_powerdns.Prelude.{
  List, [], ◌∷◌, Option, none, some, ◌==◌, not, any, Result, ok, err, String, ◌≡◌, refl,
}
use aether_powerdns.Api.Meta.{NamespacedName}
use aether_powerdns.Api.Server.{PowerDnsServer}
use aether_powerdns.Manifests.Budget.{PodDisruptionBudget, pod_disruption_budget}
use aether_powerdns.Manifests.Network.{NetworkPolicy, network_policy}
use aether_powerdns.Manifests.Pods.{ConfigMap}
use aether_powerdns.Manifests.Services.{additional_dns_services}
use aether_powerdns.Controller.Kube.{Kind, server, key_of, Kube}
use aether_powerdns.Controller.Kube.Apart.{
  Leaves, IsApart, bind-Leaves, then-Leaves, if-Leaves, attempt-Leaves, still, ensure_owned-Leaves,
  converge_owned_service-Leaves, ignore_absent-Leaves,
}
use aether_powerdns.Controller.Kube.Answers.{Gives, after-Gives, then-Gives, return-Gives}
use aether_powerdns.Controller.World.{World}
use aether_powerdns.Controller.Services.{Service}
use aether_powerdns.Controller.Servers.Workload.{
  tagged, entries_or_none, secret_entries, compute_config_hash, converge_additional,
  delete_undesired, reconcile_additional_dns_services, delete_blindly, budget_of, reconcile_budget,
  policy_found, reconcile_network_policy, hash_workload, ensure_children, ensure_workload,
  with_hash,
}

module _ (A : Kube) {V : Type 0} (view : A.State → V) (law : IsApart A view) where
  pub delete_undesired-Leaves :
      (desired existing : List Service) → Leaves view (delete_undesired A desired existing)
  unfolding delete_undesired
  delete_undesired-Leaves desired [] = still (λ c. ok tt)
  delete_undesired-Leaves desired (svc ∷ rest) =
      if-Leaves (any (λ d. d.name == svc.name) desired) (delete_undesired-Leaves desired rest) (
        bind-Leaves (attempt-Leaves (law.delete Kind.service (key_of Kind.service svc))) (λ r.
          then-Leaves (ignore_absent-Leaves A view law Kind.service (key_of Kind.service svc) r)
            (delete_undesired-Leaves desired rest)))

module _ (A : Kube) {V : Type 0} (view : A.State → V) (law : IsApart A view)
    (s : PowerDnsServer) where
  secret_entries-Leaves : (key : NamespacedName) → Leaves view (secret_entries A key)
  unfolding secret_entries
  secret_entries-Leaves key =
      bind-Leaves (still (λ c. ok (A.get Kind.secret key c)))
        (λ sec. still (λ c. entries_or_none A sec))

  pub compute_config_hash-Leaves : (cm : ConfigMap) → Leaves view (compute_config_hash A s cm)
  unfolding compute_config_hash
  compute_config_hash-Leaves cm =
      bind-Leaves (secret_entries-Leaves _)
        (λ api. bind-Leaves (secret_entries-Leaves _) (λ backend. still (λ c. ok _)))

  converge_additional-Leaves :
      (desired : List Service) → Leaves view (converge_additional A s desired)
  unfolding converge_additional
  converge_additional-Leaves [] = still (λ c. ok tt)
  converge_additional-Leaves (svc ∷ rest) =
      then-Leaves (converge_owned_service-Leaves A view law (server s) (tagged svc))
        (converge_additional-Leaves rest)

  pub reconcile_additional_dns_services-Leaves : Leaves view (reconcile_additional_dns_services A s)
  unfolding reconcile_additional_dns_services
  reconcile_additional_dns_services-Leaves =
      then-Leaves (converge_additional-Leaves (additional_dns_services s)) (
        bind-Leaves (still (λ c. ok _)) (λ found.
          bind-Leaves (still (λ c. found))
            (λ existing. delete_undesired-Leaves A view law (additional_dns_services s) existing)))

  pub delete_blindly-Leaves :
      (k : Kind) (key : NamespacedName) → Leaves view (delete_blindly A k key)
  delete_blindly-Leaves k key =
      bind-Leaves (attempt-Leaves (law.delete k key)) (λ r. still (λ c. ok tt))

  budget_of-Leaves : (pdb : Option PodDisruptionBudget) → Leaves view (budget_of A s pdb)
  unfolding budget_of
  budget_of-Leaves (some pdb) = ensure_owned-Leaves A view law Kind.budget (server s) pdb
  budget_of-Leaves none = delete_blindly-Leaves Kind.budget _

  pub reconcile_budget-Leaves : Leaves view (reconcile_budget A s)
  unfolding reconcile_budget
  reconcile_budget-Leaves = budget_of-Leaves (pod_disruption_budget s)

  policy_found-Leaves :
      (np : NetworkPolicy) (r : Result NetworkPolicy) → Leaves view (policy_found A np r)
  unfolding policy_found
  policy_found-Leaves np (err e) = still (λ c. ok tt)
  policy_found-Leaves np (ok existing) = law.update Kind.network_policy _

  pub reconcile_network_policy-Leaves : Leaves view (reconcile_network_policy A s)
  unfolding reconcile_network_policy
  reconcile_network_policy-Leaves =
      if-Leaves (not s.spec.network_policy.enabled) (delete_blindly-Leaves Kind.network_policy _) (
        then-Leaves
          (ensure_owned-Leaves A view law Kind.network_policy (server s) (network_policy s))
          (bind-Leaves (still (λ c. ok _)) (λ r. policy_found-Leaves (network_policy s) r)))

-- What `ensureWorkload` returns: the server with a hash in its status.
module _ (A : Kube) (s : PowerDnsServer) where
  pub ensure_workload-Gives :
      Gives {S = World A.State (Unit {0})}
        (λ t. (hash : String) × (t ≡ with_hash A s hash))
        (ensure_workload A s)
  unfolding ensure_workload
  ensure_workload-Gives = after-Gives (hash_workload A s) (λ hash.
      then-Gives (ensure_children A (with_hash A s hash) hash) (
        return-Gives (λ t. (hash : String) × (t ≡ with_hash A s hash)) (with_hash A s hash)
          (hash, refl)))
