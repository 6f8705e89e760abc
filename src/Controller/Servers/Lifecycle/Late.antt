-- ===== src/Controller/Servers/Lifecycle/Late.antt =====
-- The phases of internal/controller/powerdnsserver_controller.go from the workload on, as steps of
-- `Transition`.
use aether_powerdns.Prelude.{String, ◌≡◌, refl, not, Result, ok, err, no_match, is_kind, leb}
use aether_powerdns.Api.Meta.{NamespacedName}
use aether_powerdns.Api.Server.{PowerDnsServer, phase_deploying_server, phase_exposing_dns}
use aether_powerdns.Manifests.Pods.{Deployment}
use aether_powerdns.Controller.Kube.{Kind, Kube}
use aether_powerdns.Controller.Kube.Answers.{
  bind-Keeps, given-Keeps, then-Keeps, attempt-Keeps, within-Keeps, if-Keeps, still-Keeps,
  write-Keeps, event-Keeps,
}
use aether_powerdns.Controller.Kube.Apart.{ensure_owned-Leaves, converge_config_map-Leaves}
use aether_powerdns.Controller.Servers.Lifecycle.{SameCore, deploy, status_at}
use aether_powerdns.Controller.Servers.Phases as Phases
use aether_powerdns.Controller.Servers.Workload.{
  monitor_ensured, reconcile_observability, hash_workload, ensure_children, ensure_workload,
  with_hash,
}
use aether_powerdns.Controller.Servers.Workload.Apart.{
  compute_config_hash-Leaves, reconcile_additional_dns_services-Leaves, reconcile_budget-Leaves,
  reconcile_network_policy-Leaves, delete_blindly-Leaves, ensure_workload-Gives,
}
use aether_powerdns.Controller.Servers.Lifecycle.Rules.{IsServerStore, Follows, set_phase-Follows}

module _ (A : Kube) (key : NamespacedName) (law : IsServerStore A key) (s : PowerDnsServer) where
  monitor_ensured-Follows : (r : Result (Unit {0})) → Follows A key law s (monitor_ensured A r)
  unfolding monitor_ensured
  monitor_ensured-Follows (ok _) = still-Keeps (λ w. ok tt)
  monitor_ensured-Follows (err e) =
      if-Keeps (is_kind no_match e.kind) (λ h. event-Keeps (status_at A key) _ _ _)
        (λ h. still-Keeps (λ w. err e))

  observability-Follows : (t : PowerDnsServer) → Follows A key law s (reconcile_observability A t)
  unfolding reconcile_observability
  observability-Follows t =
      if-Keeps (not t.spec.observability.pod_monitor.enabled)
        (λ h. write-Keeps (delete_blindly-Leaves A _ law.apart t Kind.pod_monitor _))
        (λ h.
          bind-Keeps (attempt-Keeps (write-Keeps (ensure_owned-Leaves A _ law.apart _ _ _)))
            (λ r. monitor_ensured-Follows r))

  -- A server that differs from `s` in nothing that the steps look at.
  abbrev Like : PowerDnsServer → Type 0
  Like t = (t.status.phase ≡ s.status.phase) × SameCore s.status t.status

  hash_workload-Follows : Follows A key law s (hash_workload A s)
  unfolding hash_workload
  hash_workload-Follows =
      then-Keeps (within-Keeps _ (write-Keeps (converge_config_map-Leaves A _ law.apart _ _)))
        (within-Keeps _ (write-Keeps (compute_config_hash-Leaves A _ law.apart s _)))

  ensure_children-Follows :
      (t : PowerDnsServer) (hash : String) → Follows A key law s (ensure_children A t hash)
  unfolding ensure_children
  ensure_children-Follows t hash =
      then-Keeps (within-Keeps _ (write-Keeps (ensure_owned-Leaves A _ law.apart _ _ _))) (
        then-Keeps (within-Keeps _ (write-Keeps (ensure_owned-Leaves A _ law.apart _ _ _))) (
          then-Keeps (within-Keeps _ (write-Keeps (ensure_owned-Leaves A _ law.apart _ _ _))) (
            then-Keeps
              (within-Keeps _
                (write-Keeps (reconcile_additional_dns_services-Leaves A _ law.apart t)))
              (then-Keeps (within-Keeps _ (write-Keeps (reconcile_budget-Leaves A _ law.apart t))) (
                then-Keeps (within-Keeps _ (observability-Follows t)) (
                  within-Keeps _
                    (write-Keeps (reconcile_network_policy-Leaves A _ law.apart t))))))))

  ensure_workload-Follows : Follows A key law s (ensure_workload A s)
  unfolding ensure_workload
  ensure_workload-Follows = bind-Keeps hash_workload-Follows (λ hash.
      then-Keeps (ensure_children-Follows (with_hash A s hash) hash)
        (still-Keeps (λ w. ok (with_hash A s hash))))

  deployment_available-Follows :
      s.status.phase ≡ phase_deploying_server
      → (hash : String) (r : Result Deployment)
      → Follows A key law s (Phases.deployment_available A (with_hash A s hash) r)
  unfolding Phases.deployment_available Phases.api_endpoint_of
  deployment_available-Follows now hash (err e) = still-Keeps (λ w. ok _)
  deployment_available-Follows now hash (ok d) =
      if-Keeps (not (leb 1 d.status.available_replicas)) (λ h. still-Keeps (λ w. ok _))
        (λ h.
          set_phase-Follows A key law s _ phase_exposing_dns (deploy now refl refl refl refl refl))

  pub phase_deploying-Follows :
      s.status.phase ≡ phase_deploying_server → Follows A key law s (Phases.phase_deploying A s)
  unfolding Phases.phase_deploying
  phase_deploying-Follows now =
      given-Keeps ensure_workload-Follows (ensure_workload-Gives A s) (λ t (hash, same). rw same (
        bind-Keeps (attempt-Keeps (still-Keeps (λ w. A.get Kind.deployment _ w.cluster)))
          (λ r. deployment_available-Follows now hash r)))
