-- ===== src/Controller/Servers/Lifecycle/Steady.antt =====
-- The Ready phase of internal/controller/powerdnsserver_controller.go as a step of `Transition`.
use aether_powerdns.Prelude.{
  String, List, [], ◌∷◌, ◌≡◌, inl, inr, not, ◌||◌, ◌&&◌, ok, Bool-cases, bool_eq, nat_eq,
}
use aether_powerdns.Api.Meta.{NamespacedName}
use aether_powerdns.Api.Server.{PowerDnsServer, phase_ready}
use aether_powerdns.Manifests.Naming.{name_set}
use aether_powerdns.Manifests.Pods.{Deployment}
use aether_powerdns.Manifests.Settings.{validate_extra_settings}
use aether_powerdns.Controller.Kube.{Kind, Kube}
use aether_powerdns.Controller.Kube.Answers.{
  bind-Keeps, given-Keeps, then-Keeps, if-Keeps, still-Keeps, write-Keeps, event-Keeps, then-Gives,
  after-Gives, return-Gives,
}
use aether_powerdns.Controller.Kube.Apart.{
  converge_config_map-Leaves, converge_owned_service-Leaves, update_deployment-Leaves,
}
use aether_powerdns.Controller.World.{event_warning, event_normal}
use aether_powerdns.Controller.Servers.Workload.{with_hash}
use aether_powerdns.Controller.Servers.Workload.Apart.{
  compute_config_hash-Leaves, reconcile_additional_dns_services-Leaves, reconcile_budget-Leaves,
}
use aether_powerdns.Controller.Servers.Reconcile as Reconcile
use aether_powerdns.Controller.Servers.Lifecycle.{status_at}
use aether_powerdns.Controller.Servers.Lifecycle.Exposing.{reconcile_routes-Follows}
use aether_powerdns.Controller.Servers.Lifecycle.Settled.{
  Like, step, Refreshes, refresh_dns_endpoint-Refreshes,
}
use aether_powerdns.Controller.Servers.Lifecycle.Rules.{
  IsServerStore, core_kept, Follows, status_write-Follows,
}

module _ (A : Kube) (key : NamespacedName) (law : IsServerStore A key) (s : PowerDnsServer) where
  drift_hash-Follows : Follows A key law s (Reconcile.drift_hash A s)
  unfolding Reconcile.drift_hash
  drift_hash-Follows =
      then-Keeps (write-Keeps (converge_config_map-Leaves A _ law.apart _ _))
        (write-Keeps (compute_config_hash-Leaves A _ law.apart s _))

  drift_children-Follows :
      (t : PowerDnsServer) (hash : String) → Follows A key law s (Reconcile.drift_children A t hash)
  unfolding Reconcile.drift_children
  drift_children-Follows t hash =
      then-Keeps (write-Keeps (update_deployment-Leaves A _ law.apart _ _)) (
        then-Keeps (write-Keeps (converge_owned_service-Leaves A _ law.apart _ _)) (
          then-Keeps (write-Keeps (converge_owned_service-Leaves A _ law.apart _ _)) (
            then-Keeps (write-Keeps (reconcile_additional_dns_services-Leaves A _ law.apart t)) (
              then-Keeps (reconcile_routes-Follows A key law s t)
                (write-Keeps (reconcile_budget-Leaves A _ law.apart t))))))

  reconcile_drift-Refreshes :
      s.status.phase ≡ phase_ready → Refreshes A key law s (Reconcile.reconcile_drift A s)
  unfolding Reconcile.reconcile_drift
  reconcile_drift-Refreshes now = (
    bind-Keeps drift_hash-Follows (λ hash.
        then-Keeps (drift_children-Follows (with_hash A s hash) hash)
          (still-Keeps (λ w. ok (with_hash A s hash)))),
    after-Gives (Reconcile.drift_hash A s) (λ hash.
        then-Gives (Reconcile.drift_children A (with_hash A s hash) hash) (
          return-Gives (Like A key law s) (with_hash A s hash)
            (now, core_kept s.status _ _ _ _ _ _ _ _))),
  )

  mirrored-Like :
      (t : PowerDnsServer) (d : Deployment)
      → Like A key law s t
      → Like A key law s (Reconcile.mirrored A t d)
  unfolding Reconcile.mirrored
  mirrored-Like t d (phase, core) = elim (Bool-cases (Reconcile.is_available d)) [
    | inl all ↦ rw all (
      phase,
      record {
        api_key = core.api_key;
        backend = core.backend;
        schema = core.schema;
        api = core.api;
      },
    )
    | inr missing ↦ rw missing (
      phase,
      record {
        api_key = core.api_key;
        backend = core.backend;
        schema = core.schema;
        api = core.api;
      },
    )
  ]

  announce-Follows :
      (t : PowerDnsServer) (d : Deployment) → Follows A key law s (Reconcile.announce A t d)
  unfolding Reconcile.announce
  announce-Follows t d =
      if-Keeps (Reconcile.is_available d && not t.status.ready)
        (λ h. event-Keeps (status_at A key) event_normal "Ready" _)
        (λ h.
          if-Keeps (not (Reconcile.is_available d) && t.status.ready)
            (λ q.
              event-Keeps (status_at A key) event_warning "Degraded" (Reconcile.replicas_message d))
            (λ q. still-Keeps (λ w. ok tt)))

  replicas_found-Follows :
      s.status.phase ≡ phase_ready
      → (t : PowerDnsServer) (d : Deployment) → Like A key law s t
      → Follows A key law s (Reconcile.replicas_found A t d)
  unfolding Reconcile.replicas_found
  replicas_found-Follows now t d like =
      if-Keeps
        (not (bool_eq t.status.ready (Reconcile.is_available d))
          || not (nat_eq t.status.ready_replicas d.status.ready_replicas)
          || not (nat_eq t.status.desired_replicas (Reconcile.desired_of d)))
        (λ h.
          then-Keeps
            (status_write-Follows A key law s (Reconcile.mirrored A t d)
              (step A key law s (Reconcile.mirrored A t d) now (mirrored-Like t d like)))
            (announce-Follows t d))
        (λ h. still-Keeps (λ w. ok tt))

  refresh_replica_status-Follows :
      s.status.phase ≡ phase_ready
      → (t : PowerDnsServer) → Like A key law s t
      → Follows A key law s (Reconcile.refresh_replica_status A t)
  unfolding Reconcile.refresh_replica_status
  refresh_replica_status-Follows now t like =
      bind-Keeps
        (still-Keeps (λ w.
          A.get Kind.deployment
            (record { namespace = t.meta.namespace; name = (name_set t).deployment }) w.cluster))
        (λ d. replicas_found-Follows now t d like)

  warn_rejected-Follows :
      (msgs : List String) → Follows A key law s (Reconcile.warn_rejected A msgs)
  unfolding Reconcile.warn_rejected
  warn_rejected-Follows [] = still-Keeps (λ w. ok tt)
  warn_rejected-Follows (m ∷ ms) = event-Keeps (status_at A key) _ _ _

  pub phase_ready-Follows :
      s.status.phase ≡ phase_ready → Follows A key law s (Reconcile.phase_ready A s)
  unfolding Reconcile.phase_ready
  phase_ready-Follows now =
      let (follows, gives) = reconcile_drift-Refreshes now in
      then-Keeps (warn_rejected-Follows (validate_extra_settings s.spec.extra_settings)) (
        given-Keeps follows gives (λ t like.
          given-Keeps (refresh_dns_endpoint-Refreshes A key law s now t like).0
            (refresh_dns_endpoint-Refreshes A key law s now t like).1
            (λ u like'.
              then-Keeps (refresh_replica_status-Follows now u like') (still-Keeps (λ w. ok _)))))
