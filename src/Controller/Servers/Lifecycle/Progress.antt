-- ===== src/Controller/Servers/Lifecycle/Progress.antt =====
-- A pass of internal/controller/powerdnsserver_controller.go that asks for another one at once has
-- brought the server on.
use aether_powerdns.Prelude.{
  ℕ, String, true, false, List, [], ◌∷◌, Option, none, some, ◌==◌, ◌≡◌, ◌<◌, refl, subst, ◌∙◌, not,
  ◌||◌, ok, eq_iff, arith,
}
use aether_powerdns.Api.Meta.{NamespacedName, ReconcileResult}
use aether_powerdns.Api.Server.{
  PowerDnsServer, PowerDnsServerStatus, DnsGatewaySpec, GatewayParentRef, phase_pending,
  phase_provisioning_backend, phase_initializing_schema, phase_deploying_server, phase_exposing_dns,
  phase_ready, dns_exposure_none, dns_exposure_load_balancer, dns_exposure_gateway,
}
use aether_powerdns.Manifests.Settings.{validate_extra_settings}
use aether_powerdns.Controller.Common.{requeue_in, requeue_short, requeue_long, done}
use aether_powerdns.Controller.Kube.{Kind, Kube}
use aether_powerdns.Controller.Servers.Backend.{byo_of}
use aether_powerdns.Controller.Servers.Exposure.{
  exposure_of, ingress_address, dns_service_key, reconcile_routes, refresh_dns_endpoint,
}
use aether_powerdns.Controller.Servers.Lifecycle.{IsNew, status_at}
use aether_powerdns.Controller.Servers.Lifecycle.Ranks.{rank, rank_new, rank_phase, rank_values}
use aether_powerdns.Controller.Servers.Phases as Phases
use aether_powerdns.Controller.Servers.Reconcile as Reconcile
use aether_powerdns.Controller.Services.{Service}
use aether_powerdns.Controller.World.{World, read}
use aether_powerdns.Controller.Servers.Lifecycle.Advances.{
  IsAt, StoresStatus, Advances, bind-Advances, then-Advances, if-Advances, waits-Advances,
  set_phase-Advances, set_failed-Advances,
}
use aether_powerdns.Controller.Servers.Lifecycle.Onward.{
  phase_pending-Advances, provision-Advances, phase_initializing-Advances, phase_deploying-Advances,
}

-- The last phases, and the whole pass.
module _ (A : Kube) (key : NamespacedName) (law : StoresStatus A key) (s : PowerDnsServer)
    (at_key : IsAt key s) where
  ready : 4 < rank phase_ready
  ready = omega (arith, rank_values.4)

  expose_balancer-Advances : (svc : Service) → Advances A key law 4 (Phases.expose_balancer A s svc)
  unfolding Phases.expose_balancer
  expose_balancer-Advances svc =
      if-Advances A key law 4 (ingress_address svc.ingress == "")
        (λ h. waits-Advances A key law 4 (requeue_in requeue_short) refl)
        (λ h. set_phase-Advances A key law 4 _ phase_ready at_key ready)

  expose_parents-Advances :
      (gw : DnsGatewaySpec) (parents : List GatewayParentRef)
      → Advances A key law 4 (Phases.expose_parents A s gw parents)
  unfolding Phases.expose_parents
  expose_parents-Advances gw [] = set_failed-Advances A key law 4 s _
  expose_parents-Advances gw (p ∷ ps) = set_phase-Advances A key law 4 _ phase_ready at_key ready

  expose_gateway-Advances :
      (gw : Option DnsGatewaySpec) → Advances A key law 4 (Phases.expose_gateway A s gw)
  unfolding Phases.expose_gateway
  expose_gateway-Advances none = set_failed-Advances A key law 4 s _
  expose_gateway-Advances (some gw) = expose_parents-Advances gw gw.parent_refs

  expose-Advances : (exposure : String) → Advances A key law 4 (Phases.expose A s exposure)
  unfolding Phases.expose
  expose-Advances exposure =
      if-Advances A key law 4 (exposure == dns_exposure_none)
        (λ h.
          bind-Advances A key law 4 (read (A.get Kind.service (dns_service_key A s)))
            (λ svc. set_phase-Advances A key law 4 _ phase_ready at_key ready))
        (λ h.
          if-Advances A key law 4 (exposure == dns_exposure_load_balancer)
            (λ q.
              bind-Advances A key law 4 (read (A.get Kind.service (dns_service_key A s)))
                expose_balancer-Advances)
            (λ q.
              if-Advances A key law 4 (exposure == dns_exposure_gateway)
                (λ r. expose_gateway-Advances s.spec.dns.gateway)
                (λ r. set_phase-Advances A key law 4 s phase_ready at_key ready)))

  phase_exposing-Advances : Advances A key law 4 (Phases.phase_exposing A s)
  unfolding Phases.phase_exposing
  phase_exposing-Advances =
      then-Advances A key law 4 (reconcile_routes A s) (expose-Advances (exposure_of s))

  phase_ready-Advances : (n : ℕ) → Advances A key law n (Reconcile.phase_ready A s)
  unfolding Reconcile.phase_ready
  phase_ready-Advances n =
      then-Advances A key law n
        (Reconcile.warn_rejected A (validate_extra_settings s.spec.extra_settings))
        (bind-Advances A key law n (Reconcile.reconcile_drift A s) (λ t.
          bind-Advances A key law n (refresh_dns_endpoint A t) (λ u.
            then-Advances A key law n (Reconcile.refresh_replica_status A u)
              (waits-Advances A key law n (requeue_in requeue_long) refl))))

  phase_provisioning-Advances : Advances A key law 1 (Phases.phase_provisioning A s)
  unfolding Phases.phase_provisioning
  phase_provisioning-Advances = provision-Advances A key law s at_key (byo_of s)

  -- With the test for a phase.
  is_at :
      {n : ℕ} (phase : String)
      → rank phase ≡ n
      → (s.status.phase == phase) ≡ true
      → rank s.status.phase ≡ n
  is_at phase number e = rank_phase s.status ((eq_iff s.status.phase phase).0 e) ∙ number

  dispatch-Advances : Advances A key law (rank s.status.phase) (Reconcile.dispatch A s)
  unfolding Reconcile.dispatch
  dispatch-Advances =
      let n = rank s.status.phase in
      if-Advances A key law n (s.status.phase == "" || s.status.phase == phase_pending)
        (λ h.
          let new : IsNew s.status =
            ground (arith, eq_iff s.status.phase "", eq_iff s.status.phase phase_pending) in
          rw (rank_new s.status new) (phase_pending-Advances A key law s at_key))
        (λ h.
          if-Advances A key law n (s.status.phase == phase_provisioning_backend)
            (λ e. rw (is_at phase_provisioning_backend rank_values.0 e) phase_provisioning-Advances)
            (λ h.
              if-Advances A key law n (s.status.phase == phase_initializing_schema)
                (λ e.
                  rw (is_at phase_initializing_schema rank_values.1 e)
                    (phase_initializing-Advances A key law s at_key))
                (λ h.
                  if-Advances A key law n (s.status.phase == phase_deploying_server)
                    (λ e.
                      rw (is_at phase_deploying_server rank_values.2 e)
                        (phase_deploying-Advances A key law s at_key))
                    (λ h.
                      if-Advances A key law n (s.status.phase == phase_exposing_dns)
                        (λ e. rw (is_at phase_exposing_dns rank_values.3 e) phase_exposing-Advances)
                        (λ h.
                          if-Advances A key law n (s.status.phase == phase_ready)
                            (λ e. phase_ready-Advances n)
                            (λ h. waits-Advances A key law n done refl))))))

  live-Advances :
      s.meta.deleting ≡ false
      → A.contains_finalizer s.meta.finalizers Reconcile.finalizer ≡ true
      → Advances A key law (rank s.status.phase) (Reconcile.with_server A (ok s))
  unfolding Reconcile.with_server
  live-Advances alive held =
      let n = rank s.status.phase in
      if-Advances A key law n s.meta.deleting (λ e. absurd cc)
        (λ h.
          if-Advances A key law n (not (A.contains_finalizer s.meta.finalizers Reconcile.finalizer))
            (λ e. absurd (ground arith)) (λ q. dispatch-Advances))

-- Where a write of the status of the server at the key takes effect if it succeeds, a pass over
-- that server, live and with its finalizer, that returns without an error and asks for another pass
-- at once has brought the server on: the cluster holds it in a later phase.
pub reconcile-IsOnward :
    (A : Kube) (key : NamespacedName) (law : StoresStatus A key) (s : PowerDnsServer)
    (w : World A.State (Unit {0})) (r : ReconcileResult)
    → IsAt key s
    → A.get_server key w.cluster ≡ ok s
    → s.meta.deleting ≡ false
    → A.contains_finalizer s.meta.finalizers Reconcile.finalizer ≡ true
    → (Reconcile.reconcile A key w).0 ≡ ok r
    → r.requeue ≡ true
    → (t : PowerDnsServerStatus) × (status_at A key (Reconcile.reconcile A key w).1.cluster
        ≡ some t)
      × (rank s.status.phase < rank t.phase)
unfolding Reconcile.reconcile
reconcile-IsOnward A key law s w r at_key found alive held q again =
    let returned : (Reconcile.with_server A (ok s) w).0 ≡ ok r =
      subst (λ x. (Reconcile.with_server A x w).0 ≡ ok r) found q in
    rw found ((live-Advances A key law s at_key alive held).onward w r returned again)
