-- ===== src/Controller/Servers/Lifecycle/Exposing.antt =====
-- The routes and the phase of exposure of internal/controller/powerdnsserver_controller.go, as steps
-- of `Transition`.
use aether_powerdns.Prelude.{
  String, List, [], ◌∷◌, Option, none, some, ◌==◌, ◌≡◌, refl, Result, ok, err, no_match, is_kind,
}
use aether_powerdns.Api.Meta.{NamespacedName}
use aether_powerdns.Api.Server.{
  PowerDnsServer, DnsGatewaySpec, phase_ready, phase_exposing_dns, GatewayParentRef,
  dns_exposure_gateway, dns_exposure_none, dns_exposure_load_balancer,
}
use aether_powerdns.Controller.Kube.{Kind, Kube, OperationResult, created, not_created}
use aether_powerdns.Controller.Kube.Answers.{
  bind-Keeps, then-Keeps, attempt-Keeps, within-Keeps, if-Keeps, still-Keeps, write-Keeps,
  event-Keeps,
}
use aether_powerdns.Controller.Servers.Lifecycle.{expose, give_up, status_at}
use aether_powerdns.Controller.Servers.Phases as Phases
use aether_powerdns.Controller.Kube.Apart.{delete_object-Leaves}
use aether_powerdns.Manifests.Routes.{HttpRoute, http_route}
use aether_powerdns.Controller.Servers.Exposure.{
  tcp_ensured, udp_ensured, http_ensured, dns_routes, no_dns_routes, api_route, reconcile_routes,
  converge_tcp_route, converge_udp_route, exposure_of, ingress_address, dns_service_key,
  with_endpoint,
}
use aether_powerdns.Controller.Services.{Service}
use aether_powerdns.Controller.Servers.Lifecycle.Rules.{
  IsServerStore, core_kept, Follows, set_phase-Follows, set_failed-Follows,
}

module _ (A : Kube) (key : NamespacedName) (law : IsServerStore A key) (s : PowerDnsServer) where
  tcp_ensured-Follows : (r : Result OperationResult) → Follows A key law s (tcp_ensured A r)
  unfolding tcp_ensured
  tcp_ensured-Follows (ok op) = still-Keeps (λ w. ok tt)
  tcp_ensured-Follows (err e) =
      if-Keeps (is_kind no_match e.kind)
        (λ h. then-Keeps (event-Keeps (status_at A key) _ _ _) (still-Keeps (λ w. err _)))
        (λ h. still-Keeps (λ w. err _))

  udp_ensured-Follows : (r : Result OperationResult) → Follows A key law s (udp_ensured A r)
  unfolding udp_ensured
  udp_ensured-Follows (ok op) = still-Keeps (λ w. ok tt)
  udp_ensured-Follows (err e) =
      if-Keeps (is_kind no_match e.kind) (λ h. still-Keeps (λ w. err _))
        (λ h. still-Keeps (λ w. err _))

  http_ensured-Follows :
      (desired : HttpRoute) (r : Result OperationResult)
      → Follows A key law s (http_ensured A desired r)
  unfolding http_ensured
  http_ensured-Follows desired (ok created) = event-Keeps (status_at A key) _ _ _
  http_ensured-Follows desired (ok not_created) = still-Keeps (λ w. ok tt)
  http_ensured-Follows desired (err e) =
      if-Keeps (is_kind no_match e.kind)
        (λ h. then-Keeps (event-Keeps (status_at A key) _ _ _) (still-Keeps (λ w. err _)))
        (λ h. still-Keeps (λ w. err _))

  api_route-Follows :
      (t : PowerDnsServer) (route : Option HttpRoute) → Follows A key law s (api_route A t route)
  unfolding api_route
  api_route-Follows t (some desired) =
      bind-Keeps (attempt-Keeps (write-Keeps (law.apart.create_or_update Kind.http_route _ _)))
        (λ r. http_ensured-Follows desired r)
  api_route-Follows t none = within-Keeps _ (write-Keeps (delete_object-Leaves A _ law.apart _ _))

  converge_tcp_route-Follows : (t : PowerDnsServer) → Follows A key law s (converge_tcp_route A t)
  unfolding converge_tcp_route
  converge_tcp_route-Follows t =
      bind-Keeps (attempt-Keeps (write-Keeps (law.apart.create_or_update Kind.tcp_route _ _)))
        (λ r. tcp_ensured-Follows r)

  converge_udp_route-Follows : (t : PowerDnsServer) → Follows A key law s (converge_udp_route A t)
  unfolding converge_udp_route
  converge_udp_route-Follows t =
      bind-Keeps (attempt-Keeps (write-Keeps (law.apart.create_or_update Kind.udp_route _ _)))
        (λ r. udp_ensured-Follows r)

  pub reconcile_routes-Follows : (t : PowerDnsServer) → Follows A key law s (reconcile_routes A t)
  unfolding reconcile_routes dns_routes no_dns_routes
  reconcile_routes-Follows t =
      then-Keeps
        (if-Keeps (t.spec.dns.exposure == dns_exposure_gateway)
          (λ h. then-Keeps (converge_tcp_route-Follows t) (converge_udp_route-Follows t))
          (λ h.
            then-Keeps (within-Keeps _ (write-Keeps (delete_object-Leaves A _ law.apart _ _)))
              (within-Keeps _ (write-Keeps (delete_object-Leaves A _ law.apart _ _)))))
        (api_route-Follows t (http_route t))

  expose_balancer-Follows :
      s.status.phase ≡ phase_exposing_dns
      → (svc : Service) → Follows A key law s (Phases.expose_balancer A s svc)
  unfolding Phases.expose_balancer
  expose_balancer-Follows now svc =
      if-Keeps (ingress_address svc.ingress == "") (λ h. still-Keeps (λ w. ok _))
        (λ h.
          set_phase-Follows A key law s _ phase_ready
            (expose now refl (core_kept s.status _ _ _ _ _ _ _ _)))

  expose_parents-Follows :
      s.status.phase ≡ phase_exposing_dns
      → (gw : DnsGatewaySpec) (parents : List GatewayParentRef)
      → Follows A key law s (Phases.expose_parents A s gw parents)
  unfolding Phases.expose_parents
  expose_parents-Follows now gw [] =
      set_failed-Follows A key law s _ (give_up now refl (core_kept s.status _ _ _ _ _ _ _ _))
  expose_parents-Follows now gw (p ∷ ps) =
      set_phase-Follows A key law s _ phase_ready
        (expose now refl (core_kept s.status _ _ _ _ _ _ _ _))

  expose_gateway-Follows :
      s.status.phase ≡ phase_exposing_dns
      → (gw : Option DnsGatewaySpec) → Follows A key law s (Phases.expose_gateway A s gw)
  unfolding Phases.expose_gateway
  expose_gateway-Follows now none =
      set_failed-Follows A key law s _ (give_up now refl (core_kept s.status _ _ _ _ _ _ _ _))
  expose_gateway-Follows now (some gw) = expose_parents-Follows now gw gw.parent_refs

  pub phase_exposing-Follows :
      s.status.phase ≡ phase_exposing_dns → Follows A key law s (Phases.phase_exposing A s)
  unfolding Phases.phase_exposing Phases.expose
  phase_exposing-Follows now =
      let kept = λ (e : String).
        set_phase-Follows A key law s (with_endpoint A s e) phase_ready
          (expose now refl (core_kept s.status _ _ _ _ _ _ _ _)) in
      then-Keeps (reconcile_routes-Follows s) (
        if-Keeps (exposure_of s == dns_exposure_none)
          (λ h.
            bind-Keeps (still-Keeps (λ w. A.get Kind.service (dns_service_key A s) w.cluster))
              (λ svc. kept _))
          (λ h.
            if-Keeps (exposure_of s == dns_exposure_load_balancer)
              (λ q.
                bind-Keeps (still-Keeps (λ w. A.get Kind.service (dns_service_key A s) w.cluster))
                  (λ svc. expose_balancer-Follows now svc))
              (λ q.
                if-Keeps (exposure_of s == dns_exposure_gateway)
                  (λ r. expose_gateway-Follows now s.spec.dns.gateway)
                  (λ r.
                    set_phase-Follows A key law s s phase_ready
                      (expose now refl (core_kept s.status _ _ _ _ _ _ _ _))))))
