-- ===== src/Controller/Servers/Lifecycle/Settled.antt =====
-- The passes over a server that is ready (internal/controller/powerdnsserver_controller.go), as steps
-- of `Transition`.
use aether_powerdns.Prelude.{
  String, Option, none, some, ◌==◌, ◌≡◌, not, ◌||◌, Result, ok, err, api_not_found, is_kind,
  attempt, ◌<>◌, ◌&&◌, if◌then◌else◌,
}
use aether_powerdns.Api.Meta.{NamespacedName}
use aether_powerdns.Api.Server.{
  PowerDnsServer, DnsGatewaySpec, phase_ready, dns_exposure_gateway, dns_exposure_none,
  dns_exposure_load_balancer,
}
use aether_powerdns.Controller.Kube.{Kind, Kube}
use aether_powerdns.Controller.Kube.Answers.{
  Gives, bind-Keeps, then-Keeps, attempt-Keeps, if-Keeps, still-Keeps, event-Keeps, then-Gives,
  after-Gives, return-Gives, fail-Gives, if-Gives,
}
use aether_powerdns.Controller.Servers.Lifecycle.{SameCore, Transition, refresh, status_at}
use aether_powerdns.Controller.Servers.Status.{Pass}
use aether_powerdns.Controller.World.{World, read, write, event, event_warning}
use aether_powerdns.Controller.Services.{Service}
use aether_powerdns.Controller.Servers.Exposure.{
  exposure_of, ingress_address, dns_service_key, with_endpoint, publish_endpoint, balancer_endpoint,
  dns_service_found, gateway_refreshed, refresh_dns_endpoint,
}
use aether_powerdns.Controller.Servers.Lifecycle.Rules.{
  IsServerStore, Follows, status_write-Follows,
}

module _ (A : Kube) (key : NamespacedName) (law : IsServerStore A key) (s : PowerDnsServer) where
  -- A server that is ready, with the core of `s`.
  abbrev pub Like : PowerDnsServer → Type 0
  Like t = (t.status.phase ≡ phase_ready) × SameCore s.status t.status

  with_endpoint-Like :
      (t : PowerDnsServer) (endpoint : String) → Like t → Like (with_endpoint A t endpoint)
  with_endpoint-Like t endpoint (phase, core) = (
    phase,
    record { api_key = core.api_key; backend = core.backend; schema = core.schema; api = core.api },
  )

  pub step : (t : PowerDnsServer) → s.status.phase ≡ phase_ready → Like t → Transition s t.status
  step t now (phase, core) = refresh now phase core

  -- An action that makes only steps, and returns such a server.
  abbrev pub Refreshes : Pass A PowerDnsServer → Type 0
  Refreshes m = Follows A key law s m × Gives {S = World A.State (Unit {0})} Like m

  publish_endpoint-Refreshes :
      s.status.phase ≡ phase_ready
      → (t : PowerDnsServer) (endpoint : String) → Like t
      → Refreshes (publish_endpoint A t endpoint)
  unfolding publish_endpoint
  publish_endpoint-Refreshes now t endpoint like =
      let like' = with_endpoint-Like t endpoint like in
      (
        if-Keeps (t.status.dns_endpoint == endpoint) (λ h. still-Keeps (λ w. ok t))
            (λ h.
              then-Keeps
                (status_write-Follows A key law s _ (step (with_endpoint A t endpoint) now like'))
                (still-Keeps (λ w. ok _))),
        if-Gives (t.status.dns_endpoint == endpoint) (return-Gives Like t like) (
            then-Gives (write (A.update_server_status (with_endpoint A t endpoint)))
              (return-Gives Like (with_endpoint A t endpoint) like')),
      )

  balancer_endpoint-Refreshes :
      s.status.phase ≡ phase_ready
      → (t : PowerDnsServer) (svc : Service) → Like t
      → Refreshes (balancer_endpoint A t svc)
  unfolding balancer_endpoint
  balancer_endpoint-Refreshes now t svc like =
      let address = ingress_address svc.ingress in
      let endpoint = if address == "" then "" else address <> ":53" in
      let (follows, gives) = publish_endpoint-Refreshes now t endpoint like in
      let cleared = endpoint == "" && not (t.status.dns_endpoint == "") in
      (
        if-Keeps cleared (λ h. then-Keeps (event-Keeps (status_at A key) _ _ _) follows)
            (λ h. follows),
        if-Gives cleared
            (then-Gives
              (event event_warning "LoadBalancerPending"
                "DNS LoadBalancer has no assigned address; clearing status.dnsEndpoint")
              gives)
            gives,
      )

  dns_service_found-Refreshes :
      s.status.phase ≡ phase_ready
      → (t : PowerDnsServer) (exposure : String) (r : Result Service) → Like t
      → Refreshes (dns_service_found A t exposure r)
  unfolding dns_service_found
  dns_service_found-Refreshes now t exposure (err e) like = (
    if-Keeps (is_kind api_not_found e.kind) (λ h. still-Keeps (λ w. ok t))
        (λ h. still-Keeps (λ w. err e)),
    if-Gives (is_kind api_not_found e.kind) (return-Gives Like t like) (fail-Gives e),
  )
  dns_service_found-Refreshes now t exposure (ok svc) like =
      let (follows, gives) = publish_endpoint-Refreshes now t (svc.spec.cluster_ip <> ":53") like in
      let (follows', gives') = balancer_endpoint-Refreshes now t svc like in
      (
        if-Keeps (exposure == dns_exposure_none) (λ h. follows) (λ h. follows'),
        if-Gives (exposure == dns_exposure_none) gives gives',
      )

  gateway_refreshed-Refreshes :
      s.status.phase ≡ phase_ready
      → (t : PowerDnsServer) (gw : Option DnsGatewaySpec) → Like t
      → Refreshes (gateway_refreshed A t gw)
  unfolding gateway_refreshed
  gateway_refreshed-Refreshes now t none like = publish_endpoint-Refreshes now t "" like
  gateway_refreshed-Refreshes now t (some gw) like = publish_endpoint-Refreshes now t _ like

  pub refresh_dns_endpoint-Refreshes :
      s.status.phase ≡ phase_ready
      → (t : PowerDnsServer) → Like t
      → Refreshes (refresh_dns_endpoint A t)
  unfolding refresh_dns_endpoint
  refresh_dns_endpoint-Refreshes now t like =
      let served =
        exposure_of t == dns_exposure_none || exposure_of t == dns_exposure_load_balancer in
      let gateway = exposure_of t == dns_exposure_gateway in
      let look = attempt (read (A.get Kind.service (dns_service_key A t))) in
      let (follows, gives) = gateway_refreshed-Refreshes now t t.spec.dns.gateway like in
      let (follows', gives') = publish_endpoint-Refreshes now t "" like in
      (
        if-Keeps served
            (λ h.
              bind-Keeps
                (attempt-Keeps
                  (still-Keeps (λ w. A.get Kind.service (dns_service_key A t) w.cluster)))
                (λ r. (dns_service_found-Refreshes now t (exposure_of t) r like).0))
            (λ h. if-Keeps gateway (λ q. follows) (λ q. follows')),
        if-Gives served
            (after-Gives look (λ r. (dns_service_found-Refreshes now t (exposure_of t) r like).1))
            (if-Gives gateway gives gives'),
      )
