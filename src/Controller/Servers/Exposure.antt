-- ===== src/Controller/Servers/Exposure.antt =====
-- The routes of a server and the endpoint under which DNS is reached: `reconcileRoutes`,
-- `refreshDNSEndpoint` and the endpoints of `phaseExposingDNS`
-- (internal/controller/powerdnsserver_controller.go).
use aether_powerdns.Prelude.{
  String, List, [], ◌∷◌, Option, none, some, ◌<>◌, ◌==◌, ◌&&◌, ◌||◌, not, join, Result, ok, err,
  Error, api_not_found, no_match, is_kind, ◌>>=◌, ◌>>◌, attempt, return, fail, if◌then◌else◌,
}
use aether_powerdns.Api.Meta.{NamespacedName}
use aether_powerdns.Api.Server.{
  PowerDnsServer, GatewayParentRef, DnsGatewaySpec, dns_exposure_none, dns_exposure_load_balancer,
  dns_exposure_gateway,
}
use aether_powerdns.Manifests.Naming.{name_set}
use aether_powerdns.Manifests.Routes.{Route, HttpRoute, tcp_route, udp_route, http_route}
use aether_powerdns.Controller.Kube.{
  Kind, key_of, server, OperationResult, created, not_created, Kube,
}
use aether_powerdns.Controller.Kube.Children.{within, delete_object}
use aether_powerdns.Controller.Servers.Status.{Pass}
use aether_powerdns.Controller.Services.{Service, LoadBalancerIngress}
use aether_powerdns.Controller.World.{read, write, event, event_normal, event_warning}

-- The labels and the spec of a live route become the desired ones.
abbrev pub as_route : Route → Route → Route
as_route desired live = record live {
  labels = desired.labels;
  parent_refs = desired.parent_refs;
  backend_service = desired.backend_service;
  backend_port = desired.backend_port;
}

abbrev as_http_route : HttpRoute → HttpRoute → HttpRoute
as_http_route desired live = record live {
  labels = desired.labels;
  parent_refs = desired.parent_refs;
  hostnames = desired.hostnames;
  path_type = desired.path_type;
  path_value = desired.path_value;
  backend_service = desired.backend_service;
  backend_port = desired.backend_port;
}

-- `spec.dns.exposure`, `none` by default.
unfoldable pub exposure_of : PowerDnsServer → String
exposure_of s = if s.spec.dns.exposure == "" then dns_exposure_none else s.spec.dns.exposure

-- The loop over the ingress points: the first that has an address, or else a name.
unfoldable pub ingress_address : List LoadBalancerIngress → String
ingress_address [] = ""
ingress_address (ing ∷ rest) =
    if not (ing.ip == "")
    then ing.ip
    else if not (ing.hostname == "")
    then ing.hostname
    else ingress_address rest

-- The loop over the parents of the gateway.
unfoldable pub parent_names : String → List GatewayParentRef → List String
parent_names namespace [] = []
parent_names namespace (p ∷ rest) =
    let ns = if p.namespace == "" then namespace else p.namespace in
    (ns <> ("/" <> p.name)) ∷ parent_names namespace rest

abbrev pub gateway_endpoint : String → DnsGatewaySpec → String
gateway_endpoint namespace gw = "gateway:" <> join (parent_names namespace gw.parent_refs) ","

module _ (A : Kube) where
  -- The error of a CreateOrUpdate of a route whose kind the cluster does not know.
  abbrev pub missing_crd : String → Error → Error
  missing_crd text e = record e { text = text <> e.text }

  unfoldable pub tcp_ensured : Result OperationResult → Pass A (Unit {0})
  tcp_ensured (ok op) = return tt
  tcp_ensured (err e) =
      if is_kind no_match e.kind
      then event event_warning "GatewayCRDMissing"
          "dns.exposure=gateway needs the Gateway API experimental channel (TCPRoute/UDPRoute CRDs not installed)"
        >> fail (
            missing_crd
              "ensure tcproute: TCPRoute CRD not installed (Gateway API experimental channel): " e)
      else fail (missing_crd "ensure tcproute: " e)

  unfoldable pub udp_ensured : Result OperationResult → Pass A (Unit {0})
  udp_ensured (ok op) = return tt
  udp_ensured (err e) =
      if is_kind no_match e.kind
      then fail (
          missing_crd
            "ensure udproute: UDPRoute CRD not installed (Gateway API experimental channel): " e)
      else fail (missing_crd "ensure udproute: " e)

  unfoldable pub http_ensured : HttpRoute → Result OperationResult → Pass A (Unit {0})
  http_ensured desired (ok created) = event event_normal "APIExposed" (
      "HTTP API exposed via Gateway API HTTPRoute "
      <> (desired.name <> " — admin surface, ensure TLS at the listener"))
  http_ensured desired (ok not_created) = return tt
  http_ensured desired (err e) =
      if is_kind no_match e.kind
      then event event_warning "GatewayCRDMissing"
          "spec.api.gateway needs the Gateway API HTTPRoute CRD, which is not installed"
        >> fail (missing_crd "ensure httproute: HTTPRoute CRD not installed (Gateway API): " e)
      else fail (missing_crd "ensure httproute: " e)

  unfoldable pub converge_tcp_route : PowerDnsServer → Pass A (Unit {0})
  unfolding tcp_ensured
  converge_tcp_route s = do
    let desired = tcp_route s
    t ← attempt (
        write (
          A.create_or_update Kind.tcp_route (key_of Kind.tcp_route desired)
            (λ live. A.own Kind.tcp_route (server s) (as_route desired live))))
    tcp_ensured t

  unfoldable pub converge_udp_route : PowerDnsServer → Pass A (Unit {0})
  unfolding udp_ensured
  converge_udp_route s = do
    let desired = udp_route s
    u ← attempt (
        write (
          A.create_or_update Kind.udp_route (key_of Kind.udp_route desired)
            (λ live. A.own Kind.udp_route (server s) (as_route desired live))))
    udp_ensured u

  unfoldable pub dns_routes : PowerDnsServer → Pass A (Unit {0})
  unfolding converge_tcp_route converge_udp_route
  dns_routes s = do converge_tcp_route s; converge_udp_route s

  unfoldable pub no_dns_routes : PowerDnsServer → Pass A (Unit {0})
  unfolding name_set
  no_dns_routes s = do
    within "delete tcproute" (
        write (
          delete_object A Kind.tcp_route
            (record { namespace = s.meta.namespace; name = (name_set s).tcp_route })))
    within "delete udproute" (
        write (
          delete_object A Kind.udp_route
            (record { namespace = s.meta.namespace; name = (name_set s).udp_route })))

  unfoldable pub api_route : PowerDnsServer → Option HttpRoute → Pass A (Unit {0})
  unfolding http_ensured name_set
  api_route s (some desired) = do
    r ← attempt (
        write (
          A.create_or_update Kind.http_route (key_of Kind.http_route desired)
            (λ live. A.own Kind.http_route (server s) (as_http_route desired live))))
    http_ensured desired r
  api_route s none = within "delete httproute" (
      write (
        delete_object A Kind.http_route
          (record { namespace = s.meta.namespace; name = (name_set s).http_route })))

  unfoldable pub reconcile_routes : PowerDnsServer → Pass A (Unit {0})
  unfolding dns_routes no_dns_routes api_route
  reconcile_routes s = do
    if s.spec.dns.exposure == dns_exposure_gateway then dns_routes s else no_dns_routes s
    api_route s (http_route s)

  abbrev pub dns_service_key : PowerDnsServer → NamespacedName
  dns_service_key s = record { namespace = s.meta.namespace; name = (name_set s).dns_service }

  abbrev pub with_endpoint : PowerDnsServer → String → PowerDnsServer
  with_endpoint s endpoint = record s { status = record s.status { dns_endpoint = endpoint } }

  -- The end of `refreshDNSEndpoint`: the server with the endpoint, written where it changed.
  unfoldable pub publish_endpoint : PowerDnsServer → String → Pass A PowerDnsServer
  publish_endpoint s endpoint = if s.status.dns_endpoint == endpoint then return s else (do
    write (A.update_server_status (with_endpoint s endpoint))
    return (with_endpoint s endpoint))

  unfoldable pub balancer_endpoint : PowerDnsServer → Service → Pass A PowerDnsServer
  unfolding publish_endpoint
  balancer_endpoint s svc =
      let address = ingress_address svc.ingress in
      let endpoint = if address == "" then "" else address <> ":53" in
      if endpoint == "" && not (s.status.dns_endpoint == "")
      then event event_warning "LoadBalancerPending"
          "DNS LoadBalancer has no assigned address; clearing status.dnsEndpoint"
        >> publish_endpoint s endpoint
      else publish_endpoint s endpoint

  unfoldable pub dns_service_found :
      PowerDnsServer → String → Result Service → Pass A PowerDnsServer
  unfolding balancer_endpoint
  dns_service_found s exposure (err e) = if is_kind api_not_found e.kind then return s else fail e
  dns_service_found s exposure (ok svc) =
      if exposure == dns_exposure_none
      then publish_endpoint s (svc.spec.cluster_ip <> ":53")
      else balancer_endpoint s svc

  unfoldable pub gateway_refreshed : PowerDnsServer → Option DnsGatewaySpec → Pass A PowerDnsServer
  gateway_refreshed s none = publish_endpoint s ""
  gateway_refreshed s (some gw) = publish_endpoint s (gateway_endpoint s.meta.namespace gw)

  unfoldable pub refresh_dns_endpoint : PowerDnsServer → Pass A PowerDnsServer
  unfolding dns_service_found gateway_refreshed publish_endpoint
  refresh_dns_endpoint s =
      let exposure = exposure_of s in
      if exposure == dns_exposure_none || exposure == dns_exposure_load_balancer
      then (do
        svc ← attempt (read (A.get Kind.service (dns_service_key s)))
        dns_service_found s exposure svc)
      else if exposure == dns_exposure_gateway
      then gateway_refreshed s s.spec.dns.gateway
      else publish_endpoint s ""
