-- ===== src/Manifests/Routes.antt =====
-- internal/manifests/routes.go: the Gateway API routes of a server.
use aether_powerdns.Prelude.{
  ℕ, String, List, [], ◌∷◌, Option, none, some, ◌==◌, ◌&&◌, not, if◌then◌else◌,
}
use aether_powerdns.Api.Server.{
  PowerDnsServer, GatewayParentRef, DnsGatewaySpec, DnsSpec, ApiGatewayParentRef, ApiGatewaySpec,
}
use aether_powerdns.Manifests.Naming.{name_set, labels}
use aether_powerdns.Manifests.Services.{dns_port}
use aether_powerdns.Manifests.Settings.{api_port_of}

-- `gatewayv1.ParentReference`, without the port.
pub record ParentReference : Type 0 where
  pub group : Option String
  pub kind : Option String
  pub namespace : Option String
  pub name : String
  pub section_name : Option String

pub data GatewayProto : Type 0 where
  tcp udp : GatewayProto

abbrev given : String → Option String
given text = if not (text == "") then some text else none

-- The body of the loops: `sn` is the listener.
unfoldable pub parent_reference :
    String → String → String → String → String → String → ParentReference
parent_reference local_ns group kind name namespace sn = record {
  group = given group;
  kind = given kind;
  namespace = if not (namespace == "") && not (namespace == local_ns) then some namespace else none;
  name = name;
  section_name = given sn;
}

section_of : GatewayProto → GatewayParentRef → String
section_of tcp p = p.tcp_section_name
section_of udp p = p.udp_section_name

parents_of : String → GatewayProto → List GatewayParentRef → List ParentReference
unfolding section_of parent_reference
parents_of local_ns proto [] = []
parents_of local_ns proto (p ∷ rest) =
    parent_reference local_ns p.group p.kind p.name p.namespace (section_of proto p)
    ∷ parents_of local_ns proto rest

gateway_parents : String → GatewayProto → Option DnsGatewaySpec → List ParentReference
unfolding parents_of
gateway_parents local_ns proto none = []
gateway_parents local_ns proto (some gw) = parents_of local_ns proto gw.parent_refs

unfoldable pub dns_route_parents : DnsSpec → String → GatewayProto → List ParentReference
unfolding gateway_parents
dns_route_parents dns local_ns proto = gateway_parents local_ns proto dns.gateway

-- A TCPRoute or a UDPRoute, whose types have the same fields, with one rule and one backend.
pub record Route : Type 0 where
  pub name : String
  pub namespace : String
  pub labels : List (String × String)
  pub parent_refs : List ParentReference
  pub backend_service : String
  pub backend_port : ℕ

-- `buildTCPRoute` and `buildUDPRoute`.
abbrev pub build_route :
    String → String → List (String × String) → List ParentReference → String → ℕ → Route
build_route name namespace lbls parents backend_service port = record {
  name = name;
  namespace = namespace;
  labels = lbls;
  parent_refs = parents;
  backend_service = backend_service;
  backend_port = port;
}

unfoldable pub tcp_route : PowerDnsServer → Route
unfolding name_set dns_route_parents
tcp_route s =
    build_route (name_set s).tcp_route s.meta.namespace (labels s)
      (dns_route_parents s.spec.dns s.meta.namespace tcp) (name_set s).dns_service dns_port

unfoldable pub udp_route : PowerDnsServer → Route
unfolding name_set dns_route_parents
udp_route s =
    build_route (name_set s).udp_route s.meta.namespace (labels s)
      (dns_route_parents s.spec.dns s.meta.namespace udp) (name_set s).dns_service dns_port

-- An HTTPRoute with one rule: a path match and one backend.
pub record HttpRoute : Type 0 where
  pub name : String
  pub namespace : String
  pub labels : List (String × String)
  pub parent_refs : List ParentReference
  pub hostnames : List String
  pub path_type : String
  pub path_value : String
  pub backend_service : String
  pub backend_port : ℕ

api_parents : String → List ApiGatewayParentRef → List ParentReference
unfolding parent_reference
api_parents local_ns [] = []
api_parents local_ns (p ∷ rest) =
    parent_reference local_ns p.group p.kind p.name p.namespace p.section_name
    ∷ api_parents local_ns rest

http_route_of : PowerDnsServer → Option ApiGatewaySpec → Option HttpRoute
unfolding name_set api_parents api_port_of
http_route_of s none = none
http_route_of s (some gw) = some (record {
  name = (name_set s).http_route;
  namespace = s.meta.namespace;
  labels = labels s;
  parent_refs = api_parents s.meta.namespace gw.parent_refs;
  hostnames = gw.hostnames;
  path_type = "PathPrefix";
  path_value = "/";
  backend_service = (name_set s).api_service;
  backend_port = api_port_of s;
})

unfoldable pub http_route : PowerDnsServer → Option HttpRoute
unfolding http_route_of
http_route s = http_route_of s s.spec.api.gateway
