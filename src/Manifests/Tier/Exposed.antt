-- ===== src/Manifests/Tier/Exposed.antt =====
-- The Services and routes of a DNSDist (internal/manifests/dnsdist.go).
use aether_powerdns.Prelude.{
  String, List, [], ◌∷◌, ◌++◌, ◌<>◌, ◌==◌, Option, none, some, not, map, if◌then◌else◌,
}
use aether_powerdns.Api.Server.{
  AdditionalLoadBalancerService, DnsLoadBalancerSpec, dns_exposure_load_balancer,
}
use aether_powerdns.Api.Tiers.{DnsDist}
use aether_powerdns.Controller.Services.{Service, ServicePort}
use aether_powerdns.Manifests.Routes.{Route, tcp, udp, build_route, dns_route_parents}
use aether_powerdns.Manifests.Services.{
  dns_port, service_port, balanced, apply_lb_primary, load_balancer,
}
use aether_powerdns.Manifests.Tier.{dns_dist_name_set, dns_dist_labels}
use aether_powerdns.Manifests.Tier.Workload.{dot_port, doh_port}

-- The ports of the primary Service, and `basePorts` of the additional ones.
abbrev pub dns_dist_ports : DnsDist → List ServicePort
dns_dist_ports d =
    service_port "dns-tcp" dns_port "TCP"
    ∷ service_port "dns-udp" dns_port "UDP"
    ∷ ((if d.spec.tls.dot.enabled then service_port "dot" dot_port "TCP" ∷ [] else [])
        ++ (if d.spec.tls.doh.enabled then service_port "doh" doh_port "TCP" ∷ [] else []))

-- A ClusterIP Service of the tier, whose labels and selector are one map.
abbrev pub tier_service : DnsDist → String → List (String × String) → Service
tier_service d name lbls = record {
  name = name;
  namespace = d.meta.namespace;
  labels = lbls;
  annotations = [];
  spec = record {
    ports = dns_dist_ports d;
    selector = lbls;
    type = "ClusterIP";
    load_balancer_ip = "";
    external_traffic_policy = "";
    cluster_ip = "";
    foreign = [];
  };
  ingress = [];
}

unfoldable pub dns_dist_dns_service : DnsDist → Service
unfolding dns_dist_name_set dns_dist_labels apply_lb_primary
dns_dist_dns_service d =
    let svc = tier_service d (dns_dist_name_set d).dns_service (dns_dist_labels d) in
    if d.spec.dns.exposure == dns_exposure_load_balancer
    then apply_lb_primary (load_balancer svc) d.spec.dns.load_balancer
    else svc

-- A Service as a function of the map that it refers to. Go's maps are references: the labels and the
-- selectors of all additional Services are the one map `lbls`, so what is put into the labels of
-- one of them is in the labels and the selector of each.
abbrev pub Shared : Type 0
Shared = List (String × String) → Service

unfoldable pub dns_dist_additional_dns_service : DnsDist → AdditionalLoadBalancerService → Shared
unfolding dns_dist_name_set balanced
dns_dist_additional_dns_service d extra lbls =
    balanced
      (load_balancer (tier_service d ((dns_dist_name_set d).dns_service <> extra.name_suffix) lbls))
      extra.ip extra.annotations extra.external_traffic_policy

-- The loop over the additional services; without any, it has nothing to do.
unfoldable pub additional_of : DnsDist → Option DnsLoadBalancerSpec → List Shared
unfolding dns_dist_additional_dns_service
additional_of d none = []
additional_of d (some lb) = map (dns_dist_additional_dns_service d) lb.additional_services

-- The Services over the map `lbls`, which has the labels of the tier.
unfoldable pub dns_dist_additional_dns_services : DnsDist → List Shared
unfolding additional_of
dns_dist_additional_dns_services d =
    if not (d.spec.dns.exposure == dns_exposure_load_balancer)
    then []
    else additional_of d d.spec.dns.load_balancer

unfoldable pub dns_dist_tcp_route : DnsDist → Route
unfolding dns_dist_name_set dns_dist_labels dns_route_parents
dns_dist_tcp_route d =
    build_route (dns_dist_name_set d).tcp_route d.meta.namespace (dns_dist_labels d)
      (dns_route_parents d.spec.dns d.meta.namespace tcp) (dns_dist_name_set d).dns_service dns_port

unfoldable pub dns_dist_udp_route : DnsDist → Route
unfolding dns_dist_name_set dns_dist_labels dns_route_parents
dns_dist_udp_route d =
    build_route (dns_dist_name_set d).udp_route d.meta.namespace (dns_dist_labels d)
      (dns_route_parents d.spec.dns d.meta.namespace udp) (dns_dist_name_set d).dns_service dns_port
