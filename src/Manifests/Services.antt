-- ===== src/Manifests/Services.antt =====
-- The Services of a server: `APIService`, `DNSService`, `AdditionalDNSServices` and their helpers of
-- internal/manifests/manifests.go.
pub mod Rendered
pub mod Apart
use aether_powerdns.Prelude.{
  ℕ, String, List, [], ◌∷◌, Option, none, some, ◌<>◌, ◌==◌, not, map, if◌then◌else◌,
}
use aether_powerdns.Api.Server.{
  PowerDnsServer, AdditionalLoadBalancerService, DnsLoadBalancerSpec, dns_exposure_none,
  dns_exposure_load_balancer,
}
use aether_powerdns.Controller.Services.{Service, ServicePort, ServiceSpec}
use aether_powerdns.Manifests.Settings.{api_port_of}
use aether_powerdns.Manifests.Naming.{name_set, labels}

abbrev pub dns_port : ℕ
dns_port = 53

-- A port that is named, without a node port.
abbrev pub service_port : String → ℕ → String → ServicePort
service_port name port protocol = record {
  name = name;
  protocol = protocol;
  port = port;
  target_port = port;
  node_port = 0;
}

-- A ClusterIP Service of the server with these ports.
abbrev cluster_ip : PowerDnsServer → String → List ServicePort → Service
cluster_ip s name ports = record {
  name = name;
  namespace = s.meta.namespace;
  labels = labels s;
  annotations = [];
  spec = record {
    ports = ports;
    selector = labels s;
    type = "ClusterIP";
    load_balancer_ip = "";
    external_traffic_policy = "";
    cluster_ip = "";
    foreign = [];
  };
  ingress = [];
}

unfoldable pub api_service : PowerDnsServer → Service
unfolding name_set
api_service s =
    cluster_ip s (name_set s).api_service (service_port "api" (api_port_of s) "TCP" ∷ [])

unfoldable pub base_dns_service : PowerDnsServer → String → Service
base_dns_service s name =
    cluster_ip s name
      (service_port "dns-tcp" dns_port "TCP" ∷ service_port "dns-udp" dns_port "UDP" ∷ [])

-- `if len(annotations) > 0`, the copy of the map.
unfoldable pub copied : List (String × String) → List (String × String) → List (String × String)
copied before [] = before
copied before (entry ∷ rest) = entry ∷ rest

-- What both kinds of load balancer set: the address, the annotations and the traffic policy.
unfoldable pub balanced : Service → String → List (String × String) → String → Service
unfolding copied
balanced svc ip annotations policy = record svc {
  annotations = copied svc.annotations annotations;
  spec = record svc.spec {
    load_balancer_ip = if not (ip == "") then ip else svc.spec.load_balancer_ip;
    external_traffic_policy = if not (policy == "") then policy else "Local";
  };
}

unfoldable pub apply_lb_primary : Service → Option DnsLoadBalancerSpec → Service
unfolding balanced
apply_lb_primary svc none = record svc {
  spec = record svc.spec { external_traffic_policy = "Local" };
}
apply_lb_primary svc (some lb) = balanced svc lb.ip lb.annotations lb.external_traffic_policy

abbrev pub load_balancer : Service → Service
load_balancer svc = record svc { spec = record svc.spec { type = "LoadBalancer" } }

unfoldable pub dns_service : PowerDnsServer → Service
unfolding name_set base_dns_service apply_lb_primary
dns_service s =
    let exposure = if s.spec.dns.exposure == "" then dns_exposure_none else s.spec.dns.exposure in
    let svc = base_dns_service s (name_set s).dns_service in
    if exposure == dns_exposure_load_balancer
    then apply_lb_primary (load_balancer svc) s.spec.dns.load_balancer
    else svc

unfoldable pub additional_dns_service : PowerDnsServer → AdditionalLoadBalancerService → Service
unfolding name_set base_dns_service balanced
additional_dns_service s extra =
    balanced (load_balancer (base_dns_service s ((name_set s).dns_service <> extra.name_suffix)))
      extra.ip extra.annotations extra.external_traffic_policy

-- The loop over the additional services; without any, it has nothing to do.
additional_of : PowerDnsServer → Option DnsLoadBalancerSpec → List Service
unfolding additional_dns_service
additional_of s none = []
additional_of s (some lb) = map (additional_dns_service s) lb.additional_services

unfoldable pub additional_dns_services : PowerDnsServer → List Service
unfolding additional_of
additional_dns_services s =
    if not (s.spec.dns.exposure == dns_exposure_load_balancer)
    then []
    else additional_of s s.spec.dns.load_balancer
