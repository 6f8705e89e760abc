-- ===== src/Tests/Rendered.antt =====
-- The Services and the network policy that internal/manifests renders, at concrete data.
use mathlib.Core.List.{Memᴰ}
use aether_powerdns.Prelude.{
  ◌+◌, lookup, arith, inr, String, [], ◌∷◌, some, ok, true, false, ◌⊎◌, ◌↔◌, ◌≡◌, refl, map,
}
use aether_powerdns.Api.Server.{PowerDnsServer}
use aether_powerdns.Controller.Services.{
  Service, ServicePort, updated_service, converge_service, carry_node_port, service_ports_match,
  merge_annotations, put,
}
use aether_powerdns.Controller.Services.Settled.{IsCompletion}
use aether_powerdns.Controller.Servers.Validation.{validate_spec}
use aether_powerdns.Manifests.Naming.{name_set}
use aether_powerdns.Manifests.Settings.{api_port_of, validate_extra_settings}
use aether_powerdns.Manifests.Services.{
  api_service, base_dns_service, dns_service, additional_dns_service, additional_dns_services,
}
use aether_powerdns.Manifests.Services.Rendered.{services_of}
use aether_powerdns.Manifests.Services.Apart.{
  AreNamedApart, services_of-AreNamedApart, services_of_settled,
}
use aether_powerdns.Manifests.Network.{namespace_label, peers_of, network_policy}
use aether_powerdns.Manifests.Network.Admitted.{Traffic, admits, IsFromOneOf, network_policy_iff}
use aether_powerdns.Tests.Sample.{sample_server}
use aether_powerdns.Tests.Services.{services}

-- A server behind three load balancers.
abbrev balanced_server : PowerDnsServer
balanced_server = record sample_server {
  spec = record sample_server.spec {
    dns = record sample_server.spec.dns {
      exposure = "loadBalancer";
      load_balancer = some (record {
        ip = "192.0.2.53";
        annotations = ("pool", "public") ∷ [];
        external_traffic_policy = "Cluster";
        additional_services =
            (record {
              name_suffix = "-v6";
              ip = "2001:db8::53";
              annotations = [];
              external_traffic_policy = "";
            })
            ∷ (record {
              name_suffix = "-lan";
              ip = "";
              annotations = ("pool", "lan") ∷ [];
              external_traffic_policy = "Cluster";
            })
            ∷ [];
      });
    };
  };
}

rendered_names :
    map (λ svc. svc.name) (services_of balanced_server)
    ≡ ("pdns-api" ∷ "pdns-dns" ∷ "pdns-dns-v6" ∷ "pdns-dns-lan" ∷ [])
unfolding api_service dns_service additional_dns_service additional_dns_services base_dns_service
    name_set
rendered_names = refl

rendered_policies :
    map (λ svc. svc.spec.external_traffic_policy) (services_of balanced_server)
    ≡ ("" ∷ "Cluster" ∷ "Local" ∷ "Cluster" ∷ [])
unfolding api_service dns_service additional_dns_service additional_dns_services base_dns_service
    name_set
rendered_policies = refl

valid : validate_spec balanced_server ≡ ""
unfolding validate_spec validate_extra_settings
valid = refl

services_of-AreNamedApart_example : AreNamedApart (services_of balanced_server)
services_of-AreNamedApart_example = services_of-AreNamedApart balanced_server valid

-- The live Service lacks its ports' node ports and the annotation; once it is updated, the cluster
-- assigns them, fills a field, and another controller adds an annotation.
abbrev primary : Service
primary = dns_service balanced_server

abbrev bare : Service
bare = record primary { annotations = [] }

abbrev completed : Service
completed = record primary {
  annotations = ("pool", "public") ∷ ("metallb", "set") ∷ [];
  spec = record primary.spec {
    ports = map {A = ServicePort} (λ p. record p { node_port = 30000 + p.port }) primary.spec.ports;
    cluster_ip = "10.0.0.7";
    foreign = ("ipFamilyPolicy", "SingleStack") ∷ [];
  };
}

completed_annotation :
    (k v : String)
    → lookup k (("pool", "public") ∷ []) ≡ some v
    → lookup k (("pool", "public") ∷ ("metallb", "set") ∷ []) ≡ some v
completed_annotation k v h = ground arith

completed-IsCompletion : IsCompletion (updated_service primary bare) completed
unfolding dns_service base_dns_service updated_service carry_node_port service_ports_match
    merge_annotations put
completed-IsCompletion = record {
  ports = ((refl, inr (refl, refl)), ((refl, inr (refl, refl)), tt));
  selector = refl;
  type = refl;
  load_balancer_ip = refl;
  policy = refl;
  annotation = completed_annotation;
}

services_of_settled_example :
    converge_service services primary (some completed) ≡ (ok tt, some completed)
services_of_settled_example =
    services_of_settled services balanced_server primary bare completed (some completed)
      (Memᴰ.tail (Memᴰ.head refl)) completed-IsCompletion refl

-- A connection by TCP to the API from the namespace of this name.
abbrev to_api : String → Traffic
to_api ns = record {
  namespace_labels = some ((namespace_label, ns) ∷ []);
  protocol = "TCP";
  port = 8081;
}

own_admitted : admits (network_policy sample_server) (to_api "dns") ≡ true
unfolding network_policy api_port_of peers_of
own_admitted = refl

foreign_refused : admits (network_policy sample_server) (to_api "apps") ≡ false
unfolding network_policy api_port_of peers_of
foreign_refused = refl

abbrev from_apps : Traffic
from_apps = to_api "apps"

network_policy_iff_example : (admits (network_policy sample_server) from_apps ≡ true) ↔ (
    (((from_apps.protocol ≡ "TCP") ⊎ (from_apps.protocol ≡ "UDP")) × (from_apps.port ≡ 53))
    ⊎ ((from_apps.protocol ≡ "TCP")
        × (from_apps.port ≡ api_port_of sample_server)
        × IsFromOneOf from_apps ("dns" ∷ [])))
network_policy_iff_example = network_policy_iff sample_server from_apps
