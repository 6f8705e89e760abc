-- ===== src/Tests/Services.antt =====
-- The convergence of Services (internal/controller/converge.go) at concrete data.
use aether_powerdns.Prelude.{String, [], ◌∷◌, Option, none, some, ok, err, api_not_found, ◌≡◌, refl}
use aether_powerdns.Controller.Services.{
  ServicePort, Service, service_ports_match, carry_node_port, put, merge_annotations,
  updated_service, ServiceApi, converge_service,
}
use aether_powerdns.Controller.Services.Ports.{AreApart}
use aether_powerdns.Controller.Services.Settled.{IsKept, updated_service-IsKept}

abbrev dns_port : String → String → ServicePort
dns_port name protocol = record {
  name = name;
  protocol = protocol;
  port = 53;
  target_port = 53;
  node_port = 0;
}

abbrev wanted : Service
wanted = record {
  name = "pdns-dns";
  namespace = "dns";
  labels = [];
  annotations = ("pool", "public") ∷ [];
  spec = record {
    ports = dns_port "dns-tcp" "TCP" ∷ dns_port "dns-udp" "UDP" ∷ [];
    selector = ("app.kubernetes.io/instance", "pdns") ∷ [];
    type = "LoadBalancer";
    load_balancer_ip = "";
    external_traffic_policy = "Local";
    cluster_ip = "";
    foreign = [];
  };
  ingress = [];
}

-- The live Service has an assigned node port and what other controllers wrote.
abbrev live : Service
live = record wanted {
  annotations = ("metallb", "set") ∷ ("pool", "private") ∷ [];
  spec = record wanted.spec {
    ports =
        (record (dns_port "dns-udp" "UDP") { node_port = 30053 }) ∷ dns_port "dns-tcp" "TCP" ∷ [];
    cluster_ip = "10.0.0.7";
    foreign = ("ipFamilyPolicy", "SingleStack") ∷ [];
  };
}

merged : updated_service wanted live ≡ (record live {
  annotations = ("metallb", "set") ∷ ("pool", "public") ∷ [];
  spec = record live.spec {
    ports =
        dns_port "dns-tcp" "TCP" ∷ (record (dns_port "dns-udp" "UDP") { node_port = 30053 }) ∷ [];
  };
})
unfolding updated_service carry_node_port service_ports_match merge_annotations put
merged = refl

abbrev pub services : ServiceApi
services = record {
  State = Option Service;
  get = λ key s. elim s [
    | none ↦ err (record { kind = api_not_found; text = "not found" })
    | some found ↦ ok found
  ];
  create = λ new s. (ok tt, some new);
  update = λ new s. (ok tt, some new);
}

-- A missing Service is created, and the next pass finds it as desired.
created : converge_service services wanted none ≡ (ok tt, some wanted)
unfolding converge_service
created = refl

apart : AreApart wanted.spec.ports
unfolding service_ports_match
apart = ((refl, tt), (tt, tt))

updated_service-IsKept_example : IsKept wanted live (updated_service wanted live)
updated_service-IsKept_example = updated_service-IsKept wanted live
