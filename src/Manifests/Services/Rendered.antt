-- ===== src/Manifests/Services/Rendered.antt =====
-- The Services that internal/manifests/manifests.go renders for a server.
use aether_powerdns.Prelude.{
  String, true, not, ◌≢◌, ne-of-eq_false, List, [], ◌∷◌, Option, none, some, ◌<>◌, ◌==◌, map, ◌≡◌,
  refl, All, Bool-cases, inl, inr, if◌then◌else◌,
}
use aether_powerdns.Api.Server.{
  PowerDnsServer, AdditionalLoadBalancerService, DnsLoadBalancerSpec, dns_exposure_none,
  dns_exposure_load_balancer,
}
use aether_powerdns.Controller.Services.{Service, service_ports_match}
use aether_powerdns.Controller.Services.Ports.{AreApart}
use aether_powerdns.Controller.Services.Settled.{has_node_ports}
use aether_powerdns.Manifests.Naming.{name_set, labels}
use aether_powerdns.Manifests.Services.{
  api_service, base_dns_service, balanced, apply_lb_primary, load_balancer, dns_service,
  additional_dns_service, additional_of, additional_dns_services,
}

-- A Service of the server with its pods behind it, ports that can be told apart, and a traffic
-- policy where there are node ports.
pub record IsServiceOf (s : PowerDnsServer) (svc : Service) : Type 0 where
  pub own_namespace : svc.namespace ≡ s.meta.namespace
  pub own_pods : svc.spec.selector ≡ labels s
  pub apart : AreApart svc.spec.ports
  pub policy : has_node_ports svc ≡ true → svc.spec.external_traffic_policy ≢ ""

-- All the Services of a server.
abbrev pub services_of : PowerDnsServer → List Service
services_of s = api_service s ∷ dns_service s ∷ additional_dns_services s

module _ (s : PowerDnsServer) where
  api_service-IsServiceOf : IsServiceOf s (api_service s)
  unfolding api_service
  api_service-IsServiceOf = record {
    own_namespace = refl;
    own_pods = refl;
    apart = (tt, tt);
    policy = λ typed. absurd cc;
  }

  given_policy : (policy : String) → (if not (policy == "") then policy else "Local") ≢ ""
  given_policy policy = elim (Bool-cases (policy == "")) [
    | inl absent ↦ rw absent (ne-of-eq_false "Local" "" refl)
    | inr given ↦ rw given (ne-of-eq_false policy "" given)
  ]

  additional_dns_service-IsServiceOf :
      (e : AdditionalLoadBalancerService) → IsServiceOf s (additional_dns_service s e)
  unfolding additional_dns_service base_dns_service balanced service_ports_match
  additional_dns_service-IsServiceOf e = record {
    own_namespace = refl;
    own_pods = refl;
    apart = ((refl, tt), (tt, tt));
    policy = λ typed. given_policy e.external_traffic_policy;
  }

  additional_each :
      (es : List AdditionalLoadBalancerService)
      → All (IsServiceOf s) (map (additional_dns_service s) es)
  additional_each [] = tt
  additional_each (e ∷ es) = (additional_dns_service-IsServiceOf e, additional_each es)

  applied-IsServiceOf :
      (svc : Service) (lb : Option DnsLoadBalancerSpec)
      → svc.namespace ≡ s.meta.namespace
      → svc.spec.selector ≡ labels s
      → AreApart svc.spec.ports
      → IsServiceOf s (apply_lb_primary svc lb)
  unfolding apply_lb_primary balanced
  applied-IsServiceOf svc none namespace pods apart = record {
    own_namespace = namespace;
    own_pods = pods;
    apart = apart;
    policy = λ typed. ne-of-eq_false "Local" "" refl;
  }
  applied-IsServiceOf svc (some lb) namespace pods apart = record {
    own_namespace = namespace;
    own_pods = pods;
    apart = apart;
    policy = λ typed. given_policy lb.external_traffic_policy;
  }

  applied_name :
      (svc : Service) (lb : Option DnsLoadBalancerSpec) → (apply_lb_primary svc lb).name ≡ svc.name
  unfolding apply_lb_primary balanced
  applied_name svc none = refl
  applied_name svc (some lb) = refl

  -- The primary DNS Service, whatever the exposure, is one of the server, with the fixed name.
  pub dns_service-IsServiceOf :
      IsServiceOf s (dns_service s) × ((dns_service s).name ≡ s.meta.name <> "-dns")
  unfolding dns_service base_dns_service name_set service_ports_match
  dns_service-IsServiceOf =
      let exposure = if s.spec.dns.exposure == "" then dns_exposure_none else s.spec.dns.exposure in
      let primary = load_balancer (base_dns_service s (name_set s).dns_service) in
      elim (Bool-cases (exposure == dns_exposure_load_balancer)) [
        | inl balances ↦ rw balances (
          applied-IsServiceOf primary s.spec.dns.load_balancer refl refl ((refl, tt), (tt, tt)),
          applied_name primary s.spec.dns.load_balancer,
        )
        | inr plain ↦ rw plain (
          record {
            own_namespace = refl;
            own_pods = refl;
            apart = ((refl, tt), (tt, tt));
            policy = λ typed. absurd cc;
          },
          refl,
        )
      ]

  additional_of_each : (lb : Option DnsLoadBalancerSpec) → All (IsServiceOf s) (additional_of s lb)
  unfolding additional_of
  additional_of_each none = tt
  additional_of_each (some lb) = additional_each lb.additional_services

  additional_services_each : All (IsServiceOf s) (additional_dns_services s)
  unfolding additional_dns_services
  additional_services_each = elim (Bool-cases (s.spec.dns.exposure == dns_exposure_load_balancer)) [
    | inl balances ↦ rw balances (additional_of_each s.spec.dns.load_balancer)
    | inr plain ↦ rw plain tt
  ]

  pub services_of-IsServiceOf : All (IsServiceOf s) (services_of s)
  services_of-IsServiceOf =
      (api_service-IsServiceOf, (dns_service-IsServiceOf.0, additional_services_each))
