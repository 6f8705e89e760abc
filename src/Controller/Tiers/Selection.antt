-- ===== src/Controller/Tiers/Selection.antt =====
-- Which pods the Services select that internal/controller/dnsdist_controller.go converges for a
-- tier, and those that internal/controller/powerdnsserver_controller.go converges for a server.
use aether_powerdns.Prelude.{
  String, Bool, true, false, List, [], ◌∷◌, Option, none, some, ◌==◌, ◌≡◌, refl, map, all, All,
  eq_refl, Bool-cases, inl, inr,
}
use aether_powerdns.Api.Server.{
  AdditionalLoadBalancerService, DnsLoadBalancerSpec, dns_exposure_load_balancer,
}
use aether_powerdns.Api.Tiers.{DnsDist}
use aether_powerdns.Manifests.Network.Admitted.{has_label}
use aether_powerdns.Manifests.Tier.{dns_dist_labels, dns_dist_name_set}
use aether_powerdns.Manifests.Tier.Exposed.{
  tier_service, dns_dist_dns_service, dns_dist_additional_dns_service,
  dns_dist_additional_dns_services, additional_of,
}
use aether_powerdns.Manifests.Services.{load_balancer, balanced, apply_lb_primary}
use aether_powerdns.Manifests.Tier.Workload.{dns_dist_deployment}
use aether_powerdns.Controller.Servers.Workload.{role_label}
use aether_powerdns.Controller.Services.{Service, put}
use aether_powerdns.Controller.Tiers.Children.{tagged_in_turn}

-- A Service sends to the pods that have each entry of its selector.
abbrev pub selects : Service → List (String × String) → Bool
selects svc pod = all (has_label pod) svc.spec.selector

-- The map that the additional Services share, once one of them has put its role into it.
abbrev tagged_labels : DnsDist → List (String × String)
tagged_labels d = put role_label "additional-dns" (dns_dist_labels d)

tagged_misses : (d : DnsDist) → all (has_label (dns_dist_labels d)) (tagged_labels d) ≡ false
unfolding put dns_dist_labels
tagged_misses d = rw (eq_refl d.meta.name) refl

own_labels_match : (d : DnsDist) → all (has_label (dns_dist_labels d)) (dns_dist_labels d) ≡ true
unfolding dns_dist_labels
own_labels_match d = rw (eq_refl d.meta.name) refl

tagged_again : (d : DnsDist) → put role_label "additional-dns" (tagged_labels d) ≡ tagged_labels d
unfolding put dns_dist_labels
tagged_again d = refl

abbrev SelectsNone : DnsDist → Service → Type 0
SelectsNone d svc = selects svc (dns_dist_labels d) ≡ false

in_turn_select_none :
    (d : DnsDist) (extras : List AdditionalLoadBalancerService) (lbls : List (String × String))
    → put role_label "additional-dns" lbls ≡ tagged_labels d
    → All (SelectsNone d) (tagged_in_turn lbls (map (dns_dist_additional_dns_service d) extras))
unfolding tagged_in_turn dns_dist_additional_dns_service balanced
in_turn_select_none d [] lbls same = tt
in_turn_select_none d (extra ∷ rest) lbls same =
    rw same (tagged_misses d, in_turn_select_none d rest (tagged_labels d) (tagged_again d))

additional_select_none :
    (d : DnsDist) (lb : Option DnsLoadBalancerSpec)
    → All (SelectsNone d) (tagged_in_turn (dns_dist_labels d) (additional_of d lb))
unfolding additional_of tagged_in_turn
additional_select_none d none = tt
additional_select_none d (some lb) =
    in_turn_select_none d lb.additional_services (dns_dist_labels d) refl

services_select_none :
    (d : DnsDist)
    → All (SelectsNone d) (tagged_in_turn (dns_dist_labels d) (dns_dist_additional_dns_services d))
unfolding dns_dist_additional_dns_services tagged_in_turn
services_select_none d = elim (Bool-cases (d.spec.dns.exposure == dns_exposure_load_balancer)) [
  | inl balanced ↦ rw balanced (additional_select_none d d.spec.dns.load_balancer)
  | inr other ↦ rw other tt
]

applied_selector :
    (svc : Service) (lb : Option DnsLoadBalancerSpec)
    → (apply_lb_primary svc lb).spec.selector ≡ svc.spec.selector
unfolding apply_lb_primary balanced
applied_selector svc none = refl
applied_selector svc (some lb) = refl

primary_selector : (d : DnsDist) → (dns_dist_dns_service d).spec.selector ≡ dns_dist_labels d
unfolding dns_dist_dns_service
primary_selector d = elim (Bool-cases (d.spec.dns.exposure == dns_exposure_load_balancer)) [
  | inl balanced ↦ rw balanced (
      applied_selector
        (load_balancer (tier_service d (dns_dist_name_set d).dns_service (dns_dist_labels d)))
        d.spec.dns.load_balancer)
  | inr other ↦ rw other refl
]

-- The primary Service of a tier selects the pods of its Deployment, and the additional ones that a
-- pass converges select none of them: each has in its selector the role that is put into its labels,
-- which no pod has.
pub tier_services_select :
    (d : DnsDist) (hash : String)
    → let pod = (dns_dist_deployment d hash).spec.template.labels in
      (selects (dns_dist_dns_service d) pod ≡ true)
      × All
          (λ svc. selects svc pod ≡ false)
          (tagged_in_turn (dns_dist_labels d) (dns_dist_additional_dns_services d))
unfolding dns_dist_deployment
tier_services_select d hash = (rw (primary_selector d) (own_labels_match d), services_select_none d)
