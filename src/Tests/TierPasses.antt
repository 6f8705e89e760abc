-- ===== src/Tests/TierPasses.antt =====
-- Passes over a DNSDist (internal/controller/dnsdist_controller.go) at concrete data.
use aether_powerdns.Prelude.{
  String, true, false, [], ◌∷◌, Option, none, some, ◌≡◌, ◌⊎◌, refl, inl, inr, All,
}
use aether_powerdns.Api.Meta.{NamespacedName}
use aether_powerdns.Api.Server.{AdditionalLoadBalancerService, dns_exposure_load_balancer}
use aether_powerdns.Api.Tiers.{DnsDist}
use aether_powerdns.Controller.Kube.Apart.{IsApart}
use aether_powerdns.Controller.Services.{Service}
use aether_powerdns.Controller.Tiers.Children.{tagged_in_turn}
use aether_powerdns.Controller.Tiers.Outcome.{
  tier_status_at, IsTierStore, IsJudged, reconcile-IsJudged,
}
use aether_powerdns.Controller.Tiers.Reconcile.{view_of, reconcile}
use aether_powerdns.Controller.Tiers.Selection.{selects, tier_services_select}
use aether_powerdns.Manifests.Tier.{dns_dist_labels}
use aether_powerdns.Manifests.Tier.Exposed.{dns_dist_dns_service, dns_dist_additional_dns_services}
use aether_powerdns.Manifests.Tier.Workload.{dns_dist_deployment}
use aether_powerdns.Controller.World.{World}
use aether_powerdns.Tests.Cluster.{Held, kube, update_tier_status, create-AreSame, upsert-AreSame}
use aether_powerdns.Tests.Sample.{sample_server}
use aether_powerdns.Tests.Tiers.{front, backend}

abbrev key : NamespacedName
key = record { namespace = "dns"; name = "front" }

kube-IsApart : IsApart kube (tier_status_at kube key)
kube-IsApart = record {
  create = λ k o. record { same = λ c. rw ((create-AreSame k o c).tier) refl };
  update = λ k o. record { same = λ c. refl };
  delete = λ k key. record { same = λ c. refl };
  create_or_update = λ k key f. record { same = λ c. rw ((upsert-AreSame k key f c).tier) refl };
  retry = λ m h. h;
  rand_read = λ n. record { same = λ c. refl };
}

tier_status_written :
    (d : DnsDist) (held : Option DnsDist) (c : Held)
    → let c : Held = record c { tier = held } in
      (tier_status_at kube key (update_tier_status d c).1 ≡ tier_status_at kube key c)
      ⊎ (tier_status_at kube key (update_tier_status d c).1 ≡ some d.status)
tier_status_written d none c = inl refl
tier_status_written d (some held) c = inr refl

kube-IsTierStore : IsTierStore kube key
kube-IsTierStore = record {
  apart = kube-IsApart;
  status_write = λ d c. tier_status_written d c.tier c;
}

abbrev extra : String → AdditionalLoadBalancerService
extra suffix = record {
  name_suffix = suffix;
  ip = "192.0.2.53";
  annotations = [];
  external_traffic_policy = "";
}

-- Over one server, with two additional load balancers.
abbrev balanced_tier : DnsDist
balanced_tier = record front {
  spec = record front.spec {
    backend_refs = backend "pdns" ∷ [];
    dns = record {
      exposure = dns_exposure_load_balancer;
      load_balancer = some (record {
        ip = "";
        annotations = [];
        external_traffic_policy = "";
        additional_services = extra "-b" ∷ extra "-c" ∷ [];
      });
      gateway = none;
    };
  };
}

abbrev pdns_dns : Service
pdns_dns = record {
  name = "pdns-dns";
  namespace = "dns";
  labels = [];
  annotations = [];
  spec = record {
    ports = [];
    selector = [];
    type = "ClusterIP";
    load_balancer_ip = "";
    external_traffic_policy = "";
    cluster_ip = "10.0.0.7";
    foreign = [];
  };
  ingress = [];
}

abbrev before : World Held (Unit {0})
before = record {
  cluster = record {
    server = some sample_server;
    spare = none;
    tier = some balanced_tier;
    secrets = [];
    services = pdns_dns ∷ [];
    deployment = none;
  };
  pdns = tt;
  recording = true;
  events = [];
}

reconcile-IsJudged_example :
    IsJudged
      (view_of kube before.cluster)
      balanced_tier
      (tier_status_at kube key (reconcile kube key before).1.cluster)
reconcile-IsJudged_example = reconcile-IsJudged kube key kube-IsTierStore balanced_tier before refl

tier_services_select_example :
    let pod = (dns_dist_deployment balanced_tier "5d41").spec.template.labels in
    (selects (dns_dist_dns_service balanced_tier) pod ≡ true)
    × All
        (λ svc. selects svc pod ≡ false)
        (tagged_in_turn
          (dns_dist_labels balanced_tier)
          (dns_dist_additional_dns_services balanced_tier))
tier_services_select_example = tier_services_select balanced_tier "5d41"

abbrev reached : Option String
reached = elim (tier_status_at kube key (reconcile kube key before).1.cluster) [
  | none ↦ none
  | some t ↦ some t.phase
]
