-- ===== src/Tests/Tiers.antt =====
-- The DNSDist tier (internal/controller/dnsdist_controller.go, internal/manifests/dnsdist.go) at
-- concrete data.
use mathlib.Core.List.{Permᴰ}
use aether_powerdns.Prelude.{
  String, List, [], ◌∷◌, none, some, false, ok, err, api_not_found, ◌≡◌, ◌↔◌, refl, All, lookup,
  ◌==◌, if◌then◌else◌,
}
use aether_powerdns.Api.Meta.{ObjectRef}
use aether_powerdns.Api.Tiers.{DnsDist}
use aether_powerdns.Manifests.Naming.{name_set}
use aether_powerdns.Manifests.Tier.{dns_dist_config, backend_names}
use aether_powerdns.Manifests.Tier.Order.{with_backends, dns_dist_config-Permᴰ}
use aether_powerdns.Controller.Services.{put}
use aether_powerdns.Controller.Tiers.Backends.{View, ready, resolve, resolve_all, backends_ready}
use aether_powerdns.Controller.Tiers.Backends.Resolved.{IsBackend, backends_ready-IsBackend}
use aether_powerdns.Controller.Tiers.Validation.{validate_dns_dist}
use aether_powerdns.Controller.Tiers.Validation.Validity.{IsAcceptedTier, validate_dns_dist_iff}
use aether_powerdns.Tests.Sample.{sample_server, sample_meta}

abbrev pub backend : String → ObjectRef
backend name = record { name = name; namespace = "" }

abbrev pub front : DnsDist
front = record {
  meta = sample_meta "dns" "front" [];
  spec = record {
    replicas = some 2;
    image = "";
    resources = sample_server.spec.resources;
    scheduling = sample_server.spec.scheduling;
    backend_refs = backend "pdns" ∷ backend "alt" ∷ [];
    dns = sample_server.spec.dns;
    cache = record { enabled = none; max_entries = none };
    rate_limit = record { qps_per_client = 0 };
    tls = record {
      dot = record { enabled = false; certificate_secret_ref = record { name = "" } };
      doh = record { enabled = false; certificate_secret_ref = record { name = "" } };
    };
    pod_disruption_budget = none;
  };
  status = record {
    phase = "";
    dns_endpoint = "";
    desired_replicas = 0;
    ready_replicas = 0;
    observed_generation = 0;
    conditions = [];
    failure_message = "";
  };
}

abbrev view : View
view = record {
  server = λ n. ok (record sample_server { meta = sample_meta n.namespace n.name [] });
  cluster_ip = λ n.
      if n.name == "pdns-dns"
      then ok "10.0.0.7"
      else if n.name == "alt-dns"
      then ok "10.0.0.8"
      else err (record { kind = api_not_found; text = "not found" });
}

abbrev addresses : List (String × String)
addresses = ("pdns", "10.0.0.7") ∷ ("alt", "10.0.0.8") ∷ []

all_ready : backends_ready view front ≡ ready addresses
unfolding backends_ready resolve_all resolve name_set put
all_ready = refl

backends_ready-IsBackend_example :
    All
      (λ ref.
        (ip : String) × (lookup ref.name addresses ≡ some ip) × IsBackend view "dns" ref.name ip)
      (backend "pdns" ∷ backend "alt" ∷ [])
backends_ready-IsBackend_example = backends_ready-IsBackend view front addresses all_ready

dns_dist_config-Permᴰ_example :
    dns_dist_config (with_backends front (backend "pdns" ∷ backend "alt" ∷ [])) addresses
    ≡ dns_dist_config (with_backends front (backend "alt" ∷ backend "pdns" ∷ [])) addresses
unfolding backend_names
dns_dist_config-Permᴰ_example =
    dns_dist_config-Permᴰ front (backend "pdns" ∷ backend "alt" ∷ [])
      (backend "alt" ∷ backend "pdns" ∷ []) addresses addresses (Permᴰ.swap refl refl) (λ n. refl)

validate_dns_dist_iff_example : (validate_dns_dist front ≡ "") ↔ IsAcceptedTier front
validate_dns_dist_iff_example = validate_dns_dist_iff front

pub accepted : validate_dns_dist front ≡ ""
unfolding validate_dns_dist
accepted = refl
