-- ===== src/Api/Tiers.antt =====
-- api/v1alpha1/dnsdist_types.go: the spec and the status of a DNSDist.
use aether_powerdns.Prelude.{ℕ, String, Bool, List, Option}
use aether_powerdns.Api.Meta.{ObjectMeta, ObjectRef, Condition}
use aether_powerdns.Api.Server.{
  LocalObjectReference, ResourceRequirements, SchedulingSpec, DnsSpec, PdbSpec,
}

abbrev pub condition_backends_ready : String
condition_backends_ready = "BackendsReady"

abbrev pub default_dns_dist_image : String
default_dns_dist_image = "powerdns/dnsdist-19"

pub record DnsDistCacheSpec : Type 0 where
  pub enabled : Option Bool
  pub max_entries : Option ℕ

pub record DnsDistRateLimitSpec : Type 0 where
  pub qps_per_client : ℕ

pub record DnsDistTlsListener : Type 0 where
  pub enabled : Bool
  pub certificate_secret_ref : LocalObjectReference

pub record DnsDistTlsSpec : Type 0 where
  pub dot : DnsDistTlsListener
  pub doh : DnsDistTlsListener

pub record DnsDistSpec : Type 0 where
  pub replicas : Option ℕ
  pub image : String
  pub resources : ResourceRequirements
  pub scheduling : SchedulingSpec
  pub backend_refs : List ObjectRef
  pub dns : DnsSpec
  pub cache : DnsDistCacheSpec
  pub rate_limit : DnsDistRateLimitSpec
  pub tls : DnsDistTlsSpec
  pub pod_disruption_budget : Option PdbSpec

pub record DnsDistStatus : Type 0 where
  pub phase : String
  pub dns_endpoint : String
  pub desired_replicas : ℕ
  pub ready_replicas : ℕ
  pub observed_generation : ℕ
  pub conditions : List Condition
  pub failure_message : String

pub record DnsDist : Type 0 where
  pub meta : ObjectMeta
  pub spec : DnsDistSpec
  pub status : DnsDistStatus
