-- ===== src/Api/Zones.antt =====
-- api/v1alpha1/zone_types.go and api/v1alpha1/rrset_types.go.
use aether_powerdns.Prelude.{ℕ, String, Bool, List, Option}
use aether_powerdns.Api.Meta.{ObjectMeta, ObjectRef, Condition}

abbrev pub zone_kind_native : String
zone_kind_native = "Native"

abbrev pub zone_kind_secondary : String
zone_kind_secondary = "Secondary"

abbrev pub deletion_policy_orphan : String
deletion_policy_orphan = "Orphan"

abbrev pub zone_phase_pending : String
zone_phase_pending = "Pending"

abbrev pub zone_phase_ready : String
zone_phase_ready = "Ready"

abbrev pub zone_phase_failed : String
zone_phase_failed = "Failed"

abbrev pub condition_registered : String
condition_registered = "Registered"

abbrev pub condition_dnssec_ready : String
condition_dnssec_ready = "DNSSECReady"

pub record SoaSpec : Type 0 where
  pub hostmaster : String
  pub ttl : Option ℕ

pub record ZoneDnssecSpec : Type 0 where
  pub enabled : Bool

-- A slice that may be `nil` is an `Option`.
pub record ZoneSpec : Type 0 where
  pub server_ref : ObjectRef
  pub zone_name : String
  pub kind : String
  pub masters : Option (List String)
  pub nameservers : Option (List String)
  pub soa : Option SoaSpec
  pub dnssec : ZoneDnssecSpec
  pub deletion_policy : String

pub record ZoneStatus : Type 0 where
  pub phase : String
  pub serial : ℕ
  pub ds_records : List String
  pub observed_generation : ℕ
  pub conditions : List Condition
  pub failure_message : String

pub record Zone : Type 0 where
  pub meta : ObjectMeta
  pub spec : ZoneSpec
  pub status : ZoneStatus

pub record RrSetSpec : Type 0 where
  pub zone_ref : ObjectRef
  pub name : String
  pub type : String
  pub ttl : Option ℕ
  pub records : List String
  pub deletion_policy : String

pub record RrSetStatus : Type 0 where
  pub observed_generation : ℕ
  pub conditions : List Condition
  pub failure_message : String

pub record RrSet : Type 0 where
  pub meta : ObjectMeta
  pub spec : RrSetSpec
  pub status : RrSetStatus
