-- ===== src/Api/Server.antt =====
-- api/v1alpha1/types.go: the spec and the status of a PowerDNSServer.
use aether_powerdns.Prelude.{ℕ, String, Bool, List, Option}
use aether_powerdns.Api.Meta.{ObjectMeta, Condition}

abbrev pub phase_pending : String
phase_pending = "Pending"

abbrev pub phase_provisioning_backend : String
phase_provisioning_backend = "ProvisioningBackend"

abbrev pub phase_initializing_schema : String
phase_initializing_schema = "InitializingSchema"

abbrev pub phase_deploying_server : String
phase_deploying_server = "DeployingServer"

abbrev pub phase_exposing_dns : String
phase_exposing_dns = "ExposingDNS"

abbrev pub phase_ready : String
phase_ready = "Ready"

abbrev pub phase_failed : String
phase_failed = "Failed"

abbrev pub condition_ready : String
condition_ready = "Ready"

abbrev pub condition_backend_provisioned : String
condition_backend_provisioned = "BackendProvisioned"

abbrev pub condition_schema_applied : String
condition_schema_applied = "SchemaApplied"

abbrev pub condition_available : String
condition_available = "Available"

abbrev pub backend_postgres : String
backend_postgres = "postgres"

abbrev pub dns_exposure_none : String
dns_exposure_none = "none"

abbrev pub dns_exposure_load_balancer : String
dns_exposure_load_balancer = "loadBalancer"

abbrev pub dns_exposure_gateway : String
dns_exposure_gateway = "gateway"

abbrev pub default_image : String
default_image = "powerdns/pdns-auth-51"

-- `corev1.LocalObjectReference`.
pub record LocalObjectReference : Type 0 where
  pub name : String

-- `corev1.ResourceRequirements`, with quantities as texts.
pub record ResourceRequirements : Type 0 where
  pub requests : Option (List (String × String))
  pub limits : Option (List (String × String))

-- `corev1.Toleration`.
pub record Toleration : Type 0 where
  pub key : String
  pub operator : String
  pub value : String
  pub effect : String

pub record SchedulingSpec : Type 0 where
  pub node_selector : List (String × String)
  pub tolerations : List Toleration
  pub priority_class_name : String
  pub spread_across_zones : Bool

pub record PodMonitorSpec : Type 0 where
  pub enabled : Bool
  pub interval : String
  pub labels : List (String × String)

pub record ObservabilitySpec : Type 0 where
  pub pod_monitor : PodMonitorSpec

pub record NetworkPolicySpec : Type 0 where
  pub enabled : Bool
  pub additional_allowed_api_namespaces : List String

pub record ZoneManagementSpec : Type 0 where
  pub allowed_namespaces : List String

pub record ByoPostgres : Type 0 where
  pub host : String
  pub port : ℕ
  pub database : String
  pub credentials_secret_ref : LocalObjectReference
  pub ssl_mode : String

pub record PostgresBackendSpec : Type 0 where
  pub instances : Option ℕ
  pub storage_size : String
  pub storage_class : String
  pub byo : Option ByoPostgres

pub record BackendSpec : Type 0 where
  pub type : String
  pub postgres : Option PostgresBackendSpec

pub record AdditionalLoadBalancerService : Type 0 where
  pub name_suffix : String
  pub ip : String
  pub annotations : List (String × String)
  pub external_traffic_policy : String

pub record DnsLoadBalancerSpec : Type 0 where
  pub ip : String
  pub annotations : List (String × String)
  pub external_traffic_policy : String
  pub additional_services : List AdditionalLoadBalancerService

pub record GatewayParentRef : Type 0 where
  pub group : String
  pub kind : String
  pub name : String
  pub namespace : String
  pub tcp_section_name : String
  pub udp_section_name : String

pub record DnsGatewaySpec : Type 0 where
  pub parent_refs : List GatewayParentRef

pub record DnsSpec : Type 0 where
  pub exposure : String
  pub load_balancer : Option DnsLoadBalancerSpec
  pub gateway : Option DnsGatewaySpec

pub record ApiGatewayParentRef : Type 0 where
  pub group : String
  pub kind : String
  pub name : String
  pub namespace : String
  pub section_name : String

pub record ApiGatewaySpec : Type 0 where
  pub hostnames : List String
  pub parent_refs : List ApiGatewayParentRef

pub record ApiSpec : Type 0 where
  pub port : ℕ
  pub api_key_secret_ref : Option LocalObjectReference
  pub gateway : Option ApiGatewaySpec

-- `PDBSpec` of api/v1alpha1/dnsdist_types.go.
pub record PdbSpec : Type 0 where
  pub min_available : Option ℕ

pub record PowerDnsServerSpec : Type 0 where
  pub replicas : Option ℕ
  pub image : String
  pub resources : ResourceRequirements
  pub backend : BackendSpec
  pub dns : DnsSpec
  pub api : ApiSpec
  pub scheduling : SchedulingSpec
  pub observability : ObservabilitySpec
  pub network_policy : NetworkPolicySpec
  pub zone_management : ZoneManagementSpec
  pub pod_disruption_budget : Option PdbSpec
  pub extra_settings : List (String × String)

pub record PowerDnsServerStatus : Type 0 where
  pub phase : String
  pub ready : Bool
  pub dns_endpoint : String
  pub api_endpoint : String
  pub api_key_secret_name : String
  pub backend_secret_name : String
  pub schema_applied : Bool
  pub desired_replicas : ℕ
  pub ready_replicas : ℕ
  pub config_hash : String
  pub conditions : List Condition
  pub failure_message : String

pub record PowerDnsServer : Type 0 where
  pub meta : ObjectMeta
  pub spec : PowerDnsServerSpec
  pub status : PowerDnsServerStatus
