-- ===== src/Manifests/Pods.antt =====
-- The Kubernetes objects around pods, as far as internal/manifests sets their fields: containers,
-- volumes, Deployments, Jobs and ConfigMaps.
use aether_powerdns.Prelude.{ℕ, String, Bool, List, Option}
use aether_powerdns.Api.Server.{ResourceRequirements, Toleration}

-- `corev1.EnvVar`: a text, or the entry `key` of a Secret.
pub data EnvVar : Type 0 where
  value : String → String → EnvVar
  from_secret : String → String → String → EnvVar

pub record ContainerPort : Type 0 where
  pub name : String
  pub container_port : ℕ
  pub protocol : String

pub record VolumeMount : Type 0 where
  pub name : String
  pub mount_path : String
  pub read_only : Bool

pub data ProbeHandler : Type 0 where
  exec : List String → ProbeHandler
  tcp_socket : ℕ → ProbeHandler

-- `corev1.Probe`; zero stands for the default of Kubernetes.
pub record Probe : Type 0 where
  pub handler : ProbeHandler
  pub initial_delay_seconds : ℕ
  pub period_seconds : ℕ
  pub timeout_seconds : ℕ
  pub failure_threshold : ℕ

pub record Container : Type 0 where
  pub name : String
  pub image : String
  pub command : List String
  pub args : List String
  pub ports : List ContainerPort
  pub env : List EnvVar
  pub resources : ResourceRequirements
  pub volume_mounts : List VolumeMount
  pub readiness_probe : Option Probe
  pub liveness_probe : Option Probe

pub data VolumeSource : Type 0 where
  config_map_source : String → VolumeSource
  secret_source : String → VolumeSource
  empty_dir : VolumeSource

pub record Volume : Type 0 where
  pub name : String
  pub source : VolumeSource

-- A weighted term of a preferred anti-affinity between pods.
pub record AffinityTerm : Type 0 where
  pub weight : ℕ
  pub match_labels : List (String × String)
  pub topology_key : String

pub record SpreadConstraint : Type 0 where
  pub max_skew : ℕ
  pub topology_key : String
  pub when_unsatisfiable : String
  pub match_labels : List (String × String)

pub record PodSpec : Type 0 where
  pub restart_policy : String
  pub init_containers : List Container
  pub containers : List Container
  pub volumes : List Volume
  pub anti_affinity : List AffinityTerm
  pub topology_spread_constraints : List SpreadConstraint
  pub node_selector : List (String × String)
  pub tolerations : List Toleration
  pub priority_class_name : String

pub record PodTemplate : Type 0 where
  pub labels : List (String × String)
  pub annotations : List (String × String)
  pub spec : PodSpec

pub record DeploymentSpec : Type 0 where
  pub replicas : Option ℕ
  pub selector : List (String × String)
  pub strategy : String
  pub template : PodTemplate

pub record DeploymentStatus : Type 0 where
  pub ready_replicas : ℕ
  pub available_replicas : ℕ

pub record Deployment : Type 0 where
  pub name : String
  pub namespace : String
  pub labels : List (String × String)
  pub spec : DeploymentSpec
  pub status : DeploymentStatus

-- `batchv1.JobCondition`.
pub record JobCondition : Type 0 where
  pub type : String
  pub status : String
  pub reason : String
  pub message : String

pub record JobStatus : Type 0 where
  pub succeeded : ℕ
  pub failed : ℕ
  pub conditions : List JobCondition

pub record Job : Type 0 where
  pub name : String
  pub namespace : String
  pub labels : List (String × String)
  pub backoff_limit : ℕ
  pub ttl_seconds_after_finished : ℕ
  pub template : PodTemplate
  pub status : JobStatus

-- `corev1.ConfigMap`.
pub record ConfigMap : Type 0 where
  pub name : String
  pub namespace : String
  pub labels : List (String × String)
  pub entries : List (String × String)
