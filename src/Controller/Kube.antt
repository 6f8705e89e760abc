-- ===== src/Controller/Kube.antt =====
-- What internal/controller/powerdnsserver_controller.go and dnsdist_controller.go call of
-- controller-runtime, client-go and apimachinery to change the objects of the cluster: one client
-- for all kinds of objects, which is a parameter of the model.
pub mod Children
pub mod Apart
pub mod Answers
pub mod Stored
use aether_powerdns.Prelude.{ℕ, String, Bool, List, Option, Result, Action}
use aether_powerdns.Api.Meta.{Condition, NamespacedName}
use aether_powerdns.Api.Server.{PowerDnsServer}
use aether_powerdns.Api.Tiers.{DnsDist}
use aether_powerdns.Manifests.Budget.{PodDisruptionBudget}
use aether_powerdns.Manifests.Network.{NetworkPolicy}
use aether_powerdns.Manifests.Pods.{ConfigMap, Deployment, Job}
use aether_powerdns.Manifests.Routes.{Route, HttpRoute}
use aether_powerdns.Manifests.Unstructured.{Unstructured}
use aether_powerdns.Controller.Services.{Service}

-- `corev1.Secret`, with the bytes of an entry as a text.
pub record OwnedSecret : Type 0 where
  pub name : String
  pub namespace : String
  pub labels : List (String × String)
  pub entries : List (String × String)

-- The kinds of objects that the two reconcilers own or read.
pub data Kind : Type 0 where
  config_map secret service deployment job budget network_policy pod_monitor : Kind
  cluster tcp_route udp_route http_route : Kind

abbrev pub Object : Kind → Type 0
Object config_map = ConfigMap
Object secret = OwnedSecret
Object service = Service
Object deployment = Deployment
Object job = Job
Object budget = PodDisruptionBudget
Object network_policy = NetworkPolicy
Object pod_monitor = Unstructured
Object cluster = Unstructured
Object tcp_route = Route
Object udp_route = Route
Object http_route = HttpRoute

abbrev named : String → String → NamespacedName
named namespace name = record { namespace = namespace; name = name }

-- `GetNamespace` and `GetName`.
abbrev pub key_of : (k : Kind) → Object k → NamespacedName
key_of config_map o = named o.namespace o.name
key_of secret o = named o.namespace o.name
key_of service o = named o.namespace o.name
key_of deployment o = named o.namespace o.name
key_of job o = named o.namespace o.name
key_of budget o = named o.namespace o.name
key_of network_policy o = named o.namespace o.name
key_of pod_monitor o = named o.namespace o.name
key_of cluster o = named o.namespace o.name
key_of tcp_route o = named o.namespace o.name
key_of udp_route o = named o.namespace o.name
key_of http_route o = named o.namespace o.name

pub data Owner : Type 0 where
  server : PowerDnsServer → Owner
  tier : DnsDist → Owner

-- `controllerutil.OperationResult`, as far as it is looked at.
pub data OperationResult : Type 0 where
  created not_created : OperationResult

pub record Kube : Type 1 where
  pub State : Type 0
  pub get : (k : Kind) → NamespacedName → State → Result (Object k)
  pub create : (k : Kind) → Object k → Action State (Unit {0})
  pub update : (k : Kind) → Object k → Action State (Unit {0})
  pub delete : (k : Kind) → NamespacedName → Action State (Unit {0})
  pub list_services : String → List (String × String) → State → Result (List Service)
  -- `controllerutil.CreateOrUpdate`, with the function that changes the object.
  pub create_or_update :
      (k : Kind) → NamespacedName → (Object k → Result (Object k)) → Action State OperationResult
  -- `controllerutil.SetControllerReference`.
  pub own : (k : Kind) → Owner → Object k → Result (Object k)
  -- `retry.RetryOnConflict`.
  pub retry : Action State (Unit {0}) → Action State (Unit {0})
  pub get_server : NamespacedName → State → Result PowerDnsServer
  pub update_server : PowerDnsServer → Action State (Unit {0})
  pub update_server_status : PowerDnsServer → Action State (Unit {0})
  pub get_tier : NamespacedName → State → Result DnsDist
  pub update_tier_status : DnsDist → Action State (Unit {0})
  pub contains_finalizer : List String → String → Bool
  pub add_finalizer : List String → String → List String
  pub remove_finalizer : List String → String → List String
  pub set_status_condition : List Condition → Condition → List Condition
  -- `unstructured.NestedInt64`: a number, nothing, or an entry of another type.
  pub nested_int64 : Unstructured → List String → Result (Option ℕ)
  -- `rand.Read` of so many bytes.
  pub rand_read : ℕ → Action State (List ℕ)
  -- The hexadecimal SHA-256 digest.
  pub digest : String → String
