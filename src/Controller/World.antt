-- ===== src/Controller/World.antt =====
-- The world of a reconciler (internal/controller): the Kubernetes API through the client of
-- controller-runtime, which is the model's parameter, the PowerDNS server behind its HTTP
-- transport, and the recorder of events. internal/controller/conditions.go is here too.
pub mod Quiet
pub mod Gated
use aether_powerdns.Prelude.{
  ℕ, String, Bool, true, false, List, [], ◌∷◌, ◌++◌, Result, ok, Action, ◌≡◌, Option, some, ◌==◌,
  if◌then◌else◌, find?,
}
use aether_powerdns.Api.Meta.{Condition, ConditionStatus, NamespacedName}
use aether_powerdns.Api.Server.{PowerDnsServer}
use aether_powerdns.Api.Zones.{Zone, RrSet}

-- `corev1.Secret`, with the bytes of an entry as a text.
pub record Secret : Type 0 where
  pub data_ : List (String × String)

-- The client of controller-runtime over the cluster's state: reads of its cache, writes, the
-- finalizers of controllerutil and the conditions of apimachinery's meta package.
pub record Cluster : Type 1 where
  pub State : Type 0
  pub get_server : NamespacedName → State → Result PowerDnsServer
  pub get_zone : NamespacedName → State → Result Zone
  pub get_rrset : NamespacedName → State → Result RrSet
  pub get_secret : NamespacedName → State → Result Secret
  pub list_zones : String → State → Result (List Zone)
  pub list_rrsets : String → State → Result (List RrSet)
  pub update_zone : Zone → State → Result (Unit {0}) × State
  pub update_zone_status : Zone → State → Result (Unit {0}) × State
  pub update_rrset : RrSet → State → Result (Unit {0}) × State
  pub update_rrset_status : RrSet → State → Result (Unit {0}) × State
  pub contains_finalizer : List String → String → Bool
  pub add_finalizer : List String → String → List String
  pub remove_finalizer : List String → String → List String
  pub set_status_condition : List Condition → Condition → List Condition

abbrev pub find_condition : String → List Condition → Option Condition
find_condition type = find? (λ c. c.type == type)

-- What controller-runtime documents of `RemoveFinalizer`.
pub record RemovesFinalizers (K : Cluster) : Type 0 where
  pub contains-remove_finalizer :
      (fs : List String) (f : String) → K.contains_finalizer (K.remove_finalizer fs f) f ≡ false

pub data EventType : Type 0 where
  event_normal event_warning : EventType

pub record Event : Type 0 where
  pub type : EventType
  pub reason : String
  pub message : String

pub record World (S P : Type 0) : Type 0 where
  pub cluster : S
  pub pdns : P
  -- `Recorder != nil`.
  pub recording : Bool
  pub events : List Event

module _ {S P : Type 0} where
  abbrev pub read : {A : Type 0} → (S → Result A) → Action (World S P) A
  read f w = (f w.cluster, w)

  abbrev pub write : {A : Type 0} → (S → Result A × S) → Action (World S P) A
  write f w = let (r, s) = f w.cluster in (r, record w { cluster = s })

  -- A call of the PowerDNS API.
  abbrev pub on_pdns : {A : Type 0} → Action P A → Action (World S P) A
  on_pdns m w = let (r, p) = m w.pdns in (r, record w { pdns = p })

  -- `event` of the reconcilers.
  abbrev pub event : EventType → String → String → Action (World S P) (Unit {0})
  event type reason message w =
      if w.recording
      then (
        ok tt,
        record w {
          events = w.events ++ (record { type = type; reason = reason; message = message }) ∷ [];
        },
      )
      else (ok tt, w)

module _ (K : Cluster) where
  -- `setCondOn`.
  abbrev pub set_cond_on :
      List Condition → ℕ → String → ConditionStatus → String → String → List Condition
  set_cond_on conds generation type status reason message = K.set_status_condition conds (record {
    type = type;
    status = status;
    reason = reason;
    message = message;
    observed_generation = generation;
  })
