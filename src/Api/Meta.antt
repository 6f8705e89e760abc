-- ===== src/Api/Meta.antt =====
-- What the custom resources share: metadata, conditions and references
-- (api/v1alpha1/zone_types.go, and the metadata of k8s.io/apimachinery that the code reads).
-- A number of Go's int32 or int64 is a natural number, since the schemas of config/crd admit
-- no negative value and the operator computes none.
use aether_powerdns.Prelude.{ℕ, String, Bool, List, ◌<>◌}

-- The metadata of an object, as far as the operator looks at it.
pub record ObjectMeta : Type 0 where
  pub name : String
  pub namespace : String
  pub generation : ℕ
  pub finalizers : List String
  -- `!DeletionTimestamp.IsZero()`.
  pub deleting : Bool

pub data ConditionStatus : Type 0 where
  condition_true condition_false condition_unknown : ConditionStatus

-- `metav1.Condition`, without the time of its last transition.
pub record Condition : Type 0 where
  pub type : String
  pub status : ConditionStatus
  pub reason : String
  pub message : String
  pub observed_generation : ℕ

pub record ObjectRef : Type 0 where
  pub name : String
  pub namespace : String

pub record NamespacedName : Type 0 where
  pub namespace : String
  pub name : String

-- `NamespacedName.String()`.
abbrev pub show_name : NamespacedName → String
show_name n = n.namespace <> ("/" <> n.name)

-- `ctrl.Result`, with the delay in seconds.
pub record ReconcileResult : Type 0 where
  pub requeue : Bool
  pub requeue_after : ℕ
