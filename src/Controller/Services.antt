-- ===== src/Controller/Services.antt =====
-- internal/controller/converge.go: the convergence of live Services.
pub mod Ports
pub mod Annotations
pub mod Settled
use aether_powerdns.Prelude.{
  ℕ, String, Bool, true, false, List, [], ◌∷◌, Option, none, some, ◌==◌, ◌&&◌, ◌||◌, not, nat_eq,
  find?, all, map, lookup, keys, same_text_option, Result, ok, err, api_not_found, is_kind, Action,
  if◌then◌else◌,
}
use aether_powerdns.Api.Meta.{NamespacedName}

pub record ServicePort : Type 0 where
  pub name : String
  pub protocol : String
  pub port : ℕ
  pub target_port : ℕ
  pub node_port : ℕ

-- `corev1.ServiceSpec`: what the operator sets, and the fields that others set.
pub record ServiceSpec : Type 0 where
  pub ports : List ServicePort
  pub selector : List (String × String)
  pub type : String
  pub load_balancer_ip : String
  pub external_traffic_policy : String
  pub cluster_ip : String
  pub foreign : List (String × String)

-- `corev1.LoadBalancerIngress`: the address or the name of a host.
pub record LoadBalancerIngress : Type 0 where
  pub ip : String
  pub hostname : String

pub record Service : Type 0 where
  pub name : String
  pub namespace : String
  pub labels : List (String × String)
  pub annotations : List (String × String)
  pub spec : ServiceSpec
  -- `status.loadBalancer.ingress`.
  pub ingress : List LoadBalancerIngress

unfoldable pub service_ports_match : ServicePort → ServicePort → Bool
service_ports_match a b =
    if not (a.name == "") || not (b.name == "")
    then a.name == b.name
    else nat_eq a.port b.port && a.protocol == b.protocol

-- The loop over `existing.Spec.Ports`, up to its `break`.
unfoldable pub carry_from : Option ServicePort → ServicePort → ServicePort
carry_from none p = p
carry_from (some ep) p = record p { node_port = ep.node_port }

unfoldable pub carry_node_port : List ServicePort → ServicePort → ServicePort
unfolding carry_from
carry_node_port existing p =
    if not (nat_eq p.node_port 0)
    then p
    else carry_from (find? (λ ep. service_ports_match ep p) existing) p

-- `updated.Annotations[k] = v`.
unfoldable pub put : String → String → List (String × String) → List (String × String)
put k v [] = (k, v) ∷ []
put k v (entry ∷ rest) =
    let later = put k v rest in if entry.0 == k then (k, v) ∷ rest else entry ∷ later

-- The loop over `desired.Annotations`.
unfoldable pub merge_annotations :
    List (String × String) → List (String × String) → List (String × String)
unfolding put
merge_annotations [] live = live
merge_annotations (entry ∷ desired) live = merge_annotations desired (put entry.0 entry.1 live)

-- `updated`, from the desired and the existing Service.
unfoldable pub updated_service : Service → Service → Service
unfolding carry_node_port merge_annotations
updated_service desired existing = record existing {
  annotations = merge_annotations desired.annotations existing.annotations;
  spec = record existing.spec {
    ports =
        if desired.spec.type == "LoadBalancer" || desired.spec.type == "NodePort"
        then map (carry_node_port existing.spec.ports) desired.spec.ports
        else desired.spec.ports;
    selector = desired.spec.selector;
    type = desired.spec.type;
    load_balancer_ip = desired.spec.load_balancer_ip;
    external_traffic_policy = desired.spec.external_traffic_policy;
  };
}

-- `equality.Semantic.DeepEqual` on maps of texts, on ports and on the spec.
abbrev pub same_map : List (String × String) → List (String × String) → Bool
same_map m n =
    all (λ k. same_text_option (lookup k m) (lookup k n)) (keys m)
    && all (λ k. same_text_option (lookup k m) (lookup k n)) (keys n)

abbrev pub same_port : ServicePort → ServicePort → Bool
same_port p q =
    p.name == q.name
    && p.protocol == q.protocol
    && nat_eq p.port q.port
    && nat_eq p.target_port q.target_port
    && nat_eq p.node_port q.node_port

abbrev pub same_ports : List ServicePort → List ServicePort → Bool
same_ports [] [] = true
same_ports [] (q ∷ qs) = false
same_ports (p ∷ ps) [] = false
same_ports (p ∷ ps) (q ∷ qs) = same_port p q && same_ports ps qs

unfoldable pub same_spec : ServiceSpec → ServiceSpec → Bool
same_spec a b =
    same_ports a.ports b.ports
    && same_map a.selector b.selector
    && a.type == b.type
    && a.load_balancer_ip == b.load_balancer_ip
    && a.external_traffic_policy == b.external_traffic_policy
    && a.cluster_ip == b.cluster_ip
    && same_map a.foreign b.foreign

-- The client of controller-runtime on Services, over the cluster's state.
pub record ServiceApi : Type 1 where
  pub State : Type 0
  pub get : NamespacedName → State → Result Service
  pub create : Service → Action State (Unit {0})
  pub update : Service → Action State (Unit {0})

module _ (A : ServiceApi) where
  -- With the answer to the Get.
  unfoldable pub with_existing : Service → Result Service → Action A.State (Unit {0})
  with_existing desired (err e) s =
      if is_kind api_not_found e.kind then A.create desired s else (err e, s)
  with_existing desired (ok existing) s =
      let updated = updated_service desired existing in
      if same_spec existing.spec updated.spec && same_map existing.annotations updated.annotations
      then (ok tt, s)
      else A.update updated s

  -- The function that is retried on a conflict.
  unfoldable pub converge_service : Service → Action A.State (Unit {0})
  unfolding with_existing
  converge_service desired s =
      with_existing desired
        (A.get (record { namespace = desired.namespace; name = desired.name }) s) s

  -- `updateService`, over the function `retry` of client-go.
  unfoldable pub update_service :
      (Action A.State (Unit {0}) → Action A.State (Unit {0})) → Service → Action A.State (Unit {0})
  update_service retry desired = retry (converge_service desired)
