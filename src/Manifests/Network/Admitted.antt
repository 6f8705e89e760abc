-- ===== src/Manifests/Network/Admitted.antt =====
-- Which traffic the policy of internal/manifests/networkpolicy.go admits to the pods of a server,
-- by what Kubernetes documents of ingress rules.
use mathlib.Core.Bool.{false≢true}
use mathlib.Core.List.{Memᴰ}
use mathlib.Core.Option.{some_inj}
use aether_powerdns.Prelude.{
  ℕ, String, Bool, true, false, List, [], ◌∷◌, Option, none, some, ◌==◌, ◌&&◌, ◌||◌, nat_eq,
  nat_eq_iff, any, all, lookup, ◌≡◌, ◌↔◌, ◌⊎◌, inl, inr, refl, ap, ◌∙◌, arith, eq_iff, Bool-cases,
}
use aether_powerdns.Api.Server.{PowerDnsServer}
use aether_powerdns.Manifests.Settings.{api_port_of}
use aether_powerdns.Manifests.Network.{
  NetworkPolicyPort, NetworkPolicyPeer, IngressRule, NetworkPolicy, namespace_label, peer_of,
  peers_of, network_policy,
}

-- A connection to a pod: from a namespace with its labels, or from outside of the cluster.
pub record Traffic : Type 0 where
  pub namespace_labels : Option (List (String × String))
  pub protocol : String
  pub port : ℕ

-- A label selector asks for each of its entries.
abbrev pub has_label : List (String × String) → String × String → Bool
has_label labels entry = elim (lookup entry.0 labels) [ none ↦ false | some v ↦ v == entry.1 ]

abbrev peer_matches : Traffic → NetworkPolicyPeer → Bool
peer_matches t peer = elim t.namespace_labels [
  | none ↦ false
  | some labels ↦ all (has_label labels) peer.namespace_selector
]

abbrev port_matches : Traffic → NetworkPolicyPort → Bool
port_matches t p = t.protocol == p.protocol && nat_eq t.port p.port

-- A rule without peers admits every source.
abbrev from_matches : Traffic → List NetworkPolicyPeer → Bool
from_matches t [] = true
from_matches t (peer ∷ rest) = any (peer_matches t) (peer ∷ rest)

abbrev rule_admits : Traffic → IngressRule → Bool
rule_admits t rule = from_matches t rule.from && any (port_matches t) rule.ports

-- A policy of ingress admits what one of its rules does.
abbrev pub admits : NetworkPolicy → Traffic → Bool
admits policy t = any (rule_admits t) policy.ingress

-- The traffic comes from the namespace of this name: each namespace has the label of its name.
abbrev pub IsFrom : Traffic → String → Type 0
IsFrom t ns =
    (labels : List (String × String)) × (t.namespace_labels ≡ some labels)
    × (lookup namespace_label labels ≡ some ns)

-- The traffic comes from one of these namespaces.
abbrev pub IsFromOneOf : Traffic → List String → Type 0
IsFromOneOf t allowed = (ns : String) × Memᴰ ns allowed × IsFrom t ns

label_iff :
    (found : Option String) (ns : String)
    → (elim found [ none ↦ false | some v ↦ v == ns ] ≡ true) ↔ (found ≡ some ns)
label_iff none ns = (λ h. absurd (false≢true h), λ h. cc)
label_iff (some v) ns = (λ h. ap some ((eq_iff v ns).0 h), λ h. (eq_iff v ns).1 (some_inj.0 h))

peer_iff :
    (t : Traffic) (source : Option (List (String × String))) (ns : String)
    → t.namespace_labels ≡ source
    → (peer_matches t (peer_of ns) ≡ true) ↔ IsFrom t ns
peer_iff t none ns e = rw e (λ h. absurd (false≢true h), λ (labels, same, has). cc)
peer_iff t (some labels) ns e =
    let (to, from) = label_iff (lookup namespace_label labels) ns in
    rw e (
      λ h. (labels, refl, to (ground arith)),
      λ (same_labels, same, has).
          let known = from (ap (lookup namespace_label) (some_inj.0 same) ∙ has) in rw known refl,
    )

peers_iff :
    (t : Traffic) (allowed : List String)
    → (any (peer_matches t) (peers_of allowed) ≡ true) ↔ IsFromOneOf t allowed
unfolding peers_of
peers_iff t [] = (λ h. absurd (false≢true h), λ (ns, m, from). elim m [ ])
peers_iff t (x ∷ xs) = (admitted (peers_iff t xs).0, complete (peers_iff t xs).1)
  where
    admitted :
        (any (peer_matches t) (peers_of xs) ≡ true → IsFromOneOf t xs)
        → (peer_matches t (peer_of x) || any (peer_matches t) (peers_of xs)) ≡ true
        → IsFromOneOf t (x ∷ xs)
    admitted later h = elim (Bool-cases (peer_matches t (peer_of x))) [
      | inl here ↦ (x, Memᴰ.head refl, (peer_iff t t.namespace_labels x refl).0 here)
      | inr not_here ↦ let (ns, m, from) = later (rw not_here at h) in (ns, Memᴰ.tail m, from)
    ]

    complete :
        (IsFromOneOf t xs → any (peer_matches t) (peers_of xs) ≡ true)
        → IsFromOneOf t (x ∷ xs)
        → (peer_matches t (peer_of x) || any (peer_matches t) (peers_of xs)) ≡ true
    complete later (ns, Memᴰ.head same, from) =
        rw ((peer_iff t t.namespace_labels x refl).1 (rw same at from)) refl
    complete later (ns, Memᴰ.tail m, from) = elim (Bool-cases (peer_matches t (peer_of x))) [
      | inl here ↦ rw here refl
      | inr not_here ↦ rw (not_here, later (ns, m, from)) refl
    ]

-- The tests of the two rules, with the answer of the peers.
rules_iff :
    (b : Bool) (P : Type 0) (protocol : String) (port api : ℕ)
    → (b ≡ true) ↔ P
    → (((protocol == "TCP" && nat_eq port 53)
          || ((protocol == "UDP" && nat_eq port 53) || false)
          || ((b && ((protocol == "TCP" && nat_eq port api) || false)) || false))
        ≡ true)
      ↔ ((((protocol ≡ "TCP") ⊎ (protocol ≡ "UDP")) × (port ≡ 53))
          ⊎ ((protocol ≡ "TCP") × (port ≡ api) × P))
rules_iff true P protocol port api (to, from) =
    let p = to refl in
    ground
      (arith, eq_iff protocol "TCP", eq_iff protocol "UDP", nat_eq_iff port 53, nat_eq_iff port api)
rules_iff false P protocol port api (to, from) =
    ground (arith, eq_iff protocol "TCP", eq_iff protocol "UDP", nat_eq_iff port 53)

-- The policy of a server admits DNS on port 53, by TCP and UDP, from everywhere; TCP to the port of
-- the API from the namespace of the server and the additional ones that its spec lists; and
-- nothing else. Kubernetes is taken to evaluate ingress rules as it documents.
pub network_policy_iff :
    (s : PowerDnsServer) (t : Traffic)
    → (admits (network_policy s) t ≡ true) ↔ (
        (((t.protocol ≡ "TCP") ⊎ (t.protocol ≡ "UDP")) × (t.port ≡ 53))
        ⊎ ((t.protocol ≡ "TCP")
            × (t.port ≡ api_port_of s)
            × IsFromOneOf t
                (s.meta.namespace ∷ s.spec.network_policy.additional_allowed_api_namespaces)))
unfolding network_policy peers_of
network_policy_iff s t =
    rules_iff _ _ t.protocol t.port (api_port_of s)
      (peers_iff t (s.meta.namespace ∷ s.spec.network_policy.additional_allowed_api_namespaces))
