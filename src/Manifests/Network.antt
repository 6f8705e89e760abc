-- ===== src/Manifests/Network.antt =====
-- `NetworkPolicy` of internal/manifests/networkpolicy.go.
pub mod Admitted
use aether_powerdns.Prelude.{ℕ, String, List, [], ◌∷◌, ◌++◌}
use aether_powerdns.Api.Server.{PowerDnsServer}
use aether_powerdns.Manifests.Settings.{api_port_of}
use aether_powerdns.Manifests.Naming.{name_set, labels}
use aether_powerdns.Manifests.Services.{dns_port}

pub record NetworkPolicyPort : Type 0 where
  pub protocol : String
  pub port : ℕ

-- A peer, by the labels that its namespace is to have.
pub record NetworkPolicyPeer : Type 0 where
  pub namespace_selector : List (String × String)

pub record IngressRule : Type 0 where
  pub from : List NetworkPolicyPeer
  pub ports : List NetworkPolicyPort

pub record NetworkPolicy : Type 0 where
  pub name : String
  pub namespace : String
  pub labels : List (String × String)
  pub pod_selector : List (String × String)
  pub policy_types : List String
  pub ingress : List IngressRule

abbrev pub namespace_label : String
namespace_label = "kubernetes.io/metadata.name"

abbrev peer_of : String → NetworkPolicyPeer
peer_of ns = record { namespace_selector = (namespace_label, ns) ∷ [] }

-- The loop over the additional namespaces.
unfoldable pub peers_of : List String → List NetworkPolicyPeer
peers_of [] = []
peers_of (ns ∷ rest) = peer_of ns ∷ peers_of rest

unfoldable pub network_policy : PowerDnsServer → NetworkPolicy
unfolding name_set peers_of
network_policy s = record {
  name = (name_set s).net_policy;
  namespace = s.meta.namespace;
  labels = labels s;
  pod_selector = labels s;
  policy_types = "Ingress" ∷ [];
  ingress =
      (record {
        from = [];
        ports =
            (record { protocol = "TCP"; port = dns_port })
            ∷ (record { protocol = "UDP"; port = dns_port })
            ∷ [];
      })
      ∷ (record {
        from =
            (peer_of s.meta.namespace ∷ [])
            ++ peers_of s.spec.network_policy.additional_allowed_api_namespaces;
        ports = (record { protocol = "TCP"; port = api_port_of s }) ∷ [];
      })
      ∷ [];
}
