-- ===== src/Manifests/Budget.antt =====
-- `pdbFor` and `PodDisruptionBudget` of internal/manifests/manifests.go.
use aether_powerdns.Prelude.{ℕ, ◌-◌, String, List, Option, none, some, leb, if◌then◌else◌}
use aether_powerdns.Api.Server.{PowerDnsServer, PdbSpec}
use aether_powerdns.Manifests.Naming.{name_set, labels}

-- `policyv1.PodDisruptionBudget`, with the labels of its selector.
pub record PodDisruptionBudget : Type 0 where
  pub name : String
  pub namespace : String
  pub labels : List (String × String)
  pub min_available : ℕ

unfoldable pub pdb_for :
    String → String → List (String × String) → ℕ → Option ℕ → Option PodDisruptionBudget
pdb_for name namespace lbls replicas override =
    if leb replicas 1
    then none
    else some (record {
      name = name;
      namespace = namespace;
      labels = lbls;
      min_available = elim override [ none ↦ replicas - 1 | some n ↦ n ];
    })

-- `spec.replicas`, 1 by default.
abbrev pub replicas_or_one : Option ℕ → ℕ
replicas_or_one none = 1
replicas_or_one (some n) = n

abbrev pub min_available_of : Option PdbSpec → Option ℕ
min_available_of none = none
min_available_of (some p) = p.min_available

unfoldable pub pod_disruption_budget : PowerDnsServer → Option PodDisruptionBudget
pod_disruption_budget s =
    pdb_for (name_set s).pdb s.meta.namespace (labels s) (replicas_or_one s.spec.replicas)
      (min_available_of s.spec.pod_disruption_budget)
