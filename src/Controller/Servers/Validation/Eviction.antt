-- ===== src/Controller/Servers/Validation/Eviction.antt =====
-- The disruption budget (`PodDisruptionBudget` of internal/manifests/manifests.go) of a server
-- whose spec passed `validateSpec` (internal/controller/powerdnsserver_controller.go).
use aether_powerdns.Prelude.{
  List, ℕ, ◌≤◌, ◌<◌, String, Option, none, some, leb, ◌≡◌, ◌↔◌, inl, inr, refl, sym, arith,
  Bool-cases,
}
use mathlib.Core.Option.{some_inj}
use aether_powerdns.Api.Server.{PowerDnsServer}
use aether_powerdns.Manifests.Budget.{
  PodDisruptionBudget, pdb_for, pod_disruption_budget, min_available_of, replicas_or_one,
}
use aether_powerdns.Controller.Servers.Validation.{validate_spec}
use aether_powerdns.Controller.Servers.Validation.Validity.{validate_spec_iff}

pdb_for-none_iff :
    (name namespace : String) (lbls : List (String × String)) (replicas : ℕ) (override : Option ℕ)
    → (pdb_for name namespace lbls replicas override ≡ none) ↔ (replicas ≤ 1)
unfolding pdb_for
pdb_for-none_iff name namespace lbls replicas override = elim (Bool-cases (leb replicas 1)) [
  | inl few ↦ rw few (λ h. ground arith, λ h. refl)
  | inr several ↦ rw several (λ h. cc, λ h. ground arith)
]

pdb_for-fits :
    (name namespace : String) (lbls : List (String × String)) (replicas : ℕ) (override : Option ℕ)
    → ((min : ℕ) → override ≡ some min → 1 < replicas → min < replicas)
    → ((min : ℕ) → override ≡ some min → 1 ≤ min)
    → (pdb : PodDisruptionBudget) → pdb_for name namespace lbls replicas override ≡ some pdb
    → (1 ≤ pdb.min_available) × (pdb.min_available < replicas)
unfolding pdb_for
pdb_for-fits name namespace lbls replicas none below positive pdb e =
    elim (Bool-cases (leb replicas 1)) [
      | inl few ↦ cc
      | inr several ↦ rw (sym (some_inj.0 (rw several at e))) (ground arith, ground arith)
    ]
pdb_for-fits name namespace lbls replicas (some n) below positive pdb e =
    elim (Bool-cases (leb replicas 1)) [
      | inl few ↦ cc
      | inr several ↦
          rw (sym (some_inj.0 (rw several at e))) (positive n refl, below n refl (ground arith))
    ]

-- A server whose spec is valid, and whose budget, if it sets one, is at least 1 as the schema
-- demands: it has no disruption budget exactly if it has at most one replica, and a budget that
-- it has keeps a pod and lets one be evicted.
pub pod_disruption_budget_bounds :
    (s : PowerDnsServer)
    → validate_spec s ≡ ""
    → ((min : ℕ) → min_available_of s.spec.pod_disruption_budget ≡ some min → 1 ≤ min)
    → ((pod_disruption_budget s ≡ none) ↔ (replicas_or_one s.spec.replicas ≤ 1))
      × ((pdb : PodDisruptionBudget)
          → pod_disruption_budget s ≡ some pdb
          → (1 ≤ pdb.min_available) × (pdb.min_available < replicas_or_one s.spec.replicas))
unfolding pod_disruption_budget
pod_disruption_budget_bounds s valid positive = (
  pdb_for-none_iff _ _ _ _ _,
  pdb_for-fits _ _ _ _ _ ((validate_spec_iff s).0 valid).budget positive,
)
