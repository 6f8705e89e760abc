-- ===== src/Controller/Servers/Lifecycle/Ranks.antt =====
-- The order of the phases of a server (internal/controller/powerdnsserver_controller.go), and
-- what each relies on.
use aether_powerdns.Prelude.{
  ℕ, String, true, Option, none, some, ◌==◌, ◌≤◌, ◌<◌, ◌≡◌, ◌≢◌, refl, sym, ◌∙◌, ◌⊎◌, inl, inr,
  ◌||◌, if◌then◌else◌, arith, eq_iff, append-ne-nil_of_left_ne-nil, Bool-cases, ne-of-eq_false,
  append-ne-nil_of_right_ne-nil,
}
use aether_powerdns.Api.Server.{
  LocalObjectReference, PowerDnsServer, PowerDnsServerStatus, phase_pending,
  phase_provisioning_backend, phase_initializing_schema, phase_deploying_server, phase_exposing_dns,
  phase_ready, phase_failed,
}
use aether_powerdns.Manifests.Naming.{name_set}
use aether_powerdns.Controller.Servers.Backend.{api_key_name, api_key_ref, named_secret}
use aether_powerdns.Controller.Servers.Phases.{api_endpoint_of}
use aether_powerdns.Controller.Servers.Lifecycle.{
  SameCore, IsNew, Transition, accept, refuse, provision, initialise, deploy, expose, give_up,
  refresh,
}

unfoldable pub rank : String → ℕ
rank phase =
    if phase == "" || phase == phase_pending
    then 0
    else if phase == phase_provisioning_backend
    then 1
    else if phase == phase_initializing_schema
    then 2
    else if phase == phase_deploying_server
    then 3
    else if phase == phase_exposing_dns
    then 4
    else if phase == phase_ready
    then 5
    else 6

-- Past the phase with number `n`, and not failed.
abbrev pub IsPast : ℕ → PowerDnsServerStatus → Type 0
IsPast n t = (n < rank t.phase) × (rank t.phase < 6)

-- Each phase leaves what the later ones read from the status.
pub record IsConsistent (t : PowerDnsServerStatus) : Type 0 where
  pub api_key : IsPast 0 t → t.api_key_secret_name ≢ ""
  pub backend : IsPast 1 t → t.backend_secret_name ≢ ""
  pub schema : IsPast 2 t → t.schema_applied ≡ true
  pub api : IsPast 3 t → t.api_endpoint ≢ ""

pub rank_new : (t : PowerDnsServerStatus) → IsNew t → rank t.phase ≡ 0
unfolding rank
rank_new t (inl e) = rw e refl
rank_new t (inr e) = rw e refl

pub rank_phase :
    {phase : String} (t : PowerDnsServerStatus) → t.phase ≡ phase → rank t.phase ≡ rank phase
rank_phase t e = rw e refl

pub rank_values :
    (rank phase_provisioning_backend ≡ 1)
    × (rank phase_initializing_schema ≡ 2)
    × (rank phase_deploying_server ≡ 3)
    × (rank phase_exposing_dns ≡ 4)
    × (rank phase_ready ≡ 5)
    × (rank phase_failed ≡ 6)
unfolding rank
rank_values = (refl, refl, refl, refl, refl, refl)

pub rank_at_most : (phase : String) → rank phase ≤ 6
unfolding rank
rank_at_most phase = ground arith

secret_name-ne-nil :
    (ref : Option LocalObjectReference) (own : String)
    → own ≢ ""
    → elim (named_secret ref) [ none ↦ own | some name ↦ name ] ≢ ""
unfolding named_secret
secret_name-ne-nil none own h = h
secret_name-ne-nil (some ref) own h = elim (Bool-cases (ref.name == "")) [
  | inl nameless ↦ rw nameless h
  | inr named ↦ rw named (ne-of-eq_false ref.name "" named)
]

api_key_name-ne-nil : (s : PowerDnsServer) → api_key_name s ≢ ""
unfolding api_key_name api_key_ref name_set
api_key_name-ne-nil s =
    secret_name-ne-nil s.spec.api.api_key_secret_ref _
      (append-ne-nil_of_right_ne-nil s.meta.name (λ q. ground (arith, eq_iff "-api-key" "")))

backend_secret-ne-nil : (s : PowerDnsServer) → (name_set s).backend_secret ≢ ""
unfolding name_set
backend_secret-ne-nil s =
    append-ne-nil_of_right_ne-nil s.meta.name (λ q. ground (arith, eq_iff "-backend" ""))

api_endpoint_of-ne-nil : (s : PowerDnsServer) → api_endpoint_of s ≢ ""
unfolding api_endpoint_of
api_endpoint_of-ne-nil s =
    append-ne-nil_of_left_ne-nil "http://" _ (λ q. ground (arith, eq_iff "http://" ""))

SameCore-IsConsistent :
    (a b : PowerDnsServerStatus) → SameCore a b → IsPast 3 a → IsConsistent a → IsConsistent b
SameCore-IsConsistent a b core past h = record {
  api_key = λ p. rw core.api_key (h.api_key (omega arith));
  backend = λ p. rw core.backend (h.backend (omega arith));
  schema = λ p. rw core.schema (h.schema (omega arith));
  api = λ p. rw core.api (h.api past);
}

-- A transition starts at the phase with one number, and ends at the one with another.
pub Transition-IsConsistent :
    (s : PowerDnsServer) (t : PowerDnsServerStatus)
    → IsConsistent s.status
    → Transition s t
    → IsConsistent t
Transition-IsConsistent s t h (accept new valid now key) =
    let at = rank_phase t now ∙ rank_values.0 in
    record {
      api_key = λ p. rw key (api_key_name-ne-nil s);
      backend = λ p. omega arith;
      schema = λ p. absurd (omega arith);
      api = λ p. omega arith;
    }
Transition-IsConsistent s t h (refuse new invalid now message) =
    let at = rank_phase t now ∙ rank_values.5 in
    record {
      api_key = λ p. omega arith;
      backend = λ p. omega arith;
      schema = λ p. absurd (omega arith);
      api = λ p. omega arith;
    }
Transition-IsConsistent s t h (provision was now key backend) =
    let from = rank_phase s.status was ∙ rank_values.0 in
    let at = rank_phase t now ∙ rank_values.1 in
    record {
      api_key = λ p. rw key (h.api_key (omega arith));
      backend = λ p. rw backend (backend_secret-ne-nil s);
      schema = λ p. absurd (omega arith);
      api = λ p. omega arith;
    }
Transition-IsConsistent s t h (initialise was now key backend applied) =
    let from = rank_phase s.status was ∙ rank_values.1 in
    let at = rank_phase t now ∙ rank_values.2 in
    record {
      api_key = λ p. rw key (h.api_key (omega arith));
      backend = λ p. rw backend (h.backend (omega arith));
      schema = λ p. applied;
      api = λ p. omega arith;
    }
Transition-IsConsistent s t h (deploy was now key backend applied api) =
    let from = rank_phase s.status was ∙ rank_values.2 in
    record {
      api_key = λ p. rw key (h.api_key (omega arith));
      backend = λ p. rw backend (h.backend (omega arith));
      schema = λ p. rw applied (h.schema (omega arith));
      api = λ p. rw api (api_endpoint_of-ne-nil s);
    }
Transition-IsConsistent s t h (expose was now core) =
    let from = rank_phase s.status was ∙ rank_values.3 in
    SameCore-IsConsistent s.status t core (omega arith) h
Transition-IsConsistent s t h (give_up was now core) =
    let from = rank_phase s.status was ∙ rank_values.3 in
    SameCore-IsConsistent s.status t core (omega arith) h
Transition-IsConsistent s t h (refresh was now core) =
    let from = rank_phase s.status was ∙ rank_values.4 in
    SameCore-IsConsistent s.status t core (omega arith) h

-- A transition goes on to a later phase, or refreshes a server that is ready.
pub Transition-rank :
    (s : PowerDnsServer) (t : PowerDnsServerStatus)
    → Transition s t
    → (t.phase ≡ s.status.phase) ⊎ (rank s.status.phase < rank t.phase)
Transition-rank s t (accept new valid now key) =
    inr (omega (arith, rank_new s.status new, rank_phase t now ∙ rank_values.0))
Transition-rank s t (refuse new invalid now message) =
    inr (omega (arith, rank_new s.status new, rank_phase t now ∙ rank_values.5))
Transition-rank s t (provision was now key backend) =
    inr (omega (arith, rank_phase s.status was ∙ rank_values.0, rank_phase t now ∙ rank_values.1))
Transition-rank s t (initialise was now key backend applied) =
    inr (omega (arith, rank_phase s.status was ∙ rank_values.1, rank_phase t now ∙ rank_values.2))
Transition-rank s t (deploy was now key backend applied api) =
    inr (omega (arith, rank_phase s.status was ∙ rank_values.2, rank_phase t now ∙ rank_values.3))
Transition-rank s t (expose was now core) =
    inr (omega (arith, rank_phase s.status was ∙ rank_values.3, rank_phase t now ∙ rank_values.4))
Transition-rank s t (give_up was now core) =
    inr (omega (arith, rank_phase s.status was ∙ rank_values.3, rank_phase t now ∙ rank_values.5))
Transition-rank s t (refresh was now core) = inl (now ∙ sym was)

pub new-IsConsistent : (t : PowerDnsServerStatus) → IsNew t → IsConsistent t
new-IsConsistent t new =
    let at = rank_new t new in
    record {
      api_key = λ p. absurd (omega arith);
      backend = λ p. absurd (omega arith);
      schema = λ p. absurd (omega arith);
      api = λ p. absurd (omega arith);
    }
