-- ===== src/Controller/Servers/Lifecycle/Rules.antt =====
-- Actions of internal/controller/powerdnsserver_controller.go that make only the steps of
-- `Transition`, and the writes of the status.
use aether_powerdns.Prelude.{ℕ, String, Bool, true, List, none, some, ◌≡◌, refl, ◌⊎◌, inl, inr, ok}
use aether_powerdns.Api.Meta.{Condition, NamespacedName}
use aether_powerdns.Api.Server.{PowerDnsServer, PowerDnsServerStatus, phase_failed, condition_ready}
use aether_powerdns.Controller.Kube.{Kube}
use aether_powerdns.Controller.Kube.Answers.{
  Keeps, then-Keeps, within-Keeps, still-Keeps, event-Keeps,
}
use aether_powerdns.Controller.Kube.Apart.{IsApart}
use aether_powerdns.Controller.Servers.Lifecycle.{SameCore, Transition, Allowed, status_at}
use aether_powerdns.Controller.Servers.Status.{Pass, set_phase, set_failed, false_cond}
use aether_powerdns.Controller.World.{World, write, event_warning}

-- A status of which other fields changed.
pub core_kept :
    (a : PowerDnsServerStatus) (phase endpoint hash message : String) (conditions : List Condition)
    (ready : Bool) (desired ready_count : ℕ)
    → SameCore a (record a {
      phase = phase;
      dns_endpoint = endpoint;
      config_hash = hash;
      failure_message = message;
      conditions = conditions;
      ready = ready;
      desired_replicas = desired;
      ready_replicas = ready_count;
    })
core_kept a phase endpoint hash message conditions ready desired ready_count = record {
  api_key = refl;
  backend = refl;
  schema = refl;
  api = refl;
}

-- What Kubernetes documents of a resource with a status of its own: writing other objects leaves
-- it alone, its status changes by a write of the status alone, which takes effect or does not, and
-- a write of the resource may remove it, if it is being deleted.
pub record IsServerStore (A : Kube) (key : NamespacedName) : Type 0 where
  pub apart : IsApart A (status_at A key)
  pub status_write :
      (s : PowerDnsServer) (c : A.State)
      → (status_at A key (A.update_server_status s c).1 ≡ status_at A key c)
        ⊎ (status_at A key (A.update_server_status s c).1 ≡ some s.status)
  pub server_write :
      (s : PowerDnsServer) (c : A.State)
      → (status_at A key (A.update_server s c).1 ≡ status_at A key c)
        ⊎ ((s.meta.deleting ≡ true) × (status_at A key (A.update_server s c).1 ≡ none))

module _ (A : Kube) (key : NamespacedName) (law : IsServerStore A key) (s : PowerDnsServer) where
  -- The action makes at most steps from the status of `s`.
  abbrev pub Follows : {B : Type 0} → Pass A B → Type 0
  Follows m = Keeps {W = World A.State (Unit {0})} (λ w. status_at A key w.cluster) (Allowed s) m

  pub status_write-Follows :
      (t : PowerDnsServer) → Transition s t.status → Follows (write (A.update_server_status t))
  status_write-Follows t step = record {
    kept = λ w p. elim (law.status_write t w.cluster) [
      | inl before ↦ rw before p
      | inr after ↦ inr (t.status, after, step)
    ];
  }

  pub set_phase-Follows :
      (t : PowerDnsServer) (phase : String)
      → Transition s (record t.status { phase = phase })
      → Follows (set_phase A t phase)
  unfolding set_phase
  set_phase-Follows t phase step =
      then-Keeps (within-Keeps _ (status_write-Follows _ step)) (still-Keeps (λ w. ok _))

  pub set_failed-Follows :
      (msg : String)
      → Transition s
          (false_cond A
            (record s { status = record s.status { phase = phase_failed; failure_message = msg } })
            condition_ready
            "Failed"
            msg).status
      → Follows (set_failed A s msg)
  unfolding set_failed
  set_failed-Follows msg step = then-Keeps (status_write-Follows _ step) (
      then-Keeps (event-Keeps (status_at A key) event_warning "Failed" msg)
        (still-Keeps (λ w. ok _)))
