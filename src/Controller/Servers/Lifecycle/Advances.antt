-- ===== src/Controller/Servers/Lifecycle/Advances.antt =====
-- What an action of internal/controller/powerdnsserver_controller.go that asks for another pass at once
-- has done to the status of its server.
use aether_powerdns.Prelude.{
  ℕ, String, Bool, true, false, some, ◌<>◌, ◌≡◌, ◌<◌, refl, Result, ok, err, bind_result, ◌>>=◌,
  ◌>>◌, return, ok_inj, err-ne-ok, if◌then◌else◌, Error,
}
use aether_powerdns.Api.Meta.{NamespacedName, ReconcileResult}
use aether_powerdns.Api.Server.{PowerDnsServer, PowerDnsServerStatus, phase_failed, condition_ready}
use aether_powerdns.Controller.Common.{requeue_now, done}
use aether_powerdns.Controller.Kube.{Kube}
use aether_powerdns.Controller.Kube.Answers.{Gives}
use aether_powerdns.Controller.Kube.Children.{with_text}
use aether_powerdns.Controller.Servers.Lifecycle.{status_at}
use aether_powerdns.Controller.Servers.Lifecycle.Ranks.{rank}
use aether_powerdns.Controller.Servers.Status.{Pass, set_phase, set_failed, false_cond}
use aether_powerdns.Controller.World.{World, write, event, event_warning}

-- The server has the name and the namespace of the key.
abbrev pub IsAt : NamespacedName → PowerDnsServer → Type 0
IsAt key s = Path NamespacedName (record { namespace = s.meta.namespace; name = s.meta.name }) key

-- A write of the status of the server at the key takes effect where it succeeds.
pub record StoresStatus (A : Kube) (key : NamespacedName) : Type 0 where
  pub stored :
      (s : PowerDnsServer) (c : A.State)
      → IsAt key s
      → (A.update_server_status s c).0 ≡ ok tt
      → status_at A key (A.update_server_status s c).1 ≡ some s.status

module _ (A : Kube) (key : NamespacedName) (law : StoresStatus A key) (before : ℕ) where
  -- The cluster holds the server in a phase after the one with number `before`.
  abbrev pub IsOnward : A.State → Type 0
  IsOnward c = (t : PowerDnsServerStatus) × (status_at A key c ≡ some t) × (before < rank t.phase)

  pub record Advances (m : Pass A ReconcileResult) : Type 0 where
    pub onward :
        (w : World A.State (Unit {0})) (r : ReconcileResult)
        → (m w).0 ≡ ok r
        → r.requeue ≡ true
        → IsOnward (m w).1.cluster

  bind_result-IsOnward :
      {B : Type 0} (x : Result B × World A.State (Unit {0})) (f : B → Pass A ReconcileResult)
      (r : ReconcileResult)
      → ((b : B) → Advances (f b))
      → (bind_result x f).0 ≡ ok r
      → r.requeue ≡ true
      → IsOnward (bind_result x f).1.cluster
  bind_result-IsOnward (ok b, w) f r h q again = (h b).onward w r q again
  bind_result-IsOnward (err e, w) f r h q again = absurd (err-ne-ok q)

  pub bind-Advances :
      {B : Type 0} (m : Pass A B) {f : B → Pass A ReconcileResult}
      → ((b : B) → Advances (f b))
      → Advances (m >>= f)
  bind-Advances m {f} h = record {
    onward = λ w r q again. bind_result-IsOnward (m w) f r h q again;
  }

  given_result-IsOnward :
      {B : Type 0} (Q : B → Type 0) (x : Result B × World A.State (Unit {0}))
      (f : B → Pass A ReconcileResult) (r : ReconcileResult)
      → ((b : B) → x.0 ≡ ok b → Q b)
      → ((b : B) → Q b → Advances (f b))
      → (bind_result x f).0 ≡ ok r
      → r.requeue ≡ true
      → IsOnward (bind_result x f).1.cluster
  given_result-IsOnward Q (ok b, w) f r g h q again = (h b (g b refl)).onward w r q again
  given_result-IsOnward Q (err e, w) f r g h q again = absurd (err-ne-ok q)

  pub given-Advances :
      {B : Type 0} {Q : B → Type 0} (m : Pass A B) {f : B → Pass A ReconcileResult}
      → Gives Q m
      → ((b : B) → Q b → Advances (f b))
      → Advances (m >>= f)
  given-Advances {Q} m {f} g h = record {
    onward = λ w r q again. given_result-IsOnward Q (m w) f r (g.answer w) h q again;
  }

  pub then-Advances :
      (m : Pass A (Unit {0})) {k : Pass A ReconcileResult} → Advances k → Advances (m >> k)
  then-Advances m {k} h = record {
    onward = λ w r q again. bind_result-IsOnward (m w) (λ _. k) r (λ _. h) q again;
  }

  pub if-Advances :
      (b : Bool) {m k : Pass A ReconcileResult}
      → (b ≡ true → Advances m)
      → (b ≡ false → Advances k)
      → Advances (if b then m else k)
  if-Advances true h q = h refl
  if-Advances false h q = q refl

  pub waits-Advances : (r : ReconcileResult) → r.requeue ≡ false → Advances (λ w. (ok r, w))
  waits-Advances r later = record {
    onward = λ w r' q again. let clash : r.requeue ≡ true = rw (ok_inj q) again in absurd (cc);
  }

  pub fails-Advances : (e : Error) → Advances (λ w. (err e, w))
  fails-Advances e = record { onward = λ w r q again. absurd (err-ne-ok q) }

  written-IsOnward :
      (text : String) (t : PowerDnsServer) (w : World A.State (Unit {0}))
      (x : Result (Unit {0}) × A.State) (r : ReconcileResult)
      → before < rank t.status.phase
      → (x.0 ≡ ok tt → status_at A key x.1 ≡ some t.status)
      → (bind_result (with_text text x.0, record w { cluster = x.1 }) (λ _. return requeue_now)).0
        ≡ ok r
      → IsOnward
          (bind_result
            (with_text text x.0, record w { cluster = x.1 })
            (λ _. return requeue_now)).1.cluster
  written-IsOnward text t w (ok u, c) r later stored q = (t.status, stored refl, later)
  written-IsOnward text t w (err e, c) r later stored q = absurd (err-ne-ok q)

  pub set_phase-Advances :
      (t : PowerDnsServer) (phase : String)
      → IsAt key t
      → before < rank phase
      → Advances (set_phase A t phase)
  unfolding set_phase
  set_phase-Advances t phase at_key later = record {
    onward = λ w r q again.
        let t' : PowerDnsServer = record t { status = record t.status { phase = phase } } in
        written-IsOnward ("update phase to " <> phase) t' w (A.update_server_status t' w.cluster) r
          later (law.stored t' w.cluster at_key) q;
  }

  pub set_failed-Advances : (t : PowerDnsServer) (msg : String) → Advances (set_failed A t msg)
  unfolding set_failed
  set_failed-Advances t msg =
      then-Advances
        (write (
          A.update_server_status (
            false_cond A
              (record t {
                status = record t.status { phase = phase_failed; failure_message = msg };
              })
              condition_ready "Failed" msg)))
        (then-Advances (event event_warning "Failed" msg) (waits-Advances done refl))
