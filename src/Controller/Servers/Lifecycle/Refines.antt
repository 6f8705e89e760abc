-- ===== src/Controller/Servers/Lifecycle/Refines.antt =====
-- The passes of internal/controller/powerdnsserver_controller.go make only the steps of `Transition`.
use aether_powerdns.Prelude.{
  Bool, true, false, Option, none, ◌==◌, ◌≡◌, refl, sym, ◌∙◌, ◌⊎◌, inl, inr, not, ◌||◌, Result, ok,
  err, bind_result, ◌>>◌, return, if◌then◌else◌, eq_iff, arith,
}
use aether_powerdns.Api.Meta.{NamespacedName, ReconcileResult}
use aether_powerdns.Api.Server.{
  PowerDnsServer, PowerDnsServerStatus, phase_ready, phase_provisioning_backend,
  phase_initializing_schema, phase_deploying_server, phase_exposing_dns, phase_pending,
}
use aether_powerdns.Controller.Common.{done, requeue_now}
use aether_powerdns.Controller.Kube.{Kube}
use aether_powerdns.Controller.Kube.Answers.{if-Keeps, still-Keeps}
use aether_powerdns.Controller.World.{World, write}
use aether_powerdns.Controller.Servers.Status.{Pass}
use aether_powerdns.Controller.Servers.Reconcile as Reconcile
use aether_powerdns.Controller.Servers.Lifecycle.{Allowed, status_at}
use aether_powerdns.Controller.Servers.Lifecycle.Early.{
  phase_pending-Follows, phase_provisioning-Follows, phase_initializing-Follows,
}
use aether_powerdns.Controller.Servers.Lifecycle.Late.{phase_deploying-Follows}
use aether_powerdns.Controller.Servers.Lifecycle.Exposing.{phase_exposing-Follows}
use aether_powerdns.Controller.Servers.Lifecycle.Steady.{phase_ready-Follows}
use aether_powerdns.Controller.Servers.Lifecycle.Rules.{IsServerStore, Follows}

module _ (A : Kube) (key : NamespacedName) (law : IsServerStore A key) (s : PowerDnsServer) where
  dispatch-Follows : Follows A key law s (Reconcile.dispatch A s)
  unfolding Reconcile.dispatch
  dispatch-Follows =
      if-Keeps (s.status.phase == "" || s.status.phase == phase_pending)
        (λ h.
          phase_pending-Follows A key law s
            (ground (arith, eq_iff s.status.phase "", eq_iff s.status.phase phase_pending)))
        (λ h.
          if-Keeps (s.status.phase == phase_provisioning_backend)
            (λ e. phase_provisioning-Follows A key law s ((eq_iff _ _).0 e))
            (λ e.
              if-Keeps (s.status.phase == phase_initializing_schema)
                (λ e. phase_initializing-Follows A key law s ((eq_iff _ _).0 e))
                (λ e.
                  if-Keeps (s.status.phase == phase_deploying_server)
                    (λ e. phase_deploying-Follows A key law s ((eq_iff _ _).0 e))
                    (λ e.
                      if-Keeps (s.status.phase == phase_exposing_dns)
                        (λ e. phase_exposing-Follows A key law s ((eq_iff _ _).0 e))
                        (λ e.
                          if-Keeps (s.status.phase == phase_ready)
                            (λ e. phase_ready-Follows A key law s ((eq_iff _ _).0 e))
                            (λ e. still-Keeps (λ w. ok _)))))))

  -- What may become of the status in a pass.
  abbrev pub Outcome : Option PowerDnsServerStatus → Type 0
  Outcome o = Allowed s o ⊎ ((s.meta.deleting ≡ true) × (o ≡ none))

  written_then-Outcome :
      (r : ReconcileResult) (x : Result (Unit {0}) × World A.State (Unit {0}))
      → Outcome (status_at A key x.1.cluster)
      → Outcome (status_at A key (bind_result x (λ u. return r)).1.cluster)
  written_then-Outcome r (ok u, w) o = o
  written_then-Outcome r (err e, w) o = o

  server_write-Outcome :
      (t : PowerDnsServer) (r : ReconcileResult) (w : World A.State (Unit {0}))
      → t.meta.deleting ≡ s.meta.deleting
      → A.get_server key w.cluster ≡ ok s
      → Outcome (status_at A key ((write (A.update_server t) >> return r) w).1.cluster)
  server_write-Outcome t r w same found =
      written_then-Outcome r (write (A.update_server t) w) (elim (law.server_write t w.cluster) [
        | inl before ↦ rw (before, found) (inl (inl refl))
        | inr (deleting, gone) ↦ rw gone (inr (sym same ∙ deleting, refl))
      ])

  if-Outcome :
      (w : World A.State (Unit {0})) (b : Bool) (m k : Pass A ReconcileResult)
      → Outcome (status_at A key (m w).1.cluster)
      → Outcome (status_at A key (k w).1.cluster)
      → Outcome (status_at A key ((if b then m else k) w).1.cluster)
  if-Outcome w true m k h q = h
  if-Outcome w false m k h q = q

  with_server-Outcome :
      (w : World A.State (Unit {0}))
      → A.get_server key w.cluster ≡ ok s
      → Outcome (status_at A key (Reconcile.with_server A (ok s) w).1.cluster)
  unfolding Reconcile.with_server Reconcile.reconcile_delete
  with_server-Outcome w found =
      if-Outcome w s.meta.deleting _ _ (server_write-Outcome _ done w refl found) (
        if-Outcome w (not (A.contains_finalizer s.meta.finalizers Reconcile.finalizer)) _ _
          (server_write-Outcome _ requeue_now w refl found)
          (inl (dispatch-Follows.kept w (rw found (inl refl)))))

  -- Where the client stores servers as `IsServerStore` says, a pass over a server leaves its status
  -- as it is, or takes one of the steps of `Transition`; only a server that is being deleted may be
  -- gone after it.
  pub reconcile-Outcome :
      (w : World A.State (Unit {0}))
      → A.get_server key w.cluster ≡ ok s
      → Outcome (status_at A key (Reconcile.reconcile A key w).1.cluster)
  unfolding Reconcile.reconcile
  reconcile-Outcome w found = rw found (with_server-Outcome w found)
