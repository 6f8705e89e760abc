-- ===== src/Controller/Servers/Lifecycle/Reached.antt =====
-- What holds of every status that a server reaches in passes of `Reconcile`
-- (internal/controller/powerdnsserver_controller.go), and how often its phase changes.
use aether_powerdns.Prelude.{
  ℕ, String, Option, none, some, ◌==◌, ◌+◌, ◌≤◌, ◌≡◌, refl, sym, subst, ◌∙◌, ◌⊎◌, inl, inr,
  if◌then◌else◌, Result, ok, err, Error, ap, is_kind, api_not_found, arith, Bool-cases, eq_refl,
}
use aether_powerdns.Api.Meta.{NamespacedName}
use aether_powerdns.Api.Server.{PowerDnsServer, PowerDnsServerStatus}
use aether_powerdns.Controller.Common.{ignore_not_found}
use aether_powerdns.Controller.Kube.{Kube}
use aether_powerdns.Controller.Servers.Lifecycle.{IsNew, Transition, status_of, status_at}
use aether_powerdns.Controller.Servers.Lifecycle.Ranks.{
  rank, rank_at_most, new-IsConsistent, IsConsistent, Transition-rank, Transition-IsConsistent,
}
use aether_powerdns.Controller.Servers.Lifecycle.Refines.{reconcile-Outcome}
use aether_powerdns.Controller.Servers.Lifecycle.Rules.{IsServerStore}
use aether_powerdns.Controller.Servers.Reconcile.{reconcile, with_server}
use aether_powerdns.Controller.World.{World}

-- The status of a server, where there is one.
abbrev pub IsWell : Option PowerDnsServerStatus → Type 0
IsWell none = Unit
IsWell (some t) = IsConsistent t

abbrev pub phase_of : Option PowerDnsServerStatus → String
phase_of none = "gone"
phase_of (some t) = t.phase

-- A server that is gone counts as one that has failed, and one more.
abbrev pub stage : Option PowerDnsServerStatus → ℕ
stage none = 7
stage (some t) = rank t.phase

abbrev pub changed : String → String → ℕ
changed before after = if before == after then 0 else 1

module _ (A : Kube) (key : NamespacedName) where
  -- From the cluster `a`: passes over the server, and what others do between them, which leaves the
  -- status alone.
  pub data Run (a : A.State) : A.State → Type 0 where
    start : Run a a
    pass :
        {b c : A.State}
        → Run a b
        → (w : World A.State (Unit {0})) → w.cluster ≡ b
        → c ≡ (reconcile A key w).1.cluster
        → Run a c
    elsewhere : {b c : A.State} → Run a b → status_at A key c ≡ status_at A key b → Run a c

  -- How often a pass changed the phase.
  unfoldable pub changes : {a c : A.State} → Run a c → ℕ
  changes start = 0
  changes (pass {b} {c} r w from to) =
      changes r + changed (phase_of (status_at A key b)) (phase_of (status_at A key c))
  changes (elsewhere r same) = changes r

changed_same : (phase : String) → changed phase phase ≡ 0
changed_same phase = rw (eq_refl phase) refl

changed_at_most : (before after : String) → changed before after ≤ 1
changed_at_most before after = ground arith

module _ (A : Kube) (key : NamespacedName) (law : IsServerStore A key) where
  -- What a pass makes of the status.
  abbrev Moves : Option PowerDnsServerStatus → Option PowerDnsServerStatus → Type 0
  Moves before after =
      (after ≡ before)
      ⊎ (after ≡ none)
      ⊎ ((s : PowerDnsServer) × (t : PowerDnsServerStatus) × (before ≡ some s.status)
          × (after ≡ some t)
          × Transition s t)

  ignored-Moves :
      (w : World A.State (Unit {0})) (e : Error)
      → status_at A key (ignore_not_found e w).1.cluster ≡ status_at A key w.cluster
  ignored-Moves w e = elim (Bool-cases (is_kind api_not_found e.kind)) [
    | inl gone ↦ rw gone refl
    | inr failed ↦ rw failed refl
  ]

  looked-Moves :
      (w : World A.State (Unit {0})) (r : Result PowerDnsServer)
      → A.get_server key w.cluster ≡ r
      → Moves (status_at A key w.cluster) (status_at A key (reconcile A key w).1.cluster)
  unfolding reconcile with_server
  looked-Moves w (err e) h = rw (h, ← ap status_of h) (inl (ignored-Moves w e))
  looked-Moves w (ok s) h = elim (reconcile-Outcome A key law s w h) [
    | inl (inl same) ↦ inl (same ∙ sym (ap status_of h))
    | inl (inr (t, after, moved)) ↦ inr (inr (s, t, ap status_of h, after, moved))
    | inr (deleting, gone) ↦ inr (inl gone)
  ]

  pass-Moves :
      {b c : A.State} (w : World A.State (Unit {0}))
      → w.cluster ≡ b
      → c ≡ (reconcile A key w).1.cluster
      → Moves (status_at A key b) (status_at A key c)
  pass-Moves w from to = rw (to, ← from) (looked-Moves w (A.get_server key w.cluster) refl)

  move_changes :
      (before after : Option PowerDnsServerStatus)
      → Moves before after
      → stage before + changed (phase_of before) (phase_of after) ≤ stage after
  move_changes before after (inl same) = rw same (omega (arith, changed_same (phase_of before)))
  move_changes none after (inr (inl gone)) = rw gone (omega arith)
  move_changes (some t) after (inr (inl gone)) =
      rw gone (omega (arith, rank_at_most t.phase, changed_at_most t.phase "gone"))
  move_changes before after (inr (inr (s, t, was, now, moved))) =
      rw (was, now)
        (elim (Transition-rank s t moved) [
          | inl kept ↦ rw kept (omega (arith, changed_same s.status.phase))
          | inr later ↦ omega (arith, later, changed_at_most s.status.phase t.phase)
        ])

  move-IsWell :
      (before after : Option PowerDnsServerStatus)
      → Moves before after
      → IsWell before
      → IsWell after
  move-IsWell before after (inl same) h = rw same h
  move-IsWell before after (inr (inl gone)) h = rw gone tt
  move-IsWell before after (inr (inr (s, t, was, now, moved))) h =
      let consistent : IsWell (some s.status) = subst IsWell was h in
      rw now (Transition-IsConsistent s t consistent moved)

  pub changes_ranked :
      {a c : A.State} (r : Run A key a c)
      → stage (status_at A key a) + changes A key r ≤ stage (status_at A key c)
  unfolding changes
  changes_ranked start = omega arith
  changes_ranked (pass {b} {c} r w from to) =
      omega (arith, changes_ranked r, move_changes _ _ (pass-Moves w from to))
  changes_ranked (elsewhere r same) = rw same (changes_ranked r)

  pub reached-IsWell :
      {a c : A.State} → Run A key a c → IsWell (status_at A key a) → IsWell (status_at A key c)
  reached-IsWell start h = h
  reached-IsWell (pass {b} {c} r w from to) h =
      move-IsWell _ _ (pass-Moves w from to) (reached-IsWell r h)
  reached-IsWell (elsewhere r same) h = rw same (reached-IsWell r h)

  stage_at_most : (o : Option PowerDnsServerStatus) → stage o ≤ 7
  stage_at_most none = omega arith
  stage_at_most (some t) = omega (arith, rank_at_most t.phase)

  -- Where the client stores servers as `IsServerStore` says, however many passes are made over a
  -- server, and whatever else happens to the cluster between them that leaves its status alone, they
  -- change the phase at most as often as there are stages after the first one, seven for a new
  -- server; each change leads to a later stage.
  pub phases_end :
      {a c : A.State} (r : Run A key a c)
      → (changes A key r + stage (status_at A key a) ≤ 7)
        × (stage (status_at A key a) + changes A key r ≤ stage (status_at A key c))
  phases_end {a} {c} r =
      (omega (arith, changes_ranked r, stage_at_most (status_at A key c)), changes_ranked r)

  -- Where the client stores servers as `IsServerStore` says, a server that was new, and that passes
  -- have led to another status, has what its phase relies on unless it has failed: the names of the
  -- two Secrets, the schema, and the endpoint of the API, each from the phase on after the one that
  -- writes it.
  pub reached-IsConsistent :
      {a c : A.State} (s : PowerDnsServer) (t : PowerDnsServerStatus)
      → A.get_server key a ≡ ok s
      → IsNew s.status
      → Run A key a c
      → status_at A key c ≡ some t
      → IsConsistent t
  reached-IsConsistent {a} s t found new r now =
      let first : IsWell (status_at A key a) = rw found (new-IsConsistent s.status new) in
      subst IsWell now (reached-IsWell r first)
