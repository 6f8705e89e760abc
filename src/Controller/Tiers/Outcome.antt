-- ===== src/Controller/Tiers/Outcome.antt =====
-- What becomes of the status of a DNSDist in a pass of internal/controller/dnsdist_controller.go.
use aether_powerdns.Prelude.{
  String, Bool, true, false, List, Option, none, some, ◌==◌, ◌≡◌, ◌≢◌, refl, ap, ◌⊎◌, inl, inr, not,
  Result, ok, err, Action, Bool-cases, eq_iff, arith, if◌then◌else◌,
}
use aether_powerdns.Api.Meta.{NamespacedName, ReconcileResult, condition_true, condition_false}
use aether_powerdns.Api.Server.{dns_exposure_gateway}
use aether_powerdns.Api.Tiers.{DnsDist, DnsDistStatus, condition_backends_ready}
use aether_powerdns.Api.Zones.{zone_phase_pending, zone_phase_ready, zone_phase_failed}
use aether_powerdns.Manifests.Pods.{Deployment}
use aether_powerdns.Controller.Common.{requeue_short, requeue_in, done}
use aether_powerdns.Controller.Kube.{Kind, Kube}
use aether_powerdns.Controller.Kube.Answers.{
  Keeps, bind-Keeps, then-Keeps, attempt-Keeps, if-Keeps, still-Keeps, write-Keeps, event-Keeps,
}
use aether_powerdns.Controller.Kube.Apart.{IsApart}
use aether_powerdns.Controller.Tiers.Backends.{
  View, Readiness, ready, not_ready, failed, backends_ready,
}
use aether_powerdns.Controller.Tiers.Children.Apart.{
  converge_config-Leaves, converge_children-Leaves,
}
use aether_powerdns.Controller.Tiers.Reconcile.{
  is_available, service_endpoint, tier_condition, mark_not_ready, mark_failed, mirrored,
  endpoint_of, refresh_status, view_of, converge, with_backends, with_tier, reconcile,
}
use aether_powerdns.Controller.Tiers.Validation.{validate_dns_dist}
use aether_powerdns.Controller.World.{World, write, event_warning}

-- What a status says of the tier, with the view of the cluster that the pass had.
pub data Verdict (v : View) (d : DnsDist) (t : DnsDistStatus) : Type 0 where
  invalid :
      validate_dns_dist d ≢ ""
      → t.phase ≡ zone_phase_failed
      → t.failure_message ≡ validate_dns_dist d
      → Verdict v d t
  waiting :
      (reason msg : String)
      → validate_dns_dist d ≡ ""
      → backends_ready v d ≡ not_ready reason msg
      → t.phase ≡ zone_phase_pending
      → t.failure_message ≡ msg
      → Verdict v d t
  serving :
      (addrs : List (String × String))
      → validate_dns_dist d ≡ ""
      → backends_ready v d ≡ ready addrs
      → t.phase ≡ zone_phase_ready
      → t.failure_message ≡ ""
      → t.observed_generation ≡ d.meta.generation
      → Verdict v d t

abbrev pub tier_status_of : Result DnsDist → Option DnsDistStatus
tier_status_of (ok d) = some d.status
tier_status_of (err e) = none

abbrev pub tier_status_at : (A : Kube) → NamespacedName → A.State → Option DnsDistStatus
tier_status_at A key c = tier_status_of (A.get_tier key c)

-- What Kubernetes documents of a resource with a status of its own: writing other objects leaves
-- it alone, and a write of the status takes effect or does not.
pub record IsTierStore (A : Kube) (key : NamespacedName) : Type 0 where
  pub apart : IsApart A (tier_status_at A key)
  pub status_write :
      (d : DnsDist) (c : A.State)
      → (tier_status_at A key (A.update_tier_status d c).1 ≡ tier_status_at A key c)
        ⊎ (tier_status_at A key (A.update_tier_status d c).1 ≡ some d.status)

-- The status is as before, or says what the pass found.
abbrev pub IsJudged : View → DnsDist → Option DnsDistStatus → Type 0
IsJudged v d o = (o ≡ some d.status) ⊎ ((t : DnsDistStatus) × (o ≡ some t) × Verdict v d t)

module _ (A : Kube) (key : NamespacedName) (law : IsTierStore A key) (v : View) (d : DnsDist) where
  abbrev Judges : {B : Type 0} → Action (World A.State (Unit {0})) B → Type 0
  Judges m =
      Keeps {W = World A.State (Unit {0})} (λ w. tier_status_at A key w.cluster) (IsJudged v d) m

  status_write-Judges :
      (u : DnsDist) → Verdict v d u.status → Judges (write (A.update_tier_status u))
  status_write-Judges u verdict = record {
    kept = λ w p. elim (law.status_write u w.cluster) [
      | inl before ↦ rw before p
      | inr after ↦ inr (u.status, after, verdict)
    ];
  }

  mark_failed-Judges : validate_dns_dist d ≢ "" → Judges (mark_failed A d (validate_dns_dist d))
  unfolding mark_failed
  mark_failed-Judges bad = then-Keeps (status_write-Judges _ (invalid bad refl refl)) (
      then-Keeps (event-Keeps (tier_status_at A key) event_warning "InvalidSpec" _)
        (still-Keeps (λ w. ok done)))

  mark_not_ready-Judges :
      (reason msg : String)
      → validate_dns_dist d ≡ ""
      → backends_ready v d ≡ not_ready reason msg
      → Judges (
          mark_not_ready A
            (tier_condition A d condition_backends_ready condition_false reason msg)
            reason
            msg
            requeue_short)
  unfolding mark_not_ready
  mark_not_ready-Judges reason msg valid found =
      then-Keeps (status_write-Judges _ (waiting reason msg valid found refl refl))
        (still-Keeps (λ w. ok (requeue_in requeue_short)))

  module _ (addrs : List (String × String)) (valid : validate_dns_dist d ≡ "")
      (found : backends_ready v d ≡ ready addrs) where
    abbrev served : DnsDist
    served =
        tier_condition A d condition_backends_ready condition_true "BackendsReady"
          "all backends Ready"

    mirrored-Verdict :
        (dep : Deployment) (endpoint : String) → Verdict v d (mirrored A served dep endpoint).status
    unfolding mirrored
    mirrored-Verdict dep endpoint = elim (Bool-cases (is_available dep)) [
      | inl all_there ↦ rw all_there (serving addrs valid found refl refl refl)
      | inr missing ↦ rw missing (serving addrs valid found refl refl refl)
    ]

    endpoint_of-Judges : Judges (endpoint_of A served)
    unfolding endpoint_of
    endpoint_of-Judges =
        if-Keeps (d.spec.dns.exposure == dns_exposure_gateway) (λ h. still-Keeps (λ w. ok _))
          (λ h.
            bind-Keeps (attempt-Keeps (still-Keeps (λ w. A.get Kind.service _ w.cluster)))
              (λ svc. still-Keeps (λ w. ok (service_endpoint d.spec.dns.exposure svc))))

    refresh_status-Judges : Judges (refresh_status A served)
    unfolding refresh_status
    refresh_status-Judges =
        bind-Keeps (still-Keeps (λ w. A.get Kind.deployment _ w.cluster)) (λ dep.
          bind-Keeps endpoint_of-Judges (λ endpoint.
            then-Keeps (status_write-Judges _ (mirrored-Verdict dep endpoint))
              (still-Keeps (λ w. ok _))))

    converge-Judges : Judges (converge A served addrs)
    unfolding converge
    converge-Judges =
        bind-Keeps (write-Keeps (converge_config-Leaves A _ law.apart served addrs)) (λ hash.
          then-Keeps (write-Keeps (converge_children-Leaves A _ law.apart served hash))
            refresh_status-Judges)

  with_backends-IsJudged :
      (w : World A.State (Unit {0})) (r : Readiness (List (String × String)))
      → validate_dns_dist d ≡ ""
      → backends_ready v d ≡ r
      → tier_status_at A key w.cluster ≡ some d.status
      → IsJudged v d (tier_status_at A key (with_backends A d r w).1.cluster)
  unfolding with_backends
  with_backends-IsJudged w (failed e) valid found now = inl now
  with_backends-IsJudged w (not_ready reason msg) valid found now =
      (mark_not_ready-Judges reason msg valid found).kept w (inl now)
  with_backends-IsJudged w (ready addrs) valid found now =
      (converge-Judges addrs valid found).kept w (inl now)

  if-IsJudged :
      (w : World A.State (Unit {0})) (b : Bool)
      (m k : Action (World A.State (Unit {0})) ReconcileResult)
      → (b ≡ true → IsJudged v d (tier_status_at A key (m w).1.cluster))
      → (b ≡ false → IsJudged v d (tier_status_at A key (k w).1.cluster))
      → IsJudged v d (tier_status_at A key ((if b then m else k) w).1.cluster)
  if-IsJudged w true m k h q = h refl
  if-IsJudged w false m k h q = q refl

module _ (A : Kube) (key : NamespacedName) (law : IsTierStore A key) (d : DnsDist) where
  with_tier-IsJudged :
      (w : World A.State (Unit {0}))
      → tier_status_at A key w.cluster ≡ some d.status
      → IsJudged (view_of A w.cluster) d (tier_status_at A key (with_tier A (ok d) w).1.cluster)
  unfolding with_tier
  with_tier-IsJudged w now =
      let v = view_of A w.cluster in
      let msg = validate_dns_dist d in
      if-IsJudged A key law v d w d.meta.deleting _ _ (λ h. inl now)
        (λ alive.
          if-IsJudged A key law v d w (not (msg == "")) _ _
            (λ bad.
              (mark_failed-Judges A key law v d (λ e. ground (arith, eq_iff msg ""))).kept w
                (inl now))
            (λ good.
              with_backends-IsJudged A key law v d w (backends_ready v d)
                (ground (arith, eq_iff msg "")) refl now))

  -- Where the client stores tiers as `IsTierStore` says, a pass over a DNSDist leaves its status as it
  -- is, or writes one that says what the pass found: Failed with the message of the validation;
  -- Pending with the message about the backend that is not ready; or Ready, for this generation and
  -- without a message, where the spec is valid and every backend is ready.
  pub reconcile-IsJudged :
      (w : World A.State (Unit {0}))
      → A.get_tier key w.cluster ≡ ok d
      → IsJudged (view_of A w.cluster) d (tier_status_at A key (reconcile A key w).1.cluster)
  unfolding reconcile
  reconcile-IsJudged w found = rw found (with_tier-IsJudged w (ap tier_status_of found))
