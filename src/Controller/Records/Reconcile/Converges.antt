-- ===== src/Controller/Records/Reconcile/Converges.antt =====
-- A pass that reports success, and the next one (internal/controller/rrset_controller.go).
use aether_powerdns.Prelude.{
  String, List, [], ◌∷◌, ◌≡◌, ◌≢◌, ◌⊎◌, All, subst, false, refl, ◌∙◌, ap, some, inl, inr, Result,
  ok, err, arith, Bool-cases, return, bind_result,
}
use aether_powerdns.Api.Server.{PowerDnsServer}
use aether_powerdns.Api.Zones.{RrSet, Zone}
use aether_powerdns.Pdns.Types.{PdnsRecord, PdnsRrSet, PdnsZone, Transport}
use aether_powerdns.Pdns.Client.{Client, get_zone, patch_rrsets}
use aether_powerdns.Controller.World.{Cluster, World}
use aether_powerdns.Controller.World.Quiet.{
  IsQuiet, then-IsQuiet, return-IsQuiet, write-IsQuiet, event-IsQuiet,
}
use aether_powerdns.Controller.Common.{requeue_in, requeue_long, resync_interval}
use aether_powerdns.Controller.Access.{pdns_client_for}
use aether_powerdns.Controller.Records.Match.{records_of, desired_rrset, rrset_matches}
use aether_powerdns.Controller.Records.Match.Spec.{first_rrset, Matches, rrset_matches_iff}
use aether_powerdns.Controller.Records.Reconcile.{
  mark_not_ready, mark_applied, api_failed, patched, converge, with_client, apply,
}
use aether_powerdns.Controller.Records.Reconcile.Gates.{mark_not_ready-IsQuiet}

-- The zone has a record set of the desired name, type, TTL and contents.
abbrev pub ZoneMatches : PdnsZone → PdnsRrSet → Type 0
ZoneMatches pz desired =
    (got : PdnsRrSet) × (first_rrset pz desired.name desired.type ≡ some got) × Matches got desired

-- No record is disabled; PowerDNS leaves a disabled one out of its answers to queries.
abbrev pub AreEnabled : List PdnsRecord → Type 0
AreEnabled records = All (λ r. r.disabled ≡ false) records

-- The zone has a record set of the desired name, type, TTL and contents, of which no record is
-- disabled, or else the condition holds.
abbrev pub ZoneServesUnless : PdnsZone → PdnsRrSet → Type 0 → Type 0
ZoneServesUnless pz desired C =
    (got : PdnsRrSet) × (first_rrset pz desired.name desired.type ≡ some got)
    × Matches got desired
    × (AreEnabled got.records ⊎ C)

-- What the PowerDNS API documents of the two calls, for one zone and one record set that is
-- written in the form in which PowerDNS reports it: a GET changes nothing, and after a PATCH
-- that succeeded the zone is found and serves the record set, enabled where that one is.
pub record KeepsRrSet (T : Transport) (c : Client) (zone : String) (set : PdnsRrSet) : Type 0 where
  pub get_changes_nothing : (p : T.State) → (get_zone T c zone p).1 ≡ p
  pub patch_takes_effect :
      (p : T.State)
      → (patch_rrsets T c zone (set ∷ []) p).0 ≡ ok tt
      → (pz : PdnsZone) × ((get_zone T c zone (patch_rrsets T c zone (set ∷ []) p).1).0 ≡ ok pz)
        × ZoneServesUnless pz set (¬ AreEnabled set.records)

bind_result-delay :
    {W : Type 0} (x : Result (Unit {0}) × W)
    → (bind_result x (λ _. return (requeue_in requeue_long))).0 ≢ ok (requeue_in resync_interval)
bind_result-delay (ok _, w) h = ground arith
bind_result-delay (err e, w) h = cc

enabled_records : (cs : List String) → AreEnabled (records_of cs)
unfolding records_of
enabled_records [] = tt
enabled_records (c ∷ cs) = (refl, enabled_records cs)

desired-AreEnabled : (rr : RrSet) → AreEnabled (desired_rrset rr).records
unfolding desired_rrset
desired-AreEnabled rr = enabled_records rr.spec.records

resolved : {A B C : Type 0} → A ⊎ (¬ B) → B → A ⊎ C
resolved (inl a) b = inl a
resolved (inr not_b) b = absurd (not_b b)

module _ (K : Cluster) (T : Transport) (rr : RrSet) where
  -- What PowerDNS answers for the zone has the record set.
  abbrev pub Matched : Client → Zone → T.State → Type 0
  Matched pc zone p =
      (pz : PdnsZone) × ((get_zone T pc zone.spec.zone_name p).0 ≡ ok pz)
      × ZoneMatches pz (desired_rrset rr)

  -- It has, and no record of the set is disabled or PowerDNS is in the state `before`.
  abbrev pub ServedSince : Client → Zone → T.State → T.State → Type 0
  ServedSince pc zone before p =
      (pz : PdnsZone) × ((get_zone T pc zone.spec.zone_name p).0 ≡ ok pz)
      × ZoneServesUnless pz (desired_rrset rr) (p ≡ before)

  mark_not_ready-result :
      (reason msg : String) (w : World K.State T.State)
      → (mark_not_ready K T rr reason msg requeue_long w).0 ≢ ok (requeue_in resync_interval)
  unfolding mark_not_ready
  mark_not_ready-result reason msg w h = bind_result-delay _ h

  mark_applied-IsQuiet : IsQuiet (mark_applied K T rr)
  unfolding mark_applied
  mark_applied-IsQuiet = then-IsQuiet (write-IsQuiet _) (return-IsQuiet _)

  patched-IsQuiet : (r : Result (Unit {0})) → IsQuiet (patched K T rr r)
  unfolding patched api_failed
  patched-IsQuiet (err e) = mark_not_ready-IsQuiet K T rr _ _ _
  patched-IsQuiet (ok _) = then-IsQuiet (event-IsQuiet _ _ _) mark_applied-IsQuiet

  patched-ok :
      (r : Result (Unit {0})) (w : World K.State T.State)
      → (patched K T rr r w).0 ≡ ok (requeue_in resync_interval)
      → r ≡ ok tt
  unfolding patched api_failed
  patched-ok (err e) w h = absurd (mark_not_ready-result _ _ w h)
  patched-ok (ok _) w h = refl

  module _ (zone : Zone) (pc : Client)
      (law : KeepsRrSet T pc zone.spec.zone_name (desired_rrset rr)) where
    patched-ServedSince :
        (w : World K.State T.State) (before : T.State)
        → (patch_rrsets T pc zone.spec.zone_name (desired_rrset rr ∷ []) w.pdns).0 ≡ ok tt
        → ServedSince pc zone before
            (patch_rrsets T pc zone.spec.zone_name (desired_rrset rr ∷ []) w.pdns).1
    patched-ServedSince w before took =
        let (pz, found, (got, first, serves, enabled)) = law.patch_takes_effect w.pdns took in
        (pz, found, (got, first, serves, resolved enabled (desired-AreEnabled rr)))

    converge-ServedSince :
        (found : Result PdnsZone) (w : World K.State T.State)
        → (get_zone T pc zone.spec.zone_name w.pdns).0 ≡ found
        → (converge K T rr zone pc found w).0 ≡ ok (requeue_in resync_interval)
        → ServedSince pc zone w.pdns (converge K T rr zone pc found w).1.pdns
    unfolding converge api_failed
    converge-ServedSince (err e) w got h = absurd (mark_not_ready-result _ _ w h)
    converge-ServedSince (ok pz) w got h = elim (Bool-cases (rrset_matches pz (desired_rrset rr))) [
      | inl same ↦
          let (set, first, serves) = (rrset_matches_iff pz (desired_rrset rr)).0 same in
          rw same (rw (mark_applied-IsQuiet.same w) (pz, got, (set, first, serves, inr refl)))
      | inr differs ↦
          let r = (patch_rrsets T pc zone.spec.zone_name (desired_rrset rr ∷ []) w.pdns).0 in
          let p = (patch_rrsets T pc zone.spec.zone_name (desired_rrset rr ∷ []) w.pdns).1 in
          let w' : World K.State T.State = record w { pdns = p } in
          rw differs (
            rw ((patched-IsQuiet r).same w')
              (patched-ServedSince w w.pdns (patched-ok r w' (rw differs at h))))
    ]

    with_client-ServedSince :
        (w : World K.State T.State)
        → (with_client K T rr zone (ok pc) w).0 ≡ ok (requeue_in resync_interval)
        → ServedSince pc zone w.pdns (with_client K T rr zone (ok pc) w).1.pdns
    unfolding with_client
    with_client-ServedSince w h =
        let w' : World K.State T.State = record w {
          pdns = (get_zone T pc zone.spec.zone_name w.pdns).1;
        } in
        let still = law.get_changes_nothing w.pdns in
        subst
          (λ before.
            ServedSince pc zone before
              (converge K T rr zone pc (get_zone T pc zone.spec.zone_name w.pdns).0 w').1.pdns)
          still
          (converge-ServedSince _ w' (ap (λ p. (get_zone T pc zone.spec.zone_name p).0) still) h)

  module _ (zone : Zone) (pc : Client)
      (get_changes_nothing : (p : T.State) → (get_zone T pc zone.spec.zone_name p).1 ≡ p) where
    converge_settled :
        (pz : PdnsZone) (w : World K.State T.State)
        → ZoneMatches pz (desired_rrset rr)
        → (converge K T rr zone pc (ok pz) w).1.pdns ≡ w.pdns
    unfolding converge
    converge_settled pz w served =
        rw ((rrset_matches_iff pz (desired_rrset rr)).1 served) (mark_applied-IsQuiet.same w)

    with_client_settled :
        (w : World K.State T.State)
        → Matched pc zone w.pdns
        → (with_client K T rr zone (ok pc) w).1.pdns ≡ w.pdns
    unfolding with_client
    with_client_settled w (pz, got, served) =
        let w' : World K.State T.State = record w {
          pdns = (get_zone T pc zone.spec.zone_name w.pdns).1;
        } in
        rw got (converge_settled pz w' served ∙ get_changes_nothing w.pdns)

  module _ (zone : Zone) (server : PowerDnsServer) (pc : Client) where
    -- Where the API is reached through `pc`, which keeps what PowerDNS documents of GET and PATCH
    -- for the zone and the desired record set: after a pass that reports the record set applied (its
    -- next pass is a resync) PowerDNS has it, with the desired TTL and contents; and no record of
    -- it is disabled, unless the pass left PowerDNS as it was.
    pub applied-ServedSince :
        KeepsRrSet T pc zone.spec.zone_name (desired_rrset rr)
        → (w : World K.State T.State) → pdns_client_for K server w ≡ (ok pc, w)
        → (apply K T rr zone server w).0 ≡ ok (requeue_in resync_interval)
        → ServedSince pc zone w.pdns (apply K T rr zone server w).1.pdns
    unfolding apply
    applied-ServedSince law w reached = rw reached (with_client-ServedSince zone pc law w)

    -- Where the API is reached through `pc`, whose GET changes nothing, and PowerDNS has the
    -- desired record set already, with its TTL and contents: a pass changes nothing in PowerDNS, so
    -- the serial of the zone does not move.
    pub apply_settled :
        ((p : T.State) → (get_zone T pc zone.spec.zone_name p).1 ≡ p)
        → (w : World K.State T.State) → pdns_client_for K server w ≡ (ok pc, w)
        → Matched pc zone w.pdns
        → (apply K T rr zone server w).1.pdns ≡ w.pdns
    unfolding apply
    apply_settled law w reached = rw reached (with_client_settled zone pc law w)
