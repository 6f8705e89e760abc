-- ===== src/Controller/Zones/Create/Outcome.antt =====
-- How the creation of a zone (`createZone` of internal/controller/zone_controller.go) can end.
use aether_powerdns.Prelude.{
  ◌<>◌, sym, ap, ◌∙◌, [], ◌∷◌, ◌==◌, ◌≡◌, ◌≢◌, refl, Result, ok, err, Error, eq_iff, bind_result,
  arith, Bool-cases, ne-of-eq_false, inl, inr,
}
use aether_powerdns.Api.Zones.{Zone, zone_kind_secondary}
use aether_powerdns.Pdns.Types.{PdnsZone, Transport}
use aether_powerdns.Pdns.Client.{Client, create_zone as post_zone, patch_rrsets, delete_zone}
use aether_powerdns.Controller.World.{World}
use aether_powerdns.Controller.World.Quiet.{
  IsQuiet, event-IsQuiet, return-IsQuiet, then-IsQuiet, fail-IsQuiet,
}
use aether_powerdns.Controller.Zones.Create.{
  want_kind, new_zone, seed_soa, announced, rolled_back, seeded, seed, create_zone,
}

module _ (T : Transport) (zone : Zone) (pc : Client) where
  -- The answer to the POST from a state of PowerDNS, and the state after it.
  abbrev pub posted : T.State → Result PdnsZone × T.State
  posted p = post_zone T pc (new_zone zone) p

  -- The answer to the PATCH of the SOA that follows, and the state after it.
  abbrev pub patched_soa : T.State → Result (Unit {0}) × T.State
  patched_soa p = patch_rrsets T pc zone.spec.zone_name (seed_soa zone ∷ []) (posted p).1

  -- The result `r` and the final state `q` of a creation that starts in `p`.
  pub data CreateOutcome (p : T.State) (r : Result PdnsZone) (q : T.State) : Type 0 where
    refused :
        (e : Error) → (posted p).0 ≡ err e → r ≡ err e → q ≡ (posted p).1 → CreateOutcome p r q
    unseeded :
        (z : PdnsZone)
        → (posted p).0 ≡ ok z
        → want_kind zone ≡ zone_kind_secondary
        → r ≡ ok z
        → q ≡ (posted p).1
        → CreateOutcome p r q
    with_soa :
        (z : PdnsZone)
        → (posted p).0 ≡ ok z
        → want_kind zone ≢ zone_kind_secondary
        → (patched_soa p).0 ≡ ok tt
        → r ≡ ok z
        → q ≡ (patched_soa p).1
        → CreateOutcome p r q
    compensated :
        (z : PdnsZone) (e e' : Error)
        → (posted p).0 ≡ ok z
        → want_kind zone ≢ zone_kind_secondary
        → (patched_soa p).0 ≡ err e
        → r ≡ err e'
        → e'.kind ≡ e.kind
        → q ≡ (delete_zone T pc zone.spec.zone_name (patched_soa p).1).1
        → CreateOutcome p r q

  module _ {S : Type 0} where
    announced-IsQuiet : (z : PdnsZone) → IsQuiet {S = S} (announced T zone z)
    unfolding announced
    announced-IsQuiet z = then-IsQuiet (event-IsQuiet _ _ _) (return-IsQuiet _)

    announced-result : (z : PdnsZone) (w : World S T.State) → (announced T zone z w).0 ≡ ok z
    unfolding announced
    announced-result z w = ground arith

    rolled_back-IsQuiet : (e : Error) (d : Result (Unit {0})) → IsQuiet {S = S} (rolled_back T e d)
    unfolding rolled_back
    rolled_back-IsQuiet e (err d) = then-IsQuiet (event-IsQuiet _ _ _) (fail-IsQuiet _)
    rolled_back-IsQuiet e (ok _) = fail-IsQuiet _

    rolled_back-result :
        (e : Error) (d : Result (Unit {0})) (w : World S T.State)
        → (e' : Error) × ((rolled_back T e d w).0 ≡ err e') × (e'.kind ≡ e.kind)
    unfolding rolled_back
    rolled_back-result e (err d) w =
        (record e { text = "seed SOA: " <> e.text }, ground arith, refl)
    rolled_back-result e (ok _) w = (_, refl, refl)

    seeded-outcome :
        (p : T.State) (z : PdnsZone) (r : Result (Unit {0})) (w : World S T.State)
        → (posted p).0 ≡ ok z
        → want_kind zone ≢ zone_kind_secondary
        → (patched_soa p).0 ≡ r
        → w.pdns ≡ (patched_soa p).1
        → CreateOutcome p (seeded T zone pc z r w).0 (seeded T zone pc z r w).1.pdns
    unfolding seeded
    seeded-outcome p z (err e) w created primary answered state =
        let d = delete_zone T pc zone.spec.zone_name w.pdns in
        let w' : World S T.State = record w { pdns = d.1 } in
        let (e', failed, kind) = rolled_back-result e d.0 w' in
        compensated z e e' created primary answered failed kind (
          (rolled_back-IsQuiet e d.0).same w'
          ∙ ap (λ q. (delete_zone T pc zone.spec.zone_name q).1) state)
    seeded-outcome p z (ok _) w created primary answered state =
        with_soa z created primary answered (announced-result z w)
          ((announced-IsQuiet z).same w ∙ state)

    seed-outcome :
        (p : T.State) (z : PdnsZone) (w : World S T.State)
        → (posted p).0 ≡ ok z
        → w.pdns ≡ (posted p).1
        → CreateOutcome p (seed T zone pc z w).0 (seed T zone pc z w).1.pdns
    unfolding seed
    seed-outcome p z w created state = elim (Bool-cases (want_kind zone == zone_kind_secondary)) [
      | inl secondary ↦ rw secondary (
          unseeded z created ((eq_iff _ _).0 secondary) (announced-result z w)
            ((announced-IsQuiet z).same w ∙ state))
      | inr primary ↦
          let r = patch_rrsets T pc zone.spec.zone_name (seed_soa zone ∷ []) w.pdns in
          let w' : World S T.State = record w { pdns = r.1 } in
          rw primary (
            seeded-outcome p z r.0 w' created (ne-of-eq_false _ _ primary)
              (ap (λ q. (patch_rrsets T pc zone.spec.zone_name (seed_soa zone ∷ []) q).0)
                (sym state))
              (ap (λ q. (patch_rrsets T pc zone.spec.zone_name (seed_soa zone ∷ []) q).1) state))
    ]

    after_post :
        (p : T.State) (r : Result PdnsZone) (w : World S T.State)
        → (posted p).0 ≡ r
        → w.pdns ≡ (posted p).1
        → CreateOutcome p
            (bind_result (r, w) (seed T zone pc)).0
            (bind_result (r, w) (seed T zone pc)).1.pdns
    after_post p (err e) w answered state = refused e answered refl state
    after_post p (ok z) w answered state = seed-outcome p z w answered state

    -- The creation of a zone ends in one of four ways. The POST fails, and so does the creation,
    -- with its error. Or the zone is Secondary, and the answer to the POST is the result. Or it
    -- is not, and the SOA was seeded. Or the PATCH of the SOA failed: then a DELETE of the zone
    -- is the last call, and the creation fails with an error of the kind of the PATCH's.
    pub create_zone-Outcome :
        (w : World S T.State)
        → CreateOutcome w.pdns (create_zone T zone pc w).0 (create_zone T zone pc w).1.pdns
    unfolding create_zone
    create_zone-Outcome w =
        let r = post_zone T pc (new_zone zone) w.pdns in
        let w' : World S T.State = record w { pdns = r.1 } in after_post w.pdns r.0 w' refl refl
