-- ===== src/Controller/Zones/Reconcile/Adoption.antt =====
-- The pass over a zone that PowerDNS has already (internal/controller/zone_controller.go).
use aether_powerdns.Prelude.{
  String, false, List, ◌≡◌, ◌≢◌, ◌⊎◌, ◌↔◌, eq_false-of-ne, sym, ap, ◌∙◌, eq_iff, Result, ok, err,
  any, items, text_lists_eq_iff, arith, Bool-cases, inl, inr,
}
use aether_powerdns.Api.Zones.{Zone, zone_kind_native}
use aether_powerdns.Pdns.Types.{Cryptokey, PdnsZone, Transport}
use aether_powerdns.Pdns.Client.{Client, get_zone, list_cryptokeys}
use aether_powerdns.Controller.World.{Cluster, World}
use aether_powerdns.Controller.World.Quiet.{IsQuiet, then-IsQuiet, return-IsQuiet, write-IsQuiet}
use aether_powerdns.Controller.Zones.Create.{want_kind}
use aether_powerdns.Controller.Zones.Dnssec.{ensure_dnssec}
use aether_powerdns.Controller.Zones.Dnssec.Settled.{ensure_dnssec_settled}
use aether_powerdns.Controller.Zones.Reconcile.{
  with_cond, mark_ready, secured, secure, drifted, registered, obtain, reconcile_zone,
}
use aether_powerdns.Controller.Zones.Reconcile.ZoneGates.{mark_not_ready-IsQuiet}

-- The kind of the zone's spec, and where that is left open the kind Native.
abbrev pub IsDeclaredKind : Zone → String → Type 0
IsDeclaredKind zone kind =
    ((zone.spec.kind ≢ "") × (kind ≡ zone.spec.kind))
    ⊎ ((zone.spec.kind ≡ "") × (kind ≡ zone_kind_native))

declared_kind : (zone : Zone) (kind : String) → IsDeclaredKind zone kind → kind ≡ want_kind zone
unfolding want_kind
declared_kind zone kind (inl (given, e)) = rw (eq_false-of-ne _ _ given) e
declared_kind zone kind (inr (open_kind, e)) = rw ((eq_iff _ _).1 open_kind) e

-- Kind or masters are corrected exactly where one of them is not as declared; masters that are
-- absent and an empty list count as the same.
drifted_iff :
    (zone : Zone) (pz : PdnsZone)
    → (drifted zone pz ≡ false)
      ↔ ((pz.kind ≡ want_kind zone) × (items pz.masters ≡ items zone.spec.masters))
unfolding drifted
drifted_iff zone pz = ground (
  arith,
  eq_iff pz.kind (want_kind zone),
  text_lists_eq_iff (items pz.masters) (items zone.spec.masters),
)

module _ (K : Cluster) (T : Transport) (zone : Zone) (pc : Client) where
  mark_ready-IsQuiet : (z : Zone) (pz : PdnsZone) → IsQuiet (mark_ready K T z pz)
  unfolding mark_ready
  mark_ready-IsQuiet z pz = then-IsQuiet (write-IsQuiet _) (return-IsQuiet _)

  secured-IsQuiet :
      (z : Zone) (pz : PdnsZone) (ds : Result (List String)) → IsQuiet (secured K T z pz ds)
  unfolding secured
  secured-IsQuiet z pz (err e) = mark_not_ready-IsQuiet K T _ _ _ _
  secured-IsQuiet z pz (ok ds) = elim (Bool-cases z.spec.dnssec.enabled) [
    | inl on ↦ rw on (mark_ready-IsQuiet _ pz)
    | inr off ↦ rw off (mark_ready-IsQuiet _ pz)
  ]

  secure_settled :
      (z : Zone) (pz : PdnsZone) (ks : List Cryptokey) (w : World K.State T.State)
      → list_cryptokeys T pc z.spec.zone_name w.pdns ≡ (ok ks, w.pdns)
      → any (λ k. k.active) ks ≡ z.spec.dnssec.enabled
      → (secure K T z pc pz w).1.pdns ≡ w.pdns
  unfolding secure
  secure_settled z pz ks w listed enabled =
      (secured-IsQuiet z pz _).same _
      ∙ (ap (λ b. (ensure_dnssec T pc z.spec.zone_name b w.pdns).1) (sym enabled)
          ∙ ensure_dnssec_settled T pc z.spec.zone_name ks w.pdns listed)

  registered_settled :
      (w : World K.State T.State) (pz : PdnsZone) (ks : List Cryptokey)
      → drifted zone pz ≡ false
      → list_cryptokeys T pc zone.spec.zone_name w.pdns ≡ (ok ks, w.pdns)
      → any (λ k. k.active) ks ≡ zone.spec.dnssec.enabled
      → (registered K T zone pc (ok pz) w).1.pdns ≡ w.pdns
  unfolding registered drifted with_cond want_kind
  registered_settled w pz ks same listed enabled = rw same (secure_settled _ pz ks w listed enabled)

  -- A pass over a zone that is as declared changes nothing in PowerDNS: its kind is the declared
  -- one, its masters are the declared ones in their order, where absent masters and an empty list
  -- are the same, and it has an active key exactly if DNSSEC is enabled. Reading the zone and its
  -- keys is to change nothing itself.
  pub reconcile_zone_settled :
      (w : World K.State T.State) (pz : PdnsZone) (ks : List Cryptokey)
      → get_zone T pc zone.spec.zone_name w.pdns ≡ (ok pz, w.pdns)
      → IsDeclaredKind zone pz.kind
      → items pz.masters ≡ items zone.spec.masters
      → list_cryptokeys T pc zone.spec.zone_name w.pdns ≡ (ok ks, w.pdns)
      → any (λ k. k.active) ks ≡ zone.spec.dnssec.enabled
      → (reconcile_zone K T zone pc w).1.pdns ≡ w.pdns
  unfolding reconcile_zone obtain
  reconcile_zone_settled w pz ks found kind masters listed enabled = rw found (
      registered_settled w pz ks
        ((drifted_iff zone pz).1 (declared_kind zone pz.kind kind, masters)) listed enabled)
