-- ===== src/Controller/Zones/Dnssec/Settled.antt =====
-- `ensureDNSSEC` of internal/controller/zone_controller.go over keys that are as wanted.
use aether_powerdns.Prelude.{
  String, List, [], ◌∷◌, false, ◌≡◌, refl, ok, any, arith, Bool-cases, inl, inr,
}
use aether_powerdns.Pdns.Types.{Cryptokey, Transport}
use aether_powerdns.Pdns.Client.{Client, list_cryptokeys}
use aether_powerdns.Controller.Zones.Dnssec.{deactivate, with_keys, ensure_dnssec}

module _ (T : Transport) (pc : Client) (zone : String) where
  deactivate_inactive :
      (ks : List Cryptokey) (p : T.State)
      → any (λ k. k.active) ks ≡ false
      → deactivate T pc zone ks p ≡ (ok tt, p)
  unfolding deactivate
  deactivate_inactive [] p h = refl
  deactivate_inactive (k ∷ ks) p h = elim (Bool-cases k.active) [
    | inl on ↦ ground arith
    | inr off ↦ rw off (deactivate_inactive ks p (rw off at h))
  ]

  -- Keys that are as wanted are only listed.
  pub ensure_dnssec_settled :
      (ks : List Cryptokey) (p : T.State)
      → list_cryptokeys T pc zone p ≡ (ok ks, p)
      → (ensure_dnssec T pc zone (any (λ k. k.active) ks) p).1 ≡ p
  unfolding ensure_dnssec with_keys
  ensure_dnssec_settled ks p listed = elim (Bool-cases (any (λ k. k.active) ks)) [
    | inl on ↦ rw (listed, on) refl
    | inr off ↦ rw (listed, off, deactivate_inactive ks p off) refl
  ]
