-- ===== src/Controller/Zones/Dnssec/Signing.antt =====
-- What `ensureDNSSEC` of internal/controller/zone_controller.go makes of the keys of a zone.
use mathlib.Core.List.{cons≢nil, head-eq_of_cons-eq}
use aether_powerdns.Prelude.{
  String, true, false, List, [], ◌∷◌, ◌++◌, map, ◌≡◌, refl, sym, ap, ◌∙◌, any, nat_eq, ok, ok_inj,
  bind_result-ok, ◌>>=◌, ◌>>◌, return, if◌then◌else◌, Bool-cases, inl, inr,
}
use aether_powerdns.Pdns.Types.{Cryptokey, Transport}
use aether_powerdns.Pdns.Client.{
  Client, list_cryptokeys, create_cryptokey, update_cryptokey, rectify_zone,
}
use aether_powerdns.Controller.Zones.Dnssec.{
  ds_of, new_key, deactivate, activate, sign, with_keys, ensure_dnssec,
}
use aether_powerdns.Controller.Zones.Dnssec.Keys.{
  turned, set_active, silence, silence_self, none_active, only_key_ds,
}

-- What the PowerDNS API documents of the keys of a zone: they are listed as they are, an update
-- that succeeds sets whether the key with that id is active, a creation that succeeds appends a
-- key that is as active as asked, and rectifying leaves the keys alone.
pub record KeepsKeys (T : Transport) (c : Client) (zone : String) : Type 0 where
  pub keys : T.State → List Cryptokey
  pub list_answers :
      (p : T.State) (ks : List Cryptokey)
      → (list_cryptokeys T c zone p).0 ≡ ok ks
      → (ks ≡ keys p) × (keys (list_cryptokeys T c zone p).1 ≡ keys p)
  pub update_sets :
      (k : Cryptokey) (p : T.State)
      → (update_cryptokey T c zone k p).0 ≡ ok tt
      → keys (update_cryptokey T c zone k p).1 ≡ set_active k.id k.active (keys p)
  pub create_appends :
      (k made : Cryptokey) (p : T.State)
      → (create_cryptokey T c zone k p).0 ≡ ok made
      → (made.active ≡ k.active) × (keys (create_cryptokey T c zone k p).1 ≡ keys p ++ made ∷ [])
  pub rectify_keeps : (p : T.State) → keys (rectify_zone T c zone p).1 ≡ keys p

module _ (T : Transport) (pc : Client) (zone : String) (law : KeepsKeys T pc zone) where
  deactivate-silence :
      (ks : List Cryptokey) (p : T.State)
      → (deactivate T pc zone ks p).0 ≡ ok tt
      → law.keys (deactivate T pc zone ks p).1 ≡ silence ks (law.keys p)
  unfolding deactivate silence
  deactivate-silence [] p h = refl
  deactivate-silence (k ∷ ks) p h = elim (Bool-cases k.active) [
    | inl on ↦
        let (u, updated, run) =
          bind_result-ok (update_cryptokey T pc zone (record k { active = false }) p)
            (λ _. deactivate T pc zone ks) tt (rw on at h) in
        rw (on, run)
          (deactivate-silence ks _ (rw (on, run) at h)
            ∙ ap (silence ks) (law.update_sets (record k { active = false }) p updated))
    | inr off ↦ rw off (deactivate-silence ks p (rw off at h))
  ]

  -- The keys after a pass that signs.
  pub data Activated (before now : List Cryptokey) : Type 0 where
    created :
        (made : Cryptokey)
        → before ≡ []
        → made.active ≡ true
        → now ≡ made ∷ []
        → Activated before now
    reused :
        (k : Cryptokey) (ks : List Cryptokey)
        → before ≡ k ∷ ks
        → now ≡ set_active k.id true (k ∷ ks)
        → Activated before now

  activate-Activated :
      (ks : List Cryptokey) (p : T.State)
      → law.keys p ≡ ks
      → (activate T pc zone ks p).0 ≡ ok tt
      → Activated ks (law.keys (activate T pc zone ks p).1)
  unfolding activate
  activate-Activated [] p e h =
      let (made, done, run) =
        bind_result-ok (create_cryptokey T pc zone new_key p) (λ _. return tt) tt h in
      let (on, appended) = law.create_appends new_key made p done in
      rw run (created made refl on (appended ∙ ap (λ l. l ++ made ∷ []) e))
  activate-Activated (k ∷ ks) p e h =
      reused k ks refl
        (law.update_sets (record k { active = true }) p h ∙ ap (set_active k.id true) e)

  sign-Activated :
      (ks : List Cryptokey) (p : T.State) (ds : List String)
      → law.keys p ≡ ks
      → (sign T pc zone ks p).0 ≡ ok ds
      → Activated ks (law.keys (sign T pc zone ks p).1)
        × (ds ≡ ds_of (law.keys (sign T pc zone ks p).1))
  unfolding sign
  sign-Activated ks p ds e h =
      let (_, activated, run) =
        bind_result-ok (activate T pc zone ks p)
          (λ _.
            rectify_zone T pc zone >> (list_cryptokeys T pc zone >>= (λ now. return (ds_of now))))
          ds h in
      let p1 = (activate T pc zone ks p).1 in
      let (_, rectified, run1) =
        bind_result-ok (rectify_zone T pc zone p1)
          (λ _. list_cryptokeys T pc zone >>= (λ now. return (ds_of now))) ds (rw run at h) in
      let p2 = (rectify_zone T pc zone p1).1 in
      let (now, listed, run2) =
        bind_result-ok (list_cryptokeys T pc zone p2) (λ now. return (ds_of now)) ds
          (rw (run, run1) at h) in
      let (same, kept) = law.list_answers p2 now listed in
      let answered : ok (ds_of now) ≡ ok ds = rw (run, run1, run2) at h in
      let after = kept ∙ law.rectify_keeps p1 in
      rw (run, run1, run2, after)
        (
          activate-Activated ks p e activated,
          sym (ok_inj answered) ∙ ap ds_of (same ∙ law.rectify_keeps p1),
        )

  -- The zone's key state after a pass that is to sign: untouched if a key was active, and else
  -- with one key activated or made.
  abbrev pub KeyState : List Cryptokey → List Cryptokey → Type 0
  KeyState before now = if any (λ k. k.active) before then now ≡ before else Activated before now

  -- A pass over a zone that is not to be signed, where it succeeds: it reports no DS record, and
  -- every key is inactive afterwards and otherwise as it was; none is deleted.
  pub ensure_dnssec_disabled :
      (p : T.State) (ds : List String)
      → (ensure_dnssec T pc zone false p).0 ≡ ok ds
      → (ds ≡ []) × (law.keys (ensure_dnssec T pc zone false p).1 ≡ map (turned false) (law.keys p))
  unfolding ensure_dnssec
  ensure_dnssec_disabled p ds h =
      let (ks, listed, run) =
        bind_result-ok (list_cryptokeys T pc zone p) (with_keys T pc zone false) ds h in
      let (same, kept) = law.list_answers p ks listed in
      let p1 = (list_cryptokeys T pc zone p).1 in
      let (_, silenced, run1) =
        bind_result-ok (deactivate T pc zone ks p1) (λ _. return []) ds (rw run at h) in
      let nothing : List String = [] in
      let answered : ok nothing ≡ ok ds = rw (run, run1) at h in
      rw (run, run1)
        (
          sym (ok_inj answered),
          deactivate-silence ks p1 silenced
              ∙ (ap (silence ks) (kept ∙ sym same)
                  ∙ (silence_self ks ∙ ap (map (turned false)) same)),
        )

  with_keys-enabled :
      (ks : List Cryptokey) (p : T.State) (ds : List String)
      → law.keys p ≡ ks
      → (with_keys T pc zone true ks p).0 ≡ ok ds
      → KeyState ks (law.keys (with_keys T pc zone true ks p).1)
        × (ds ≡ ds_of (law.keys (with_keys T pc zone true ks p).1))
  unfolding with_keys
  with_keys-enabled ks p ds e h = elim (Bool-cases (any (λ k. k.active) ks)) [
    | inl on ↦
        let answered : ok (ds_of ks) ≡ ok ds = rw on at h in
        rw on (e, sym (ok_inj answered) ∙ ap ds_of (sym e))
    | inr off ↦ rw off (sign-Activated ks p ds e (rw off at h))
  ]

  -- A pass over a zone that is to be signed, where it succeeds: it reports the DS records of the
  -- keys that are active afterwards. If a key was active, the keys are as before; if there were
  -- keys and none was active, the first was activated; if there was none, one was made, active.
  pub ensure_dnssec_enabled :
      (p : T.State) (ds : List String)
      → (ensure_dnssec T pc zone true p).0 ≡ ok ds
      → KeyState (law.keys p) (law.keys (ensure_dnssec T pc zone true p).1)
        × (ds ≡ ds_of (law.keys (ensure_dnssec T pc zone true p).1))
  unfolding ensure_dnssec
  ensure_dnssec_enabled p ds h =
      let (ks, listed, run) =
        bind_result-ok (list_cryptokeys T pc zone p) (with_keys T pc zone true) ds h in
      let (same, kept) = law.list_answers p ks listed in
      let p1 = (list_cryptokeys T pc zone p).1 in
      let (state, reported) = with_keys-enabled ks p1 ds (kept ∙ sym same) (rw run at h) in
      rw (run, sym same) (state, reported)

  reused_ds :
      (k : Cryptokey) (ks before now : List Cryptokey)
      → any (λ j. nat_eq j.id k.id) ks ≡ false
      → before ≡ map (turned false) (k ∷ ks)
      → KeyState before now
      → ds_of now ≡ k.ds
  reused_ds k ks before now alone off state = first (rw (off, none_active ks) at state)
    where
      first : Activated (map (turned false) (k ∷ ks)) now → ds_of now ≡ k.ds
      first (created made e on same) = absurd (cons≢nil e)
      first (reused j js e same) =
          let keys : List Cryptokey = map (turned false) (k ∷ ks) in
          ap ds_of (
            same
            ∙ (ap (set_active j.id true) (sym e)
                ∙ ap (λ (x : Cryptokey). set_active x.id true keys) (sym (head-eq_of_cons-eq e))))
          ∙ only_key_ds k ks alone

  -- A zone whose signing is switched off and then on again, in passes that succeed, publishes
  -- the DS records of its first key: those lodged at the registrar stay valid. The first key is
  -- to be the only one with its id.
  pub reenabled_ds :
      (p : T.State) (k : Cryptokey) (ks : List Cryptokey) (off on : List String)
      → law.keys p ≡ k ∷ ks
      → any (λ j. nat_eq j.id k.id) ks ≡ false
      → (ensure_dnssec T pc zone false p).0 ≡ ok off
      → (ensure_dnssec T pc zone true (ensure_dnssec T pc zone false p).1).0 ≡ ok on
      → on ≡ k.ds
  reenabled_ds p k ks off on e alone disabled enabled =
      let p1 = (ensure_dnssec T pc zone false p).1 in
      let (_, silent) = ensure_dnssec_disabled p off disabled in
      let (state, reported) = ensure_dnssec_enabled p1 on enabled in
      reported ∙ reused_ds k ks (law.keys p1) _ alone (silent ∙ ap (map (turned false)) e) state
