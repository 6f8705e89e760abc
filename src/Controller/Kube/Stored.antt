-- ===== src/Controller/Kube/Stored.antt =====
-- The client of ConfigMaps that internal/controller passes to `updateConfigMap`, with `ensureOwned`
-- for the creation, and the laws of Controller/Objects/Contents.
use aether_powerdns.Prelude.{
  true, ◌≡◌, refl, sym, ap, Result, ok, err, Error, api_not_found, is_kind, Action, err-ne-ok,
}
use aether_powerdns.Manifests.Pods.{ConfigMap}
use aether_powerdns.Controller.Kube.{Kind, key_of, Owner, Kube}
use aether_powerdns.Controller.Kube.Children.{
  create_absent, ensure_owned, entries_of, replace_entries, config_map_at,
}
use aether_powerdns.Controller.Objects.Contents.{StoresConfigMaps}

-- What the cluster documents of the ConfigMap at a key: a read is of that object, a write that
-- succeeds is read back, where a creation is of an object that was not there; an owner reference
-- changes neither key nor data; and a retry that succeeds ends with a run that succeeded.
pub record StoresConfigMap (A : Kube) (owner : Owner) (desired : ConfigMap) : Type 0 where
  pub owned :
      (o : ConfigMap)
      → A.own Kind.config_map owner desired ≡ ok o
      → (key_of Kind.config_map o ≡ key_of Kind.config_map desired) × (o.entries ≡ desired.entries)
  pub read :
      (o : ConfigMap) (c : A.State)
      → A.get Kind.config_map (key_of Kind.config_map desired) c ≡ ok o
      → key_of Kind.config_map o ≡ key_of Kind.config_map desired
  pub created :
      (o : ConfigMap) (c : A.State) (x : Error)
      → key_of Kind.config_map o ≡ key_of Kind.config_map desired
      → A.get Kind.config_map (key_of Kind.config_map desired) c ≡ err x
      → is_kind api_not_found x.kind ≡ true
      → (A.create Kind.config_map o c).0 ≡ ok tt
      → A.get Kind.config_map (key_of Kind.config_map desired) (A.create Kind.config_map o c).1
        ≡ ok o
  pub updated :
      (o : ConfigMap) (c : A.State)
      → key_of Kind.config_map o ≡ key_of Kind.config_map desired
      → (A.update Kind.config_map o c).0 ≡ ok tt
      → A.get Kind.config_map (key_of Kind.config_map desired) (A.update Kind.config_map o c).1
        ≡ ok o
  pub retried :
      (a : Action A.State (Unit {0})) (c : A.State)
      → (A.retry a c).0 ≡ ok tt
      → (d : A.State) × a d ≡ A.retry a c

module _ (A : Kube) (owner : Owner) (desired : ConfigMap)
    (law : StoresConfigMap A owner desired) where
  absent_read : (r : Result ConfigMap) (x : Error) → entries_of A r ≡ err x → r ≡ err x
  unfolding entries_of
  absent_read (ok cm) x e = absurd (err-ne-ok (sym e))
  absent_read (err y) x e = cc

  ensured :
      (r : Result ConfigMap) (s : A.State) (x : Error)
      → A.own Kind.config_map owner desired ≡ r
      → A.get Kind.config_map (key_of Kind.config_map desired) s ≡ err x
      → is_kind api_not_found x.kind ≡ true
      → (ensure_owned A Kind.config_map owner desired s).0 ≡ ok tt
      → entries_of A (
          A.get Kind.config_map
            (key_of Kind.config_map desired)
            (ensure_owned A Kind.config_map owner desired s).1)
        ≡ ok desired.entries
  unfolding ensure_owned create_absent entries_of
  ensured (err y) s x own absent missing h = absurd (err-ne-ok (rw own at h))
  ensured (ok o) s x own absent missing h =
      let (at_key, entries) = law.owned o own in
      rw (own, at_key, absent, missing)
        (rw (law.created o s x at_key absent missing (rw (own, at_key, absent, missing) at h))
          (ap ok entries))

  replaced_entries :
      (r : Result ConfigMap) (s : A.State)
      → A.get Kind.config_map (key_of Kind.config_map desired) s ≡ r
      → (replace_entries A desired.entries r s).0 ≡ ok tt
      → entries_of A (
          A.get Kind.config_map
            (key_of Kind.config_map desired)
            (replace_entries A desired.entries r s).1)
        ≡ ok desired.entries
  unfolding replace_entries entries_of
  replaced_entries (err y) s got h = absurd (err-ne-ok h)
  replaced_entries (ok cm) s got h =
      rw (law.updated (record cm { entries = desired.entries }) s (law.read cm s got) h) refl

  -- The client that `updateConfigMap` is given stores ConfigMaps as `updateConfigMap` relies on.
  pub config_map_at-StoresConfigMaps :
      StoresConfigMaps (config_map_at A owner desired) desired.entries
  config_map_at-StoresConfigMaps = record {
    created = λ s x absent missing h.
        ensured (A.own Kind.config_map owner desired) s x refl (absent_read _ x absent) missing h;
    updated = λ s h. replaced_entries _ s refl h;
    retried = law.retried;
  }
