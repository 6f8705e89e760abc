-- ===== src/Controller/Objects/Contents.antt =====
-- What `updateConfigMap` of internal/controller/converge.go leaves in the cluster.
use aether_powerdns.Prelude.{
  String, true, List, ◌≡◌, refl, sym, inl, inr, Result, ok, err, Error, api_not_found, is_kind,
  Action, Bool-cases, err-ne-ok,
}
use aether_powerdns.Controller.Services.{same_map}
use aether_powerdns.Controller.Services.Annotations.{same_map-of-lookup}
use aether_powerdns.Controller.Objects.{
  ConfigMapApi, replace_found, replace_data, with_config_map, update_config_map,
}

-- The ConfigMap is there, and its data is the desired one.
pub record IsStored (A : ConfigMapApi) (desired : List (String × String)) (s : A.State)
    : Type 0 where
  pub live : List (String × String)
  pub answer : A.get s ≡ ok live
  pub same : same_map live desired ≡ true

-- What the cluster and client-go document: a ConfigMap that is not there and is created, or that is
-- updated, is read back as it was written, and a retry that succeeds ends with a run of its
-- function that succeeded. Of a create where there is a ConfigMap nothing is said: the function
-- that the callers pass for it, `ensureOwned`, leaves that one as it is.
pub record StoresConfigMaps (A : ConfigMapApi) (desired : List (String × String)) : Type 0 where
  pub created :
      (s : A.State) (x : Error)
      → A.get s ≡ err x
      → is_kind api_not_found x.kind ≡ true
      → (A.create s).0 ≡ ok tt
      → A.get (A.create s).1 ≡ ok desired
  pub updated :
      (s : A.State) → (A.update desired s).0 ≡ ok tt → A.get (A.update desired s).1 ≡ ok desired
  pub retried :
      (a : Action A.State (Unit {0})) (s : A.State)
      → (A.retry a s).0 ≡ ok tt
      → (t : A.State) × a t ≡ A.retry a s

module _ (A : ConfigMapApi) (desired : List (String × String)) where
  written : (s : A.State) → A.get s ≡ ok desired → IsStored A desired s
  written s e = record {
    live = desired;
    answer = e;
    same = same_map-of-lookup desired desired (λ k. refl);
  }

  replaced :
      (law : StoresConfigMaps A desired) (s : A.State) (r : Result (List (String × String)))
      → (replace_found A desired r s).0 ≡ ok tt
      → A.get (replace_found A desired r s).1 ≡ ok desired
  unfolding replace_found
  replaced law s (err x) h = absurd (err-ne-ok h)
  replaced law s (ok live) h = law.updated s h

  retried-IsStored :
      (law : StoresConfigMaps A desired) (s : A.State)
      → (A.retry (replace_data A desired) s).0 ≡ ok tt
      → IsStored A desired (A.retry (replace_data A desired) s).1
  unfolding replace_data
  retried-IsStored law s h =
      let (t, run) = law.retried (replace_data A desired) s h in
      written (A.retry (replace_data A desired) s).1
        (rw (sym run) (replaced law t (A.get t) (rw (sym run) at h)))

  with_config_map-IsStored :
      (law : StoresConfigMaps A desired) (s : A.State) (r : Result (List (String × String)))
      → A.get s ≡ r
      → (with_config_map A desired r s).0 ≡ ok tt
      → IsStored A desired (with_config_map A desired r s).1
  unfolding with_config_map
  with_config_map-IsStored law s (err x) e h = elim (Bool-cases (is_kind api_not_found x.kind)) [
    | inl missing ↦
        rw missing (written (A.create s).1 (law.created s x e missing (rw missing at h)))
    | inr other_error ↦ absurd (err-ne-ok (rw other_error at h))
  ]
  with_config_map-IsStored law s (ok live) e h = elim (Bool-cases (same_map live desired)) [
    | inl same ↦ rw same (record { live = live; answer = e; same = same })
    | inr differs ↦ rw differs (retried-IsStored law s (rw differs at h))
  ]

  -- Where the cluster stores what it is told to, a convergence of a ConfigMap that succeeds leaves
  -- it with the desired data; and a ConfigMap that has them is not written.
  pub update_config_map-IsStored :
      StoresConfigMaps A desired
      → (s : A.State)
      → ((update_config_map A desired s).0 ≡ ok tt
          → IsStored A desired (update_config_map A desired s).1)
        × (IsStored A desired s → update_config_map A desired s ≡ (ok tt, s))
  unfolding update_config_map with_config_map
  update_config_map-IsStored law s =
      (with_config_map-IsStored law s (A.get s) refl, λ held. rw (held.answer, held.same) refl)
