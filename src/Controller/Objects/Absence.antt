-- ===== src/Controller/Objects/Absence.antt =====
-- What `deleteIfExists` of internal/controller/converge.go leaves behind.
use aether_powerdns.Prelude.{
  true, ◌≡◌, refl, ◌⊎◌, inl, inr, Result, ok, err, Error, api_not_found, no_match, is_kind, arith,
  Bool-cases, err-ne-ok,
}
use aether_powerdns.Controller.Objects.{ObjectApi, ignore_absent, delete_found, delete_if_exists}

-- The object is not there, or its kind is not known to the cluster.
pub record IsGone (A : ObjectApi) (s : A.State) : Type 0 where
  pub error : Error
  pub answer : A.get s ≡ err error
  pub absent : (is_kind api_not_found error.kind ≡ true) ⊎ (is_kind no_match error.kind ≡ true)

-- What the cluster documents of deleting an object that nothing holds back: after a Delete that
-- succeeded, or found no object, the object is gone.
pub record DeletesAtOnce (A : ObjectApi) : Type 0 where
  pub after_success : (s : A.State) → (A.delete s).0 ≡ ok tt → IsGone A (A.delete s).1
  pub after_not_found :
      (s : A.State) (e : Error)
      → (A.delete s).0 ≡ err e
      → is_kind api_not_found e.kind ≡ true
      → IsGone A (A.delete s).1

module _ (A : ObjectApi) where
  ignore_absent-IsGone :
      (law : DeletesAtOnce A) (s : A.State) (r : Result (Unit {0}))
      → (A.delete s).0 ≡ r
      → (ignore_absent A r (A.delete s).1).0 ≡ ok tt
      → IsGone A (ignore_absent A r (A.delete s).1).1
  unfolding ignore_absent
  ignore_absent-IsGone law s (ok _) e h = law.after_success s e
  ignore_absent-IsGone law s (err x) e h = elim (Bool-cases (is_kind api_not_found x.kind)) [
    | inl missing ↦ rw missing (law.after_not_found s x e missing)
    | inr other_error ↦ absurd (err-ne-ok (rw other_error at h))
  ]

  delete_found-IsGone :
      (law : DeletesAtOnce A) (s : A.State) (r : Result (Unit {0}))
      → A.get s ≡ r
      → (delete_found A r s).0 ≡ ok tt
      → IsGone A (delete_found A r s).1
  unfolding delete_found ignore_absent
  delete_found-IsGone law s (ok _) e h = ignore_absent-IsGone law s (A.delete s).0 refl h
  delete_found-IsGone law s (err x) e h = elim (Bool-cases (is_kind no_match x.kind)) [
    | inl unknown ↦ rw unknown (record { error = x; answer = e; absent = inr unknown })
    | inr known ↦ elim (Bool-cases (is_kind api_not_found x.kind)) [
      | inl missing ↦ rw (known, missing) (record { error = x; answer = e; absent = inl missing })
      | inr other_error ↦ absurd (err-ne-ok (rw (known, other_error) at h))
    ]
  ]

  -- Where the cluster deletes at once, a deletion that succeeds leaves no object; and where there
  -- was none, or its kind is not known, it succeeds and changes nothing.
  pub delete_if_exists-IsGone :
      DeletesAtOnce A
      → (s : A.State)
      → ((delete_if_exists A s).0 ≡ ok tt → IsGone A (delete_if_exists A s).1)
        × (IsGone A s → delete_if_exists A s ≡ (ok tt, s))
  unfolding delete_if_exists delete_found ignore_absent
  delete_if_exists-IsGone law s = (
    delete_found-IsGone law s (A.get s) refl,
    λ gone. elim gone.absent [
      | inr unknown ↦ rw (gone.answer, unknown) refl
      | inl missing ↦ rw gone.answer (ground arith)
    ],
  )
