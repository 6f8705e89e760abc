-- ===== src/Controller/Records/Conflict/Spec.antt =====
-- When `findConflict` of internal/controller/rrset_controller.go names a rival.
use mathlib.Core.List.{Memᴰ}
use aether_powerdns.Prelude.{
  String, true, false, List, [], ◌∷◌, ◌<>◌, ◌==◌, eq_iff, ◌≡◌, ◌≢◌, ◌↔◌, refl, arith, key-ne-nil,
  ne-of-eq_false, Bool-cases, inl, inr,
}
use aether_powerdns.Api.Zones.{RrSet}
use aether_powerdns.Controller.Records.Conflict.{is_skipped, claims_same, conflict_in}

-- Another object, not being deleted, that declares the same name and type.
pub record IsRival (rr o : RrSet) : Type 0 where
  pub distinct : ¬ ((o.meta.namespace ≡ rr.meta.namespace) × (o.meta.name ≡ rr.meta.name))
  pub live : o.meta.deleting ≡ false
  pub same_name : o.spec.name ≡ rr.spec.name
  pub same_type : o.spec.type ≡ rr.spec.type

is_rival : (rr o : RrSet) → is_skipped rr o ≡ false → claims_same rr o ≡ true → IsRival rr o
is_rival rr o kept same = ground (
  arith,
  eq_iff o.meta.namespace rr.meta.namespace,
  eq_iff o.meta.name rr.meta.name,
  eq_iff o.spec.name rr.spec.name,
  eq_iff o.spec.type rr.spec.type,
)

rival_claims : (rr o : RrSet) → IsRival rr o → (is_skipped rr o ≡ false) × (claims_same rr o ≡ true)
rival_claims rr o r = ground (
  arith,
  eq_iff o.meta.namespace rr.meta.namespace,
  eq_iff o.meta.name rr.meta.name,
  eq_iff o.spec.name rr.spec.name,
  eq_iff o.spec.type rr.spec.type,
)

skip-step :
    (rr o : RrSet) (rest : List RrSet)
    → is_skipped rr o ≡ true
    → conflict_in rr (o ∷ rest) ≡ conflict_in rr rest
unfolding conflict_in
skip-step rr o rest skipped = rw skipped

hit-step :
    (rr o : RrSet) (rest : List RrSet)
    → is_skipped rr o ≡ false
    → claims_same rr o ≡ true
    → conflict_in rr (o ∷ rest) ≡ o.meta.namespace <> ("/" <> o.meta.name)
unfolding conflict_in
hit-step rr o rest kept same = rw (kept, same)

miss-step :
    (rr o : RrSet) (rest : List RrSet)
    → is_skipped rr o ≡ false
    → claims_same rr o ≡ false
    → conflict_in rr (o ∷ rest) ≡ conflict_in rr rest
unfolding conflict_in
miss-step rr o rest kept differs = rw (kept, differs)

abbrev NamesRival : RrSet → List RrSet → String → Type 0
NamesRival rr list key =
    (o : RrSet) × Memᴰ o list × IsRival rr o × (key ≡ o.meta.namespace <> ("/" <> o.meta.name))

NamesRival-cons :
    {rr x : RrSet} {list : List RrSet} {key : String}
    → NamesRival rr list key
    → NamesRival rr (x ∷ list) key
NamesRival-cons (o, m, r, e) = (o, Memᴰ.tail m, r, e)

conflict_in-NamesRival :
    (rr : RrSet) (list : List RrSet)
    → conflict_in rr list ≢ ""
    → NamesRival rr list (conflict_in rr list)
conflict_in-NamesRival rr [] h = absurd (h (unfold conflict_in in refl))
conflict_in-NamesRival rr (o ∷ rest) h = elim (Bool-cases (is_skipped rr o)) [
  | inl skipped ↦
      let e = skip-step rr o rest skipped in
      rw e (NamesRival-cons (conflict_in-NamesRival rr rest (rw e at h)))
  | inr kept ↦ elim (Bool-cases (claims_same rr o)) [
    | inl same ↦ (o, Memᴰ.head refl, is_rival rr o kept same, hit-step rr o rest kept same)
    | inr differs ↦
        let e = miss-step rr o rest kept differs in
        rw e (NamesRival-cons (conflict_in-NamesRival rr rest (rw e at h)))
  ]
]

conflict_in-ne-empty :
    (rr : RrSet) (list : List RrSet) (o : RrSet)
    → Memᴰ o list
    → IsRival rr o
    → conflict_in rr list ≢ ""
conflict_in-ne-empty rr [] o m r = elim m [ ]
conflict_in-ne-empty rr (x ∷ list) o (Memᴰ.head e) r =
    let (kept, same) = rival_claims rr x (rw e at r) in
    rw (hit-step rr x list kept same) (key-ne-nil x.meta.namespace x.meta.name)
conflict_in-ne-empty rr (x ∷ list) o (Memᴰ.tail m) r =
    let later = conflict_in-ne-empty rr list o m r in
    elim (Bool-cases (is_skipped rr x)) [
      | inl skipped ↦ rw (skip-step rr x list skipped) later
      | inr kept ↦ elim (Bool-cases (claims_same rr x)) [
        | inl same ↦ rw (hit-step rr x list kept same) (key-ne-nil x.meta.namespace x.meta.name)
        | inr differs ↦ rw (miss-step rr x list kept differs) later
      ]
    ]

-- The search finds nothing exactly if no listed object is a rival; what it finds otherwise is
-- "<namespace>/<name>" of a rival that is listed.
pub conflict_in-IsRival :
    (rr : RrSet) (list : List RrSet)
    → ((conflict_in rr list ≡ "") ↔ ((o : RrSet) → Memᴰ o list → ¬ IsRival rr o))
      × (conflict_in rr list ≢ "" → NamesRival rr list (conflict_in rr list))
conflict_in-IsRival rr list = (
  (
    λ e o m r. conflict_in-ne-empty rr list o m r e,
    λ none. elim (Bool-cases (conflict_in rr list == "")) [
      | inl e ↦ (eq_iff _ _).0 e
      | inr differs ↦
          let (o, m, r, _) = conflict_in-NamesRival rr list (ne-of-eq_false _ _ differs) in
          absurd (none o m r)
    ],
  ),
  conflict_in-NamesRival rr list,
)
