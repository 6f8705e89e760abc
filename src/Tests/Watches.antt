-- ===== src/Tests/Watches.antt =====
-- The watches of internal/controller at concrete data.
use mathlib.Core.List.{Memᴰ}
use mathlib.Core.List.Memᴰ
use aether_powerdns.Prelude.{
  String, true, false, List, [], ◌∷◌, ◌==◌, any, eq_iff, arith, Bool-cases, inl, inr, ok, ◌≡◌, ◌↔◌,
  refl, sym, subst, ok_inj, if◌then◌else◌, Result,
}
use aether_powerdns.Api.Tiers.{DnsDist}
use aether_powerdns.Api.Zones.{RrSet}
use aether_powerdns.Controller.Access.{ref_key, zone_key_for}
use aether_powerdns.Controller.Watches.{
  object_key, rrset_zone_index, dnsdist_backend_index, requests_for, rrsets_for_zone,
  dnsdists_for_server,
}
use aether_powerdns.Controller.Watches.Woken.{
  IsIndexed, rrsets_for_zone_iff, dnsdists_for_server-Memᴰ,
}
use aether_powerdns.Controller.World.{Cluster}
use aether_powerdns.Tests.Sample.{
  Store, sample_cluster, sample_server, sample_zone, sample_rrset, sample_world,
}
use aether_powerdns.Tests.Tiers.{backend, front, accepted}

-- The objects that an index files under a key.
abbrev filed : {T : Type 0} → (T → List String) → String → List T → List T
filed index key [] = []
filed index key (t ∷ ts) =
    let rest = filed index key ts in if any (λ k. k == key) (index t) then t ∷ rest else rest

any_sound : (key : String) (ks : List String) → any (λ k. k == key) ks ≡ true → Memᴰ key ks
any_sound key [] h = absurd (ground arith)
any_sound key (k ∷ ks) h = elim (Bool-cases (k == key)) [
  | inl same ↦ Memᴰ.head (sym ((eq_iff k key).0 same))
  | inr differs ↦ Memᴰ.tail (any_sound key ks (ground arith))
]

any_complete : (key : String) (ks : List String) → Memᴰ key ks → any (λ k. k == key) ks ≡ true
any_complete key [] m = elim m [ ]
any_complete key (k ∷ ks) (Memᴰ.head e) = ground (arith, eq_iff k key)
any_complete key (k ∷ ks) (Memᴰ.tail m) = ground (arith, any_complete key ks m)

filed_sound :
    {T : Type 0} (index : T → List String) (key : String) (ts : List T) (t : T)
    → Memᴰ t (filed index key ts)
    → Memᴰ t ts × Memᴰ key (index t)
filed_sound index key [] t m = elim m [ ]
filed_sound index key (u ∷ ts) t m = elim (Bool-cases (any (λ k. k == key) (index u))) [
  | inl here ↦ elim (Memᴰ.cases_cons (rw here at m)) [
    | inl same ↦ (Memᴰ.head same, rw same (any_sound key (index u) here))
    | inr later ↦ let (held, has) = filed_sound index key ts t later in (Memᴰ.tail held, has)
  ]
  | inr other ↦
      let (held, has) = filed_sound index key ts t (rw other at m) in (Memᴰ.tail held, has)
]

filed_complete :
    {T : Type 0} (index : T → List String) (key : String) (ts : List T) (t : T)
    → Memᴰ t ts
    → Memᴰ key (index t)
    → Memᴰ t (filed index key ts)
filed_complete index key [] t m has = elim m [ ]
filed_complete index key (u ∷ ts) t (Memᴰ.head e) has =
    rw (any_complete key (index u) (subst (λ v. Memᴰ key (index v)) e has)) (Memᴰ.head e)
filed_complete index key (u ∷ ts) t (Memᴰ.tail m) has =
    elim (Bool-cases (any (λ k. k == key) (index u))) [
      | inl here ↦ rw here (Memᴰ.tail (filed_complete index key ts t m has))
      | inr other ↦ rw other (filed_complete index key ts t m has)
    ]

filed-IsIndexed :
    {S T : Type 0} (index : T → List String) (objects : S → List T)
    → IsIndexed index (λ key s. ok (filed index key (objects s))) objects
filed-IsIndexed index objects = record {
  listed = λ key s items e t. (
    λ m. filed_sound index key (objects s) t (rw (ok_inj e) m),
    λ (held, has). rw (sym (ok_inj e)) (filed_complete index key (objects s) t held has),
  );
}

abbrev indexed_cluster : Cluster
indexed_cluster = record sample_cluster {
  list_rrsets = λ key s. ok (filed rrset_zone_index key s.rrsets);
}

abbrev elsewhere : RrSet
elsewhere = record (sample_rrset "mail") {
  spec = record (sample_rrset "mail").spec {
    zone_ref = record { name = "example"; namespace = "" };
  };
}

abbrev store : Store
store = (sample_world (sample_rrset "www" ∷ elsewhere ∷ []) false).cluster

-- Only the first of the two refers to the zone of the namespace "dns".
wakes_www :
    rrsets_for_zone indexed_cluster sample_zone.meta store
    ≡ (record { namespace = "apps"; name = "www" }) ∷ []
unfolding rrsets_for_zone requests_for rrset_zone_index ref_key
wakes_www = refl

rrsets_for_zone_iff_example :
    Memᴰ
      (record { namespace = "apps"; name = "www" })
      (rrsets_for_zone indexed_cluster sample_zone.meta store)
    ↔ ((rr : RrSet) × Memᴰ rr store.rrsets
        × (object_key rr.meta ≡ record { namespace = "apps"; name = "www" })
        × (zone_key_for rr ≡ object_key sample_zone.meta))
rrsets_for_zone_iff_example =
    rrsets_for_zone_iff indexed_cluster (λ s. s.rrsets)
      (filed-IsIndexed rrset_zone_index (λ s. s.rrsets)) sample_zone.meta store
      (filed rrset_zone_index "dns/example" store.rrsets) refl refl refl
      (record { namespace = "apps"; name = "www" })

abbrev list_tiers : String → List DnsDist → Result (List DnsDist)
list_tiers key ds = ok (filed dnsdist_backend_index key ds)

dnsdists_for_server-Memᴰ_example :
    Memᴰ (object_key front.meta) (dnsdists_for_server list_tiers sample_server.meta (front ∷ []))
dnsdists_for_server-Memᴰ_example =
    dnsdists_for_server-Memᴰ list_tiers (λ ds. ds)
      (filed-IsIndexed dnsdist_backend_index (λ ds. ds)) sample_server.meta (front ∷ [])
      (filed dnsdist_backend_index "dns/pdns" (front ∷ [])) refl front (backend "pdns")
      (Memᴰ.head refl) accepted (Memᴰ.head refl) refl
