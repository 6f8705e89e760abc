-- ===== src/Controller/Watches/Woken.antt =====
-- Which objects the watches of internal/controller wake.
use mathlib.Core.List.{Memᴰ}
use mathlib.Core.List.Memᴰ
use aether_powerdns.Prelude.{
  String, List, [], ◌∷◌, map, Result, ok, ◌<>◌, ◌==◌, ◌≡◌, refl, sym, subst, ap, ◌↔◌, if◌then◌else◌,
}
use aether_powerdns.Api.Meta.{ObjectMeta, ObjectRef, NamespacedName, show_name}
use aether_powerdns.Api.Tiers.{DnsDist}
use aether_powerdns.Api.Zones.{Zone, RrSet}
use aether_powerdns.Controller.Access.{ref_key, server_key_for, zone_key_for}
use aether_powerdns.Controller.Tiers.Validation.{validate_dns_dist}
use aether_powerdns.Controller.Tiers.Validation.Validity.{AreLocal, validate_dns_dist_iff}
use aether_powerdns.Controller.Watches.{
  object_key, requests_for, rrset_zone_index, zone_server_index, backend_keys,
  dnsdist_backend_index, rrsets_for_zone, zones_for_server, dnsdists_for_server,
}
use aether_powerdns.Controller.Watches.Keys.{IsPlain, same_parts}
use aether_powerdns.Controller.World.{Cluster}

-- What controller-runtime documents of a field index: the items under a key are the objects of
-- the cache that the index files under that key.
pub record IsIndexed {S T : Type 0} (index : T → List String) (list : String → S → Result (List T))
    (objects : S → List T) : Type 0 where
  pub listed :
      (key : String) (s : S) (items : List T)
      → list key s ≡ ok items
      → (t : T) → Memᴰ t items ↔ (Memᴰ t (objects s) × Memᴰ key (index t))

mapped :
    {A B : Type 0} (f : A → B) (xs : List A) (b : B)
    → Memᴰ b (map f xs)
    → (a : A) × Memᴰ a xs × (f a ≡ b)
mapped f [] b m = elim m [ ]
mapped f (x ∷ xs) b (Memᴰ.head e) = (x, Memᴰ.head refl, sym e)
mapped f (x ∷ xs) b (Memᴰ.tail m) = let (a, there, e) = mapped f xs b m in (a, Memᴰ.tail there, e)

-- The requests are for the objects that are filed under the key.
requests_iff :
    {S T : Type 0} (meta : T → ObjectMeta) (index : T → List String)
    (list : String → S → Result (List T)) (objects : S → List T)
    → IsIndexed index list objects
    → (key : String) (s : S) (items : List T) → list key s ≡ ok items
    → (k : NamespacedName)
    → Memᴰ k (requests_for meta (list key s))
      ↔ ((t : T) × Memᴰ t (objects s) × (object_key (meta t) ≡ k) × Memᴰ key (index t))
unfolding requests_for
requests_iff meta index list objects law key s items e k = rw e (
  λ m.
      let (t, there, same) = mapped (λ t. object_key (meta t)) items k m in
      let (held, filed) = (law.listed key s items e t).0 there in (t, held, same, filed),
  λ (t, held, same, filed).
      Memᴰ.cast (sym same)
        (Memᴰ.map (λ t. object_key (meta t)) ((law.listed key s items e t).1 (held, filed))),
)

-- A reference is filed under the key of an object exactly if it resolves to that object.
ref_key_iff :
    (ref : ObjectRef) (namespace : String) (obj : ObjectMeta)
    → IsPlain obj.namespace
    → IsPlain obj.name
    → Memᴰ (obj.namespace <> ("/" <> obj.name)) (ref_key ref namespace ∷ []) ↔ (
        Path NamespacedName
          (record {
            namespace = if ref.namespace == "" then namespace else ref.namespace;
            name = ref.name;
          })
          (object_key obj))
unfolding ref_key
ref_key_iff ref namespace obj plain_namespace plain_name = (
  λ m.
      let (a, b) =
        same_parts (if ref.namespace == "" then namespace else ref.namespace) ref.name obj.namespace
          obj.name plain_namespace plain_name (sym (Memᴰ.eq_of_singleton m)) in
      rw (a, b) refl,
  λ e. Memᴰ.head (sym (ap show_name e)),
)

-- Where the lists go by the index, a change of a zone wakes exactly the record sets whose passes
-- read that zone.
pub rrsets_for_zone_iff :
    (K : Cluster) (objects : K.State → List RrSet)
    → IsIndexed rrset_zone_index K.list_rrsets objects
    → (zone : ObjectMeta) (s : K.State) (items : List RrSet) → IsPlain zone.namespace
    → IsPlain zone.name
    → K.list_rrsets (zone.namespace <> ("/" <> zone.name)) s ≡ ok items
    → (k : NamespacedName)
    → Memᴰ k (rrsets_for_zone K zone s) ↔ (
        (rr : RrSet) × Memᴰ rr (objects s)
        × (object_key rr.meta ≡ k)
        × (zone_key_for rr ≡ object_key zone))
unfolding rrsets_for_zone rrset_zone_index zone_key_for
rrsets_for_zone_iff K objects law zone s items ns name e k =
    let (there, back) =
      requests_iff (λ rr. rr.meta) rrset_zone_index K.list_rrsets objects law _ s items e k in
    (
      λ m.
          let (rr, held, same, filed) = there m in
          (rr, held, same, (ref_key_iff rr.spec.zone_ref rr.meta.namespace zone ns name).0 filed),
      λ (rr, held, same, refers).
          back (
            rr,
            held,
            same,
            (ref_key_iff rr.spec.zone_ref rr.meta.namespace zone ns name).1 refers,
          ),
    )

-- Where the lists go by the index, a change of a server wakes exactly the zones whose passes read
-- that server.
pub zones_for_server_iff :
    (K : Cluster) (objects : K.State → List Zone)
    → IsIndexed zone_server_index K.list_zones objects
    → (server : ObjectMeta) (s : K.State) (items : List Zone) → IsPlain server.namespace
    → IsPlain server.name
    → K.list_zones (server.namespace <> ("/" <> server.name)) s ≡ ok items
    → (k : NamespacedName)
    → Memᴰ k (zones_for_server K server s) ↔ (
        (z : Zone) × Memᴰ z (objects s)
        × (object_key z.meta ≡ k)
        × (server_key_for z ≡ object_key server))
unfolding zones_for_server zone_server_index server_key_for
zones_for_server_iff K objects law server s items ns name e k =
    let (there, back) =
      requests_iff (λ z. z.meta) zone_server_index K.list_zones objects law _ s items e k in
    (
      λ m.
          let (z, held, same, filed) = there m in
          (z, held, same, (ref_key_iff z.spec.server_ref z.meta.namespace server ns name).0 filed),
      λ (z, held, same, refers).
          back (
            z,
            held,
            same,
            (ref_key_iff z.spec.server_ref z.meta.namespace server ns name).1 refers,
          ),
    )

-- A local reference is filed under the key of its name in the tier's namespace.
backend_keys-Memᴰ :
    (namespace : String) (seen : List String) (refs : List ObjectRef) (ref : ObjectRef)
    → AreLocal seen refs
    → Memᴰ ref refs
    → Memᴰ (namespace <> ("/" <> ref.name)) (backend_keys namespace refs)
unfolding backend_keys ref_key
backend_keys-Memᴰ namespace seen [] ref h m = elim m [ ]
backend_keys-Memᴰ namespace seen (r ∷ refs) ref (named, here, apart, rest) (Memᴰ.head e) =
    Memᴰ.head (rw (here, e) refl)
backend_keys-Memᴰ namespace seen (r ∷ refs) ref (named, here, apart, rest) (Memᴰ.tail m) =
    Memᴰ.tail (backend_keys-Memᴰ namespace (r.name ∷ seen) refs ref rest m)

-- Where the lists go by the index, a change of a server wakes every tier that the validation
-- accepts and that has a reference which its passes resolve to that server.
pub dnsdists_for_server-Memᴰ :
    {S : Type 0} (list_dnsdists : String → S → Result (List DnsDist)) (objects : S → List DnsDist)
    → IsIndexed dnsdist_backend_index list_dnsdists objects
    → (server : ObjectMeta) (s : S) (items : List DnsDist)
    → list_dnsdists (server.namespace <> ("/" <> server.name)) s ≡ ok items
    → (d : DnsDist) (ref : ObjectRef) → Memᴰ d (objects s)
    → validate_dns_dist d ≡ ""
    → Memᴰ ref d.spec.backend_refs
    → Path NamespacedName
        (record { namespace = d.meta.namespace; name = ref.name })
        (object_key server)
    → Memᴰ (object_key d.meta) (dnsdists_for_server list_dnsdists server s)
unfolding dnsdists_for_server dnsdist_backend_index
dnsdists_for_server-Memᴰ list objects law server s items e d ref held valid m reads =
    let local = ((validate_dns_dist_iff d).0 valid).backends in
    let filed : Memᴰ (show_name (object_key server)) (dnsdist_backend_index d) =
      subst (λ k. Memᴰ (show_name k) (dnsdist_backend_index d)) reads
        (backend_keys-Memᴰ d.meta.namespace [] d.spec.backend_refs ref local m) in
    (requests_iff (λ d. d.meta) dnsdist_backend_index list objects law _ s items e
        (object_key d.meta)).1
      (d, held, refl, filed)
