-- ===== src/Controller/Watches.antt =====
-- The watches of internal/controller: the field indexes that `SetupWithManager` registers, and the
-- functions that turn a change of one object into requests for the objects that refer to it.
pub mod Keys
pub mod Woken
use aether_powerdns.Prelude.{String, List, [], ◌∷◌, ◌<>◌, map, Result, ok, err}
use aether_powerdns.Api.Meta.{ObjectMeta, ObjectRef, NamespacedName}
use aether_powerdns.Api.Tiers.{DnsDist}
use aether_powerdns.Api.Zones.{Zone, RrSet}
use aether_powerdns.Controller.Access.{ref_key}
use aether_powerdns.Controller.World.{Cluster}

-- `client.ObjectKeyFromObject`.
abbrev pub object_key : ObjectMeta → NamespacedName
object_key m = record { namespace = m.namespace; name = m.name }

-- What the indexes file an object under.
unfoldable pub rrset_zone_index : RrSet → List String
rrset_zone_index rr = ref_key rr.spec.zone_ref rr.meta.namespace ∷ []

pub zone_server_index : Zone → List String
zone_server_index z = ref_key z.spec.server_ref z.meta.namespace ∷ []

pub backend_keys : String → List ObjectRef → List String
backend_keys namespace [] = []
backend_keys namespace (ref ∷ refs) = ref_key ref namespace ∷ backend_keys namespace refs

pub dnsdist_backend_index : DnsDist → List String
unfolding backend_keys
dnsdist_backend_index d = backend_keys d.meta.namespace d.spec.backend_refs

-- One request for each item of a list; none where the List has failed, which is only logged.
unfoldable pub requests_for :
    {T : Type 0} → (T → ObjectMeta) → Result (List T) → List NamespacedName
requests_for meta (err e) = []
requests_for meta (ok items) = map (λ t. object_key (meta t)) items

unfoldable pub rrsets_for_zone : (K : Cluster) → ObjectMeta → K.State → List NamespacedName
unfolding requests_for
rrsets_for_zone K obj s =
    requests_for (λ rr. rr.meta) (K.list_rrsets (obj.namespace <> ("/" <> obj.name)) s)

pub zones_for_server : (K : Cluster) → ObjectMeta → K.State → List NamespacedName
unfolding requests_for
zones_for_server K obj s =
    requests_for (λ z. z.meta) (K.list_zones (obj.namespace <> ("/" <> obj.name)) s)

-- Over a client that lists the tiers under a key.
pub dnsdists_for_server :
    {S : Type 0} → (String → S → Result (List DnsDist)) → ObjectMeta → S → List NamespacedName
unfolding requests_for
dnsdists_for_server list_dnsdists obj s =
    requests_for (λ d. d.meta) (list_dnsdists (obj.namespace <> ("/" <> obj.name)) s)
