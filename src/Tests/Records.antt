-- ===== src/Tests/Records.antt =====
-- The passes of internal/controller/rrset_controller.go over one record set, and the theorems
-- about its parts at concrete data.
use mathlib.Core.List.{Memᴰ}
use mathlib.Core.List.Perm
use aether_powerdns.Prelude.{
  String, Bool, true, false, List, [], ◌∷◌, some, ok, inl, ◌≡◌, ◌≢◌, refl, ◌⊎◌, ◌↔◌, ◌<>◌,
  path_escape,
}
use aether_powerdns.Api.Meta.{NamespacedName}
use aether_powerdns.Api.Zones.{RrSet}
use aether_powerdns.Pdns.Types.{PdnsRrSet}
use aether_powerdns.Pdns.Client.{
  Client, call, get_zone, patch_rrsets, new_client, zone_path, read_answer, is_already_exists,
}
use aether_powerdns.Controller.Common.{requeue_in, resync_interval}
use aether_powerdns.Controller.Access.{
  namespace_allowed, server_key_for, zone_key_for, pdns_client_for, pick_key,
}
use aether_powerdns.Controller.Access.Laws.{namespace_allowed_iff}
use aether_powerdns.Controller.Records.Match.{
  name_in_zone, desired_rrset, rrset_matches, matches_in, same_contents,
}
use aether_powerdns.Controller.Records.Match.Spec.{
  Matches, Matches, first_rrset, rrset_matches_iff, name_in_zone_iff,
}
use aether_powerdns.Controller.Records.Conflict.{conflict_in}
use aether_powerdns.Controller.Records.Conflict.Spec.{IsRival, conflict_in-IsRival}
use aether_powerdns.Controller.Records.Deletion.Release.{MayRemove, reconcile_delete-MayRemove}
use aether_powerdns.Controller.Records.Deletion.{reconcile_delete, find_conflict}
use aether_powerdns.Controller.Records.Reconcile.{reconcile, apply, mark_not_ready}
use aether_powerdns.Controller.Records.Reconcile.Gates.{MayTouch, reconcile-MayTouch}
use aether_powerdns.Controller.Records.Reconcile.Converges.{
  KeepsRrSet, Matched, ServedSince, applied-ServedSince, apply_settled,
}
use aether_powerdns.Tests.Sample.{
  sample_cluster, sample_transport, www_set, sample_zone_answer, sample_server, sample_zone,
  sample_rrset, sample_world,
}

abbrev request : NamespacedName
request = record { namespace = "apps"; name = "www" }

abbrev client : Client
client = record { base_url = "http://pdns-api.dns.svc:8081"; api_key = "secret" }

abbrev pass : List RrSet → Bool → Bool
pass rrsets served =
    (reconcile sample_cluster sample_transport request (sample_world rrsets served)).1.pdns

applies : pass (sample_rrset "www" ∷ []) false ≡ true
unfolding reconcile apply find_conflict conflict_in pdns_client_for pick_key new_client get_zone
    patch_rrsets call zone_path path_escape read_answer is_already_exists rrset_matches matches_in
    same_contents desired_rrset name_in_zone namespace_allowed server_key_for zone_key_for
applies = refl

-- The other object claims the same record set, so neither writes.
rival_blocks : pass (sample_rrset "www" ∷ sample_rrset "web" ∷ []) false ≡ false
unfolding reconcile apply find_conflict conflict_in pdns_client_for pick_key new_client get_zone
    patch_rrsets call zone_path path_escape read_answer is_already_exists rrset_matches matches_in
    same_contents desired_rrset name_in_zone namespace_allowed server_key_for zone_key_for
    mark_not_ready
rival_blocks = refl

served_www :
    rrset_matches (sample_zone_answer (www_set ∷ [])) (desired_rrset (sample_rrset "www")) ≡ true
unfolding rrset_matches matches_in same_contents desired_rrset
served_www = refl

www-Matches : Matches www_set (desired_rrset (sample_rrset "www"))
unfolding desired_rrset
www-Matches = (refl, Perm.refl ("192.0.2.1" ∷ []))

keeps : KeepsRrSet sample_transport client "example.org." (desired_rrset (sample_rrset "www"))
unfolding get_zone patch_rrsets call zone_path path_escape read_answer is_already_exists
    desired_rrset
keeps = record {
  get_changes_nothing = λ p. refl;
  patch_takes_effect = λ p accepted.
      (sample_zone_answer (www_set ∷ []), refl, (www_set, refl, www-Matches, inl (refl, tt)));
}

-- A record that is disabled counts like one that is not.
disabled_matches :
    rrset_matches
      (sample_zone_answer (
        record www_set { records = (record { content = "192.0.2.1"; disabled = true }) ∷ [] } ∷ []))
      (desired_rrset (sample_rrset "www"))
    ≡ true
unfolding rrset_matches matches_in same_contents desired_rrset
disabled_matches = refl

abbrev rr : RrSet
rr = sample_rrset "www"

reached :
    (served : Bool)
    → pdns_client_for sample_cluster sample_server (sample_world (rr ∷ []) served)
      ≡ (ok client, sample_world (rr ∷ []) served)
unfolding pdns_client_for pick_key new_client
reached served = refl

reports_applied :
    (apply sample_cluster sample_transport rr sample_zone sample_server
      (sample_world (rr ∷ []) false)).0
    ≡ ok (requeue_in resync_interval)
unfolding apply pdns_client_for pick_key new_client get_zone patch_rrsets call zone_path path_escape
    read_answer is_already_exists rrset_matches matches_in same_contents desired_rrset
reports_applied = refl

applied-ServedSince_example :
    ServedSince sample_cluster sample_transport rr client sample_zone false
      (apply sample_cluster sample_transport rr sample_zone sample_server
        (sample_world (rr ∷ []) false)).1.pdns
applied-ServedSince_example =
    applied-ServedSince sample_cluster sample_transport rr sample_zone sample_server client keeps
      (sample_world (rr ∷ []) false) (reached false) reports_applied

reconcile-MayTouch_example :
    ((reconcile sample_cluster sample_transport request (sample_world (rr ∷ []) false)).1.pdns
      ≡ false)
    ⊎ MayTouch sample_cluster sample_transport (sample_world (rr ∷ []) false).cluster request
reconcile-MayTouch_example =
    reconcile-MayTouch sample_cluster sample_transport (sample_world (rr ∷ []) false) request

already : Matched sample_cluster sample_transport rr client sample_zone true
unfolding get_zone call zone_path path_escape read_answer is_already_exists
already = (
  sample_zone_answer (www_set ∷ []),
  refl,
  (rrset_matches_iff (sample_zone_answer (www_set ∷ [])) (desired_rrset rr)).0 served_www,
)

apply_settled_example :
    (apply sample_cluster sample_transport rr sample_zone sample_server
      (sample_world (rr ∷ []) true)).1.pdns
    ≡ true
apply_settled_example =
    apply_settled sample_cluster sample_transport rr sample_zone sample_server client
      keeps.get_changes_nothing (sample_world (rr ∷ []) true) (reached true) already

reconcile_delete-MayRemove_example :
    ((reconcile_delete sample_cluster sample_transport rr (sample_world (rr ∷ []) true)).1.pdns
      ≡ true)
    ⊎ MayRemove sample_cluster (sample_world (rr ∷ []) true).cluster rr
reconcile_delete-MayRemove_example =
    reconcile_delete-MayRemove sample_cluster sample_transport (sample_world (rr ∷ []) true) rr

rrset_matches_iff_example :
    (rrset_matches (sample_zone_answer (www_set ∷ [])) (desired_rrset rr) ≡ true) ↔ (
      (got : PdnsRrSet) × (first_rrset
          (sample_zone_answer (www_set ∷ []))
          (desired_rrset rr).name
          (desired_rrset rr).type
        ≡ some got)
      × Matches got (desired_rrset rr))
rrset_matches_iff_example = rrset_matches_iff (sample_zone_answer (www_set ∷ [])) (desired_rrset rr)

abbrev www_name : String
www_name = "www.example.org."

abbrev zone_name : String
zone_name = "example.org."

name_in_zone_iff_example :
    (name_in_zone www_name zone_name ≡ true)
    ↔ ((www_name ≡ zone_name) ⊎ ((p : String) × (www_name ≡ p <> ("." <> zone_name))))
name_in_zone_iff_example = name_in_zone_iff www_name zone_name

abbrev both : List RrSet
both = rr ∷ sample_rrset "web" ∷ []

conflict_in-IsRival_example :
    ((conflict_in rr both ≡ "") ↔ ((o : RrSet) → Memᴰ o both → ¬ IsRival rr o))
    × (conflict_in rr both ≢ ""
        → (o : RrSet) × Memᴰ o both
          × IsRival rr o
          × (conflict_in rr both ≡ o.meta.namespace <> ("/" <> o.meta.name)))
conflict_in-IsRival_example = conflict_in-IsRival rr both

abbrev apps : String
apps = "apps"

namespace_allowed_iff_example :
    (namespace_allowed sample_server apps ≡ true)
    ↔ ((apps ≡ sample_server.meta.namespace) ⊎ (Memᴰ "*" (apps ∷ []) ⊎ Memᴰ apps (apps ∷ [])))
namespace_allowed_iff_example = namespace_allowed_iff sample_server apps
