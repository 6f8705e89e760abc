-- ===== src/Controller/Records/Reconcile.antt =====
-- `Reconcile`, `findConflict` and `markNotReady` of internal/controller/rrset_controller.go.
pub mod Gates
pub mod Converges
use aether_powerdns.Prelude.{
  ℕ, String, Bool, true, false, List, [], ◌∷◌, ◌<>◌, ◌&&◌, ◌||◌, ◌==◌, not, Result, ok, err, Error,
  api_not_found, is_kind, Action, ◌>>=◌, ◌>>◌, return, fail, attempt, show_nat, quote, length,
  if◌then◌else◌,
}
use aether_powerdns.Api.Meta.{
  NamespacedName, show_name, ReconcileResult, condition_true, condition_false,
}
use aether_powerdns.Api.Server.{PowerDnsServer, phase_ready, condition_ready}
use aether_powerdns.Api.Zones.{RrSet, Zone, zone_kind_secondary, zone_phase_ready}
use aether_powerdns.Pdns.Types.{PdnsRrSet, PdnsZone, Transport}
use aether_powerdns.Pdns.Client.{Client, get_zone, patch_rrsets}
use aether_powerdns.Controller.World.{
  Cluster, World, read, write, on_pdns, event, event_normal, set_cond_on,
}
use aether_powerdns.Controller.Common.{
  requeue_short, requeue_long, resync_interval, done, requeue_now, requeue_in, ignore_not_found,
  api_reason,
}
use aether_powerdns.Controller.Access.{
  namespace_allowed, ref_key, server_key_for, zone_key_for, pdns_client_for,
}
use aether_powerdns.Controller.Records.Match.{name_in_zone, desired_rrset, rrset_matches}
use aether_powerdns.Controller.Records.Conflict.{conflict_in}
use aether_powerdns.Controller.Records.Deletion.{reconcile_delete, find_conflict, rrset_finalizer}

module _ (K : Cluster) (T : Transport) where
  abbrev pub W : Type 0
  W = World K.State T.State

  unfoldable pub mark_not_ready : RrSet → String → String → ℕ → Action W ReconcileResult
  mark_not_ready rr reason msg after = do
    write (
        K.update_rrset_status (record rr {
          status = record rr.status {
            failure_message = msg;
            conditions =
                set_cond_on K rr.status.conditions rr.meta.generation condition_ready
                  condition_false reason msg;
          };
        }))
    return (requeue_in after)

  -- The end of a pass that found the record set served, or made it so.
  mark_applied : RrSet → Action W ReconcileResult
  mark_applied rr = do
    write (
        K.update_rrset_status (record rr {
          status = record {
            observed_generation = rr.meta.generation;
            failure_message = "";
            conditions =
                set_cond_on K rr.status.conditions rr.meta.generation condition_ready condition_true
                  "Applied" "";
          };
        }))
    return (requeue_in resync_interval)

  api_failed : RrSet → Error → Action W ReconcileResult
  api_failed rr e = mark_not_ready rr (api_reason e) e.text requeue_long

  -- After the PATCH.
  patched : RrSet → Result (Unit {0}) → Action W ReconcileResult
  patched rr (err e) = api_failed rr e
  patched rr (ok _) = do
    event event_normal "RRSetApplied" (
        "applied "
        <> (rr.spec.name
            <> (" "
                <> (rr.spec.type <> (" (" <> (show_nat (length rr.spec.records) <> " records)"))))))
    mark_applied rr

  -- After the zone has been read from PowerDNS.
  converge : RrSet → Zone → Client → Result PdnsZone → Action W ReconcileResult
  converge rr zone pc (err e) = api_failed rr e
  converge rr zone pc (ok pz) =
      if not (rrset_matches pz (desired_rrset rr))
      then (do
        r ← attempt (on_pdns (patch_rrsets T pc zone.spec.zone_name (desired_rrset rr ∷ [])))
        patched rr r)
      else mark_applied rr

  with_client : RrSet → Zone → Result Client → Action W ReconcileResult
  with_client rr zone (err e) = mark_not_ready rr "APIUnreachable" e.text requeue_long
  with_client rr zone (ok pc) = do
    pz ← attempt (on_pdns (get_zone T pc zone.spec.zone_name))
    converge rr zone pc pz

  unfoldable pub apply : RrSet → Zone → PowerDnsServer → Action W ReconcileResult
  unfolding with_client converge patched mark_applied api_failed
  apply rr zone server = do pc ← attempt (pdns_client_for K server); with_client rr zone pc

  -- The checks that follow `findConflict`.
  unconflicted : RrSet → Zone → PowerDnsServer → String → Action W ReconcileResult
  unconflicted rr zone server other =
      if not (other == "")
      then mark_not_ready rr "Conflict"
          ("RRSet "
            <> (other
                <> (" also declares "
                    <> (rr.spec.name <> (" " <> (rr.spec.type <> " in this zone — delete one"))))))
          requeue_long
      else if not (zone.status.phase == zone_phase_ready)
      then mark_not_ready rr "ZoneNotReady" "Zone is not Ready yet" requeue_short
      else apply rr zone server

  with_server : RrSet → Zone → Result PowerDnsServer → Action W ReconcileResult
  with_server rr zone (err e) =
      if is_kind api_not_found e.kind
      then mark_not_ready rr "ServerNotFound"
          ("PowerDNSServer " <> (show_name (server_key_for zone) <> " not found")) requeue_long
      else fail e
  with_server rr zone (ok server) =
      if not (namespace_allowed server rr.meta.namespace)
      then mark_not_ready rr "NamespaceNotAllowed"
          ("namespace "
            <> (quote rr.meta.namespace
                <> (" is not allowed by "
                    <> (server.meta.namespace
                        <> ("/"
                            <> (server.meta.name <> " spec.zoneManagement.allowedNamespaces"))))))
          requeue_long
      else if not (server.status.phase == phase_ready)
      then mark_not_ready rr "ServerNotReady" "PowerDNSServer is not Ready yet" requeue_short
      else (do other ← find_conflict K rr; unconflicted rr zone server other)

  with_zone : RrSet → Result Zone → Action W ReconcileResult
  with_zone rr (err e) =
      if is_kind api_not_found e.kind
      then mark_not_ready rr "ZoneNotFound"
          ("Zone " <> (show_name (zone_key_for rr) <> " not found")) requeue_long
      else fail e
  with_zone rr (ok zone) =
      if zone.meta.deleting
      then mark_not_ready rr "ZoneDeleting" "referenced Zone is being deleted" requeue_long
      else if zone.spec.kind == zone_kind_secondary
      then mark_not_ready rr "SecondaryZone"
          "Secondary zone content is replicated from its primaries — manage records there"
          requeue_long
      else if not (name_in_zone rr.spec.name zone.spec.zone_name)
      then mark_not_ready rr "NameOutsideZone"
          (quote rr.spec.name <> (" is not within zone " <> quote zone.spec.zone_name)) requeue_long
      else (do
        server ← attempt (read (K.get_server (server_key_for zone)))
        with_server rr zone server)

  with_rrset : Result RrSet → Action W ReconcileResult
  with_rrset (err e) = ignore_not_found e
  with_rrset (ok rr) =
      if rr.meta.deleting
      then reconcile_delete K T rr
      else if not (K.contains_finalizer rr.meta.finalizers rrset_finalizer)
      then (do
        write (
            K.update_rrset (record rr {
              meta = record rr.meta {
                finalizers = K.add_finalizer rr.meta.finalizers rrset_finalizer;
              };
            }))
        return requeue_now)
      else (do zone ← attempt (read (K.get_zone (zone_key_for rr))); with_zone rr zone)

  unfoldable pub reconcile : NamespacedName → Action W ReconcileResult
  unfolding with_rrset with_zone with_server unconflicted
  reconcile req = do rr ← attempt (read (K.get_rrset req)); with_rrset rr
