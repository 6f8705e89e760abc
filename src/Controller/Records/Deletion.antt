-- ===== src/Controller/Records/Deletion.antt =====
-- `reconcileDelete`, `deleteFromPowerDNS` and `findConflict` of
-- internal/controller/rrset_controller.go.
pub mod Release
use aether_powerdns.Prelude.{
  String, Bool, true, false, List, [], ◌∷◌, ◌<>◌, ◌&&◌, ◌||◌, ◌==◌, not, Result, ok, err, Error,
  api_not_found, err_not_found, is_kind, Action, ◌>>=◌, ◌>>◌, return, fail, attempt, if◌then◌else◌,
}
use aether_powerdns.Api.Meta.{ReconcileResult}
use aether_powerdns.Api.Server.{PowerDnsServer, phase_failed}
use aether_powerdns.Api.Zones.{RrSet, Zone, deletion_policy_orphan}
use aether_powerdns.Pdns.Types.{PdnsRrSet, Transport}
use aether_powerdns.Pdns.Client.{Client, patch_rrsets}
use aether_powerdns.Controller.World.{Cluster, World, read, write, on_pdns, event, event_normal}
use aether_powerdns.Controller.Common.{done}
use aether_powerdns.Controller.Access.{ref_key, server_key_for, zone_key_for, pdns_client_for}
use aether_powerdns.Controller.Records.Conflict.{conflict_in}

abbrev pub rrset_finalizer : String
rrset_finalizer = "dns.aetherplatform.cloud/rrset-protection"

-- The payload of the PATCH that removes a record set.
unfoldable pub removed_rrset : RrSet → PdnsRrSet
removed_rrset rr = record {
  name = rr.spec.name;
  type = rr.spec.type;
  ttl = 0;
  change_type = "DELETE";
  records = [];
}

module _ (K : Cluster) {P : Type 0} where
  -- "<ns>/<name>" of a rival, or "".
  unfoldable pub find_conflict : RrSet → Action (World K.State P) String
  find_conflict rr = do
    list ← read (K.list_rrsets (ref_key rr.spec.zone_ref rr.meta.namespace))
    return (conflict_in rr list)

module _ (K : Cluster) (T : Transport) where
  abbrev W : Type 0
  W = World K.State T.State

  -- After the PATCH: a zone that PowerDNS no longer has is no error.
  removed : RrSet → Result (Unit {0}) → Action W (Unit {0})
  removed rr (err e) = if is_kind err_not_found e.kind then return tt else fail e
  removed rr (ok _) =
      event event_normal "RRSetDeleted"
        ("removed " <> (rr.spec.name <> (" " <> (rr.spec.type <> " from PowerDNS"))))

  remove_from : RrSet → Zone → PowerDnsServer → Action W (Unit {0})
  remove_from rr zone server = do
    pc ← pdns_client_for K server
    r ← attempt (on_pdns (patch_rrsets T pc zone.spec.zone_name (removed_rrset rr ∷ [])))
    removed rr r

  delete_with_server : RrSet → Zone → Result PowerDnsServer → Action W (Unit {0})
  delete_with_server rr zone (err e) = if is_kind api_not_found e.kind then return tt else fail e
  delete_with_server rr zone (ok server) =
      if server.meta.deleting || server.status.phase == phase_failed
      then return tt
      else remove_from rr zone server

  delete_in_zone : RrSet → Result Zone → Action W (Unit {0})
  delete_in_zone rr (err e) = if is_kind api_not_found e.kind then return tt else fail e
  delete_in_zone rr (ok zone) = if zone.meta.deleting then return tt else (do
    other ← find_conflict K rr
    if not (other == "") then return tt else (do
      server ← attempt (read (K.get_server (server_key_for zone)))
      delete_with_server rr zone server))

  unfoldable pub delete_from_power_dns : RrSet → Action W (Unit {0})
  unfolding delete_in_zone delete_with_server remove_from removed
  delete_from_power_dns rr = do
    zone ← attempt (read (K.get_zone (zone_key_for rr)))
    delete_in_zone rr zone

  release : RrSet → Action W ReconcileResult
  release rr = do
    write (
        K.update_rrset (record rr {
          meta = record rr.meta {
            finalizers = K.remove_finalizer rr.meta.finalizers rrset_finalizer;
          };
        }))
    return done

  unfoldable pub reconcile_delete : RrSet → Action W ReconcileResult
  unfolding release
  reconcile_delete rr =
      if not (K.contains_finalizer rr.meta.finalizers rrset_finalizer)
      then return done
      else if not (rr.spec.deletion_policy == deletion_policy_orphan)
      then (do delete_from_power_dns rr; release rr)
      else release rr
