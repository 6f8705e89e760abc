-- ===== src/Controller/Zones/Deletion.antt =====
-- `reconcileDelete` of internal/controller/zone_controller.go.
pub mod Release
use aether_powerdns.Prelude.{
  String, Bool, true, false, List, ◌<>◌, ◌||◌, ◌==◌, not, Result, ok, err, Error, api_not_found,
  is_kind, Action, ◌>>=◌, ◌>>◌, return, fail, attempt, if◌then◌else◌,
}
use aether_powerdns.Api.Meta.{ReconcileResult}
use aether_powerdns.Api.Server.{PowerDnsServer, phase_failed}
use aether_powerdns.Api.Zones.{Zone, deletion_policy_orphan}
use aether_powerdns.Pdns.Types.{Transport}
use aether_powerdns.Pdns.Client.{Client, delete_zone}
use aether_powerdns.Controller.World.{Cluster, World, read, write, on_pdns, event, event_normal}
use aether_powerdns.Controller.Common.{done}
use aether_powerdns.Controller.Access.{server_key_for, pdns_client_for}

abbrev pub zone_finalizer : String
zone_finalizer = "dns.aetherplatform.cloud/zone-protection"

module _ (K : Cluster) (T : Transport) where
  abbrev W : Type 0
  W = World K.State T.State

  unfoldable pub release : Zone → Action W ReconcileResult
  release zone = do
    write (
        K.update_zone (record zone {
          meta = record zone.meta {
            finalizers = K.remove_finalizer zone.meta.finalizers zone_finalizer;
          };
        }))
    return done

  -- The `default` case.
  unfoldable pub delete_on : Zone → PowerDnsServer → Action W ReconcileResult
  delete_on zone server = do
    pc ← pdns_client_for K server
    on_pdns (delete_zone T pc zone.spec.zone_name)
    event event_normal "ZoneDeleted" ("removed " <> (zone.spec.zone_name <> " from PowerDNS"))
    release zone

  delete_with_server : Zone → Result PowerDnsServer → Action W ReconcileResult
  delete_with_server zone (err e) = if is_kind api_not_found e.kind then release zone else fail e
  delete_with_server zone (ok server) =
      if server.meta.deleting || server.status.phase == phase_failed
      then release zone
      else delete_on zone server

  unfoldable pub reconcile_delete : Zone → Action W ReconcileResult
  unfolding delete_with_server
  reconcile_delete zone =
      if not (K.contains_finalizer zone.meta.finalizers zone_finalizer)
      then return done
      else if not (zone.spec.deletion_policy == deletion_policy_orphan)
      then (do
        server ← attempt (read (K.get_server (server_key_for zone)))
        delete_with_server zone server)
      else release zone
