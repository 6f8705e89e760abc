-- ===== src/Controller/Zones/Reconcile.antt =====
-- `Reconcile`, `reconcileZone`, `markNotReady` and `markFailed` of
-- internal/controller/zone_controller.go.
pub mod ZoneGates
pub mod Adoption
use aether_powerdns.Prelude.{
  ℕ, String, Bool, true, false, List, [], ◌∷◌, Option, ◌<>◌, ◌&&◌, ◌||◌, ◌==◌, not, Result, ok, err,
  Error, api_not_found, err_not_found, err_already_exists, is_kind, Action, ◌>>=◌, ◌>>◌, return,
  fail, attempt, quote, items, text_lists_eq, if◌then◌else◌,
}
use aether_powerdns.Api.Meta.{
  NamespacedName, show_name, ReconcileResult, ConditionStatus, condition_true, condition_false,
}
use aether_powerdns.Api.Server.{PowerDnsServer, phase_ready, condition_ready}
use aether_powerdns.Api.Zones.{
  Zone, zone_kind_secondary, zone_phase_pending, zone_phase_ready, zone_phase_failed,
  condition_registered, condition_dnssec_ready,
}
use aether_powerdns.Pdns.Types.{PdnsZone, ZoneUpdate, Transport}
use aether_powerdns.Pdns.Client.{Client, get_zone, update_zone}
use aether_powerdns.Controller.World.{
  Cluster, World, read, write, on_pdns, event, event_warning, set_cond_on,
}
use aether_powerdns.Controller.Common.{
  requeue_short, requeue_long, resync_interval, done, requeue_now, requeue_in, ignore_not_found,
  api_reason,
}
use aether_powerdns.Controller.Access.{namespace_allowed, server_key_for, pdns_client_for}
use aether_powerdns.Controller.Zones.Create.{want_kind, create_zone}
use aether_powerdns.Controller.Zones.Dnssec.{ensure_dnssec}
use aether_powerdns.Controller.Zones.Deletion.{zone_finalizer, reconcile_delete}

-- The kind or the masters in PowerDNS are not the declared ones.
unfoldable pub drifted : Zone → PdnsZone → Bool
drifted zone pz =
    not (pz.kind == want_kind zone)
    || not (text_lists_eq (items pz.masters) (items zone.spec.masters))

module _ (K : Cluster) (T : Transport) where
  abbrev W : Type 0
  W = World K.State T.State

  -- `setCondOn` on the zone's conditions.
  unfoldable pub with_cond : Zone → String → ConditionStatus → String → String → Zone
  with_cond zone type status reason message = record zone {
    status = record zone.status {
      conditions =
          set_cond_on K zone.status.conditions zone.meta.generation type status reason message;
    };
  }

  unfoldable pub mark_not_ready : Zone → String → String → ℕ → Action W ReconcileResult
  unfolding with_cond
  mark_not_ready zone reason msg after = do
    write (
        K.update_zone_status (
          with_cond
            (record zone {
              status = record zone.status { phase = zone_phase_pending; failure_message = msg };
            })
            condition_ready condition_false reason msg))
    return (requeue_in after)

  unfoldable pub mark_failed : Zone → String → Action W ReconcileResult
  unfolding with_cond
  mark_failed zone msg = do
    write (
        K.update_zone_status (
          with_cond
            (record zone {
              status = record zone.status { phase = zone_phase_failed; failure_message = msg };
            })
            condition_ready condition_false "InvalidSpec" msg))
    event event_warning "InvalidSpec" msg
    return done

  -- The end of a pass that converged the zone.
  mark_ready : Zone → PdnsZone → Action W ReconcileResult
  mark_ready zone pz = do
    write (
        K.update_zone_status (
          with_cond
            (record zone {
              status = record zone.status {
                phase = zone_phase_ready;
                serial = pz.serial;
                observed_generation = zone.meta.generation;
                failure_message = "";
              };
            })
            condition_ready condition_true "Reconciled" ""))
    return (requeue_in resync_interval)

  -- After `ensureDNSSEC`.
  secured : Zone → PdnsZone → Result (List String) → Action W ReconcileResult
  secured zone pz (err e) =
      mark_not_ready (with_cond zone condition_dnssec_ready condition_false (api_reason e) e.text)
        (api_reason e) e.text requeue_long
  secured zone pz (ok ds) =
      let zone' : Zone = record zone { status = record zone.status { ds_records = ds } } in
      if zone.spec.dnssec.enabled
      then mark_ready
          (with_cond zone' condition_dnssec_ready condition_true "Secured"
            "zone is signed; lodge status.dsRecords at the registrar")
          pz
      else mark_ready
          (with_cond zone' condition_dnssec_ready condition_false "Disabled" "dnssec not enabled")
          pz

  secure : Zone → Client → PdnsZone → Action W ReconcileResult
  secure zone pc pz = do
    ds ← attempt (on_pdns (ensure_dnssec T pc zone.spec.zone_name zone.spec.dnssec.enabled))
    secured zone pz ds

  -- After the correction of kind and masters.
  updated : Zone → Client → PdnsZone → Result (Unit {0}) → Action W ReconcileResult
  updated zone pc pz (err e) = mark_not_ready zone (api_reason e) e.text requeue_long
  updated zone pc pz (ok _) = secure zone pc pz

  -- With the zone found, made or adopted, or the error.
  registered : Zone → Client → Result PdnsZone → Action W ReconcileResult
  registered zone pc (err e) =
      mark_not_ready (with_cond zone condition_registered condition_false (api_reason e) e.text)
        (api_reason e) e.text requeue_long
  registered zone pc (ok pz) =
      let zone' =
        with_cond zone condition_registered condition_true "ZoneExists"
          "zone registered in PowerDNS" in
      if drifted zone' pz
      then (do
        r ← attempt (
            on_pdns (
              update_zone T pc zone'.spec.zone_name
                (record { kind = want_kind zone'; masters = zone'.spec.masters })))
        updated zone' pc pz r)
      else secure zone' pc pz

  -- After `createZone`: an already existing zone is adopted.
  adopted : Zone → Client → Result PdnsZone → Action W PdnsZone
  adopted zone pc (ok pz) = return pz
  adopted zone pc (err e) =
      if is_kind err_already_exists e.kind
      then on_pdns (get_zone T pc zone.spec.zone_name)
      else fail e

  found_or_made : Zone → Client → Result PdnsZone → Action W PdnsZone
  found_or_made zone pc (ok pz) = return pz
  found_or_made zone pc (err e) =
      if is_kind err_not_found e.kind
      then (do made ← attempt (create_zone T zone pc); adopted zone pc made)
      else fail e

  unfoldable pub obtain : Zone → Client → Action W PdnsZone
  unfolding found_or_made adopted
  obtain zone pc = do
    found ← attempt (on_pdns (get_zone T pc zone.spec.zone_name))
    found_or_made zone pc found

  unfoldable pub reconcile_zone : Zone → Client → Action W ReconcileResult
  unfolding registered updated secure secured mark_ready
  reconcile_zone zone pc = do pz ← attempt (obtain zone pc); registered zone pc pz

  with_client : Zone → Result Client → Action W ReconcileResult
  with_client zone (err e) = mark_not_ready zone "APIUnreachable" e.text requeue_long
  with_client zone (ok pc) = reconcile_zone zone pc

  with_server : Zone → Result PowerDnsServer → Action W ReconcileResult
  with_server zone (err e) =
      if is_kind api_not_found e.kind
      then mark_not_ready zone "ServerNotFound"
          ("PowerDNSServer " <> (show_name (server_key_for zone) <> " not found")) requeue_long
      else fail e
  with_server zone (ok server) =
      if not (namespace_allowed server zone.meta.namespace)
      then mark_not_ready zone "NamespaceNotAllowed"
          ("namespace "
            <> (quote zone.meta.namespace
                <> (" is not allowed by "
                    <> (server.meta.namespace
                        <> ("/"
                            <> (server.meta.name <> " spec.zoneManagement.allowedNamespaces"))))))
          requeue_long
      else if not (server.status.phase == phase_ready)
      then mark_not_ready zone "ServerNotReady" "PowerDNSServer is not Ready yet" requeue_short
      else (do pc ← attempt (pdns_client_for K server); with_client zone pc)

  with_live_zone : Zone → Action W ReconcileResult
  with_live_zone zone =
      if zone.spec.kind == zone_kind_secondary && zone.spec.dnssec.enabled
      then mark_failed zone "dnssec cannot be enabled on Secondary zones — sign at the primary"
      else (do
        server ← attempt (read (K.get_server (server_key_for zone)))
        with_server zone server)

  with_zone : Result Zone → Action W ReconcileResult
  with_zone (err e) = ignore_not_found e
  with_zone (ok zone) =
      if zone.meta.deleting
      then reconcile_delete K T zone
      else if not (K.contains_finalizer zone.meta.finalizers zone_finalizer)
      then (do
        write (
            K.update_zone (record zone {
              meta = record zone.meta {
                finalizers = K.add_finalizer zone.meta.finalizers zone_finalizer;
              };
            }))
        return requeue_now)
      else with_live_zone zone

  unfoldable pub reconcile : NamespacedName → Action W ReconcileResult
  unfolding with_zone with_live_zone with_server with_client
  reconcile req = do zone ← attempt (read (K.get_zone req)); with_zone zone
