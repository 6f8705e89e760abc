-- ===== src/Controller/Zones/Reconcile/ZoneGates.antt =====
-- When a pass over a zone (internal/controller/zone_controller.go) reaches PowerDNS.
use aether_powerdns.Prelude.{
  String, true, false, ◌≡◌, refl, ◌⊎◌, inr, ◌==◌, ◌&&◌, eq_iff, not, Result, ok, err, arith,
  map_right, ℕ,
}
use aether_powerdns.Api.Meta.{NamespacedName}
use aether_powerdns.Api.Server.{PowerDnsServer, phase_ready}
use aether_powerdns.Api.Zones.{Zone, zone_kind_secondary}
use aether_powerdns.Pdns.Types.{Transport}
use aether_powerdns.Controller.World.{Cluster, World}
use aether_powerdns.Controller.World.Quiet.{
  IsQuiet, then-IsQuiet, return-IsQuiet, fail-IsQuiet, write-IsQuiet, event-IsQuiet, if-IsQuiet,
}
use aether_powerdns.Controller.World.Gated.{
  Gated, quiet-Gated, check-Gated, look-Gated, split-Gated,
}
use aether_powerdns.Controller.Access.{namespace_allowed, server_key_for}
use aether_powerdns.Controller.Zones.Deletion.{zone_finalizer}
use aether_powerdns.Controller.Zones.Deletion.Release.{MayDelete, reconcile_delete-MayDelete}
use aether_powerdns.Controller.Zones.Reconcile.{
  mark_not_ready, mark_failed, with_server, with_live_zone, with_zone, reconcile,
}

-- What is checked, in the cluster's state `s`, before a zone is converged in PowerDNS.
pub record MayConverge (K : Cluster) (s : K.State) (zone : Zone) : Type 0 where
  pub guarded : K.contains_finalizer zone.meta.finalizers zone_finalizer ≡ true
  pub live : zone.meta.deleting ≡ false
  pub signable : ¬ ((zone.spec.kind ≡ zone_kind_secondary) × (zone.spec.dnssec.enabled ≡ true))
  pub server : PowerDnsServer
  pub server_found : K.get_server (server_key_for zone) s ≡ ok server
  pub allowed : namespace_allowed server zone.meta.namespace ≡ true
  pub server_ready : server.status.phase ≡ phase_ready

module _ (K : Cluster) (T : Transport) where
  pub mark_not_ready-IsQuiet :
      (zone : Zone) (reason msg : String) (after : ℕ)
      → IsQuiet (mark_not_ready K T zone reason msg after)
  unfolding mark_not_ready
  mark_not_ready-IsQuiet zone reason msg after = then-IsQuiet (write-IsQuiet _) (return-IsQuiet _)

  mark_failed-IsQuiet : (zone : Zone) (msg : String) → IsQuiet (mark_failed K T zone msg)
  unfolding mark_failed
  mark_failed-IsQuiet zone msg =
      then-IsQuiet (write-IsQuiet _) (then-IsQuiet (event-IsQuiet _ _ _) (return-IsQuiet _))

  module _ (w : World K.State T.State) (zone : Zone) where
    with_server-MayConverge :
        (found : Result PowerDnsServer)
        → K.get_server (server_key_for zone) w.cluster ≡ found
        → K.contains_finalizer zone.meta.finalizers zone_finalizer ≡ true
        → zone.meta.deleting ≡ false
        → ¬ ((zone.spec.kind ≡ zone_kind_secondary) × (zone.spec.dnssec.enabled ≡ true))
        → Gated w (MayConverge K w.cluster zone) (with_server K T zone found)
    unfolding with_server
    with_server-MayConverge (err e) got guarded live signable =
        quiet-Gated w _ _ (if-IsQuiet _ (mark_not_ready-IsQuiet zone _ _ _) (fail-IsQuiet _))
    with_server-MayConverge (ok server) got guarded live signable =
        check-Gated w _ (not (namespace_allowed server zone.meta.namespace)) _ _
          (mark_not_ready-IsQuiet zone _ _ _)
          λ allowed.
            check-Gated w _ (not (server.status.phase == phase_ready)) _ _
              (mark_not_ready-IsQuiet zone _ _ _)
              λ ready. inr (record {
                guarded = guarded;
                live = live;
                signable = signable;
                server = server;
                server_found = got;
                allowed = ground arith;
                server_ready = ground (arith, eq_iff server.status.phase phase_ready);
              })

    with_live_zone-MayConverge :
        K.contains_finalizer zone.meta.finalizers zone_finalizer ≡ true
        → zone.meta.deleting ≡ false
        → Gated w (MayConverge K w.cluster zone) (with_live_zone K T zone)
    unfolding with_live_zone
    with_live_zone-MayConverge guarded live =
        check-Gated w _ (zone.spec.kind == zone_kind_secondary && zone.spec.dnssec.enabled) _ _
          (mark_failed-IsQuiet zone _)
          λ fine.
            look-Gated w _ (K.get_server (server_key_for zone)) (with_server K T zone) λ found got.
              with_server-MayConverge found got guarded live
                (λ (secondary, enabled). ground (arith, eq_iff zone.spec.kind zone_kind_secondary))

  -- The object that a pass finds, with the checks that let it change PowerDNS.
  pub data MayTouchZone (s : K.State) (req : NamespacedName) : Type 0 where
    converges :
        (zone : Zone) → K.get_zone req s ≡ ok zone → MayConverge K s zone → MayTouchZone s req
    deletes :
        (zone : Zone)
        → K.get_zone req s ≡ ok zone
        → zone.meta.deleting ≡ true
        → MayDelete K s zone
        → MayTouchZone s req

  with_zone-MayTouchZone :
      (w : World K.State T.State) (req : NamespacedName) (found : Result Zone)
      → K.get_zone req w.cluster ≡ found
      → Gated w (MayTouchZone w.cluster req) (with_zone K T found)
  unfolding with_zone
  with_zone-MayTouchZone w req (err e) _ =
      quiet-Gated w _ _ (if-IsQuiet _ (return-IsQuiet _) (fail-IsQuiet _))
  with_zone-MayTouchZone w req (ok zone) found =
      split-Gated w _ zone.meta.deleting _ _
        (λ deleting.
          map_right (deletes zone found deleting) (reconcile_delete-MayDelete K T w zone))
        λ live.
          check-Gated w _ (not (K.contains_finalizer zone.meta.finalizers zone_finalizer)) _ _
            (then-IsQuiet (write-IsQuiet _) (return-IsQuiet _))
            λ guarded.
              map_right (converges zone found)
                (with_live_zone-MayConverge w zone (ground arith) live)

  -- A pass leaves PowerDNS as it is, unless the resource carries the finalizer, is live, does not
  -- ask for DNSSEC on a Secondary zone, and its server is found, allows the resource's namespace
  -- and is Ready; or unless it is being deleted and its removal passes the checks of `MayDelete`.
  pub reconcile-MayTouchZone :
      (w : World K.State T.State) (req : NamespacedName)
      → ((reconcile K T req w).1.pdns ≡ w.pdns) ⊎ MayTouchZone w.cluster req
  unfolding reconcile
  reconcile-MayTouchZone w req = with_zone-MayTouchZone w req (K.get_zone req w.cluster) refl
