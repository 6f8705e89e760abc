-- ===== src/Controller/Records/Reconcile/Gates.antt =====
-- When a pass over a record set (internal/controller/rrset_controller.go) reaches PowerDNS.
use aether_powerdns.Prelude.{
  String, true, false, List, ◌≡◌, ◌≢◌, refl, ◌∙◌, ◌⊎◌, inr, ◌==◌, eq_iff, not, Result, ok, err,
  arith, ne-of-eq_false, map_right, ℕ,
}
use aether_powerdns.Api.Meta.{NamespacedName}
use aether_powerdns.Api.Server.{PowerDnsServer, phase_ready}
use aether_powerdns.Api.Zones.{RrSet, Zone, zone_kind_secondary, zone_phase_ready}
use aether_powerdns.Pdns.Types.{Transport}
use aether_powerdns.Controller.World.{Cluster, World}
use aether_powerdns.Controller.World.Quiet.{
  IsQuiet, then-IsQuiet, return-IsQuiet, fail-IsQuiet, write-IsQuiet, if-IsQuiet,
}
use aether_powerdns.Controller.World.Gated.{
  Gated, quiet-Gated, check-Gated, look-Gated, split-Gated,
}
use aether_powerdns.Controller.Access.{ref_key, namespace_allowed, server_key_for, zone_key_for}
use aether_powerdns.Controller.Records.Match.{name_in_zone}
use aether_powerdns.Controller.Records.Conflict.{conflict_in}
use aether_powerdns.Controller.Records.Deletion.{rrset_finalizer}
use aether_powerdns.Controller.Records.Deletion.Release.{
  MayRemove, find_conflict-Gated, reconcile_delete-MayRemove,
}
use aether_powerdns.Controller.Records.Reconcile.{
  mark_not_ready, unconflicted, with_server, with_zone, with_rrset, reconcile,
}

-- What is checked, in the cluster's state `s`, before a record set is written to PowerDNS.
pub record MayApply (K : Cluster) (s : K.State) (rr : RrSet) : Type 0 where
  pub guarded : K.contains_finalizer rr.meta.finalizers rrset_finalizer ≡ true
  pub live : rr.meta.deleting ≡ false
  pub zone : Zone
  pub zone_found : K.get_zone (zone_key_for rr) s ≡ ok zone
  pub zone_live : zone.meta.deleting ≡ false
  pub not_secondary : zone.spec.kind ≢ zone_kind_secondary
  pub inside : name_in_zone rr.spec.name zone.spec.zone_name ≡ true
  pub zone_ready : zone.status.phase ≡ zone_phase_ready
  pub server : PowerDnsServer
  pub server_found : K.get_server (server_key_for zone) s ≡ ok server
  pub allowed : namespace_allowed server rr.meta.namespace ≡ true
  pub server_ready : server.status.phase ≡ phase_ready
  pub claims : List RrSet
  pub listed : K.list_rrsets (ref_key rr.spec.zone_ref rr.meta.namespace) s ≡ ok claims
  pub no_rival : conflict_in rr claims ≡ ""

module _ (K : Cluster) (T : Transport) where
  pub mark_not_ready-IsQuiet :
      (rr : RrSet) (reason msg : String) (after : ℕ)
      → IsQuiet (mark_not_ready K T rr reason msg after)
  unfolding mark_not_ready
  mark_not_ready-IsQuiet rr reason msg after = then-IsQuiet (write-IsQuiet _) (return-IsQuiet _)

  module _ (w : World K.State T.State) (G : Type 0) (rr : RrSet) where
    unconflicted-Gated :
        (zone : Zone) (server : PowerDnsServer) (other : String)
        → (other ≡ "" → zone.status.phase ≡ zone_phase_ready → G)
        → Gated w G (unconflicted K T rr zone server other)
    unfolding unconflicted
    unconflicted-Gated zone server other h =
        check-Gated w G (not (other == "")) _ _ (mark_not_ready-IsQuiet rr _ _ _) λ clear.
          check-Gated w G (not (zone.status.phase == zone_phase_ready)) _ _
            (mark_not_ready-IsQuiet rr _ _ _)
            λ ready. inr (
              h (ground (arith, eq_iff other ""))
                (ground (arith, eq_iff zone.status.phase zone_phase_ready)))

    with_server-Gated :
        (zone : Zone) (found : Result PowerDnsServer)
        → ((server : PowerDnsServer) (claims : List RrSet)
            → found ≡ ok server
            → namespace_allowed server rr.meta.namespace ≡ true
            → server.status.phase ≡ phase_ready
            → K.list_rrsets (ref_key rr.spec.zone_ref rr.meta.namespace) w.cluster ≡ ok claims
            → conflict_in rr claims ≡ ""
            → zone.status.phase ≡ zone_phase_ready
            → G)
        → Gated w G (with_server K T rr zone found)
    unfolding with_server
    with_server-Gated zone (err e) h =
        quiet-Gated w G _ (if-IsQuiet _ (mark_not_ready-IsQuiet rr _ _ _) (fail-IsQuiet _))
    with_server-Gated zone (ok server) h =
        check-Gated w G (not (namespace_allowed server rr.meta.namespace)) _ _
          (mark_not_ready-IsQuiet rr _ _ _)
          λ allowed.
            check-Gated w G (not (server.status.phase == phase_ready)) _ _
              (mark_not_ready-IsQuiet rr _ _ _)
              λ ready.
                find_conflict-Gated K w G rr (unconflicted K T rr zone server) λ claims listed.
                  unconflicted-Gated zone server (conflict_in rr claims) (
                    h server claims refl (ground arith)
                      (ground (arith, eq_iff server.status.phase phase_ready)) listed)

  module _ (w : World K.State T.State) (rr : RrSet) where
    with_zone-MayApply :
        (found : Result Zone)
        → K.get_zone (zone_key_for rr) w.cluster ≡ found
        → K.contains_finalizer rr.meta.finalizers rrset_finalizer ≡ true
        → rr.meta.deleting ≡ false
        → Gated w (MayApply K w.cluster rr) (with_zone K T rr found)
    unfolding with_zone
    with_zone-MayApply (err e) _ guarded live =
        quiet-Gated w _ _ (if-IsQuiet _ (mark_not_ready-IsQuiet rr _ _ _) (fail-IsQuiet _))
    with_zone-MayApply (ok zone) found guarded live =
        check-Gated w G zone.meta.deleting _ _ (mark_not_ready-IsQuiet rr _ _ _) λ zone_live.
          check-Gated w G (zone.spec.kind == zone_kind_secondary) _ _
            (mark_not_ready-IsQuiet rr _ _ _)
            λ primary.
              check-Gated w G (not (name_in_zone rr.spec.name zone.spec.zone_name)) _ _
                (mark_not_ready-IsQuiet rr _ _ _)
                λ inside.
                  look-Gated w G (K.get_server (server_key_for zone)) (with_server K T rr zone)
                    λ answered got.
                      with_server-Gated w G rr zone answered
                        λ server claims same allowed ready listed clear zone_ready. record {
                          guarded = guarded;
                          live = live;
                          zone = zone;
                          zone_found = found;
                          zone_live = zone_live;
                          not_secondary = ne-of-eq_false _ _ primary;
                          inside = ground arith;
                          zone_ready = zone_ready;
                          server = server;
                          server_found = got ∙ same;
                          allowed = allowed;
                          server_ready = ready;
                          claims = claims;
                          listed = listed;
                          no_rival = clear;
                        }
      where
        G : Type 0
        G = MayApply K w.cluster rr

  -- The object that a pass finds, with the checks that let it write to PowerDNS.
  pub data MayTouch (s : K.State) (req : NamespacedName) : Type 0 where
    applies : (rr : RrSet) → K.get_rrset req s ≡ ok rr → MayApply K s rr → MayTouch s req
    removes :
        (rr : RrSet)
        → K.get_rrset req s ≡ ok rr
        → rr.meta.deleting ≡ true
        → MayRemove K s rr
        → MayTouch s req

  with_rrset-MayTouch :
      (w : World K.State T.State) (req : NamespacedName) (found : Result RrSet)
      → K.get_rrset req w.cluster ≡ found
      → Gated w (MayTouch w.cluster req) (with_rrset K T found)
  unfolding with_rrset
  with_rrset-MayTouch w req (err e) _ =
      quiet-Gated w _ _ (if-IsQuiet _ (return-IsQuiet _) (fail-IsQuiet _))
  with_rrset-MayTouch w req (ok rr) found =
      split-Gated w G rr.meta.deleting _ _
        (λ deleting. map_right (removes rr found deleting) (reconcile_delete-MayRemove K T w rr))
        λ live.
          check-Gated w G (not (K.contains_finalizer rr.meta.finalizers rrset_finalizer)) _ _
            (then-IsQuiet (write-IsQuiet _) (return-IsQuiet _))
            λ guarded. map_right (applies rr found) (
              look-Gated w _ (K.get_zone (zone_key_for rr)) (with_zone K T rr)
                λ zone got. with_zone-MayApply w rr zone got (ground arith) live)
    where
      G : Type 0
      G = MayTouch w.cluster req

  -- A pass leaves PowerDNS as it is, unless the resource is live, inside a zone that is Ready,
  -- not Secondary and not being deleted, on a server that is Ready and allows the resource's
  -- namespace, with no other claim on the record set; or unless it is being deleted and its
  -- removal passes the checks of `MayRemove`.
  pub reconcile-MayTouch :
      (w : World K.State T.State) (req : NamespacedName)
      → ((reconcile K T req w).1.pdns ≡ w.pdns) ⊎ MayTouch w.cluster req
  unfolding reconcile
  reconcile-MayTouch w req = with_rrset-MayTouch w req (K.get_rrset req w.cluster) refl
