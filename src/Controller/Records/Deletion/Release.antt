-- ===== src/Controller/Records/Deletion/Release.antt =====
-- When the deletion of a record set (internal/controller/rrset_controller.go) reaches PowerDNS.
use aether_powerdns.Prelude.{
  bind_result, ◌>>=◌, ◌>>◌, return, Action, ◌∙◌, Bool-cases, if◌then◌else◌, String, true, false,
  List, ◌≡◌, ◌≢◌, refl, ◌⊎◌, inl, inr, ◌||◌, ◌==◌, eq_iff, not, Result, ok, err, arith,
  ne-of-eq_false,
}
use aether_powerdns.Api.Server.{PowerDnsServer, phase_failed}
use aether_powerdns.Api.Zones.{RrSet, Zone, deletion_policy_orphan}
use aether_powerdns.Pdns.Types.{Transport}
use aether_powerdns.Controller.World.{Cluster, World}
use aether_powerdns.Controller.World.Quiet.{
  IsQuiet, then-IsQuiet, return-IsQuiet, fail-IsQuiet, write-IsQuiet, if-IsQuiet,
}
use aether_powerdns.Controller.World.Gated.{
  Gated, quiet-Gated, check-Gated, look-Gated, before-Gated,
}
use aether_powerdns.Controller.Access.{ref_key, server_key_for, zone_key_for}
use aether_powerdns.Controller.Records.Conflict.{conflict_in}
use aether_powerdns.Controller.Records.Deletion.{
  rrset_finalizer, find_conflict, delete_with_server, delete_in_zone, delete_from_power_dns,
  release, reconcile_delete,
}

-- What is checked, in the cluster's state `s`, before a record set is removed from PowerDNS.
pub record MayRemove (K : Cluster) (s : K.State) (rr : RrSet) : Type 0 where
  pub guarded : K.contains_finalizer rr.meta.finalizers rrset_finalizer ≡ true
  pub not_orphan : rr.spec.deletion_policy ≢ deletion_policy_orphan
  pub zone : Zone
  pub zone_found : K.get_zone (zone_key_for rr) s ≡ ok zone
  pub zone_live : zone.meta.deleting ≡ false
  pub claims : List RrSet
  pub listed : K.list_rrsets (ref_key rr.spec.zone_ref rr.meta.namespace) s ≡ ok claims
  pub no_rival : conflict_in rr claims ≡ ""
  pub server : PowerDnsServer
  pub server_found : K.get_server (server_key_for zone) s ≡ ok server
  pub server_live : server.meta.deleting ≡ false
  pub server_ok : server.status.phase ≢ phase_failed

module _ (K : Cluster) {P : Type 0} (w : World K.State P) (G : Type 0) (rr : RrSet) where
  conflict-result :
      {A : Type 0} (r : Result (List RrSet)) (g : String → Action (World K.State P) A)
      → ((list : List RrSet) → r ≡ ok list → Gated w G (g (conflict_in rr list)))
      → ((bind_result (bind_result (r, w) (λ list. return (conflict_in rr list))) g).1.pdns
          ≡ w.pdns)
        ⊎ G
  conflict-result (ok list) g h = h list refl
  conflict-result (err e) g h = inl refl

  pub find_conflict-Gated :
      {A : Type 0} (g : String → Action (World K.State P) A)
      → ((list : List RrSet)
          → K.list_rrsets (ref_key rr.spec.zone_ref rr.meta.namespace) w.cluster ≡ ok list
          → Gated w G (g (conflict_in rr list)))
      → Gated w G (find_conflict K rr >>= g)
  unfolding find_conflict
  find_conflict-Gated g h =
      conflict-result (K.list_rrsets (ref_key rr.spec.zone_ref rr.meta.namespace) w.cluster) g h

module _ (K : Cluster) (T : Transport) (w : World K.State T.State) (rr : RrSet) where
  release-IsQuiet : IsQuiet (release K T rr)
  unfolding release
  release-IsQuiet = then-IsQuiet (write-IsQuiet _) (return-IsQuiet _)

  delete_with_server-Gated :
      (zone : Zone) (found : Result PowerDnsServer)
      → (G : Type 0)
      → ((server : PowerDnsServer)
          → found ≡ ok server
          → server.meta.deleting ≡ false
          → server.status.phase ≢ phase_failed
          → G)
      → Gated w G (delete_with_server K T rr zone found)
  unfolding delete_with_server
  delete_with_server-Gated zone (err e) G h =
      quiet-Gated w G _ (if-IsQuiet _ (return-IsQuiet _) (fail-IsQuiet _))
  delete_with_server-Gated zone (ok server) G h =
      check-Gated w G (server.meta.deleting || server.status.phase == phase_failed) _ _
        (return-IsQuiet _)
        (λ e.
          inr (
            h server refl (ground arith) (ground (arith, eq_iff server.status.phase phase_failed))))

  delete_from_power_dns-Gated :
      K.contains_finalizer rr.meta.finalizers rrset_finalizer ≡ true
      → rr.spec.deletion_policy ≢ deletion_policy_orphan
      → Gated w (MayRemove K w.cluster rr) (delete_from_power_dns K T rr)
  unfolding delete_from_power_dns
  delete_from_power_dns-Gated guarded not_orphan =
      look-Gated w G (K.get_zone (zone_key_for rr)) (delete_in_zone K T rr) in_zone
    where
      G : Type 0
      G = MayRemove K w.cluster rr

      in_zone :
          (found : Result Zone)
          → K.get_zone (zone_key_for rr) w.cluster ≡ found
          → Gated w G (delete_in_zone K T rr found)
      in_zone (err e) h = quiet-Gated w G _ (if-IsQuiet _ (return-IsQuiet _) (fail-IsQuiet _))
      in_zone (ok zone) found = check-Gated w G zone.meta.deleting _ _ (return-IsQuiet _) λ live.
          find_conflict-Gated K w G rr _ λ list listed.
            check-Gated w G (not (conflict_in rr list == "")) _ _ (return-IsQuiet _) λ clear.
              look-Gated w G (K.get_server (server_key_for zone)) (delete_with_server K T rr zone)
                λ answered got. delete_with_server-Gated zone answered G λ server same up working.
                  record {
                    guarded = guarded;
                    not_orphan = not_orphan;
                    zone = zone;
                    zone_found = found;
                    zone_live = live;
                    claims = list;
                    listed = listed;
                    no_rival = ground (arith, eq_iff (conflict_in rr list) "");
                    server = server;
                    server_found = got ∙ same;
                    server_live = up;
                    server_ok = working;
                  }

  -- Deleting the resource leaves PowerDNS as it is, unless the resource carries the finalizer and
  -- is not to be orphaned, its zone is found and not being deleted, no other resource claims the
  -- record set, and the server is found, not being deleted and not failed.
  pub reconcile_delete-MayRemove :
      ((reconcile_delete K T rr w).1.pdns ≡ w.pdns) ⊎ MayRemove K w.cluster rr
  unfolding reconcile_delete
  reconcile_delete-MayRemove =
      check-Gated w G (not (K.contains_finalizer rr.meta.finalizers rrset_finalizer)) _ _
        (return-IsQuiet _)
        λ guarded.
          orphan (ground arith) (Bool-cases (rr.spec.deletion_policy == deletion_policy_orphan))
    where
      G : Type 0
      G = MayRemove K w.cluster rr

      orphan :
          K.contains_finalizer rr.meta.finalizers rrset_finalizer ≡ true
          → (rr.spec.deletion_policy == deletion_policy_orphan ≡ true)
            ⊎ (rr.spec.deletion_policy == deletion_policy_orphan ≡ false)
          → Gated w G (
              if not (rr.spec.deletion_policy == deletion_policy_orphan)
              then delete_from_power_dns K T rr >> release K T rr
              else release K T rr)
      orphan guarded (inl orphaned) = rw orphaned (quiet-Gated w G _ release-IsQuiet)
      orphan guarded (inr kept) = rw kept (
          before-Gated w G (delete_from_power_dns K T rr) (release K T rr) release-IsQuiet
            (delete_from_power_dns-Gated guarded (ne-of-eq_false _ _ kept)))
