-- ===== src/Controller/Zones/Deletion/Release.antt =====
-- When the deletion of a zone (internal/controller/zone_controller.go) reaches PowerDNS, and when
-- it is released without.
use aether_powerdns.Prelude.{
  true, false, ◌≡◌, ◌≢◌, refl, sym, ap, ◌∙◌, ◌⊎◌, inl, inr, ◌||◌, ◌==◌, eq_iff, not, Result, ok,
  err, Error, ◌>>=◌, api_not_found, arith, ne-of-eq_false, Bool-cases, if◌then◌else◌, attempt,
  return, bind_result, err-ne-ok,
}
use aether_powerdns.Api.Meta.{ReconcileResult}
use aether_powerdns.Controller.Common.{done}
use aether_powerdns.Api.Server.{PowerDnsServer, phase_failed}
use aether_powerdns.Api.Zones.{Zone, deletion_policy_orphan}
use aether_powerdns.Pdns.Types.{Transport}
use aether_powerdns.Controller.World.{Cluster, RemovesFinalizers, World, read, write}
use aether_powerdns.Controller.World.Quiet.{
  IsQuiet, then-IsQuiet, return-IsQuiet, fail-IsQuiet, write-IsQuiet, if-IsQuiet,
}
use aether_powerdns.Controller.World.Gated.{Gated, quiet-Gated, check-Gated, look-Gated}
use aether_powerdns.Controller.Access.{server_key_for}
use aether_powerdns.Controller.Zones.Deletion.{
  zone_finalizer, release, delete_with_server, reconcile_delete,
}

module _ (K : Cluster) (s : K.State) (zone : Zone) where
  -- What is checked, in the cluster's state `s`, before a zone is removed from PowerDNS.
  pub record MayDelete : Type 0 where
    pub guarded : K.contains_finalizer zone.meta.finalizers zone_finalizer ≡ true
    pub not_orphan : zone.spec.deletion_policy ≢ deletion_policy_orphan
    pub server : PowerDnsServer
    pub server_found : K.get_server (server_key_for zone) s ≡ ok server
    pub server_live : server.meta.deleting ≡ false
    pub server_ok : server.status.phase ≢ phase_failed

  -- The server is gone, going, or has failed.
  pub data ServerGone : Type 0 where
    missing :
        (e : Error)
        → K.get_server (server_key_for zone) s ≡ err e
        → e.kind ≡ api_not_found
        → ServerGone
    deleting :
        (server : PowerDnsServer)
        → K.get_server (server_key_for zone) s ≡ ok server
        → server.meta.deleting ≡ true
        → ServerGone
    failed :
        (server : PowerDnsServer)
        → K.get_server (server_key_for zone) s ≡ ok server
        → server.status.phase ≡ phase_failed
        → ServerGone

module _ (K : Cluster) (T : Transport) (w : World K.State T.State) (zone : Zone) where
  release-IsQuiet : IsQuiet (release K T zone)
  unfolding release
  release-IsQuiet = then-IsQuiet (write-IsQuiet _) (return-IsQuiet _)

  with_server-MayDelete :
      (found : Result PowerDnsServer)
      → K.get_server (server_key_for zone) w.cluster ≡ found
      → K.contains_finalizer zone.meta.finalizers zone_finalizer ≡ true
      → zone.spec.deletion_policy ≢ deletion_policy_orphan
      → Gated w (MayDelete K w.cluster zone) (delete_with_server K T zone found)
  unfolding delete_with_server
  with_server-MayDelete (err e) got guarded not_orphan =
      quiet-Gated w _ _ (if-IsQuiet _ release-IsQuiet (fail-IsQuiet _))
  with_server-MayDelete (ok server) got guarded not_orphan =
      check-Gated w _ (server.meta.deleting || server.status.phase == phase_failed) _ _
        release-IsQuiet
        λ up. inr (record {
          guarded = guarded;
          not_orphan = not_orphan;
          server = server;
          server_found = got;
          server_live = ground arith;
          server_ok = ground (arith, eq_iff server.status.phase phase_failed);
        })

  -- Deleting the resource leaves PowerDNS as it is, unless the resource carries the finalizer and
  -- is not to be orphaned, and its server is found, not being deleted and not failed.
  pub reconcile_delete-MayDelete :
      ((reconcile_delete K T zone w).1.pdns ≡ w.pdns) ⊎ MayDelete K w.cluster zone
  unfolding reconcile_delete
  reconcile_delete-MayDelete =
      check-Gated w _ (not (K.contains_finalizer zone.meta.finalizers zone_finalizer)) _ _
        (return-IsQuiet _)
        λ guarded.
          orphan (ground arith) (Bool-cases (zone.spec.deletion_policy == deletion_policy_orphan))
    where
      orphan :
          K.contains_finalizer zone.meta.finalizers zone_finalizer ≡ true
          → (zone.spec.deletion_policy == deletion_policy_orphan ≡ true)
            ⊎ (zone.spec.deletion_policy == deletion_policy_orphan ≡ false)
          → Gated w (MayDelete K w.cluster zone) (
              if not (zone.spec.deletion_policy == deletion_policy_orphan)
              then attempt (read (K.get_server (server_key_for zone)))
                >>= delete_with_server K T zone
              else release K T zone)
      orphan guarded (inl orphaned) = rw orphaned (quiet-Gated w _ _ release-IsQuiet)
      orphan guarded (inr kept) = rw kept (
          look-Gated w _ (K.get_server (server_key_for zone)) (delete_with_server K T zone)
            λ found got. with_server-MayDelete found got guarded (ne-of-eq_false _ _ kept))

  gone-release :
      (found : Result PowerDnsServer)
      → K.get_server (server_key_for zone) w.cluster ≡ found
      → ServerGone K w.cluster zone
      → delete_with_server K T zone found w ≡ release K T zone w
  unfolding delete_with_server
  gone-release found got (missing e answer kind) = rw (sym got ∙ answer, kind) refl
  gone-release found got (deleting server answer going) = rw (sym got ∙ answer, going) refl
  gone-release found got (failed server answer phase) =
      rw (sym got ∙ answer) (ground (arith, eq_iff server.status.phase phase_failed))

  -- A pass ended as `x` and has released the zone: PowerDNS is as it was, and the cluster was told
  -- one thing, to store the zone as it is but without the finalizer; as that went, so did the pass.
  pub record IsReleased (x : Result ReconcileResult × World K.State T.State) : Type 0 where
    pub pdns : x.1.pdns ≡ w.pdns
    pub written : Zone
    pub cluster : x.1.cluster ≡ (K.update_zone written w.cluster).1
    pub unguarded : K.contains_finalizer written.meta.finalizers zone_finalizer ≡ false
    pub spec : written.spec ≡ zone.spec
    pub status : written.status ≡ zone.status
    pub name : written.meta.name ≡ zone.meta.name
    pub namespace : written.meta.namespace ≡ zone.meta.namespace
    pub done : (K.update_zone written w.cluster).0 ≡ ok tt → x.0 ≡ ok done
    pub failed : (e : Error) → (K.update_zone written w.cluster).0 ≡ err e → x.0 ≡ err e

  written_then-result :
      (y : Result (Unit {0}) × World K.State T.State)
      → (y.0 ≡ ok tt → (bind_result y (λ _. return done)).0 ≡ ok done)
        × ((e : Error) → y.0 ≡ err e → (bind_result y (λ _. return done)).0 ≡ err e)
        × ((bind_result y (λ _. return done)).1 ≡ y.1)
  written_then-result (ok u, w') = (λ h. refl, λ e h. absurd (err-ne-ok (sym h)), refl)
  written_then-result (err x, w') = (λ h. absurd (err-ne-ok h), λ e h. cc, refl)

  release-IsReleased : RemovesFinalizers K → IsReleased (release K T zone w)
  unfolding release
  release-IsReleased law =
      let t : Zone = record zone {
        meta = record zone.meta {
          finalizers = K.remove_finalizer zone.meta.finalizers zone_finalizer;
        };
      } in
      let (took, refused, world) = written_then-result (write (K.update_zone t) w) in
      record {
        pdns = ap (λ v. v.pdns) world;
        written = t;
        cluster = ap (λ v. v.cluster) world;
        unguarded = law.contains-remove_finalizer zone.meta.finalizers zone_finalizer;
        spec = refl;
        status = refl;
        name = refl;
        namespace = refl;
        done = took;
        failed = refused;
      }

  deleted-release :
      K.contains_finalizer zone.meta.finalizers zone_finalizer ≡ true
      → (zone.spec.deletion_policy ≡ deletion_policy_orphan) ⊎ ServerGone K w.cluster zone
      → reconcile_delete K T zone w ≡ release K T zone w
  unfolding reconcile_delete
  deleted-release guarded (inl orphaned) = rw (guarded, (eq_iff _ _).1 orphaned) refl
  deleted-release guarded (inr gone) =
      elim (Bool-cases (zone.spec.deletion_policy == deletion_policy_orphan)) [
        | inl orphaned ↦ rw (guarded, orphaned) refl
        | inr kept ↦ rw (guarded, kept) (gone-release _ refl gone)
      ]

  -- A resource that carries the finalizer and is to be orphaned, or whose server is gone, being
  -- deleted or failed, is released at once, without a change of PowerDNS: the cluster is told to
  -- store the zone without the finalizer, and the pass is done if that succeeds and fails with its
  -- error if not.
  pub reconcile_delete-IsReleased :
      RemovesFinalizers K
      → K.contains_finalizer zone.meta.finalizers zone_finalizer ≡ true
      → (zone.spec.deletion_policy ≡ deletion_policy_orphan) ⊎ ServerGone K w.cluster zone
      → IsReleased (reconcile_delete K T zone w)
  reconcile_delete-IsReleased law guarded why =
      rw (deleted-release guarded why) (release-IsReleased law)
