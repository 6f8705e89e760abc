-- ===== src/Controller/Servers/Reconcile.antt =====
-- `phaseReady` with the correction of drift and the status of the replicas, `reconcileDelete` and
-- `Reconcile` of internal/controller/powerdnsserver_controller.go.
use aether_powerdns.Prelude.{
  ℕ, String, Bool, List, [], ◌∷◌, ◌<>◌, ◌==◌, ◌&&◌, ◌||◌, not, ltb, nat_eq, bool_eq, show_nat, join,
  Result, ok, err, ◌>>=◌, ◌>>◌, attempt, return, if◌then◌else◌,
}
use aether_powerdns.Api.Meta.{NamespacedName, ReconcileResult}
use aether_powerdns.Api.Server as Server
use aether_powerdns.Api.Server.{PowerDnsServer, condition_ready, condition_available}
use aether_powerdns.Manifests.Budget.{replicas_or_one}
use aether_powerdns.Manifests.Naming.{name_set}
use aether_powerdns.Manifests.Pods.{Deployment}
use aether_powerdns.Manifests.Services.{api_service, dns_service}
use aether_powerdns.Manifests.Settings.{validate_extra_settings}
use aether_powerdns.Manifests.Workload.{config_map, deployment}
use aether_powerdns.Controller.Common.{
  requeue_long, requeue_in, requeue_now, done, ignore_not_found,
}
use aether_powerdns.Controller.Kube.{Kind, server, Kube}
use aether_powerdns.Controller.Kube.Children.{
  update_deployment, converge_owned_service, converge_config_map,
}
use aether_powerdns.Controller.Servers.Exposure.{reconcile_routes, refresh_dns_endpoint}
use aether_powerdns.Controller.Servers.Phases.{
  phase_pending, phase_provisioning, phase_initializing, phase_deploying, phase_exposing,
}
use aether_powerdns.Controller.Servers.Status.{Pass, true_cond, false_cond}
use aether_powerdns.Controller.Servers.Workload.{
  compute_config_hash, reconcile_additional_dns_services, reconcile_budget, with_hash,
}
use aether_powerdns.Controller.World.{read, write, event, event_normal, event_warning}

abbrev pub finalizer : String
finalizer = "dns.aetherplatform.cloud/server-protection"

-- What the pass over a Deployment sees: the desired number of replicas, and whether all are there.
abbrev pub desired_of : Deployment → ℕ
desired_of d = replicas_or_one d.spec.replicas

abbrev pub is_available : Deployment → Bool
is_available d = nat_eq d.status.available_replicas (desired_of d) && ltb 0 (desired_of d)

abbrev pub replicas_message : Deployment → String
replicas_message d =
    show_nat d.status.available_replicas
    <> ("/" <> (show_nat (desired_of d) <> " replicas available"))

module _ (A : Kube) where
  unfoldable pub drift_hash : PowerDnsServer → Pass A String
  drift_hash s = do
    let cm = config_map s
    write (converge_config_map A (server s) cm)
    write (compute_config_hash A s cm)

  unfoldable pub drift_children : PowerDnsServer → String → Pass A (Unit {0})
  drift_children s hash = do
    write (update_deployment A (server s) (deployment s hash))
    write (converge_owned_service A (server s) (api_service s))
    write (converge_owned_service A (server s) (dns_service s))
    write (reconcile_additional_dns_services A s)
    reconcile_routes A s
    write (reconcile_budget A s)

  -- The server with the hash in its status.
  unfoldable pub reconcile_drift : PowerDnsServer → Pass A PowerDnsServer
  reconcile_drift s = do
    hash ← drift_hash s
    drift_children (with_hash A s hash) hash
    return (with_hash A s hash)

  -- The status that mirrors a Deployment.
  unfoldable pub mirrored : PowerDnsServer → Deployment → PowerDnsServer
  mirrored s d =
      let s' = record s {
        status = record s.status {
          ready = is_available d;
          ready_replicas = d.status.ready_replicas;
          desired_replicas = desired_of d;
        };
      } in
      if is_available d
      then true_cond A (true_cond A s' condition_available "AllReplicasReady" (replicas_message d))
          condition_ready "Ready" "Server is serving DNS and the API"
      else false_cond A
          (false_cond A s' condition_available "ReplicasUnavailable" (replicas_message d))
          condition_ready "Degraded" (replicas_message d)

  unfoldable pub announce : PowerDnsServer → Deployment → Pass A (Unit {0})
  announce s d =
      if is_available d && not s.status.ready
      then event event_normal "Ready" (
          "PowerDNSServer ready ("
          <> (show_nat d.status.available_replicas
              <> ("/"
                  <> (show_nat (desired_of d)
                      <> (" replicas, dns=" <> (s.status.dns_endpoint <> ")"))))))
      else if not (is_available d) && s.status.ready
      then event event_warning "Degraded" (replicas_message d)
      else return tt

  unfoldable pub replicas_found : PowerDnsServer → Deployment → Pass A (Unit {0})
  unfolding mirrored announce
  replicas_found s d =
      if not (bool_eq s.status.ready (is_available d))
        || not (nat_eq s.status.ready_replicas d.status.ready_replicas)
        || not (nat_eq s.status.desired_replicas (desired_of d))
      then write (A.update_server_status (mirrored s d)) >> announce s d
      else return tt

  unfoldable pub refresh_replica_status : PowerDnsServer → Pass A (Unit {0})
  unfolding replicas_found name_set
  refresh_replica_status s = do
    d ← read (
        A.get Kind.deployment
          (record { namespace = s.meta.namespace; name = (name_set s).deployment }))
    replicas_found s d

  unfoldable pub warn_rejected : List String → Pass A (Unit {0})
  warn_rejected [] = return tt
  warn_rejected (m ∷ ms) =
      event event_warning "ExtraSettingsRejected"
        ("extraSettings entries rejected and NOT rendered into pdns.conf: " <> join (m ∷ ms) "; ")

  unfoldable pub phase_ready : PowerDnsServer → Pass A ReconcileResult
  unfolding warn_rejected
  phase_ready s = do
    warn_rejected (validate_extra_settings s.spec.extra_settings)
    s' ← reconcile_drift s
    s'' ← refresh_dns_endpoint A s'
    refresh_replica_status s''
    return (requeue_in requeue_long)

  unfoldable pub reconcile_delete : PowerDnsServer → Pass A ReconcileResult
  reconcile_delete s = do
    write (
        A.update_server (record s {
          meta = record s.meta { finalizers = A.remove_finalizer s.meta.finalizers finalizer };
        }))
    return done

  unfoldable pub dispatch : PowerDnsServer → Pass A ReconcileResult
  dispatch s =
      let phase = s.status.phase in
      if phase == "" || phase == Server.phase_pending
      then phase_pending A s
      else if phase == Server.phase_provisioning_backend
      then phase_provisioning A s
      else if phase == Server.phase_initializing_schema
      then phase_initializing A s
      else if phase == Server.phase_deploying_server
      then phase_deploying A s
      else if phase == Server.phase_exposing_dns
      then phase_exposing A s
      else if phase == Server.phase_ready
      then phase_ready s
      else return done

  unfoldable pub with_server : Result PowerDnsServer → Pass A ReconcileResult
  unfolding dispatch
  with_server (err e) = ignore_not_found e
  with_server (ok s) =
      if s.meta.deleting
      then reconcile_delete s
      else if not (A.contains_finalizer s.meta.finalizers finalizer)
      then (do
        write (
            A.update_server (record s {
              meta = record s.meta { finalizers = A.add_finalizer s.meta.finalizers finalizer };
            }))
        return requeue_now)
      else dispatch s

  unfoldable pub reconcile : NamespacedName → Pass A ReconcileResult
  unfolding with_server
  reconcile key = do s ← attempt (read (A.get_server key)); with_server s
