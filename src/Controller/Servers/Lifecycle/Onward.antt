-- ===== src/Controller/Servers/Lifecycle/Onward.antt =====
-- The phases of internal/controller/powerdnsserver_controller.go up to the Deployment: each that asks
-- for another pass at once has brought the server to a later one.
use aether_powerdns.Prelude.{
  Bool, Option, none, some, ◌==◌, refl, not, Result, ok, err, attempt, is_kind, api_not_found, leb,
  arith,
}
use aether_powerdns.Api.Meta.{NamespacedName}
use aether_powerdns.Api.Server.{
  PowerDnsServer, ByoPostgres, phase_provisioning_backend, phase_initializing_schema,
  phase_deploying_server, phase_exposing_dns,
}
use aether_powerdns.Manifests.Unstructured.{cluster}
use aether_powerdns.Manifests.Naming.{name_set}
use aether_powerdns.Manifests.Workload.Schema.{schema_init_job}
use aether_powerdns.Controller.Servers.Workload.{ensure_workload}
use aether_powerdns.Manifests.Pods.{Deployment, Job, JobCondition}
use aether_powerdns.Controller.Common.{requeue_in, requeue_short}
use aether_powerdns.Controller.Kube.{Kind, server, Kube}
use aether_powerdns.Controller.Kube.Children.{within, lift, ensure_owned}
use aether_powerdns.Controller.Servers.Backend.{
  ensure_api_key, cnpg_cluster_ready, materialise_cnpg_backend_secret,
}
use aether_powerdns.Controller.Servers.Lifecycle.Ranks.{rank_values}
use aether_powerdns.Controller.Servers.Phases as Phases
use aether_powerdns.Controller.Servers.Validation.{validate_spec}
use aether_powerdns.Controller.Kube.Answers.{write-Gives, within-Gives}
use aether_powerdns.Controller.Servers.Backend.Apart.{ensure_api_key-Gives}
use aether_powerdns.Controller.Servers.Workload.Apart.{ensure_workload-Gives}
use aether_powerdns.Controller.World.{read, write, event, event_normal}
use aether_powerdns.Controller.Servers.Lifecycle.Advances.{
  IsAt, StoresStatus, Advances, bind-Advances, given-Advances, then-Advances, if-Advances,
  waits-Advances, fails-Advances, set_phase-Advances, set_failed-Advances,
}

-- The phases, each with the number of the one that it is.
module _ (A : Kube) (key : NamespacedName) (law : StoresStatus A key) (s : PowerDnsServer)
    (at_key : IsAt key s) where
  pub phase_pending-Advances : Advances A key law 0 (Phases.phase_pending A s)
  unfolding Phases.phase_pending
  phase_pending-Advances =
      if-Advances A key law 0 (not (validate_spec s == ""))
        (λ h. set_failed-Advances A key law 0 s (validate_spec s))
        (λ h.
          given-Advances A key law 0 (within "ensure api key" (write (ensure_api_key A s)))
            (within-Gives "ensure api key" (write-Gives (ensure_api_key-Gives A s)))
            (λ t same.
              then-Advances A key law 0
                (event event_normal "Provisioning" "PowerDNSServer accepted; provisioning backend")
                (set_phase-Advances A key law 0 _ phase_provisioning_backend (rw same at_key)
                  (omega (arith, rank_values.0)))))

  byo_materialised-Advances :
      (ready : Bool) → Advances A key law 1 (Phases.byo_materialised A s ready)
  unfolding Phases.byo_materialised
  byo_materialised-Advances ready =
      if-Advances A key law 1 (not ready) (λ h. waits-Advances A key law 1 _ refl)
        (λ h.
          set_phase-Advances A key law 1 _ phase_initializing_schema at_key
            (omega (arith, rank_values.1)))

  database_ready-Advances : (ready : Bool) → Advances A key law 1 (Phases.database_ready A s ready)
  unfolding Phases.database_ready
  database_ready-Advances ready =
      if-Advances A key law 1 (not ready) (λ h. waits-Advances A key law 1 _ refl)
        (λ h. then-Advances A key law 1 _ (
          set_phase-Advances A key law 1 _ phase_initializing_schema at_key
            (omega (arith, rank_values.1))))

  secret_materialised-Advances :
      (ready : Bool) → Advances A key law 1 (Phases.secret_materialised A s ready)
  unfolding Phases.secret_materialised
  secret_materialised-Advances ready =
      if-Advances A key law 1 (not ready) (λ h. waits-Advances A key law 1 _ refl)
        (λ h.
          bind-Advances A key law 1 (write (cnpg_cluster_ready A s (name_set s).cnpg_cluster))
            database_ready-Advances)

  pub provision-Advances :
      (byo : Option ByoPostgres) → Advances A key law 1 (Phases.provision A s byo)
  unfolding Phases.provision
  provision-Advances (some byo) = bind-Advances A key law 1 _ byo_materialised-Advances
  provision-Advances none =
      then-Advances A key law 1
        (within "ensure CNPG cluster"
          (write (ensure_owned A Kind.cluster (server s) (cluster s (name_set s).cnpg_cluster))))
        (bind-Advances A key law 1
          (write (materialise_cnpg_backend_secret A s (name_set s).cnpg_cluster))
          secret_materialised-Advances)

  deleted_job-Advances : (r : Result (Unit {0})) → Advances A key law 2 (Phases.deleted_job A r)
  unfolding Phases.deleted_job
  deleted_job-Advances (ok u) = waits-Advances A key law 2 _ refl
  deleted_job-Advances (err e) =
      if-Advances A key law 2 (not (is_kind api_not_found e.kind))
        (λ h. fails-Advances A key law 2 _) (λ h. waits-Advances A key law 2 _ refl)

  failed_job-Advances :
      (job : Job) (c : Option JobCondition) → Advances A key law 2 (Phases.failed_job A s job c)
  unfolding Phases.failed_job
  failed_job-Advances job none = waits-Advances A key law 2 _ refl
  failed_job-Advances job (some c) = then-Advances A key law 2 _ (
      bind-Advances A key law 2
        (attempt
          (write (A.delete Kind.job (record { namespace = job.namespace; name = job.name }))))
        deleted_job-Advances)

  create_schema_job-Advances : Advances A key law 2 (Phases.create_schema_job A s)
  unfolding Phases.create_schema_job
  create_schema_job-Advances =
      bind-Advances A key law 2 (lift (A.own Kind.job (server s) (schema_init_job s))) (λ owned.
        then-Advances A key law 2 (within "create schema job" (write (A.create Kind.job owned)))
          (waits-Advances A key law 2 (requeue_in requeue_short) refl))

  job_found-Advances : (r : Result Job) → Advances A key law 2 (Phases.job_found A s r)
  unfolding Phases.job_found
  job_found-Advances (err e) =
      if-Advances A key law 2 (is_kind api_not_found e.kind) (λ h. create_schema_job-Advances)
        (λ h. fails-Advances A key law 2 e)
  job_found-Advances (ok job) =
      if-Advances A key law 2 (leb 1 job.status.succeeded)
        (λ h. then-Advances A key law 2 _ (
          set_phase-Advances A key law 2 _ phase_deploying_server at_key
            (omega (arith, rank_values.2))))
        (λ h. failed_job-Advances job _)

  pub phase_initializing-Advances : Advances A key law 2 (Phases.phase_initializing A s)
  unfolding Phases.phase_initializing
  phase_initializing-Advances =
      bind-Advances A key law 2
        (attempt (
          read (
            A.get Kind.job
              (record { namespace = s.meta.namespace; name = (name_set s).schema_job }))))
        job_found-Advances

  deployment_available-Advances :
      (t : PowerDnsServer) (r : Result Deployment)
      → IsAt key t
      → Advances A key law 3 (Phases.deployment_available A t r)
  unfolding Phases.deployment_available
  deployment_available-Advances t (err e) t_at_key = waits-Advances A key law 3 _ refl
  deployment_available-Advances t (ok d) t_at_key =
      if-Advances A key law 3 (not (leb 1 d.status.available_replicas))
        (λ h. waits-Advances A key law 3 _ refl)
        (λ h.
          set_phase-Advances A key law 3 _ phase_exposing_dns t_at_key
            (omega (arith, rank_values.3)))

  pub phase_deploying-Advances : Advances A key law 3 (Phases.phase_deploying A s)
  unfolding Phases.phase_deploying
  phase_deploying-Advances =
      given-Advances A key law 3 (ensure_workload A s) (ensure_workload-Gives A s)
        (λ t (hash, same).
          bind-Advances A key law 3
            (attempt (
              read (
                A.get Kind.deployment
                  (record { namespace = t.meta.namespace; name = (name_set t).deployment }))))
            (λ r. deployment_available-Advances t r (rw same at_key)))
