-- ===== src/Controller/Servers/Lifecycle/Early.antt =====
-- The phases of internal/controller/powerdnsserver_controller.go up to the schema, as steps of
-- `Transition`.
use aether_powerdns.Prelude.{
  Bool, Option, none, some, ◌==◌, ◌≡◌, refl, not, Result, ok, err, api_not_found, is_kind, find?,
  leb, eq_iff, arith,
}
use aether_powerdns.Api.Meta.{NamespacedName}
use aether_powerdns.Api.Server.{
  PowerDnsServer, ByoPostgres, phase_provisioning_backend, phase_initializing_schema,
  phase_deploying_server,
}
use aether_powerdns.Manifests.Pods.{Job, JobCondition}
use aether_powerdns.Controller.Kube.{Kind, server, Kube}
use aether_powerdns.Controller.Kube.Answers.{
  bind-Keeps, given-Keeps, then-Keeps, attempt-Keeps, within-Keeps, if-Keeps, still-Keeps,
  write-Keeps, event-Keeps, write-Gives, within-Gives,
}
use aether_powerdns.Controller.Kube.Apart.{ensure_owned-Leaves}
use aether_powerdns.Controller.Servers.Backend.{byo_of}
use aether_powerdns.Controller.Servers.Backend.Apart.{
  ensure_api_key-Leaves, ensure_api_key-Gives, materialise_cnpg_backend_secret-Leaves,
  materialise_byo_backend_secret-Leaves, cnpg_cluster_ready-Leaves,
}
use aether_powerdns.Controller.Servers.Lifecycle.{
  IsNew, accept, refuse, provision, initialise, status_at,
}
use aether_powerdns.Controller.Servers.Phases as Phases
use aether_powerdns.Controller.Servers.Validation.{validate_spec}
use aether_powerdns.Controller.Servers.Lifecycle.Rules.{
  IsServerStore, Follows, set_phase-Follows, set_failed-Follows,
}

module _ (A : Kube) (key : NamespacedName) (law : IsServerStore A key) (s : PowerDnsServer) where
  pub phase_pending-Follows : IsNew s.status → Follows A key law s (Phases.phase_pending A s)
  unfolding Phases.phase_pending
  phase_pending-Follows fresh =
      if-Keeps (not (validate_spec s == ""))
        (λ invalid.
          set_failed-Follows A key law s (validate_spec s)
            (refuse fresh (λ e. ground (arith, eq_iff (validate_spec s) "")) refl refl))
        (λ valid.
          given-Keeps (within-Keeps _ (write-Keeps (ensure_api_key-Leaves A _ law.apart s)))
            (within-Gives "ensure api key" (write-Gives (ensure_api_key-Gives A s)))
            (λ t keyed. then-Keeps (event-Keeps (status_at A key) _ _ _) (
              set_phase-Follows A key law s _ phase_provisioning_backend
                (accept fresh (ground (arith, eq_iff (validate_spec s) "")) refl (rw keyed refl)))))

  byo_materialised-Follows :
      s.status.phase ≡ phase_provisioning_backend
      → (ready : Bool) → Follows A key law s (Phases.byo_materialised A s ready)
  unfolding Phases.byo_materialised
  byo_materialised-Follows now ready =
      if-Keeps (not ready) (λ e. still-Keeps (λ w. ok _))
        (λ e.
          set_phase-Follows A key law s _ phase_initializing_schema (provision now refl refl refl))

  database_ready-Follows :
      s.status.phase ≡ phase_provisioning_backend
      → (ready : Bool) → Follows A key law s (Phases.database_ready A s ready)
  unfolding Phases.database_ready
  database_ready-Follows now ready =
      if-Keeps (not ready) (λ e. still-Keeps (λ w. ok _))
        (λ e. then-Keeps (event-Keeps (status_at A key) _ _ _) (
          set_phase-Follows A key law s _ phase_initializing_schema (provision now refl refl refl)))

  secret_materialised-Follows :
      s.status.phase ≡ phase_provisioning_backend
      → (ready : Bool) → Follows A key law s (Phases.secret_materialised A s ready)
  unfolding Phases.secret_materialised
  secret_materialised-Follows now ready =
      if-Keeps (not ready) (λ e. still-Keeps (λ w. ok _))
        (λ e.
          bind-Keeps (write-Keeps (cnpg_cluster_ready-Leaves A _ law.apart s _))
            (λ r. database_ready-Follows now r))

  provision-Follows :
      s.status.phase ≡ phase_provisioning_backend
      → (byo : Option ByoPostgres) → Follows A key law s (Phases.provision A s byo)
  unfolding Phases.provision
  provision-Follows now (some byo) =
      bind-Keeps (write-Keeps (materialise_byo_backend_secret-Leaves A _ law.apart s byo))
        (λ r. byo_materialised-Follows now r)
  provision-Follows now none =
      then-Keeps (within-Keeps _ (write-Keeps (ensure_owned-Leaves A _ law.apart _ _ _))) (
        bind-Keeps (write-Keeps (materialise_cnpg_backend_secret-Leaves A _ law.apart s _))
          (λ r. secret_materialised-Follows now r))

  pub phase_provisioning-Follows :
      s.status.phase ≡ phase_provisioning_backend
      → Follows A key law s (Phases.phase_provisioning A s)
  unfolding Phases.phase_provisioning
  phase_provisioning-Follows now = provision-Follows now (byo_of s)

  create_schema_job-Follows : Follows A key law s (Phases.create_schema_job A s)
  unfolding Phases.create_schema_job
  create_schema_job-Follows = bind-Keeps (still-Keeps (λ w. A.own Kind.job (server s) _)) (λ owned.
      then-Keeps (within-Keeps _ (write-Keeps (law.apart.create Kind.job owned)))
        (still-Keeps (λ w. ok _)))

  deleted_job-Follows : (r : Result (Unit {0})) → Follows A key law s (Phases.deleted_job A r)
  unfolding Phases.deleted_job
  deleted_job-Follows (ok _) = still-Keeps (λ w. ok _)
  deleted_job-Follows (err e) =
      if-Keeps (not (is_kind api_not_found e.kind)) (λ h. still-Keeps (λ w. err _))
        (λ h. still-Keeps (λ w. ok _))

  failed_job-Follows :
      (job : Job) (c : Option JobCondition) → Follows A key law s (Phases.failed_job A s job c)
  unfolding Phases.failed_job
  failed_job-Follows job none = still-Keeps (λ w. ok _)
  failed_job-Follows job (some c) = then-Keeps (event-Keeps (status_at A key) _ _ _) (
      bind-Keeps (attempt-Keeps (write-Keeps (law.apart.delete Kind.job _)))
        (λ r. deleted_job-Follows r))

  job_found-Follows :
      s.status.phase ≡ phase_initializing_schema
      → (r : Result Job) → Follows A key law s (Phases.job_found A s r)
  unfolding Phases.job_found
  job_found-Follows now (err e) =
      if-Keeps (is_kind api_not_found e.kind) (λ h. create_schema_job-Follows)
        (λ h. still-Keeps (λ w. err e))
  job_found-Follows now (ok job) =
      if-Keeps (leb 1 job.status.succeeded)
        (λ h. then-Keeps (event-Keeps (status_at A key) _ _ _) (
          set_phase-Follows A key law s _ phase_deploying_server
            (initialise now refl refl refl refl)))
        (λ h. failed_job-Follows job (find? Phases.has_failed job.status.conditions))

  pub phase_initializing-Follows :
      s.status.phase ≡ phase_initializing_schema
      → Follows A key law s (Phases.phase_initializing A s)
  unfolding Phases.phase_initializing
  phase_initializing-Follows now =
      bind-Keeps (attempt-Keeps (still-Keeps (λ w. A.get Kind.job _ w.cluster)))
        (λ r. job_found-Follows now r)
