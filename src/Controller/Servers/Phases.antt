-- ===== src/Controller/Servers/Phases.antt =====
-- The phases of internal/controller/powerdnsserver_controller.go up to `Ready`, each a function of
-- the server that was read.
use aether_powerdns.Prelude.{
  String, Bool, true, List, [], ◌∷◌, Option, none, some, ◌<>◌, ◌==◌, ◌&&◌, not, find?, leb,
  show_nat, Result, ok, err, api_not_found, is_kind, ◌>>=◌, ◌>>◌, attempt, return, fail,
  if◌then◌else◌,
}
use aether_powerdns.Api.Meta.{ReconcileResult}
use aether_powerdns.Api.Server.{
  PowerDnsServer, ByoPostgres, GatewayParentRef, DnsGatewaySpec, phase_provisioning_backend,
  phase_initializing_schema, phase_deploying_server, phase_exposing_dns, phase_ready,
  condition_ready, condition_available, condition_backend_provisioned, condition_schema_applied,
  dns_exposure_none, dns_exposure_load_balancer, dns_exposure_gateway,
}
use aether_powerdns.Manifests.Naming.{name_set}
use aether_powerdns.Manifests.Pods.{Deployment, Job, JobCondition}
use aether_powerdns.Manifests.Settings.{api_port_of}
use aether_powerdns.Manifests.Unstructured.{cluster}
use aether_powerdns.Manifests.Workload.Schema.{schema_init_job}
use aether_powerdns.Controller.Common.{requeue_short, requeue_long, requeue_in}
use aether_powerdns.Controller.Kube.{Kind, server, Kube}
use aether_powerdns.Controller.Kube.Children.{within, lift, ensure_owned}
use aether_powerdns.Controller.Servers.Backend.{
  byo_of, ensure_api_key, materialise_byo_backend_secret, materialise_cnpg_backend_secret,
  cnpg_cluster_ready,
}
use aether_powerdns.Controller.Servers.Exposure.{
  exposure_of, ingress_address, gateway_endpoint, reconcile_routes, dns_service_key, with_endpoint,
}
use aether_powerdns.Controller.Servers.Status.{Pass, true_cond, false_cond, set_phase, set_failed}
use aether_powerdns.Controller.Servers.Validation.{validate_spec}
use aether_powerdns.Controller.Servers.Workload.{ensure_workload}
use aether_powerdns.Controller.Services.{Service}
use aether_powerdns.Controller.World.{read, write, event, event_normal, event_warning}

-- What the phases put into the status.
abbrev pub with_backend : PowerDnsServer → PowerDnsServer
with_backend s = record s {
  status = record s.status { backend_secret_name = (name_set s).backend_secret };
}

abbrev pub with_schema : PowerDnsServer → PowerDnsServer
with_schema s = record s { status = record s.status { schema_applied = true } }

unfoldable pub api_endpoint_of : PowerDnsServer → String
unfolding name_set api_port_of
api_endpoint_of s =
    "http://"
    <> ((name_set s).api_service
        <> ("." <> (s.meta.namespace <> (".svc:" <> show_nat (api_port_of s)))))

abbrev pub with_api_endpoint : PowerDnsServer → PowerDnsServer
with_api_endpoint s = record s { status = record s.status { api_endpoint = api_endpoint_of s } }

-- `c.Type == batchv1.JobFailed && c.Status == corev1.ConditionTrue`.
abbrev pub has_failed : JobCondition → Bool
has_failed c = c.type == "Failed" && c.status == "True"

module _ (A : Kube) where
  unfoldable pub phase_pending : PowerDnsServer → Pass A ReconcileResult
  phase_pending s =
      let msg = validate_spec s in
      if not (msg == "") then set_failed A s msg else (do
        s' ← within "ensure api key" (write (ensure_api_key A s))
        event event_normal "Provisioning" "PowerDNSServer accepted; provisioning backend"
        set_phase A
            (false_cond A
              (false_cond A s' condition_ready "Provisioning" "Backend not yet provisioned")
              condition_available "Pending" "Server pods not yet running")
            phase_provisioning_backend)

  -- The database is ready: with a cluster of one's own, the condition and the event too.
  unfoldable pub byo_materialised : PowerDnsServer → Bool → Pass A ReconcileResult
  byo_materialised s ready =
      if not ready
      then return (requeue_in requeue_short)
      else set_phase A (with_backend s) phase_initializing_schema

  unfoldable pub database_ready : PowerDnsServer → Bool → Pass A ReconcileResult
  database_ready s ready = if not ready then return (requeue_in requeue_short) else (do
    event event_normal "BackendProvisioned" "Postgres backend ready, applying schema"
    set_phase A
        (true_cond A (with_backend s) condition_backend_provisioned "BackendReady"
          "Backend secret published")
        phase_initializing_schema)

  unfoldable pub secret_materialised : PowerDnsServer → Bool → Pass A ReconcileResult
  unfolding database_ready name_set
  secret_materialised s ready =
      if not ready
      then return (requeue_in requeue_short)
      else (do r ← write (cnpg_cluster_ready A s (name_set s).cnpg_cluster); database_ready s r)

  unfoldable pub provision : PowerDnsServer → Option ByoPostgres → Pass A ReconcileResult
  unfolding byo_materialised secret_materialised name_set
  provision s (some byo) = do
    ready ← write (materialise_byo_backend_secret A s byo)
    byo_materialised s ready
  provision s none = do
    within "ensure CNPG cluster"
        (write (ensure_owned A Kind.cluster (server s) (cluster s (name_set s).cnpg_cluster)))
    ready ← write (materialise_cnpg_backend_secret A s (name_set s).cnpg_cluster)
    secret_materialised s ready

  unfoldable pub phase_provisioning : PowerDnsServer → Pass A ReconcileResult
  unfolding provision
  phase_provisioning s = provision s (byo_of s)

  unfoldable pub create_schema_job : PowerDnsServer → Pass A ReconcileResult
  create_schema_job s = do
    owned ← lift (A.own Kind.job (server s) (schema_init_job s))
    within "create schema job" (write (A.create Kind.job owned))
    return (requeue_in requeue_short)

  unfoldable pub deleted_job : Result (Unit {0}) → Pass A ReconcileResult
  deleted_job (ok _) = return (requeue_in requeue_long)
  deleted_job (err e) =
      if not (is_kind api_not_found e.kind)
      then fail (record e { text = "delete failed schema job: " <> e.text })
      else return (requeue_in requeue_long)

  -- With the first condition that says that the Job failed.
  unfoldable pub failed_job : PowerDnsServer → Job → Option JobCondition → Pass A ReconcileResult
  unfolding deleted_job
  failed_job s job none = return (requeue_in requeue_short)
  failed_job s job (some c) = do
    event event_warning "SchemaJobRetried"
        ("schema init Job failed (" <> (c.reason <> ("); recreating: " <> c.message)))
    r ← attempt (write (A.delete Kind.job (record { namespace = job.namespace; name = job.name })))
    deleted_job r

  unfoldable pub job_found : PowerDnsServer → Result Job → Pass A ReconcileResult
  unfolding create_schema_job failed_job
  job_found s (err e) = if is_kind api_not_found e.kind then create_schema_job s else fail e
  job_found s (ok job) =
      if leb 1 job.status.succeeded
      then (do
        event event_normal "SchemaApplied" "PowerDNS schema initialised"
        set_phase A
            (true_cond A (with_schema s) condition_schema_applied "SchemaApplied"
              "PowerDNS schema applied to Postgres")
            phase_deploying_server)
      else failed_job s job (find? has_failed job.status.conditions)

  unfoldable pub phase_initializing : PowerDnsServer → Pass A ReconcileResult
  unfolding job_found name_set
  phase_initializing s = do
    job ← attempt (
        read (
          A.get Kind.job (record { namespace = s.meta.namespace; name = (name_set s).schema_job })))
    job_found s job

  unfoldable pub deployment_available : PowerDnsServer → Result Deployment → Pass A ReconcileResult
  deployment_available s (err e) = return (requeue_in requeue_short)
  deployment_available s (ok deploy) =
      if not (leb 1 deploy.status.available_replicas)
      then return (requeue_in requeue_short)
      else set_phase A (with_api_endpoint s) phase_exposing_dns

  unfoldable pub phase_deploying : PowerDnsServer → Pass A ReconcileResult
  unfolding deployment_available name_set
  phase_deploying s = do
    s' ← ensure_workload A s
    deploy ← attempt (
        read (
          A.get Kind.deployment
            (record { namespace = s'.meta.namespace; name = (name_set s').deployment })))
    deployment_available s' deploy

  unfoldable pub expose_balancer : PowerDnsServer → Service → Pass A ReconcileResult
  expose_balancer s svc =
      let ip = ingress_address svc.ingress in
      if ip == ""
      then return (requeue_in requeue_short)
      else set_phase A (with_endpoint A s (ip <> ":53")) phase_ready

  -- With the parents of the gateway.
  unfoldable pub expose_parents :
      PowerDnsServer → DnsGatewaySpec → List GatewayParentRef → Pass A ReconcileResult
  expose_parents s gw [] = set_failed A s "dns.exposure=gateway requires dns.gateway.parentRefs"
  expose_parents s gw (p ∷ ps) =
      set_phase A (with_endpoint A s (gateway_endpoint s.meta.namespace gw)) phase_ready

  unfoldable pub expose_gateway : PowerDnsServer → Option DnsGatewaySpec → Pass A ReconcileResult
  unfolding expose_parents
  expose_gateway s none = set_failed A s "dns.exposure=gateway requires dns.gateway.parentRefs"
  expose_gateway s (some gw) = expose_parents s gw gw.parent_refs

  unfoldable pub expose : PowerDnsServer → String → Pass A ReconcileResult
  unfolding expose_balancer expose_gateway
  expose s exposure =
      if exposure == dns_exposure_none
      then (do
        svc ← read (A.get Kind.service (dns_service_key A s))
        set_phase A (with_endpoint A s (svc.spec.cluster_ip <> ":53")) phase_ready)
      else if exposure == dns_exposure_load_balancer
      then (do svc ← read (A.get Kind.service (dns_service_key A s)); expose_balancer s svc)
      else if exposure == dns_exposure_gateway
      then expose_gateway s s.spec.dns.gateway
      else set_phase A s phase_ready

  unfoldable pub phase_exposing : PowerDnsServer → Pass A ReconcileResult
  unfolding expose
  phase_exposing s = do reconcile_routes A s; expose s (exposure_of s)
