-- ===== src/Controller/Servers/Workload.antt =====
-- `ensureWorkload` and what it calls, of internal/controller/powerdnsserver_controller.go.
pub mod Apart
use aether_powerdns.Prelude.{
  String, Bool, true, false, List, [], ◌∷◌, Option, none, some, ◌==◌, ◌&&◌, not, any, lookup,
  Result, ok, err, Error, api_not_found, no_match, is_kind, Action, ◌>>=◌, ◌>>◌, attempt, return,
  fail, if◌then◌else◌,
}
use aether_powerdns.Api.Meta.{NamespacedName}
use aether_powerdns.Api.Server.{PowerDnsServer}
use aether_powerdns.Manifests.Budget.{PodDisruptionBudget, pod_disruption_budget}
use aether_powerdns.Manifests.Naming.{name_set}
use aether_powerdns.Manifests.Network.{NetworkPolicy, network_policy}
use aether_powerdns.Manifests.Pods.{ConfigMap}
use aether_powerdns.Manifests.Services.{api_service, dns_service, additional_dns_services}
use aether_powerdns.Manifests.Settings.{value_at, config_hash}
use aether_powerdns.Manifests.Unstructured.{pod_monitor}
use aether_powerdns.Manifests.Workload.{config_map, deployment}
use aether_powerdns.Controller.Kube.{Kind, OwnedSecret, Object, key_of, server, Kube}
use aether_powerdns.Controller.Kube.Children.{
  within, lift, look, ensure_owned, converge_owned_service, converge_config_map, object_at,
}
use aether_powerdns.Controller.Objects.{ignore_absent}
use aether_powerdns.Controller.Servers.Backend.{api_key_name}
use aether_powerdns.Controller.Servers.Status.{Pass}
use aether_powerdns.Controller.Services.{Service, put}
use aether_powerdns.Controller.World.{World, read, write, event, event_warning}

abbrev pub role_label : String
role_label = "dns.aetherplatform.cloud/role"

abbrev pub tagged : Service → Service
tagged svc = record svc { labels = put role_label "additional-dns" svc.labels }

module _ (A : Kube) where
  -- The entries of a Secret, none where it is missing.
  entries_or_none : Result OwnedSecret → Result (List (String × String))
  entries_or_none (ok sec) = ok sec.entries
  entries_or_none (err e) = if not (is_kind api_not_found e.kind) then err e else ok []

  secret_entries : NamespacedName → Action A.State (List (String × String))
  unfolding entries_or_none
  secret_entries key = do sec ← look (A.get Kind.secret key); lift (entries_or_none sec)

  unfoldable pub compute_config_hash : PowerDnsServer → ConfigMap → Action A.State String
  unfolding secret_entries name_set
  compute_config_hash s cm = do
    api ← secret_entries (record { namespace = s.meta.namespace; name = api_key_name s })
    backend ←
        secret_entries (record { namespace = s.meta.namespace; name = (name_set s).backend_secret })
    return (config_hash A.digest (value_at cm.entries "pdns.conf") (api ∷ backend ∷ []))

  -- The two loops of `reconcileAdditionalDNSServices`; the second is in the reconciler of DNSDist too.
  converge_additional : PowerDnsServer → List Service → Action A.State (Unit {0})
  converge_additional s [] = return tt
  converge_additional s (svc ∷ rest) =
      let later = converge_additional s rest in
      converge_owned_service A (server s) (tagged svc) >> later

  unfoldable pub delete_undesired : List Service → List Service → Action A.State (Unit {0})
  delete_undesired desired [] = return tt
  delete_undesired desired (svc ∷ rest) =
      let later = delete_undesired desired rest in
      if any (λ d. d.name == svc.name) desired then later else (do
        r ← attempt (A.delete Kind.service (key_of Kind.service svc))
        ignore_absent (object_at A Kind.service (key_of Kind.service svc)) r
        later)

  unfoldable pub reconcile_additional_dns_services : PowerDnsServer → Action A.State (Unit {0})
  unfolding converge_additional delete_undesired
  reconcile_additional_dns_services s = do
    let desired = additional_dns_services s
    converge_additional s desired
    found ← look (
        A.list_services s.meta.namespace (
          ("app.kubernetes.io/managed-by", "aether-powerdns")
          ∷ ("app.kubernetes.io/instance", s.meta.name)
          ∷ (role_label, "additional-dns")
          ∷ []))
    existing ← lift found
    delete_undesired desired existing

  -- `_ = r.Delete(…)`.
  abbrev pub delete_blindly : (k : Kind) → NamespacedName → Action A.State (Unit {0})
  delete_blindly k key = do r ← attempt (A.delete k key); return tt

  -- The disruption budget: ensured, or deleted where there is to be none.
  budget_of : PowerDnsServer → Option PodDisruptionBudget → Action A.State (Unit {0})
  unfolding name_set
  budget_of s (some pdb) = ensure_owned A Kind.budget (server s) pdb
  budget_of s none =
      delete_blindly Kind.budget (record { namespace = s.meta.namespace; name = (name_set s).pdb })

  unfoldable pub reconcile_budget : PowerDnsServer → Action A.State (Unit {0})
  unfolding budget_of
  reconcile_budget s = budget_of s (pod_disruption_budget s)

  unfoldable pub monitor_ensured : Result (Unit {0}) → Pass A (Unit {0})
  monitor_ensured (ok _) = return tt
  monitor_ensured (err e) =
      if is_kind no_match e.kind
      then event event_warning "PodMonitorUnavailable"
          "PodMonitor CRD not installed; metrics scraping skipped"
      else fail e

  unfoldable pub reconcile_observability : PowerDnsServer → Pass A (Unit {0})
  unfolding monitor_ensured
  reconcile_observability s =
      let pm = pod_monitor s in
      if not s.spec.observability.pod_monitor.enabled
      then write (delete_blindly Kind.pod_monitor (key_of Kind.pod_monitor pm))
      else (do
        r ← attempt (write (ensure_owned A Kind.pod_monitor (server s) pm))
        monitor_ensured r)

  policy_found : NetworkPolicy → Result NetworkPolicy → Action A.State (Unit {0})
  policy_found np (err e) = return tt
  policy_found np (ok existing) = A.update Kind.network_policy (record existing {
    pod_selector = np.pod_selector;
    policy_types = np.policy_types;
    ingress = np.ingress;
  })

  unfoldable pub reconcile_network_policy : PowerDnsServer → Action A.State (Unit {0})
  unfolding policy_found
  reconcile_network_policy s =
      let np = network_policy s in
      let key = key_of Kind.network_policy np in
      if not s.spec.network_policy.enabled then delete_blindly Kind.network_policy key else (do
        ensure_owned A Kind.network_policy (server s) np
        existing ← look (A.get Kind.network_policy key)
        policy_found np existing)

  abbrev pub with_hash : PowerDnsServer → String → PowerDnsServer
  with_hash s hash = record s { status = record s.status { config_hash = hash } }

  unfoldable pub hash_workload : PowerDnsServer → Pass A String
  hash_workload s = do
    let cm = config_map s
    within "ensure configmap" (write (converge_config_map A (server s) cm))
    within "compute config hash" (write (compute_config_hash s cm))

  unfoldable pub ensure_children : PowerDnsServer → String → Pass A (Unit {0})
  ensure_children s hash = do
    within "ensure deployment"
        (write (ensure_owned A Kind.deployment (server s) (deployment s hash)))
    within "ensure api service" (write (ensure_owned A Kind.service (server s) (api_service s)))
    within "ensure dns service" (write (ensure_owned A Kind.service (server s) (dns_service s)))
    within "reconcile additional dns services" (write (reconcile_additional_dns_services s))
    within "ensure pdb" (write (reconcile_budget s))
    within "reconcile observability" (reconcile_observability s)
    within "reconcile network policy" (write (reconcile_network_policy s))

  -- The server with the hash in its status.
  unfoldable pub ensure_workload : PowerDnsServer → Pass A PowerDnsServer
  ensure_workload s = do
    hash ← hash_workload s
    ensure_children (with_hash s hash) hash
    return (with_hash s hash)
