-- ===== src/Controller/Tiers/Reconcile.antt =====
-- `Reconcile`, `refreshDNSDistStatus`, `markDNSDistNotReady` and `markDNSDistFailed` of
-- internal/controller/dnsdist_controller.go.
use aether_powerdns.Prelude.{
  ℕ, String, Bool, List, Option, none, some, ◌<>◌, ◌==◌, ◌&&◌, not, ltb, nat_eq, show_nat, Result,
  ok, err, Action, ◌>>=◌, ◌>>◌, attempt, return, fail, if◌then◌else◌,
}
use aether_powerdns.Api.Meta.{
  NamespacedName, ReconcileResult, ConditionStatus, condition_true, condition_false,
}
use aether_powerdns.Api.Server.{
  DnsGatewaySpec, condition_ready, condition_available, dns_exposure_gateway,
  dns_exposure_load_balancer,
}
use aether_powerdns.Api.Tiers.{DnsDist, condition_backends_ready}
use aether_powerdns.Api.Zones.{zone_phase_pending, zone_phase_ready, zone_phase_failed}
use aether_powerdns.Manifests.Budget.{replicas_or_one}
use aether_powerdns.Manifests.Pods.{Deployment}
use aether_powerdns.Manifests.Tier.{dns_dist_name_set}
use aether_powerdns.Controller.Common.{
  requeue_short, requeue_long, requeue_in, done, ignore_not_found,
}
use aether_powerdns.Controller.Kube.{Kind, Kube}
use aether_powerdns.Controller.Servers.Exposure.{ingress_address, gateway_endpoint}
use aether_powerdns.Controller.Services.{Service}
use aether_powerdns.Controller.Tiers.Backends.{
  View, Readiness, ready, not_ready, failed, backends_ready,
}
use aether_powerdns.Controller.Tiers.Children.{converge_config, converge_children}
use aether_powerdns.Controller.Tiers.Validation.{validate_dns_dist}
use aether_powerdns.Controller.World.{World, read, write, event, event_warning}

abbrev desired_of : Deployment → ℕ
desired_of dep = replicas_or_one dep.spec.replicas

abbrev pub is_available : Deployment → Bool
is_available dep = nat_eq dep.status.available_replicas (desired_of dep) && ltb 0 (desired_of dep)

abbrev replicas_message : Deployment → String
replicas_message dep =
    show_nat dep.status.available_replicas
    <> ("/" <> (show_nat (desired_of dep) <> " replicas available"))

-- The endpoint behind a Service, `""` without one.
unfoldable pub service_endpoint : String → Result Service → String
service_endpoint exposure (err e) = ""
service_endpoint exposure (ok svc) =
    if exposure == dns_exposure_load_balancer
    then (if ingress_address svc.ingress == "" then "" else ingress_address svc.ingress <> ":53")
    else svc.spec.cluster_ip <> ":53"

unfoldable pub gateway_of : String → Option DnsGatewaySpec → String
gateway_of namespace none = ""
gateway_of namespace (some gw) = gateway_endpoint namespace gw

module _ (A : Kube) where
  -- `setCondOn(&d.Status.Conditions, d.Generation, …)`.
  abbrev pub tier_condition : DnsDist → String → ConditionStatus → String → String → DnsDist
  tier_condition d type status reason message = record d {
    status = record d.status {
      conditions = A.set_status_condition d.status.conditions (record {
        type = type;
        status = status;
        reason = reason;
        message = message;
        observed_generation = d.meta.generation;
      });
    };
  }

  unfoldable pub mark_not_ready :
      DnsDist → String → String → ℕ → Action (World A.State (Unit {0})) ReconcileResult
  mark_not_ready d reason msg after = do
    let d' =
        tier_condition
          (record d {
            status = record d.status { phase = zone_phase_pending; failure_message = msg };
          })
          condition_ready condition_false reason msg
    write (A.update_tier_status d')
    return (requeue_in after)

  unfoldable pub mark_failed : DnsDist → String → Action (World A.State (Unit {0})) ReconcileResult
  mark_failed d msg = do
    let d' =
        tier_condition
          (record d {
            status = record d.status { phase = zone_phase_failed; failure_message = msg };
          })
          condition_ready condition_false "InvalidSpec" msg
    write (A.update_tier_status d')
    event event_warning "InvalidSpec" msg
    return done

  -- The status that mirrors the Deployment and the exposure.
  unfoldable pub mirrored : DnsDist → Deployment → String → DnsDist
  mirrored d dep endpoint =
      let available =
        if is_available dep
        then tier_condition d condition_available condition_true "PodsAvailable"
            (replicas_message dep)
        else tier_condition d condition_available condition_false "PodsUnavailable"
            (replicas_message dep) in
      let shown : DnsDist = record available {
        status = record available.status {
          desired_replicas = desired_of dep;
          ready_replicas = dep.status.ready_replicas;
          dns_endpoint = endpoint;
          phase = zone_phase_ready;
          failure_message = "";
          observed_generation = d.meta.generation;
        };
      } in
      if is_available dep
      then tier_condition shown condition_ready condition_true "Reconciled"
          "tier converged and all replicas available"
      else tier_condition shown condition_ready condition_false "Degraded" (replicas_message dep)

  unfoldable pub endpoint_of : DnsDist → Action (World A.State (Unit {0})) String
  unfolding service_endpoint gateway_of dns_dist_name_set
  endpoint_of d =
      if d.spec.dns.exposure == dns_exposure_gateway
      then return (gateway_of d.meta.namespace d.spec.dns.gateway)
      else (do
        svc ← attempt (
            read (
              A.get Kind.service (record {
                namespace = d.meta.namespace;
                name = (dns_dist_name_set d).dns_service;
              })))
        return (service_endpoint d.spec.dns.exposure svc))

  unfoldable pub refresh_status : DnsDist → Action (World A.State (Unit {0})) ReconcileResult
  unfolding endpoint_of mirrored dns_dist_name_set
  refresh_status d = do
    dep ← read (
        A.get Kind.deployment
          (record { namespace = d.meta.namespace; name = (dns_dist_name_set d).deployment }))
    endpoint ← endpoint_of d
    write (A.update_tier_status (mirrored d dep endpoint))
    return (requeue_in requeue_long)

  abbrev pub cluster_ip_of : Result Service → Result String
  cluster_ip_of (ok svc) = ok svc.spec.cluster_ip
  cluster_ip_of (err e) = err e

  -- What the reads of `backendsReady` see of the cluster.
  abbrev pub view_of : A.State → View
  view_of c = record {
    server = λ key. A.get_server key c;
    cluster_ip = λ key. cluster_ip_of (A.get Kind.service key c);
  }

  unfoldable pub converge :
      DnsDist → List (String × String) → Action (World A.State (Unit {0})) ReconcileResult
  unfolding refresh_status
  converge d addrs = do
    hash ← write (converge_config A d addrs)
    write (converge_children A d hash)
    refresh_status d

  unfoldable pub with_backends :
      DnsDist
      → Readiness (List (String × String))
      → Action (World A.State (Unit {0})) ReconcileResult
  unfolding converge mark_not_ready
  with_backends d (failed e) = fail e
  with_backends d (not_ready reason msg) =
      mark_not_ready (tier_condition d condition_backends_ready condition_false reason msg) reason
        msg requeue_short
  with_backends d (ready addrs) =
      converge
        (tier_condition d condition_backends_ready condition_true "BackendsReady"
          "all backends Ready")
        addrs

  unfoldable pub with_tier : Result DnsDist → Action (World A.State (Unit {0})) ReconcileResult
  unfolding with_backends mark_failed
  with_tier (err e) = ignore_not_found e
  with_tier (ok d) =
      let msg = validate_dns_dist d in
      if d.meta.deleting
      then return done
      else if not (msg == "")
      then mark_failed d msg
      else (do backends ← read (λ c. ok (backends_ready (view_of c) d)); with_backends d backends)

  unfoldable pub reconcile : NamespacedName → Action (World A.State (Unit {0})) ReconcileResult
  unfolding with_tier
  reconcile key = do d ← attempt (read (A.get_tier key)); with_tier d
