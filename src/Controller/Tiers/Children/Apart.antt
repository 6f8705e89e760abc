-- ===== src/Controller/Tiers/Children/Apart.antt =====
-- The convergence of a tier's objects (internal/controller/dnsdist_controller.go) leaves the custom
-- resource itself alone.
use aether_powerdns.Prelude.{
  String, List, [], ◌∷◌, Option, none, some, ◌==◌, not, Result, ok, err, no_match, is_kind,
}
use aether_powerdns.Api.Server.{dns_exposure_gateway}
use aether_powerdns.Api.Tiers.{DnsDist, DnsDistTlsListener}
use aether_powerdns.Manifests.Budget.{PodDisruptionBudget}
use aether_powerdns.Manifests.Tier.{dns_dist_labels, dns_dist_pdb}
use aether_powerdns.Manifests.Tier.Exposed.{dns_dist_dns_service, dns_dist_additional_dns_services}
use aether_powerdns.Controller.Kube.{Kind, Object, key_of, tier, OperationResult, Kube}
use aether_powerdns.Controller.Kube.Apart.{
  Leaves, IsApart, bind-Leaves, then-Leaves, attempt-Leaves, within-Leaves, if-Leaves, still,
  update_service-Leaves, converge_owned_service-Leaves, delete_object-Leaves,
}
use aether_powerdns.Controller.Servers.Workload.Apart.{delete_undesired-Leaves}
use aether_powerdns.Controller.Services.{Service}
use aether_powerdns.Controller.Tiers.Children.{
  tagged_in_turn, upsert_owned, upsert, listener_found, listener_entries, converge_config,
  converge_each, reconcile_additional_services, budget_of, route_ensured, tcp_ensured, udp_ensured,
  converge_tcp_route, converge_udp_route, dns_routes, no_dns_routes, reconcile_routes,
  converge_children,
}

module _ (A : Kube) {V : Type 0} (view : A.State → V) (law : IsApart A view) (d : DnsDist) where
  upsert_owned-Leaves :
      (k : Kind) (desired : Object k) (change : Object k → Object k)
      → Leaves view (upsert_owned A k d desired change)
  unfolding upsert_owned
  upsert_owned-Leaves k desired change = law.create_or_update k (key_of k desired) _

  upsert-Leaves :
      (k : Kind) (desired : Object k) (change : Object k → Object k)
      → Leaves view (upsert A k d desired change)
  upsert-Leaves k desired change =
      bind-Leaves (upsert_owned-Leaves k desired change) (λ op. still (λ c. ok tt))

  listener_entries-Leaves : (l : DnsDistTlsListener) → Leaves view (listener_entries A d l)
  unfolding listener_entries
  listener_entries-Leaves l = if-Leaves (not l.enabled) (still (λ c. ok [])) (
      bind-Leaves (still (λ c. ok (A.get Kind.secret _ c)))
        (λ sec. still (λ c. listener_found A l.certificate_secret_ref.name sec)))

  pub converge_config-Leaves :
      (addrs : List (String × String)) → Leaves view (converge_config A d addrs)
  unfolding converge_config
  converge_config-Leaves addrs = then-Leaves (within-Leaves _ (upsert-Leaves Kind.config_map _ _)) (
      bind-Leaves (listener_entries-Leaves d.spec.tls.dot)
        (λ dot. bind-Leaves (listener_entries-Leaves d.spec.tls.doh) (λ doh. still (λ c. ok _))))

  converge_each-Leaves : (desired : List Service) → Leaves view (converge_each A d desired)
  unfolding converge_each
  converge_each-Leaves [] = still (λ c. ok tt)
  converge_each-Leaves (svc ∷ rest) =
      then-Leaves (converge_owned_service-Leaves A view law (tier d) svc)
        (converge_each-Leaves rest)

  additional_services-Leaves : Leaves view (reconcile_additional_services A d)
  unfolding reconcile_additional_services
  additional_services-Leaves =
      let desired = tagged_in_turn (dns_dist_labels d) (dns_dist_additional_dns_services d) in
      then-Leaves (converge_each-Leaves desired) (
        bind-Leaves (still (λ c. ok _)) (λ found.
          bind-Leaves (still (λ c. found))
            (λ existing. delete_undesired-Leaves A view law desired existing)))

  budget_of-Leaves : (pdb : Option PodDisruptionBudget) → Leaves view (budget_of A d pdb)
  unfolding budget_of
  budget_of-Leaves none = within-Leaves _ (delete_object-Leaves A view law Kind.budget _)
  budget_of-Leaves (some pdb) = within-Leaves _ (upsert-Leaves Kind.budget pdb _)

  route_ensured-Leaves :
      (known unknown : String) (r : Result OperationResult)
      → Leaves view (route_ensured A known unknown r)
  unfolding route_ensured
  route_ensured-Leaves known unknown (ok op) = still (λ c. ok tt)
  route_ensured-Leaves known unknown (err e) =
      if-Leaves (is_kind no_match e.kind) (still (λ c. err _)) (still (λ c. err _))

  tcp_ensured-Leaves : (r : Result OperationResult) → Leaves view (tcp_ensured A r)
  unfolding tcp_ensured
  tcp_ensured-Leaves r = route_ensured-Leaves _ _ r

  udp_ensured-Leaves : (r : Result OperationResult) → Leaves view (udp_ensured A r)
  unfolding udp_ensured
  udp_ensured-Leaves r = route_ensured-Leaves _ _ r

  tcp_route-Leaves : Leaves view (converge_tcp_route A d)
  unfolding converge_tcp_route
  tcp_route-Leaves =
      bind-Leaves (attempt-Leaves (upsert_owned-Leaves Kind.tcp_route _ _)) tcp_ensured-Leaves

  udp_route-Leaves : Leaves view (converge_udp_route A d)
  unfolding converge_udp_route
  udp_route-Leaves =
      bind-Leaves (attempt-Leaves (upsert_owned-Leaves Kind.udp_route _ _)) udp_ensured-Leaves

  dns_routes-Leaves : Leaves view (dns_routes A d)
  unfolding dns_routes
  dns_routes-Leaves = then-Leaves tcp_route-Leaves udp_route-Leaves

  no_dns_routes-Leaves : Leaves view (no_dns_routes A d)
  unfolding no_dns_routes
  no_dns_routes-Leaves =
      then-Leaves (within-Leaves _ (delete_object-Leaves A view law Kind.tcp_route _))
        (within-Leaves _ (delete_object-Leaves A view law Kind.udp_route _))

  reconcile_routes-Leaves : Leaves view (reconcile_routes A d)
  unfolding reconcile_routes
  reconcile_routes-Leaves =
      if-Leaves (d.spec.dns.exposure == dns_exposure_gateway) dns_routes-Leaves no_dns_routes-Leaves

  pub converge_children-Leaves : (hash : String) → Leaves view (converge_children A d hash)
  unfolding converge_children
  converge_children-Leaves hash =
      then-Leaves (within-Leaves _ (upsert-Leaves Kind.deployment _ _)) (
        bind-Leaves
          (within-Leaves _ (still (λ c. A.own Kind.service (tier d) (dns_dist_dns_service d))))
          (λ owned. then-Leaves (within-Leaves _ (update_service-Leaves A view law owned)) (
            then-Leaves additional_services-Leaves
              (then-Leaves (budget_of-Leaves (dns_dist_pdb d)) reconcile_routes-Leaves))))
