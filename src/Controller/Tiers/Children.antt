-- ===== src/Controller/Tiers/Children.antt =====
-- The objects that a DNSDist owns: `upsertOwned`, the hash over the TLS Secrets,
-- `reconcileDNSDistAdditionalServices` and `reconcileDNSDistRoutes` of
-- internal/controller/dnsdist_controller.go.
pub mod Apart
use aether_powerdns.Prelude.{
  String, Bool, true, false, List, [], ◌∷◌, ◌++◌, Option, none, some, ◌<>◌, ◌==◌, not, Result, ok,
  err, Error, api_not_found, no_match, is_kind, Action, ◌>>=◌, ◌>>◌, attempt, return, fail,
  if◌then◌else◌,
}
use aether_powerdns.Api.Meta.{NamespacedName}
use aether_powerdns.Api.Server.{dns_exposure_gateway}
use aether_powerdns.Api.Tiers.{DnsDist, DnsDistTlsListener}
use aether_powerdns.Manifests.Budget.{PodDisruptionBudget}
use aether_powerdns.Manifests.Pods.{ConfigMap, Deployment}
use aether_powerdns.Manifests.Routes.{Route}
use aether_powerdns.Manifests.Settings.{value_at, config_hash}
use aether_powerdns.Manifests.Tier.{dns_dist_name_set, dns_dist_labels, dns_dist_pdb}
use aether_powerdns.Manifests.Tier.Exposed.{
  Shared, dns_dist_dns_service, dns_dist_additional_dns_services, dns_dist_tcp_route,
  dns_dist_udp_route,
}
use aether_powerdns.Manifests.Tier.Workload.{dns_dist_config_map, dns_dist_deployment}
use aether_powerdns.Controller.Kube.{Kind, OwnedSecret, Object, key_of, tier, OperationResult, Kube}
use aether_powerdns.Controller.Kube.Children.{
  within, lift, look, services, converge_owned_service, delete_object,
}
use aether_powerdns.Controller.Servers.Exposure.{as_route, missing_crd}
use aether_powerdns.Controller.Servers.Workload.{role_label, delete_undesired}
use aether_powerdns.Controller.Services.{Service, put, update_service}

-- What `reconcileDNSDistAdditionalServices` converges: in turn, each Service puts its role into the
-- map that all of them share.
unfoldable pub tagged_in_turn : List (String × String) → List Shared → List Service
tagged_in_turn lbls [] = []
tagged_in_turn lbls (svc ∷ rest) =
    let tagged = put role_label "additional-dns" lbls in svc tagged ∷ tagged_in_turn tagged rest

module _ (A : Kube) where
  -- `upsertOwned`, with the function that changes the live object.
  unfoldable pub upsert_owned :
      (k : Kind) → DnsDist → Object k → (Object k → Object k) → Action A.State OperationResult
  upsert_owned k d desired change =
      A.create_or_update k (key_of k desired) (λ live. A.own k (tier d) (change live))

  -- The result of the operation is not looked at.
  abbrev upsert :
      (k : Kind) → DnsDist → Object k → (Object k → Object k) → Action A.State (Unit {0})
  upsert k d desired change = do op ← upsert_owned k d desired change; return tt

  -- The body of the loop over the listeners: the entries to be hashed, for one that is enabled.
  listener_found : String → Result OwnedSecret → Result (List (List (String × String)))
  listener_found name (ok sec) = ok (sec.entries ∷ [])
  listener_found name (err e) =
      if is_kind api_not_found e.kind
      then ok ((("__name__", name) ∷ []) ∷ [])
      else err (record e { text = "get tls secret " <> (name <> (": " <> e.text)) })

  listener_entries : DnsDist → DnsDistTlsListener → Action A.State (List (List (String × String)))
  unfolding listener_found
  listener_entries d l =
      let name = l.certificate_secret_ref.name in
      if not l.enabled then return [] else (do
        sec ← look (A.get Kind.secret (record { namespace = d.meta.namespace; name = name }))
        lift (listener_found name sec))

  -- The ConfigMap, and the hash over it and the TLS Secrets.
  unfoldable pub converge_config : DnsDist → List (String × String) → Action A.State String
  unfolding listener_entries
  converge_config d addrs = do
    let cm = dns_dist_config_map d addrs
    within "ensure configmap" (
        upsert Kind.config_map d cm
          (λ live. record live { labels = cm.labels; entries = cm.entries }))
    dot ← listener_entries d d.spec.tls.dot
    doh ← listener_entries d d.spec.tls.doh
    return (config_hash A.digest (value_at cm.entries "dnsdist.conf") (dot ++ doh))

  converge_each : DnsDist → List Service → Action A.State (Unit {0})
  converge_each d [] = return tt
  converge_each d (svc ∷ rest) =
      let later = converge_each d rest in converge_owned_service A (tier d) svc >> later

  unfoldable pub reconcile_additional_services : DnsDist → Action A.State (Unit {0})
  unfolding converge_each
  reconcile_additional_services d = do
    let desired = tagged_in_turn (dns_dist_labels d) (dns_dist_additional_dns_services d)
    converge_each d desired
    found ← look (
        A.list_services d.meta.namespace (
          ("app.kubernetes.io/managed-by", "aether-powerdns")
          ∷ ("app.kubernetes.io/instance", d.meta.name)
          ∷ ("app.kubernetes.io/name", "dnsdist")
          ∷ (role_label, "additional-dns")
          ∷ []))
    existing ← lift found
    delete_undesired A desired existing

  -- The budget: ensured, or deleted where there is to be none.
  budget_of : DnsDist → Option PodDisruptionBudget → Action A.State (Unit {0})
  unfolding dns_dist_name_set
  budget_of d (some pdb) = within "ensure pdb" (
      upsert Kind.budget d pdb
        (λ live. record live { labels = pdb.labels; min_available = pdb.min_available }))
  budget_of d none = within "delete pdb" (
      delete_object A Kind.budget
        (record { namespace = d.meta.namespace; name = (dns_dist_name_set d).pdb }))

  -- With the texts of the error, where the kind of the route is known and where it is not.
  route_ensured : String → String → Result OperationResult → Action A.State (Unit {0})
  route_ensured known unknown (ok op) = return tt
  route_ensured known unknown (err e) =
      if is_kind no_match e.kind
      then fail (missing_crd A unknown e)
      else fail (missing_crd A known e)

  tcp_ensured : Result OperationResult → Action A.State (Unit {0})
  unfolding route_ensured
  tcp_ensured t =
      route_ensured "ensure tcproute: "
        "ensure tcproute: TCPRoute CRD not installed (Gateway API experimental channel): " t

  udp_ensured : Result OperationResult → Action A.State (Unit {0})
  unfolding route_ensured
  udp_ensured u =
      route_ensured "ensure udproute: "
        "ensure udproute: UDPRoute CRD not installed (Gateway API experimental channel): " u

  converge_tcp_route : DnsDist → Action A.State (Unit {0})
  unfolding tcp_ensured
  converge_tcp_route d = do
    t ←
        attempt
          (upsert_owned Kind.tcp_route d (dns_dist_tcp_route d) (as_route (dns_dist_tcp_route d)))
    tcp_ensured t

  converge_udp_route : DnsDist → Action A.State (Unit {0})
  unfolding udp_ensured
  converge_udp_route d = do
    u ←
        attempt
          (upsert_owned Kind.udp_route d (dns_dist_udp_route d) (as_route (dns_dist_udp_route d)))
    udp_ensured u

  dns_routes : DnsDist → Action A.State (Unit {0})
  unfolding converge_tcp_route converge_udp_route
  dns_routes d = do converge_tcp_route d; converge_udp_route d

  no_dns_routes : DnsDist → Action A.State (Unit {0})
  unfolding dns_dist_name_set
  no_dns_routes d = do
    within "delete tcproute" (
        delete_object A Kind.tcp_route
          (record { namespace = d.meta.namespace; name = (dns_dist_name_set d).tcp_route }))
    within "delete udproute" (
        delete_object A Kind.udp_route
          (record { namespace = d.meta.namespace; name = (dns_dist_name_set d).udp_route }))

  unfoldable pub reconcile_routes : DnsDist → Action A.State (Unit {0})
  unfolding dns_routes no_dns_routes
  reconcile_routes d =
      if d.spec.dns.exposure == dns_exposure_gateway then dns_routes d else no_dns_routes d

  -- The children after the ConfigMap, in their order.
  unfoldable pub converge_children : DnsDist → String → Action A.State (Unit {0})
  unfolding budget_of
  converge_children d hash = do
    let dep = dns_dist_deployment d hash
    within "ensure deployment" (
        upsert Kind.deployment d dep (λ live. record live { labels = dep.labels; spec = dep.spec }))
    let svc = dns_dist_dns_service d
    owned ← within "set owner ref on dns service" (lift (A.own Kind.service (tier d) svc))
    within "ensure dns service" (update_service (services A) A.retry owned)
    reconcile_additional_services d
    budget_of d (dns_dist_pdb d)
    reconcile_routes d
