-- ===== src/Manifests/Tier.antt =====
-- internal/manifests/dnsdist.go: names, labels, configuration and disruption budget of a DNSDist.
pub mod Order
pub mod Workload
pub mod Exposed
use aether_powerdns.Prelude.{
  ℕ, String, Bool, true, false, List, [], ◌∷◌, Option, none, some, ◌<>◌, lookup, ltb, show_nat,
  sort_texts, if◌then◌else◌,
}
use aether_powerdns.Api.Meta.{ObjectRef}
use aether_powerdns.Api.Tiers.{DnsDist, DnsDistCacheSpec}
use aether_powerdns.Manifests.Budget.{
  PodDisruptionBudget, pdb_for, replicas_or_one, min_available_of,
}

pub record DnsDistNames : Type 0 where
  pub deployment : String
  pub config_map : String
  pub dns_service : String
  pub pdb : String
  pub tcp_route : String
  pub udp_route : String

unfoldable pub dns_dist_name_set : DnsDist → DnsDistNames
dns_dist_name_set d =
    let n = d.meta.name in
    record {
      deployment = n <> "-dnsdist";
      config_map = n <> "-dnsdist-config";
      dns_service = n <> "-dnsdist-dns";
      pdb = n <> "-dnsdist-pdb";
      tcp_route = n <> "-dnsdist-tcp";
      udp_route = n <> "-dnsdist-udp";
    }

unfoldable pub dns_dist_labels : DnsDist → List (String × String)
dns_dist_labels d =
    ("app.kubernetes.io/name", "dnsdist")
    ∷ ("app.kubernetes.io/component", "frontend")
    ∷ ("app.kubernetes.io/managed-by", "aether-powerdns")
    ∷ ("app.kubernetes.io/instance", d.meta.name)
    ∷ []

unfoldable pub dns_dist_replicas : DnsDist → ℕ
dns_dist_replicas d = replicas_or_one d.spec.replicas

unfoldable pub backend_names : List ObjectRef → List String
backend_names [] = []
backend_names (ref ∷ refs) = ref.name ∷ backend_names refs

-- `backendAddrs[n]`.
abbrev pub address_at : List (String × String) → String → String
address_at addrs n = elim (lookup n addrs) [ none ↦ "" | some ip ↦ ip ]

-- The loop over the sorted names.
unfoldable pub server_lines : List (String × String) → List String → String
server_lines addrs [] = ""
server_lines addrs (n ∷ ns) =
    "newServer({address=\""
    <> (address_at addrs n
        <> (":53\", name=\""
            <> (n
                <> ("\", checkInterval=2, maxCheckFailures=2, rise=1})\n"
                    <> server_lines addrs ns))))

cache_lines : DnsDistCacheSpec → String
cache_lines cache =
    if (elim cache.enabled [ none ↦ true | some enabled ↦ enabled ])
    then "pc = newPacketCache("
      <> (show_nat (elim cache.max_entries [ none ↦ 100000 | some n ↦ n ])
          <> ", {maxTTL=86400})\ngetPool(\"\"):setCache(pc)\n")
    else ""

rate_limit_lines : ℕ → String
rate_limit_lines qps =
    if ltb 0 qps
    then "local dbr = dynBlockRulesGroup()\ndbr:setQueryRate("
      <> (show_nat qps <> ", 10, \"rate-limited\", 60)\nfunction maintenance() dbr:apply() end\n")
    else ""

unfoldable pub dns_dist_config : DnsDist → List (String × String) → String
unfolding cache_lines rate_limit_lines
dns_dist_config d addrs =
    "-- managed by aether-powerdns\nsetACL({\"0.0.0.0/0\", \"::/0\"})\nsetLocal(\"0.0.0.0:53\", {reusePort=true})\n"
    <> (server_lines addrs (sort_texts (backend_names d.spec.backend_refs))
        <> (cache_lines d.spec.cache
            <> (rate_limit_lines d.spec.rate_limit.qps_per_client
                <> ((if d.spec.tls.dot.enabled
                      then "addTLSLocal(\"0.0.0.0:853\", \"/tls/dot/tls.crt\", \"/tls/dot/tls.key\")\n"
                      else "")
                    <> (if d.spec.tls.doh.enabled
                        then "addDOHLocal(\"0.0.0.0:443\", \"/tls/doh/tls.crt\", \"/tls/doh/tls.key\", { \"/dns-query\" })\n"
                        else "")))))

unfoldable pub dns_dist_pdb : DnsDist → Option PodDisruptionBudget
dns_dist_pdb d =
    pdb_for (dns_dist_name_set d).pdb d.meta.namespace (dns_dist_labels d) (dns_dist_replicas d)
      (min_available_of d.spec.pod_disruption_budget)
