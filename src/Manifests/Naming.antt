-- ===== src/Manifests/Naming.antt =====
-- `NameSet` and `labels` of internal/manifests/manifests.go.
use aether_powerdns.Prelude.{String, List, [], ◌∷◌, ◌<>◌}
use aether_powerdns.Api.Server.{PowerDnsServer}

pub record Names : Type 0 where
  pub server : String
  pub config_map : String
  pub deployment : String
  pub api_service : String
  pub dns_service : String
  pub api_key_secret : String
  pub backend_secret : String
  pub schema_job : String
  pub cnpg_cluster : String
  pub tcp_route : String
  pub udp_route : String
  pub http_route : String
  pub pdb : String
  pub pod_monitor : String
  pub net_policy : String

unfoldable pub name_set : PowerDnsServer → Names
name_set s =
    let n = s.meta.name in
    record {
      server = n;
      config_map = n <> "-config";
      deployment = n;
      api_service = n <> "-api";
      dns_service = n <> "-dns";
      api_key_secret = n <> "-api-key";
      backend_secret = n <> "-backend";
      schema_job = n <> "-schema-init";
      cnpg_cluster = n <> "-pg";
      tcp_route = n <> "-dns-tcp";
      udp_route = n <> "-dns-udp";
      http_route = n <> "-api-http";
      pdb = n <> "-pdb";
      pod_monitor = n <> "-metrics";
      net_policy = n <> "-netpol";
    }

unfoldable pub labels : PowerDnsServer → List (String × String)
labels s =
    ("app.kubernetes.io/name", "powerdns")
    ∷ ("app.kubernetes.io/component", "auth")
    ∷ ("app.kubernetes.io/managed-by", "aether-powerdns")
    ∷ ("app.kubernetes.io/instance", s.meta.name)
    ∷ []
