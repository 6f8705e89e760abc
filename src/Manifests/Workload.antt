-- ===== src/Manifests/Workload.antt =====
-- `ConfigMap`, `Deployment` and `backendEnv` of internal/manifests/manifests.go, with the parts that
-- internal/manifests/dnsdist.go writes in the same way.
pub mod Schema
use aether_powerdns.Prelude.{
  ℕ, String, Bool, true, false, List, [], ◌∷◌, ◌++◌, Option, none, some, ◌<>◌, ◌==◌, not, ltb,
  if◌then◌else◌,
}
use aether_powerdns.Api.Server.{PowerDnsServer, ResourceRequirements, SchedulingSpec, default_image}
use aether_powerdns.Manifests.Budget.{replicas_or_one}
use aether_powerdns.Manifests.Naming.{name_set, labels}
use aether_powerdns.Manifests.Pods.{
  EnvVar, value, from_secret, ContainerPort, VolumeMount, exec, tcp_socket, Container,
  config_map_source, empty_dir, AffinityTerm, SpreadConstraint, PodSpec, Deployment, ConfigMap,
}
use aether_powerdns.Manifests.Services.{dns_port}
use aether_powerdns.Manifests.Settings.{api_port_of, pdns_config}

abbrev pub config_hash_annotation : String
config_hash_annotation = "dns.aetherplatform.cloud/config-hash"

-- `map[string]string{}` with the hash put in where there is one.
abbrev pub hash_annotations : String → List (String × String)
hash_annotations hash = if not (hash == "") then (config_hash_annotation, hash) ∷ [] else []

unfoldable pub config_map : PowerDnsServer → ConfigMap
unfolding name_set
config_map s = record {
  name = (name_set s).config_map;
  namespace = s.meta.namespace;
  labels = labels s;
  entries = ("pdns.conf", pdns_config s) ∷ [];
}

abbrev pub image_or : String → String → String
image_or default image = if image == "" then default else image

unfoldable pub backend_env : String → List EnvVar
backend_env secret =
    from_secret "PGHOST" secret "host"
    ∷ from_secret "PGPORT" secret "port"
    ∷ from_secret "PGDATABASE" secret "database"
    ∷ from_secret "PGUSER" secret "username"
    ∷ from_secret "PGPASSWORD" secret "password"
    ∷ []

-- The loop over `gpgsqlMappings`.
gpgsql_env : List (String × String) → List EnvVar
gpgsql_env [] = []
gpgsql_env (m ∷ rest) = value m.0 ("$(" <> (m.1 <> ")")) ∷ gpgsql_env rest

unfoldable pub deployment_env : PowerDnsServer → List EnvVar
unfolding name_set backend_env gpgsql_env
deployment_env s =
    backend_env (name_set s).backend_secret
    ++ (from_secret "PDNS_AUTH_API_KEY" (name_set s).api_key_secret "api-key"
        ∷ gpgsql_env (
            ("PDNS_GPGSQL_HOST", "PGHOST")
            ∷ ("PDNS_GPGSQL_PORT", "PGPORT")
            ∷ ("PDNS_GPGSQL_DBNAME", "PGDATABASE")
            ∷ ("PDNS_GPGSQL_USER", "PGUSER")
            ∷ ("PDNS_GPGSQL_PASSWORD", "PGPASSWORD")
            ∷ []))

requests_or_default : Option (List (String × String)) → Option (List (String × String))
requests_or_default none = some (("cpu", "50m") ∷ ("memory", "128Mi") ∷ [])
requests_or_default (some requests) = some requests

limits_or_default : Option (List (String × String)) → Option (List (String × String))
limits_or_default none = some (("memory", "512Mi") ∷ [])
limits_or_default (some limits) = some limits

unfoldable pub resources_or_default : ResourceRequirements → ResourceRequirements
unfolding requests_or_default limits_or_default
resources_or_default res = record {
  requests = requests_or_default res.requests;
  limits = limits_or_default res.limits;
}

-- Over several replicas: the anti-affinity and the spread over hosts and, where it is asked for,
-- zones.
unfoldable pub anti_affinity_of : ℕ → List (String × String) → List AffinityTerm
anti_affinity_of replicas lbls =
    if ltb 1 replicas
    then (record { weight = 100; match_labels = lbls; topology_key = "kubernetes.io/hostname" })
      ∷ []
    else []

abbrev spread_over : List (String × String) → String → SpreadConstraint
spread_over lbls key = record {
  max_skew = 1;
  topology_key = key;
  when_unsatisfiable = "ScheduleAnyway";
  match_labels = lbls;
}

unfoldable pub spread_of : ℕ → Bool → List (String × String) → List SpreadConstraint
spread_of replicas across_zones lbls =
    if ltb 1 replicas
    then spread_over lbls "kubernetes.io/hostname"
      ∷ (if across_zones then spread_over lbls "topology.kubernetes.io/zone" ∷ [] else [])
    else []

abbrev pub dns_container_ports : List ContainerPort
dns_container_ports =
    (record { name = "dns-tcp"; container_port = dns_port; protocol = "TCP" })
    ∷ (record { name = "dns-udp"; container_port = dns_port; protocol = "UDP" })
    ∷ []

pdns_container : PowerDnsServer → Container
unfolding deployment_env resources_or_default api_port_of
pdns_container s = record {
  name = "pdns-auth";
  image = image_or default_image s.spec.image;
  command = "pdns_server" ∷ [];
  args =
      "--config-dir=/etc/powerdns" ∷ "--socket-dir=/var/run" ∷ "--api-key=$(PDNS_AUTH_API_KEY)"
      ∷ "--gpgsql-host=$(PDNS_GPGSQL_HOST)" ∷ "--gpgsql-port=$(PDNS_GPGSQL_PORT)"
      ∷ "--gpgsql-dbname=$(PDNS_GPGSQL_DBNAME)" ∷ "--gpgsql-user=$(PDNS_GPGSQL_USER)"
      ∷ "--gpgsql-password=$(PDNS_GPGSQL_PASSWORD)" ∷ [];
  ports =
      dns_container_ports
      ++ (record { name = "api"; container_port = api_port_of s; protocol = "TCP" }) ∷ [];
  env = deployment_env s;
  resources = resources_or_default s.spec.resources;
  volume_mounts =
      (record { name = "config"; mount_path = "/etc/powerdns"; read_only = true })
      ∷ (record { name = "run"; mount_path = "/var/run"; read_only = false })
      ∷ [];
  readiness_probe = some (record {
    handler = exec ("pdns_control" ∷ "--socket-dir=/var/run" ∷ "rping" ∷ []);
    initial_delay_seconds = 5;
    period_seconds = 5;
    timeout_seconds = 5;
    failure_threshold = 3;
  });
  liveness_probe = some (record {
    handler = tcp_socket (api_port_of s);
    initial_delay_seconds = 30;
    period_seconds = 10;
    timeout_seconds = 5;
    failure_threshold = 6;
  });
}

pod_spec : PowerDnsServer → PodSpec
unfolding name_set pdns_container anti_affinity_of spread_of
pod_spec s =
    let replicas = replicas_or_one s.spec.replicas in
    record {
      restart_policy = "";
      init_containers = [];
      containers = pdns_container s ∷ [];
      volumes =
          (record { name = "config"; source = config_map_source (name_set s).config_map })
          ∷ (record { name = "run"; source = empty_dir })
          ∷ [];
      anti_affinity = anti_affinity_of replicas (labels s);
      topology_spread_constraints =
          spread_of replicas s.spec.scheduling.spread_across_zones (labels s);
      node_selector = s.spec.scheduling.node_selector;
      tolerations = s.spec.scheduling.tolerations;
      priority_class_name = s.spec.scheduling.priority_class_name;
    }

unfoldable pub deployment : PowerDnsServer → String → Deployment
unfolding name_set pod_spec
deployment s hash = record {
  name = (name_set s).deployment;
  namespace = s.meta.namespace;
  labels = labels s;
  spec = record {
    replicas = some (replicas_or_one s.spec.replicas);
    selector = labels s;
    strategy = "RollingUpdate";
    template = record { labels = labels s; annotations = hash_annotations hash; spec = pod_spec s };
  };
  status = record { ready_replicas = 0; available_replicas = 0 };
}
