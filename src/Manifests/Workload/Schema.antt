-- ===== src/Manifests/Workload/Schema.antt =====
-- `SchemaInitJob` of internal/manifests/manifests.go.
use aether_powerdns.Prelude.{String, false, List, [], ◌∷◌, none}
use aether_powerdns.Api.Server.{PowerDnsServer, default_image}
use aether_powerdns.Manifests.Naming.{name_set, labels}
use aether_powerdns.Manifests.Pods.{Container, VolumeMount, empty_dir, PodSpec, Job}
use aether_powerdns.Manifests.Workload.{backend_env, image_or}

abbrev pg_client_image : String
pg_client_image = "postgres:16-alpine"

abbrev schema_mount : List VolumeMount
schema_mount = (record { name = "schema"; mount_path = "/schema"; read_only = false }) ∷ []

-- A container of the Job: one shell command.
abbrev shell_container : String → String → String → Container
shell_container name image script = record {
  name = name;
  image = image;
  command = "/bin/sh" ∷ "-c" ∷ [];
  args = script ∷ [];
  ports = [];
  env = [];
  resources = record { requests = none; limits = none };
  volume_mounts = schema_mount;
  readiness_probe = none;
  liveness_probe = none;
}

schema_pod : PowerDnsServer → PodSpec
unfolding name_set backend_env
schema_pod s = record {
  restart_policy = "OnFailure";
  init_containers =
      shell_container "extract-schema" (image_or default_image s.spec.image)
        "cp /usr/local/share/doc/pdns/schema.pgsql.sql /schema/schema.sql 2>/dev/null || cp /usr/share/doc/pdns/schema.pgsql.sql /schema/schema.sql"
      ∷ [];
  containers =
      (record (shell_container "apply-schema" pg_client_image
        "set -e\necho \"applying PowerDNS schema to ${PGHOST}:${PGPORT}/${PGDATABASE}\"\npsql -v ON_ERROR_STOP=1 -h \"$PGHOST\" -p \"$PGPORT\" -U \"$PGUSER\" -d \"$PGDATABASE\" -f /schema/schema.sql\necho \"schema applied\"") {
          env = backend_env (name_set s).backend_secret;
        })
      ∷ [];
  volumes = (record { name = "schema"; source = empty_dir }) ∷ [];
  anti_affinity = [];
  topology_spread_constraints = [];
  node_selector = [];
  tolerations = [];
  priority_class_name = "";
}

unfoldable pub schema_init_job : PowerDnsServer → Job
unfolding name_set schema_pod
schema_init_job s = record {
  name = (name_set s).schema_job;
  namespace = s.meta.namespace;
  labels = labels s;
  backoff_limit = 6;
  ttl_seconds_after_finished = 3600;
  template = record { labels = labels s; annotations = []; spec = schema_pod s };
  status = record { succeeded = 0; failed = 0; conditions = [] };
}
