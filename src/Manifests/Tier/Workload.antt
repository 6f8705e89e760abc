-- ===== src/Manifests/Tier/Workload.antt =====
-- `DNSDistConfigMap` and `DNSDistDeployment` of internal/manifests/dnsdist.go.
use aether_powerdns.Prelude.{ℕ, String, true, List, [], ◌∷◌, ◌++◌, some, if◌then◌else◌}
use aether_powerdns.Api.Tiers.{DnsDist, DnsDistTlsListener, default_dns_dist_image}
use aether_powerdns.Manifests.Pods.{
  ContainerPort, VolumeMount, Volume, config_map_source, secret_source, tcp_socket, Probe,
  Container, PodSpec, Deployment, ConfigMap,
}
use aether_powerdns.Manifests.Services.{dns_port}
use aether_powerdns.Manifests.Tier.{
  dns_dist_name_set, dns_dist_labels, dns_dist_replicas, dns_dist_config,
}
use aether_powerdns.Manifests.Workload.{
  image_or, hash_annotations, anti_affinity_of, spread_of, dns_container_ports,
}

abbrev pub dot_port : ℕ
dot_port = 853

abbrev pub doh_port : ℕ
doh_port = 443

unfoldable pub dns_dist_config_map : DnsDist → List (String × String) → ConfigMap
unfolding dns_dist_name_set dns_dist_labels
dns_dist_config_map d addrs = record {
  name = (dns_dist_name_set d).config_map;
  namespace = d.meta.namespace;
  labels = dns_dist_labels d;
  entries = ("dnsdist.conf", dns_dist_config d addrs) ∷ [];
}

-- What a TLS listener adds, where it is enabled.
abbrev where_enabled : {A : Type 0} → DnsDistTlsListener → A → List A
where_enabled l a = if l.enabled then a ∷ [] else []

abbrev tls_port : String → ℕ → ContainerPort
tls_port name port = record { name = name; container_port = port; protocol = "TCP" }

abbrev tls_mount : String → String → VolumeMount
tls_mount name path = record { name = name; mount_path = path; read_only = true }

abbrev tls_volume : String → DnsDistTlsListener → Volume
tls_volume name l = record { name = name; source = secret_source l.certificate_secret_ref.name }

abbrev dns_probe : ℕ → ℕ → Probe
dns_probe delay period = record {
  handler = tcp_socket dns_port;
  initial_delay_seconds = delay;
  period_seconds = period;
  timeout_seconds = 0;
  failure_threshold = 0;
}

dns_dist_container : DnsDist → Container
dns_dist_container d =
    let dot = d.spec.tls.dot in
    let doh = d.spec.tls.doh in
    record {
      name = "dnsdist";
      image = image_or default_dns_dist_image d.spec.image;
      command = [];
      args = "--supervised" ∷ "--disable-syslog" ∷ "-C" ∷ "/etc/dnsdist/dnsdist.conf" ∷ [];
      ports =
          dns_container_ports
          ++ (where_enabled dot (tls_port "dot" dot_port)
              ++ where_enabled doh (tls_port "doh" doh_port));
      env = [];
      resources = d.spec.resources;
      volume_mounts =
          tls_mount "config" "/etc/dnsdist"
          ∷ (where_enabled dot (tls_mount "dot-cert" "/tls/dot")
              ++ where_enabled doh (tls_mount "doh-cert" "/tls/doh"));
      readiness_probe = some (dns_probe 2 5);
      liveness_probe = some (dns_probe 10 10);
    }

dns_dist_pod_spec : DnsDist → PodSpec
unfolding dns_dist_container dns_dist_name_set dns_dist_labels dns_dist_replicas anti_affinity_of
    spread_of
dns_dist_pod_spec d =
    let replicas = dns_dist_replicas d in
    record {
      restart_policy = "";
      init_containers = [];
      containers = dns_dist_container d ∷ [];
      volumes =
          (record { name = "config"; source = config_map_source (dns_dist_name_set d).config_map })
          ∷ (where_enabled d.spec.tls.dot (tls_volume "dot-cert" d.spec.tls.dot)
              ++ where_enabled d.spec.tls.doh (tls_volume "doh-cert" d.spec.tls.doh));
      anti_affinity = anti_affinity_of replicas (dns_dist_labels d);
      topology_spread_constraints =
          spread_of replicas d.spec.scheduling.spread_across_zones (dns_dist_labels d);
      node_selector = d.spec.scheduling.node_selector;
      tolerations = d.spec.scheduling.tolerations;
      priority_class_name = d.spec.scheduling.priority_class_name;
    }

unfoldable pub dns_dist_deployment : DnsDist → String → Deployment
unfolding dns_dist_pod_spec dns_dist_name_set dns_dist_labels dns_dist_replicas
dns_dist_deployment d hash = record {
  name = (dns_dist_name_set d).deployment;
  namespace = d.meta.namespace;
  labels = dns_dist_labels d;
  spec = record {
    replicas = some (dns_dist_replicas d);
    selector = dns_dist_labels d;
    strategy = "RollingUpdate";
    template = record {
      labels = dns_dist_labels d;
      annotations = hash_annotations hash;
      spec = dns_dist_pod_spec d;
    };
  };
  status = record { ready_replicas = 0; available_replicas = 0 };
}
