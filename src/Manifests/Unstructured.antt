-- ===== src/Manifests/Unstructured.antt =====
-- The objects that are rendered without a Go type of their own: internal/cnpg/cnpg.go, and
-- internal/manifests/observability.go.
use aether_powerdns.Prelude.{
  ℕ, String, List, [], ◌∷◌, Option, none, some, ◌<>◌, ◌==◌, not, if◌then◌else◌,
}
use aether_powerdns.Api.Server.{PowerDnsServer, PostgresBackendSpec}
use aether_powerdns.Controller.Services.{merge_annotations}
use aether_powerdns.Manifests.Budget.{replicas_or_one}
use aether_powerdns.Manifests.Naming.{name_set, labels}

-- A value of `map[string]interface{}`, with its entries and items as lists of their own.
mutual
  pub data Value : Type 0 where
    text : String → Value
    number : ℕ → Value
    list : Items → Value
    object : Fields → Value

  pub data Items : Type 0 where
    nil : Items
    cons : Value → Items → Items

  pub data Fields : Type 0 where
    end : Fields
    field : String → Value → Fields → Fields

pub record GroupVersionKind : Type 0 where
  pub group : String
  pub version : String
  pub kind : String

-- `unstructured.Unstructured`, with what lies below `spec` and `status`.
pub record Unstructured : Type 0 where
  pub gvk : GroupVersionKind
  pub name : String
  pub namespace : String
  pub labels : List (String × String)
  pub spec : Value
  pub status : Value

abbrev cluster_gvk : GroupVersionKind
cluster_gvk = record { group = "postgresql.cnpg.io"; version = "v1"; kind = "Cluster" }

abbrev pub default_database : String
default_database = "powerdns"

abbrev default_owner : String
default_owner = "powerdns"

instances_of : Option PostgresBackendSpec → ℕ
instances_of none = 1
instances_of (some pg) = replicas_or_one pg.instances

storage_size_of : Option PostgresBackendSpec → String
storage_size_of none = "5Gi"
storage_size_of (some pg) = if not (pg.storage_size == "") then pg.storage_size else "5Gi"

storage_class_of : Option PostgresBackendSpec → String
storage_class_of none = ""
storage_class_of (some pg) = if not (pg.storage_class == "") then pg.storage_class else ""

unfoldable pub cluster : PowerDnsServer → String → Unstructured
unfolding instances_of storage_size_of storage_class_of
cluster s name =
    let pg = s.spec.backend.postgres in
    record {
      gvk = cluster_gvk;
      name = name;
      namespace = s.meta.namespace;
      labels =
          ("app.kubernetes.io/name", "powerdns-postgres")
          ∷ ("app.kubernetes.io/instance", s.meta.name)
          ∷ ("app.kubernetes.io/managed-by", "aether-powerdns")
          ∷ [];
      spec = object (
          field "instances" (number (instances_of pg)) (
            field "storage"
              (object (
                field "size" (text (storage_size_of pg)) (
                  if not (storage_class_of pg == "")
                  then field "storageClass" (text (storage_class_of pg)) end
                  else end)))
              (field "bootstrap"
                (object (
                  field "initdb"
                    (object (
                      field "database" (text default_database)
                        (field "owner" (text default_owner) end)))
                    end))
                end)));
      status = object end;
    }

unfoldable pub app_secret_name : String → String
app_secret_name cluster_name = cluster_name <> "-app"

abbrev pod_monitor_gvk : GroupVersionKind
pod_monitor_gvk = record { group = "monitoring.coreos.com"; version = "v1"; kind = "PodMonitor" }

-- A map of texts as a value.
fields_of : List (String × String) → Fields
fields_of [] = end
fields_of (entry ∷ rest) = field entry.0 (text entry.1) (fields_of rest)

unfoldable pub pod_monitor : PowerDnsServer → Unstructured
unfolding name_set fields_of
pod_monitor s =
    let interval =
      if s.spec.observability.pod_monitor.interval == ""
      then "30s"
      else s.spec.observability.pod_monitor.interval in
    record {
      gvk = pod_monitor_gvk;
      name = (name_set s).pod_monitor;
      namespace = s.meta.namespace;
      labels = merge_annotations s.spec.observability.pod_monitor.labels (labels s);
      spec = object (
          field "selector" (object (field "matchLabels" (object (fields_of (labels s))) end)) (
            field "namespaceSelector"
              (object (field "matchNames" (list (cons (text s.meta.namespace) nil)) end))
              (field "podMetricsEndpoints"
                (list (
                  cons
                    (object (
                      field "port" (text "api") (
                        field "path" (text "/metrics")
                          (field "interval" (text interval) (field "scheme" (text "http") end)))))
                    nil))
                end)));
      status = object end;
    }
