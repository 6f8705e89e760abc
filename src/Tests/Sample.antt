-- ===== src/Tests/Sample.antt =====
-- A cluster with one server, a PowerDNS that keeps one record set of one zone, and the objects
-- of a small example: what the runs of the models of internal/controller use.
use aether_powerdns.Prelude.{
  ℕ, String, Bool, true, false, List, [], ◌∷◌, ◌&&◌, ◌==◌, Option, none, some, find?, Result, ok,
  err, api_not_found, other, if◌then◌else◌, any, ◌++◌,
}
use aether_powerdns.Api.Meta.{ObjectMeta, NamespacedName, Condition}
use aether_powerdns.Api.Server.{PowerDnsServer, phase_ready}
use aether_powerdns.Api.Zones.{Zone, RrSet, zone_kind_native, zone_phase_ready}
use aether_powerdns.Pdns.Types.{
  PdnsRrSet, PdnsZone, Method, get, patch, HttpResponse, Reply, answer, Transport,
}
use aether_powerdns.Controller.World.{Cluster, World}

pub record Store : Type 0 where
  pub servers : List PowerDnsServer
  pub zones : List Zone
  pub rrsets : List RrSet
  pub api_key : String

abbrev named : ObjectMeta → NamespacedName → Bool
named m n = m.name == n.name && m.namespace == n.namespace

abbrev found : {A : Type 0} → Option A → Result A
found none = err (record { kind = api_not_found; text = "not found" })
found (some a) = ok a

abbrev pub without : List String → String → List String
without [] f = []
without (g ∷ fs) f = if g == f then without fs f else g ∷ without fs f

abbrev set_condition : List Condition → Condition → List Condition
set_condition [] c = c ∷ []
set_condition (d ∷ ds) c = if d.type == c.type then c ∷ ds else d ∷ set_condition ds c

abbrev replace_rrset : RrSet → List RrSet → List RrSet
replace_rrset r [] = []
replace_rrset r (o ∷ os) = if o.meta.name == r.meta.name then r ∷ os else o ∷ replace_rrset r os

abbrev replace_zone : Zone → List Zone → List Zone
replace_zone z [] = []
replace_zone z (o ∷ os) = if o.meta.name == z.meta.name then z ∷ os else o ∷ replace_zone z os

abbrev pub sample_cluster : Cluster
sample_cluster = record {
  State = Store;
  get_server = λ n s. found (find? (λ x. named x.meta n) s.servers);
  get_zone = λ n s. found (find? (λ x. named x.meta n) s.zones);
  get_rrset = λ n s. found (find? (λ x. named x.meta n) s.rrsets);
  get_secret = λ n s. ok (record { data_ = ("api-key", s.api_key) ∷ [] });
  list_zones = λ key s. ok s.zones;
  list_rrsets = λ key s. ok s.rrsets;
  update_zone = λ z s. (ok tt, record s { zones = replace_zone z s.zones });
  update_zone_status = λ z s. (ok tt, record s { zones = replace_zone z s.zones });
  update_rrset = λ r s. (ok tt, record s { rrsets = replace_rrset r s.rrsets });
  update_rrset_status = λ r s. (ok tt, record s { rrsets = replace_rrset r s.rrsets });
  contains_finalizer = λ fs f. any (λ g. g == f) fs;
  add_finalizer = λ fs f. if any (λ g. g == f) fs then fs else fs ++ f ∷ [];
  remove_finalizer = without;
  set_status_condition = set_condition;
}

abbrev pub www_set : PdnsRrSet
www_set = record {
  name = "www.example.org.";
  type = "A";
  ttl = 3600;
  change_type = "";
  records = (record { content = "192.0.2.1"; disabled = false }) ∷ [];
}

abbrev pub sample_zone_answer : List PdnsRrSet → PdnsZone
sample_zone_answer sets = record {
  id = "example.org.";
  name = "example.org.";
  kind = "Native";
  serial = 1;
  masters = none;
  nameservers = none;
  dnssec = false;
  rrsets = sets;
}

abbrev pub status_of : ℕ → String → HttpResponse
status_of code body = record { status_code = code; status = ""; body = body }

-- Whether PowerDNS serves the record set of `www.example.org.`.
abbrev exchange : Method → Bool → Reply × Bool
exchange get served = (answer (status_of 200 (if served then "full" else "empty")), served)
exchange patch served = (answer (status_of 204 ""), true)
exchange _ served = (answer (status_of 404 ""), served)

abbrev pub sample_transport : Transport
sample_transport = record {
  State = Bool;
  url_error = λ url. none;
  send = λ req served. exchange req.method served;
  decode_zone = λ body. ok (sample_zone_answer (if body == "full" then www_set ∷ [] else []));
  decode_keys = λ body. ok [];
  decode_key = λ body. err (record { kind = other; text = "EOF" });
}

abbrev pub sample_meta : String → String → List String → ObjectMeta
sample_meta namespace name finalizers = record {
  name = name;
  namespace = namespace;
  generation = 1;
  finalizers = finalizers;
  deleting = false;
}

abbrev pub sample_server : PowerDnsServer
sample_server = record {
  meta = sample_meta "dns" "pdns" [];
  spec = record {
    replicas = none;
    image = "";
    resources = record { requests = none; limits = none };
    backend = record { type = "postgres"; postgres = none };
    dns = record { exposure = "none"; load_balancer = none; gateway = none };
    api = record { port = 8081; api_key_secret_ref = none; gateway = none };
    scheduling = record {
      node_selector = [];
      tolerations = [];
      priority_class_name = "";
      spread_across_zones = false;
    };
    observability = record { pod_monitor = record { enabled = false; interval = ""; labels = [] } };
    network_policy = record { enabled = false; additional_allowed_api_namespaces = [] };
    zone_management = record { allowed_namespaces = "apps" ∷ [] };
    pod_disruption_budget = none;
    extra_settings = [];
  };
  status = record {
    phase = phase_ready;
    ready = true;
    dns_endpoint = "";
    api_endpoint = "http://pdns-api.dns.svc:8081/";
    api_key_secret_name = "pdns-api-key";
    backend_secret_name = "";
    schema_applied = true;
    desired_replicas = 1;
    ready_replicas = 1;
    config_hash = "";
    conditions = [];
    failure_message = "";
  };
}

abbrev pub sample_zone : Zone
sample_zone = record {
  meta = sample_meta "dns" "example" [];
  spec = record {
    server_ref = record { name = "pdns"; namespace = "" };
    zone_name = "example.org.";
    kind = zone_kind_native;
    masters = none;
    nameservers = some ("ns1.example.org." ∷ []);
    soa = none;
    dnssec = record { enabled = false };
    deletion_policy = "Delete";
  };
  status = record {
    phase = zone_phase_ready;
    serial = 1;
    ds_records = [];
    observed_generation = 1;
    conditions = [];
    failure_message = "";
  };
}

abbrev pub sample_rrset : String → RrSet
sample_rrset name = record {
  meta = sample_meta "apps" name ("dns.aetherplatform.cloud/rrset-protection" ∷ []);
  spec = record {
    zone_ref = record { name = "example"; namespace = "dns" };
    name = "www.example.org.";
    type = "A";
    ttl = none;
    records = "192.0.2.1" ∷ [];
    deletion_policy = "Delete";
  };
  status = record { observed_generation = 0; conditions = []; failure_message = "" };
}

abbrev pub sample_world : List RrSet → Bool → World Store Bool
sample_world rrsets served = record {
  cluster = record {
    servers = sample_server ∷ [];
    zones = sample_zone ∷ [];
    rrsets = rrsets;
    api_key = "secret";
  };
  pdns = served;
  recording = true;
  events = [];
}
