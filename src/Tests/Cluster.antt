-- ===== src/Tests/Cluster.antt =====
-- A cluster for runs of the reconcilers of internal/controller: one server, one tier, Secrets,
-- Services and a Deployment.
use aether_powerdns.Prelude.{
  List, [], ◌∷◌, ◌++◌, ◌==◌, ◌&&◌, Option, none, some, ◌≡◌, refl, find?, any, Result, ok, err,
  api_not_found, Action, if◌then◌else◌,
}
use aether_powerdns.Api.Meta.{NamespacedName}
use aether_powerdns.Api.Server.{PowerDnsServer}
use aether_powerdns.Api.Tiers.{DnsDist}
use aether_powerdns.Manifests.Pods.{Deployment}
use aether_powerdns.Controller.Services.{Service}
use aether_powerdns.Controller.Kube.{
  Kind, Object, OwnedSecret, OperationResult, created, not_created, Kube,
}

pub record Held : Type 0 where
  pub server : Option PowerDnsServer
  -- Another server, which `kube` does not know.
  pub spare : Option PowerDnsServer
  pub tier : Option DnsDist
  pub secrets : List OwnedSecret
  pub services : List Service
  pub deployment : Option Deployment

abbrev missing : {B : Type 0} → Result B
missing = err (record { kind = api_not_found; text = "not found" })

abbrev secret_at : NamespacedName → List OwnedSecret → Option OwnedSecret
secret_at key secrets = find? (λ o. o.name == key.name && o.namespace == key.namespace) secrets

abbrev pub found : {B : Type 0} → Option B → Result B
found none = missing
found (some b) = ok b

abbrev get_object : (k : Kind) → NamespacedName → Held → Result (Object k)
get_object Kind.secret key c = found (secret_at key c.secrets)
get_object Kind.service key c = found (find? (λ o. o.name == key.name) c.services)
get_object Kind.deployment key c = found c.deployment
get_object _ key c = missing

abbrev pub create_object : (k : Kind) → Object k → Action Held (Unit {0})
create_object Kind.secret o c = (ok tt, record c { secrets = c.secrets ++ o ∷ [] })
create_object _ o c = (ok tt, c)

-- A write of the resource leaves the status alone, and one without finalizers ends its deletion.
abbrev kept_server : PowerDnsServer → PowerDnsServer → Option PowerDnsServer
kept_server s held = if s.meta.deleting then none else some (record s { status = held.status })

abbrev pub update_server : PowerDnsServer → Action Held (Unit {0})
update_server s c = elim c.server [
  | none ↦ (missing, c)
  | some held ↦ (ok tt, record c { server = kept_server s held })
]

abbrev pub update_server_status : PowerDnsServer → Action Held (Unit {0})
update_server_status s c = elim c.server [
  | none ↦ (missing, c)
  | some held ↦ (ok tt, record c { server = some (record held { status = s.status }) })
]

abbrev pub update_tier_status : DnsDist → Action Held (Unit {0})
update_tier_status d c = elim c.tier [
  | none ↦ (missing, c)
  | some held ↦ (ok tt, record c { tier = some (record held { status = d.status }) })
]

abbrev blank : NamespacedName → Deployment
blank key = record {
  name = key.name;
  namespace = key.namespace;
  labels = [];
  spec = record {
    replicas = none;
    selector = [];
    strategy = "";
    template = record {
      labels = [];
      annotations = [];
      spec = record {
        restart_policy = "";
        init_containers = [];
        containers = [];
        volumes = [];
        anti_affinity = [];
        topology_spread_constraints = [];
        node_selector = [];
        tolerations = [];
        priority_class_name = "";
      };
    };
  };
  status = record { ready_replicas = 2; available_replicas = 2 };
}

abbrev pub upserted : Result Deployment → Action Held OperationResult
upserted (ok o) c = (ok created, record c { deployment = some o })
upserted (err e) c = (err e, c)

-- A Deployment that is new has its pods at once.
abbrev pub upsert :
    (k : Kind) → NamespacedName → (Object k → Result (Object k)) → Action Held OperationResult
upsert Kind.deployment key f c = upserted (f (blank key)) c
upsert _ key f c = (ok not_created, c)

abbrev pub kube : Kube
kube = record {
  State = Held;
  get = get_object;
  create = create_object;
  update = λ k o c. (ok tt, c);
  delete = λ k key c. (ok tt, c);
  list_services = λ ns labels c. ok [];
  create_or_update = upsert;
  own = λ k owner o. ok o;
  retry = λ m. m;
  get_server = λ key c. found c.server;
  update_server = update_server;
  update_server_status = update_server_status;
  get_tier = λ key c. found c.tier;
  update_tier_status = update_tier_status;
  contains_finalizer = λ fs f. any (λ g. g == f) fs;
  add_finalizer = λ fs f. fs ++ f ∷ [];
  remove_finalizer = λ fs f. [];
  set_status_condition = λ cs c. cs ++ c ∷ [];
  nested_int64 = λ o path. ok none;
  rand_read = λ n c. (ok (7 ∷ 171 ∷ []), c);
  digest = λ text. "digest";
}

-- What every write of another object leaves alone.
pub record AreSame (a b : Held) : Type 0 where
  pub server : a.server ≡ b.server
  pub tier : a.tier ≡ b.tier

pub create-AreSame : (k : Kind) (o : Object k) (c : Held) → AreSame (create_object k o c).1 c
create-AreSame Kind.config_map o c = record { server = refl; tier = refl }
create-AreSame Kind.secret o c = record { server = refl; tier = refl }
create-AreSame Kind.service o c = record { server = refl; tier = refl }
create-AreSame Kind.job o c = record { server = refl; tier = refl }
create-AreSame Kind.budget o c = record { server = refl; tier = refl }
create-AreSame Kind.network_policy o c = record { server = refl; tier = refl }
create-AreSame Kind.pod_monitor o c = record { server = refl; tier = refl }
create-AreSame Kind.cluster o c = record { server = refl; tier = refl }
create-AreSame Kind.tcp_route o c = record { server = refl; tier = refl }
create-AreSame Kind.udp_route o c = record { server = refl; tier = refl }
create-AreSame Kind.http_route o c = record { server = refl; tier = refl }
create-AreSame Kind.deployment o c = record { server = refl; tier = refl }

upserted-AreSame : (r : Result Deployment) (c : Held) → AreSame (upserted r c).1 c
upserted-AreSame (ok o) c = record { server = refl; tier = refl }
upserted-AreSame (err e) c = record { server = refl; tier = refl }

pub upsert-AreSame :
    (k : Kind) (key : NamespacedName) (f : Object k → Result (Object k)) (c : Held)
    → AreSame (upsert k key f c).1 c
upsert-AreSame Kind.deployment key f c = upserted-AreSame (f (blank key)) c
upsert-AreSame Kind.config_map key f c = record { server = refl; tier = refl }
upsert-AreSame Kind.secret key f c = record { server = refl; tier = refl }
upsert-AreSame Kind.service key f c = record { server = refl; tier = refl }
upsert-AreSame Kind.job key f c = record { server = refl; tier = refl }
upsert-AreSame Kind.budget key f c = record { server = refl; tier = refl }
upsert-AreSame Kind.network_policy key f c = record { server = refl; tier = refl }
upsert-AreSame Kind.pod_monitor key f c = record { server = refl; tier = refl }
upsert-AreSame Kind.cluster key f c = record { server = refl; tier = refl }
upsert-AreSame Kind.tcp_route key f c = record { server = refl; tier = refl }
upsert-AreSame Kind.udp_route key f c = record { server = refl; tier = refl }
upsert-AreSame Kind.http_route key f c = record { server = refl; tier = refl }
