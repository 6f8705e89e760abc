-- ===== src/Tests/Servers.antt =====
-- Passes over a PowerDNSServer (internal/controller/powerdnsserver_controller.go) at concrete data:
-- a cluster with one server, which keeps Secrets and no other objects.
use aether_powerdns.Prelude.{
  ◌<◌, err-ne-ok, ok, Bool, if◌then◌else◌, ◌==◌, ◌&&◌, ap, arith, eq_iff, String, true, false, [],
  ◌∷◌, Option, none, some, ◌≡◌, ◌⊎◌, ◌≤◌, ◌+◌, refl, inl, inr, Bool-cases,
}
use aether_powerdns.Api.Meta.{NamespacedName}
use aether_powerdns.Api.Server.{
  PowerDnsServer, PowerDnsServerStatus, phase_provisioning_backend, phase_initializing_schema,
}
use aether_powerdns.Controller.Common.{requeue_now}
use aether_powerdns.Controller.Kube.{Kube}
use aether_powerdns.Controller.Kube.Apart.{IsApart}
use aether_powerdns.Controller.Servers.Lifecycle.{status_at}
use aether_powerdns.Controller.Servers.Lifecycle.Reached.{
  Run, start, pass, changes, stage, phases_end, reached-IsConsistent,
}
use aether_powerdns.Controller.Servers.Lifecycle.Advances.{IsAt, StoresStatus}
use aether_powerdns.Controller.Servers.Lifecycle.Progress.{reconcile-IsOnward}
use aether_powerdns.Controller.Servers.Lifecycle.Ranks.{rank, IsConsistent}
use aether_powerdns.Controller.Servers.Lifecycle.Refines.{Outcome, reconcile-Outcome}
use aether_powerdns.Controller.Servers.Lifecycle.Rules.{IsServerStore}
use aether_powerdns.Controller.Access.{pick_key}
use aether_powerdns.Controller.Servers.Backend.{
  ensure_api_key, api_key_ref, byo_of, materialise_byo_backend_secret, write_backend_secret,
}
use aether_powerdns.Controller.Servers.Status.{set_phase}
use aether_powerdns.Controller.Servers.Validation.{validate_spec}
use aether_powerdns.Manifests.Settings.{validate_extra_settings}
use aether_powerdns.Controller.Servers.Reconcile.{reconcile, with_server, dispatch, finalizer}
use aether_powerdns.Controller.Servers.Phases.{phase_pending, phase_provisioning, provision}
use aether_powerdns.Controller.World.{World}
use aether_powerdns.Tests.Sample.{sample_server, sample_meta}
use aether_powerdns.Tests.Cluster.{
  Held, found as held, kube, update_server, update_server_status, create-AreSame, upsert-AreSame,
}

abbrev key : NamespacedName
key = record { namespace = "dns"; name = "pdns" }

kube-IsApart : IsApart kube (status_at kube key)
kube-IsApart = record {
  create = λ k o. record { same = λ c. rw ((create-AreSame k o c).server) refl };
  update = λ k o. record { same = λ c. refl };
  delete = λ k key. record { same = λ c. refl };
  create_or_update = λ k key f. record { same = λ c. rw ((upsert-AreSame k key f c).server) refl };
  retry = λ m h. h;
  rand_read = λ n. record { same = λ c. refl };
}

status_written :
    (s : PowerDnsServer) (held : Option PowerDnsServer) (c : Held)
    → let c : Held = record c { server = held } in
      (status_at kube key (update_server_status s c).1 ≡ status_at kube key c)
      ⊎ (status_at kube key (update_server_status s c).1 ≡ some s.status)
status_written s none c = inl refl
status_written s (some held) c = inr refl

server_written :
    (s : PowerDnsServer) (held : Option PowerDnsServer) (c : Held)
    → let c : Held = record c { server = held } in
      (status_at kube key (update_server s c).1 ≡ status_at kube key c)
      ⊎ ((s.meta.deleting ≡ true) × (status_at kube key (update_server s c).1 ≡ none))
server_written s none c = inl refl
server_written s (some held) c = elim (Bool-cases s.meta.deleting) [
  | inl deleting ↦ inr (deleting, rw deleting refl)
  | inr alive ↦ inl (rw alive refl)
]

kube-IsServerStore : IsServerStore kube key
kube-IsServerStore = record {
  apart = kube-IsApart;
  status_write = λ s c. status_written s c.server c;
  server_write = λ s c. server_written s c.server c;
}

-- A new server that brings its own database.
abbrev new_server : PowerDnsServer
new_server = record sample_server {
  meta = sample_meta "dns" "pdns" (finalizer ∷ []);
  spec = record sample_server.spec {
    backend = record {
      type = "postgres";
      postgres = some (record {
        instances = none;
        storage_size = "";
        storage_class = "";
        byo = some (record {
          host = "db.example.org";
          port = 0;
          database = "pdns";
          credentials_secret_ref = record { name = "db-credentials" };
          ssl_mode = "";
        });
      });
    };
  };
  status = record sample_server.status {
    phase = "";
    api_key_secret_name = "";
    api_endpoint = "";
    schema_applied = false;
  };
}

abbrev first : Held
first = record {
  server = some new_server;
  spare = some (record new_server { meta = sample_meta "dns" "other" [] });
  tier = none;
  services = [];
  deployment = none;
  secrets =
      (record {
        name = "db-credentials";
        namespace = "dns";
        labels = [];
        entries = ("username", "pdns") ∷ ("password", "secret") ∷ [];
      })
      ∷ [];
}

abbrev over : Held → World Held (Unit {0})
over c = record { cluster = c; pdns = tt; recording = true; events = [] }

abbrev second : Held
second = (reconcile kube key (over first)).1.cluster

abbrev third : Held
third = (reconcile kube key (over second)).1.cluster

abbrev status_in : Option PowerDnsServer → PowerDnsServerStatus
status_in none = new_server.status
status_in (some s) = s.status

abbrev phases : String × String × String
phases = (
  (status_in first.server).phase,
  (status_in second.server).phase,
  (status_in third.server).phase,
)

phases_passed : phases ≡ ("", phase_provisioning_backend, phase_initializing_schema)
unfolding reconcile with_server dispatch phase_pending phase_provisioning provision validate_spec
    validate_extra_settings ensure_api_key api_key_ref set_phase byo_of
    materialise_byo_backend_secret pick_key write_backend_secret
phases_passed = refl

reconcile-Outcome_example :
    Outcome kube key kube-IsServerStore new_server
      (status_at kube key (reconcile kube key (over first)).1.cluster)
reconcile-Outcome_example =
    reconcile-Outcome kube key kube-IsServerStore new_server (over first) refl

-- A cluster with two servers, one at the key and one of another name.
abbrev is_ours : PowerDnsServer → Bool
is_ours s = s.meta.namespace == "dns" && s.meta.name == "pdns"

abbrev neighbours : Kube
neighbours = record kube {
  get_server =
      λ n c. if n.namespace == "dns" && n.name == "pdns" then held c.server else held c.spare;
  update_server_status =
      λ s c. if is_ours s then update_server_status s c else (ok tt, record c { spare = some s });
}

status_stored :
    (s : PowerDnsServer) (o : Option PowerDnsServer) (c : Held)
    → let c : Held = record c { server = o } in
      (update_server_status s c).0 ≡ ok tt
      → status_at neighbours key (update_server_status s c).1 ≡ some s.status
status_stored s none c h = absurd (err-ne-ok h)
status_stored s (some o) c h = refl

at_key-is_ours : (s : PowerDnsServer) → IsAt key s → is_ours s ≡ true
at_key-is_ours s e =
    let namespace : s.meta.namespace ≡ "dns" = ap (λ n. n.namespace) e in
    let name : s.meta.name ≡ "pdns" = ap (λ n. n.name) e in
    ground (arith, eq_iff s.meta.namespace "dns", eq_iff s.meta.name "pdns")

neighbours-StoresStatus : StoresStatus neighbours key
neighbours-StoresStatus = record {
  stored = λ s c e h.
      let ours = at_key-is_ours s e in rw ours (status_stored s c.server c (rw ours at h));
}

-- A write of the other server's status is none at the key.
other_apart :
    status_at neighbours key
      (neighbours.update_server_status
        (record new_server {
          meta = sample_meta "dns" "other" [];
          status = record new_server.status { phase = phase_provisioning_backend };
        })
        first).1
    ≡ some new_server.status
other_apart = refl

first_answer : (reconcile neighbours key (over first)).0 ≡ ok requeue_now
unfolding reconcile with_server dispatch phase_pending validate_spec validate_extra_settings
    ensure_api_key api_key_ref set_phase
first_answer = refl

reconcile-IsOnward_example :
    (t : PowerDnsServerStatus) × (status_at neighbours key
        (reconcile neighbours key (over first)).1.cluster
      ≡ some t)
    × (rank new_server.status.phase < rank t.phase)
reconcile-IsOnward_example =
    reconcile-IsOnward neighbours key neighbours-StoresStatus new_server (over first) requeue_now
      refl refl refl refl first_answer refl

abbrev two_passes : Run kube key first third
two_passes = pass (pass start (over first) refl refl) (over second) refl refl

phases_end_example :
    (changes kube key two_passes + stage (status_at kube key first) ≤ 7)
    × (stage (status_at kube key first) + changes kube key two_passes
        ≤ stage (status_at kube key third))
phases_end_example = phases_end kube key kube-IsServerStore two_passes

third_status : status_at kube key third ≡ some (status_in third.server)
unfolding reconcile with_server dispatch phase_pending phase_provisioning provision validate_spec
    validate_extra_settings ensure_api_key api_key_ref set_phase byo_of
    materialise_byo_backend_secret pick_key write_backend_secret
third_status = refl

reached-IsConsistent_example : IsConsistent (status_in third.server)
reached-IsConsistent_example =
    reached-IsConsistent kube key kube-IsServerStore new_server (status_in third.server) refl
      (inl refl) two_passes third_status
