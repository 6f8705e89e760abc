-- ===== src/Controller/Servers/Lifecycle.antt =====
-- The life of a PowerDNSServer as its users see it, in its status: what the phases of
-- internal/controller/powerdnsserver_controller.go promise, without how they are reached.
pub mod Rules
pub mod Early
pub mod Late
pub mod Exposing
pub mod Settled
pub mod Ranks
pub mod Steady
pub mod Refines
pub mod Advances
pub mod Onward
pub mod Progress
pub mod Reached
use aether_powerdns.Prelude.{String, true, Option, none, some, ◌≡◌, ◌≢◌, ◌⊎◌, Result, ok, err}
use aether_powerdns.Api.Meta.{NamespacedName}
use aether_powerdns.Api.Server.{
  PowerDnsServer, PowerDnsServerStatus, phase_pending, phase_provisioning_backend,
  phase_initializing_schema, phase_deploying_server, phase_exposing_dns, phase_ready, phase_failed,
}
use aether_powerdns.Manifests.Naming.{name_set}
use aether_powerdns.Controller.Kube.{Kube}
use aether_powerdns.Controller.Servers.Backend.{api_key_name}
use aether_powerdns.Controller.Servers.Phases.{api_endpoint_of}
use aether_powerdns.Controller.Servers.Validation.{validate_spec}

-- What later phases rely on.
pub record SameCore (a b : PowerDnsServerStatus) : Type 0 where
  pub api_key : b.api_key_secret_name ≡ a.api_key_secret_name
  pub backend : b.backend_secret_name ≡ a.backend_secret_name
  pub schema : b.schema_applied ≡ a.schema_applied
  pub api : b.api_endpoint ≡ a.api_endpoint

abbrev pub IsNew : PowerDnsServerStatus → Type 0
IsNew a = (a.phase ≡ "") ⊎ (a.phase ≡ phase_pending)

-- The steps from the status of a server to another status.
pub data Transition (s : PowerDnsServer) (t : PowerDnsServerStatus) : Type 0 where
  accept :
      IsNew s.status
      → validate_spec s ≡ ""
      → t.phase ≡ phase_provisioning_backend
      → t.api_key_secret_name ≡ api_key_name s
      → Transition s t
  refuse :
      IsNew s.status
      → validate_spec s ≢ ""
      → t.phase ≡ phase_failed
      → t.failure_message ≡ validate_spec s
      → Transition s t
  provision :
      s.status.phase ≡ phase_provisioning_backend
      → t.phase ≡ phase_initializing_schema
      → t.api_key_secret_name ≡ s.status.api_key_secret_name
      → t.backend_secret_name ≡ (name_set s).backend_secret
      → Transition s t
  initialise :
      s.status.phase ≡ phase_initializing_schema
      → t.phase ≡ phase_deploying_server
      → t.api_key_secret_name ≡ s.status.api_key_secret_name
      → t.backend_secret_name ≡ s.status.backend_secret_name
      → t.schema_applied ≡ true
      → Transition s t
  deploy :
      s.status.phase ≡ phase_deploying_server
      → t.phase ≡ phase_exposing_dns
      → t.api_key_secret_name ≡ s.status.api_key_secret_name
      → t.backend_secret_name ≡ s.status.backend_secret_name
      → t.schema_applied ≡ s.status.schema_applied
      → t.api_endpoint ≡ api_endpoint_of s
      → Transition s t
  expose :
      s.status.phase ≡ phase_exposing_dns
      → t.phase ≡ phase_ready
      → SameCore s.status t
      → Transition s t
  give_up :
      s.status.phase ≡ phase_exposing_dns
      → t.phase ≡ phase_failed
      → SameCore s.status t
      → Transition s t
  refresh :
      s.status.phase ≡ phase_ready → t.phase ≡ phase_ready → SameCore s.status t → Transition s t

-- The status that the cluster holds, `none` where it has no such server.
abbrev pub status_of : Result PowerDnsServer → Option PowerDnsServerStatus
status_of (ok s) = some s.status
status_of (err e) = none

-- From the status of `s`: the same, or one that a step leads to.
abbrev pub Allowed : PowerDnsServer → Option PowerDnsServerStatus → Type 0
Allowed s o = (o ≡ some s.status) ⊎ ((t : PowerDnsServerStatus) × (o ≡ some t) × Transition s t)

abbrev pub status_at : (A : Kube) → NamespacedName → A.State → Option PowerDnsServerStatus
status_at A key c = status_of (A.get_server key c)
