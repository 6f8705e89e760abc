-- ===== src/Controller/Tiers/Backends.antt =====
-- `backendsReady` of internal/controller/dnsdist_controller.go.
pub mod Resolved
use aether_powerdns.Prelude.{
  String, Bool, true, false, List, [], ◌∷◌, ◌<>◌, ◌==◌, ◌||◌, not, Result, ok, err, Error,
  api_not_found, is_kind, if◌then◌else◌,
}
use aether_powerdns.Api.Meta.{NamespacedName, ObjectRef}
use aether_powerdns.Api.Server.{PowerDnsServer, phase_ready}
use aether_powerdns.Api.Tiers.{DnsDist}
use aether_powerdns.Manifests.Naming.{name_set}
use aether_powerdns.Controller.Services.{put}

-- What the reads of one pass see of the cluster: the servers, and the ClusterIP of a Service.
pub record View : Type 0 where
  pub server : NamespacedName → Result PowerDnsServer
  pub cluster_ip : NamespacedName → Result String

-- The results of `backendsReady`: `true` with the addresses, `false` with reason and message, or
-- an error.
pub data Readiness (A : Type 0) : Type 0 where
  ready : A → Readiness A
  not_ready : String → String → Readiness A
  failed : Error → Readiness A

-- The loop goes on where a backend is ready, and returns else.
abbrev pub and_then : {A B : Type 0} → Readiness A → (A → Readiness B) → Readiness B
and_then (ready a) f = f a
and_then (not_ready reason msg) f = not_ready reason msg
and_then (failed e) f = failed e

module _ (v : View) (namespace : String) where
  -- With the answer to the Get of the Service.
  address_of : String → String → Result String → Readiness String
  address_of name service (err e) =
      if is_kind api_not_found e.kind
      then not_ready "BackendServiceNotFound" (
          "DNS Service "
          <> (namespace <> ("/" <> (service <> (" not found for backend " <> name)))))
      else failed e
  address_of name service (ok ip) =
      if ip == "" || ip == "None"
      then not_ready "BackendServiceNotReady"
          ("DNS Service " <> (namespace <> ("/" <> (service <> " has no ClusterIP yet"))))
      else ready ip

  -- With the answer to the Get of the server.
  backend_of : String → Result PowerDnsServer → Readiness String
  backend_of name (err e) =
      if is_kind api_not_found e.kind
      then not_ready "BackendNotFound"
          ("PowerDNSServer " <> (namespace <> ("/" <> (name <> " not found"))))
      else failed e
  backend_of name (ok s) =
      if not (s.status.phase == phase_ready)
      then not_ready "BackendNotReady" ("PowerDNSServer " <> (name <> (" is " <> s.status.phase)))
      else address_of name (name_set s).dns_service
          (v.cluster_ip (record { namespace = namespace; name = (name_set s).dns_service }))

  -- The body of the loop, up to the address.
  unfoldable pub resolve : String → Readiness String
  unfolding backend_of address_of
  resolve name = backend_of name (v.server (record { namespace = namespace; name = name }))

  unfoldable pub resolve_all :
      List ObjectRef → List (String × String) → Readiness (List (String × String))
  resolve_all [] addrs = ready addrs
  resolve_all (ref ∷ refs) addrs =
      and_then (resolve ref.name) (λ ip. resolve_all refs (put ref.name ip addrs))

unfoldable pub backends_ready : View → DnsDist → Readiness (List (String × String))
backends_ready v d = resolve_all v d.meta.namespace d.spec.backend_refs []
