-- ===== src/Controller/Access.antt =====
-- internal/controller/pdnsaccess.go, with the resolution of references of zone_controller.go and
-- rrset_controller.go: who may use a server, and how its API is reached.
pub mod Laws
use aether_powerdns.Prelude.{
  String, Bool, true, false, List, [], ◌∷◌, Option, none, some, ◌<>◌, ◌||◌, ◌==◌, Result, ok, err,
  Error, other, Action, ◌>>=◌, return, fail, attempt, lookup, if◌then◌else◌,
}
use aether_powerdns.Api.Meta.{ObjectRef, NamespacedName}
use aether_powerdns.Api.Server.{PowerDnsServer}
use aether_powerdns.Api.Zones.{Zone, RrSet}
use aether_powerdns.Pdns.Client.{Client, new_client}
use aether_powerdns.Controller.World.{Secret, Cluster, World, read}

allowed_in : List String → String → Bool
allowed_in [] ns = false
allowed_in (a ∷ rest) ns = if a == "*" || a == ns then true else allowed_in rest ns

unfoldable pub namespace_allowed : PowerDnsServer → String → Bool
unfolding allowed_in
namespace_allowed server ns =
    if ns == server.meta.namespace
    then true
    else allowed_in server.spec.zone_management.allowed_namespaces ns

unfoldable pub ref_key : ObjectRef → String → String
ref_key ref default_ns =
    let ns = if ref.namespace == "" then default_ns else ref.namespace in ns <> ("/" <> ref.name)

unfoldable pub server_key_for : Zone → NamespacedName
server_key_for zone = record {
  namespace =
      if zone.spec.server_ref.namespace == ""
      then zone.meta.namespace
      else zone.spec.server_ref.namespace;
  name = zone.spec.server_ref.name;
}

unfoldable pub zone_key_for : RrSet → NamespacedName
zone_key_for rr = record {
  namespace =
      if rr.spec.zone_ref.namespace == "" then rr.meta.namespace else rr.spec.zone_ref.namespace;
  name = rr.spec.zone_ref.name;
}

-- The first of the keys with an entry that is not empty, and else "".
unfoldable pub pick_key : Secret → List String → String
pick_key src [] = ""
pick_key src (k ∷ ks) = elim (lookup k src.data_) [
  | none ↦ pick_key src ks
  | some v ↦ if v == "" then pick_key src ks else v
]

abbrev plain_error : String → Error
plain_error text = record { kind = other; text = text }

module _ (K : Cluster) {P : Type 0} where
  client_of_secret : PowerDnsServer → String → Result Secret → Action (World K.State P) Client
  client_of_secret server name (err e) =
      fail (record e { text = "read API key secret " <> (name <> (": " <> e.text)) })
  client_of_secret server name (ok sec) =
      let key = pick_key sec ("api-key" ∷ []) in
      if key == ""
      then fail (
          plain_error
            ("secret " <> (server.meta.namespace <> ("/" <> (name <> " has no api-key entry")))))
      else return (new_client server.status.api_endpoint key)

  unfoldable pub pdns_client_for : PowerDnsServer → Action (World K.State P) Client
  unfolding client_of_secret
  pdns_client_for server =
      let name = server.status.api_key_secret_name in
      if server.status.api_endpoint == "" || name == ""
      then fail (
          plain_error (
            "PowerDNSServer "
            <> (server.meta.namespace
                <> ("/" <> (server.meta.name <> " has not published its API endpoint yet")))))
      else do
        sec ←
            attempt
              (read (K.get_secret (record { namespace = server.meta.namespace; name = name })))
        client_of_secret server name sec
