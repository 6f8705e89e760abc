-- ===== src/Controller/Servers/Backend.antt =====
-- The API key, the backend Secret and the readiness of the database
-- (internal/controller/powerdnsserver_controller.go).
pub mod Apart
use aether_powerdns.Prelude.{
  ℕ, ◌/◌, ◌%◌, String, Bool, true, false, List, [], ◌∷◌, ◌++◌, Option, none, some, ◌<>◌, ◌==◌, ◌||◌,
  not, leb, nat_eq, show_nat, Result, ok, err, Error, other, api_not_found, is_kind, Action, ◌>>=◌,
  ◌>>◌, return, fail, lookup, if◌then◌else◌,
}
use aether_powerdns.Api.Server.{
  PowerDnsServer, LocalObjectReference, PostgresBackendSpec, ByoPostgres,
}
use aether_powerdns.Manifests.Naming.{name_set}
use aether_powerdns.Manifests.Unstructured.{Unstructured, default_database, app_secret_name}
use aether_powerdns.Controller.Access.{pick_key}
use aether_powerdns.Controller.Kube.{Kind, OwnedSecret, server, Kube}
use aether_powerdns.Controller.Kube.Children.{within, with_text, lift, look}
use aether_powerdns.Controller.Services.{same_map}
use aether_powerdns.Controller.World.{Secret}

abbrev pub owner_labels : PowerDnsServer → List (String × String)
owner_labels s =
    ("app.kubernetes.io/name", "powerdns")
    ∷ ("app.kubernetes.io/instance", s.meta.name)
    ∷ ("app.kubernetes.io/managed-by", "aether-powerdns")
    ∷ []

-- `spec.backend.postgres.byo`, where both are there.
byo_in : Option PostgresBackendSpec → Option ByoPostgres
byo_in none = none
byo_in (some pg) = pg.byo

unfoldable pub byo_of : PowerDnsServer → Option ByoPostgres
unfolding byo_in
byo_of s = byo_in s.spec.backend.postgres

abbrev hex_digit : ℕ → String
hex_digit d = elim (leb d 9) [
  | true ↦ show_nat d
  | false ↦
      if nat_eq d 10
      then "a"
      else if nat_eq d 11
      then "b"
      else if nat_eq d 12
      then "c"
      else if nat_eq d 13
      then "d"
      else if nat_eq d 14
      then "e"
      else "f"
]

-- `hex.EncodeToString`.
unfoldable pub hex : List ℕ → String
hex [] = ""
hex (b ∷ bs) = hex_digit (b / 16) <> (hex_digit (b % 16) <> hex bs)

-- The Secret that the spec names for the API key, if it names one.
unfoldable pub named_secret : Option LocalObjectReference → Option String
named_secret none = none
named_secret (some ref) = if not (ref.name == "") then some ref.name else none

unfoldable pub api_key_ref : PowerDnsServer → Option String
unfolding named_secret
api_key_ref s = named_secret s.spec.api.api_key_secret_ref

-- The Secret of the API key: the one that the spec names, or the operator's own.
unfoldable pub api_key_name : PowerDnsServer → String
unfolding name_set
api_key_name s = elim (api_key_ref s) [ none ↦ (name_set s).api_key_secret | some name ↦ name ]

abbrev pub with_api_key : PowerDnsServer → String → PowerDnsServer
with_api_key s name = record s { status = record s.status { api_key_secret_name = name } }

abbrev pub secret_of : OwnedSecret → Secret
secret_of sec = record { data_ = sec.entries }

abbrev plain_error : String → Error
plain_error text = record { kind = other; text = text }

module _ (A : Kube) where
  new_api_key : PowerDnsServer → String → Action A.State PowerDnsServer
  unfolding hex
  new_api_key s name = do
    bytes ← A.rand_read 32
    owned ← lift (
        A.own Kind.secret (server s) (record {
          name = name;
          namespace = s.meta.namespace;
          labels = owner_labels s;
          entries = ("api-key", hex bytes) ∷ [];
        }))
    A.create Kind.secret owned
    return (with_api_key s name)

  -- With the answer to the Get.
  api_key_found : PowerDnsServer → String → Result OwnedSecret → Action A.State PowerDnsServer
  unfolding new_api_key
  api_key_found s name (ok _) = return (with_api_key s name)
  api_key_found s name (err e) =
      if not (is_kind api_not_found e.kind) then fail e else new_api_key s name

  own_api_key : PowerDnsServer → Option String → Action A.State PowerDnsServer
  unfolding api_key_found name_set
  own_api_key s (some ref) = return (with_api_key s ref)
  own_api_key s none = do
    let name = (name_set s).api_key_secret
    existing ← look (A.get Kind.secret (record { namespace = s.meta.namespace; name = name }))
    api_key_found s name existing

  -- The server with the name of its Secret in the status.
  unfoldable pub ensure_api_key : PowerDnsServer → Action A.State PowerDnsServer
  unfolding own_api_key
  ensure_api_key s = own_api_key s (api_key_ref s)

  -- `reflect.DeepEqual` of two maps.
  secret_found : OwnedSecret → Result OwnedSecret → Action A.State (Unit {0})
  secret_found desired (err e) =
      if is_kind api_not_found e.kind then A.create Kind.secret desired else fail e
  secret_found desired (ok existing) =
      if same_map existing.entries desired.entries
      then return tt
      else A.update Kind.secret (record existing { entries = desired.entries })

  unfoldable pub write_backend_secret :
      PowerDnsServer → String → String → String → String → String → Action A.State (Unit {0})
  unfolding secret_found name_set
  write_backend_secret s host port user password database = do
    desired ← lift (
        A.own Kind.secret (server s) (record {
          name = (name_set s).backend_secret;
          namespace = s.meta.namespace;
          labels = owner_labels s;
          entries =
              ("host", host)
              ∷ ("port", port)
              ∷ ("username", user)
              ∷ ("password", password)
              ∷ ("database", database)
              ∷ [];
        }))
    existing ←
        look (A.get Kind.secret (record { namespace = desired.namespace; name = desired.name }))
    secret_found desired existing

  abbrev or_else : String → String → String
  or_else default found = if found == "" then default else found

  app_secret_found : PowerDnsServer → String → Result OwnedSecret → Action A.State Bool
  app_secret_found s name (err e) = if is_kind api_not_found e.kind then return false else fail e
  app_secret_found s name (ok src) =
      let host =
        or_else (name <> ("-rw." <> (s.meta.namespace <> ".svc")))
          (pick_key (secret_of src) ("host" ∷ [])) in
      let port = or_else "5432" (pick_key (secret_of src) ("port" ∷ [])) in
      let username = pick_key (secret_of src) ("username" ∷ "user" ∷ []) in
      let password = pick_key (secret_of src) ("password" ∷ []) in
      let database =
        or_else default_database (pick_key (secret_of src) ("dbname" ∷ "database" ∷ [])) in
      if username == "" || password == ""
      then return false
      else do write_backend_secret s host port username password database; return true

  unfoldable pub materialise_cnpg_backend_secret : PowerDnsServer → String → Action A.State Bool
  unfolding app_secret_found app_secret_name
  materialise_cnpg_backend_secret s name = do
    src ←
        look
          (A.get Kind.secret (record { namespace = s.meta.namespace; name = app_secret_name name }))
    app_secret_found s name src

  credentials_found : PowerDnsServer → ByoPostgres → Result OwnedSecret → Action A.State Bool
  credentials_found s byo (err e) = if is_kind api_not_found e.kind then return false else fail e
  credentials_found s byo (ok src) =
      let username = pick_key (secret_of src) ("username" ∷ "user" ∷ []) in
      let password = pick_key (secret_of src) ("password" ∷ []) in
      let port = if nat_eq byo.port 0 then 5432 else byo.port in
      let database = or_else default_database byo.database in
      if username == "" || password == ""
      then fail (
          plain_error (
            "BYO secret "
            <> (byo.credentials_secret_ref.name <> " missing username/password keys")))
      else do
        write_backend_secret s byo.host (show_nat port) username password database
        return true

  unfoldable pub materialise_byo_backend_secret : PowerDnsServer → ByoPostgres → Action A.State Bool
  unfolding credentials_found
  materialise_byo_backend_secret s byo = do
    src ← look (
        A.get Kind.secret
          (record { namespace = s.meta.namespace; name = byo.credentials_secret_ref.name }))
    credentials_found s byo src

  instances_ready : Result (Option ℕ) → Result Bool
  instances_ready (err e) = err (record e { text = "read CNPG cluster readyInstances: " <> e.text })
  instances_ready (ok none) = ok false
  instances_ready (ok (some ready)) = ok (leb 1 ready)

  cluster_found : Result Unstructured → Action A.State Bool
  unfolding instances_ready
  cluster_found (err e) = if is_kind api_not_found e.kind then return false else fail e
  cluster_found (ok u) =
      lift (instances_ready (A.nested_int64 u ("status" ∷ "readyInstances" ∷ [])))

  unfoldable pub cnpg_cluster_ready : PowerDnsServer → String → Action A.State Bool
  unfolding cluster_found
  cnpg_cluster_ready s name = do
    u ← look (A.get Kind.cluster (record { namespace = s.meta.namespace; name = name }))
    cluster_found u
