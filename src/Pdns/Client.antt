-- ===== src/Pdns/Client.antt =====
-- internal/pdnsclient/client.go: one HTTP exchange, and the calls that the operator makes.
pub mod Outcomes
use Prim.Native.String.{slice}
use aether_powerdns.Prelude.{
  ℕ, String, Bool, true, false, List, [], ◌∷◌, Option, none, some, ◌<>◌, ◌||◌, ◌&&◌, ◌==◌, Result,
  ok, err, Error, other, err_not_found, err_unreachable, err_already_exists, Action, ◌>>=◌, ◌>>◌,
  return, fail, attempt, is_kind, codes, lower_codes, codes_contain, trim_suffix, trim_space,
  path_escape, show_nat, ltb, nat_eq, if◌then◌else◌,
}
use aether_powerdns.Pdns.Types.{
  PdnsRrSet, PdnsZone, Cryptokey, ZoneUpdate, Payload, empty, zone_payload, update_payload,
  rrsets_payload, key_payload, Method, get, post, put, patch, delete, HttpRequest, HttpResponse,
  Reply, no_answer, answer, Transport,
}

unfoldable pub is_already_exists : String → Bool
is_already_exists body =
    let b = lower_codes body in
    codes_contain b (codes "already exists") || codes_contain b (codes "duplicate key")

pub record Client : Type 0 where
  pub base_url : String
  pub api_key : String

unfoldable pub new_client : String → String → Client
new_client base_url api_key = record { base_url = trim_suffix base_url "/"; api_key = api_key }

abbrev zones_path : String
zones_path = "/servers/localhost/zones"

unfoldable pub zone_path : String → String
zone_path name = "/servers/localhost/zones/" <> path_escape name

abbrev method_name : Method → String
method_name get = "GET"
method_name post = "POST"
method_name put = "PUT"
method_name patch = "PATCH"
method_name delete = "DELETE"

abbrev is_empty : Payload → Bool
is_empty empty = true
is_empty _ = false

abbrev pub build_request : Client → Method → String → Payload → HttpRequest
build_request c method path payload = record {
  method = method;
  url = c.base_url <> ("/api/v1" <> path);
  api_key = c.api_key;
  json_content = if is_empty payload then false else true;
  payload = payload;
}

-- The part of `do` that reads an answer; the body of an error is cut at 4096 bytes.
unfoldable pub read_answer :
    {A : Type 0} → Method → String → (String → Result A) → HttpResponse → Result A
read_answer method path decode r =
    let body = trim_space (slice r.body 0 4096) in
    let where_ = method_name method <> (" " <> path) in
    if nat_eq r.status_code 404
    then err (record { kind = err_not_found; text = "pdns: not found" })
    else if ltb r.status_code 200 || ltb 299 r.status_code
    then (if nat_eq r.status_code 409 || is_already_exists body
        then err (record {
          kind = err_already_exists;
          text = "pdns: already exists: " <> (where_ <> (": " <> body));
        })
        else err (record {
          kind = other;
          text = "pdns: " <> (where_ <> (": " <> (r.status <> (": " <> body))));
        }))
    else decode r.body

read_reply : {A : Type 0} → Method → String → (String → Result A) → Reply → Result A
unfolding read_answer
read_reply method path decode (no_answer message) =
    err (record { kind = err_unreachable; text = "pdns: unreachable: " <> message })
read_reply method path decode (answer r) = read_answer method path decode r

-- What is decoded where `do` is called with no `out`.
abbrev pub discard : String → Result (Unit {0})
discard body = ok tt

module _ (T : Transport) (c : Client) where
  -- `Client.do`, with the reader of the body in place of the pointer `out`.
  unfoldable pub call :
      {A : Type 0} → Method → String → Payload → (String → Result A) → Action T.State A
  unfolding read_reply
  call method path payload decode s =
      let req = build_request c method path payload in
      elim (T.url_error req.url) [
        | some message ↦ (err (record { kind = other; text = message }), s)
        | none ↦ let (reply, s') = T.send req s in (read_reply method path decode reply, s')
      ]

  unfoldable pub get_zone : String → Action T.State PdnsZone
  get_zone name = call get (zone_path name) empty T.decode_zone

  unfoldable pub create_zone : PdnsZone → Action T.State PdnsZone
  create_zone z =
      let z' : PdnsZone = elim z.nameservers [
        | none ↦ record z { nameservers = some [] }
        | some ns ↦ z
      ] in
      call post zones_path (zone_payload z') T.decode_zone

  unfoldable pub update_zone : String → ZoneUpdate → Action T.State (Unit {0})
  update_zone name u =
      let u' : ZoneUpdate = elim u.masters [
        | none ↦ record u { masters = some [] }
        | some ms ↦ u
      ] in
      call put (zone_path name) (update_payload u') discard

  -- A missing zone counts as deleted.
  abbrev forgive_not_found : Result (Unit {0}) → Action T.State (Unit {0})
  forgive_not_found (ok _) = return tt
  forgive_not_found (err e) = if is_kind err_not_found e.kind then return tt else fail e

  unfoldable pub delete_zone : String → Action T.State (Unit {0})
  delete_zone name = do
    r ← attempt (call delete (zone_path name) empty discard)
    forgive_not_found r

  unfoldable pub patch_rrsets : String → List PdnsRrSet → Action T.State (Unit {0})
  patch_rrsets zone rrsets = call patch (zone_path zone) (rrsets_payload rrsets) discard

  unfoldable pub list_cryptokeys : String → Action T.State (List Cryptokey)
  list_cryptokeys zone = call get (zone_path zone <> "/cryptokeys") empty T.decode_keys

  unfoldable pub create_cryptokey : String → Cryptokey → Action T.State Cryptokey
  create_cryptokey zone k = call post (zone_path zone <> "/cryptokeys") (key_payload k) T.decode_key

  unfoldable pub update_cryptokey : String → Cryptokey → Action T.State (Unit {0})
  update_cryptokey zone k =
      call put (zone_path zone <> ("/cryptokeys/" <> show_nat k.id)) (key_payload k) discard

  unfoldable pub rectify_zone : String → Action T.State (Unit {0})
  rectify_zone zone = call put (zone_path zone <> "/rectify") empty discard
