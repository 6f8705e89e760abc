-- ===== src/Tests/Keyring.antt =====
-- A PowerDNS that keeps one zone and at most one key of it: what the runs of the model of
-- internal/controller/zone_controller.go use.
use aether_powerdns.Prelude.{
  String, Bool, true, false, List, [], ◌∷◌, ◌==◌, Option, none, some, ok, nat_eq, has_suffix,
  if◌then◌else◌,
}
use aether_powerdns.Pdns.Types.{
  Cryptokey, Payload, key_payload, Method, get, post, put, patch, delete, HttpRequest, Reply,
  answer, Transport,
}
use aether_powerdns.Tests.Sample.{sample_zone_answer, status_of}

-- Whether there is the zone, and the key with its activity.
pub record Keyring : Type 0 where
  pub zone : Bool
  pub key : Option Bool

abbrev pub key_of : Bool → Cryptokey
key_of b = record { id = 1; key_type = "csk"; active = b; ds = "1 13 2 aa" ∷ [] }

abbrev pub keys_of : Option Bool → List Cryptokey
keys_of none = []
keys_of (some b) = key_of b ∷ []

abbrev body_of : Option Bool → String
body_of none = "none"
body_of (some true) = "on"
body_of (some false) = "off"

abbrev turn : Cryptokey → Option Bool → Option Bool
turn k none = none
turn k (some b) = some (if nat_eq 1 k.id then k.active else b)

abbrev exchange_get : Bool → Keyring → Reply × Keyring
exchange_get listing s =
    if listing
    then (answer (status_of 200 (body_of s.key)), s)
    else (answer (if s.zone then status_of 200 "zone" else status_of 404 ""), s)

abbrev exchange_post : Payload → Keyring → Reply × Keyring
exchange_post (key_payload k) s = elim s.key [
  | none ↦ (answer (status_of 201 (body_of (some k.active))), record s { key = some k.active })
  | some b ↦ (answer (status_of 409 ""), s)
]
exchange_post _ s =
    if s.zone
    then (answer (status_of 409 ""), s)
    else (answer (status_of 201 "zone"), record s { zone = true })

abbrev exchange_put : Payload → Keyring → Reply × Keyring
exchange_put (key_payload k) s = (answer (status_of 204 ""), record s { key = turn k s.key })
exchange_put _ s = (answer (status_of 204 ""), s)

abbrev exchange : HttpRequest → Method → Keyring → Reply × Keyring
exchange req get s = exchange_get (has_suffix req.url "/cryptokeys") s
exchange req post s = exchange_post req.payload s
exchange req put s = exchange_put req.payload s
exchange req delete s = (answer (status_of 204 ""), record s { zone = false; key = none })
exchange req patch s = (answer (status_of 204 ""), s)

abbrev pub keyring_transport : Transport
keyring_transport = record {
  State = Keyring;
  url_error = λ url. none;
  send = λ req s. exchange req req.method s;
  decode_zone = λ body. ok (sample_zone_answer []);
  decode_keys = λ body.
      ok (
        if body == "on" then key_of true ∷ [] else if body == "off" then key_of false ∷ [] else []);
  decode_key = λ body. ok (key_of (body == "on"));
}
