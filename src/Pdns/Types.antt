-- ===== src/Pdns/Types.antt =====
-- The values that internal/pdnsclient/client.go exchanges with the PowerDNS HTTP API, and the
-- HTTP transport with the server behind it, which are the model's parameter.
use aether_powerdns.Prelude.{ℕ, String, Bool, List, Option, Result}

pub record PdnsRecord : Type 0 where
  pub content : String
  pub disabled : Bool

pub record PdnsRrSet : Type 0 where
  pub name : String
  pub type : String
  pub ttl : ℕ
  pub change_type : String
  pub records : List PdnsRecord

-- A slice that may be `nil` is an `Option`.
pub record PdnsZone : Type 0 where
  pub id : String
  pub name : String
  pub kind : String
  pub serial : ℕ
  pub masters : Option (List String)
  pub nameservers : Option (List String)
  pub dnssec : Bool
  pub rrsets : List PdnsRrSet

pub record Cryptokey : Type 0 where
  pub id : ℕ
  pub key_type : String
  pub active : Bool
  pub ds : List String

pub record ZoneUpdate : Type 0 where
  pub kind : String
  pub masters : Option (List String)

-- The argument `in` of `do`: what is marshalled into the body of a request, if anything.
pub data Payload : Type 0 where
  empty : Payload
  zone_payload : PdnsZone → Payload
  update_payload : ZoneUpdate → Payload
  rrsets_payload : List PdnsRrSet → Payload
  key_payload : Cryptokey → Payload

pub data Method : Type 0 where
  get post put patch delete : Method

pub record HttpRequest : Type 0 where
  pub method : Method
  pub url : String
  pub api_key : String
  pub json_content : Bool
  pub payload : Payload

pub record HttpResponse : Type 0 where
  pub status_code : ℕ
  pub status : String
  pub body : String

-- `http.Client.Do`: an error before any answer, or the answer.
pub data Reply : Type 0 where
  no_answer : String → Reply
  answer : HttpResponse → Reply

-- Go's HTTP stack with the PowerDNS server behind it, over the server's state: the error that
-- `http.NewRequestWithContext` has for a URL, the exchange itself, and what `encoding/json`
-- reads from a body at each of the types that the client decodes.
pub record Transport : Type 1 where
  pub State : Type 0
  pub url_error : String → Option String
  pub send : HttpRequest → State → Reply × State
  pub decode_zone : String → Result PdnsZone
  pub decode_keys : String → Result (List Cryptokey)
  pub decode_key : String → Result Cryptokey
