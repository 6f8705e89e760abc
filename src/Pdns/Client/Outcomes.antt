-- ===== src/Pdns/Client/Outcomes.antt =====
-- How the client of internal/pdnsclient/client.go classifies what the transport gives it.
use Prim.Native.String.{slice}
use aether_powerdns.Prelude.{
  ◌≤◌, String, Bool, true, false, ◌≡◌, refl, ◌≢◌, ◌↔◌, ◌⊎◌, none, Result, ok, err, Error, ErrorKind,
  other, err_not_found, err_unreachable, err_already_exists, is_kind, is_ok, trim_space, arith,
}
use aether_powerdns.Pdns.Types.{Payload, empty, Method, delete, HttpResponse, answer, Transport}
use aether_powerdns.Pdns.Client.{
  Client, build_request, call, discard, read_answer, delete_zone, zone_path, is_already_exists,
}

abbrev pub has_kind : {A : Type 0} → ErrorKind → Result A → Bool
has_kind k (ok a) = false
has_kind k (err e) = is_kind k e.kind

-- A status in the range that Go's client takes for success.
abbrev pub IsSuccess : HttpResponse → Type 0
IsSuccess r = (200 ≤ r.status_code) × (r.status_code ≤ 299)

-- An answer that the client reads as "this object already exists".
abbrev pub SaysExists : HttpResponse → Type 0
SaysExists r =
    (r.status_code ≢ 404)
    × (¬ IsSuccess r)
    × ((r.status_code ≡ 409) ⊎ (is_already_exists (trim_space (slice r.body 0 4096)) ≡ true))

-- An error of `encoding/json` is none of the sentinels.
plain-has_kind :
    {A : Type 0} (x : Result A)
    → ((e : Error) → x ≡ err e → e.kind ≡ other)
    → (has_kind err_not_found x ≡ false)
      × (has_kind err_already_exists x ≡ false)
      × (has_kind err_unreachable x ≡ false)
plain-has_kind (ok a) h = (refl, refl, refl)
plain-has_kind (err e) h = rw (h e refl) (refl, refl, refl)

module _ {A : Type 0} (method : Method) (path : String) (decode : String → Result A)
    (r : HttpResponse) (plain : (e : Error) → decode r.body ≡ err e → e.kind ≡ other) where
  read_answer-success : IsSuccess r → read_answer method path decode r ≡ decode r.body
  unfolding read_answer
  read_answer-success (lo, hi) = ground arith

  read_answer-not_found :
      (has_kind err_not_found (read_answer method path decode r) ≡ true) ↔ (r.status_code ≡ 404)
  unfolding read_answer
  read_answer-not_found = ground (arith, plain-has_kind (decode r.body) plain)

  read_answer-exists :
      (has_kind err_already_exists (read_answer method path decode r) ≡ true) ↔ SaysExists r
  unfolding read_answer
  read_answer-exists = ground (arith, plain-has_kind (decode r.body) plain)

  read_answer-reached : has_kind err_unreachable (read_answer method path decode r) ≡ false
  unfolding read_answer
  read_answer-reached = ground (arith, plain-has_kind (decode r.body) plain)

  read_answer-ok : is_ok (read_answer method path decode r) ≡ true → IsSuccess r
  unfolding read_answer
  read_answer-ok h = ground arith

-- The reading of an answer, all statuses at once.
pub record Classified {A : Type 0} (r : HttpResponse) (decode : String → Result A) (x : Result A)
    : Type 0 where
  pub success : IsSuccess r → x ≡ decode r.body
  pub succeeded : is_ok x ≡ true → IsSuccess r
  pub not_found : (has_kind err_not_found x ≡ true) ↔ (r.status_code ≡ 404)
  pub exists : (has_kind err_already_exists x ≡ true) ↔ SaysExists r
  pub reached : has_kind err_unreachable x ≡ false

module _ (T : Transport) (c : Client) where
  pub call-answered :
      {A : Type 0} (method : Method) (path : String) (payload : Payload)
      (decode : String → Result A) (s s' : T.State) (r : HttpResponse)
      → T.url_error (build_request c method path payload).url ≡ none
      → T.send (build_request c method path payload) s ≡ (answer r, s')
      → call T c method path payload decode s ≡ (read_answer method path decode r, s')
  unfolding call
  call-answered method path payload decode s s' r url sent = rw (url, sent, call)

  -- A call whose URL parses and whose exchange is answered leaves the state that the exchange
  -- left. Its result is what the body decodes to if the status is 200 to 299, which a success
  -- implies; it is `ErrNotFound` exactly for 404, `ErrAlreadyExists` exactly for an answer that
  -- says so, by the status 409 or by its text, and never `ErrUnreachable`, where the errors of
  -- the JSON decoder are none of these.
  pub call-Classified :
      {A : Type 0} (method : Method) (path : String) (payload : Payload)
      (decode : String → Result A) (s s' : T.State) (r : HttpResponse)
      → T.url_error (build_request c method path payload).url ≡ none
      → T.send (build_request c method path payload) s ≡ (answer r, s')
      → ((e : Error) → decode r.body ≡ err e → e.kind ≡ other)
      → Classified r decode (call T c method path payload decode s).0
        × ((call T c method path payload decode s).1 ≡ s')
  call-Classified method path payload decode s s' r url sent plain =
      rw (call-answered method path payload decode s s' r url sent) (
        record {
          success = read_answer-success method path decode r plain;
          succeeded = read_answer-ok method path decode r plain;
          not_found = read_answer-not_found method path decode r plain;
          exists = read_answer-exists method path decode r plain;
          reached = read_answer-reached method path decode r plain;
        },
        refl,
      )

  -- A zone counts as deleted exactly when the server answered 200 to 299 or 404, if the URL of
  -- the zone parses and the exchange is answered.
  pub delete_zone-ok_iff :
      (name : String) (s s' : T.State) (r : HttpResponse)
      → T.url_error (build_request c delete (zone_path name) empty).url ≡ none
      → T.send (build_request c delete (zone_path name) empty) s ≡ (answer r, s')
      → (is_ok (delete_zone T c name s).0 ≡ true) ↔ (IsSuccess r ⊎ (r.status_code ≡ 404))
  unfolding delete_zone read_answer
  delete_zone-ok_iff name s s' r url sent =
      rw (call-answered delete (zone_path name) empty discard s s' r url sent) (ground arith)
