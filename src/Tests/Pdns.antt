-- ===== src/Tests/Pdns.antt =====
-- The client of internal/pdnsclient/client.go over the PowerDNS of the example.
use aether_powerdns.Prelude.{true, is_ok, ◌≡◌, refl, ◌⊎◌, ◌↔◌}
use aether_powerdns.Pdns.Types.{empty, get, HttpResponse}
use aether_powerdns.Pdns.Client.{Client, call, delete_zone}
use aether_powerdns.Pdns.Client.Outcomes.{
  Classified, IsSuccess, call-Classified, delete_zone-ok_iff,
}
use aether_powerdns.Tests.Sample.{sample_transport}

abbrev client : Client
client = record { base_url = "http://pdns-api.dns.svc:8081"; api_key = "secret" }

call-Classified_example :
    Classified
      (record { status_code = 200; status = ""; body = "full" })
      sample_transport.decode_zone
      (call sample_transport client get "/servers/localhost/zones/a." empty
        sample_transport.decode_zone true).0
    × ((call sample_transport client get "/servers/localhost/zones/a." empty
          sample_transport.decode_zone true).1
        ≡ true)
call-Classified_example =
    call-Classified sample_transport client get "/servers/localhost/zones/a." empty
      sample_transport.decode_zone true true
      (record { status_code = 200; status = ""; body = "full" }) refl refl (λ e h. cc)

abbrev missing : HttpResponse
missing = record { status_code = 404; status = ""; body = "" }

delete_zone-ok_iff_example :
    (is_ok (delete_zone sample_transport client "a." true).0 ≡ true)
    ↔ (IsSuccess missing ⊎ (missing.status_code ≡ 404))
delete_zone-ok_iff_example =
    delete_zone-ok_iff sample_transport client "a." true true missing refl refl
