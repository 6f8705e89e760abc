-- ===== src/Manifests/Services/Apart.antt =====
-- The names of the Services that internal/manifests/manifests.go renders for a server, and what
-- `updateService` of internal/controller/converge.go makes of them.
use mathlib.Core.List.{Memᴰ}
use text.Mathlib.TextLemmas.{append_cancel_left, append_assoc, append_inj}
use aether_powerdns.Prelude.{
  String, List, [], ◌∷◌, Option, none, some, ◌<>◌, ◌==◌, map, ◌≡◌, ◌≢◌, refl, sym, ◌∙◌, All,
  ne-of-eq_false, eq_iff, Bool-cases, inl, inr, ok,
}
use aether_powerdns.Api.Server.{
  PowerDnsServer, AdditionalLoadBalancerService, DnsLoadBalancerSpec, dns_exposure_load_balancer,
}
use aether_powerdns.Controller.Services.{Service, ServiceApi, updated_service, converge_service}
use aether_powerdns.Controller.Services.Settled.{IsCompletion, converge_service_settled}
use aether_powerdns.Controller.Servers.Validation.{validate_spec}
use aether_powerdns.Controller.Servers.Validation.Checks.{AreFresh}
use aether_powerdns.Controller.Servers.Validation.Validity.{validate_spec_iff}
use aether_powerdns.Manifests.Naming.{name_set}
use aether_powerdns.Manifests.Services.{
  api_service, base_dns_service, balanced, dns_service, additional_dns_service, additional_of,
  additional_dns_services,
}
use aether_powerdns.Manifests.Services.Rendered.{
  IsServiceOf, services_of, dns_service-IsServiceOf, services_of-IsServiceOf,
}

-- No two Services of the list have one name.
abbrev pub AreNamedApart : List Service → Type 0
AreNamedApart [] = Unit
AreNamedApart (p ∷ ps) = All (λ q. p.name ≢ q.name) ps × AreNamedApart ps

not_seen :
    (suffix x : String) (seen : List String) → Memᴰ suffix seen → All (λ s. s ≢ x) seen → suffix ≢ x
not_seen suffix x [] m h e = elim m [ ]
not_seen suffix x (y ∷ seen) (Memᴰ.head same) (differs, _) e = differs (sym same ∙ e)
not_seen suffix x (y ∷ seen) (Memᴰ.tail m) (_, differ) e = not_seen suffix x seen m differ e

fresh_after :
    (suffix : String) (seen : List String) (es : List AdditionalLoadBalancerService)
    → Memᴰ suffix seen
    → AreFresh seen es
    → All (λ e. suffix ≢ e.name_suffix) es
fresh_after suffix seen [] m fresh = tt
fresh_after suffix seen (e ∷ es) m (given, differ, rest) = (
  not_seen suffix e.name_suffix seen m differ,
  fresh_after suffix (e.name_suffix ∷ seen) es (Memᴰ.tail m) rest,
)

given_suffixes :
    (seen : List String) (es : List AdditionalLoadBalancerService)
    → AreFresh seen es
    → All (λ e. "" ≢ e.name_suffix) es
given_suffixes seen [] fresh = tt
given_suffixes seen (e ∷ es) (given, differ, rest) =
    (λ h. given (sym h), given_suffixes (e.name_suffix ∷ seen) es rest)

module _ (s : PowerDnsServer) where
  additional_name :
      (e : AdditionalLoadBalancerService)
      → (additional_dns_service s e).name ≡ s.meta.name <> ("-dns" <> e.name_suffix)
  unfolding additional_dns_service base_dns_service balanced name_set
  additional_name e = append_assoc s.meta.name "-dns" e.name_suffix

  -- A name of which what follows the server's name differs from that of each additional Service.
  differs_from_each :
      (name rest : String) (es : List AdditionalLoadBalancerService)
      → name ≡ s.meta.name <> rest
      → All (λ e. rest ≢ "-dns" <> e.name_suffix) es
      → All (λ q. name ≢ q.name) (map (additional_dns_service s) es)
  differs_from_each name rest [] e h = tt
  differs_from_each name rest (x ∷ es) e (h, hs) = (
    λ same. h (
        append_cancel_left s.meta.name rest ("-dns" <> x.name_suffix)
          (sym e ∙ (same ∙ additional_name x))),
    differs_from_each name rest es e hs,
  )

  -- A suffix that differs from each of the others.
  suffix_differs :
      (suffix : String) (es : List AdditionalLoadBalancerService)
      → All (λ e. suffix ≢ e.name_suffix) es
      → All (λ e. "-dns" <> suffix ≢ "-dns" <> e.name_suffix) es
  suffix_differs suffix [] h = tt
  suffix_differs suffix (x ∷ es) (h, hs) =
      (λ same. h (append_cancel_left "-dns" suffix x.name_suffix same), suffix_differs suffix es hs)

  additional-AreNamedApart :
      (seen : List String) (es : List AdditionalLoadBalancerService)
      → AreFresh seen es
      → AreNamedApart (map (additional_dns_service s) es)
  additional-AreNamedApart seen [] fresh = tt
  additional-AreNamedApart seen (e ∷ es) (given, differ, rest) = (
    differs_from_each (additional_dns_service s e).name ("-dns" <> e.name_suffix) es
        (additional_name e)
        (suffix_differs e.name_suffix es
          (fresh_after e.name_suffix (e.name_suffix ∷ seen) es (Memᴰ.head refl) rest)),
    additional-AreNamedApart (e.name_suffix ∷ seen) es rest,
  )

  api_apart : (x : String) → "-api" ≢ "-dns" <> x
  api_apart x e =
      ne-of-eq_false "-api" "-dns" refl
        (append_inj {s₁ = "-api"} {s₂ = "-dns"} {t₁ = ""} {t₂ = x} e refl).0

  api-each_apart :
      (es : List AdditionalLoadBalancerService) → All (λ e. "-api" ≢ "-dns" <> e.name_suffix) es
  api-each_apart [] = tt
  api-each_apart (e ∷ es) = (api_apart e.name_suffix, api-each_apart es)

  api_name : (api_service s).name ≡ s.meta.name <> "-api"
  unfolding api_service
  api_name = refl

  api-dns_apart : (api_service s).name ≢ (dns_service s).name
  api-dns_apart e = ne-of-eq_false "-api" "-dns" refl (
      append_cancel_left s.meta.name "-api" "-dns"
        (sym api_name ∙ (e ∙ (dns_service-IsServiceOf s).1)))

  with_additional :
      (es : List AdditionalLoadBalancerService)
      → AreFresh [] es
      → AreNamedApart (api_service s ∷ dns_service s ∷ map (additional_dns_service s) es)
  with_additional es fresh = (
    (api-dns_apart, differs_from_each (api_service s).name "-api" es api_name (api-each_apart es)),
    (
      differs_from_each (dns_service s).name "-dns" es (dns_service-IsServiceOf s).1
          (suffix_differs "" es (given_suffixes [] es fresh)),
      additional-AreNamedApart [] es fresh,
    ),
  )

  balancer-AreNamedApart :
      (lb : Option DnsLoadBalancerSpec)
      → ((b : DnsLoadBalancerSpec) → lb ≡ some b → AreFresh [] b.additional_services)
      → AreNamedApart (api_service s ∷ dns_service s ∷ additional_of s lb)
  unfolding additional_of
  balancer-AreNamedApart none fresh = with_additional [] tt
  balancer-AreNamedApart (some lb) fresh = with_additional lb.additional_services (fresh lb refl)

  -- The Services that are rendered for a server that the validation accepts, of its API, its DNS
  -- and the additional load balancers, have different names: none overwrites another.
  pub services_of-AreNamedApart : validate_spec s ≡ "" → AreNamedApart (services_of s)
  unfolding additional_dns_services
  services_of-AreNamedApart valid =
      elim (Bool-cases (s.spec.dns.exposure == dns_exposure_load_balancer)) [
        | inl balances ↦ rw balances (
            balancer-AreNamedApart s.spec.dns.load_balancer
              (λ b e. ((validate_spec_iff s).0 valid).suffixes b ((eq_iff _ _).0 balances) e))
        | inr plain ↦ rw plain (with_additional [] tt)
      ]

member-IsServiceOf :
    (s : PowerDnsServer) (svc : Service) (services : List Service)
    → Memᴰ svc services
    → All (IsServiceOf s) services
    → IsServiceOf s svc
member-IsServiceOf s svc [] m h = elim m [ ]
member-IsServiceOf s svc (x ∷ xs) (Memᴰ.head same) (h, _) = rw same h
member-IsServiceOf s svc (x ∷ xs) (Memᴰ.tail m) (_, hs) = member-IsServiceOf s svc xs m hs

-- Each Service that is rendered for a server, once it was updated from whatever was live, and as the
-- cluster has completed it, with node ports, addresses, defaults and annotations of others, is found
-- as desired: the next pass over it succeeds and writes nothing.
pub services_of_settled :
    (A : ServiceApi) (s : PowerDnsServer) (svc live got : Service) (c : A.State)
    → Memᴰ svc (services_of s)
    → IsCompletion (updated_service svc live) got
    → A.get (record { namespace = svc.namespace; name = svc.name }) c ≡ ok got
    → converge_service A svc c ≡ (ok tt, c)
services_of_settled A s svc live got c m complete found =
    let rendered = member-IsServiceOf s svc (services_of s) m (services_of-IsServiceOf s) in
    converge_service_settled svc live got complete A c rendered.apart rendered.policy found
