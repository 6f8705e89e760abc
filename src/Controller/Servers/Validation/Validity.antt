-- ===== src/Controller/Servers/Validation/Validity.antt =====
-- Which specs `validateSpec` of internal/controller/powerdnsserver_controller.go accepts.
use mathlib.Core.Option.{some_inj}
use aether_powerdns.Prelude.{
  ℕ, ◌<◌, [], Option, none, some, ◌==◌, String, ◌≡◌, ◌≢◌, ◌↔◌, refl, sym, arith, eq_iff, All, keys,
  Bool-cases, inl, inr, ne-of-eq_false,
}
use aether_powerdns.Api.Server.{
  PowerDnsServer, PowerDnsServerSpec, PostgresBackendSpec, ByoPostgres, ApiGatewaySpec,
  DnsLoadBalancerSpec, backend_postgres, dns_exposure_gateway, dns_exposure_load_balancer,
}
use aether_powerdns.Manifests.Settings.{value_at}
use aether_powerdns.Manifests.Settings.Validity.{IsSafe, validate_extra_settings_iff}
use aether_powerdns.Manifests.Budget.{replicas_or_one, min_available_of}
use aether_powerdns.Controller.Servers.Validation.{
  optional_byo_message, balancer_message, backend_message, dns_gateway_names, dns_gateway_message,
  api_gateway_names, api_gateway_message, services_message, or_then, validate_spec_of,
  validate_spec,
}
use aether_powerdns.Controller.Servers.Validation.Checks.{
  message, HasParents, AreFresh, byo_iff, parents_iff, budget_iff, fresh_iff, settings_message_iff,
}

-- The spec of a server that can be deployed.
pub record IsDeployable (spec : PowerDnsServerSpec) : Type 0 where
  pub postgres : spec.backend.type ≡ backend_postgres
  pub own_database :
      (pg : PostgresBackendSpec) (byo : ByoPostgres)
      → spec.backend.postgres ≡ some pg
      → pg.byo ≡ some byo
      → (byo.host ≢ "") × (byo.credentials_secret_ref.name ≢ "")
  pub dns_parents :
      spec.dns.exposure ≡ dns_exposure_gateway → HasParents (dns_gateway_names spec.dns.gateway)
  pub api_parents :
      (gw : ApiGatewaySpec)
      → spec.api.gateway ≡ some gw
      → HasParents (api_gateway_names gw.parent_refs)
  pub budget :
      (min : ℕ)
      → min_available_of spec.pod_disruption_budget ≡ some min
      → 1 < replicas_or_one spec.replicas
      → min < replicas_or_one spec.replicas
  pub suffixes :
      (lb : DnsLoadBalancerSpec)
      → spec.dns.exposure ≡ dns_exposure_load_balancer
      → spec.dns.load_balancer ≡ some lb
      → AreFresh [] lb.additional_services
  pub settings : All (λ k. IsSafe k (value_at spec.extra_settings k)) (keys spec.extra_settings)

or_then_iff : (a b : String) → (or_then a b ≡ "") ↔ ((a ≡ "") × (b ≡ ""))
or_then_iff a b = ground (arith, eq_iff a "")

module _ (spec : PowerDnsServerSpec) where
  backend_iff : (backend_message spec.backend.postgres ≡ "") ↔ (
      (pg : PostgresBackendSpec) (byo : ByoPostgres)
      → spec.backend.postgres ≡ some pg
      → pg.byo ≡ some byo
      → (byo.host ≢ "") × (byo.credentials_secret_ref.name ≢ ""))
  unfolding backend_message optional_byo_message
  backend_iff = own spec.backend.postgres
    where
      of_byo :
          (o : Option ByoPostgres)
          → (optional_byo_message o ≡ "") ↔ (
              (byo : ByoPostgres)
              → o ≡ some byo
              → (byo.host ≢ "") × (byo.credentials_secret_ref.name ≢ ""))
      of_byo none = (λ h byo e. cc, λ h. refl)
      of_byo (some b) =
          (λ h byo e. rw (sym (some_inj.0 e)) ((byo_iff b).0 h), λ h. (byo_iff b).1 (h b refl))

      own :
          (o : Option PostgresBackendSpec)
          → (backend_message o ≡ "") ↔ (
              (pg : PostgresBackendSpec) (byo : ByoPostgres)
              → o ≡ some pg
              → pg.byo ≡ some byo
              → (byo.host ≢ "") × (byo.credentials_secret_ref.name ≢ ""))
      own none = (λ h pg byo e. cc, λ h. refl)
      own (some p) = (
        λ h pg byo e g. (of_byo p.byo).0 h byo (rw (some_inj.0 e) g),
        λ h. (of_byo p.byo).1 (λ byo g. h p byo refl g),
      )

  dns_parents_iff :
      (dns_gateway_message spec.dns ≡ "")
      ↔ (spec.dns.exposure ≡ dns_exposure_gateway → HasParents (dns_gateway_names spec.dns.gateway))
  unfolding dns_gateway_message
  dns_parents_iff = elim (Bool-cases (spec.dns.exposure == dns_exposure_gateway)) [
    | inl gateway ↦
        let (there, back) = parents_iff _ _ (dns_gateway_names spec.dns.gateway) refl refl in
        rw gateway (λ h _. there h, λ h. back (h ((eq_iff _ _).0 gateway)))
    | inr not_gateway ↦ rw not_gateway (λ h e. absurd (ne-of-eq_false _ _ not_gateway e), λ h. refl)
  ]

  api_parents_iff : (api_gateway_message spec.api.gateway ≡ "") ↔ (
      (gw : ApiGatewaySpec)
      → spec.api.gateway ≡ some gw
      → HasParents (api_gateway_names gw.parent_refs))
  unfolding api_gateway_message
  api_parents_iff = of_option spec.api.gateway
    where
      of_option :
          (o : Option ApiGatewaySpec)
          → (api_gateway_message o ≡ "")
            ↔ ((gw : ApiGatewaySpec) → o ≡ some gw → HasParents (api_gateway_names gw.parent_refs))
      of_option none = (λ h gw e. cc, λ h. refl)
      of_option (some g) =
          let (there, back) = parents_iff _ _ (api_gateway_names g.parent_refs) refl refl in
          (λ h gw e. rw (sym (some_inj.0 e)) (there h), λ h. back (h g refl))

  services_iff : (services_message spec.dns ≡ "") ↔ (
      (lb : DnsLoadBalancerSpec)
      → spec.dns.exposure ≡ dns_exposure_load_balancer
      → spec.dns.load_balancer ≡ some lb
      → AreFresh [] lb.additional_services)
  unfolding services_message balancer_message
  services_iff = elim (Bool-cases (spec.dns.exposure == dns_exposure_load_balancer)) [
    | inl balancer ↦ rw balancer (of_option spec.dns.load_balancer ((eq_iff _ _).0 balancer))
    | inr not_balancer ↦
        rw not_balancer (λ h lb e. absurd (ne-of-eq_false _ _ not_balancer e), λ h. refl)
  ]
    where
      of_option :
          (o : Option DnsLoadBalancerSpec)
          → spec.dns.exposure ≡ dns_exposure_load_balancer
          → (balancer_message o ≡ "") ↔ (
              (lb : DnsLoadBalancerSpec)
              → spec.dns.exposure ≡ dns_exposure_load_balancer
              → o ≡ some lb
              → AreFresh [] lb.additional_services)
      of_option none exposed = (λ h lb _ e. cc, λ h. refl)
      of_option (some b) exposed =
          let (there, back) = fresh_iff [] 0 b.additional_services in
          (λ h lb _ e. rw (sym (some_inj.0 e)) (there h), λ h. back (h b exposed refl))

  accepted-IsDeployable : validate_spec_of spec ≡ "" → IsDeployable spec
  unfolding validate_spec_of
  accepted-IsDeployable h = elim (Bool-cases (spec.backend.type == backend_postgres)) [
    | inr alien ↦ absurd (message _ _ refl (rw alien at h))
    | inl known ↦
        let (a, h1) = (or_then_iff _ _).0 (rw known at h) in
        let (b, h2) = (or_then_iff _ _).0 h1 in
        let (c, h3) = (or_then_iff _ _).0 h2 in
        let (d, h4) = (or_then_iff _ _).0 h3 in
        let (e, f) = (or_then_iff _ _).0 h4 in
        record {
          postgres = (eq_iff _ _).0 known;
          own_database = backend_iff.0 a;
          dns_parents = dns_parents_iff.0 b;
          api_parents = api_parents_iff.0 c;
          budget = (budget_iff _ _).0 d;
          suffixes = services_iff.0 e;
          settings = (validate_extra_settings_iff _).0 ((settings_message_iff _).0 f);
        }
  ]

  deployable_accepted : IsDeployable spec → validate_spec_of spec ≡ ""
  unfolding validate_spec_of
  deployable_accepted ok = rw ((eq_iff spec.backend.type backend_postgres).1 ok.postgres) (
      (or_then_iff _ _).1 (
        backend_iff.1 ok.own_database,
        (or_then_iff _ _).1 (
          dns_parents_iff.1 ok.dns_parents,
          (or_then_iff _ _).1 (
            api_parents_iff.1 ok.api_parents,
            (or_then_iff _ _).1 (
              (budget_iff _ _).1 ok.budget,
              (or_then_iff _ _).1 (
                services_iff.1 ok.suffixes,
                (settings_message_iff _).1 ((validate_extra_settings_iff _).1 ok.settings),
              ),
            ),
          ),
        ),
      ))

-- The validation accepts a spec exactly if it can be deployed: the backend is postgres and an own
-- database has its host and credentials; a gateway that is asked for has parent references with
-- names; a disruption budget over several replicas is below their number; the suffixes of the
-- additional load balancer services are given and differ; and every extra setting is safe.
pub validate_spec_iff : (s : PowerDnsServer) → (validate_spec s ≡ "") ↔ IsDeployable s.spec
unfolding validate_spec
validate_spec_iff s = (accepted-IsDeployable s.spec, deployable_accepted s.spec)
