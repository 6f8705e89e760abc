-- ===== src/Controller/Servers/Validation.antt =====
-- `validateSpec` of internal/controller/powerdnsserver_controller.go. Each block of checks is a
-- function that returns the block's message, or "" where the next block is reached.
pub mod Checks
pub mod Validity
pub mod Eviction
use aether_powerdns.Prelude.{
  ℕ, suc, ◌+◌, String, Bool, true, false, List, [], ◌∷◌, Option, none, some, ◌<>◌, ◌==◌, ◌||◌, ◌&&◌,
  not, any, leb, ltb, quote, show_nat, join, if◌then◌else◌,
}
use aether_powerdns.Api.Server.{
  PowerDnsServer, PowerDnsServerSpec, PostgresBackendSpec, ByoPostgres, DnsSpec, DnsGatewaySpec,
  GatewayParentRef, ApiGatewaySpec, ApiGatewayParentRef, PdbSpec, DnsLoadBalancerSpec,
  AdditionalLoadBalancerService, backend_postgres, dns_exposure_gateway, dns_exposure_load_balancer,
}
use aether_powerdns.Manifests.Settings.{validate_extra_settings}
use aether_powerdns.Manifests.Budget.{replicas_or_one, min_available_of}

pub byo_message : ByoPostgres → String
byo_message byo =
    if byo.host == ""
    then "backend.postgres.byo.host is required"
    else if byo.credentials_secret_ref.name == ""
    then "backend.postgres.byo.credentialsSecretRef.name is required"
    else ""

optional_byo_message : Option ByoPostgres → String
optional_byo_message none = ""
optional_byo_message (some byo) = byo_message byo

backend_message : Option PostgresBackendSpec → String
backend_message none = ""
backend_message (some pg) = optional_byo_message pg.byo

-- The loop over parent references, from an index on, given their names.
unnamed_message : String → ℕ → List String → String
unnamed_message field i [] = ""
unnamed_message field i (name ∷ rest) =
    let later = unnamed_message field (suc i) rest in
    if name == "" then field <> ("[" <> (show_nat i <> "].name is required")) else later

unfoldable pub gateway_names : List GatewayParentRef → List String
gateway_names [] = []
gateway_names (p ∷ ps) = p.name ∷ gateway_names ps

unfoldable pub api_gateway_names : List ApiGatewayParentRef → List String
api_gateway_names [] = []
api_gateway_names (p ∷ ps) = p.name ∷ api_gateway_names ps

-- A list of parent references that must not be empty, and whose names are required.
pub parents_message : String → String → List String → String
parents_message field absent [] = absent
parents_message field absent (name ∷ rest) = unnamed_message field 0 (name ∷ rest)

unfoldable pub dns_gateway_names : Option DnsGatewaySpec → List String
dns_gateway_names none = []
dns_gateway_names (some g) = gateway_names g.parent_refs

dns_gateway_message : DnsSpec → String
dns_gateway_message dns =
    if dns.exposure == dns_exposure_gateway
    then parents_message "dns.gateway.parentRefs"
        "dns.exposure=gateway requires dns.gateway.parentRefs (at least one)"
        (dns_gateway_names dns.gateway)
    else ""

api_gateway_message : Option ApiGatewaySpec → String
api_gateway_message none = ""
api_gateway_message (some gw) =
    parents_message "api.gateway.parentRefs" "api.gateway requires parentRefs (at least one)"
      (api_gateway_names gw.parent_refs)

pub budget_message : ℕ → Option ℕ → String
budget_message replicas none = ""
budget_message replicas (some min) =
    if ltb 1 replicas && leb replicas min
    then "podDisruptionBudget.minAvailable ("
      <> (show_nat min
          <> (") must be < replicas ("
              <> (show_nat replicas <> ") — equal would block all drains")))
    else ""

-- The loop over the additional services, from an index on, with the suffixes that were seen.
pub suffix_message : List String → ℕ → List AdditionalLoadBalancerService → String
suffix_message seen i [] = ""
suffix_message seen i (e ∷ rest) =
    let later = suffix_message (e.name_suffix ∷ seen) (suc i) rest in
    if e.name_suffix == ""
    then "dns.loadBalancer.additionalServices[" <> (show_nat i <> "].nameSuffix is required")
    else if any (λ s. s == e.name_suffix) seen
    then "dns.loadBalancer.additionalServices["
      <> (show_nat i <> ("].nameSuffix " <> (quote e.name_suffix <> " is duplicated")))
    else later

balancer_message : Option DnsLoadBalancerSpec → String
balancer_message none = ""
balancer_message (some lb) = suffix_message [] 0 lb.additional_services

services_message : DnsSpec → String
services_message dns =
    if dns.exposure == dns_exposure_load_balancer then balancer_message dns.load_balancer else ""

pub settings_message : List String → String
settings_message [] = ""
settings_message (m ∷ ms) = "invalid extraSettings: " <> join (m ∷ ms) "; "

-- The first block's message, or what the blocks after it say.
abbrev or_then : String → String → String
or_then message later = if not (message == "") then message else later

validate_spec_of : PowerDnsServerSpec → String
validate_spec_of spec =
    if not (spec.backend.type == backend_postgres)
    then "backend type " <> (quote spec.backend.type <> " not supported (only postgres)")
    else or_then (backend_message spec.backend.postgres) (
        or_then (dns_gateway_message spec.dns) (
          or_then (api_gateway_message spec.api.gateway) (
            or_then
              (budget_message (replicas_or_one spec.replicas)
                (min_available_of spec.pod_disruption_budget))
              (or_then (services_message spec.dns)
                (settings_message (validate_extra_settings spec.extra_settings))))))

unfoldable pub validate_spec : PowerDnsServer → String
unfolding backend_message optional_byo_message balancer_message byo_message dns_gateway_message
    api_gateway_message parents_message unnamed_message budget_message services_message
    suffix_message settings_message validate_spec_of dns_gateway_names gateway_names
    api_gateway_names
validate_spec s = validate_spec_of s.spec
