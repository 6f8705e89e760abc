-- ===== src/Controller/Tiers/Validation.antt =====
-- `validateDNSDist` of internal/controller/dnsdist_controller.go. Each block of checks is a
-- function that returns the block's message, or "" where the next block is reached.
pub mod Validity
use aether_powerdns.Prelude.{
  ℕ, suc, String, Bool, true, false, List, [], ◌∷◌, Option, none, some, ◌<>◌, ◌==◌, ◌||◌, ◌&&◌, not,
  any, leb, ltb, quote, show_nat, if◌then◌else◌,
}
use aether_powerdns.Api.Meta.{ObjectRef}
use aether_powerdns.Api.Server.{DnsSpec, DnsGatewaySpec, GatewayParentRef, dns_exposure_gateway}
use aether_powerdns.Api.Tiers.{DnsDist, DnsDistTlsListener}
use aether_powerdns.Manifests.Budget.{min_available_of}
use aether_powerdns.Manifests.Tier.{dns_dist_replicas}

-- The loop over the backend references, from an index on, with the names that were seen.
refs_message : List String → ℕ → List ObjectRef → String
refs_message seen i [] = ""
refs_message seen i (ref ∷ refs) =
    let later = refs_message (ref.name ∷ seen) (suc i) refs in
    if ref.name == ""
    then "backendRefs[" <> (show_nat i <> "].name is required")
    else if not (ref.namespace == "")
    then "backendRefs["
      <> (show_nat i <> "].namespace must be empty — cross-namespace backends are not supported")
    else if any (λ s. s == ref.name) seen
    then "backendRefs[" <> (show_nat i <> ("].name " <> (quote ref.name <> " is a duplicate")))
    else later

budget_message : ℕ → Option ℕ → String
budget_message replicas none = ""
budget_message replicas (some min) =
    if ltb 1 replicas && leb replicas min
    then "podDisruptionBudget.minAvailable ("
      <> (show_nat min <> (") must be < replicas (" <> (show_nat replicas <> ")")))
    else ""

listener_message : String → DnsDistTlsListener → String
listener_message message l =
    if l.enabled && l.certificate_secret_ref.name == "" then message else ""

-- `d.Spec.DNS.Gateway == nil || len(d.Spec.DNS.Gateway.ParentRefs) == 0`.
is_empty : List GatewayParentRef → Bool
is_empty [] = true
is_empty (p ∷ ps) = false

unfoldable pub lacks_parents : Option DnsGatewaySpec → Bool
unfolding is_empty
lacks_parents none = true
lacks_parents (some gw) = is_empty gw.parent_refs

gateway_message : DnsSpec → String
gateway_message dns =
    if dns.exposure == dns_exposure_gateway && lacks_parents dns.gateway
    then "dns.exposure=gateway requires dns.gateway.parentRefs (at least one)"
    else ""

-- The first block's message, or what the blocks after it say.
abbrev or_then : String → String → String
or_then message later = if not (message == "") then message else later

unfoldable pub validate_dns_dist : DnsDist → String
unfolding refs_message budget_message listener_message gateway_message
validate_dns_dist d = or_then (refs_message [] 0 d.spec.backend_refs) (
    or_then (budget_message (dns_dist_replicas d) (min_available_of d.spec.pod_disruption_budget)) (
      or_then
        (listener_message "tls.dot.certificateSecretRef.name is required when dot is enabled"
          d.spec.tls.dot)
        (or_then
          (listener_message "tls.doh.certificateSecretRef.name is required when doh is enabled"
            d.spec.tls.doh)
          (gateway_message d.spec.dns))))
