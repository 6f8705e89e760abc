-- ===== src/Controller/Tiers/Validation/Validity.antt =====
-- Which specs `validateDNSDist` of internal/controller/dnsdist_controller.go accepts.
use mathlib.Core.List.{cons≢nil}
use mathlib.Core.Option.{some_inj}
use aether_powerdns.Prelude.{
  ℕ, suc, ◌<◌, String, Bool, true, false, List, [], ◌∷◌, Option, none, some, ◌<>◌, ◌==◌, ◌&&◌, any,
  leb, ltb, ◌≡◌, ◌≢◌, ◌↔◌, refl, sym, ap, ◌∙◌, arith, eq_iff, All, Bool-cases, inl, inr,
  if◌then◌else◌, append-ne-nil_of_left_ne-nil, ne-of-eq_false, eq_false-of-ne,
}
use aether_powerdns.Api.Meta.{ObjectRef}
use aether_powerdns.Api.Server.{DnsGatewaySpec, GatewayParentRef, dns_exposure_gateway}
use aether_powerdns.Api.Tiers.{DnsDist, DnsDistTlsListener}
use aether_powerdns.Manifests.Budget.{min_available_of}
use aether_powerdns.Manifests.Tier.{dns_dist_replicas}
use aether_powerdns.Controller.Tiers.Validation.{
  refs_message, budget_message, listener_message, is_empty, lacks_parents, gateway_message, or_then,
  validate_dns_dist,
}

-- Each reference has a name and no namespace, and differs from those before it.
abbrev pub AreLocal : List String → List ObjectRef → Type 0
AreLocal seen [] = Unit
AreLocal seen (ref ∷ refs) =
    (ref.name ≢ "")
    × (ref.namespace ≡ "")
    × All (λ s. s ≢ ref.name) seen
    × AreLocal (ref.name ∷ seen) refs

-- There is a gateway, and it has a parent reference.
abbrev pub GivesParent : Option DnsGatewaySpec → Type 0
GivesParent gateway = (gw : DnsGatewaySpec) × (gateway ≡ some gw) × (gw.parent_refs ≢ [])

-- What is asked of the spec of a tier. That the suffixes of its additional Services differ is not.
pub record IsAcceptedTier (d : DnsDist) : Type 0 where
  pub backends : AreLocal [] d.spec.backend_refs
  pub budget :
      (min : ℕ)
      → min_available_of d.spec.pod_disruption_budget ≡ some min
      → 1 < dns_dist_replicas d
      → min < dns_dist_replicas d
  pub dot_certificate :
      d.spec.tls.dot.enabled ≡ true → d.spec.tls.dot.certificate_secret_ref.name ≢ ""
  pub doh_certificate :
      d.spec.tls.doh.enabled ≡ true → d.spec.tls.doh.certificate_secret_ref.name ≢ ""
  pub parents : d.spec.dns.exposure ≡ dns_exposure_gateway → GivesParent d.spec.dns.gateway

message : (s t : String) → (s == "") ≡ false → s <> t ≢ ""
message s t h = append-ne-nil_of_left_ne-nil s t (ne-of-eq_false s "" h)

or_then_iff : (a b : String) → (or_then a b ≡ "") ↔ ((a ≡ "") × (b ≡ ""))
or_then_iff a b = ground (arith, eq_iff a "")

-- A block of one check.
check_iff : (b : Bool) (m : String) → (m == "") ≡ false → ((if b then m else "") ≡ "") ↔ (b ≡ false)
check_iff true m said = (λ h. absurd (ne-of-eq_false m "" said h), λ h. cc)
check_iff false m said = (λ h. refl, λ h. refl)

not_seen :
    (s : String) (seen : List String) → (any (λ t. t == s) seen ≡ false) ↔ All (λ t. t ≢ s) seen
not_seen s [] = (λ h. tt, λ h. refl)
not_seen s (t ∷ seen) = ground (arith, eq_iff t s, not_seen s seen)

refs_iff :
    (seen : List String) (i : ℕ) (refs : List ObjectRef)
    → (refs_message seen i refs ≡ "") ↔ AreLocal seen refs
unfolding refs_message
refs_iff seen i [] = (λ h. tt, λ h. refl)
refs_iff seen i (ref ∷ refs) =
    let (there, back) = refs_iff (ref.name ∷ seen) (suc i) refs in
    let (new, known) = not_seen ref.name seen in
    elim (Bool-cases (ref.name == "")) [
      | inl unnamed ↦ rw unnamed (
        λ h. absurd (message _ _ refl h),
        λ (named, _, _, _). absurd (named ((eq_iff _ _).0 unnamed)),
      )
      | inr named ↦ elim (Bool-cases (ref.namespace == "")) [
        | inr foreign ↦
            rw (named, foreign)
              (
                λ h. absurd (message _ _ refl h),
                λ (_, local, _, _). absurd (ne-of-eq_false _ _ foreign local),
              )
        | inl local ↦ elim (Bool-cases (any (λ t. t == ref.name) seen)) [
          | inl twice ↦
              rw (named, local, twice)
                (
                  λ h. absurd (message _ _ refl h),
                  λ (_, _, apart, _). let no = known apart in ground arith,
                )
          | inr once ↦
              rw (named, local, once)
                (
                  λ h. (ne-of-eq_false _ _ named, (eq_iff _ _).0 local, new once, there h),
                  λ (_, _, _, rest). back rest,
                )
        ]
      ]
    ]

budget_iff :
    (replicas : ℕ) (override : Option ℕ)
    → (budget_message replicas override ≡ "")
      ↔ ((min : ℕ) → override ≡ some min → 1 < replicas → min < replicas)
unfolding budget_message
budget_iff replicas none = (λ h min e. cc, λ h. refl)
budget_iff replicas (some m) = elim (Bool-cases (ltb 1 replicas && leb replicas m)) [
  | inl blocked ↦ rw blocked (
    λ h. absurd (message _ _ refl h),
    λ fits. let lt = fits m refl (ground arith) in ground arith,
  )
  | inr free ↦ rw free (λ h min e several. rw (sym (some_inj.0 e)) (ground arith), λ fits. refl)
]

listener_iff :
    (m : String) (l : DnsDistTlsListener)
    → (m == "") ≡ false
    → (listener_message m l ≡ "") ↔ (l.enabled ≡ true → l.certificate_secret_ref.name ≢ "")
unfolding listener_message
listener_iff m l said =
    let (there, back) = check_iff (l.enabled && l.certificate_secret_ref.name == "") m said in
    (
      λ h on. let off = there h in ne-of-eq_false _ _ (ground arith),
      λ h. back (elim (Bool-cases l.enabled) [
        | inl on ↦ rw on (eq_false-of-ne _ _ (h on))
        | inr off ↦ rw off refl
      ]),
    )

is_empty_iff : (ps : List GatewayParentRef) → (is_empty ps ≡ false) ↔ (ps ≢ [])
unfolding is_empty
is_empty_iff [] = (λ h. cc, λ given. absurd (given refl))
is_empty_iff (p ∷ ps) = (λ h. cons≢nil, λ given. refl)

lacks_parents_iff :
    (gateway : Option DnsGatewaySpec) → (lacks_parents gateway ≡ false) ↔ GivesParent gateway
unfolding lacks_parents
lacks_parents_iff none = (λ h. cc, λ (gw, e, _). cc)
lacks_parents_iff (some gw) = (
  λ h. (gw, refl, (is_empty_iff gw.parent_refs).0 h),
  λ (x, same, given).
      (is_empty_iff gw.parent_refs).1
        (λ e. given (ap (λ g. g.parent_refs) (sym (some_inj.0 same)) ∙ e)),
)

gateway_iff :
    (d : DnsDist)
    → (gateway_message d.spec.dns ≡ "")
      ↔ (d.spec.dns.exposure ≡ dns_exposure_gateway → GivesParent d.spec.dns.gateway)
unfolding gateway_message
gateway_iff d =
    let exposed = d.spec.dns.exposure == dns_exposure_gateway in
    let (there, back) =
      check_iff (exposed && lacks_parents d.spec.dns.gateway)
        "dns.exposure=gateway requires dns.gateway.parentRefs (at least one)" refl in
    (
      λ h on.
          let off = there h in
          (lacks_parents_iff d.spec.dns.gateway).0
            (ground (arith, eq_iff d.spec.dns.exposure dns_exposure_gateway)),
      λ h. back (elim (Bool-cases exposed) [
        | inl on ↦ rw on ((lacks_parents_iff d.spec.dns.gateway).1 (h ((eq_iff _ _).0 on)))
        | inr off ↦ rw off refl
      ]),
    )

-- The validation accepts a tier exactly if its backends have names, lie in its own namespace and
-- differ; a disruption budget over several replicas is below their number;
-- a listener that is enabled has a certificate; and a gateway that is asked for has a parent
-- reference.
pub validate_dns_dist_iff : (d : DnsDist) → (validate_dns_dist d ≡ "") ↔ IsAcceptedTier d
unfolding validate_dns_dist
validate_dns_dist_iff d = (sound, complete)
  where
    sound : validate_dns_dist d ≡ "" → IsAcceptedTier d
    sound h =
        let (a, h1) = (or_then_iff _ _).0 h in
        let (b, h2) = (or_then_iff _ _).0 h1 in
        let (c, h3) = (or_then_iff _ _).0 h2 in
        let (e, f) = (or_then_iff _ _).0 h3 in
        record {
          backends = (refs_iff _ _ _).0 a;
          budget = (budget_iff _ _).0 b;
          dot_certificate = (listener_iff _ _ refl).0 c;
          doh_certificate = (listener_iff _ _ refl).0 e;
          parents = (gateway_iff d).0 f;
        }

    complete : IsAcceptedTier d → validate_dns_dist d ≡ ""
    complete ok = (or_then_iff _ _).1 (
      (refs_iff _ _ _).1 ok.backends,
      (or_then_iff _ _).1 (
        (budget_iff _ _).1 ok.budget,
        (or_then_iff _ _).1 (
          (listener_iff _ _ refl).1 ok.dot_certificate,
          (or_then_iff _ _).1
              ((listener_iff _ _ refl).1 ok.doh_certificate, (gateway_iff d).1 ok.parents),
        ),
      ),
    )
