-- ===== src/Controller/Servers/Validation/Checks.antt =====
-- The checks of `validateSpec` of internal/controller/powerdnsserver_controller.go, one by one.
use mathlib.Core.List.{cons≢nil}
use mathlib.Core.Option.{some_inj}
use aether_powerdns.Prelude.{
  ℕ, suc, ◌<◌, String, false, List, [], ◌∷◌, Option, none, some, ◌<>◌, ◌==◌, ◌&&◌, any, leb, ltb,
  ◌≡◌, ◌≢◌, ◌↔◌, refl, sym, arith, eq_iff, All, Bool-cases, inl, inr, append-ne-nil_of_left_ne-nil,
  ne-of-eq_false,
}
use aether_powerdns.Api.Server.{ByoPostgres, AdditionalLoadBalancerService}
use aether_powerdns.Controller.Servers.Validation.{
  byo_message, unnamed_message, parents_message, budget_message, suffix_message, settings_message,
}

pub message : (s t : String) → (s == "") ≡ false → s <> t ≢ ""
message s t h = append-ne-nil_of_left_ne-nil s t (ne-of-eq_false s "" h)

-- There is a parent reference, and each has a name.
abbrev pub HasParents : List String → Type 0
HasParents names = (names ≢ []) × All (λ n. n ≢ "") names

-- Each suffix is given, and differs from those before it.
abbrev pub AreFresh : List String → List AdditionalLoadBalancerService → Type 0
AreFresh seen [] = Unit
AreFresh seen (e ∷ es) =
    (e.name_suffix ≢ "") × All (λ s. s ≢ e.name_suffix) seen × AreFresh (e.name_suffix ∷ seen) es

pub byo_iff :
    (byo : ByoPostgres)
    → (byo_message byo ≡ "") ↔ ((byo.host ≢ "") × (byo.credentials_secret_ref.name ≢ ""))
unfolding byo_message
byo_iff byo = elim (Bool-cases (byo.host == "")) [
  | inl no_host ↦ rw no_host (
    λ h. absurd (ne-of-eq_false _ "" refl h),
    λ (host, _). absurd (host ((eq_iff _ _).0 no_host)),
  )
  | inr host ↦ elim (Bool-cases (byo.credentials_secret_ref.name == "")) [
    | inl unnamed ↦
        rw (host, unnamed)
          (
            λ h. absurd (ne-of-eq_false _ "" refl h),
            λ (_, named). absurd (named ((eq_iff _ _).0 unnamed)),
          )
    | inr named ↦
        rw (host, named) (λ h. (ne-of-eq_false _ _ host, ne-of-eq_false _ _ named), λ h. refl)
  ]
]

unnamed_iff :
    (field : String) (i : ℕ) (names : List String)
    → (field == "") ≡ false
    → (unnamed_message field i names ≡ "") ↔ All (λ n. n ≢ "") names
unfolding unnamed_message
unnamed_iff field i [] given = (λ h. tt, λ h. refl)
unnamed_iff field i (n ∷ names) given =
    let (there, back) = unnamed_iff field (suc i) names given in
    elim (Bool-cases (n == "")) [
      | inl unnamed ↦ rw unnamed (
        λ h. absurd (message field _ given h),
        λ (named, _). absurd (named ((eq_iff _ _).0 unnamed)),
      )
      | inr named ↦ rw named (λ h. (ne-of-eq_false _ _ named, there h), λ (_, all). back all)
    ]

pub parents_iff :
    (field absent : String) (names : List String)
    → (field == "") ≡ false
    → (absent == "") ≡ false
    → (parents_message field absent names ≡ "") ↔ HasParents names
unfolding parents_message
parents_iff field absent [] given said =
    (λ h. absurd (ne-of-eq_false _ _ said h), λ (some_name, _). absurd (some_name refl))
parents_iff field absent (n ∷ names) given said =
    let (there, back) = unnamed_iff field 0 (n ∷ names) given in
    (λ h. (cons≢nil, there h), λ (_, all). back all)

pub budget_iff :
    (replicas : ℕ) (override : Option ℕ)
    → (budget_message replicas override ≡ "")
      ↔ ((min : ℕ) → override ≡ some min → 1 < replicas → min < replicas)
unfolding budget_message
budget_iff replicas none = (λ h min e. cc, λ h. refl)
budget_iff replicas (some m) = elim (Bool-cases (ltb 1 replicas && leb replicas m)) [
  | inl blocked ↦ rw blocked (
    λ h. absurd (message _ _ refl h),
    λ fits. let lt = fits m refl (ground arith) in ground arith,
  )
  | inr free ↦ rw free (λ h min e several. rw (sym (some_inj.0 e)) (ground arith), λ fits. refl)
]

not_seen :
    (s : String) (seen : List String) → (any (λ t. t == s) seen ≡ false) ↔ All (λ t. t ≢ s) seen
not_seen s [] = (λ h. tt, λ h. refl)
not_seen s (t ∷ seen) = ground (arith, eq_iff t s, not_seen s seen)

pub fresh_iff :
    (seen : List String) (i : ℕ) (es : List AdditionalLoadBalancerService)
    → (suffix_message seen i es ≡ "") ↔ AreFresh seen es
unfolding suffix_message
fresh_iff seen i [] = (λ h. tt, λ h. refl)
fresh_iff seen i (e ∷ es) =
    let (there, back) = fresh_iff (e.name_suffix ∷ seen) (suc i) es in
    let (new, known) = not_seen e.name_suffix seen in
    elim (Bool-cases (e.name_suffix == "")) [
      | inl absent ↦ rw absent (
        λ h. absurd (message _ _ refl h),
        λ (given, _, _). absurd (given ((eq_iff _ _).0 absent)),
      )
      | inr given ↦ elim (Bool-cases (any (λ t. t == e.name_suffix) seen)) [
        | inl twice ↦
            rw (given, twice)
              (
                λ h. absurd (message _ _ refl h),
                λ (_, apart, _). let no = known apart in ground arith,
              )
        | inr once ↦
            rw (given, once)
              (λ h. (ne-of-eq_false _ _ given, new once, there h), λ (_, _, rest). back rest)
      ]
    ]

pub settings_message_iff : (ms : List String) → (settings_message ms ≡ "") ↔ (ms ≡ [])
unfolding settings_message
settings_message_iff [] = (λ h. refl, λ h. refl)
settings_message_iff (m ∷ ms) = (λ h. absurd (message _ _ refl h), λ h. absurd (cons≢nil h))
