-- ===== src/Tests/Manifests.antt =====
-- The renderings of internal/manifests and the validation of a server's spec at concrete data.
use mathlib.Core.List.{Permᴰ}
use aether_powerdns.Prelude.{
  ◌≤◌, ◌<◌, String, [], ◌∷◌, none, some, ◌<>◌, ◌≡◌, ◌↔◌, ◌==◌, eq_iff, refl, sym, Bool-cases, inl,
  inr, All, keys, sort_texts, insert_sorted, text_le, quote, arith,
}
use aether_powerdns.Api.Server.{PowerDnsServer}
use aether_powerdns.Manifests.Settings.{
  Settings, value_at, sorted_keys, extra_setting_violation, matches_key_pattern,
  validate_extra_settings, render_extra_settings, config_hash,
}
use aether_powerdns.Manifests.Settings.Validity.{IsSafe, validate_extra_settings_iff}
use aether_powerdns.Manifests.Settings.Lines.{read_settings}
use aether_powerdns.Manifests.Settings.RoundTrip.{accepted, read-render_extra_settings}
use aether_powerdns.Manifests.Settings.Stability.{SameMap, config_hash-SameMaps}
use aether_powerdns.Manifests.Budget.{PodDisruptionBudget, pod_disruption_budget, replicas_or_one}
use aether_powerdns.Controller.Servers.Validation.{validate_spec}
use aether_powerdns.Controller.Servers.Validation.Validity.{IsDeployable, validate_spec_iff}
use aether_powerdns.Controller.Servers.Validation.Eviction.{pod_disruption_budget_bounds}
use aether_powerdns.Tests.Sample.{sample_server}

abbrev extra : Settings
extra =
    ("primary", "yes") ∷ ("launch", "bind") ∷ ("cache-ttl", "20\nlaunch=bind") ∷ ("axfr", "no") ∷ []

abbrev turned_extra : Settings
turned_extra =
    ("launch", "bind") ∷ ("primary", "yes") ∷ ("cache-ttl", "20\nlaunch=bind") ∷ ("axfr", "no") ∷ []

-- Of four settings, the reserved one and the one over two lines are dropped.
rendered : render_extra_settings extra ≡ "# spec.extraSettings\naxfr=no\nprimary=yes\n"
unfolding render_extra_settings extra_setting_violation matches_key_pattern sorted_keys sort_texts
    insert_sorted text_le quote
rendered = refl

read-render_extra_settings_example :
    read_settings (render_extra_settings extra) ≡ accepted extra (sorted_keys extra)
read-render_extra_settings_example = read-render_extra_settings extra

validate_extra_settings_iff_example :
    (validate_extra_settings extra ≡ []) ↔ All (λ k. IsSafe k (value_at extra k)) (keys extra)
validate_extra_settings_iff_example = validate_extra_settings_iff extra

same : SameMap extra turned_extra
same = record {
  keys_permuted = Permᴰ.swap refl refl;
  same_values = λ k. elim (Bool-cases ("primary" == k)) [
    | inl first ↦ rw (sym ((eq_iff "primary" k).0 first)) refl
    | inr other ↦ elim (Bool-cases ("launch" == k)) [
      | inl second ↦ rw (sym ((eq_iff "launch" k).0 second)) refl
      | inr third ↦ ground arith
    ]
  ];
}

abbrev digest : String → String
digest text = "0123456789abcdef" <> text

config_hash-SameMaps_example :
    config_hash digest ("a" <> render_extra_settings extra) (extra ∷ [])
    ≡ config_hash digest ("a" <> render_extra_settings turned_extra) (turned_extra ∷ [])
config_hash-SameMaps_example =
    config_hash-SameMaps digest "a" (extra ∷ []) (turned_extra ∷ []) same (same, tt)

validate_spec_iff_example : (validate_spec sample_server ≡ "") ↔ IsDeployable sample_server.spec
validate_spec_iff_example = validate_spec_iff sample_server

abbrev three_replicas : PowerDnsServer
three_replicas = record sample_server {
  spec = record sample_server.spec {
    replicas = some 3;
    pod_disruption_budget = some (record { min_available = some 2 });
  };
}

valid : validate_spec three_replicas ≡ ""
unfolding validate_spec validate_extra_settings
valid = refl

pod_disruption_budget_bounds_example :
    ((pod_disruption_budget three_replicas ≡ none) ↔ (replicas_or_one (some 3) ≤ 1))
    × ((pdb : PodDisruptionBudget)
        → pod_disruption_budget three_replicas ≡ some pdb
        → (1 ≤ pdb.min_available) × (pdb.min_available < replicas_or_one (some 3)))
pod_disruption_budget_bounds_example =
    pod_disruption_budget_bounds three_replicas valid (λ min e. ground arith)
