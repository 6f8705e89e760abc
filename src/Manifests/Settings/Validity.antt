-- ===== src/Manifests/Settings/Validity.antt =====
-- Which extra settings `ValidateExtraSettings` of internal/manifests/manifests.go accepts.
use mathlib.Core.List.{cons≢nil}
use aether_powerdns.Prelude.{
  String, true, false, List, [], ◌∷◌, ◌<>◌, ◌==◌, ◌||◌, ◌≡◌, ◌≢◌, ◌↔◌, refl, any, any_char,
  has_prefix, eq_iff, arith, All, keys, sort_texts, insert_sorted, text_le, Bool-cases, inl, inr,
  append-ne-nil_of_left_ne-nil, ne-of-eq_false,
}
use aether_powerdns.Manifests.Settings.{
  Settings, reserved_settings, reserved_setting_prefix, matches_key_pattern, is_line_end,
  extra_setting_violation, value_at, sorted_keys, violations, validate_extra_settings,
}

-- A setting that cannot touch what the operator manages, and that stays on its line.
pub record IsSafe (key value : String) : Type 0 where
  pub plain : matches_key_pattern key ≡ true
  pub free : any (λ r. r == key) reserved_settings ≡ false
  pub not_backend : has_prefix key reserved_setting_prefix ≡ false
  pub one_line : any_char is_line_end value ≡ false

message : (s t : String) → (s == "") ≡ false → s <> t ≢ ""
message s t h = append-ne-nil_of_left_ne-nil s t (ne-of-eq_false s "" h)

-- A setting is rendered exactly if it is safe.
pub violation_iff :
    (key value : String) → (extra_setting_violation key value ≡ "") ↔ IsSafe key value
unfolding extra_setting_violation
violation_iff key value = elim (Bool-cases (matches_key_pattern key)) [
  | inr odd ↦ rw odd (λ h. absurd (message "key " _ refl h), λ safe. ground (arith, safe.plain))
  | inl plain ↦
      elim (Bool-cases
        (any (λ r. r == key) reserved_settings || has_prefix key reserved_setting_prefix)) [
          | inl owned ↦
              rw (plain, owned)
                (
                  λ h. absurd (message "key " _ refl h),
                  λ safe. ground (arith, safe.free, safe.not_backend),
                )
          | inr free ↦ elim (Bool-cases (any_char is_line_end value)) [
            | inl broken ↦
                rw (plain, free, broken)
                  (
                    λ h. absurd (message "value of " _ refl h),
                    λ safe. ground (arith, safe.one_line),
                  )
            | inr one ↦
                rw (plain, free, one)
                  (
                    λ h. record {
                      plain = plain;
                      free = ground arith;
                      not_backend = ground arith;
                      one_line = one;
                    },
                    λ safe. refl,
                  )
          ]
        ]
]

module _ (P : String → Type 0) where
  All-insert_sorted :
      (s : String) (ts : List String) → All P (insert_sorted s ts) ↔ (P s × All P ts)
  unfolding insert_sorted
  All-insert_sorted s [] = (λ h. h, λ h. h)
  All-insert_sorted s (t ∷ ts) = elim (Bool-cases (text_le s t)) [
    | inl le ↦ rw le (λ h. h, λ h. h)
    | inr gt ↦
        let (there, back) = All-insert_sorted s ts in
        rw gt (
          λ (pt, rest). let (ps, all) = there rest in (ps, (pt, all)),
          λ (ps, (pt, all)). (pt, back (ps, all)),
        )
  ]

  pub All-sort_texts : (ss : List String) → All P (sort_texts ss) ↔ All P ss
  unfolding sort_texts
  All-sort_texts [] = (λ h. h, λ h. h)
  All-sort_texts (s ∷ ss) =
      let (there, back) = All-insert_sorted s (sort_texts ss) in
      let (deep, up) = All-sort_texts ss in
      (λ h. let (ps, all) = there h in (ps, deep all), λ (ps, all). back (ps, up all))

violations-nil_iff :
    (extra : Settings) (ks : List String)
    → (violations extra ks ≡ []) ↔ All (λ k. IsSafe k (value_at extra k)) ks
unfolding violations
violations-nil_iff extra [] = (λ h. tt, λ h. refl)
violations-nil_iff extra (k ∷ ks) =
    let (there, back) = violations-nil_iff extra ks in
    let (safe, fine) = violation_iff k (value_at extra k) in
    elim (Bool-cases (extra_setting_violation k (value_at extra k) == "")) [
      | inl none ↦
          let e = (eq_iff _ _).0 none in rw none (λ h. (safe e, there h), λ (_, all). back all)
      | inr some_message ↦
          rw some_message (
            λ h. absurd (cons≢nil h),
            λ (ok, _). absurd (ne-of-eq_false _ _ some_message (fine ok)),
          )
    ]

-- The validation reports nothing exactly if every setting of the map is safe: its key matches
-- the pattern and is neither reserved nor of the database's family, and its value has no line end.
pub validate_extra_settings_iff :
    (extra : Settings)
    → (validate_extra_settings extra ≡ []) ↔ All (λ k. IsSafe k (value_at extra k)) (keys extra)
unfolding validate_extra_settings sorted_keys
validate_extra_settings_iff [] = (λ h. tt, λ h. refl)
validate_extra_settings_iff (e ∷ extra) =
    let (there, back) = violations-nil_iff (e ∷ extra) (sorted_keys (e ∷ extra)) in
    let (deep, up) = All-sort_texts (λ k. IsSafe k (value_at (e ∷ extra) k)) (keys (e ∷ extra)) in
    (λ h. deep (there h), λ all. back (up all))
