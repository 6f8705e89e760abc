-- ===== src/Manifests/Settings/RoundTrip.antt =====
-- The block of extra settings (`renderExtraSettings` of internal/manifests/manifests.go), read
-- back.
use Prim.Native.String.{[] as nil, ◌∷◌ as ◌::◌}
use text.Mathlib.TextLemmas.{append_assoc, append-nil, cons-append}
use aether_powerdns.Prelude.{
  ◌⊎◌, sort_texts, String, code, true, false, List, [], ◌∷◌, some, ◌<>◌, ◌==◌, ◌||◌, ◌≡◌, ◌≢◌, refl,
  sym, ap, ◌∙◌, nat_eq, any_char, any_char-append, all_chars, arith, eq_iff, Bool-cases, inl, inr,
  if◌then◌else◌, append-ne-nil_of_left_ne-nil, ne-of-eq_false, eq_false-of-ne,
}
use aether_powerdns.Manifests.Settings.{
  Settings, is_lower_or_digit, is_line_end, matches_key_pattern, extra_setting_violation, value_at,
  sorted_keys, header, setting_line, render_from, render_extra_settings,
}
use aether_powerdns.Manifests.Settings.Validity.{IsSafe, violation_iff}
use aether_powerdns.Manifests.Settings.Lines.{
  split_lines, settings_in, is_newline, is_equals, setting_of, cut_equals, read_settings,
  cut_equals-key, read_settings-line, read_settings-comment,
}

-- The settings of a map that may be rendered, in the order of some keys.
unfoldable pub accepted : Settings → List String → List (String × String)
accepted extra [] = []
accepted extra (k ∷ ks) =
    let rest = accepted extra ks in
    if extra_setting_violation k (value_at extra k) == ""
    then (k, value_at extra k) ∷ rest
    else rest

key_chars :
    (s : String)
    → all_chars (λ d. is_lower_or_digit d || nat_eq (code d) 45) s ≡ true
    → (any_char is_equals s ≡ false) × (any_char is_newline s ≡ false)
key_chars nil h = (refl, refl)
key_chars (c :: s) h = ground (arith, key_chars s)

no_newline : (v : String) → any_char is_line_end v ≡ false → any_char is_newline v ≡ false
no_newline nil h = refl
no_newline (c :: v) h = ground (arith, no_newline v)

-- A safe setting's line is one line, and is read as that setting.
line_of_safe :
    (k v : String)
    → IsSafe k v
    → (any_char is_newline (k <> ("=" <> v)) ≡ false) × (setting_of (k <> ("=" <> v)) ≡ some (k, v))
unfolding matches_key_pattern setting_of
line_of_safe nil v safe = ground (arith, safe.plain)
line_of_safe (c :: k) v safe =
    let (no_equals, no_nl) = key_chars k (ground (arith, safe.plain)) in
    let start : is_lower_or_digit c ≡ true = ground (arith, safe.plain) in
    let not_comment : nat_eq (code c) 35 ≡ false = ground arith in
    (
      any_char-append is_newline (c :: k) ("=" <> v)
          ∙ ground (arith, any_char-append is_newline "=" v, no_newline v safe.one_line),
      ap setting_of (cons-append c k ("=" <> v))
          ∙ (rw not_comment (
              ap cut_equals (sym (cons-append c k ("=" <> v)))
              ∙ cut_equals-key (c :: k) v (ground arith))),
    )

-- The lines of some settings.
block : List (String × String) → String
block [] = ""
block (e ∷ es) = setting_line e.0 e.1 <> block es

one_line : (k v rest : String) → setting_line k v <> rest ≡ (k <> ("=" <> v)) <> ("\n" <> rest)
unfolding setting_line
one_line k v rest =
    rw
      (
        append_assoc k ("=" <> (v <> "\n")) rest,
        append_assoc "=" (v <> "\n") rest,
        append_assoc v "\n" rest,
        append_assoc k ("=" <> v) ("\n" <> rest),
        append_assoc "=" v ("\n" <> rest),
      )
      refl

read_settings-block :
    (extra : Settings) (ks : List String)
    → read_settings (block (accepted extra ks)) ≡ accepted extra ks
unfolding accepted block
read_settings-block extra [] = unfold read_settings split_lines settings_in setting_of in refl
read_settings-block extra (k ∷ ks) =
    let v = value_at extra k in
    elim (Bool-cases (extra_setting_violation k v == "")) [
      | inr bad ↦ rw bad (read_settings-block extra ks)
      | inl fine ↦
          let (single, parsed) = line_of_safe k v ((violation_iff k v).0 ((eq_iff _ _).0 fine)) in
          rw (fine, one_line k v (block (accepted extra ks)))
            (read_settings-line (k <> ("=" <> v)) (block (accepted extra ks)) (k, v) single parsed
              ∙ ap (λ es. (k, v) ∷ es) (read_settings-block extra ks))
    ]

-- Once the builder holds a text, each accepted setting adds its line.
render_from-block :
    (extra : Settings) (ks : List String) (b : String)
    → b ≢ ""
    → render_from extra ks b ≡ b <> block (accepted extra ks)
unfolding render_from accepted block
render_from-block extra [] b h = sym (append-nil b)
render_from-block extra (k ∷ ks) b h =
    let v = value_at extra k in
    elim (Bool-cases (extra_setting_violation k v == "")) [
      | inr bad ↦ rw bad (render_from-block extra ks b h)
      | inl fine ↦
          rw (fine, eq_false-of-ne b "" h)
            (render_from-block extra ks (b <> setting_line k v) (append-ne-nil_of_left_ne-nil b _ h)
              ∙ append_assoc b (setting_line k v) (block (accepted extra ks)))
    ]

-- The builder after the loop: empty where no setting was accepted, and else with the comment.
render_from-empty :
    (extra : Settings) (ks : List String)
    → ((accepted extra ks ≡ []) × (render_from extra ks "" ≡ ""))
      ⊎ (render_from extra ks "" ≡ header <> block (accepted extra ks))
unfolding render_from accepted block
render_from-empty extra [] = inl (refl, refl)
render_from-empty extra (k ∷ ks) =
    let v = value_at extra k in
    elim (Bool-cases (extra_setting_violation k v == "")) [
      | inr bad ↦ rw bad (render_from-empty extra ks)
      | inl fine ↦ rw fine (
          inr (
            render_from-block extra ks (header <> setting_line k v)
              (append-ne-nil_of_left_ne-nil header _ (ne-of-eq_false header "" refl))
            ∙ append_assoc header (setting_line k v) (block (accepted extra ks))))
    ]

read_settings-render_from :
    (extra : Settings) (ks : List String)
    → read_settings (render_from extra ks "") ≡ accepted extra ks
read_settings-render_from extra ks = elim (render_from-empty extra ks) [
  | inl (nothing, empty) ↦
      rw (empty, nothing) (unfold read_settings split_lines settings_in setting_of in refl)
  | inr built ↦
      rw (built, append_assoc "# spec.extraSettings" "\n" (block (accepted extra ks)))
        (read_settings-comment "# spec.extraSettings" (block (accepted extra ks)) refl
            (unfold setting_of in refl)
          ∙ read_settings-block extra ks)
]

-- The block of extra settings, read back line by line, has exactly the accepted settings of the
-- map, in the order of their keys, each with its value: a rejected setting leaves no trace, and
-- no key or value adds a line or changes another setting.
pub read-render_extra_settings :
    (extra : Settings)
    → read_settings (render_extra_settings extra) ≡ accepted extra (sorted_keys extra)
unfolding render_extra_settings
read-render_extra_settings [] =
    unfold read_settings split_lines settings_in setting_of accepted sorted_keys sort_texts in refl
read-render_extra_settings (e ∷ extra) =
    read_settings-render_from (e ∷ extra) (sorted_keys (e ∷ extra))
