-- ===== src/Manifests/Settings/Lines.antt =====
-- A configuration file read back, line by line: what the block that `renderExtraSettings` of
-- internal/manifests/manifests.go writes is held against.
use Prim.Native.String.{[] as nil, ◌∷◌ as ◌::◌}
use text.Mathlib.TextLemmas.{nil-append, cons-append}
use aether_powerdns.Prelude.{
  String, Char, code, Bool, false, List, [], ◌∷◌, Option, none, some, ◌<>◌, ◌≡◌, refl, ap, ◌∙◌,
  nat_eq, any_char, arith, if◌then◌else◌,
}

abbrev pub is_newline : Char → Bool
is_newline c = nat_eq (code c) 10

abbrev pub is_equals : Char → Bool
is_equals c = nat_eq (code c) 61

-- The first line, and the lines after it.
unfoldable pub split_lines : String → String × List String
split_lines nil = (nil, [])
split_lines (c :: s) =
    let (line, rest) = split_lines s in
    if is_newline c then (nil, line ∷ rest) else (c :: line, rest)

-- The parts of a line before and after its first `=`, if it has one.
unfoldable pub cut_equals : String → Option (String × String)
cut_equals nil = none
cut_equals (c :: s) =
    let later = cut_equals s in
    if is_equals c
    then some (nil, s)
    else elim later [ none ↦ none | some (k, v) ↦ some (c :: k, v) ]

-- The setting of a line; a comment has none.
unfoldable pub setting_of : String → Option (String × String)
setting_of nil = none
setting_of (c :: s) = if nat_eq (code c) 35 then none else cut_equals (c :: s)

abbrev pub prepend : Option (String × String) → List (String × String) → List (String × String)
prepend none rest = rest
prepend (some entry) rest = entry ∷ rest

unfoldable pub settings_in : List String → List (String × String)
settings_in [] = []
settings_in (line ∷ rest) = prepend (setting_of line) (settings_in rest)

-- The settings of a configuration file, in their order.
unfoldable pub read_settings : String → List (String × String)
read_settings text = let (line, rest) = split_lines text in settings_in (line ∷ rest)

one_char : (c : Char) (rest : String) → (c :: nil) <> rest ≡ (c :: rest)
one_char c rest = cons-append c nil rest ∙ ap (λ s. c :: s) (nil-append rest)

abbrev line_feed : Char
line_feed = "\n"

abbrev equals_sign : Char
equals_sign = "="

pub split_lines-line :
    (line rest : String)
    → any_char is_newline line ≡ false
    → split_lines (line <> ("\n" <> rest)) ≡ (line, (split_lines rest).0 ∷ (split_lines rest).1)
unfolding split_lines
split_lines-line nil rest h = ap split_lines (nil-append _ ∙ one_char line_feed rest)
split_lines-line (c :: line) rest h =
    let plain : is_newline c ≡ false = ground arith in
    ap split_lines (cons-append c line _)
    ∙ rw (plain, split_lines-line line rest (ground arith)) refl

pub cut_equals-key :
    (key value : String)
    → any_char is_equals key ≡ false
    → cut_equals (key <> ("=" <> value)) ≡ some (key, value)
unfolding cut_equals
cut_equals-key nil value h = ap cut_equals (nil-append _ ∙ one_char equals_sign value)
cut_equals-key (c :: key) value h =
    let plain : is_equals c ≡ false = ground arith in
    ap cut_equals (cons-append c key _) ∙ rw (plain, cut_equals-key key value (ground arith)) refl

-- A line of text in front of a configuration file.
pub read_settings-line :
    (line rest : String) (entry : String × String)
    → any_char is_newline line ≡ false
    → setting_of line ≡ some entry
    → read_settings (line <> ("\n" <> rest)) ≡ entry ∷ read_settings rest
unfolding read_settings settings_in
read_settings-line line rest entry h e = rw (split_lines-line line rest h, e) refl

-- A line that holds no setting.
pub read_settings-comment :
    (line rest : String)
    → any_char is_newline line ≡ false
    → setting_of line ≡ none
    → read_settings (line <> ("\n" <> rest)) ≡ read_settings rest
unfolding read_settings settings_in
read_settings-comment line rest h e = rw (split_lines-line line rest h, e) refl
