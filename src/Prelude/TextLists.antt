-- ===== src/Prelude/TextLists.antt =====
-- Go's `slices.Equal` on slices of strings.
use Prim.Native.String.{String}
use mathlib.Core.Path.{◌≡◌, refl}
use mathlib.Core.Logic.{◌↔◌}
use mathlib.Core.Bool.{Bool, true, false, ◌&&◌}
use mathlib.Core.Option.{Option, none, some}
use mathlib.Core.List.{List, [], ◌∷◌}
use native.Mathlib.Omega.{arith}
use text.Mathlib.Text.{◌==◌}
use text.Mathlib.TextEquality.{eq_iff}
use text.Mathlib.TextPositions.{eq_refl}

abbrev pub text_lists_eq : List String → List String → Bool
text_lists_eq [] [] = true
text_lists_eq [] (t ∷ ts) = false
text_lists_eq (s ∷ ss) [] = false
text_lists_eq (s ∷ ss) (t ∷ ts) = s == t && text_lists_eq ss ts

pub text_lists_eq_iff : (ss ts : List String) → (text_lists_eq ss ts ≡ true) ↔ (ss ≡ ts)
text_lists_eq_iff [] [] = (λ h. refl, λ h. refl)
text_lists_eq_iff [] (t ∷ ts) = (λ h. cc, λ h. cc)
text_lists_eq_iff (s ∷ ss) [] = (λ h. cc, λ h. cc)
text_lists_eq_iff (s ∷ ss) (t ∷ ts) = ground (arith, eq_iff s t, text_lists_eq_iff ss ts)

abbrev pub same_text_option : Option String → Option String → Bool
same_text_option none none = true
same_text_option none (some t) = false
same_text_option (some s) none = false
same_text_option (some s) (some t) = s == t

pub same_text_option_refl : (o : Option String) → same_text_option o o ≡ true
same_text_option_refl none = refl
same_text_option_refl (some s) = eq_refl s
