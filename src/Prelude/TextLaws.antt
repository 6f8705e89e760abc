-- ===== src/Prelude/TextLaws.antt =====
-- Facts about texts that the components share.
use Prim.Native.String.{String, [], ◌∷◌, ◌++◌}
use Prim.Native.Char.{Char}
use mathlib.Core.Path.{◌≡◌, refl, sym, ap, ◌∙◌}
use mathlib.Core.Bool.{Bool, ◌||◌}
use mathlib.Core.Logic.{◌≢◌}
use text.Mathlib.TextLemmas.{cons-append, nil-append, cons-ne-nil}
pub use text.Mathlib.TextLemmas.{append-ne-nil_of_right_ne-nil}
use text.Mathlib.TextEquality.{eq_iff}
use native.Mathlib.Omega.{arith}
use aether_powerdns.Prelude.Texts.{any_char}

pub append-ne-nil_of_left_ne-nil : (s t : String) → s ≢ [] → (s ++ t) ≢ []
append-ne-nil_of_left_ne-nil [] t h e = h refl
append-ne-nil_of_left_ne-nil (c ∷ s) t h e = cons-ne-nil c (s ++ t) (sym (cons-append c s t) ∙ e)

-- A key "<namespace>/<name>" is never empty.
pub key-ne-nil : (ns name : String) → (ns ++ ("/" ++ name)) ≢ ""
key-ne-nil ns name =
    append-ne-nil_of_right_ne-nil ns
      (append-ne-nil_of_left_ne-nil "/" name (λ e. ground (arith, eq_iff "/" "")))

pub any_char-append :
    (p : Char → Bool) (s t : String) → any_char p (s ++ t) ≡ (any_char p s || any_char p t)
any_char-append p [] t = ap (any_char p) (nil-append t)
any_char-append p (c ∷ s) t =
    ap (any_char p) (cons-append c s t) ∙ ground (arith, any_char-append p s t)
