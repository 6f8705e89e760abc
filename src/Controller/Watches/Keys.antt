-- ===== src/Controller/Watches/Keys.antt =====
-- The keys "<namespace>/<name>" of the indexes of internal/controller, taken apart.
use Prim.Native.String.{[], ◌∷◌}
use text.Mathlib.TextLemmas.{cons-append, nil-append, head-eq_of_cons-eq, tail-eq_of_cons-eq}
use aether_powerdns.Prelude.{
  String, Bool, false, true, Char, code, ◌<>◌, ◌≡◌, refl, sym, ap, ◌∙◌, any_char, any_char-append,
  nat_eq, arith,
}

-- A name of Kubernetes: it has no slash.
abbrev is_slash : Char → Bool
is_slash c = nat_eq (code c) b'/'

abbrev pub IsPlain : String → Type 0
IsPlain s = any_char is_slash s ≡ false

abbrev slash : Char
slash = "/"

slash_first : (x : String) → "/" <> x ≡ slash ∷ x
slash_first x = cons-append slash [] x ∙ ap (λ t. slash ∷ t) (nil-append x)

-- A key has a slash, so it is no plain text.
key_slash : (a x : String) → any_char is_slash (a <> ("/" <> x)) ≡ true
key_slash a x = rw (any_char-append is_slash a ("/" <> x), slash_first x) (ground arith)

-- Where the one key's parts are plain, so are the other's, and they are the same.
pub same_parts :
    (a x b y : String)
    → IsPlain b
    → IsPlain y
    → a <> ("/" <> x) ≡ b <> ("/" <> y)
    → (a ≡ b) × (x ≡ y)
same_parts [] x [] y hb hy e =
    let e1 : slash ∷ x ≡ slash ∷ y =
      sym (nil-append ("/" <> x) ∙ slash_first x) ∙ e ∙ (nil-append ("/" <> y) ∙ slash_first y) in
    (refl, tail-eq_of_cons-eq e1)
same_parts [] x (c ∷ b) y hb hy e =
    let e1 : slash ∷ x ≡ c ∷ (b <> ("/" <> y)) =
      sym (nil-append ("/" <> x) ∙ slash_first x) ∙ e ∙ cons-append c b ("/" <> y) in
    let first : is_slash slash ≡ is_slash c = ap is_slash (head-eq_of_cons-eq e1) in
    absurd (ground arith)
same_parts (d ∷ a) x [] y hb hy e =
    let e1 : d ∷ (a <> ("/" <> x)) ≡ slash ∷ y =
      sym (cons-append d a ("/" <> x)) ∙ e ∙ (nil-append ("/" <> y) ∙ slash_first y) in
    let inner : any_char is_slash (a <> ("/" <> x)) ≡ any_char is_slash y =
      ap (any_char is_slash) (tail-eq_of_cons-eq e1) in
    absurd (ground (arith, key_slash a x))
same_parts (d ∷ a) x (c ∷ b) y hb hy e =
    let e1 : d ∷ (a <> ("/" <> x)) ≡ c ∷ (b <> ("/" <> y)) =
      sym (cons-append d a ("/" <> x)) ∙ e ∙ cons-append c b ("/" <> y) in
    let (same, names) = same_parts a x b y (ground arith) hy (tail-eq_of_cons-eq e1) in
    (ap (λ f. f ∷ a) (head-eq_of_cons-eq e1) ∙ ap (λ t. c ∷ t) same, names)
