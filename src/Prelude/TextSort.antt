-- ===== src/Prelude/TextSort.antt =====
-- `sort.Strings`: the order of texts, and a sort whose result does not depend on the order of
-- its argument. UTF-8 keeps the order of code points, so this is Go's order of bytes.
use Prim.Native.Char.{code}
use Prim.Native.String.{String, [] as nil, ◌∷◌ as ◌::◌}
use mathlib.Core.Path.{◌≡◌, refl, sym, ap, ◌∙◌}
use mathlib.Core.Logic.{inl, inr}
use mathlib.Core.Bool.{Bool, true, false, ◌&&◌, ◌||◌}
use mathlib.Core.List.{List, [], ◌∷◌, Permᴰ}
use native.Mathlib.Omega.{arith}
use text.Mathlib.TextEquality.{Char-path}
use aether_powerdns.Prelude.Tests.{ltb, nat_eq, if◌then◌else◌, Bool-cases}

unfoldable pub text_le : String → String → Bool
text_le nil t = true
text_le (c :: s) nil = false
text_le (c :: s) (d :: t) = ltb (code c) (code d) || (nat_eq (code c) (code d) && text_le s t)

text_le_total : (s t : String) → text_le s t ≡ false → text_le t s ≡ true
unfolding text_le
text_le_total nil t h = ground arith
text_le_total (c :: s) nil h = refl
text_le_total (c :: s) (d :: t) h = ground (arith, text_le_total s t)

text_le_trans : (s t u : String) → text_le s t ≡ true → text_le t u ≡ true → text_le s u ≡ true
unfolding text_le
text_le_trans nil t u h k = refl
text_le_trans (c :: s) nil u h k = ground arith
text_le_trans (c :: s) (d :: t) nil h k = ground arith
text_le_trans (c :: s) (d :: t) (e :: u) h k = ground (arith, text_le_trans s t u)

text_le_antisym : (s t : String) → text_le s t ≡ true → text_le t s ≡ true → s ≡ t
unfolding text_le
text_le_antisym nil nil h k = refl
text_le_antisym nil (d :: t) h k = ground arith
text_le_antisym (c :: s) nil h k = ground arith
text_le_antisym (c :: s) (d :: t) h k =
    let same : code c ≡ code d = ground arith in
    let rest : s ≡ t = text_le_antisym s t (ground arith) (ground arith) in
    λ i. Char-path c d same i :: rest i

unfoldable pub insert_sorted : String → List String → List String
insert_sorted s [] = s ∷ []
insert_sorted s (t ∷ ts) =
    let later = insert_sorted s ts in if text_le s t then s ∷ t ∷ ts else t ∷ later

unfoldable pub sort_texts : List String → List String
sort_texts [] = []
sort_texts (s ∷ ss) = insert_sorted s (sort_texts ss)

-- The smaller of two different texts, inserted first or second.
insert_swap_lt :
    (s t : String) (us : List String)
    → text_le s t ≡ true
    → text_le t s ≡ false
    → insert_sorted s (insert_sorted t us) ≡ insert_sorted t (insert_sorted s us)
unfolding insert_sorted
insert_swap_lt s t [] h strict = rw (h, strict) refl
insert_swap_lt s t (u ∷ us) h strict = elim (Bool-cases (text_le t u)) [
  | inl low ↦ rw (low, text_le_trans s t u h low, h, strict, low) refl
  | inr high ↦ elim (Bool-cases (text_le s u)) [
    | inl below ↦ rw (high, below, strict, high) refl
    | inr above ↦ rw (high, above, high) (ap (λ l. u ∷ l) (insert_swap_lt s t us h strict))
  ]
]

insert_swap_le :
    (s t : String) (us : List String)
    → text_le s t ≡ true
    → insert_sorted s (insert_sorted t us) ≡ insert_sorted t (insert_sorted s us)
insert_swap_le s t us h = elim (Bool-cases (text_le t s)) [
  | inl back ↦ rw (text_le_antisym s t h back) refl
  | inr strict ↦ insert_swap_lt s t us h strict
]

insert_swap :
    (s t : String) (us : List String)
    → insert_sorted s (insert_sorted t us) ≡ insert_sorted t (insert_sorted s us)
insert_swap s t us = elim (Bool-cases (text_le s t)) [
  | inl le ↦ insert_swap_le s t us le
  | inr gt ↦ sym (insert_swap_le t s us (text_le_total s t gt))
]

-- The sorted list does not depend on the order in which the texts come.
pub sort_texts-Permᴰ : {ss ts : List String} → Permᴰ ss ts → sort_texts ss ≡ sort_texts ts
unfolding sort_texts
sort_texts-Permᴰ Permᴰ.nil = refl
sort_texts-Permᴰ (Permᴰ.cons {a} {b} {l₁} {l₂} e p) =
    ap (λ s. insert_sorted s (sort_texts l₁)) e ∙ ap (insert_sorted b) (sort_texts-Permᴰ p)
sort_texts-Permᴰ (Permᴰ.swap {a} {b} {a'} {b'} {l} e f) =
    insert_swap a b (sort_texts l)
    ∙ (ap (λ s. insert_sorted s (insert_sorted a (sort_texts l))) f
        ∙ ap (λ s. insert_sorted a' (insert_sorted s (sort_texts l))) e)
sort_texts-Permᴰ (Permᴰ.trans p q) = sort_texts-Permᴰ p ∙ sort_texts-Permᴰ q
