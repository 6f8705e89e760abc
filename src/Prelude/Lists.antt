-- ===== src/Prelude/Lists.antt =====
-- Lists over the native numbers, predicates by recursion, and Go's slices.
use Prim.Native.Nat.{ℕ, suc, ◌+◌}
use mathlib.Core.Path.{◌≡◌, refl}
use mathlib.Core.Bool.{Bool, true, false, ◌&&◌, ◌||◌}
use mathlib.Core.Option.{Option, none, some}
use mathlib.Core.List.{List, [], ◌∷◌, ◌++◌, map}
use native.Mathlib.Omega.{arith}

module _ {ℓ} {A : Type ℓ} where
  abbrev pub length : List A → ℕ
  length [] = 0
  length (x ∷ xs) = suc (length xs)

  abbrev pub any : (A → Bool) → List A → Bool
  any p [] = false
  any p (x ∷ xs) = p x || any p xs

  abbrev pub all : (A → Bool) → List A → Bool
  all p [] = true
  all p (x ∷ xs) = p x && all p xs

  -- The first element that passes the test.
  abbrev pub find? : (A → Bool) → List A → Option A
  find? p [] = none
  find? p (x ∷ xs) = let later = find? p xs in elim (p x) [ true ↦ some x | false ↦ later ]

  -- The elements of a slice of Go, where `none` is `nil`.
  abbrev pub items : Option (List A) → List A
  items none = []
  items (some xs) = xs

  pub length-append : (xs ys : List A) → length (xs ++ ys) ≡ length xs + length ys
  length-append [] ys = omega arith
  length-append (x ∷ xs) ys = omega (arith, length-append xs ys)

  pub find?-hit : (p : A → Bool) (x : A) (xs : List A) → p x ≡ true → find? p (x ∷ xs) ≡ some x
  find?-hit p x xs h = rw (find?, h) refl

  pub find?-miss :
      (p : A → Bool) (x : A) (xs : List A) → p x ≡ false → find? p (x ∷ xs) ≡ find? p xs
  find?-miss p x xs h = rw (find?, h) refl

pub length-map {ℓ κ} :
    {A : Type ℓ} {B : Type κ} (f : A → B) (xs : List A) → length (map f xs) ≡ length xs
length-map f [] = refl
length-map f (x ∷ xs) = omega (arith, length-map f xs)

module _ {ℓ κ} {A : Type ℓ} (P : A → Type κ) where
  abbrev pub All : List A → Type κ
  All [] = Unit
  All (x ∷ xs) = P x × All xs
