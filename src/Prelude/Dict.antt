-- ===== src/Prelude/Dict.antt =====
-- Maps from texts, as association lists in which the first binding of a key counts.
use Prim.Native.String.{String}
use mathlib.Core.Bool.{true, false}
use mathlib.Core.Option.{Option, none, some}
use mathlib.Core.List.{List, [], ◌∷◌}
use text.Mathlib.Text.{◌==◌}

module _ {ℓ} {V : Type ℓ} where
  abbrev pub lookup : String → List (String × V) → Option V
  lookup key [] = none
  lookup key (entry ∷ rest) =
      let later = lookup key rest in elim (entry.0 == key) [ true ↦ some entry.1 | false ↦ later ]

  abbrev pub keys : List (String × V) → List String
  keys [] = []
  keys (entry ∷ rest) = entry.0 ∷ keys rest
