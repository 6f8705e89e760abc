-- ===== src/Prelude.antt =====
-- The names that the other modules share: those of the libraries, and those of the children.
mod Tests
mod Lists
mod Texts
mod TextLaws
mod TextLists
mod TextSort
mod Dict
mod Mutation
mod Steps
unfoldable pub use Tests.*
unfoldable pub use Lists.*
unfoldable pub use Texts.*
pub use TextLaws.*
unfoldable pub use TextLists.*
unfoldable pub use TextSort.*
unfoldable pub use Dict.*
pub use Steps.*
unfoldable pub use Mutation.*
pub use Prim.Native.Nat.{ℕ, zero, suc, ◌+◌, ◌-◌, ◌/◌, ◌%◌, ◌≤◌, ◌<◌}
pub use Prim.Native.Char.{Char, code}
pub use Prim.Native.String.{String, ◌++◌ as ◌<>◌}
pub use mathlib.Core.Path.{◌≡◌, refl, sym, subst, ap, ◌∙◌}
pub use mathlib.Core.Logic.{◌≢◌, ◌↔◌, ◌⊎◌, inl, inr}
pub use mathlib.Core.Bool.{Bool, true, false, not, ◌&&◌, ◌||◌}
pub use mathlib.Core.Option.{Option, none, some}
pub use mathlib.Core.List.{List, [], ◌∷◌, ◌++◌, map}
pub use native.Mathlib.Omega.{arith}
pub use text.Mathlib.Text.{◌==◌}
pub use text.Mathlib.TextEquality.{eq_iff}
pub use text.Mathlib.TextPositions.{eq_refl}
