-- ===== src/Prelude/Mutation.antt =====
-- Go's results: a value or an `error`, and code that changes a world on the way to one.
use Prim.Native.String.{String}
use mathlib.Core.Bool.{Bool, true, false}

-- The sentinels that the program tells apart by `errors.Is`, by `apierrors.Is…` and by
-- `meta.IsNoMatchError`. Wrapping by `%w` keeps the sentinel and changes the text.
pub data ErrorKind : Type 0 where
  err_not_found err_unreachable err_already_exists : ErrorKind
  api_not_found api_conflict no_match : ErrorKind
  other : ErrorKind

pub record Error : Type 0 where
  pub kind : ErrorKind
  pub text : String

pub data Result {ℓ} (A : Type ℓ) : Type ℓ where
  ok : A → Result A
  err : Error → Result A

abbrev pub is_ok {ℓ} : {A : Type ℓ} → Result A → Bool
is_ok (ok a) = true
is_ok (err e) = false

-- The state stays changed when an error is returned.
abbrev pub Action : Type 0 → Type 0 → Type 0
Action W A = W → Result A × W

infixl 5 ◌>>=◌ ◌>>◌
abbrev pub bind_result : {W A B : Type 0} → Result A × W → (A → Action W B) → Result B × W
bind_result (ok a, w) f = f a w
bind_result (err e, w) f = (err e, w)

abbrev pub ◌>>=◌ : {W A B : Type 0} → Action W A → (A → Action W B) → Action W B
◌>>=◌ m f w = bind_result (m w) f

abbrev pub ◌>>◌ : {W B : Type 0} → Action W (Unit {0}) → Action W B → Action W B
◌>>◌ m k w = bind_result (m w) (λ _. k)

abbrev pub return : {W A : Type 0} → A → Action W A
return a w = (ok a, w)

abbrev pub fail : {W A : Type 0} → Error → Action W A
fail e w = (err e, w)

-- `x, err := m`, for code that looks at the error itself.
abbrev pub attempt : {W A : Type 0} → Action W A → Action W (Result A)
attempt m w = let (r, w') = m w in (ok r, w')

-- `errors.Is(err, sentinel)`.
abbrev pub is_kind : ErrorKind → ErrorKind → Bool
is_kind err_not_found err_not_found = true
is_kind err_unreachable err_unreachable = true
is_kind err_already_exists err_already_exists = true
is_kind api_not_found api_not_found = true
is_kind api_conflict api_conflict = true
is_kind no_match no_match = true
is_kind other other = true
is_kind _ _ = false
