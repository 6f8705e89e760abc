-- ===== src/Prelude/Texts.antt =====
-- What the program takes from Go's `strings`, `strconv` and `fmt`, over native texts.
use Prim.Native.Nat.{ℕ, zero, suc, ◌+◌, ◌/◌, ◌%◌}
use Prim.Native.Char.{Char, code}
use Prim.Native.String.{String, [], ◌∷◌, ◌++◌}
use mathlib.Core.Bool.{Bool, true, false, ◌&&◌, ◌||◌}
use mathlib.Core.List.{List}
use text.Mathlib.Text.{◌==◌}
use aether_powerdns.Prelude.Tests.{leb, ltb, nat_eq, if◌then◌else◌}

-- A digit below 16, as `strconv` and `encoding/hex` write it.
abbrev pub digit : ℕ → String
digit n =
    if nat_eq n 0
    then "0"
    else if nat_eq n 1
    then "1"
    else if nat_eq n 2
    then "2"
    else if nat_eq n 3
    then "3"
    else if nat_eq n 4
    then "4"
    else if nat_eq n 5
    then "5"
    else if nat_eq n 6
    then "6"
    else if nat_eq n 7
    then "7"
    else if nat_eq n 8
    then "8"
    else if nat_eq n 9
    then "9"
    else if nat_eq n 10
    then "a"
    else if nat_eq n 11
    then "b"
    else if nat_eq n 12
    then "c"
    else if nat_eq n 13
    then "d"
    else if nat_eq n 14
    then "e"
    else "f"

show_digits : ℕ → ℕ → String → String
show_digits zero n rest = rest
show_digits (suc fuel) n rest =
    let front = show_digits fuel (n / 10) (digit (n % 10) ++ rest) in
    if ltb n 10 then digit n ++ rest else front

-- The verb `%d`. A number has fewer digits than it counts ones, so the fuel suffices.
unfoldable pub show_nat : ℕ → String
unfolding show_digits
show_nat n = show_digits (suc n) n ""

-- A byte under the verb `%q`, in the range where Go escapes it.
quote_char : Char → String
quote_char c =
    let n = code c in
    if nat_eq n 34
    then "\\\""
    else if nat_eq n 92
    then "\\\\"
    else if nat_eq n 7
    then "\\a"
    else if nat_eq n 8
    then "\\b"
    else if nat_eq n 9
    then "\\t"
    else if nat_eq n 10
    then "\\n"
    else if nat_eq n 11
    then "\\v"
    else if nat_eq n 12
    then "\\f"
    else if nat_eq n 13
    then "\\r"
    else if ltb n 32 || nat_eq n 127
    then "\\x" ++ (digit (n / 16) ++ digit (n % 16))
    else c ∷ []

quote_chars : String → String
quote_chars [] = "\""
quote_chars (c ∷ s) = quote_char c ++ quote_chars s

-- The verb `%q`, where every character from U+0080 on is taken to be printable.
unfoldable pub quote : String → String
unfolding quote_char quote_chars
quote s = "\"" ++ quote_chars s

-- `strings.HasPrefix`, `strings.HasSuffix` and `strings.Contains`, character by character.
abbrev pub has_prefix : String → String → Bool
has_prefix s [] = true
has_prefix [] (d ∷ t) = false
has_prefix (c ∷ s) (d ∷ t) = nat_eq (code c) (code d) && has_prefix s t

abbrev pub has_suffix : String → String → Bool
has_suffix [] t = [] == t
has_suffix (c ∷ s) t = (c ∷ s) == t || has_suffix s t

abbrev pub contains : String → String → Bool
contains [] t = has_prefix [] t
contains (c ∷ s) t = has_prefix (c ∷ s) t || contains s t

-- `strings.ContainsAny(s, chars)` for a test on characters.
abbrev pub any_char : (Char → Bool) → String → Bool
any_char p [] = false
any_char p (c ∷ s) = p c || any_char p s

abbrev pub all_chars : (Char → Bool) → String → Bool
all_chars p [] = true
all_chars p (c ∷ s) = p c && all_chars p s

-- `strings.Join`.
abbrev pub join : List String → String → String
join List.[] sep = ""
join (List.◌∷◌ s List.[]) sep = s
join (List.◌∷◌ s (List.◌∷◌ t rest)) sep = s ++ (sep ++ join (List.◌∷◌ t rest) sep)

-- `strings.TrimSuffix`.
abbrev pub trim_suffix : String → String → String
trim_suffix [] t = []
trim_suffix (c ∷ s) t = if (c ∷ s) == t then [] else c ∷ trim_suffix s t

abbrev is_space : Char → Bool
is_space c =
    let n = code c in
    nat_eq n 32
    || (leb 9 n && leb n 13)
    || nat_eq n 133
    || nat_eq n 160
    || nat_eq n 5760
    || (leb 8192 n && leb n 8202)
    || nat_eq n 8232
    || nat_eq n 8233
    || nat_eq n 8239
    || nat_eq n 8287
    || nat_eq n 12288

abbrev trim_left : String → String
trim_left [] = []
trim_left (c ∷ s) = if is_space c then trim_left s else c ∷ s

abbrev trim_right : String → String
trim_right [] = []
trim_right (c ∷ s) = let rest = trim_right s in if is_space c && rest == "" then [] else c ∷ rest

-- `strings.TrimSpace`.
unfoldable pub trim_space : String → String
trim_space s = trim_right (trim_left s)

-- The code points after `strings.ToLower`, where a letter outside ASCII that has no ASCII
-- letter for its lower case keeps its own.
abbrev lower_code : ℕ → ℕ
lower_code n =
    if leb 65 n && leb n 90
    then n + 32
    else if nat_eq n 8490
    then 107
    else if nat_eq n 304
    then 105
    else n

abbrev pub lower_codes : String → List ℕ
lower_codes [] = List.[]
lower_codes (c ∷ s) = List.◌∷◌ (lower_code (code c)) (lower_codes s)

abbrev pub codes : String → List ℕ
codes [] = List.[]
codes (c ∷ s) = List.◌∷◌ (code c) (codes s)

abbrev codes_prefix : List ℕ → List ℕ → Bool
codes_prefix s List.[] = true
codes_prefix List.[] (List.◌∷◌ d t) = false
codes_prefix (List.◌∷◌ c s) (List.◌∷◌ d t) = nat_eq c d && codes_prefix s t

abbrev pub codes_contain : List ℕ → List ℕ → Bool
codes_contain List.[] t = codes_prefix List.[] t
codes_contain (List.◌∷◌ c s) t = codes_prefix (List.◌∷◌ c s) t || codes_contain s t

-- The bytes of a code point in UTF-8.
utf8 : ℕ → List ℕ
utf8 n =
    if ltb n 128
    then List.◌∷◌ n List.[]
    else if ltb n 2048
    then List.◌∷◌ (192 + n / 64) (List.◌∷◌ (128 + n % 64) List.[])
    else if ltb n 65536
    then List.◌∷◌ (224 + n / 4096) (List.◌∷◌ (128 + n / 64 % 64) (List.◌∷◌ (128 + n % 64) List.[]))
    else List.◌∷◌ (240 + n / 262144) (
        List.◌∷◌ (128 + n / 4096 % 64)
          (List.◌∷◌ (128 + n / 64 % 64) (List.◌∷◌ (128 + n % 64) List.[])))

-- What `url.PathEscape` leaves alone: letters, digits and `-_.~$&+:=@`.
abbrev pub is_path_char : ℕ → Bool
is_path_char n =
    (leb b'a' n && leb n b'z')
    || (leb b'A' n && leb n b'Z')
    || (leb b'0' n && leb n b'9')
    || nat_eq n b'-'
    || nat_eq n b'_'
    || nat_eq n b'.'
    || nat_eq n b'~'
    || nat_eq n b'$'
    || nat_eq n b'&'
    || nat_eq n b'+'
    || nat_eq n b':'
    || nat_eq n b'='
    || nat_eq n b'@'

upper_digit : ℕ → String
upper_digit n =
    if nat_eq n 10
    then "A"
    else if nat_eq n 11
    then "B"
    else if nat_eq n 12
    then "C"
    else if nat_eq n 13
    then "D"
    else if nat_eq n 14
    then "E"
    else if nat_eq n 15
    then "F"
    else digit n

percent_bytes : List ℕ → String
percent_bytes List.[] = ""
percent_bytes (List.◌∷◌ n rest) =
    "%" ++ (upper_digit (n / 16) ++ (upper_digit (n % 16) ++ percent_bytes rest))

-- `url.PathEscape`.
unfoldable pub path_escape : String → String
unfolding utf8 upper_digit percent_bytes
path_escape [] = ""
path_escape (c ∷ s) =
    (if is_path_char (code c) then c ∷ [] else percent_bytes (utf8 (code c))) ++ path_escape s
