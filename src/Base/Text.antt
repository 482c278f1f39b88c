-- ===== src/Base/Text.antt =====
-- Python's operations on text that the program uses, over the native strings.
use Prim.Native.Nat.{ℕ}
use Prim.Native.Char.{code}
use Prim.Native.String.{String, ◌++◌ as ◌<>◌}
use mathlib.Core.Bool.{Bool, true, false, ◌&&◌, ◌||◌}
use mathlib.Core.List.{List, [], ◌∷◌}
use pyrepo_check.Base.Tests.{ltb, leb, ◌==◌, ◌!=◌, nat_eq, string_eq, if◌then◌else◌}
use pyrepo_check.Base.Lists.{contains, keep}

-- The code points of a text. `String` has its own `[]` and `∷`.
abbrev pub codes : String → List ℕ
codes String.[] = []
codes (String.◌∷◌ c s) = code c ∷ codes s

abbrev pub between : ℕ → ℕ → ℕ → Bool
between lo hi c = leb lo c && leb c hi

-- `str.isspace` of one code point
abbrev pub is_space : ℕ → Bool
is_space c =
    between 9 13 c
    || between 28 32 c
    || c == 133
    || c == 160
    || c == 5760
    || between 8192 8202 c
    || c == 8232
    || c == 8233
    || c == 8239
    || c == 8287
    || c == 12288

abbrev pub is_digit : ℕ → Bool
is_digit = between b'0' b'9'

-- `text.lstrip()`
abbrev pub lstrip : String → String
lstrip String.[] = String.[]
lstrip (String.◌∷◌ c s) = let rest = lstrip s in if is_space (code c) then rest else String.◌∷◌ c s

-- `not text.strip()`: nothing but white space
abbrev pub is_blank : String → Bool
is_blank s = lstrip s == ""

-- `chr(c) in text`
abbrev pub has_code : ℕ → String → Bool
has_code c s = contains (codes s) c

-- The first code point is `c`.
abbrev pub starts_with_code : ℕ → String → Bool
starts_with_code c String.[] = false
starts_with_code c (String.◌∷◌ d s) = code d == c

abbrev cons_head : String → List String → List String
cons_head c [] = c ∷ []
cons_head c (w ∷ ws) = (c <> w) ∷ ws

-- `text.split(chr(c))`
abbrev pub split_on : ℕ → String → List String
split_on c String.[] = "" ∷ []
split_on c (String.◌∷◌ d s) =
    let rest = split_on c s in
    if code d == c then "" ∷ rest else cons_head (String.◌∷◌ d String.[]) rest

-- `sep.join(texts)`
abbrev pub join : String → List String → String
join sep [] = ""
join sep (x ∷ []) = x
join sep (x ∷ (y ∷ xs)) = x <> sep <> join sep (y ∷ xs)

-- `first <= second` on strings compares code points in order.
abbrev pub str_le : String → String → Bool
str_le String.[] t = true
str_le (String.◌∷◌ c s) String.[] = false
str_le (String.◌∷◌ c s) (String.◌∷◌ d t) = ltb (code c) (code d) || (code c == code d && str_le s t)

-- `Path(text)` on POSIX: absolute, its components, its final component.
abbrev pub is_absolute : String → Bool
is_absolute = starts_with_code b'/'

abbrev pub parts : String → List String
parts s = keep (λ w. w != "" && w != ".") (split_on b'/' s)

abbrev last_or_empty : List String → String
last_or_empty [] = ""
last_or_empty (w ∷ []) = w
last_or_empty (w ∷ (v ∷ ws)) = last_or_empty (v ∷ ws)

abbrev pub file_name : String → String
file_name s = last_or_empty (parts s)
