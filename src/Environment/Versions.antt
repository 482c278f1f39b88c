-- ===== src/Environment/Versions.antt =====
-- repository_environment.py: dotted versions, as tuples of numbers and as text.
pub mod Laws
pub mod RoundTrip
use pyrepo_check.Base.{
  ℕ, zero, suc, ◌+◌, ◌-◌, ◌*◌, ◌/◌, ◌%◌, ◌≤◌, ◌<◌, code, String, ◌<>◌, ◌≡◌, refl, sym, ap, ◌∙◌, ◌≢◌,
  ◌↔◌, ◌⊎◌, inl, inr, Bool, true, false, not, ◌&&◌, ◌||◌, Option, none, some, List, [], ◌∷◌, ◌++◌,
  map, arith, eq_iff, ltb, leb, if◌then◌else◌, Eq, ◌==◌, ◌!=◌, nat_eq, string_eq, bool_eq, is_none,
  is_some, or_else, Bool-cases, Option-cases, &&-eq-true, ||-false, ==_refl, ==_sym, length, take,
  drop, is_empty, all, any, keep, first, length-append, length-drop, is_empty-eq-true, All,
  length-map, All-of_keep-nil, All-map, contains, contains-keep, subset, distinct, lists_equal,
  Outcome, returned, raised, ◌>>=◌, ◌>>◌, require, refuse, >>=-eq-returned, refuse-eq-returned,
  refuse-returned, returned-injective, if_is_empty-returned, >>=-cong, Outcome-cases, traverse,
  starts_with,
}
use pyrepo_check.Base.Text.{split_on, join, is_digit}

-- `(0,) * count`
abbrev pub zeros : ℕ → List ℕ
zeros zero = []
zeros (suc count) = 0 ∷ zeros count

abbrev pub max : ℕ → ℕ → ℕ
max a b = if leb a b then b else a

abbrev pub padded : List ℕ → ℕ → List ℕ
padded version width = version ++ zeros (width - length version)

-- `<` on tuples of numbers
abbrev pub tuple_lt : List ℕ → List ℕ → Bool
tuple_lt xs [] = false
tuple_lt [] (y ∷ ys) = true
tuple_lt (x ∷ xs) (y ∷ ys) = ltb x y || (x == y && tuple_lt xs ys)

-- `>=` on tuples of numbers
abbrev pub tuple_ge : List ℕ → List ℕ → Bool
tuple_ge xs [] = true
tuple_ge [] (y ∷ ys) = false
tuple_ge (x ∷ xs) (y ∷ ys) = ltb y x || (x == y && tuple_ge xs ys)

-- `_numeric_at_least`
unfoldable pub numeric_at_least : List ℕ → List ℕ → Bool
numeric_at_least candidate minimum =
    let width = max (length candidate) (length minimum) in
    tuple_ge (padded candidate width) (padded minimum width)

-- `_numeric_before`
unfoldable pub numeric_before : List ℕ → List ℕ → Bool
numeric_before candidate maximum =
    let width = max (length candidate) (length maximum) in
    tuple_lt (padded candidate width) (padded maximum width)

abbrev pub digit_text : ℕ → String
digit_text zero = "0"
digit_text (suc zero) = "1"
digit_text (suc (suc zero)) = "2"
digit_text (suc (suc (suc zero))) = "3"
digit_text (suc (suc (suc (suc zero)))) = "4"
digit_text (suc (suc (suc (suc (suc zero))))) = "5"
digit_text (suc (suc (suc (suc (suc (suc zero)))))) = "6"
digit_text (suc (suc (suc (suc (suc (suc (suc zero))))))) = "7"
digit_text (suc (suc (suc (suc (suc (suc (suc (suc zero)))))))) = "8"
digit_text (suc (suc (suc (suc (suc (suc (suc (suc (suc d))))))))) = "9"

-- The digits of a number below 10 ^ fuel
abbrev pub digits : ℕ → ℕ → String
digits zero n = ""
digits (suc fuel) n =
    let rest = digits fuel (n / 10) in
    if ltb n 10 then digit_text n else rest <> digit_text (n % 10)

-- `str` of a number that is not negative: it has at most as many digits as it counts, and one.
abbrev pub decimal : ℕ → String
decimal n = digits (suc n) n

-- `_format_numeric_version`
unfoldable pub format_numeric_version : List ℕ → String
format_numeric_version version = join "." (map decimal version)

-- `int` of a text of digits, read from `value` on
abbrev pub read_digits : ℕ → String → ℕ
read_digits value String.[] = value
read_digits value (String.◌∷◌ c s) = read_digits (value * 10 + (code c - 48)) s

abbrev pub all_digits : String → Bool
all_digits String.[] = true
all_digits (String.◌∷◌ c s) = is_digit (code c) && all_digits s

abbrev pub text_length : String → ℕ
text_length String.[] = 0
text_length (String.◌∷◌ c s) = suc (text_length s)

-- `int` refuses a longer text by default.
abbrev pub int_digit_limit : ℕ
int_digit_limit = 4300

abbrev both : Option ℕ → Option (List ℕ) → Option (List ℕ)
both none numbers = none
both (some n) none = none
both (some n) (some numbers) = some (n ∷ numbers)

module _ (limit : ℕ) where
  -- One part that the version pattern matches, if `int` reads it.
  unfoldable pub numeric_part : String → Option ℕ
  numeric_part part =
      if part != "" && all_digits part && leb (text_length part) limit
      then some (read_digits 0 part)
      else none

  abbrev pub numeric_parts : List String → Option (List ℕ)
  numeric_parts [] = some []
  numeric_parts (part ∷ rest) = let numbers = numeric_parts rest in both (numeric_part part) numbers

  -- The numbers of a version that the pattern matches, if `int` reads them.
  unfoldable pub numeric_version : String → Option (List ℕ)
  numeric_version version = numeric_parts (split_on b'.' version)
