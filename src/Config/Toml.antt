-- ===== src/Config/Toml.antt =====
-- The values that `tomllib` returns, and the tests that config.py makes on them.
use pyrepo_check.Base.{
  String, Bool, true, false, Option, none, some, List, [], ◌∷◌, ◌==◌, string_eq, if◌then◌else◌,
}
use pyrepo_check.Base.Int.{ℤ}

-- A float is a finite dyadic number, mantissa times two to the exponent, or none.
pub data Double : Type 0 where
  finite : ℤ → ℤ → Double
  infinity : Bool → Double
  not_a_number : Double

pub data Number : Type 0 where
  integer : ℤ → Number
  float : Double → Number

-- `math.isfinite`
abbrev pub is_finite : Number → Bool
is_finite (integer n) = true
is_finite (float (finite m e)) = true
is_finite (float d) = false

-- `moment` stands for TOML's dates and times, which the program only refuses.
mutual
  pub data Toml : Type 0 where
    text : String → Toml
    number : Number → Toml
    boolean : Bool → Toml
    moment : String → Toml
    array : Items → Toml
    table : Fields → Toml

  pub data Items : Type 0 where
    nil : Items
    item : Toml → Items → Items

  pub data Fields : Type 0 where
    end : Fields
    field : String → Toml → Fields → Fields

-- `table.get(key)`: TOML has no null, so a missing key is the only `None`.
abbrev pub get : Fields → String → Option Toml
get end key = none
get (field k v rest) key = if k == key then some v else get rest key

abbrev cons_text : String → Option (List String) → Option (List String)
cons_text s none = none
cons_text s (some more) = some (s ∷ more)

abbrev texts : Items → Option (List String)
texts nil = some []
texts (item (text s) rest) = cons_text s (texts rest)
texts (item v rest) = none

-- The list, if the value is a list of strings.
abbrev pub string_list : Toml → Option (List String)
string_list (array items) = texts items
string_list v = none
