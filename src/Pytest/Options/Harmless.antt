-- ===== src/Pytest/Options/Harmless.antt =====
-- The command lines of pytest that leave the scope of a session alone, described by its options.
use pyrepo_check.Base.{
  ℕ, String, ◌<>◌, ◌≡◌, refl, ◌≢◌, Bool, true, false, not, ◌&&◌, ◌||◌, List, [], ◌∷◌, arith, ◌==◌,
  ◌!=◌, nat_eq, string_eq, bool_eq, all, any, contains, starts_with,
}
use pyrepo_check.Base.Text.{codes}
use pyrepo_check.Pytest.Options.{takes_neutral_operand, narrows, is_classified}

-- The options of pytest that select tests by an expression, which may follow in the same argument
abbrev pub selecting : List String
selecting = "-k" ∷ "-m" ∷ []

-- Those that leave out the tests of their value
abbrev pub excluding : List String
excluding = "--deselect" ∷ "--ignore" ∷ "--ignore-glob" ∷ []

-- Those that run some tests only, other tests, or none
abbrev pub restricting : List String
restricting =
    "--lf" ∷ "--last-failed" ∷ "--pyargs" ∷ "--collect-only" ∷ "--setup-only" ∷ "--setup-plan" ∷ []

-- Those that change what is shown, with a value
abbrev pub showing : List String
showing =
    "--tb" ∷ "--color" ∷ "--code-highlight" ∷ "--capture" ∷ "--durations" ∷ "--durations-min" ∷ []

-- Those that change what is shown, or how strict pytest is, without a value
abbrev pub plain : List String
plain =
    "--quiet" ∷ "--verbose" ∷ "-l" ∷ "--showlocals" ∷ "--no-showlocals" ∷ "-s"
    ∷ "--disable-warnings" ∷ "--strict-config" ∷ "--strict-markers" ∷ []

-- The option alone, or with its value behind an equals sign
abbrev assigned : String → String → Bool
assigned argument option = starts_with argument (option <> "=")

-- The option, with or without its value in the same argument
abbrev attached : String → String → Bool
attached argument option = argument == option || starts_with argument option

-- An argument that consists of `-` and one letter, repeated
abbrev repeats : ℕ → String → Bool
repeats letter argument =
    starts_with argument "-" && all (λ c. c == b'-' || c == letter) (codes argument)

-- An option whose value is the next argument, and that changes only what is shown
abbrev pub takes_value : String → Bool
takes_value argument = contains ("-r" ∷ showing) argument

-- An option that narrows the session
abbrev pub is_narrowing : String → Bool
is_narrowing argument =
    any (attached argument) selecting
    || any (λ option. argument == option || assigned argument option) excluding
    || contains restricting argument

-- An option that changes only what is shown, complete in its argument
abbrev pub is_neutral : String → Bool
is_neutral argument =
    repeats b'q' argument
    || repeats b'v' argument
    || (starts_with argument "-r" && argument != "-r")
    || contains plain argument
    || any (assigned argument) showing

-- The command lines that neither narrow the session nor hold an option of unknown effect: neutral
-- options, those with a value together with it, and a separator that ends the line.
pub data IsHarmless : List String → Type 0 where
  end : IsHarmless []
  separator : IsHarmless ("--" ∷ [])
  dangling : (a : String) → a ≢ "--" → takes_value a ≡ true → IsHarmless (a ∷ [])
  operand :
      (a b : String) (rest : List String)
      → a ≢ "--"
      → takes_value a ≡ true
      → IsHarmless rest
      → IsHarmless (a ∷ (b ∷ rest))
  flag :
      (a : String) (rest : List String)
      → a ≢ "--"
      → takes_value a ≡ false
      → starts_with a "-" ≡ true
      → is_narrowing a ≡ false
      → is_neutral a ≡ true
      → IsHarmless rest
      → IsHarmless (a ∷ rest)

pub takes_neutral_operand-takes_value : (a : String) → takes_neutral_operand a ≡ takes_value a
unfolding takes_neutral_operand
takes_neutral_operand-takes_value a = refl

-- The tests of `narrows`, in the order of the options
regroup :
    (k m d i g r pk pm pd pi pg n : Bool)
    → ((k || (m || (d || (i || (g || r))))) || (pk || (pm || (pd || (pi || (pg || false))))) || n)
      ≡ ((((k || pk) || ((m || pm) || false))
            || ((d || pd) || ((i || pi) || ((g || pg) || false)))
            || r)
          || n)
regroup k m d i g r pk pm pd pi pg n = ground arith

-- The tests of `is_classified`, for an argument that does not narrow
reorder :
    (k m d i g r pk pm pd pi pg attached_r q v other assigned_value : Bool)
    → (((k || pk) || ((m || pm) || false))
        || ((d || pd) || ((i || pi) || ((g || pg) || false)))
        || r)
      ≡ false
    → (r
        || attached_r
        || q
        || v
        || other
        || assigned_value
        || (pk || (pm || (pd || (pi || (pg || false))))))
      ≡ (q || v || attached_r || other || assigned_value)
reorder k m d i g r pk pm pd pi pg attached_r q v other assigned_value h = ground (arith, h)

pub narrows-is_narrowing : (a : String) → narrows a ≡ (is_narrowing a || not (starts_with a "-"))
unfolding narrows
narrows-is_narrowing a =
    regroup (a == "-k") (a == "-m") (a == "--deselect") (a == "--ignore") (a == "--ignore-glob")
      (contains restricting a) (starts_with a "-k") (starts_with a "-m")
      (starts_with a "--deselect=") (starts_with a "--ignore=") (starts_with a "--ignore-glob=")
      (not (starts_with a "-"))

pub is_classified-is_neutral :
    (a : String) → is_narrowing a ≡ false → is_classified a ≡ is_neutral a
unfolding is_classified
is_classified-is_neutral a h =
    reorder (a == "-k") (a == "-m") (a == "--deselect") (a == "--ignore") (a == "--ignore-glob")
      (contains restricting a) (starts_with a "-k") (starts_with a "-m")
      (starts_with a "--deselect=") (starts_with a "--ignore=") (starts_with a "--ignore-glob=")
      (starts_with a "-r" && a != "-r") (repeats b'q' a) (repeats b'v' a) (contains plain a)
      (any (assigned a) showing) h
