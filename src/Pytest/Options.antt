-- ===== src/Pytest/Options.antt =====
-- pytest_evidence.py: what the effective arguments of pytest say about its scope.
pub mod Laws
pub mod Harmless
use pyrepo_check.Base.{
  ℕ, zero, suc, ◌+◌, ◌-◌, ◌*◌, ◌/◌, ◌%◌, ◌≤◌, ◌<◌, code, String, ◌<>◌, ◌≡◌, refl, sym, ap, ◌∙◌, ◌≢◌,
  ◌↔◌, ◌⊎◌, inl, inr, Bool, true, false, not, ◌&&◌, ◌||◌, Option, none, some, List, [], ◌∷◌, ◌++◌,
  map, arith, eq_iff, ltb, leb, if◌then◌else◌, Eq, ◌==◌, ◌!=◌, nat_eq, string_eq, bool_eq, is_none,
  is_some, or_else, Bool-cases, Option-cases, &&-eq-true, ||-false, ==_refl, ==_sym, length, take,
  drop, is_empty, all, any, keep, first, length-append, length-drop, is_empty-eq-true, All,
  length-map, All-of_keep-nil, All-map, contains, contains-keep, subset, distinct, lists_equal,
  Outcome, returned, raised, ◌>>=◌, ◌>>◌, require, refuse, >>=-eq-returned, refuse-eq-returned,
  refuse-returned, returned-injective, if_is_empty-returned, >>=-cong, Outcome-cases, traverse,
  starts_with,
}
use pyrepo_check.Base.Text.{codes}

abbrev neutral_with_operand : List String
neutral_with_operand =
    "-r" ∷ "--tb" ∷ "--color" ∷ "--code-highlight" ∷ "--capture" ∷ "--durations" ∷ "--durations-min"
    ∷ []

abbrev pub known : List String
known =
    "-k" ∷ "-m" ∷ "--deselect" ∷ "--ignore" ∷ "--ignore-glob" ∷ "--lf" ∷ "--last-failed"
    ∷ "--pyargs" ∷ "--collect-only" ∷ "--setup-only" ∷ "--setup-plan" ∷ []

abbrev known_narrowing_without_operand : List String
known_narrowing_without_operand =
    "--lf" ∷ "--last-failed" ∷ "--pyargs" ∷ "--collect-only" ∷ "--setup-only" ∷ "--setup-plan" ∷ []

abbrev pub narrowing_prefixes : List String
narrowing_prefixes = "-k" ∷ "-m" ∷ "--deselect=" ∷ "--ignore=" ∷ "--ignore-glob=" ∷ []

abbrev neutral_flags : List String
neutral_flags =
    "--quiet" ∷ "--verbose" ∷ "-l" ∷ "--showlocals" ∷ "--no-showlocals" ∷ "-s"
    ∷ "--disable-warnings" ∷ "--strict-config" ∷ "--strict-markers" ∷ []

abbrev neutral_prefixes : List String
neutral_prefixes =
    "--tb=" ∷ "--color=" ∷ "--code-highlight=" ∷ "--capture=" ∷ "--durations=" ∷ "--durations-min="
    ∷ []

abbrev narrowing_with_operand : List String
narrowing_with_operand = "-k" ∷ "-m" ∷ "--deselect" ∷ "--ignore" ∷ "--ignore-glob" ∷ []

-- `argument.startswith(prefixes)`
abbrev pub starts_with_any : String → List String → Bool
starts_with_any argument prefixes = any (starts_with argument) prefixes

-- `argument and set(argument) <= {"-", chr(c)} and argument.startswith("-")`
abbrev is_repeated_flag : ℕ → String → Bool
is_repeated_flag c argument =
    starts_with argument "-" && all (λ d. d == b'-' || d == c) (codes argument)

unfoldable pub takes_neutral_operand : String → Bool
takes_neutral_operand argument = contains neutral_with_operand argument

unfoldable pub is_separator : String → Bool
is_separator argument = argument == "--"

-- An argument at which `_has_known_narrowing_argument` returns True
unfoldable pub narrows : String → Bool
narrows argument =
    contains known argument
    || starts_with_any argument narrowing_prefixes
    || not (starts_with argument "-")

-- An argument that `_has_unclassified_option` steps over by one, up to its test for `-`
unfoldable pub is_classified : String → Bool
is_classified argument =
    contains known_narrowing_without_operand argument
    || (starts_with argument "-r" && argument != "-r")
    || is_repeated_flag b'q' argument
    || is_repeated_flag b'v' argument
    || contains neutral_flags argument
    || starts_with_any argument neutral_prefixes
    || starts_with_any argument narrowing_prefixes

unfoldable pub is_option : String → Bool
is_option argument = starts_with argument "-"

unfoldable pub takes_narrowing_operand : String → Bool
takes_narrowing_operand argument = contains narrowing_with_operand argument

-- `_has_known_narrowing_argument`; past the end, where an operand is missing, the loop is over.
unfoldable pub has_known_narrowing_argument : List String → Bool
has_known_narrowing_argument [] = false
has_known_narrowing_argument (argument ∷ []) =
    if is_separator argument
    then false
    else if takes_neutral_operand argument
    then false
    else narrows argument
has_known_narrowing_argument (argument ∷ (next ∷ rest)) =
    let after_operand = has_known_narrowing_argument rest in
    let after = has_known_narrowing_argument (next ∷ rest) in
    if is_separator argument
    then true
    else if takes_neutral_operand argument
    then after_operand
    else if narrows argument
    then true
    else after

-- `_has_unclassified_option`
unfoldable pub has_unclassified_option : List String → Bool
has_unclassified_option [] = false
has_unclassified_option (argument ∷ []) =
    if is_separator argument
    then false
    else if takes_neutral_operand argument
    then false
    else if is_classified argument
    then false
    else if is_option argument
    then not (takes_narrowing_operand argument)
    else false
has_unclassified_option (argument ∷ (next ∷ rest)) =
    let after_operand = has_unclassified_option rest in
    let after = has_unclassified_option (next ∷ rest) in
    if is_separator argument
    then false
    else if takes_neutral_operand argument
    then after_operand
    else if is_classified argument
    then after
    else if is_option argument
    then if takes_narrowing_operand argument then after_operand else true
    else after
