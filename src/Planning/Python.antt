-- ===== src/Planning/Python.antt =====
-- planning.py: the Repository Python that a request names.
use pyrepo_check.Base.{
  ℕ, String, ◌<>◌, Bool, true, false, ◌&&◌, Option, none, some, List, [], ◌∷◌, ◌==◌, nat_eq, all,
  Outcome, returned, raised, if◌then◌else◌,
}
use pyrepo_check.Base.Text.{codes, is_digit, between}
use pyrepo_check.Planning.{
  RepositoryPythonSelection, default, explicit, PlanningException, invalid_arguments, failure,
}

-- `0|[1-9][0-9]*`
unfoldable pub canonical_number : List ℕ → Bool
canonical_number [] = false
canonical_number (c ∷ []) = is_digit c
canonical_number (c ∷ (d ∷ rest)) = between b'1' b'9' c && all is_digit (d ∷ rest)

-- `(?:\.(?:0|[1-9][0-9]*))?`
unfoldable pub patch_pattern : List ℕ → Bool
patch_pattern [] = true
patch_pattern (c ∷ rest) = c == b'.' && canonical_number rest

-- `3\.(?:10|11|12|13)`, and then the patch
unfoldable pub python_pattern : List ℕ → Bool
python_pattern (a ∷ (b ∷ (c ∷ (d ∷ rest)))) =
    a == b'3' && b == b'.' && c == b'1' && between b'0' b'3' d && patch_pattern rest
python_pattern _ = false

unfoldable pub select_repository_python :
    Option String → Outcome PlanningException RepositoryPythonSelection
select_repository_python none = returned default
select_repository_python (some request) =
    if python_pattern (codes request)
    then returned (explicit request)
    else raised (
        failure invalid_arguments ("Unsupported Repository Python request: " <> request)
          "Use 3.10 through 3.13, optionally with an exact patch version.")
