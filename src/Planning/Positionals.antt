-- ===== src/Planning/Positionals.antt =====
-- planning.py: the positional arguments, Checks and targets, and the Test Shortcut.
pub mod Laws
use pyrepo_check.Base.{
  String, ◌<>◌, Bool, true, false, not, ◌&&◌, ◌||◌, Option, none, some, List, [], ◌∷◌, map, ◌==◌,
  ◌!=◌, string_eq, all, keep, is_empty, is_none, is_some, contains, Outcome, returned, raised,
  ◌>>=◌, ◌>>◌, refuse, if◌then◌else◌,
}
use pyrepo_check.Base.Text.{has_code, join, str_le, file_name}
use pyrepo_check.Base.Sorting.{sorted}
use pyrepo_check.Config.{TestShortcut, ProjectConfig}
use pyrepo_check.Config.Target.{selector_part, validate_project_target_syntax}
use pyrepo_check.Planning.{
  CheckName, pytest, RunRequest, PlanningFacts, PlanningException, PlanningErrorCode,
  invalid_arguments, unknown_check, unknown_target, unknown_test_shortcut, failure,
}
use pyrepo_check.Planning.Names.{check_named, name_eq}

-- The two generators of `_split_positionals`.
unfoldable pub requested_checks : List String → List CheckName
requested_checks [] = []
requested_checks (token ∷ tokens) = elim (check_named token) [
  | none ↦ requested_checks tokens
  | some name ↦ name ∷ requested_checks tokens
]

unfoldable pub direct_targets : List String → List String
direct_targets tokens = keep (λ token. is_none (check_named token)) tokens

unfoldable pub is_path_like : String → Bool
is_path_like token =
    has_code b'/' token
    || has_code 92 token
    || selector_part token != ""
    || has_code b'.' (file_name token)

abbrev pub available_checks_hint : String
available_checks_hint = "Available checks: ruff, annotations, annotations-fix, ty, bandit, pytest"

-- The failure for `names`, a list that is sorted already, whose tokens all look like targets or not.
abbrev pub unknown_failure : Bool → List String → PlanningException
unknown_failure path_like names =
    if path_like
    then failure unknown_target ("Unknown check(s): " <> join ", " names)
        "Check the target path or select a check name."
    else failure unknown_check ("Unknown check(s): " <> join ", " names) available_checks_hint

unfoldable pub invalid_syntax : String → Bool
invalid_syntax target = elim (validate_project_target_syntax target) [
  | returned path ↦ false
  | raised error ↦ true
]

unfoldable pub validate_direct_targets :
    List String → PlanningFacts → Outcome PlanningException (List String)
validate_direct_targets targets facts =
    let missing =
      keep (λ target. invalid_syntax target || not (contains facts.existing_positionals target))
        targets in
    if is_empty missing
    then returned targets
    else raised (
        unknown_failure (all (λ token. is_path_like token || invalid_syntax token) missing)
          (sorted str_le missing))

-- `{shortcut.name: shortcut.pytest_args for shortcut in shortcuts}[name]`: the last one counts.
unfoldable pub shortcut_args : String → List TestShortcut → Option (List String)
shortcut_args name [] = none
shortcut_args name (shortcut ∷ rest) = elim (shortcut_args name rest) [
  | some args ↦ some args
  | none ↦ if shortcut.name == name then some shortcut.pytest_args else none
]

abbrev pub unique : List String → List String
unique [] = []
unique (x ∷ xs) = let rest = unique xs in if contains xs x then rest else x ∷ rest

abbrev shortcut_hint : List String → String
shortcut_hint [] = "No Test Shortcuts are configured."
shortcut_hint (name ∷ names) = "Available Test Shortcuts: " <> join ", " (name ∷ names)

pub unknown_shortcut : String → List TestShortcut → PlanningException
unknown_shortcut name shortcuts =
    failure unknown_test_shortcut ("Unknown Test Shortcut: " <> name)
      (shortcut_hint (sorted str_le (unique (map (λ shortcut. shortcut.name) shortcuts))))

-- `set(requested) == {"pytest"}`
abbrev pub only_pytest : List CheckName → Bool
only_pytest requested = not (is_empty requested) && all (λ name. name == pytest) requested

abbrev pub found_shortcut :
    String
    → List TestShortcut
    → Option (List String)
    → Outcome PlanningException (Option (List String))
found_shortcut name shortcuts (some args) = returned (some args)
found_shortcut name shortcuts none = raised (unknown_shortcut name shortcuts)

unfoldable pub resolve_named :
    Bool → Option String → List TestShortcut → Outcome PlanningException (Option (List String))
unfolding unknown_shortcut
resolve_named misused none shortcuts = returned none
resolve_named misused (some name) shortcuts = do
  refuse misused (
      failure invalid_arguments
        "--shortcut requires an explicit pytest-only run with no direct targets or --all."
        "Use: pyrepo-check pytest --shortcut NAME")
  found_shortcut name shortcuts (shortcut_args name shortcuts)

-- A shortcut is for an explicit run of pytest alone.
abbrev pub misuses_shortcut : RunRequest → List CheckName → List String → Bool
misuses_shortcut request requested targets =
    request.all_selected || not (is_empty targets) || not (only_pytest requested)

unfoldable pub resolve_test_shortcut :
    RunRequest
    → ProjectConfig
    → List CheckName
    → List String
    → Outcome PlanningException (Option (List String))
resolve_test_shortcut request config requested targets =
    resolve_named (misuses_shortcut request requested targets) request.test_shortcut
      config.test_shortcuts
