-- ===== src/Planning/Run/Totality.antt =====
-- What `plan_run` can raise.
use pyrepo_check.Base.{
  ◌≡◌, refl, String, Bool, true, false, not, ◌||◌, ◌&&◌, Option, none, some, List, is_empty,
  is_some, returned, raised, Outcome, ◌>>=◌, refuse, if◌then◌else◌, map, nat_eq, keep, contains,
  string_eq,
}
use pyrepo_check.Base.Text.{codes, str_le}
use pyrepo_check.Base.Sorting.{sorted}
use pyrepo_check.Config.{ProjectConfig, TestShortcut}
use pyrepo_check.Planning.{
  CheckName, PlanningErrorCode, invalid_arguments, unknown_check, unknown_test_shortcut,
  unknown_target, coverage_configuration_required, unsafe_unlocked_execution, uv_project_required,
  RunRequest, PlanningFacts, CheckInvocation, PlanningException, PlanningFailure, planning_failure,
  failure, default, explicit,
}
use pyrepo_check.Planning.Names.{check_text, target_default_checks}
use pyrepo_check.Planning.Python.{python_pattern, select_repository_python}
use pyrepo_check.Planning.Positionals.{
  unknown_failure, shortcut_args, found_shortcut, invalid_syntax, validate_direct_targets,
  resolve_named, resolve_test_shortcut,
}
use pyrepo_check.Planning.Selection.{build_checks, select_checks}
use pyrepo_check.Planning.Selection.Laws.{select_checks-chosen}
use pyrepo_check.Planning.Run.{default_checks, check_selection, plan_run}

-- The codes that planning itself gives; the others belong to the configuration and to crashes.
abbrev pub is_planning_code : PlanningErrorCode → Bool
is_planning_code invalid_arguments = true
is_planning_code unknown_check = true
is_planning_code unknown_test_shortcut = true
is_planning_code unknown_target = true
is_planning_code coverage_configuration_required = true
is_planning_code unsafe_unlocked_execution = true
is_planning_code uv_project_required = true
is_planning_code code = false

-- A result, or a planning failure with such a code and a hint; never a missing key.
pub data IsDocumented {A : Type 0} : Outcome PlanningException A → Type 0 where
  result : (a : A) → IsDocumented (returned a)
  failed :
      (f : PlanningFailure)
      → is_planning_code f.code ≡ true
      → is_some f.hint ≡ true
      → IsDocumented (raised (planning_failure f))

IsDocumented-bind :
    {A B : Type 0} {m : Outcome PlanningException A} (f : A → Outcome PlanningException B)
    → IsDocumented m
    → ((a : A) → IsDocumented (f a))
    → IsDocumented (m >>= f)
IsDocumented-bind f (result a) k = k a
IsDocumented-bind f (failed e code hint) k = failed e code hint

IsDocumented-if :
    {A : Type 0} (b : Bool) (m n : Outcome PlanningException A)
    → IsDocumented m
    → IsDocumented n
    → IsDocumented (if b then m else n)
IsDocumented-if true m n h k = h
IsDocumented-if false m n h k = k

refuse-IsDocumented :
    (b : Bool) (code : PlanningErrorCode) (message hint : String)
    → is_planning_code code ≡ true
    → IsDocumented (refuse b (failure code message hint))
refuse-IsDocumented true code message hint h = failed _ h refl
refuse-IsDocumented false code message hint h = result tt

unknown_failure-IsDocumented :
    (A : Type 0) (b : Bool) (names : List String)
    → IsDocumented {A = A} (raised (unknown_failure b names))
unknown_failure-IsDocumented A true names = failed _ refl refl
unknown_failure-IsDocumented A false names = failed _ refl refl

select_repository_python-IsDocumented :
    (request : Option String) → IsDocumented (select_repository_python request)
unfolding select_repository_python
select_repository_python-IsDocumented none = result default
select_repository_python-IsDocumented (some request) =
    IsDocumented-if (python_pattern (codes request)) _ _ (result (explicit request))
      (failed _ refl refl)

resolve_named-IsDocumented :
    (misused : Bool) (name : Option String) (shortcuts : List TestShortcut)
    → IsDocumented (resolve_named misused name shortcuts)
unfolding resolve_named
resolve_named-IsDocumented misused none shortcuts = result none
resolve_named-IsDocumented true (some name) shortcuts = failed _ refl refl
resolve_named-IsDocumented false (some name) shortcuts = found (shortcut_args name shortcuts)
  where
    found : (args : Option (List String)) → IsDocumented (found_shortcut name shortcuts args)
    found none = failed _ refl refl
    found (some args) = result (some args)

resolve_test_shortcut-IsDocumented :
    (request : RunRequest) (config : ProjectConfig) (requested : List CheckName)
    (targets : List String)
    → IsDocumented (resolve_test_shortcut request config requested targets)
unfolding resolve_test_shortcut
resolve_test_shortcut-IsDocumented request config requested targets =
    resolve_named-IsDocumented _ request.test_shortcut config.test_shortcuts

validate_direct_targets-IsDocumented :
    (targets : List String) (facts : PlanningFacts)
    → IsDocumented (validate_direct_targets targets facts)
unfolding validate_direct_targets
validate_direct_targets-IsDocumented targets facts =
    IsDocumented-if
      (is_empty (
        keep (λ target. invalid_syntax target || not (contains facts.existing_positionals target))
          targets))
      _ _ (result targets)
      (unknown_failure-IsDocumented _ _ (
        sorted str_le (
          keep (λ target. invalid_syntax target || not (contains facts.existing_positionals target))
            targets)))

default_checks-IsDocumented :
    (request : RunRequest) (facts : PlanningFacts) (requested : List CheckName)
    (targets : List String)
    → IsDocumented (default_checks request facts requested targets)
unfolding default_checks
default_checks-IsDocumented request facts requested targets =
    IsDocumented-if (not (is_empty targets) && is_empty requested && not request.all_selected) _ _
      (IsDocumented-if
        (is_empty (keep (λ target. not (contains facts.existing_positionals target)) targets)) _ _
        (result target_default_checks)
        (unknown_failure-IsDocumented _ _ (
          sorted str_le
            (keep (λ target. not (contains facts.existing_positionals target)) targets))))
      (result requested)

select_checks-IsDocumented :
    (config : ProjectConfig) (targets : List String) (strict : Bool) (args : Option (List String))
    (requested : List CheckName) (all_selected : Bool)
    → IsDocumented (
        select_checks
          (build_checks config targets strict args)
          (map check_text requested)
          all_selected)
select_checks-IsDocumented config targets strict args requested all_selected =
    rw ((select_checks-chosen config targets strict args requested all_selected).1) (result _)

check_selection-IsDocumented :
    (request : RunRequest) (config : ProjectConfig) (selected : List CheckInvocation)
    → IsDocumented (check_selection request config selected)
unfolding check_selection
check_selection-IsDocumented request config selected =
    search (IsDocumented-bind, refuse-IsDocumented)

-- `plan_run` returns a plan or raises a `PlanningFailure` with a planning code and a hint. No
-- request makes it look up a Check that is not there.
pub plan_run-IsDocumented :
    (request : RunRequest) (config : ProjectConfig) (facts : PlanningFacts)
    → IsDocumented (plan_run request config facts)
unfolding plan_run
plan_run-IsDocumented request config facts =
    search
      (
        IsDocumented-bind, refuse-IsDocumented, select_repository_python-IsDocumented,
        resolve_test_shortcut-IsDocumented, validate_direct_targets-IsDocumented,
        default_checks-IsDocumented, select_checks-IsDocumented, check_selection-IsDocumented,
        result,
      )
      depth 20
