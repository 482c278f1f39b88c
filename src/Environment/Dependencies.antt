-- ===== src/Environment/Dependencies.antt =====
-- repository_environment.py: the tools that the Checks are run with, and what a repository must
-- provide of them.
pub mod Laws
pub mod Observation
pub mod Range
use pyrepo_check.Base.{
  ℕ, zero, suc, ◌+◌, ◌-◌, ◌*◌, ◌/◌, ◌%◌, ◌≤◌, ◌<◌, code, String, ◌<>◌, ◌≡◌, refl, sym, ap, ◌∙◌, ◌≢◌,
  ◌↔◌, ◌⊎◌, inl, inr, Bool, true, false, not, ◌&&◌, ◌||◌, Option, none, some, List, [], ◌∷◌, ◌++◌,
  map, arith, eq_iff, ltb, leb, if◌then◌else◌, Eq, ◌==◌, ◌!=◌, nat_eq, string_eq, bool_eq, is_none,
  is_some, or_else, Bool-cases, Option-cases, &&-eq-true, ||-false, ==_refl, ==_sym, length, take,
  drop, is_empty, all, any, keep, first, length-append, length-drop, is_empty-eq-true, All,
  length-map, All-of_keep-nil, All-map, contains, contains-keep, subset, distinct, lists_equal,
  Outcome, returned, raised, ◌>>=◌, ◌>>◌, require, refuse, >>=-eq-returned, refuse-eq-returned,
  refuse-returned, returned-injective, if_is_empty-returned, >>=-cong, Outcome-cases, traverse,
  starts_with,
}
use pyrepo_check.Planning.{CheckName, CheckInvocation, RunPlan, PytestExecutionPlan}
use pyrepo_check.Execution.{
  DependencyName, ruff, ty, bandit, pytest, coverage, DependencyObservation, unobserved,
  ExecutedProcess,
}
use pyrepo_check.Environment.Versions.{
  format_numeric_version, numeric_version, numeric_at_least, numeric_before, int_digit_limit,
}

pub record CheckDependency : Type 0 where
  pub name : DependencyName
  pub module_name : String
  pub minimum : List ℕ
  pub maximum : List ℕ

abbrev dependency_beq : DependencyName → DependencyName → Bool
dependency_beq ruff ruff = true
dependency_beq ty ty = true
dependency_beq bandit bandit = true
dependency_beq pytest pytest = true
dependency_beq coverage coverage = true
dependency_beq a b = false

pub dependency_beq_iff : (a b : DependencyName) → (dependency_beq a b ≡ true) ↔ (a ≡ b)
dependency_beq_iff a b = ground arith

instance abbrev pub dependency_eq : Eq DependencyName
dependency_eq = record { beq = dependency_beq; beq_exact = dependency_beq_iff }

-- `SUPPORTED_DEPENDENCIES`, a mapping with an item for each name
abbrev pub supported_dependencies : DependencyName → CheckDependency
supported_dependencies ruff = record {
  name = ruff;
  module_name = "ruff";
  minimum = 0 ∷ 15 ∷ [];
  maximum = 1 ∷ [];
}
supported_dependencies ty = record {
  name = ty;
  module_name = "ty";
  minimum = 0 ∷ 0 ∷ 35 ∷ [];
  maximum = 0 ∷ 1 ∷ [];
}
supported_dependencies bandit = record {
  name = bandit;
  module_name = "bandit";
  minimum = 1 ∷ 9 ∷ [];
  maximum = 2 ∷ [];
}
supported_dependencies pytest = record {
  name = pytest;
  module_name = "pytest";
  minimum = 8 ∷ [];
  maximum = 9 ∷ [];
}
supported_dependencies coverage = record {
  name = coverage;
  module_name = "coverage";
  minimum = 7 ∷ 15 ∷ [];
  maximum = 8 ∷ [];
}

-- `dependency_name_for_check`; a `CheckName` is always a key, so that no ValueError is raised.
abbrev pub dependency_name_for_check : CheckName → DependencyName
dependency_name_for_check CheckName.ruff = ruff
dependency_name_for_check CheckName.annotations = ruff
dependency_name_for_check CheckName.annotations_fix = ruff
dependency_name_for_check CheckName.ty = ty
dependency_name_for_check CheckName.bandit = bandit
dependency_name_for_check CheckName.pytest = pytest

-- `selected` and `seen` of the loop
abbrev pub Selecting : Type 0
Selecting = List CheckDependency × List DependencyName

unfoldable pub select_dependency : Selecting → CheckName → Selecting
select_dependency (selected, seen) check =
    let name = dependency_name_for_check check in
    if contains seen name
    then (selected, seen)
    else (selected ++ (supported_dependencies name ∷ []), name ∷ seen)

unfoldable pub select_dependencies : List CheckName → Selecting → Selecting
select_dependencies [] state = state
select_dependencies (check ∷ checks) state =
    select_dependencies checks (select_dependency state check)

-- `required_dependencies`, which raises ValueError with this message.
unfoldable pub required_dependencies : List CheckName → Bool → Outcome String (List CheckDependency)
required_dependencies checks with_coverage =
    let (selected, seen) = select_dependencies checks ([], []) in
    if with_coverage
    then if not (contains seen pytest)
      then raised "Coverage dependency requires a selected pytest Check"
      else returned (selected ++ (supported_dependencies coverage ∷ []))
    else returned selected

abbrev pub in_range : CheckDependency → Option (List ℕ) → Bool
in_range dependency none = false
in_range dependency (some numeric) =
    numeric_at_least numeric dependency.minimum && numeric_before numeric dependency.maximum

-- `dependency_version_supported`
unfoldable pub dependency_version_supported : CheckDependency → Option String → Bool
dependency_version_supported dependency none = false
dependency_version_supported dependency (some version) =
    in_range dependency (numeric_version int_digit_limit version)

-- `_required_range`
unfoldable pub required_range : CheckDependency → String
required_range dependency =
    ">="
    <> format_numeric_version dependency.minimum
    <> ",<"
    <> format_numeric_version dependency.maximum

-- `_unattempted_dependency`
unfoldable pub unattempted_dependency : CheckDependency → DependencyObservation
unattempted_dependency dependency = record {
  name = dependency.name;
  module_name = dependency.module_name;
  required = required_range dependency;
  status = unobserved;
  version = none;
  origin = none;
  process = none;
  error = none;
}

abbrev has_coverage : Option PytestExecutionPlan → Bool
has_coverage none = false
has_coverage (some plan) = is_some plan.coverage

-- `_coverage_requested`
unfoldable pub coverage_requested : RunPlan → Bool
coverage_requested plan = any (λ (check : CheckInvocation). has_coverage check.pytest) plan.checks

-- What both `probe_repository_dependencies` and `unobserved_repository_dependencies` ask for.
unfoldable pub plan_dependencies : RunPlan → Outcome String (List CheckDependency)
plan_dependencies plan =
    required_dependencies (map (λ (check : CheckInvocation). check.name) plan.checks)
      (coverage_requested plan)

-- `unobserved_repository_dependencies`
unfoldable pub unobserved_repository_dependencies :
    RunPlan → Outcome String (List DependencyObservation)
unobserved_repository_dependencies plan =
    plan_dependencies plan >>= λ dependencies. returned (map unattempted_dependency dependencies)

-- `probe_repository_dependencies`: `run` runs the probe of one dependency, or is none if the
-- controller's uv has changed; `observe` reads what it printed.
module _ (run : CheckDependency → Option ExecutedProcess)
    (observe : CheckDependency → ExecutedProcess → DependencyObservation) where
  abbrev probed_as :
      CheckDependency
      → List CheckDependency
      → Option ExecutedProcess
      → List DependencyObservation
      → List DependencyObservation
  probed_as dependency rest none probed =
      unattempted_dependency dependency ∷ map unattempted_dependency rest
  probed_as dependency rest (some process) probed = observe dependency process ∷ probed

  unfoldable pub probe_each : List CheckDependency → List DependencyObservation
  probe_each [] = []
  probe_each (dependency ∷ rest) =
      let probed = probe_each rest in probed_as dependency rest (run dependency) probed

  unfoldable pub probe_repository_dependencies :
      RunPlan → Outcome String (List DependencyObservation)
  probe_repository_dependencies plan =
      plan_dependencies plan >>= λ dependencies. returned (probe_each dependencies)
