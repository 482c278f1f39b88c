-- ===== src/Planning/Run/Strict.antt =====
-- What a strict aggregate run covers.
use pyrepo_check.Base.{
  ◌≡◌, refl, sym, ap, ◌∙◌, String, Bool, true, false, not, ◌||◌, Option, none, some, List, [], ◌∷◌,
  is_empty, returned, arith, if◌then◌else◌, returned-injective, &&-eq-true, contains,
  is_empty-eq-true,
}
use pyrepo_check.Config.{ProjectConfig, TestShortcut}
use pyrepo_check.Planning.{
  CheckName, pytest, focused, strict_aggregate, PlannedTestScope, RunRequest, PlanningFacts,
  RunPlan,
}
use pyrepo_check.Planning.Names.{name_eq, check_order}
use pyrepo_check.Planning.Positionals.{
  requested_checks, direct_targets, only_pytest, resolve_named, resolve_test_shortcut,
}
use pyrepo_check.Planning.Run.{is_strict, plan_run, pytest_scope, coverage_scope, selects}
use pyrepo_check.Planning.Run.Laws.{names, names-selected, selects-names, broad_names}
use pyrepo_check.Planning.Run.Steps.{plan_run-Steps}

strict_mode : (b : Bool) → (if b then strict_aggregate else focused) ≡ strict_aggregate → b ≡ true
strict_mode true h = refl
strict_mode false h = cc

misused-returned :
    (name : Option String) (shortcuts : List TestShortcut) {result : Option (List String)}
    → resolve_named true name shortcuts ≡ returned result
    → result ≡ none
unfolding resolve_named
misused-returned none shortcuts h = sym (returned-injective h)
misused-returned (some name) shortcuts h = cc

misuses-broad :
    (all_selected : Bool) (tokens targets : List String)
    → (all_selected || is_empty tokens) ≡ true
    → (all_selected || not (is_empty targets) || not (only_pytest (requested_checks tokens))) ≡ true
unfolding requested_checks
misuses-broad true tokens targets h = refl
misuses-broad false [] targets h = ground arith
misuses-broad false (token ∷ tokens) targets h = cc

-- A request with `--all`, or with no positional, takes no shortcut.
no_shortcut :
    (request : RunRequest) (config : ProjectConfig) {shortcut : Option (List String)}
    → (request.all_selected || is_empty request.positionals) ≡ true
    → resolve_test_shortcut request config
        (requested_checks request.positionals)
        (direct_targets request.positionals)
      ≡ returned shortcut
    → shortcut ≡ none
unfolding resolve_test_shortcut
no_shortcut request config broad h =
    misused-returned request.test_shortcut config.test_shortcuts
      (rw (misuses-broad request.all_selected request.positionals _ broad) at h)

-- A strict aggregate plan has no targets, runs the five Checks in order, takes no shortcut and
-- covers all tests.
pub plan_run-strict :
    (request : RunRequest) (config : ProjectConfig) (facts : PlanningFacts) {plan : RunPlan}
    → plan_run request config facts ≡ returned plan
    → plan.mode ≡ strict_aggregate
    → (plan.targets ≡ [])
      × (names plan.checks ≡ check_order)
      × (plan.test_shortcut ≡ none)
      × (plan.planned_test_scope ≡ PlannedTestScope.complete)
      × (plan.pytest_args ≡ some [])
unfolding pytest_scope
plan_run-strict request config facts {plan} h m =
    let s = plan_run-Steps request config facts h in
    let strict : is_strict request s.targets ≡ true =
      strict_mode _ (ap (λ (p : RunPlan). p.mode) (sym s.plan_step) ∙ m) in
    let (no_targets, broad) = &&-eq-true (is_empty s.targets) _ strict in
    let target_path : s.targets ≡ [] = is_empty-eq-true s.targets no_targets in
    let shortcut_path : s.shortcut ≡ none = no_shortcut request config broad s.shortcut_step in
    let all_names : names plan.checks ≡ check_order = broad_names request config facts h broad in
    let has_pytest : selects pytest s.selected ≡ true =
      selects-names pytest s.selected
      ∙ ap (λ (ns : List CheckName). contains ns pytest) (sym (names-selected s) ∙ all_names) in
    (
      ap (λ (p : RunPlan). p.targets) s.plan_step ∙ target_path,
      all_names,
      ap (λ (p : RunPlan). p.test_shortcut) s.plan_step ∙ rw shortcut_path,
      ap (λ (p : RunPlan). p.planned_test_scope) s.plan_step
          ∙ rw (has_pytest, shortcut_path, target_path),
      ap (λ (p : RunPlan). p.pytest_args) s.plan_step ∙ rw (has_pytest, shortcut_path, target_path),
    )

-- The coverage scope of a strict aggregate plan is that of a request without targets and shortcut.
pub planned_coverage_scope-strict :
    (request : RunRequest) (config : ProjectConfig) (facts : PlanningFacts) {plan : RunPlan}
    → plan_run request config facts ≡ returned plan
    → plan.mode ≡ strict_aggregate
    → (strict_all : Bool) × (plan.planned_coverage_scope
        ≡ coverage_scope request config.coverage strict_all [] none)
planned_coverage_scope-strict request config facts {plan} h m =
    let s = plan_run-Steps request config facts h in
    let strict : is_strict request s.targets ≡ true =
      strict_mode _ (ap (λ (p : RunPlan). p.mode) (sym s.plan_step) ∙ m) in
    let (no_targets, broad) = &&-eq-true (is_empty s.targets) _ strict in
    let target_path : s.targets ≡ [] = is_empty-eq-true s.targets no_targets in
    let shortcut_path : s.shortcut ≡ none = no_shortcut request config broad s.shortcut_step in
    (
      is_strict request s.targets,
      ap (λ (p : RunPlan). p.planned_coverage_scope) s.plan_step
          ∙ rw (shortcut_path, target_path) refl,
    )
