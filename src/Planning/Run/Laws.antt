-- ===== src/Planning/Run/Laws.antt =====
-- Which Checks a plan runs, and on what.
use pyrepo_check.Base.{
  ◌≡◌, refl, sym, ap, ◌∙◌, String, Bool, true, false, not, ◌||◌, ◌&&◌, Option, none, some, List, [],
  ◌∷◌, map, keep, is_empty, contains, All, returned, returned-injective, arith, if◌then◌else◌,
  ==_sym,
}
use pyrepo_check.Config.{ProjectConfig, CoverageConfig}
use pyrepo_check.Planning.{CheckName, RunRequest, PlanningFacts, RunPlan, CheckInvocation}
use pyrepo_check.Planning.Names.{
  name_eq, check_order, selectable_check_order, target_default_checks,
}
use pyrepo_check.Planning.Positionals.{requested_checks, direct_targets}
use pyrepo_check.Planning.Positionals.Laws.{
  IsAccepted, validate_direct_targets-IsAccepted, positionals-nil,
}
use pyrepo_check.Planning.Selection.{attach_coverage_plan}
use pyrepo_check.Planning.Selection.Laws.{chosen, select_checks-chosen}
use pyrepo_check.Planning.Run.{
  default_checks, selects, is_strict, covered, covered_checks, plan_run,
}
use pyrepo_check.Planning.Run.Steps.{Steps, plan_run-Steps}

-- The names that a request asks for, from its command line alone.
abbrev pub asked_names : RunRequest → List CheckName
asked_names request =
    if request.all_selected || is_empty request.positionals
    then check_order
    else if is_empty (requested_checks request.positionals)
    then target_default_checks
    else keep (contains (requested_checks request.positionals)) selectable_check_order

abbrev pub names : List CheckInvocation → List CheckName
names = map (λ check. check.name)

names-attach_coverage_plan :
    (selected : List CheckInvocation) (coverage : CoverageConfig)
    → names (attach_coverage_plan selected coverage) ≡ names selected
unfolding attach_coverage_plan
names-attach_coverage_plan [] coverage = refl
names-attach_coverage_plan (check ∷ selected) coverage =
    rw (names-attach_coverage_plan selected coverage)

names-covered :
    (enabled : Bool) (coverage : Option CoverageConfig) (selected : List CheckInvocation)
    → names (covered enabled coverage selected) ≡ names selected
names-covered false coverage selected = refl
names-covered true none selected = refl
names-covered true (some coverage) selected = names-attach_coverage_plan selected coverage

pub selects-names :
    (name : CheckName) (selected : List CheckInvocation)
    → selects name selected ≡ contains (names selected) name
selects-names name [] = refl
selects-names name (check ∷ selected) = rw (==_sym check.name name, selects-names name selected)

pub names-covered_checks :
    (request : RunRequest) (coverage : Option CoverageConfig) (strict : Bool)
    (selected : List CheckInvocation)
    → names (covered_checks request coverage strict selected) ≡ names selected
unfolding covered_checks
names-covered_checks request coverage strict selected = names-covered _ coverage selected

pub names-selected :
    {request : RunRequest} {config : ProjectConfig} {facts : PlanningFacts} {plan : RunPlan}
    (s : Steps request config facts plan)
    → names plan.checks ≡ names s.selected
names-selected {request} {config} s =
    ap (λ (p : RunPlan). names p.checks) s.plan_step
    ∙ names-covered_checks request config.coverage (is_strict request s.targets) s.selected

default_checks-returned :
    (request : RunRequest) (facts : PlanningFacts) (named : List CheckName) (targets : List String)
    {r : List CheckName}
    → default_checks request facts named targets ≡ returned r
    → r ≡ (
        if not (is_empty targets) && is_empty named && not request.all_selected
        then target_default_checks
        else named)
unfolding default_checks
default_checks-returned request facts named targets h = ground arith

chosen-asked :
    (all_selected no_positionals : Bool) (named : List CheckName) (targets : List String)
    → no_positionals ≡ (if is_empty named then is_empty targets else false)
    → chosen
        (if not (is_empty targets) && is_empty named && not all_selected
          then target_default_checks
          else named)
        all_selected
      ≡ (if all_selected || no_positionals
          then check_order
          else if is_empty named
          then target_default_checks
          else keep (contains named) selectable_check_order)
chosen-asked true e [] targets h = refl
chosen-asked false e [] [] h = rw h
chosen-asked false e [] (t ∷ ts) h = rw h
chosen-asked true e (n ∷ named) targets h = refl
chosen-asked false e (n ∷ named) [] h = rw h
chosen-asked false e (n ∷ named) (t ∷ ts) h = rw h

-- A plan runs exactly the Checks that its request asks for, once each and in the fixed order: all
-- five with `--all` or an empty command line, the four static ones if only targets are given, and
-- otherwise the named ones.
pub plan_run-names :
    (request : RunRequest) (config : ProjectConfig) (facts : PlanningFacts) {plan : RunPlan}
    → plan_run request config facts ≡ returned plan
    → names plan.checks ≡ asked_names request
plan_run-names request config facts h =
    let s = plan_run-Steps request config facts h in
    let (same, _) = validate_direct_targets-IsAccepted _ facts s.targets_step in
    let (selected, found, named, _) =
      select_checks-chosen config s.targets (is_strict request s.targets) s.shortcut s.requested
        request.all_selected in
    let asked = default_checks-returned request facts _ s.targets s.default_step in
    names-selected s
    ∙ ap names (returned-injective (sym s.select_step ∙ found))
    ∙ named
    ∙ ap (λ (r : List CheckName). chosen r request.all_selected) asked
    ∙ chosen-asked request.all_selected _ _ s.targets
        (rw same (positionals-nil request.positionals))

-- `--all`, or an empty command line, asks for the five Checks.
pub broad_names :
    (request : RunRequest) (config : ProjectConfig) (facts : PlanningFacts) {plan : RunPlan}
    → plan_run request config facts ≡ returned plan
    → (request.all_selected || is_empty request.positionals) ≡ true
    → names plan.checks ≡ check_order
broad_names request config facts h broad = plan_run-names request config facts h ∙ rw broad

-- The targets of a plan are the tokens of the command line that name no Check, each of them of
-- valid syntax and found in the repository.
pub plan_run-targets :
    (request : RunRequest) (config : ProjectConfig) (facts : PlanningFacts) {plan : RunPlan}
    → plan_run request config facts ≡ returned plan
    → (plan.targets ≡ direct_targets request.positionals) × All (IsAccepted facts) plan.targets
plan_run-targets request config facts {plan} h =
    let s = plan_run-Steps request config facts h in
    let (same, all_accepted) = validate_direct_targets-IsAccepted _ facts s.targets_step in
    let path : plan.targets ≡ direct_targets request.positionals =
      ap (λ (p : RunPlan). p.targets) s.plan_step ∙ same in
    (path, rw path all_accepted)
