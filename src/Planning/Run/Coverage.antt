-- ===== src/Planning/Run/Coverage.antt =====
-- Which coverage plan the Checks of a plan carry.
use pyrepo_check.Base.{
  String, ◌≡◌, refl, sym, ap, ◌∙◌, inl, inr, Bool, true, false, not, ◌&&◌, ◌||◌, Option, none, some,
  List, [], ◌∷◌, arith, if◌then◌else◌, ◌==◌, nat_eq, string_eq, bool_eq, Bool-cases, &&-eq-true,
  is_empty, keep, All, contains, contains-keep, returned, returned-injective,
}
use pyrepo_check.Config.{ProjectConfig, CoverageConfig}
use pyrepo_check.Planning.{
  CheckName, ruff, annotations, annotations_fix, ty, bandit, pytest, CheckInvocation,
  CoverageExecutionPlan, PytestExecutionPlan, PlannedCoverageScope, RunRequest, PlanningFacts,
  RunPlan,
}
use pyrepo_check.Planning.Names.{name_eq, check_order, selectable_check_order}
use pyrepo_check.Planning.Selection.{attach_coverage_plan, with_coverage}
use pyrepo_check.Planning.Selection.Laws.{IsBuilt, chosen, select_checks-chosen}
use pyrepo_check.Planning.Run.{
  is_strict, narrowed, coverage_enabled, coverage_scope, covered, covered_checks, plan_run,
}
use pyrepo_check.Planning.Run.Laws.{names, names-selected, selects-names, broad_names}
use pyrepo_check.Planning.Run.Steps.{plan_run-Steps, check_selection-returned}

abbrev own_coverage :
    Option PytestExecutionPlan → List CoverageExecutionPlan → List CoverageExecutionPlan
own_coverage none rest = rest
own_coverage (some plan) rest = elim plan.coverage [ none ↦ rest | some coverage ↦ coverage ∷ rest ]

-- The coverage plans that a list of Checks carries, in order.
abbrev pub coverage_plans : List CheckInvocation → List CoverageExecutionPlan
coverage_plans [] = []
coverage_plans (check ∷ checks) = own_coverage check.pytest (coverage_plans checks)

abbrev plan_of : CoverageConfig → CoverageExecutionPlan
plan_of coverage = record { config_path = coverage.config_path; fail_under = coverage.fail_under }

-- What a planned scope says that they are.
abbrev pub carries : PlannedCoverageScope → Option CoverageConfig → List CoverageExecutionPlan
carries PlannedCoverageScope.partial (some coverage) = plan_of coverage ∷ []
carries PlannedCoverageScope.complete (some coverage) = plan_of coverage ∷ []
carries scope coverage = []

-- One plan for each pytest Check.
abbrev marks : CoverageExecutionPlan → List CheckName → List CoverageExecutionPlan
marks plan [] = []
marks plan (name ∷ ns) = let rest = marks plan ns in if name == pytest then plan ∷ rest else rest

built_head :
    (b : Bool) (args : List String) {plan : Option PytestExecutionPlan}
    (rest : List CoverageExecutionPlan)
    → plan ≡ (if b then some (record { pytest_args = args; coverage = none }) else none)
    → own_coverage plan rest ≡ rest
built_head true args rest e = rw e
built_head false args rest e = rw e

attached_head :
    (b : Bool) (args : List String) (coverage : CoverageConfig) {plan : Option PytestExecutionPlan}
    (rest : List CoverageExecutionPlan)
    → plan ≡ (if b then some (record { pytest_args = args; coverage = none }) else none)
    → own_coverage (with_coverage coverage plan) rest
      ≡ (if b then plan_of coverage ∷ rest else rest)
attached_head true args coverage rest e = rw e
attached_head false args coverage rest e = rw e

coverage_plans-built :
    (checks : List CheckInvocation) → All IsBuilt checks → coverage_plans checks ≡ []
coverage_plans-built [] h = refl
coverage_plans-built (check ∷ checks) ((args, built), h) =
    built_head (check.name == pytest) args _ built ∙ coverage_plans-built checks h

coverage_plans-attached :
    (coverage : CoverageConfig) (checks : List CheckInvocation)
    → All IsBuilt checks
    → coverage_plans (attach_coverage_plan checks coverage)
      ≡ marks (plan_of coverage) (names checks)
unfolding attach_coverage_plan
coverage_plans-attached coverage [] h = refl
coverage_plans-attached coverage (check ∷ checks) ((args, built), h) =
    rw (← coverage_plans-attached coverage checks h)
      (attached_head (check.name == pytest) args coverage _ built)

marks-keep :
    (plan : CoverageExecutionPlan) (p : CheckName → Bool) (ns : List CheckName)
    → marks plan (keep p ns) ≡ (if p pytest then marks plan ns else [])
marks-keep plan p [] = elim (Bool-cases (p pytest)) [ inl e ↦ rw e | inr e ↦ rw e ]
marks-keep plan p (pytest ∷ ns) = elim (Bool-cases (p pytest)) [
  | inl e ↦
      rw e (ap (λ (rest : List CoverageExecutionPlan). plan ∷ rest) (marks-keep plan p ns ∙ rw e))
  | inr e ↦ rw e (marks-keep plan p ns ∙ rw e)
]
marks-keep plan p (ruff ∷ ns) = elim (Bool-cases (p ruff)) [
  | inl e ↦ rw e (marks-keep plan p ns)
  | inr e ↦ rw e (marks-keep plan p ns)
]
marks-keep plan p (annotations ∷ ns) = elim (Bool-cases (p annotations)) [
  | inl e ↦ rw e (marks-keep plan p ns)
  | inr e ↦ rw e (marks-keep plan p ns)
]
marks-keep plan p (annotations_fix ∷ ns) = elim (Bool-cases (p annotations_fix)) [
  | inl e ↦ rw e (marks-keep plan p ns)
  | inr e ↦ rw e (marks-keep plan p ns)
]
marks-keep plan p (ty ∷ ns) = elim (Bool-cases (p ty)) [
  | inl e ↦ rw e (marks-keep plan p ns)
  | inr e ↦ rw e (marks-keep plan p ns)
]
marks-keep plan p (bandit ∷ ns) = elim (Bool-cases (p bandit)) [
  | inl e ↦ rw e (marks-keep plan p ns)
  | inr e ↦ rw e (marks-keep plan p ns)
]

marks_either :
    (b : Bool) (plan : CoverageExecutionPlan) (p : CheckName → Bool)
    → contains (if b then check_order else keep p selectable_check_order) pytest ≡ true
    → marks plan (if b then check_order else keep p selectable_check_order) ≡ plan ∷ []
marks_either true plan p h = refl
marks_either false plan p h =
    marks-keep plan p selectable_check_order ∙ rw (contains-keep p selectable_check_order pytest h)

marks-chosen :
    (plan : CoverageExecutionPlan) (requested : List CheckName) (all_selected : Bool)
    → contains (chosen requested all_selected) pytest ≡ true
    → marks plan (chosen requested all_selected) ≡ plan ∷ []
marks-chosen plan requested all_selected h =
    marks_either (all_selected || is_empty requested) plan (contains requested) h

carries-none : (scope : PlannedCoverageScope) → carries scope none ≡ []
carries-none PlannedCoverageScope.not_requested = refl
carries-none PlannedCoverageScope.unavailable = refl
carries-none PlannedCoverageScope.partial = refl
carries-none PlannedCoverageScope.complete = refl

covered-none : (b : Bool) (selected : List CheckInvocation) → covered b none selected ≡ selected
covered-none true selected = refl
covered-none false selected = refl

covered_agrees :
    (enabled strict narrow : Bool) (coverage : CoverageConfig) (selected : List CheckInvocation)
    → All IsBuilt selected
    → (enabled ≡ true → marks (plan_of coverage) (names selected) ≡ plan_of coverage ∷ [])
    → coverage_plans (covered enabled (some coverage) selected)
      ≡ carries
          (if strict && false
            then PlannedCoverageScope.unavailable
            else if enabled
            then if narrow then PlannedCoverageScope.partial else PlannedCoverageScope.complete
            else PlannedCoverageScope.not_requested)
          (some coverage)
covered_agrees true true true coverage selected built one =
    coverage_plans-attached coverage selected built ∙ one refl
covered_agrees true true false coverage selected built one =
    coverage_plans-attached coverage selected built ∙ one refl
covered_agrees true false true coverage selected built one =
    coverage_plans-attached coverage selected built ∙ one refl
covered_agrees true false false coverage selected built one =
    coverage_plans-attached coverage selected built ∙ one refl
covered_agrees false true narrow coverage selected built one = coverage_plans-built selected built
covered_agrees false false narrow coverage selected built one = coverage_plans-built selected built

-- The carried plans and the planned scope agree, once the refusals have passed.
coverage_plans-scope :
    (request : RunRequest) (coverage : Option CoverageConfig) (strict : Bool)
    (targets : List String) (shortcut : Option (List String)) (selected : List CheckInvocation)
    → All IsBuilt selected
    → ((plan : CoverageExecutionPlan)
        → coverage_enabled request coverage strict ≡ true
        → marks plan (names selected) ≡ plan ∷ [])
    → coverage_plans (covered_checks request coverage strict selected)
      ≡ carries (coverage_scope request coverage strict targets shortcut) coverage
unfolding covered_checks coverage_scope
coverage_plans-scope request none strict targets shortcut selected built one =
    rw (covered-none _ selected, coverage_plans-built selected built) (sym (carries-none _))
coverage_plans-scope request (some coverage) strict targets shortcut selected built one =
    covered_agrees (coverage_enabled request (some coverage) strict) strict
      (narrowed targets shortcut) coverage selected built (one (plan_of coverage))

-- Coverage is enabled only for a selection with pytest in it.
enabled-pytest :
    (request : RunRequest) (some_coverage strict selects_pytest : Bool)
    → (request.coverage_requested && not selects_pytest) ≡ false
    → (strict ≡ true → selects_pytest ≡ true)
    → (request.coverage_requested || (strict && some_coverage)) ≡ true
    → selects_pytest ≡ true
enabled-pytest request some_coverage true selects_pytest h k enabled = k refl
enabled-pytest request some_coverage false selects_pytest h k enabled = ground arith

-- A plan's Checks carry the configured coverage settings, once, if its planned coverage scope is
-- partial or complete, and no coverage plan if that scope is unavailable or not requested.
pub plan_run-coverage :
    (request : RunRequest) (config : ProjectConfig) (facts : PlanningFacts) {plan : RunPlan}
    → plan_run request config facts ≡ returned plan
    → coverage_plans plan.checks ≡ carries plan.planned_coverage_scope config.coverage
plan_run-coverage request config facts {plan} h =
    let s = plan_run-Steps request config facts h in
    let (selected, found, named, built) =
      select_checks-chosen config s.targets (is_strict request s.targets) s.shortcut s.requested
        request.all_selected in
    let same : selected ≡ s.selected = sym (returned-injective (sym s.select_step ∙ found)) in
    let path : names s.selected ≡ chosen s.requested request.all_selected =
      ap names (sym same) ∙ named in
    let with_pytest : coverage_enabled request config.coverage (is_strict request s.targets) ≡ true
        → contains (names s.selected) pytest ≡ true =
      λ enabled.
        enabled-pytest request _ (is_strict request s.targets) _
          (rw selects-names at
            ((check_selection-returned request config s.selected s.selection_step).1))
          (λ strict.
            ap (λ (ns : List CheckName). contains ns pytest)
              (sym (names-selected s)
                ∙ broad_names request config facts h (&&-eq-true (is_empty s.targets) _ strict).1))
          enabled in
    ap (λ (p : RunPlan). coverage_plans p.checks) s.plan_step
    ∙ coverage_plans-scope request config.coverage (is_strict request s.targets) s.targets
        s.shortcut s.selected (rw same at built)
        (λ carried enabled. rw path (
          marks-chosen carried s.requested request.all_selected (rw path at (with_pytest enabled))))
    ∙ sym (ap (λ (p : RunPlan). carries p.planned_coverage_scope config.coverage) s.plan_step)
