-- ===== src/Planning/Run/Alone.antt =====
-- The Check that rewrites sources is never planned beside another.
use mathlib.Core.Bool.{false≢true}
use pyrepo_check.Base.{
  ◌≡◌, sym, ap, ◌∙◌, ◌&&◌, ◌!=◌, nat_eq, Bool, true, false, List, [], ◌∷◌, contains, length,
  returned, arith, ℕ, suc, ||-false,
}
use pyrepo_check.Config.{ProjectConfig}
use pyrepo_check.Planning.{
  CheckName, annotations_fix, RunRequest, PlanningFacts, RunPlan, CheckInvocation,
}
use pyrepo_check.Planning.Names.{name_eq, name_beq_iff}
use pyrepo_check.Planning.Run.{selects, plan_run}
use pyrepo_check.Planning.Run.Laws.{names, selects-names, names-selected}
use pyrepo_check.Planning.Run.Steps.{plan_run-Steps, check_selection-returned}

not_selected : (b : Bool) (n : ℕ) → (b && suc (suc n) != 1) ≡ false → b ≡ false
not_selected b n h = ground arith

lone :
    (name : CheckName) (selected : List CheckInvocation)
    → (selects name selected && length selected != 1) ≡ false
    → contains (names selected) name ≡ true
    → names selected ≡ name ∷ []
lone name [] h m = cc
lone name (check ∷ []) h m =
    ap (λ (n : CheckName). n ∷ []) (sym ((name_beq_iff name check.name).0 (rw ||-false at m)))
lone name (check ∷ (other ∷ rest)) h m =
    let selected : List CheckInvocation = check ∷ (other ∷ rest) in
    absurd (false≢true (sym (not_selected _ _ h) ∙ selects-names name selected ∙ m))

-- A plan with `annotations-fix`, which rewrites sources, has no other Check.
pub plan_run-annotations_fix :
    (request : RunRequest) (config : ProjectConfig) (facts : PlanningFacts) {plan : RunPlan}
    → plan_run request config facts ≡ returned plan
    → contains (names plan.checks) annotations_fix ≡ true
    → names plan.checks ≡ annotations_fix ∷ []
plan_run-annotations_fix request config facts {plan} h m =
    let s = plan_run-Steps request config facts h in
    let path : names plan.checks ≡ names s.selected = names-selected s in
    path
    ∙ lone annotations_fix s.selected
        (check_selection-returned request config s.selected s.selection_step).0 (rw path at m)
