-- ===== src/Planning/Run/Order.antt =====
-- The order in which Checks are named does not change a plan.
use mathlib.Core.Bool.{false≢true}
use pyrepo_check.Base.{
  ==_refl, ◌≡◌, refl, sym, ◌∙◌, String, not, ◌||◌, ◌&&◌, List, [], ◌∷◌, is_empty, returned, raised,
  arith, if◌then◌else◌, Bool-cases, inl, inr, contains, all, ◌==◌, Outcome, refuse, ◌>>=◌, >>=-cong,
  map,
}
use pyrepo_check.Config.{ProjectConfig}
use pyrepo_check.Planning.{CheckName, pytest, RunRequest, PlanningFacts, PlanningException}
use pyrepo_check.Planning.Names.{name_eq, check_text, target_default_checks}
use pyrepo_check.Planning.Positionals.{
  requested_checks, direct_targets, only_pytest, validate_direct_targets, resolve_test_shortcut,
}
use pyrepo_check.Planning.Positionals.Laws.{positionals-nil}
use pyrepo_check.Planning.Python.{select_repository_python}
use pyrepo_check.Planning.Selection.{build_checks, select_checks}
use pyrepo_check.Planning.Selection.Laws.{select_checks-cong}
use pyrepo_check.Planning.Run.{
  is_strict, default_checks, check_selection, coverage_scope, covered_checks, plan_run,
}

abbrev SameNames : List CheckName → List CheckName → Type 0
SameNames xs ys = (name : CheckName) → contains xs name ≡ contains ys name

is_empty-SameNames : (xs ys : List CheckName) → SameNames xs ys → is_empty xs ≡ is_empty ys
is_empty-SameNames [] [] h = refl
is_empty-SameNames [] (y ∷ ys) h = absurd (false≢true (rw ==_refl at (h y)))
is_empty-SameNames (x ∷ xs) [] h = absurd (false≢true (sym (rw ==_refl at (h x))))
is_empty-SameNames (x ∷ xs) (y ∷ ys) h = refl

-- `all (== pytest)` by membership
all-pytest :
    (xs : List CheckName)
    → all (λ name. name == pytest) xs
      ≡ not (
          contains xs CheckName.ruff
          || contains xs CheckName.annotations
          || contains xs CheckName.annotations_fix
          || contains xs CheckName.ty
          || contains xs CheckName.bandit)
all-pytest [] = refl
all-pytest (CheckName.ruff ∷ xs) = ground arith
all-pytest (CheckName.annotations ∷ xs) = ground arith
all-pytest (CheckName.annotations_fix ∷ xs) = ground arith
all-pytest (CheckName.ty ∷ xs) = ground arith
all-pytest (CheckName.bandit ∷ xs) = ground arith
all-pytest (CheckName.pytest ∷ xs) = all-pytest xs

only_pytest-SameNames : (xs ys : List CheckName) → SameNames xs ys → only_pytest xs ≡ only_pytest ys
only_pytest-SameNames xs ys h = rw (
  all-pytest xs,
  all-pytest ys,
  is_empty-SameNames xs ys h,
  h CheckName.ruff,
  h CheckName.annotations,
  h CheckName.annotations_fix,
  h CheckName.ty,
  h CheckName.bandit,
)

-- `default_checks` keeps the names it was given, or replaces them all.
default_checks-cong :
    {A : Type 0} (request other : RunRequest) (facts : PlanningFacts) (xs ys : List CheckName)
    (targets : List String) (k l : List CheckName → Outcome PlanningException A)
    → request.all_selected ≡ other.all_selected
    → is_empty xs ≡ is_empty ys
    → k xs ≡ l ys
    → ((names : List CheckName) → k names ≡ l names)
    → (default_checks request facts xs targets >>= k)
      ≡ (default_checks other facts ys targets >>= l)
unfolding default_checks
default_checks-cong request other facts xs ys targets k l same e h pointwise =
    rw (same, e)
      (elim (Bool-cases (not (is_empty targets) && is_empty ys && not other.all_selected)) [
        | inl p ↦ rw p (
            >>=-cong (if is_empty _ then returned target_default_checks else raised _) refl
              pointwise)
        | inr p ↦ rw p h
      ])

resolve-SameNames :
    (request : RunRequest) (config : ProjectConfig) (tokens : List String) (xs ys : List CheckName)
    (targets : List String)
    → SameNames xs ys
    → resolve_test_shortcut (record request { positionals = tokens }) config xs targets
      ≡ resolve_test_shortcut request config ys targets
unfolding resolve_test_shortcut
resolve-SameNames request config tokens xs ys targets h = rw (only_pytest-SameNames xs ys h)

-- The same targets in the same order, and the same Checks in any order and any number, give the
-- same plan or the same failure.
pub plan_run-SameNames :
    (request : RunRequest) (config : ProjectConfig) (facts : PlanningFacts) (tokens : List String)
    → direct_targets tokens ≡ direct_targets request.positionals
    → SameNames (requested_checks tokens) (requested_checks request.positionals)
    → plan_run (record request { positionals = tokens }) config facts
      ≡ plan_run request config facts
unfolding plan_run check_selection coverage_scope covered_checks
plan_run-SameNames request config facts tokens d h =
    let xs = requested_checks tokens in
    let ys = requested_checks request.positionals in
    let e : is_empty xs ≡ is_empty ys = is_empty-SameNames xs ys h in
    let t : is_empty tokens ≡ is_empty request.positionals =
      positionals-nil tokens ∙ rw (e, d) (sym (positionals-nil request.positionals)) in
    rw (d, t)
      (>>=-cong (refuse request.no_frozen _) refl λ _.
        >>=-cong (refuse (not facts.pyproject_exists) _) refl λ _.
          >>=-cong (select_repository_python request.repository_python) refl λ python.
            >>=-cong (resolve_test_shortcut _ config xs (direct_targets request.positionals))
              (resolve-SameNames request config tokens xs ys _ h)
              λ shortcut.
                >>=-cong (validate_direct_targets (direct_targets request.positionals) facts) refl
                  λ targets.
                    default_checks-cong (record request { positionals = tokens }) request facts xs
                      ys targets _ _ refl e
                      (>>=-cong
                        (select_checks
                          (build_checks config targets (is_strict request targets) shortcut)
                          (map check_text xs) request.all_selected)
                        (select_checks-cong config targets (is_strict request targets) shortcut xs
                          ys request.all_selected e h)
                        (λ selected. refl))
                      (λ names. refl))
