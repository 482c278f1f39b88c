-- ===== src/Planning/Positionals/Laws.antt =====
-- What the positional arguments of an accepted request are.
use pyrepo_check.Base.{
  ◌≡◌, refl, String, true, false, not, ◌||◌, List, [], ◌∷◌, is_empty, contains, All, All-map,
  All-of_keep-nil, if_is_empty-returned, returned, arith, if◌then◌else◌, string_eq,
}
use pyrepo_check.Config.Target.{validate_project_target_syntax}
use pyrepo_check.Planning.{PlanningFacts}
use pyrepo_check.Planning.Positionals.{
  requested_checks, direct_targets, invalid_syntax, validate_direct_targets,
}

-- A target that passed: its syntax is valid, and it was found in the repository.
pub record IsAccepted (facts : PlanningFacts) (target : String) : Type 0 where
  pub syntax : (path : String) × (validate_project_target_syntax target ≡ returned path)
  pub exists_there : contains facts.existing_positionals target ≡ true

valid_syntax :
    (target : String)
    → invalid_syntax target ≡ false
    → (path : String) × (validate_project_target_syntax target ≡ returned path)
unfolding invalid_syntax
valid_syntax target h = ground arith

accepted :
    (facts : PlanningFacts) (target : String)
    → (invalid_syntax target || not (contains facts.existing_positionals target)) ≡ false
    → IsAccepted facts target
accepted facts target h = record {
  syntax = valid_syntax target (ground arith);
  exists_there = ground arith;
}

pub validate_direct_targets-IsAccepted :
    (targets : List String) (facts : PlanningFacts) {result : List String}
    → validate_direct_targets targets facts ≡ returned result
    → (result ≡ targets) × All (IsAccepted facts) targets
unfolding validate_direct_targets
validate_direct_targets-IsAccepted targets facts h =
    let (clean, same) = if_is_empty-returned _ targets _ h in
    (same, All-map (accepted facts) targets (All-of_keep-nil _ targets clean))

-- Every token is a Check name or a target.
pub positionals-nil :
    (tokens : List String)
    → is_empty tokens
      ≡ (if is_empty (requested_checks tokens) then is_empty (direct_targets tokens) else false)
unfolding requested_checks direct_targets
positionals-nil [] = refl
positionals-nil (token ∷ tokens) = ground arith
