-- ===== src/Planning/Names.antt =====
-- planning.py: the Check names as text, and their orders.
use pyrepo_check.Base.{
  ◌≡◌, ◌↔◌, String, Bool, true, false, Option, none, some, List, [], ◌∷◌, Eq, ◌==◌, string_eq,
  arith, if◌then◌else◌,
}
use pyrepo_check.Planning.{CheckName, ruff, annotations, annotations_fix, ty, bandit, pytest}

abbrev pub check_text : CheckName → String
check_text ruff = "ruff"
check_text annotations = "annotations"
check_text annotations_fix = "annotations-fix"
check_text ty = "ty"
check_text bandit = "bandit"
check_text pytest = "pytest"

abbrev name_beq : CheckName → CheckName → Bool
name_beq ruff ruff = true
name_beq annotations annotations = true
name_beq annotations_fix annotations_fix = true
name_beq ty ty = true
name_beq bandit bandit = true
name_beq pytest pytest = true
name_beq a b = false

pub name_beq_iff : (a b : CheckName) → (name_beq a b ≡ true) ↔ (a ≡ b)
name_beq_iff a b = ground arith

instance abbrev pub name_eq : Eq CheckName
name_eq = record { beq = name_beq; beq_exact = name_beq_iff }

abbrev pub check_order : List CheckName
check_order = ruff ∷ annotations ∷ ty ∷ bandit ∷ pytest ∷ []

abbrev pub selectable_check_order : List CheckName
selectable_check_order = ruff ∷ annotations ∷ ty ∷ bandit ∷ pytest ∷ annotations_fix ∷ []

abbrev pub target_default_checks : List CheckName
target_default_checks = ruff ∷ annotations ∷ ty ∷ bandit ∷ []

-- The Check that a token names.
unfoldable pub check_named : String → Option CheckName
check_named token =
    if token == "ruff"
    then some ruff
    else if token == "annotations"
    then some annotations
    else if token == "annotations-fix"
    then some annotations_fix
    else if token == "ty"
    then some ty
    else if token == "bandit"
    then some bandit
    else if token == "pytest"
    then some pytest
    else none
