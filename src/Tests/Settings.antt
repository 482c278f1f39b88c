-- ===== src/Tests/Settings.antt =====
-- config.py on a target and on a Test Shortcut's arguments.
use pyrepo_check.Base.{String, ◌≡◌, refl, ◌↔◌, [], ◌∷◌, nat_eq, string_eq, bool_eq, returned}
use pyrepo_check.Config.Target.{
  FileTree, beneath, found, path_part, selector_part, validate_project_target,
  validate_project_target_syntax,
}
use pyrepo_check.Config.Target.Laws.{IsSafe, validate_project_target-IsSafe}
use pyrepo_check.Config.Shortcuts.{validate_test_shortcut}
use pyrepo_check.Config.Shortcuts.Laws.{IsArguments, validate_test_shortcut-IsArguments}

abbrev tree : FileTree
tree = record { resolve = λ path. beneath; lstat = λ path. found }

abbrev given : String
given = "tests/a.py::b"

accepted : validate_project_target tree given ≡ returned given
unfolding validate_project_target validate_project_target_syntax path_part selector_part
accepted = refl

validate_project_target_example : (given ≡ given) × IsSafe tree given
validate_project_target_example = validate_project_target-IsSafe tree given given accepted

validate_test_shortcut_example :
    (validate_test_shortcut tree ("tests" ∷ "-m" ∷ "not slow" ∷ []) ≡ returned tt)
    ↔ IsArguments tree [] ("tests" ∷ "-m" ∷ "not slow" ∷ [])
validate_test_shortcut_example =
    validate_test_shortcut-IsArguments tree ("tests" ∷ "-m" ∷ "not slow" ∷ [])
