-- ===== src/Config/Shortcuts.antt =====
-- config.py: Test Shortcuts, named lists of pytest arguments with at most one `-m` and one `-k`.
pub mod Laws
use pyrepo_check.Base.{
  ℕ, code, String, Bool, true, false, not, ◌&&◌, ◌||◌, Option, none, some, List, [], ◌∷◌, ◌==◌,
  nat_eq, string_eq, leb, all, is_empty, contains, Outcome, returned, raised, ◌>>=◌, ◌>>◌, refuse,
  if◌then◌else◌,
}
use pyrepo_check.Base.Text.{codes, lstrip, is_blank, has_code, starts_with_code, is_digit, between}
use pyrepo_check.Config.{TestShortcut}
use pyrepo_check.Config.Toml.{Toml, table, Fields, end, field, string_list}
use pyrepo_check.Config.Target.{TargetError, FileTree, validate_project_target}

pub data ShortcutError : Type 0 where
  not_table : ShortcutError
  bad_name not_string_list : String → ShortcutError
  repeated_selector missing_expression nul_expression : String → ShortcutError
  empty_target : ShortcutError
  unsupported_option bad_target : String → ShortcutError

abbrev is_lower : ℕ → Bool
is_lower = between b'a' b'z'

abbrev name_code : ℕ → Bool
name_code c = is_lower c || is_digit c || c == b'_' || c == b'-'

-- `[a-z][a-z0-9_-]*`
unfoldable pub valid_name : String → Bool
valid_name String.[] = false
valid_name (String.◌∷◌ c s) = is_lower (code c) && all name_code (codes s)

abbrev pub is_selector : String → Bool
is_selector token = token == "-m" || token == "-k"

module _ (tree : FileTree) where
  unfoldable pub check_expression : String → String → Outcome ShortcutError Unit
  check_expression token operand = do
    refuse (is_blank operand || starts_with_code b'-' (lstrip operand)) (missing_expression token)
    refuse (has_code 0 operand) (nul_expression token)

  target_checked : Outcome TargetError String → String → Outcome ShortcutError Unit
  target_checked (returned path) token = returned tt
  target_checked (raised error) token = raised (bad_target token)

  unfoldable pub check_target : String → Outcome ShortcutError Unit
  unfolding target_checked
  check_target token = do
    refuse (is_blank token) empty_target
    refuse (starts_with_code b'-' token) (unsupported_option token)
    target_checked (validate_project_target tree token) token

  -- The loop of `_validate_test_shortcut`, from the selectors seen and the arguments left.
  unfoldable pub check_arguments : List String → List String → Outcome ShortcutError Unit
  check_arguments seen [] = returned tt
  check_arguments seen (token ∷ []) =
      if is_selector token
      then (do
        refuse (contains seen token) (repeated_selector token)
        raised (missing_expression token))
      else check_target token
  check_arguments seen (token ∷ (operand ∷ rest)) =
      let after_expression : Outcome ShortcutError Unit = check_arguments (token ∷ seen) rest in
      let after_target : Outcome ShortcutError Unit = check_arguments seen (operand ∷ rest) in
      if is_selector token
      then (do
        refuse (contains seen token) (repeated_selector token)
        check_expression token operand
        after_expression)
      else (do check_target token; after_target)

  unfoldable pub validate_test_shortcut : List String → Outcome ShortcutError Unit
  unfolding check_arguments check_target check_expression
  validate_test_shortcut args = check_arguments [] args

  argument_list : String → Toml → Outcome ShortcutError (List String)
  argument_list name raw = elim (string_list raw) [
    | none ↦ raised (not_string_list name)
    | some args ↦ if is_empty args then raised (not_string_list name) else returned args
  ]

  shortcut : String → Toml → Outcome ShortcutError TestShortcut
  unfolding argument_list
  shortcut name raw = do
    refuse (not (valid_name name)) (bad_name name)
    args ← argument_list name raw
    validate_test_shortcut args
    returned (record { name = name; pytest_args = args })

  shortcuts : Fields → Outcome ShortcutError (List TestShortcut)
  shortcuts end = returned []
  shortcuts (field name raw rest) =
      let more = shortcuts rest in
      do first ← shortcut name raw; others ← more; returned (first ∷ others)

  -- `_configured_test_shortcuts`
  unfoldable pub configured_test_shortcuts : Option Toml → Outcome ShortcutError (List TestShortcut)
  unfolding shortcuts shortcut
  configured_test_shortcuts none = returned []
  configured_test_shortcuts (some (table fields)) = shortcuts fields
  configured_test_shortcuts (some raw) = raised not_table
