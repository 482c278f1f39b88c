-- ===== src/Config/Load.antt =====
-- config.py: the whole configuration, from what reading `pyproject.toml` comes to. The TOML parser
-- and the digest are parameters: they are `tomllib` and `hashlib`.
use pyrepo_check.Base.{
  String, ◌<>◌, Option, none, some, List, [], ◌∷◌, is_empty, Outcome, returned, raised, ◌>>=◌, ◌>>◌,
  refuse, traverse,
}
use pyrepo_check.Config.{CoverageConfig, ProjectConfig}
use pyrepo_check.Config.Toml.{Toml, table, Fields, end, get, string_list}
use pyrepo_check.Config.Target.{
  TargetError, found, absent, unreadable, FileTree, validate_project_target,
}
use pyrepo_check.Config.Coverage.{CoverageConfigError, configured_coverage}
use pyrepo_check.Config.Shortcuts.{ShortcutError, configured_test_shortcuts}

pub data ConfigError : Type 0 where
  platform_safety cannot_read cannot_parse tool_not_table coverage_not_table : ConfigError
  not_string_list empty_targets : String → ConfigError
  invalid_target : String → String → TargetError → ConfigError
  undetected_target : TargetError → ConfigError
  invalid_shortcut : ShortcutError → ConfigError
  invalid_coverage : CoverageConfigError → ConfigError

-- What `read_regular_file` comes to, over the bytes of the file.
pub data FileRead (Bytes : Type 0) : Type 0 where
  content : Bytes → FileRead Bytes
  no_file unsafe_platform unstable : FileRead Bytes

pub record Tables : Type 0 where
  pub tool : Fields
  pub coverage : Option Fields
  pub digest : Option String

abbrev coverage_table : Fields → String → Option Toml → Outcome ConfigError Tables
coverage_table tool digest none =
    returned (record { tool = tool; coverage = none; digest = some digest })
coverage_table tool digest (some (table fields)) =
    returned (record { tool = tool; coverage = some fields; digest = some digest })
coverage_table tool digest (some v) = raised coverage_not_table

abbrev own_table : Option Toml → Outcome ConfigError Fields
own_table none = returned end
own_table (some (table fields)) = returned fields
own_table (some v) = raised tool_not_table

-- `data.get("tool", {})`
abbrev tool_tables : String → Option Toml → Outcome ConfigError Tables
tool_tables digest none = returned (record { tool = end; coverage = none; digest = some digest })
tool_tables digest (some (table fields)) = do
  tool ← own_table (get fields "pyrepo-check")
  coverage_table tool digest (get fields "coverage")
tool_tables digest (some v) =
    returned (record { tool = end; coverage = none; digest = some digest })

module _ {Bytes : Type 0} (loads : Bytes → Option Fields) (sha256 : Bytes → String) where
  parsed_tables : Bytes → Option Fields → Outcome ConfigError Tables
  parsed_tables bytes none = raised cannot_parse
  parsed_tables bytes (some fields) = tool_tables (sha256 bytes) (get fields "tool")

  -- `_load_configuration_tables`
  unfoldable pub load_configuration_tables : FileRead Bytes → Outcome ConfigError Tables
  unfolding parsed_tables
  load_configuration_tables (content bytes) = parsed_tables bytes (loads bytes)
  load_configuration_tables no_file =
      returned (record { tool = end; coverage = none; digest = none })
  load_configuration_tables unsafe_platform = raised platform_safety
  load_configuration_tables unstable = raised cannot_read

abbrev pub lift_error {ℓ} : {E F A : Type ℓ} → (E → F) → Outcome E A → Outcome F A
lift_error f (returned a) = returned a
lift_error f (raised e) = raised (f e)

module _ (tree : FileTree) where
  listed_targets : String → Option (List String) → Outcome ConfigError (List String)
  listed_targets key none = raised (not_string_list key)
  listed_targets key (some targets) = do
    refuse (is_empty targets) (empty_targets key)
    traverse
        (λ target. lift_error (invalid_target key target) (validate_project_target tree target))
        targets

  detected : List String → Outcome ConfigError (List String)
  detected [] = returned []
  detected (target ∷ candidates) =
      let rest = detected candidates in
      let kept : Outcome ConfigError (List String) = do
        path ← lift_error undetected_target (validate_project_target tree target)
        more ← rest
        returned (path ∷ more)
      in elim (tree.lstat target) [ found ↦ kept | absent ↦ rest | unreadable ↦ kept ]

  or_root : List String → Outcome ConfigError (List String)
  or_root [] = do
    path ← lift_error undetected_target (validate_project_target tree ".")
    returned (path ∷ [])
  or_root (path ∷ paths) = returned (path ∷ paths)

  detected_targets : List String → Outcome ConfigError (List String)
  detected_targets candidates = do paths ← detected candidates; or_root paths

  -- `_configured_targets`
  unfoldable pub configured_targets :
      Fields → String → List String → Outcome ConfigError (List String)
  unfolding listed_targets detected_targets detected or_root
  configured_targets tool key candidates = elim (get tool key) [
    | some raw ↦ listed_targets key (string_list raw)
    | none ↦ detected_targets candidates
  ]

abbrev pub ruff_default_candidates : List String
ruff_default_candidates = "src" ∷ "tests" ∷ "scripts" ∷ []

abbrev pub bandit_default_candidates : List String
bandit_default_candidates = "src" ∷ []

coverage_config : String → Option Fields → Outcome ConfigError (Option CoverageConfig)
coverage_config path none = returned none
coverage_config path (some settings) = do
  fail_under ← lift_error invalid_coverage (configured_coverage settings)
  returned (some (record { config_path = path; fail_under = fail_under }))

module _ {Bytes : Type 0} (loads : Bytes → Option Fields) (sha256 : Bytes → String) where
  -- The argument is the resolved root, with what reading its `pyproject.toml` came to.
  unfoldable pub load_project_config :
      FileTree → String → FileRead Bytes → Outcome ConfigError ProjectConfig
  unfolding coverage_config
  load_project_config tree root read = do
    tables ← load_configuration_tables loads sha256 read
    ruff ← configured_targets tree tables.tool "ruff_targets" ruff_default_candidates
    bandit ← configured_targets tree tables.tool "bandit_targets" bandit_default_candidates
    shortcuts ←
        lift_error invalid_shortcut
          (configured_test_shortcuts tree (get tables.tool "test-shortcuts"))
    coverage ← coverage_config (root <> "/pyproject.toml") tables.coverage
    returned (record {
      root = root;
      ruff_targets = ruff;
      bandit_targets = bandit;
      test_shortcuts = shortcuts;
      coverage = coverage;
      pyproject_sha256 = tables.digest;
    })
