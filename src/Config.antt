-- ===== src/Config.antt =====
-- config.py: the project's configuration, read from `pyproject.toml` and checked before a run.
-- The record types are here; the children hold the readers.
pub mod Toml
pub mod Target
pub mod Coverage
pub mod Shortcuts
pub mod Load
use pyrepo_check.Base.{String, Option, List}
use pyrepo_check.Config.Toml.{Number}

pub record TestShortcut : Type 0 where
  pub name : String
  pub pytest_args : List String

pub record CoverageConfig : Type 0 where
  pub config_path : String
  pub fail_under : Option Number

pub record ProjectConfig : Type 0 where
  pub root : String
  pub ruff_targets : List String
  pub bandit_targets : List String
  pub test_shortcuts : List TestShortcut
  pub coverage : Option CoverageConfig
  pub pyproject_sha256 : Option String
