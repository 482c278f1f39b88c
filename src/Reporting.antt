-- ===== src/Reporting.antt =====
-- reporting_schema.py and reporting.py: the report of a run and what it is checked for. The types of
-- the report are here. A literal type is checked nowhere at run time, so a role is any text.
pub mod Order
pub mod Matching
pub mod Text
pub mod Process
pub mod Dependency
pub mod Status
pub mod Pytest
use pyrepo_check.Base.{ℕ, String, Bool, Option, List, Outcome, raised, ◌<>◌}
use pyrepo_check.Base.Int.{ℤ}

pub record ReportingError : Type 0 where
  pub message : String

pub data ProcessOutcome : Type 0 where
  exited signaled spawn_failed : ProcessOutcome

-- A captured text is the list of its code points.
pub record CapturedText : Type 0 where
  pub captured : Bool
  pub text : List ℕ
  pub truncated : Bool
  pub omitted_bytes : ℕ

pub record ProcessResult : Type 0 where
  pub role : String
  pub argv : List String
  pub cwd : String
  pub outcome : ProcessOutcome
  pub exit_code : Option ℤ
  pub signal : Option ℤ
  pub duration_ms : ℕ
  pub stdout : CapturedText
  pub stderr : CapturedText
  pub error_message : Option String

-- `_invalid`
abbrev pub invalid : {A : Type 0} → String → Outcome ReportingError A
invalid message = raised (record { message = "invalid report: " <> message })
