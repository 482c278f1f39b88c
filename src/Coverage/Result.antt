-- ===== src/Coverage/Result.antt =====
-- coverage_evidence.py: the types of the coverage result.
use pyrepo_check.Base.{ℕ, String, Bool, Option, List}
use pyrepo_check.Base.Int.{ℤ}
use pyrepo_check.Config.Toml.{Number}
use pyrepo_check.Coverage.Gate.{CoverageThresholdSkipReason}

pub data CoverageStatus : Type 0 where
  passed failed guidance error : CoverageStatus

pub data CoverageScope : Type 0 where
  partial complete : CoverageScope

pub data CoverageErrorCode : Type 0 where
  unsupported_python module_unavailable unsupported_version : CoverageErrorCode
  preflight_invalid spawn_failed terminated_by_signal : CoverageErrorCode
  unsupported_parallelism data_missing unexpected_parallel_data : CoverageErrorCode
  generation_failed artifact_missing artifact_invalid : CoverageErrorCode

pub record CoverageCounts : Type 0 where
  pub covered : ℕ
  pub missing : ℕ

pub record CoverageTotals : Type 0 where
  pub statements : CoverageCounts
  pub branches : CoverageCounts

pub record FileStatementCoverage : Type 0 where
  pub covered : ℕ
  pub missing : ℕ
  pub missing_lines : List ℕ

-- An arc leads from a line to a line; a negative number is an entry or an exit.
pub record FileBranchCoverage : Type 0 where
  pub covered : ℕ
  pub missing : ℕ
  pub missing_arcs : List (ℤ × ℤ)

pub record CoverageFile : Type 0 where
  pub path : String
  pub statements : FileStatementCoverage
  pub branches : FileBranchCoverage

pub record CoverageError : Type 0 where
  pub code : CoverageErrorCode
  pub message : String

pub record CoverageThreshold : Type 0 where
  pub configured : Bool
  pub value : Option Number
  pub evaluated : Bool
  pub passed : Option Bool
  pub skipped_reason : Option CoverageThresholdSkipReason

pub record CoverageResult : Type 0 where
  pub status : CoverageStatus
  pub scope : CoverageScope
  pub evidence_complete : Bool
  pub coverage_version : Option String
  pub gate_eligible : Bool
  pub threshold : CoverageThreshold
  pub totals : Option CoverageTotals
  pub files : List CoverageFile
  pub error : Option CoverageError
