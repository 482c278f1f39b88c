-- ===== src/Coverage/Decision/Versions.antt =====
-- The version that an error keeps fits the error's code.
use pyrepo_check.Base.{
  ℕ, code, String, ◌≡◌, refl, inl, inr, Bool, true, false, Option, none, some, List, nat_eq,
  string_eq, bool_eq, Bool-cases, Outcome,
}
use pyrepo_check.Base.Int.{ℤ, int_eq}
use pyrepo_check.Execution.{CoveragePreflightClassification, CoverageArtifactState}
use pyrepo_check.Coverage.Gate.{}
use pyrepo_check.Coverage.Result.{CoverageErrorCode, CoverageTotals, CoverageFile}
use pyrepo_check.Coverage.Codes.{preflight_code, artifact_code, is_trusted}
use pyrepo_check.Coverage.Build.{coverage_error_version}
use pyrepo_check.Coverage.Decision.{fits_code}
use pyrepo_check.Coverage.Decision.Laws.{}

module _ (is_supported is_stable : String → Bool)
    (validate_json : List ℕ → String → Outcome String (CoverageTotals × List CoverageFile))
    (show : ℤ → String) where
  pub unsupported-fits :
      (version : Option String)
      → fits_code is_supported
          (coverage_error_version is_supported is_stable validate_json show version
            CoverageErrorCode.unsupported_version)
          CoverageErrorCode.unsupported_version
        ≡ true
  unfolding fits_code coverage_error_version
  unsupported-fits none = refl
  unsupported-fits (some version) = elim (Bool-cases (is_supported version)) [
    | inl s ↦ rw s refl
    | inr s ↦ rw (s, s) refl
  ]

  pub preflight-fits :
      (c : CoveragePreflightClassification) (version : Option String)
      → (is_trusted c ≡ false → version ≡ none)
      → elim (preflight_code c) [
        | none ↦ true
        | some code ↦
            fits_code is_supported
              (coverage_error_version is_supported is_stable validate_json show version code)
              code
      ]
        ≡ true
  unfolding preflight_code fits_code coverage_error_version
  preflight-fits CoveragePreflightClassification.supported version t = refl
  preflight-fits CoveragePreflightClassification.unsupported_python version t = refl
  preflight-fits CoveragePreflightClassification.module_unavailable version t = refl
  preflight-fits CoveragePreflightClassification.unsupported_version version t =
      unsupported-fits version
  preflight-fits CoveragePreflightClassification.preflight_invalid version t = refl
  preflight-fits CoveragePreflightClassification.spawn_failed version t = rw (t refl) refl
  preflight-fits CoveragePreflightClassification.terminated_by_signal version t = rw (t refl) refl

  pub artifact-fits :
      (state : CoverageArtifactState) (version : String)
      → is_supported version ≡ true
      → elim (artifact_code state) [
        | none ↦ true
        | some code ↦
            fits_code is_supported
              (coverage_error_version is_supported is_stable validate_json show (some version) code)
              code
      ]
        ≡ true
  unfolding artifact_code fits_code coverage_error_version
  artifact-fits CoverageArtifactState.snapshot version s = refl
  artifact-fits CoverageArtifactState.not_attempted version s = rw (s, s) refl
  artifact-fits CoverageArtifactState.unsupported_parallelism version s = rw (s, s) refl
  artifact-fits CoverageArtifactState.data_missing version s = rw (s, s) refl
  artifact-fits CoverageArtifactState.unexpected_parallel_data version s = rw (s, s) refl
  artifact-fits CoverageArtifactState.generation_failed version s = rw (s, s) refl
  artifact-fits CoverageArtifactState.artifact_missing version s = rw (s, s) refl
  artifact-fits CoverageArtifactState.artifact_invalid version s = rw (s, s) refl
  artifact-fits CoverageArtifactState.spawn_failed version s = rw (s, s) refl
  artifact-fits CoverageArtifactState.terminated_by_signal version s = rw (s, s) refl
