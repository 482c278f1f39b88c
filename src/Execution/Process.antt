-- ===== src/Execution/Process.antt =====
-- execution.py and repository_executor.py: what is made of the observation of one process.
use pyrepo_check.Base.{
  ℕ, ◌+◌, ◌-◌, ◌*◌, ◌/◌, ◌≤◌, ◌<◌, code, String, ◌≡◌, refl, ap, ◌↔◌, ◌⊎◌, inl, inr, true, ◌||◌,
  Option, none, some, arith, if◌then◌else◌, ◌==◌, nat_eq, string_eq, bool_eq, is_some, Bool-cases,
}
use pyrepo_check.Base.Int.{ℤ, pos, int_eq, is_negative, int_beq_iff}
use pyrepo_check.Execution.{
  ExecutedProcess, CheckExecutionErrorCode, spawn_failed, terminated_by_signal,
  check_execution_failed,
}

-- `_duration_ms`, in milliseconds rounded half up; `-` on ℕ is the `max` with 0.
unfoldable pub duration_ms : ℕ → ℕ → ℕ
duration_ms started_ns ended_ns = (ended_ns - started_ns + 500000) / 1000000

abbrev classify_returncode : Option ℤ → Option CheckExecutionErrorCode
classify_returncode none = some spawn_failed
classify_returncode (some code) =
    if is_negative code
    then some terminated_by_signal
    else if code == pos 0 || code == pos 1
    then none
    else some check_execution_failed

-- The code of the failure that `_classify_primary_error` returns; its message is not modelled.
unfoldable pub classify_primary_error : ExecutedProcess → Option CheckExecutionErrorCode
classify_primary_error process =
    if is_some process.spawn_error
    then some spawn_failed
    else classify_returncode process.returncode

-- The process ran and returned 0 or 1, the two results a check can have.
abbrev pub IsResult : Option String → Option ℤ → Type 0
IsResult spawn_error returncode =
    (spawn_error ≡ none) × ((returncode ≡ some (pos 0)) ⊎ (returncode ≡ some (pos 1)))

zero_or_one : (code : ℤ) → (code == pos 0 || code == pos 1) ≡ true → (code ≡ pos 0) ⊎ (code ≡ pos 1)
zero_or_one code e = elim (Bool-cases (code == pos 0)) [
  | inl p ↦ inl ((int_beq_iff code (pos 0)).0 p)
  | inr p ↦ inr ((int_beq_iff code (pos 1)).0 (ground (arith, e, p)))
]

classify-IsResult :
    (spawn_error : Option String) (returncode : Option ℤ)
    → (if is_some spawn_error then some spawn_failed else classify_returncode returncode) ≡ none
    → IsResult spawn_error returncode
classify-IsResult (some message) returncode e = cc
classify-IsResult none none e = cc
classify-IsResult none (some code) e =
    let result : (code == pos 0 || code == pos 1) ≡ true = ground (arith, e) in
    elim (zero_or_one code result) [
      | inl z ↦ (refl, inl (ap some z))
      | inr o ↦ (refl, inr (ap some o))
    ]

IsResult-classify :
    (spawn_error : Option String) (returncode : Option ℤ)
    → IsResult spawn_error returncode
    → (if is_some spawn_error then some spawn_failed else classify_returncode returncode) ≡ none
IsResult-classify spawn_error returncode (s, inl z) = rw (s, z) refl
IsResult-classify spawn_error returncode (s, inr o) = rw (s, o) refl

-- Only a process that ran and returned 0 or 1 is taken for a check's result; everything else, a
-- process that could not be run, one that a signal ended, or any other code, is an error.
pub classify_primary_error-IsResult :
    (process : ExecutedProcess)
    → (classify_primary_error process ≡ none) ↔ IsResult process.spawn_error process.returncode
unfolding classify_primary_error
classify_primary_error-IsResult process = (
  classify-IsResult process.spawn_error process.returncode,
  IsResult-classify process.spawn_error process.returncode,
)

-- A measured duration is at most half a millisecond from the elapsed time, and 0 for a clock that
-- went back.
pub duration_ms-bounds :
    (started_ns ended_ns : ℕ)
    → (duration_ms started_ns ended_ns * 1000000 ≤ ended_ns - started_ns + 500000)
      × (ended_ns - started_ns < duration_ms started_ns ended_ns * 1000000 + 500000)
unfolding duration_ms
duration_ms-bounds started_ns ended_ns = (omega arith, omega arith)
