-- ===== src/Execution/Legacy.antt =====
-- execution.py: `execute_legacy_commands`, over how each command ran: `run` is `execute_process`
-- with the role, the directory, the runner and the clock given.
use pyrepo_check.Base.{
  ℕ, suc, code, String, ◌≡◌, refl, ◌↔◌, inl, inr, Bool, true, false, Option, none, some, List, [],
  ◌∷◌, arith, if◌then◌else◌, nat_eq, string_eq, bool_eq, Option-cases, any, All,
}
use pyrepo_check.Base.Int.{ℤ, pos, is_negative, is_positive}
use pyrepo_check.Execution.{ExecutedProcess}

-- The first positive return code
unfoldable pub first_positive : List ExecutedProcess → Option ℤ
first_positive [] = none
first_positive (p ∷ ps) = elim p.returncode [
  | some c ↦ if is_positive c then some c else first_positive ps
  | none ↦ first_positive ps
]

unfoldable pub is_failed : ExecutedProcess → Bool
is_failed p = elim p.returncode [ none ↦ true | some c ↦ is_negative c ]

unfoldable pub exit_code : List ExecutedProcess → ℤ
exit_code executed = elim (first_positive executed) [
  | some code ↦ code
  | none ↦ if any is_failed executed then pos 2 else pos 0
]

-- The process of each command; `run` is `execute_process`, on the command at a position.
abbrev pub run_commands :
    (run : ℕ → List String → ExecutedProcess) → ℕ → List (List String) → List ExecutedProcess
run_commands run position [] = []
run_commands run position (command ∷ commands) =
    run position command ∷ run_commands run (suc position) commands

unfoldable pub execute_legacy_commands :
    (run : ℕ → List String → ExecutedProcess) → List (List String) → ℤ
execute_legacy_commands run commands = exit_code (run_commands run 0 commands)

-- Every process returned 0.
unfoldable pub Succeeded : ExecutedProcess → Type 0
Succeeded p = p.returncode ≡ some (pos 0)

first_positive-is_positive :
    (ps : List ExecutedProcess) (c : ℤ) → first_positive ps ≡ some c → is_positive c ≡ true
unfolding first_positive
first_positive-is_positive [] c e = ground arith
first_positive-is_positive (p ∷ ps) c e = ground (arith, first_positive-is_positive ps c)

neither-Succeeded :
    (ps : List ExecutedProcess)
    → first_positive ps ≡ none
    → any is_failed ps ≡ false
    → All Succeeded ps
unfolding first_positive is_failed Succeeded
neither-Succeeded [] e f = tt
neither-Succeeded (p ∷ ps) e f = ground (arith, neither-Succeeded ps)

Succeeded-neither :
    (ps : List ExecutedProcess)
    → All Succeeded ps
    → (first_positive ps ≡ none) × (any is_failed ps ≡ false)
unfolding first_positive is_failed Succeeded
Succeeded-neither [] h = (refl, refl)
Succeeded-neither (p ∷ ps) h = ground (arith, Succeeded-neither ps)

-- Running the commands of the compatibility interface returns 0 exactly when every one of them ran
-- and returned 0, and never returns a negative number: a signal, or a command that could not be
-- run, is never reported as success nor passed on as its own negative code.
pub execute_legacy_commands-Succeeded :
    (run : ℕ → List String → ExecutedProcess) (commands : List (List String))
    → ((execute_legacy_commands run commands ≡ pos 0) ↔ All Succeeded (run_commands run 0 commands))
      × (is_negative (execute_legacy_commands run commands) ≡ false)
unfolding execute_legacy_commands exit_code
execute_legacy_commands-Succeeded run commands =
    let ps : List ExecutedProcess = run_commands run 0 commands in
    elim (Option-cases (first_positive ps)) [
      | inl e ↦ ground (arith, e, neither-Succeeded ps, Succeeded-neither ps)
      | inr (c, e) ↦ ground (arith, e, first_positive-is_positive ps c e, Succeeded-neither ps)
    ]
