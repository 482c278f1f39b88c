-- ===== src/Environment/Preparation/Ready.antt =====
-- What it takes for a preparation to give an environment, and what it takes to run its processes.
use pyrepo_check.Base.{
  ℕ, String, ◌≡◌, refl, sym, ap, inl, inr, true, false, not, ◌||◌, Option, none, some, List, [],
  ◌∷◌, arith, nat_eq, string_eq, bool_eq, is_none, is_some, Bool-cases, Outcome, returned, raised,
  returned-injective,
}
use mathlib.Core.Bool.{false≢true}
use pyrepo_check.Base.Int.{ℤ, pos, int_eq, int_beq_iff}
use pyrepo_check.Planning.{RunPlan}
use pyrepo_check.Execution.{ExecutedProcess}
use pyrepo_check.Environment.Dependencies.Observation.{complete_stdout, exited_with_zero}
use pyrepo_check.Environment.Preparation.{
  present, ParsedEnvironmentProbe, PreparedRepositoryEnvironment, PreparationRun, parse_uv_version,
  read_version, told,
}

raised-returned {ℓ} : {E A : Type ℓ} {e : E} {a : A} → raised e ≡ returned a → ⊥
raised-returned h = cc

is_some-none {ℓ} : {A : Type ℓ} (o : Option A) → is_some o ≡ false → o ≡ none
is_some-none none h = refl
is_some-none (some a) h = absurd (false≢true (sym h))

exited_with_zero-path : (o : Option ℤ) → exited_with_zero o ≡ true → o ≡ some (pos 0)
exited_with_zero-path none h = absurd (false≢true h)
exited_with_zero-path (some c) h = ap some ((int_beq_iff c (pos 0)).0 h)

module _ (limit : ℕ) (plan : RunPlan) (run : PreparationRun) where
  -- uv may be asked for its version: the lock is a regular file of the repository, what uv writes
  -- lies outside of it, and uv itself is there and unchanged.
  pub record Guarded : Type 0 where
    pub valid : run.invalid_presence ≡ none
    pub locked : run.lock_state ≡ present
    pub stored : run.storage_error ≡ none
    pub pinned : run.has_uv ≡ true
    pub unchanged : run.uv_changed ≡ false

  -- The process could be started and exited with 0.
  pub record Succeeded (process : ExecutedProcess) : Type 0 where
    pub started : process.spawn_error ≡ none
    pub exit : process.returncode ≡ some (pos 0)

  -- uv told its version, which is the match of a complete output.
  pub record Versioned (version : String) : Type 0 where
    pub succeeded : Succeeded run.uv_process
    pub content : List ℕ
    pub complete : complete_stdout limit run.uv_process.stdout ≡ some content
    pub matched : run.version_of content ≡ returned version

  -- Everything that an environment takes, with the version of uv and the parsed probe
  pub record Ready (version : String) (parsed : ParsedEnvironmentProbe) : Type 0 where
    pub guarded : Guarded
    pub versioned : Versioned version
    pub unchanged : run.uv_changed_again ≡ false
    pub succeeded : Succeeded run.probe_process
    pub parsing : run.parse_probe run.probe_process ≡ returned parsed
    pub accepted : run.probe_error parsed ≡ none

  -- The processes that a preparation ran, and what held before each
  pub data Attempted : List ExecutedProcess → Type 0 where
    nothing : Attempted []
    asked : Guarded → Attempted (run.uv_process ∷ [])
    probed :
        (version : String)
        → Guarded
        → Versioned version
        → run.uv_changed_again ≡ false
        → Attempted (run.uv_process ∷ (run.probe_process ∷ []))

  -- The environment of a run that is ready
  abbrev pub environment_of : String → ParsedEnvironmentProbe → PreparedRepositoryEnvironment
  environment_of version parsed = record {
    root = plan.root;
    path = parsed.environment_root;
    python = parsed.python;
    python_selection = plan.repository_python;
    manager_version = version;
  }

  pub Succeeded-of_tests :
      (process : ExecutedProcess)
      → (is_some process.spawn_error || is_none process.returncode) ≡ false
      → not (exited_with_zero process.returncode) ≡ false
      → Succeeded process
  Succeeded-of_tests process s e = record {
    started = is_some-none process.spawn_error (ground (arith, s));
    exit = exited_with_zero-path process.returncode (ground (arith, e));
  }

  pub unstarted-Succeeded :
      (process : ExecutedProcess)
      → (is_some process.spawn_error || is_none process.returncode) ≡ true
      → Succeeded process
      → ⊥
  unstarted-Succeeded process h s = false≢true (rw (s.started, s.exit) at h)

  pub failing-Succeeded :
      (process : ExecutedProcess)
      → not (exited_with_zero process.returncode) ≡ true
      → Succeeded process
      → ⊥
  failing-Succeeded process h s = false≢true (rw s.exit at h)

  pub parse-of_Versioned :
      (version : String)
      → Versioned version
      → parse_uv_version limit plan run run.uv_process ≡ returned version
  unfolding parse_uv_version
  parse-of_Versioned version v =
      rw (v.succeeded.started, v.succeeded.exit, v.complete, v.matched) refl

  told-returned :
      (version : String) (found : Outcome String String)
      → told limit plan run found ≡ returned version
      → found ≡ returned version
  told-returned version (returned found) h = ap returned (returned-injective h)
  told-returned version (raised message) h = cc

  read-Versioned :
      (version : String) (read : Option (List ℕ))
      → Succeeded run.uv_process
      → complete_stdout limit run.uv_process.stdout ≡ read
      → read_version limit plan run read ≡ returned version
      → Versioned version
  read-Versioned version none s c h = cc
  read-Versioned version (some content) s c h = record {
    succeeded = s;
    content = content;
    complete = c;
    matched = told-returned version (run.version_of content) h;
  }

  pub Versioned-of_parse :
      (version : String)
      → parse_uv_version limit plan run run.uv_process ≡ returned version
      → Versioned version
  unfolding parse_uv_version
  Versioned-of_parse version h =
      let process = run.uv_process in
      elim (Bool-cases (is_some process.spawn_error || is_none process.returncode)) [
        | inl s ↦ absurd (raised-returned (rw s at h))
        | inr s ↦ elim (Bool-cases (not (exited_with_zero process.returncode))) [
          | inl e ↦ absurd (raised-returned (rw (s, e) at h))
          | inr e ↦
              read-Versioned version (complete_stdout limit process.stdout)
                (Succeeded-of_tests process s e) refl (rw (s, e) at h)
        ]
      ]
