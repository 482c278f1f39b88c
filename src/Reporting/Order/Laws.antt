-- ===== src/Reporting/Order/Laws.antt =====
-- The orders that the walk accepts, told without its state.
use pyrepo_check.Base.{
  ℕ, zero, suc, String, ◌≡◌, refl, sym, ap, ◌∙◌, ◌↔◌, ◌⊎◌, inl, inr, Bool, true, false, List, [],
  ◌∷◌, map, arith, eq_iff, ◌==◌, nat_eq, string_eq, bool_eq, Bool-cases, is_empty, first,
  is_empty-eq-true, Outcome, returned, ◌>>=◌, >>=-eq-returned, returned-injective, >>=-cong,
}
use mathlib.Core.Path.{subst}
use pyrepo_check.Reporting.{ReportingError, ProcessResult}
use pyrepo_check.Reporting.Order.{
  OrderPhase, safety, uv, environment, is_safety, is_uv, order_step, order_walk,
  validate_environment_process_order_v2,
}

-- What was run after the first safety processes, and whether the state was verified at the end.
pub data EnvironmentRun : Type 0 where
  safety_only : EnvironmentRun
  version_asked : Bool → EnvironmentRun
  environment_probed : Bool → EnvironmentRun

abbrev verification : Bool → List String
verification true = "repository_safety" ∷ []
verification false = []

-- The roles of a run that begins with `n` safety processes.
abbrev pub roles_of : ℕ → EnvironmentRun → List String
roles_of (suc n) run = "repository_safety" ∷ roles_of n run
roles_of zero safety_only = []
roles_of zero (version_asked verified) = "uv_version" ∷ verification verified
roles_of zero (environment_probed verified) =
    "uv_version" ∷ ("environment_probe" ∷ verification verified)

-- The walk over the roles alone
unfoldable walk : OrderPhase → Bool → List String → Outcome ReportingError Unit
walk phase trailing [] = returned tt
walk phase trailing (role ∷ rest) =
    order_step phase trailing role (is_empty rest) >>= λ (state : OrderPhase × Bool).
    walk state.0 state.1 rest

abbrev roles : List ProcessResult → List String
roles processes = map (λ (process : ProcessResult). process.role) processes

is_empty-roles : (processes : List ProcessResult) → is_empty (roles processes) ≡ is_empty processes
is_empty-roles [] = refl
is_empty-roles (process ∷ rest) = refl

order_walk-roles :
    (phase : OrderPhase) (trailing : Bool) (processes : List ProcessResult)
    → order_walk phase trailing processes ≡ walk phase trailing (roles processes)
unfolding order_walk walk
order_walk-roles phase trailing [] = refl
order_walk-roles phase trailing (process ∷ rest) =
    >>=-cong (order_step phase trailing process.role (is_empty rest))
      (ap (order_step phase trailing process.role) (sym (is_empty-roles rest)))
      (λ state. order_walk-roles state.0 state.1 rest)

-- What an accepted step says.
data Stepped (phase : OrderPhase) (trailing : Bool) (role : String) (is_last : Bool)
    (state : OrderPhase × Bool) : Type 0 where
  first_safety :
      role ≡ "repository_safety"
      → is_safety phase ≡ true
      → state ≡ (phase, trailing)
      → Stepped phase trailing role is_last state
  last_safety :
      role ≡ "repository_safety" → is_last ≡ true → Stepped phase trailing role is_last state
  asked :
      role ≡ "uv_version"
      → is_safety phase ≡ true
      → state ≡ (uv, trailing)
      → Stepped phase trailing role is_last state
  probed :
      role ≡ "environment_probe"
      → is_uv phase ≡ true
      → state ≡ (environment, trailing)
      → Stepped phase trailing role is_last state

order_step-Stepped :
    (phase : OrderPhase) (trailing : Bool) (role : String) (is_last : Bool)
    (state : OrderPhase × Bool)
    → order_step phase trailing role is_last ≡ returned state
    → Stepped phase trailing role is_last state
unfolding order_step
order_step-Stepped phase trailing role is_last state h =
    elim (Bool-cases (role == "repository_safety")) [
      | inl s ↦ elim (Bool-cases (is_safety phase)) [
        | inl first ↦
            first_safety ((eq_iff role "repository_safety").0 s) first
              (sym (returned-injective (rw (s, first) at h)))
        | inr later ↦
            last_safety ((eq_iff role "repository_safety").0 s) (ground (arith, h, s, later))
      ]
      | inr s ↦ elim (Bool-cases (role == "uv_version")) [
        | inl u ↦ elim (Bool-cases (is_safety phase)) [
          | inl first ↦
              asked ((eq_iff role "uv_version").0 u) first
                (sym (returned-injective (rw (s, u, first) at h)))
          | inr later ↦ ground (arith, h, s, u, later)
        ]
        | inr u ↦ elim (Bool-cases (role == "environment_probe")) [
          | inl p ↦ elim (Bool-cases (is_uv phase)) [
            | inl first ↦
                probed ((eq_iff role "environment_probe").0 p) first
                  (sym (returned-injective (rw (s, u, p, first) at h)))
            | inr later ↦ ground (arith, h, s, u, p, later)
          ]
          | inr p ↦ ground (arith, h, s, u, p)
        ]
      ]
    ]

walk-cons :
    (phase : OrderPhase) (trailing : Bool) (role : String) (rest : List String)
    → walk phase trailing (role ∷ rest) ≡ returned tt
    → (state : OrderPhase × Bool) × Stepped phase trailing role (is_empty rest) state
      × (walk state.0 state.1 rest ≡ returned tt)
unfolding walk
walk-cons phase trailing role rest h =
    let (state, stepped, walked) =
      >>=-eq-returned (order_step phase trailing role (is_empty rest))
        (λ (state : OrderPhase × Bool). walk state.0 state.1 rest) h in
    (state, order_step-Stepped phase trailing role (is_empty rest) state stepped, walked)

cons-cong : {a b : String} {xs ys : List String} → a ≡ b → xs ≡ ys → a ∷ xs ≡ b ∷ ys
cons-cong {a} {b} {xs} {ys} p q = ap (λ c. c ∷ xs) p ∙ ap (λ zs. b ∷ zs) q

walk_at :
    {state state' : OrderPhase × Bool} (rest : List String)
    → state ≡ state'
    → walk state.0 state.1 rest ≡ returned tt
    → walk state'.0 state'.1 rest ≡ returned tt
walk_at rest t walked =
    subst (λ (state : OrderPhase × Bool). walk state.0 state.1 rest ≡ returned tt) t walked

one_verification :
    (role : String) (rest : List String)
    → role ≡ "repository_safety"
    → is_empty rest ≡ true
    → role ∷ rest ≡ verification true
one_verification role rest s e = rw (s, is_empty-eq-true rest e) refl

-- Once probed, at most the verification follows.
walk-environment :
    (trailing : Bool) (rest : List String)
    → walk environment trailing rest ≡ returned tt
    → (verified : Bool) × (rest ≡ verification verified)
walk-environment trailing [] h = (false, refl)
walk-environment trailing (role ∷ rest) h =
    let (state, stepped, walked) = walk-cons environment trailing role rest h in
    elim stepped [
      | first_safety s p t ↦ cc
      | last_safety s e ↦ (true, one_verification role rest s e)
      | asked u p t ↦ cc
      | probed u p t ↦ cc
    ]

walk-uv :
    (trailing : Bool) (rest : List String)
    → walk uv trailing rest ≡ returned tt
    → (verified : Bool) × ((rest ≡ verification verified)
        ⊎ (rest ≡ "environment_probe" ∷ verification verified))
walk-uv trailing [] h = (false, inl refl)
walk-uv trailing (role ∷ rest) h =
    let (state, stepped, walked) = walk-cons uv trailing role rest h in
    elim stepped [
      | first_safety s p t ↦ cc
      | last_safety s e ↦ (true, inl (one_verification role rest s e))
      | asked u p t ↦ cc
      | probed u p t ↦
          let (verified, q) = walk-environment trailing rest (walk_at rest t walked) in
          (verified, inr (cons-cong u q))
    ]

walk-safety :
    (trailing : Bool) (rest : List String)
    → walk safety trailing rest ≡ returned tt
    → (n : ℕ) × (run : EnvironmentRun) × (rest ≡ roles_of n run)
walk-safety trailing [] h = (0, safety_only, refl)
walk-safety trailing (role ∷ rest) h =
    let (state, stepped, walked) = walk-cons safety trailing role rest h in
    elim stepped [
      | first_safety s p t ↦
          let (n, run, q) = walk-safety trailing rest (walk_at rest t walked) in
          (suc n, run, cons-cong s q)
      | last_safety s e ↦ (1, safety_only, one_verification role rest s e)
      | asked u p t ↦
          (let (verified, q) = walk-uv trailing rest (walk_at rest t walked) in
            elim q [
              | inl done ↦ (0, version_asked verified, cons-cong u done)
              | inr more ↦ (0, environment_probed verified, cons-cong u more)
            ])
      | probed u p t ↦ cc
    ]

walk-roles_of : (n : ℕ) (run : EnvironmentRun) → walk safety false (roles_of n run) ≡ returned tt
unfolding walk order_step
walk-roles_of zero safety_only = refl
walk-roles_of zero (version_asked true) = refl
walk-roles_of zero (version_asked false) = refl
walk-roles_of zero (environment_probed true) = refl
walk-roles_of zero (environment_probed false) = refl
walk-roles_of (suc n) run = walk-roles_of n run

-- The processes of an environment are accepted exactly if their roles are any number of safety
-- processes, or those, the question for uv's version, perhaps the probe of the environment, and
-- perhaps one safety process at the end.
pub validate_environment_process_order_v2-roles_of :
    (processes : List ProcessResult)
    → (validate_environment_process_order_v2 processes ≡ returned tt) ↔ (
        (n : ℕ) × (run : EnvironmentRun) × (map
            (λ (process : ProcessResult). process.role)
            processes
          ≡ roles_of n run))
unfolding validate_environment_process_order_v2
validate_environment_process_order_v2-roles_of processes = (
  λ h. walk-safety false (roles processes) (sym (order_walk-roles safety false processes) ∙ h),
  λ (n, run, q).
      order_walk-roles safety false processes ∙ ap (walk safety false) q ∙ walk-roles_of n run,
)
