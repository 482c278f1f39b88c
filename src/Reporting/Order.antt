-- ===== src/Reporting/Order.antt =====
-- reporting.py: the order of the processes that prepared the repository's environment.
pub mod Laws
use pyrepo_check.Base.{
  ℕ, zero, suc, ◌+◌, ◌-◌, ◌*◌, ◌/◌, ◌%◌, ◌≤◌, ◌<◌, code, String, ◌<>◌, ◌≡◌, refl, sym, ap, ◌∙◌, ◌≢◌,
  ◌↔◌, ◌⊎◌, inl, inr, Bool, true, false, not, ◌&&◌, ◌||◌, Option, none, some, List, [], ◌∷◌, ◌++◌,
  map, arith, eq_iff, ltb, leb, if◌then◌else◌, Eq, ◌==◌, ◌!=◌, nat_eq, string_eq, bool_eq, is_none,
  is_some, or_else, Bool-cases, Option-cases, &&-eq-true, ||-false, ==_refl, ==_sym, length, take,
  drop, is_empty, all, any, keep, first, length-append, length-drop, is_empty-eq-true, All,
  length-map, All-of_keep-nil, All-map, contains, contains-keep, subset, distinct, lists_equal,
  Outcome, returned, raised, ◌>>=◌, ◌>>◌, require, refuse, >>=-eq-returned, refuse-eq-returned,
  refuse-returned, returned-injective, if_is_empty-returned, >>=-cong, Outcome-cases, traverse,
  starts_with,
}
use pyrepo_check.Reporting.{ReportingError, ProcessResult, invalid}

-- `phase` of the loop
pub data OrderPhase : Type 0 where
  safety uv environment : OrderPhase

abbrev is_safety : OrderPhase → Bool
is_safety safety = true
is_safety uv = false
is_safety environment = false

abbrev is_uv : OrderPhase → Bool
is_uv uv = true
is_uv safety = false
is_uv environment = false

-- One turn of the loop: the phase and `trailing_safety` after a process of this role.
unfoldable pub order_step :
    OrderPhase → Bool → String → Bool → Outcome ReportingError (OrderPhase × Bool)
order_step phase trailing_safety role is_last =
    if role == "repository_safety"
    then if is_safety phase
      then returned (phase, trailing_safety)
      else if is_last && not trailing_safety
      then returned (phase, true)
      else invalid "repository safety processes use an invalid order"
    else if role == "uv_version"
    then if is_safety phase
      then returned (uv, trailing_safety)
      else invalid "uv version process uses an invalid order"
    else if role == "environment_probe"
    then if is_uv phase
      then returned (environment, trailing_safety)
      else invalid "environment probe must follow uv version"
    else invalid "repository environment contains a non-environment process role"

unfoldable pub order_walk : OrderPhase → Bool → List ProcessResult → Outcome ReportingError Unit
order_walk phase trailing_safety [] = returned tt
order_walk phase trailing_safety (process ∷ rest) =
    order_step phase trailing_safety process.role (is_empty rest) >>= λ (state : OrderPhase × Bool).
    order_walk state.0 state.1 rest

-- `_validate_environment_process_order_v2`
unfoldable pub validate_environment_process_order_v2 :
    List ProcessResult → Outcome ReportingError Unit
validate_environment_process_order_v2 processes = order_walk safety false processes
