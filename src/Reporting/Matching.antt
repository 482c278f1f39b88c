-- ===== src/Reporting/Matching.antt =====
-- reporting.py: which observation belongs to which planned Check.
pub mod Laws
use pyrepo_check.Base.{
  ℕ, zero, suc, ◌+◌, ◌-◌, ◌*◌, ◌/◌, ◌%◌, ◌≤◌, ◌<◌, code, String, ◌<>◌, ◌≡◌, refl, sym, ap, ◌∙◌, ◌≢◌,
  ◌↔◌, ◌⊎◌, inl, inr, Bool, true, false, not, ◌&&◌, ◌||◌, Option, none, some, List, [], ◌∷◌, ◌++◌,
  map, arith, eq_iff, ltb, leb, if◌then◌else◌, Eq, ◌==◌, ◌!=◌, nat_eq, string_eq, bool_eq, is_none,
  is_some, or_else, Bool-cases, Option-cases, &&-eq-true, ||-false, ==_refl, ==_sym, length, take,
  drop, is_empty, all, any, keep, first, length-append, length-drop, is_empty-eq-true, All,
  length-map, All-of_keep-nil, All-map, contains, contains-keep, subset, distinct, lists_equal,
  Outcome, returned, raised, ◌>>=◌, ◌>>◌, require, refuse, >>=-eq-returned, refuse-eq-returned,
  refuse-returned, returned-injective, if_is_empty-returned, >>=-cong, Outcome-cases, traverse,
  starts_with,
}
use pyrepo_check.Planning.{CheckInvocation}
use pyrepo_check.Planning.Names.{check_text}
use pyrepo_check.Execution.{RepositoryCheckObservation}
use pyrepo_check.Reporting.{ReportingError}

-- `matched`, by the index of the planned Check
abbrev pub Matched : Type 0
Matched = List (ℕ × RepositoryCheckObservation)

-- `equal` is `==` on invocations, which compares all their fields.
module _ (equal : CheckInvocation → CheckInvocation → Bool) where
  -- The first index from `index` on at which this invocation is planned, and what is planned after
  -- it; the plan is given from `index` on.
  unfoldable pub find_from :
      CheckInvocation → ℕ → List CheckInvocation → Option (ℕ × List CheckInvocation)
  find_from invocation index [] = none
  find_from invocation index (planned ∷ rest) =
      let later = find_from invocation (suc index) rest in
      if equal planned invocation then some (index, rest) else later

  abbrev found :
      RepositoryCheckObservation
      → Option (ℕ × List CheckInvocation)
      → Outcome ReportingError (ℕ × List CheckInvocation)
  found observation none = raised (record {
    message =
        "unexpected, mismatched, or out-of-order observation for check "
        <> check_text observation.invocation.name;
  })
  found observation (some position) = returned position

  -- The loop of `_match_repository_observations`
  unfoldable pub match_from :
      ℕ → List CheckInvocation → List RepositoryCheckObservation → Outcome ReportingError Matched
  match_from next_index planned [] = returned []
  match_from next_index planned (observation ∷ rest) = do
    position ← found observation (find_from observation.invocation next_index planned)
    later ← match_from (suc position.0) position.1 rest
    returned ((position.0, observation) ∷ later)

  -- `_match_repository_observations`
  unfoldable pub match_repository_observations :
      List CheckInvocation → List RepositoryCheckObservation → Outcome ReportingError Matched
  match_repository_observations planned executed = do
    matched ← match_from 0 planned executed
    refuse (length matched != length planned)
        (record { message = "every planned Check requires one execution observation" })
    returned matched
