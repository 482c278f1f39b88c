-- ===== src/Pytest/Collection.antt =====
-- pytest_evidence.py: `_validate_collection`, over the four lists of strings that it has read from
-- the artifact, and the phases that a test may report.
pub mod Laws
use pyrepo_check.Base.{
  ℕ, zero, suc, ◌+◌, ◌-◌, ◌*◌, ◌/◌, ◌%◌, ◌≤◌, ◌<◌, code, String, ◌<>◌, ◌≡◌, refl, sym, ap, ◌∙◌, ◌≢◌,
  ◌↔◌, ◌⊎◌, inl, inr, Bool, true, false, not, ◌&&◌, ◌||◌, Option, none, some, List, [], ◌∷◌, ◌++◌,
  map, arith, eq_iff, ltb, leb, if◌then◌else◌, Eq, ◌==◌, ◌!=◌, nat_eq, string_eq, bool_eq, is_none,
  is_some, or_else, Bool-cases, Option-cases, &&-eq-true, ||-false, ==_refl, ==_sym, length, take,
  drop, is_empty, all, any, keep, first, length-append, length-drop, is_empty-eq-true, All,
  length-map, All-of_keep-nil, All-map, contains, contains-keep, subset, distinct, lists_equal,
  Outcome, returned, raised, ◌>>=◌, ◌>>◌, require, refuse, >>=-eq-returned, refuse-eq-returned,
  refuse-returned, returned-injective, if_is_empty-returned, >>=-cong, Outcome-cases, traverse,
  starts_with,
}
use pyrepo_check.Pytest.{Phase, setup, call, teardown}

pub data ArtifactInvalid : Type 0 where
  repeated_initial repeated_final repeated_deselected repeated_uncovered : ArtifactInvalid
  final_not_subset deselected_not_subset uncovered_not_subset : ArtifactInvalid
  not_disjoint unaccounted : ArtifactInvalid
  impossible_phase_sequence : String → ArtifactInvalid
  contradictory_strict malformed_strict contradictory_expected malformed_expected : ArtifactInvalid

-- `_unique_nodeids`
unfoldable pub unique_nodeids : List String → ArtifactInvalid → Outcome ArtifactInvalid Unit
unique_nodeids nodeids e = require (distinct nodeids) e

-- `bool(first & second)`
unfoldable pub overlaps : List String → List String → Bool
overlaps xs ys = any (contains ys) xs

-- `first == second` of sets
unfoldable pub same_set : List String → List String → Bool
same_set xs ys = subset xs ys && subset ys xs

-- The checks of `_validate_collection`
unfoldable pub validate_collection :
    (initial final deselected uncovered : List String) → Outcome ArtifactInvalid Unit
validate_collection initial final deselected uncovered = do
  unique_nodeids initial repeated_initial
  unique_nodeids final repeated_final
  unique_nodeids deselected repeated_deselected
  unique_nodeids uncovered repeated_uncovered
  require (subset final initial) final_not_subset
  require (subset deselected initial) deselected_not_subset
  require (subset uncovered initial) uncovered_not_subset
  refuse (overlaps final deselected || overlaps final uncovered || overlaps deselected uncovered)
      not_disjoint
  require (same_set (final ++ deselected ++ uncovered) initial) unaccounted

-- The sequences that `_validate_phase_sequences` allows
unfoldable pub is_allowed : List Phase → Bool
is_allowed (setup ∷ []) = true
is_allowed (setup ∷ (call ∷ [])) = true
is_allowed (setup ∷ (teardown ∷ [])) = true
is_allowed (setup ∷ (call ∷ (teardown ∷ []))) = true
is_allowed _ = false

-- `_validate_phase_sequences`, over the dictionary's items in order
unfoldable pub validate_phase_sequences : List (String × List Phase) → Outcome ArtifactInvalid Unit
validate_phase_sequences [] = returned tt
validate_phase_sequences ((nodeid, phases) ∷ items) = do
  require (is_allowed phases) (impossible_phase_sequence nodeid)
  validate_phase_sequences items
