-- ===== src/Executor/Checks/Lookup.antt =====
-- Which dependency the loop over the Checks finds by its name.
use pyrepo_check.Base.{
  ◌≡◌, sym, ap, ◌∙◌, ◌≢◌, inl, inr, true, false, none, some, List, [], ◌∷◌, arith, ◌==◌, nat_eq,
  string_eq, bool_eq, or_else, Bool-cases, Option-cases, first, All,
}
use mathlib.Core.Path.{subst}
use mathlib.Core.Bool.{false≢true}
use pyrepo_check.Execution.{DependencyName, DependencyStatus, DependencyObservation}
use pyrepo_check.Environment.Dependencies.{dependency_eq}
use pyrepo_check.Executor.Checks.{lookup, status_is_available}

-- The last of the dependencies that have a name
pub data Latest (name : DependencyName)
    : List DependencyObservation → DependencyObservation → Type 0 where
  here :
      {rest : List DependencyObservation} (dependency : DependencyObservation)
      → dependency.name ≡ name
      → All (λ (other : DependencyObservation). other.name ≢ name) rest
      → Latest name (dependency ∷ rest) dependency
  further :
      {rest : List DependencyObservation} {dependency : DependencyObservation}
      (first : DependencyObservation)
      → Latest name rest dependency
      → Latest name (first ∷ rest) dependency

lookup-absent :
    (name : DependencyName) (dependencies : List DependencyObservation)
    → lookup dependencies name ≡ none
    → All (λ (other : DependencyObservation). other.name ≢ name) dependencies
unfolding lookup
lookup-absent name [] h = tt
lookup-absent name (dependency ∷ rest) h = elim (Option-cases (lookup rest name)) [
  | inr (found, p) ↦ let q : some found ≡ none = rw p at h in cc
  | inl p ↦ elim (Bool-cases (dependency.name == name)) [
    | inl same ↦ let q : some dependency ≡ none = rw (p, same) at h in cc
    | inr other ↦ (
      λ e. false≢true (sym other ∙ (dependency_eq.beq_exact dependency.name name).1 e),
      lookup-absent name rest p,
    )
  ]
]

pub lookup-Latest :
    (name : DependencyName) (dependencies : List DependencyObservation)
    (dependency : DependencyObservation)
    → lookup dependencies name ≡ some dependency
    → Latest name dependencies dependency
unfolding lookup
lookup-Latest name [] dependency h = cc
lookup-Latest name (first ∷ rest) dependency h = elim (Option-cases (lookup rest name)) [
  | inr (found, p) ↦ further first (lookup-Latest name rest dependency (p ∙ (rw p at h)))
  | inl p ↦ elim (Bool-cases (first.name == name)) [
    | inr other ↦ let q : none ≡ some dependency = rw (p, other) at h in cc
    | inl same ↦
        let q : some first ≡ some dependency = rw (p, same) at h in
        subst (λ d. Latest name (first ∷ rest) d) (ap (λ o. or_else o first) q)
          (here first ((dependency_eq.beq_exact first.name name).0 same)
            (lookup-absent name rest p))
  ]
]

pub status-available :
    (status : DependencyStatus)
    → status_is_available status ≡ true
    → status ≡ DependencyStatus.available
status-available status h = ground (arith, h)

pub status-unavailable :
    (status : DependencyStatus)
    → status_is_available status ≡ false
    → status ≢ DependencyStatus.available
status-unavailable status h e = false≢true (sym h ∙ ap status_is_available e)
