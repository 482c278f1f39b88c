-- ===== src/Environment/Dependencies/Laws.antt =====
-- The required dependencies told without the loop, and that each is observed.
use pyrepo_check.Base.{
  ◌≡◌, refl, sym, ap, ◌∙◌, inl, inr, Bool, true, false, not, ◌&&◌, ◌||◌, Option, List, [], ◌∷◌,
  ◌++◌, map, arith, if◌then◌else◌, ◌==◌, ◌!=◌, nat_eq, string_eq, bool_eq, Bool-cases, Option-cases,
  ||-false, ==_sym, keep, contains, returned, raised,
}
use pyrepo_check.Planning.{CheckName}
use pyrepo_check.Execution.{
  DependencyName, pytest, coverage, DependencyObservation, ExecutedProcess,
}
use mathlib.Core.List.{append_assoc, append-nil}
use pyrepo_check.Environment.Dependencies.{
  CheckDependency, dependency_eq, supported_dependencies, dependency_name_for_check, Selecting,
  select_dependency, select_dependencies, required_dependencies, unattempted_dependency, probe_each,
}

-- Each name once, where it first occurs.
abbrev pub first_occurrences : List DependencyName → List DependencyName
first_occurrences [] = []
first_occurrences (x ∷ xs) = x ∷ keep (λ y. y != x) (first_occurrences xs)

keep-keep :
    (p q r : DependencyName → Bool)
    → ((y : DependencyName) → (p y && q y) ≡ r y)
    → (ys : List DependencyName) → keep p (keep q ys) ≡ keep r ys
keep-keep p q r h [] = refl
keep-keep p q r h (y ∷ ys) = elim (Bool-cases (q y)) [
  | inl kept ↦ rw (kept, sym (h y)) (ground (arith, keep-keep p q r h ys, kept))
  | inr dropped ↦ rw (dropped, sym (h y)) (ground (arith, keep-keep p q r h ys, dropped))
]

-- The names that are not yet seen.
abbrev unseen : List DependencyName → DependencyName → Bool
unseen seen y = not (contains seen y)

abbrev pub names : List CheckName → List DependencyName
names checks = map dependency_name_for_check checks

unseen_seen :
    (seen : List DependencyName) (x y : DependencyName)
    → contains seen x ≡ true
    → (unseen seen y && y != x) ≡ unseen seen y
unseen_seen seen x y h = elim (Bool-cases (y == x)) [
  | inl same ↦ rw ((dependency_eq.beq_exact y x).0 same, h) refl
  | inr other ↦ rw other (ground arith)
]

unseen_more :
    (seen : List DependencyName) (x y : DependencyName)
    → (unseen seen y && y != x) ≡ unseen (x ∷ seen) y
unseen_more seen x y = rw (==_sym y x) (ground arith)

kept_old :
    (seen : List DependencyName) (x : DependencyName) (ys : List DependencyName)
    → contains seen x ≡ true
    → keep (unseen seen) (x ∷ keep (λ y. y != x) ys) ≡ keep (unseen seen) ys
kept_old seen x ys old =
    rw old (keep-keep (unseen seen) (λ y. y != x) (unseen seen) (λ y. unseen_seen seen x y old) ys)

kept_new :
    (seen : List DependencyName) (x : DependencyName) (ys : List DependencyName)
    → contains seen x ≡ false
    → keep (unseen seen) (x ∷ keep (λ y. y != x) ys) ≡ x ∷ keep (unseen (x ∷ seen)) ys
kept_new seen x ys new = rw new (
    ap (λ zs. x ∷ zs)
      (keep-keep (unseen seen) (λ y. y != x) (unseen (x ∷ seen)) (unseen_more seen x) ys))

step_old :
    (selected : List CheckDependency) (seen : List DependencyName) (check : CheckName)
    → contains seen (dependency_name_for_check check) ≡ true
    → select_dependency (selected, seen) check ≡ (selected, seen)
unfolding select_dependency
step_old selected seen check old = rw old refl

step_new :
    (selected : List CheckDependency) (seen : List DependencyName) (check : CheckName)
    → contains seen (dependency_name_for_check check) ≡ false
    → select_dependency (selected, seen) check ≡ (
      selected ++ (supported_dependencies (dependency_name_for_check check) ∷ []),
      dependency_name_for_check check ∷ seen,
    )
unfolding select_dependency
step_new selected seen check new = rw new refl

select_dependencies-first_occurrences :
    (checks : List CheckName) (selected : List CheckDependency) (seen : List DependencyName)
    → (select_dependencies checks (selected, seen)).0
      ≡ selected
        ++ map supported_dependencies (keep (unseen seen) (first_occurrences (names checks)))
unfolding select_dependencies
select_dependencies-first_occurrences [] selected seen = sym (append-nil selected)
select_dependencies-first_occurrences (check ∷ checks) selected seen =
    let x = dependency_name_for_check check in
    let ys = first_occurrences (names checks) in
    elim (Bool-cases (contains seen x)) [
      | inl old ↦
          ap (λ (state : Selecting). (select_dependencies checks state).0)
            (step_old selected seen check old)
          ∙ select_dependencies-first_occurrences checks selected seen
          ∙ ap (λ zs. selected ++ map supported_dependencies zs) (sym (kept_old seen x ys old))
      | inr new ↦
          ap (λ (state : Selecting). (select_dependencies checks state).0)
            (step_new selected seen check new)
          ∙ select_dependencies-first_occurrences checks
              (selected ++ (supported_dependencies x ∷ [])) (x ∷ seen)
          ∙ append_assoc selected (supported_dependencies x ∷ [])
              (map supported_dependencies (keep (unseen (x ∷ seen)) ys))
          ∙ ap (λ zs. selected ++ map supported_dependencies zs) (sym (kept_new seen x ys new))
    ]

contains_old :
    (seen : List DependencyName) (x d : DependencyName) (rest : Bool)
    → contains seen x ≡ true
    → (contains seen d || rest) ≡ (contains seen d || (d == x || rest))
contains_old seen x d rest old = elim (Bool-cases (d == x)) [
  | inl same ↦
      let found : contains seen d ≡ true =
        ap (contains seen) ((dependency_eq.beq_exact d x).0 same) ∙ old in
      rw found refl
  | inr other ↦ rw other refl
]

contains-select_dependencies :
    (d : DependencyName) (checks : List CheckName) (selected : List CheckDependency)
    (seen : List DependencyName)
    → contains (select_dependencies checks (selected, seen)).1 d
      ≡ (contains seen d || contains (names checks) d)
unfolding select_dependencies
contains-select_dependencies d [] selected seen = sym (||-false (contains seen d))
contains-select_dependencies d (check ∷ checks) selected seen =
    let x = dependency_name_for_check check in
    elim (Bool-cases (contains seen x)) [
      | inl old ↦
          ap (λ (state : Selecting). contains (select_dependencies checks state).1 d)
            (step_old selected seen check old)
          ∙ contains-select_dependencies d checks selected seen
          ∙ contains_old seen x d (contains (names checks) d) old
      | inr new ↦
          ap (λ (state : Selecting). contains (select_dependencies checks state).1 d)
            (step_new selected seen check new)
          ∙ contains-select_dependencies d checks (selected ++ (supported_dependencies x ∷ []))
              (x ∷ seen)
          ∙ ground arith
    ]

keep_all : (ys : List DependencyName) → keep (unseen []) ys ≡ ys
keep_all [] = refl
keep_all (y ∷ ys) = ap (λ zs. y ∷ zs) (keep_all ys)

map_append :
    (ys : List DependencyName)
    → map supported_dependencies ys ++ (supported_dependencies coverage ∷ [])
      ≡ map supported_dependencies (ys ++ (coverage ∷ []))
map_append [] = refl
map_append (y ∷ ys) = ap (λ ds. supported_dependencies y ∷ ds) (map_append ys)

-- The dependencies of some Checks, as one list.
abbrev pub needed : List CheckName → Bool → List DependencyName
needed checks with_coverage =
    first_occurrences (names checks) ++ (if with_coverage then coverage ∷ [] else [])

-- The required dependencies are those of the Checks, each once and where it is first needed, and
-- coverage after them if it is asked for; only coverage without pytest is refused.
pub required_dependencies-needed :
    (checks : List CheckName) (with_coverage : Bool)
    → required_dependencies checks with_coverage ≡ (
        if with_coverage && not (contains (names checks) pytest)
        then raised "Coverage dependency requires a selected pytest Check"
        else returned (map supported_dependencies (needed checks with_coverage)))
unfolding required_dependencies
required_dependencies-needed checks false = ap returned (
    select_dependencies-first_occurrences checks [] []
    ∙ ap (map supported_dependencies) (
        keep_all (first_occurrences (names checks))
        ∙ sym (append-nil (first_occurrences (names checks)))))
required_dependencies-needed checks true =
    rw
      (
        contains-select_dependencies pytest checks [] [],
        select_dependencies-first_occurrences checks [] [],
        keep_all (first_occurrences (names checks)),
      )
      (ap
        (λ ds.
          if not (contains (names checks) pytest)
          then raised "Coverage dependency requires a selected pytest Check"
          else returned ds)
        (map_append (first_occurrences (names checks))))

pub map_unattempted :
    (dependencies : List CheckDependency)
    → map (λ (o : DependencyObservation). o.name) (map unattempted_dependency dependencies)
      ≡ map (λ (d : CheckDependency). d.name) dependencies
unfolding unattempted_dependency
map_unattempted [] = refl
map_unattempted (dependency ∷ rest) = ap (λ ns. dependency.name ∷ ns) (map_unattempted rest)

-- Every required dependency is observed under its name and in order, whatever its probe does, if the
-- observation of a probe keeps the name of the dependency.
pub map-probe_each :
    (run : CheckDependency → Option ExecutedProcess)
    (observe : CheckDependency → ExecutedProcess → DependencyObservation)
    → ((dependency : CheckDependency) (process : ExecutedProcess)
        → (observe dependency process).name ≡ dependency.name)
    → (dependencies : List CheckDependency)
    → map (λ (o : DependencyObservation). o.name) (probe_each run observe dependencies)
      ≡ map (λ (d : CheckDependency). d.name) dependencies
unfolding probe_each
map-probe_each run observe same [] = refl
map-probe_each run observe same (dependency ∷ rest) = elim (Option-cases (run dependency)) [
  | inl lost ↦ rw lost (map_unattempted (dependency ∷ rest))
  | inr (process, ran) ↦
      rw (ran, same dependency process)
        (ap (λ ns. dependency.name ∷ ns) (map-probe_each run observe same rest))
]
