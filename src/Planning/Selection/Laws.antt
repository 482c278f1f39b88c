-- ===== src/Planning/Selection/Laws.antt =====
-- The selection among the six Checks never misses a key, and goes by membership alone.
use mathlib.Core.Path.{fun_ext}
use pyrepo_check.Base.{
  none, or_else, some, All, ◌≡◌, refl, ap, String, Bool, true, false, not, ◌||◌, Option, List, [],
  ◌∷◌, map, ◌==◌, keep, is_empty, contains, returned, if◌then◌else◌, traverse, string_eq,
}
use pyrepo_check.Config.{ProjectConfig}
use pyrepo_check.Planning.{
  CheckName, ruff, annotations, annotations_fix, ty, bandit, pytest, CheckInvocation,
}
use pyrepo_check.Planning.Names.{name_eq, check_text, check_order, selectable_check_order}
use pyrepo_check.Planning.Selection.{build_checks, check_at, select_check_names, select_checks}

-- A Check as `build_checks` leaves it: pytest alone has an execution plan, with no coverage yet.
abbrev pub IsBuilt : CheckInvocation → Type 0
IsBuilt check =
    (args : List String) × (check.pytest ≡ (
      if check.name == pytest then some (record { pytest_args = args; coverage = none }) else none))

module _ (config : ProjectConfig) (targets : List String) (strict : Bool)
    (args : Option (List String)) where
  check_at-build_checks :
      (name : CheckName)
      → (check : CheckInvocation) × (check_at (build_checks config targets strict args) name
          ≡ returned check)
        × (check.name ≡ name)
        × IsBuilt check
  unfolding build_checks check_at
  check_at-build_checks ruff = (_, refl, refl, ([], refl))
  check_at-build_checks annotations = (_, refl, refl, ([], refl))
  check_at-build_checks annotations_fix = (_, refl, refl, ([], refl))
  check_at-build_checks ty = (_, refl, refl, ([], refl))
  check_at-build_checks bandit = (_, refl, refl, ([], refl))
  check_at-build_checks pytest = (_, refl, refl, (or_else args targets, refl))

  traverse-check_at :
      (names : List CheckName)
      → (checks : List CheckInvocation) × (traverse
            (check_at (build_checks config targets strict args))
            names
          ≡ returned checks)
        × (map (λ check. check.name) checks ≡ names)
        × All IsBuilt checks
  traverse-check_at [] = ([], refl, refl, tt)
  traverse-check_at (name ∷ names) =
      let (check, found, named, built) = check_at-build_checks name in
      let (checks, rest, all_named, all_built) = traverse-check_at names in
      (check ∷ checks, rw (found, rest), cc (named, all_named), (built, all_built))

  names-build_checks :
      map (λ (name, check). check_text name) (build_checks config targets strict args)
      ≡ map check_text (ruff ∷ annotations ∷ annotations_fix ∷ ty ∷ bandit ∷ pytest ∷ [])
  unfolding build_checks
  names-build_checks = refl

abbrev all_texts : List String
all_texts = map check_text (ruff ∷ annotations ∷ annotations_fix ∷ ty ∷ bandit ∷ pytest ∷ [])

contains-all_texts : (name : CheckName) → contains all_texts (check_text name) ≡ true
contains-all_texts ruff = refl
contains-all_texts annotations = refl
contains-all_texts annotations_fix = refl
contains-all_texts ty = refl
contains-all_texts bandit = refl
contains-all_texts pytest = refl

keep-unknown :
    (names : List CheckName)
    → keep (λ name. not (contains all_texts name)) (map check_text names) ≡ []
keep-unknown [] = refl
keep-unknown (name ∷ names) = rw (contains-all_texts name, keep-unknown names)

check_text-== : (a b : CheckName) → (check_text a == check_text b) ≡ (a == b)
check_text-== ruff ruff = refl
check_text-== ruff b = refl
check_text-== annotations annotations = refl
check_text-== annotations b = refl
check_text-== annotations_fix annotations_fix = refl
check_text-== annotations_fix b = refl
check_text-== ty ty = refl
check_text-== ty b = refl
check_text-== bandit bandit = refl
check_text-== bandit b = refl
check_text-== pytest pytest = refl
check_text-== pytest b = refl

pub contains-check_text :
    (names : List CheckName) (name : CheckName)
    → contains (map check_text names) (check_text name) ≡ contains names name
contains-check_text [] name = refl
contains-check_text (other ∷ names) name =
    rw (check_text-== name other, contains-check_text names name)

-- The names that a selection comes to.
abbrev pub chosen : List CheckName → Bool → List CheckName
chosen requested all_selected =
    if all_selected || is_empty requested
    then check_order
    else keep (contains requested) selectable_check_order

select_check_names-chosen :
    (requested : List CheckName) (all_selected : Bool)
    → select_check_names all_texts (map check_text requested) all_selected
      ≡ returned (chosen requested all_selected)
unfolding select_check_names
select_check_names-chosen [] true = refl
select_check_names-chosen [] false = refl
select_check_names-chosen (name ∷ names) true = refl
select_check_names-chosen (name ∷ names) false = rw (keep-unknown (name ∷ names)) (
    ap (λ (p : CheckName → Bool). returned (keep p selectable_check_order))
      (fun_ext (contains-check_text (name ∷ names))))

module _ (config : ProjectConfig) (targets : List String) (strict : Bool)
    (args : Option (List String)) where
  select_checks-traverse :
      (requested : List CheckName) (all_selected : Bool)
      → select_checks
          (build_checks config targets strict args)
          (map check_text requested)
          all_selected
        ≡ traverse
            (check_at (build_checks config targets strict args))
            (chosen requested all_selected)
  unfolding select_checks
  select_checks-traverse requested all_selected = rw (
    names-build_checks config targets strict args,
    select_check_names-chosen requested all_selected,
  )

  -- Only which names are asked for counts, not their order or how often they are given.
  pub select_checks-cong :
      (requested other : List CheckName) (all_selected : Bool)
      → is_empty requested ≡ is_empty other
      → ((name : CheckName) → contains requested name ≡ contains other name)
      → select_checks
          (build_checks config targets strict args)
          (map check_text requested)
          all_selected
        ≡ select_checks
            (build_checks config targets strict args)
            (map check_text other)
            all_selected
  select_checks-cong requested other all_selected e h =
      rw (select_checks-traverse requested all_selected, select_checks-traverse other all_selected)
        (ap (traverse (check_at (build_checks config targets strict args))) (
          rw e (
            ap
              (λ (p : CheckName → Bool).
                if all_selected || is_empty other
                then check_order
                else keep p selectable_check_order)
              (fun_ext h))))

  -- A selection by valid names returns the Checks of `chosen`, in order.
  pub select_checks-chosen :
      (requested : List CheckName) (all_selected : Bool)
      → (selected : List CheckInvocation) × (select_checks
            (build_checks config targets strict args)
            (map check_text requested)
            all_selected
          ≡ returned selected)
        × (map (λ check. check.name) selected ≡ chosen requested all_selected)
        × All IsBuilt selected
  select_checks-chosen requested all_selected =
      let (selected, found, named, built) =
        traverse-check_at config targets strict args (chosen requested all_selected) in
      (selected, rw (select_checks-traverse requested all_selected) found, named, built)
