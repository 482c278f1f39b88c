-- ===== src/Environment/Dependencies/Range.antt =====
-- repository_environment.py: which versions of a dependency are supported, in the order of versions
-- that ignores trailing zeros.
use pyrepo_check.Base.{
  ℕ, String, ◌≡◌, refl, sym, ap, ◌∙◌, ◌↔◌, true, false, not, Option, none, some, List, arith,
  nat_eq, string_eq, bool_eq, &&-eq-true,
}
use pyrepo_check.Environment.Versions.{
  numeric_at_least, numeric_before, numeric_version, int_digit_limit,
}
use pyrepo_check.Environment.Versions.Laws.{
  version_lt, numeric_at_least-version_lt, numeric_before-version_lt,
}
use pyrepo_check.Environment.Dependencies.{CheckDependency, in_range, dependency_version_supported}

-- The numbers of a supported version
abbrev pub IsInside : CheckDependency → List ℕ → Type 0
IsInside dependency numeric =
    (version_lt numeric dependency.minimum ≡ false) × (version_lt numeric dependency.maximum ≡ true)

in_range-IsInside :
    (dependency : CheckDependency) (numbers : Option (List ℕ))
    → in_range dependency numbers ≡ true
    → (numeric : List ℕ) × (numbers ≡ some numeric) × IsInside dependency numeric
in_range-IsInside dependency none h = cc
in_range-IsInside dependency (some numeric) h =
    let (low, high) =
      &&-eq-true (numeric_at_least numeric dependency.minimum)
        (numeric_before numeric dependency.maximum) h in
    let lower : not (version_lt numeric dependency.minimum) ≡ true =
      sym (numeric_at_least-version_lt numeric dependency.minimum) ∙ low in
    (
      numeric,
      refl,
      (ground (arith, lower), sym (numeric_before-version_lt numeric dependency.maximum) ∙ high),
    )

IsInside-in_range :
    (dependency : CheckDependency) (numeric : List ℕ)
    → IsInside dependency numeric
    → in_range dependency (some numeric) ≡ true
IsInside-in_range dependency numeric (low, high) =
    rw
      (
        numeric_at_least-version_lt numeric dependency.minimum,
        numeric_before-version_lt numeric dependency.maximum,
        low,
        high,
      )
      refl

-- A version is supported exactly if it is dotted numbers that `int` reads, not before the minimum and
-- before the maximum, where numbers that are not written count as 0.
pub dependency_version_supported-IsInside :
    (dependency : CheckDependency) (version : String)
    → (dependency_version_supported dependency (some version) ≡ true) ↔ (
        (numeric : List ℕ) × (numeric_version int_digit_limit version ≡ some numeric)
        × IsInside dependency numeric)
unfolding dependency_version_supported
dependency_version_supported-IsInside dependency version = (
  λ h. in_range-IsInside dependency (numeric_version int_digit_limit version) h,
  λ (numeric, read, inside).
      ap (in_range dependency) read ∙ IsInside-in_range dependency numeric inside,
)
