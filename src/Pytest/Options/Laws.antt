-- ===== src/Pytest/Options/Laws.antt =====
-- Which arguments leave the scope of a session alone.
use pyrepo_check.Base.{
  String, ◌≡◌, refl, sym, ◌∙◌, ◌≢◌, ◌↔◌, inl, inr, Bool, true, false, not, ◌||◌, List, [], ◌∷◌,
  arith, nat_eq, string_eq, bool_eq, Bool-cases, contains, starts_with,
}
use mathlib.Core.Bool.{false≢true}
use pyrepo_check.Pytest.Options.{
  known, narrowing_prefixes, starts_with_any, takes_neutral_operand, is_separator, narrows,
  is_classified, is_option, takes_narrowing_operand, has_known_narrowing_argument,
  has_unclassified_option,
}
use pyrepo_check.Pytest.Options.Harmless.{
  IsHarmless, end, separator, dangling, operand, flag, is_narrowing,
  takes_neutral_operand-takes_value, narrows-is_narrowing, is_classified-is_neutral,
}

separator-path : (a : String) → is_separator a ≡ true → a ≡ "--"
unfolding is_separator
separator-path a h = (string_eq.beq_exact a "--").0 h

no_separator : (a : String) → is_separator a ≡ false → a ≢ "--"
unfolding is_separator
no_separator a h e = false≢true (sym h ∙ (string_eq.beq_exact a "--").1 e)

is_separator-false : (a : String) → a ≢ "--" → is_separator a ≡ false
is_separator-false a h = elim (Bool-cases (is_separator a)) [
  | inl s ↦ absurd (h (separator-path a s))
  | inr s ↦ s
]

third_false : (p q r : Bool) → (p || q || not r) ≡ false → r ≡ true
third_false p q r e = ground (arith, e)

narrows-is_option : (a : String) → narrows a ≡ false → is_option a ≡ true
unfolding narrows is_option
narrows-is_option a e =
    third_false (contains known a) (starts_with_any a narrowing_prefixes) (starts_with a "-") e

narrows-takes_narrowing_operand :
    (a : String) → narrows a ≡ false → takes_narrowing_operand a ≡ false
unfolding narrows takes_narrowing_operand
narrows-takes_narrowing_operand a e = ground (arith, e)

first_false : (p q : Bool) → (p || q) ≡ false → p ≡ false
first_false p q e = ground (arith, e)

narrows-option : (a : String) → narrows a ≡ (is_narrowing a || not (is_option a))
unfolding is_option
narrows-option a = narrows-is_narrowing a

option-start : (a : String) → is_option a ≡ true → starts_with a "-" ≡ true
unfolding is_option
option-start a h = h

-- What a neutral flag is to the code
flag-of_tests :
    (a : String) (rest : List String)
    → is_separator a ≡ false
    → takes_neutral_operand a ≡ false
    → narrows a ≡ false
    → is_classified a ≡ true
    → IsHarmless rest
    → IsHarmless (a ∷ rest)
flag-of_tests a rest s t m k h =
    let both : (is_narrowing a || not (is_option a)) ≡ false = sym (narrows-option a) ∙ m in
    let narrow : is_narrowing a ≡ false = first_false (is_narrowing a) _ both in
    flag a rest (no_separator a s) (sym (takes_neutral_operand-takes_value a) ∙ t)
      (option-start a (narrows-is_option a m)) narrow (sym (is_classified-is_neutral a narrow) ∙ k)
      h

IsHarmless-of_scans :
    (args : List String)
    → has_known_narrowing_argument args ≡ false
    → has_unclassified_option args ≡ false
    → IsHarmless args
unfolding has_known_narrowing_argument has_unclassified_option
IsHarmless-of_scans [] n u = end
IsHarmless-of_scans (a ∷ []) n u = elim (Bool-cases (is_separator a)) [
  | inl s ↦ rw (separator-path a s) separator
  | inr s ↦ elim (Bool-cases (takes_neutral_operand a)) [
    | inl t ↦ dangling a (no_separator a s) (sym (takes_neutral_operand-takes_value a) ∙ t)
    | inr t ↦
        let m : narrows a ≡ false = ground (arith, n, s, t) in
        flag-of_tests a [] s t m
          (ground (arith, u, s, t, narrows-is_option a m, narrows-takes_narrowing_operand a m)) end
  ]
]
IsHarmless-of_scans (a ∷ (b ∷ rest)) n u = elim (Bool-cases (is_separator a)) [
  | inl s ↦ ground (arith, n, s)
  | inr s ↦ elim (Bool-cases (takes_neutral_operand a)) [
    | inl t ↦
        operand a b rest (no_separator a s) (sym (takes_neutral_operand-takes_value a) ∙ t)
          (IsHarmless-of_scans rest (ground (arith, n, s, t)) (ground (arith, u, s, t)))
    | inr t ↦
        let m : narrows a ≡ false = ground (arith, n, s, t) in
        let k : is_classified a ≡ true =
          ground (arith, u, s, t, narrows-is_option a m, narrows-takes_narrowing_operand a m) in
        flag-of_tests a (b ∷ rest) s t m k
          (IsHarmless-of_scans (b ∷ rest) (ground (arith, n, s, t, m)) (ground (arith, u, s, t, k)))
  ]
]

separator_itself : is_separator "--" ≡ true
unfolding is_separator
separator_itself = refl

narrows-of_flag :
    (a : String) → starts_with a "-" ≡ true → is_narrowing a ≡ false → narrows a ≡ false
narrows-of_flag a o m = narrows-is_narrowing a ∙ rw (o, m) refl

scans-of_IsHarmless :
    (args : List String)
    → IsHarmless args
    → (has_known_narrowing_argument args ≡ false) × (has_unclassified_option args ≡ false)
unfolding has_known_narrowing_argument has_unclassified_option
scans-of_IsHarmless _ end = (refl, refl)
scans-of_IsHarmless _ separator = rw separator_itself (refl, refl)
scans-of_IsHarmless _ (dangling a s t) =
    rw (is_separator-false a s, takes_neutral_operand-takes_value a ∙ t) (refl, refl)
scans-of_IsHarmless _ (operand a b rest s t h) =
    rw (is_separator-false a s, takes_neutral_operand-takes_value a ∙ t)
      (scans-of_IsHarmless rest h)
scans-of_IsHarmless _ (flag a [] s t o m k h) =
    rw
      (
        is_separator-false a s,
        takes_neutral_operand-takes_value a ∙ t,
        narrows-of_flag a o m,
        is_classified-is_neutral a m ∙ k,
      )
      (refl, refl)
scans-of_IsHarmless _ (flag a (b ∷ rest) s t o m k h) =
    rw
      (
        is_separator-false a s,
        takes_neutral_operand-takes_value a ∙ t,
        narrows-of_flag a o m,
        is_classified-is_neutral a m ∙ k,
      )
      (scans-of_IsHarmless (b ∷ rest) h)

pub scans-IsHarmless :
    (args : List String)
    → ((has_known_narrowing_argument args ≡ false) × (has_unclassified_option args ≡ false))
      ↔ IsHarmless args
scans-IsHarmless args = (λ (n, u). IsHarmless-of_scans args n u, λ h. scans-of_IsHarmless args h)
