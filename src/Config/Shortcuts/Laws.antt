-- ===== src/Config/Shortcuts/Laws.antt =====
-- What accepted Test Shortcuts are.
use pyrepo_check.Base.{
  String, ◌<>◌, ◌≡◌, refl, sym, ◌∙◌, ◌≢◌, ◌↔◌, ◌⊎◌, inl, inr, true, false, ◌||◌, List, [], ◌∷◌,
  arith, ◌==◌, nat_eq, string_eq, bool_eq, Bool-cases, first, contains, Outcome, returned, raised,
  ◌>>◌, refuse, >>=-eq-returned, refuse-eq-returned, refuse-returned,
}
use mathlib.Core.Bool.{false≢true}
use pyrepo_check.Base.Text.{lstrip, is_blank, has_code, starts_with_code}
use pyrepo_check.Config.Target.{
  TargetError, FileTree, path_part, selector_part, validate_project_target,
  validate_project_target_syntax,
}
use pyrepo_check.Config.Target.Laws.{IsSafe, validate_project_target-IsSafe}
use pyrepo_check.Config.Shortcuts.{
  empty_target, unsupported_option, missing_expression, repeated_selector, is_selector,
  check_expression, check_target, target_checked, check_arguments, validate_test_shortcut,
}

-- An expression that may follow a selector: not blank, no option, and without the character NUL
pub record IsExpression (operand : String) : Type 0 where
  pub written : is_blank operand ≡ false
  pub argument : starts_with_code b'-' (lstrip operand) ≡ false
  pub text : has_code 0 operand ≡ false

-- A target that pytest may be given: it names a path, is no option, and is safe in the repository.
pub record IsTarget (tree : FileTree) (token : String) : Type 0 where
  pub path : (path_part token == "") ≡ false
  pub first : starts_with_code b'-' token ≡ false
  pub safe : IsSafe tree token

-- The arguments that pytest may be given: targets, and the selectors that were not yet seen, each
-- with its expression.
pub data IsArguments (tree : FileTree) : (seen args : List String) → Type 0 where
  end : (seen : List String) → IsArguments tree seen []
  target :
      (seen : List String) (token : String) (rest : List String)
      → token ≢ "-m"
      → token ≢ "-k"
      → IsTarget tree token
      → IsArguments tree seen rest
      → IsArguments tree seen (token ∷ rest)
  selection :
      (seen : List String) (token operand : String) (rest : List String)
      → (token ≡ "-m") ⊎ (token ≡ "-k")
      → contains seen token ≡ false
      → IsExpression operand
      → IsArguments tree (token ∷ seen) rest
      → IsArguments tree seen (token ∷ (operand ∷ rest))

is_selector-path : (token : String) → is_selector token ≡ true → (token ≡ "-m") ⊎ (token ≡ "-k")
is_selector-path token h = elim (Bool-cases (token == "-m")) [
  | inl m ↦ inl ((string_eq.beq_exact token "-m").0 m)
  | inr m ↦ inr ((string_eq.beq_exact token "-k").0 (ground (arith, h, m)))
]

path-is_selector : (token : String) → (token ≡ "-m") ⊎ (token ≡ "-k") → is_selector token ≡ true
path-is_selector token (inl m) = rw m refl
path-is_selector token (inr k) = rw k refl

plain-is_selector : (token : String) → token ≢ "-m" → token ≢ "-k" → is_selector token ≡ false
plain-is_selector token m k = elim (Bool-cases (is_selector token)) [
  | inr s ↦ s
  | inl s ↦ elim (is_selector-path token s) [ inl e ↦ absurd (m e) | inr e ↦ absurd (k e) ]
]

not_selector : (token : String) → is_selector token ≡ false → (token ≢ "-m") × (token ≢ "-k")
not_selector token s = (
  λ e. false≢true (sym s ∙ path-is_selector token (inl e)),
  λ e. false≢true (sym s ∙ path-is_selector token (inr e)),
)

selector_alone :
    (seen : List String) (token : String)
    → (refuse (contains seen token) (repeated_selector token) >> raised (missing_expression token))
      ≢ returned tt
selector_alone seen token h =
    let (_, h1) =
      refuse-eq-returned (contains seen token) (repeated_selector token)
        (raised (missing_expression token)) h in
    cc

module _ (tree : FileTree) where
  check_expression-IsExpression :
      (token operand : String)
      → (check_expression tree token operand ≡ returned tt) ↔ IsExpression operand
  unfolding check_expression
  check_expression-IsExpression token operand = (
    λ h.
        let (written, h1) =
          refuse-eq-returned (is_blank operand || starts_with_code b'-' (lstrip operand))
            (missing_expression token) _ h in
        let text = refuse-returned _ _ h1 in
        record {
          written = ground (arith, written);
          argument = ground (arith, written);
          text = text;
        },
    λ e. rw (e.written, e.argument, e.text) refl,
  )

  accepted-IsSafe :
      (token : String)
      → (path_part token == "") ≡ false
      → IsSafe tree token
      → validate_project_target tree token ≡ returned (path_part token <> selector_part token)
  unfolding validate_project_target validate_project_target_syntax
  accepted-IsSafe token p s =
      rw (s.named, p, s.text, s.argument, s.relative, s.contained, s.resolved) refl

  named_path :
      (token path : String)
      → validate_project_target tree token ≡ returned path
      → (path_part token == "") ≡ false
  unfolding validate_project_target validate_project_target_syntax
  named_path token path h =
      let (text, syntax, h0) = >>=-eq-returned (validate_project_target_syntax token) _ h in
      let (named, s1) = refuse-eq-returned (is_blank token || path_part token == "") _ _ syntax in
      ground (arith, named)

  checked_target :
      (token : String) (found : Outcome TargetError String)
      → target_checked tree found token ≡ returned tt
      → (path : String) × (found ≡ returned path)
  unfolding target_checked
  checked_target token (returned path) h = (path, refl)
  checked_target token (raised error) h = cc

  check_target-IsTarget :
      (token : String) → (check_target tree token ≡ returned tt) ↔ IsTarget tree token
  unfolding check_target target_checked
  check_target-IsTarget token = (
    λ h.
        let (named, h1) = refuse-eq-returned (is_blank token) empty_target _ h in
        let (first, h2) =
          refuse-eq-returned (starts_with_code b'-' token) (unsupported_option token) _ h1 in
        let (path, accepted) = checked_target token (validate_project_target tree token) h2 in
        record {
          path = named_path token path accepted;
          first = first;
          safe = (validate_project_target-IsSafe tree token path accepted).1;
        },
    λ t. rw (t.safe.named, t.first, accepted-IsSafe token t.path t.safe) refl,
  )

  IsArguments-of_check :
      (seen args : List String)
      → check_arguments tree seen args ≡ returned tt
      → IsArguments tree seen args
  unfolding check_arguments
  IsArguments-of_check seen [] h = end seen
  IsArguments-of_check seen (token ∷ []) h = elim (Bool-cases (is_selector token)) [
    | inl s ↦ absurd (selector_alone seen token (rw s at h))
    | inr s ↦
        let (m, k) = not_selector token s in
        target seen token [] m k ((check_target-IsTarget token).0 (rw s at h)) (end seen)
  ]
  IsArguments-of_check seen (token ∷ (operand ∷ rest)) h = elim (Bool-cases (is_selector token)) [
    | inl s ↦
        let (fresh, h1) =
          refuse-eq-returned (contains seen token) (repeated_selector token) _ (rw s at h) in
        let (_, expression, h2) = >>=-eq-returned (check_expression tree token operand) _ h1 in
        selection seen token operand rest (is_selector-path token s) fresh
          ((check_expression-IsExpression token operand).0 expression)
          (IsArguments-of_check (token ∷ seen) rest h2)
    | inr s ↦
        let (_, checked, h2) = >>=-eq-returned (check_target tree token) _ (rw s at h) in
        let (m, k) = not_selector token s in
        target seen token (operand ∷ rest) m k ((check_target-IsTarget token).0 checked)
          (IsArguments-of_check seen (operand ∷ rest) h2)
  ]

  check_of_IsArguments :
      (seen args : List String)
      → IsArguments tree seen args
      → check_arguments tree seen args ≡ returned tt
  unfolding check_arguments
  check_of_IsArguments seen _ (end _) = refl
  check_of_IsArguments seen _ (target _ token [] m k c rest) =
      rw (plain-is_selector token m k, (check_target-IsTarget token).1 c) refl
  check_of_IsArguments seen _ (target _ token (operand ∷ more) m k c rest) =
      rw (plain-is_selector token m k, (check_target-IsTarget token).1 c)
        (check_of_IsArguments seen (operand ∷ more) rest)
  check_of_IsArguments seen _ (selection _ token operand more s f e rest) =
      rw (path-is_selector token s, f, (check_expression-IsExpression token operand).1 e)
        (check_of_IsArguments (token ∷ seen) more rest)

  -- The arguments of a Test Shortcut are accepted exactly if they are targets that name a path, are no
  -- option and are safe in the repository, and selectors, `-m` and `-k`, each followed by an
  -- expression that is not blank, no option and without NUL, and none given twice.
  pub validate_test_shortcut-IsArguments :
      (args : List String)
      → (validate_test_shortcut tree args ≡ returned tt) ↔ IsArguments tree [] args
  unfolding validate_test_shortcut
  validate_test_shortcut-IsArguments args =
      (IsArguments-of_check [] args, check_of_IsArguments [] args)
