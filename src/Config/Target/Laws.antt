-- ===== src/Config/Target/Laws.antt =====
-- What a validated target is.
use pyrepo_check.Base.{
  code, String, ◌<>◌, ◌≡◌, refl, sym, ap, ◌∙◌, inl, inr, false, ◌&&◌, ◌||◌, arith, ◌==◌, nat_eq,
  string_eq, bool_eq, Bool-cases, contains, returned, >>=-eq-returned, refuse-eq-returned,
  returned-injective,
}
use pyrepo_check.Base.Text.{lstrip, is_blank, has_code, starts_with_code, is_absolute, parts}
use text.Mathlib.TextLemmas.{nil-append, cons-append}
use pyrepo_check.Config.Target.{
  empty, nul, option_like, absolute, climbing, Inspection, beneath, path_part, selector_part,
  validate_project_target_syntax, FileTree, validate_project_target, inspected,
}

path_part-selector_part : (s : String) → path_part s <> selector_part s ≡ s
unfolding path_part selector_part
path_part-selector_part String.[] = refl
path_part-selector_part (String.◌∷◌ c s) =
    elim (Bool-cases (code c == b':' && starts_with_code b':' s)) [
      | inl e ↦ rw e (nil-append (String.◌∷◌ c s))
      | inr e ↦ rw e (
          cons-append c (path_part s) (selector_part s)
          ∙ ap (String.◌∷◌ c) (path_part-selector_part s))
    ]

-- The path is relative to the root, does not climb out of it by its text, does not look like an
-- option, and resolves to something beneath the root.
pub record IsSafe (tree : FileTree) (target : String) : Type 0 where
  pub named : is_blank target ≡ false
  pub text : has_code 0 target ≡ false
  pub argument : starts_with_code b'-' (lstrip target) ≡ false
  pub relative : is_absolute (path_part target) ≡ false
  pub contained : contains (parts (path_part target)) ".." ≡ false
  pub resolved : tree.resolve (path_part target) ≡ beneath

inspected-beneath : (i : Inspection) (u : Unit) → inspected i ≡ returned u → i ≡ beneath
inspected-beneath i u e = ground (arith, e)

-- A target that is accepted is returned as it was given, and it is safe.
pub validate_project_target-IsSafe :
    (tree : FileTree) (target path : String)
    → validate_project_target tree target ≡ returned path
    → (path ≡ target) × IsSafe tree target
unfolding validate_project_target validate_project_target_syntax
validate_project_target-IsSafe tree target path h =
    let (text, syntax, h0) = >>=-eq-returned (validate_project_target_syntax target) _ h in
    let (_, beneath_root, h1) = >>=-eq-returned (inspected (tree.resolve text)) _ h0 in
    let (named, s1) =
      refuse-eq-returned (is_blank target || path_part target == "") empty _ syntax in
    let (no_nul, s2) = refuse-eq-returned (has_code 0 target) nul _ s1 in
    let (no_option, s3) =
      refuse-eq-returned (starts_with_code b'-' (lstrip target)) option_like _ s2 in
    let (relative, s4) = refuse-eq-returned (is_absolute (path_part target)) absolute _ s3 in
    let (contained, s5) =
      refuse-eq-returned (contains (parts (path_part target)) "..") climbing _ s4 in
    let e : path_part target ≡ text = returned-injective s5 in
    (
      sym (returned-injective h1)
          ∙ ap (λ t. t <> selector_part target) (sym e)
          ∙ path_part-selector_part target,
      record {
        named = ground (arith, named);
        text = no_nul;
        argument = no_option;
        relative = relative;
        contained = contained;
        resolved =
            inspected-beneath (tree.resolve (path_part target)) tt
              (ap (λ t. inspected (tree.resolve t)) e ∙ beneath_root);
      },
    )
