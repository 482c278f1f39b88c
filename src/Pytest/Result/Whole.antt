-- ===== src/Pytest/Result/Whole.antt =====
-- When nothing kept a session from being a run of all the tests.
use pyrepo_check.Base.{
  String, ◌≡◌, refl, sym, ap, ◌∙◌, ◌≢◌, Bool, true, false, not, ◌||◌, List, [], ◌∷◌, arith, ltb,
  ◌!=◌, nat_eq, string_eq, bool_eq, length, is_empty, is_empty-eq-true,
}
use mathlib.Core.Bool.{false≢true}
use pyrepo_check.Planning.{RunPlan, PlannedTestScope}
use pyrepo_check.Pytest.{PytestEvidence, ValidatedPytestSession, SemanticOptions}
use pyrepo_check.Pytest.Options.{has_known_narrowing_argument, has_unclassified_option}
use pyrepo_check.Pytest.Options.Harmless.{IsHarmless}
use pyrepo_check.Pytest.Options.Laws.{scans-IsHarmless}
use pyrepo_check.Pytest.Result.{is_partial, has_known_narrowing, scope_reasons}

-- No option of pytest selects, leaves out or merely lists tests.
pub record IsUnselective (options : SemanticOptions) : Type 0 where
  pub collection_paths : options.collection_paths ≡ []
  pub keyword : options.keyword ≡ ""
  pub markexpr : options.markexpr ≡ ""
  pub deselect : options.deselect ≡ []
  pub ignore : options.ignore ≡ []
  pub ignore_glob : options.ignore_glob ≡ []
  pub lf : options.lf ≡ false
  pub pyargs : options.pyargs ≡ false
  pub collectonly : options.collectonly ≡ false
  pub setuponly : options.setuponly ≡ false
  pub setupplan : options.setupplan ≡ false

-- Nothing kept the session from being a run of all the tests: not the plan, not the options, not the
-- arguments, not the collection, and not the end of the session.
pub record IsWhole (plan : RunPlan) (session : ValidatedPytestSession) (complete : Bool)
    : Type 0 where
  pub planned : plan.planned_test_scope ≢ PlannedTestScope.partial
  pub options : IsUnselective session.semantic_options
  pub arguments : IsHarmless session.effective_args
  pub selected : session.collection.deselected_nodeids ≡ []
  pub collected : session.collection.uncovered_removed_nodeids ≡ []
  pub completed : complete ≡ true

-- What the tests of `_has_known_narrowing` come to, in its order
record NoneOf (a b c d e f g h i j k l : Bool) : Type 0 where
  first : a ≡ false
  second : b ≡ false
  third : c ≡ false
  fourth : d ≡ false
  fifth : e ≡ false
  sixth : f ≡ false
  seventh : g ≡ false
  eighth : h ≡ false
  ninth : i ≡ false
  tenth : j ≡ false
  eleventh : k ≡ false
  twelfth : l ≡ false

NoneOf-of_or :
    (a b c d e f g h i j k l : Bool)
    → (a || b || c || d || e || f || g || h || i || j || k || l) ≡ false
    → NoneOf a b c d e f g h i j k l
NoneOf-of_or a b c d e f g h i j k l p = record {
  first = ground (arith, p);
  second = ground (arith, p);
  third = ground (arith, p);
  fourth = ground (arith, p);
  fifth = ground (arith, p);
  sixth = ground (arith, p);
  seventh = ground (arith, p);
  eighth = ground (arith, p);
  ninth = ground (arith, p);
  tenth = ground (arith, p);
  eleventh = ground (arith, p);
  twelfth = ground (arith, p);
}

empty-path : (xs : List String) → not (is_empty xs) ≡ false → xs ≡ []
empty-path [] h = refl
empty-path (x ∷ xs) h = absurd (false≢true (sym h))

text-path : (s : String) → (s != "") ≡ false → s ≡ ""
text-path s h = (string_eq.beq_exact s "").0 (ground (arith, h))

length-path : (xs : List String) → ltb 0 (length xs) ≡ false → xs ≡ []
length-path [] h = refl
length-path (x ∷ xs) h = ground (arith, h)

narrowing-IsUnselective :
    (session : ValidatedPytestSession)
    → has_known_narrowing session ≡ false
    → IsUnselective session.semantic_options
      × (has_known_narrowing_argument session.effective_args ≡ false)
unfolding has_known_narrowing
narrowing-IsUnselective session h =
    let options = session.semantic_options in
    let n =
      NoneOf-of_or (not (is_empty options.collection_paths)) (options.keyword != "")
        (options.markexpr != "") (not (is_empty options.deselect)) (not (is_empty options.ignore))
        (not (is_empty options.ignore_glob)) options.lf options.pyargs options.collectonly
        options.setuponly options.setupplan (has_known_narrowing_argument session.effective_args)
        h in
    (
      record {
        collection_paths = empty-path options.collection_paths n.first;
        keyword = text-path options.keyword n.second;
        markexpr = text-path options.markexpr n.third;
        deselect = empty-path options.deselect n.fourth;
        ignore = empty-path options.ignore n.fifth;
        ignore_glob = empty-path options.ignore_glob n.sixth;
        lf = n.seventh;
        pyargs = n.eighth;
        collectonly = n.ninth;
        setuponly = n.tenth;
        setupplan = n.eleventh;
      },
      n.twelfth,
    )

unselective-has_known_narrowing :
    (session : ValidatedPytestSession)
    → IsUnselective session.semantic_options
    → has_known_narrowing_argument session.effective_args ≡ false
    → has_known_narrowing session ≡ false
unfolding has_known_narrowing
unselective-has_known_narrowing session u n =
    rw
      (
        u.collection_paths, u.keyword, u.markexpr, u.deselect, u.ignore, u.ignore_glob, u.lf,
        u.pyargs, u.collectonly, u.setuponly, u.setupplan, n,
      )
      refl

partial-is_partial :
    (scope : PlannedTestScope) → is_partial scope ≡ false → scope ≢ PlannedTestScope.partial
partial-is_partial scope h e = false≢true (sym h ∙ ap is_partial e)

is_partial-false :
    (scope : PlannedTestScope) → scope ≢ PlannedTestScope.partial → is_partial scope ≡ false
is_partial-false PlannedTestScope.partial h = absurd (h refl)
is_partial-false PlannedTestScope.complete h = refl
is_partial-false PlannedTestScope.not_selected h = refl

pub scope_reasons-IsWhole :
    (plan : RunPlan) (session : ValidatedPytestSession) (evidence : PytestEvidence)
    (complete : Bool)
    → evidence.deselected ≡ length session.collection.deselected_nodeids
    → is_empty (scope_reasons plan session evidence complete) ≡ true
    → IsWhole plan session complete
unfolding scope_reasons
scope_reasons-IsWhole plan session evidence complete d e =
    let narrowed : has_known_narrowing session ≡ false = ground (arith, e) in
    let classified : has_unclassified_option session.effective_args ≡ false = ground (arith, e) in
    let reduced : is_empty session.collection.uncovered_removed_nodeids ≡ true =
      ground (arith, e) in
    let deselected : ltb 0 evidence.deselected ≡ false = ground (arith, e) in
    let planned : is_partial plan.planned_test_scope ≡ false = ground (arith, e) in
    let (options, scanned) = narrowing-IsUnselective session narrowed in
    record {
      planned = partial-is_partial plan.planned_test_scope planned;
      options = options;
      arguments = (scans-IsHarmless session.effective_args).0 (scanned, classified);
      selected =
          length-path session.collection.deselected_nodeids
            (ap (λ n. ltb 0 n) (sym d) ∙ deselected);
      collected = is_empty-eq-true session.collection.uncovered_removed_nodeids reduced;
      completed = ground (arith, e);
    }

pub IsWhole-scope_reasons :
    (plan : RunPlan) (session : ValidatedPytestSession) (evidence : PytestEvidence)
    (complete : Bool)
    → evidence.deselected ≡ length session.collection.deselected_nodeids
    → IsWhole plan session complete
    → is_empty (scope_reasons plan session evidence complete) ≡ true
unfolding scope_reasons
IsWhole-scope_reasons plan session evidence complete d w =
    let (scanned, classified) = (scans-IsHarmless session.effective_args).1 w.arguments in
    let narrowed = unselective-has_known_narrowing session w.options scanned in
    let planned = is_partial-false plan.planned_test_scope w.planned in
    let selected : ltb 0 evidence.deselected ≡ false =
      ap (λ n. ltb 0 n) d ∙ ap (λ (xs : List String). ltb 0 (length xs)) w.selected in
    rw (planned, narrowed, classified, selected, w.collected, w.completed) refl
