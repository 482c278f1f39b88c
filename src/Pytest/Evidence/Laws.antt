-- ===== src/Pytest/Evidence/Laws.antt =====
-- What the counts count.
use pyrepo_check.Base.{
  ℕ, suc, ◌+◌, String, ◌≡◌, refl, sym, ap, ◌∙◌, inl, inr, Bool, Option, none, some, List, [], ◌∷◌,
  ◌++◌, arith, if◌then◌else◌, nat_eq, string_eq, bool_eq, is_some, Bool-cases, length, keep,
  length-append,
}
use mathlib.Core.List.{append-nil, append_assoc}
use pyrepo_check.Pytest.{NodeOutcome, PytestCounts, ValidatedPhaseReport, ValidatedPytestSession}
use pyrepo_check.Pytest.Node.{Consolidated, consolidate_node}
use pyrepo_check.Pytest.Evidence.{
  increment_count, count_total, phases_of, Tally, empty_tally, zero_counts, add_node, tally_node,
  tally_nodes, is_setup_only, tally_of, build_evidence,
}

count_total-increment_count :
    (c : PytestCounts) (outcome : NodeOutcome)
    → count_total (increment_count c outcome) ≡ suc (count_total c)
unfolding count_total increment_count
count_total-increment_count c NodeOutcome.passed = omega arith
count_total-increment_count c NodeOutcome.failed = omega arith
count_total-increment_count c NodeOutcome.errors = omega arith
count_total-increment_count c NodeOutcome.skipped = omega arith
count_total-increment_count c NodeOutcome.xfailed = omega arith
count_total-increment_count c NodeOutcome.xpassed = omega arith

module _ (tally : Tally) (nodeid : String) (reports : List ValidatedPhaseReport) where
  count_total-add_node :
      (o : Option Consolidated)
      → count_total (add_node tally nodeid reports o).counts
        ≡ count_total tally.counts + length (if is_some o then nodeid ∷ [] else [])
  unfolding add_node
  count_total-add_node none = omega arith
  count_total-add_node (some c) = omega (arith, count_total-increment_count tally.counts c.outcome)

  terminal-add_node :
      (o : Option Consolidated)
      → (add_node tally nodeid reports o).terminal_nodeids
        ≡ tally.terminal_nodeids ++ (if is_some o then nodeid ∷ [] else [])
  unfolding add_node
  terminal-add_node none = sym (append-nil tally.terminal_nodeids)
  terminal-add_node (some c) = refl

keep-append : (p : String → Bool) (xs ys : List String) → keep p (xs ++ ys) ≡ keep p xs ++ keep p ys
keep-append p [] ys = refl
keep-append p (x ∷ xs) ys = elim (Bool-cases (p x)) [
  | inl e ↦ rw (e, keep-append p xs ys) refl
  | inr e ↦ rw (e, keep-append p xs ys) refl
]

-- The test has an outcome.
unfoldable pub consolidates : Bool → List ValidatedPhaseReport → String → Bool
consolidates setup_only reports nodeid =
    is_some (consolidate_node (phases_of reports nodeid) setup_only)

module _ (setup_only : Bool) (reports : List ValidatedPhaseReport) where
  -- The tally after the nodes `done`
  record Counted (base : Tally) (done : List String) (tally : Tally) : Type 0 where
    total :
        count_total tally.counts
        ≡ count_total base.counts + length (keep (consolidates setup_only reports) done)
    terminal :
        tally.terminal_nodeids
        ≡ base.terminal_nodeids ++ keep (consolidates setup_only reports) done

  tally_node-Counted :
      (tally : Tally) (nodeid : String)
      → Counted tally (nodeid ∷ []) (tally_node setup_only reports tally nodeid)
  unfolding tally_node consolidates
  tally_node-Counted tally nodeid =
      let phases : List ValidatedPhaseReport = phases_of reports nodeid in
      record {
        total = count_total-add_node tally nodeid phases (consolidate_node phases setup_only);
        terminal = terminal-add_node tally nodeid phases (consolidate_node phases setup_only);
      }

  Counted-trans :
      (base middle last : Tally) (xs ys : List String)
      → Counted base xs middle
      → Counted middle ys last
      → Counted base (xs ++ ys) last
  Counted-trans base middle last xs ys h g =
      let p : String → Bool = consolidates setup_only reports in
      record {
        total = omega (
          arith,
          h.total,
          g.total,
          length-append (keep p xs) (keep p ys),
          ap (length {A = String}) (keep-append p xs ys),
        );
        terminal =
            g.terminal
            ∙ ap (λ (done : List String). done ++ keep p ys) h.terminal
            ∙ append_assoc base.terminal_nodeids (keep p xs) (keep p ys)
            ∙ sym
                (ap (λ (kept : List String). base.terminal_nodeids ++ kept) (keep-append p xs ys));
      }

  tally_nodes-Counted :
      (nodeids : List String) (tally : Tally)
      → Counted tally nodeids (tally_nodes setup_only reports tally nodeids)
  unfolding tally_nodes
  tally_nodes-Counted [] tally = record {
    total = omega arith;
    terminal = sym (append-nil tally.terminal_nodeids);
  }
  tally_nodes-Counted (nodeid ∷ nodeids) tally =
      let next : Tally = tally_node setup_only reports tally nodeid in
      Counted-trans tally next (tally_nodes setup_only reports next nodeids) (nodeid ∷ []) nodeids
        (tally_node-Counted tally nodeid) (tally_nodes-Counted nodeids next)

zero_total : (n : ℕ) → count_total zero_counts + n ≡ n
unfolding count_total
zero_total n = omega arith

abbrev pub consolidated_nodes : ValidatedPytestSession → List String
consolidated_nodes session =
    keep (consolidates (is_setup_only session) session.reports) session.collection.final_nodeids

-- The evidence of a session counts every final test that has an outcome exactly once: the six
-- counts add up to the number of those tests, and the terminal tests are those tests in order.
pub build_evidence-consolidated_nodes :
    (session : ValidatedPytestSession)
    → (count_total (build_evidence session).0.counts ≡ length (consolidated_nodes session))
      × ((build_evidence session).1 ≡ consolidated_nodes session)
unfolding build_evidence
build_evidence-consolidated_nodes session =
    let counted : Counted (is_setup_only session) session.reports empty_tally
        session.collection.final_nodeids (tally_of session) =
      tally_nodes-Counted (is_setup_only session) session.reports session.collection.final_nodeids
        empty_tally in
    (counted.total ∙ zero_total (length (consolidated_nodes session)), counted.terminal)
