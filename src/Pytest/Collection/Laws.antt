-- ===== src/Pytest/Collection/Laws.antt =====
-- An accepted collection is a partition.
use pyrepo_check.Base.{
  String, ◌≡◌, refl, sym, ◌∙◌, inl, inr, Bool, true, false, ◌||◌, List, [], ◌∷◌, ◌++◌, arith, ◌==◌,
  nat_eq, string_eq, bool_eq, Bool-cases, all, any, contains, subset, distinct, Outcome, returned,
  ◌>>◌, require, refuse-eq-returned,
}
use pyrepo_check.Pytest.Collection.{unique_nodeids, overlaps, same_set, validate_collection}

require-eq-returned :
    {E B : Type 0} (test : Bool) (e : E) (k : Outcome E B) {b : B}
    → (require test e >> k) ≡ returned b
    → (test ≡ true) × (k ≡ returned b)
require-eq-returned true e k h = (refl, h)
require-eq-returned false e k h = cc

-- The test is a final one, a deselected one, or one that was removed without being deselected.
pub data Placed (x : String) (final deselected uncovered : List String) : Type 0 where
  kept :
      contains final x ≡ true
      → contains deselected x ≡ false
      → contains uncovered x ≡ false
      → Placed x final deselected uncovered
  left_out :
      contains final x ≡ false
      → contains deselected x ≡ true
      → contains uncovered x ≡ false
      → Placed x final deselected uncovered
  removed :
      contains final x ≡ false
      → contains deselected x ≡ false
      → contains uncovered x ≡ true
      → Placed x final deselected uncovered

all-contains :
    (p : String → Bool) (xs : List String) (x : String)
    → all p xs ≡ true
    → contains xs x ≡ true
    → p x ≡ true
all-contains p [] x h c = cc
all-contains p (y ∷ ys) x h c = elim (Bool-cases (x == y)) [
  | inl e ↦ rw ((string_eq.beq_exact x y).0 e) (ground (arith, h))
  | inr e ↦ all-contains p ys x (ground (arith, h)) (ground (arith, c, e))
]

any-contains :
    (p : String → Bool) (xs : List String) (x : String)
    → any p xs ≡ false
    → contains xs x ≡ true
    → p x ≡ false
any-contains p [] x h c = cc
any-contains p (y ∷ ys) x h c = elim (Bool-cases (x == y)) [
  | inl e ↦ rw ((string_eq.beq_exact x y).0 e) (ground (arith, h))
  | inr e ↦ any-contains p ys x (ground (arith, h)) (ground (arith, c, e))
]

contains-append :
    (xs ys : List String) (x : String) → contains (xs ++ ys) x ≡ (contains xs x || contains ys x)
contains-append [] ys x = refl
contains-append (y ∷ xs) ys x = ground (arith, contains-append xs ys x)

or_assoc : (p q r : Bool) → ((p || q) || r) ≡ (p || q || r)
or_assoc true q r = refl
or_assoc false q r = refl

contains-append3 :
    (xs ys zs : List String) (x : String)
    → contains (xs ++ ys ++ zs) x ≡ (contains xs x || contains ys x || contains zs x)
contains-append3 xs ys zs x =
    rw (contains-append (xs ++ ys) zs x, contains-append xs ys x)
      (or_assoc (contains xs x) (contains ys x) (contains zs x))

require-returned :
    {E : Type 0} (test : Bool) (e : E) {u : Unit} → require test e ≡ returned u → test ≡ true
require-returned true e h = refl
require-returned false e h = cc

-- What an accepted collection has passed
record Facts (initial final deselected uncovered : List String) : Type 0 where
  disjoint :
      (overlaps final deselected || overlaps final uncovered || overlaps deselected uncovered)
      ≡ false
  same : same_set (final ++ deselected ++ uncovered) initial ≡ true

validate_collection-Facts :
    (initial final deselected uncovered : List String)
    → validate_collection initial final deselected uncovered ≡ returned tt
    → Facts initial final deselected uncovered
unfolding validate_collection unique_nodeids
validate_collection-Facts initial final deselected uncovered h =
    let (_, h1) = require-eq-returned (distinct initial) _ _ h in
    let (_, h2) = require-eq-returned (distinct final) _ _ h1 in
    let (_, h3) = require-eq-returned (distinct deselected) _ _ h2 in
    let (_, h4) = require-eq-returned (distinct uncovered) _ _ h3 in
    let (_, h5) = require-eq-returned (subset final initial) _ _ h4 in
    let (_, h6) = require-eq-returned (subset deselected initial) _ _ h5 in
    let (_, h7) = require-eq-returned (subset uncovered initial) _ _ h6 in
    let (apart, h8) =
      refuse-eq-returned
        (overlaps final deselected || overlaps final uncovered || overlaps deselected uncovered) _ _
        h7 in
    record { disjoint = apart; same = require-returned _ _ h8 }

place :
    (x : String) (final deselected uncovered : List String)
    → (contains final x || contains deselected x || contains uncovered x) ≡ true
    → (contains final x ≡ true → contains deselected x ≡ false)
    → (contains final x ≡ true → contains uncovered x ≡ false)
    → (contains deselected x ≡ true → contains uncovered x ≡ false)
    → Placed x final deselected uncovered
place x final deselected uncovered some_one fd fu du = elim (Bool-cases (contains final x)) [
  | inl f ↦ kept f (fd f) (fu f)
  | inr f ↦ elim (Bool-cases (contains deselected x)) [
    | inl d ↦ left_out f d (du d)
    | inr d ↦ removed f d (ground (arith, some_one, f, d))
  ]
]

-- If the collection of an artifact is accepted, then every test that was collected at first is
-- placed exactly once: it is a final test, a deselected one, or one that was removed without being
-- deselected, and never two of these.
pub validate_collection-Placed :
    (initial final deselected uncovered : List String) (x : String)
    → validate_collection initial final deselected uncovered ≡ returned tt
    → contains initial x ≡ true
    → Placed x final deselected uncovered
unfolding overlaps same_set
validate_collection-Placed initial final deselected uncovered x h c =
    let facts : Facts initial final deselected uncovered =
      validate_collection-Facts initial final deselected uncovered h in
    let back : subset initial (final ++ deselected ++ uncovered) ≡ true =
      ground (arith, facts.same) in
    let found : contains (final ++ deselected ++ uncovered) x ≡ true =
      all-contains (contains (final ++ deselected ++ uncovered)) initial x back c in
    let apart : (overlaps final deselected
          || overlaps final uncovered
          || overlaps deselected uncovered)
        ≡ false =
      facts.disjoint in
    place x final deselected uncovered (sym (contains-append3 final deselected uncovered x) ∙ found)
      (any-contains (contains deselected) final x (ground (arith, apart)))
      (any-contains (contains uncovered) final x (ground (arith, apart)))
      (any-contains (contains uncovered) deselected x (ground (arith, apart)))
