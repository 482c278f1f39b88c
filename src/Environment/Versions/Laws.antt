-- ===== src/Environment/Versions/Laws.antt =====
use pyrepo_check.Base.{
  ℕ, zero, suc, ◌-◌, ◌≤◌, ◌≡◌, refl, ap, ◌∙◌, Bool, false, not, ◌&&◌, ◌||◌, List, [], ◌∷◌, ◌++◌,
  arith, ltb, ◌==◌, nat_eq, string_eq, bool_eq, length,
}
use pyrepo_check.Environment.Versions.{
  zeros, max, padded, tuple_lt, tuple_ge, numeric_at_least, numeric_before,
}

-- The order of versions read as endless sequences, with zeros after the written numbers.
abbrev pub version_lt : List ℕ → List ℕ → Bool
version_lt xs [] = false
version_lt [] (y ∷ ys) = ltb 0 y || version_lt [] ys
version_lt (x ∷ xs) (y ∷ ys) = ltb x y || (x == y && version_lt xs ys)

shorter : (w n : ℕ) → zeros (suc w - suc n) ≡ zeros (w - n)
shorter w n = ap zeros (omega arith)

whole : (w : ℕ) → zeros (w - 0) ≡ zeros w
whole w = ap zeros (omega arith)

below_zeros : (w : ℕ) (xs : List ℕ) → tuple_lt (xs ++ zeros (w - length xs)) (zeros w) ≡ false
below_zeros zero xs = refl
below_zeros (suc w) [] = rw (whole (suc w)) (rw (whole w) at (below_zeros w []))
below_zeros (suc w) (x ∷ xs) = rw (shorter w (length xs)) (ground (arith, below_zeros w xs))

tuple_lt-padded :
    (w : ℕ) (xs ys : List ℕ)
    → length xs ≤ w
    → length ys ≤ w
    → tuple_lt (padded xs w) (padded ys w) ≡ version_lt xs ys
tuple_lt-padded w xs [] h k = rw (whole w) (below_zeros w xs)
tuple_lt-padded zero xs (y ∷ ys) h k = absurd (omega (arith, k))
tuple_lt-padded (suc w) [] (y ∷ ys) h k =
    let rest : tuple_lt (zeros w) (padded ys w) ≡ version_lt [] ys =
      rw (whole w) at (tuple_lt-padded w [] ys (omega arith) (omega (arith, k))) in
    rw (whole (suc w), shorter w (length ys)) (ground (arith, rest))
tuple_lt-padded (suc w) (x ∷ xs) (y ∷ ys) h k =
    let rest = tuple_lt-padded w xs ys (omega (arith, h)) (omega (arith, k)) in
    rw (shorter w (length xs), shorter w (length ys), rest) refl

tuple_ge-tuple_lt : (xs ys : List ℕ) → tuple_ge xs ys ≡ not (tuple_lt xs ys)
tuple_ge-tuple_lt xs [] = refl
tuple_ge-tuple_lt [] (y ∷ ys) = refl
tuple_ge-tuple_lt (x ∷ xs) (y ∷ ys) = rw (tuple_ge-tuple_lt xs ys) (ground arith)

le-max : (a b : ℕ) → (a ≤ max a b) × (b ≤ max a b)
le-max a b = ground arith

pub numeric_before-version_lt :
    (candidate maximum : List ℕ) → numeric_before candidate maximum ≡ version_lt candidate maximum
unfolding numeric_before
numeric_before-version_lt candidate maximum =
    let (wide, high) = le-max (length candidate) (length maximum) in
    tuple_lt-padded (max (length candidate) (length maximum)) candidate maximum wide high

pub numeric_at_least-version_lt :
    (candidate minimum : List ℕ)
    → numeric_at_least candidate minimum ≡ not (version_lt candidate minimum)
unfolding numeric_at_least numeric_before
numeric_at_least-version_lt candidate minimum =
    let width = max (length candidate) (length minimum) in
    tuple_ge-tuple_lt (padded candidate width) (padded minimum width)
    ∙ ap not (numeric_before-version_lt candidate minimum)
