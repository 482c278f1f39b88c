-- ===== src/Reporting/Text/Laws/Pieces.antt =====
-- A text told as plain characters, CSI sequences and finished OSC sequences.
use pyrepo_check.Base.{
  ℕ, suc, ◌≤◌, ◌≡◌, refl, ap, ◌∙◌, inl, inr, Bool, true, false, ◌&&◌, Option, none, some, List, [],
  ◌∷◌, ◌++◌, arith, ◌==◌, ◌!=◌, nat_eq, string_eq, bool_eq, Option-cases, &&-eq-true, length, all,
  first, length-append,
}
use pyrepo_check.Reporting.Text.{
  after_run, is_parameter, is_intermediate, is_final, after_final, after_csi, remove_csi,
  without_csi, prepended, split_osc, after_osc, strip,
}
use mathlib.Core.List.{append_assoc}
use pyrepo_check.Reporting.Text.Laws.{remove_csi-fuel}

-- `osc body bell` ends in BEL or in "\x1b\\".
pub data Piece : Type 0 where
  plain : ℕ → Piece
  csi : List ℕ → List ℕ → ℕ → Piece
  osc : List ℕ → Bool → Piece

abbrev pub is_osc_body : ℕ → Bool
is_osc_body c = c != 7 && c != 27

abbrev pub IsPiece : Piece → Type 0
IsPiece (plain c) = (c == 27) ≡ false
IsPiece (csi parameters intermediates final) =
    (all is_parameter parameters ≡ true)
    × (all is_intermediate intermediates ≡ true)
    × (is_final final ≡ true)
IsPiece (osc body bell) = all is_osc_body body ≡ true

abbrev pub terminated : Bool → List ℕ → List ℕ
terminated true s = 7 ∷ s
terminated false s = 27 ∷ (b'\\' ∷ s)

-- The text of a piece before another text
abbrev pub written : Piece → List ℕ → List ℕ
written (plain c) s = c ∷ s
written (csi parameters intermediates final) s =
    27 ∷ (b'[' ∷ (parameters ++ (intermediates ++ (final ∷ s))))
written (osc body bell) s = 27 ∷ (b']' ∷ (body ++ terminated bell s))

abbrev pub text_of : List Piece → List ℕ
text_of [] = []
text_of (piece ∷ pieces) = written piece (text_of pieces)

-- The plain characters
abbrev pub plain_of : List Piece → List ℕ
plain_of [] = []
plain_of (plain c ∷ pieces) = c ∷ plain_of pieces
plain_of (csi parameters intermediates final ∷ pieces) = plain_of pieces
plain_of (osc body bell ∷ pieces) = plain_of pieces

after_csi-plain : (c : ℕ) (s : List ℕ) → (c == 27) ≡ false → after_csi (c ∷ s) ≡ none
unfolding after_csi
after_csi-plain c [] h = refl
after_csi-plain c (d ∷ s) h = rw h refl

pub without_csi-plain :
    (c : ℕ) (s : List ℕ) → (c == 27) ≡ false → without_csi (c ∷ s) ≡ c ∷ without_csi s
unfolding without_csi remove_csi
without_csi-plain c s h = rw (after_csi-plain c s h, remove_csi) refl

after_run-append :
    (p : ℕ → Bool) (xs s : List ℕ) → all p xs ≡ true → after_run p (xs ++ s) ≡ after_run p s
after_run-append p [] s h = refl
after_run-append p (x ∷ xs) s h =
    let (first, rest) = &&-eq-true (p x) (all p xs) h in rw first (after_run-append p xs s rest)

after_final-final : (f : ℕ) (s : List ℕ) → is_final f ≡ true → after_final (f ∷ s) ≡ some s
unfolding after_final
after_final-final f s h = rw h refl

no_parameter : (c : ℕ) → is_final c ≡ true → is_parameter c ≡ false
no_parameter c h = ground (arith, h)

no_intermediate : (c : ℕ) → is_final c ≡ true → is_intermediate c ≡ false
no_intermediate c h = ground (arith, h)

intermediate-parameter : (c : ℕ) → is_intermediate c ≡ true → is_parameter c ≡ false
intermediate-parameter c h = ground (arith, h)

after_parameters :
    (intermediates : List ℕ) (f : ℕ) (s : List ℕ)
    → all is_intermediate intermediates ≡ true
    → is_final f ≡ true
    → after_run is_parameter (intermediates ++ (f ∷ s)) ≡ intermediates ++ (f ∷ s)
after_parameters [] f s h k = rw (no_parameter f k) refl
after_parameters (i ∷ is) f s h k =
    rw (intermediate-parameter i (&&-eq-true (is_intermediate i) (all is_intermediate is) h).0) refl

after_csi-written :
    (parameters intermediates : List ℕ) (f : ℕ) (s : List ℕ)
    → IsPiece (csi parameters intermediates f)
    → after_csi (written (csi parameters intermediates f) s) ≡ some s
unfolding after_csi
after_csi-written parameters intermediates f s (p, i, k) =
    rw
      (
        after_run-append is_parameter parameters (intermediates ++ (f ∷ s)) p,
        after_parameters intermediates f s i k,
        after_run-append is_intermediate intermediates (f ∷ s) i,
        no_intermediate f k,
      )
      (after_final-final f s k)

longer : (xs s : List ℕ) → length s ≤ length (xs ++ s)
longer xs s = omega (arith, length-append xs s)

pub without_csi-written :
    (parameters intermediates : List ℕ) (f : ℕ) (s : List ℕ)
    → IsPiece (csi parameters intermediates f)
    → without_csi (written (csi parameters intermediates f) s) ≡ without_csi s
unfolding without_csi remove_csi
without_csi-written parameters intermediates f s h =
    let tail = intermediates ++ (f ∷ s) in
    let far : length s ≤ length (b'[' ∷ (parameters ++ tail)) =
      omega (arith, longer parameters tail, longer intermediates (f ∷ s)) in
    rw (after_csi-written parameters intermediates f s h, remove_csi)
      (remove_csi-fuel (length (b'[' ∷ (parameters ++ tail))) (length s) s far (omega arith))

-- A character that begins no OSC sequence
pub split_osc-plain :
    (c : ℕ) (s : List ℕ) → (c == 27) ≡ false → split_osc (c ∷ s) ≡ prepended c (split_osc s)
unfolding split_osc
split_osc-plain c [] h = refl
split_osc-plain c (d ∷ s) h = rw h refl

abbrev Split : Type 0
Split = Option (List ℕ × List ℕ)

abbrev prefixed : List ℕ → Split → Split
prefixed [] split = split
prefixed (c ∷ cs) split = prepended c (prefixed cs split)

pub prefixed-none : (xs : List ℕ) → prefixed xs none ≡ none
prefixed-none [] = refl
prefixed-none (x ∷ xs) = rw (prefixed-none xs) refl

pub prefixed-some : (xs b a : List ℕ) → prefixed xs (some (b, a)) ≡ some (xs ++ b, a)
prefixed-some [] b a = refl
prefixed-some (x ∷ xs) b a = rw (prefixed-some xs b a) refl

abbrev is_quiet : ℕ → Bool
is_quiet c = c != 27

split_osc-append :
    (xs s : List ℕ) → all is_quiet xs ≡ true → split_osc (xs ++ s) ≡ prefixed xs (split_osc s)
split_osc-append [] s h = refl
split_osc-append (x ∷ xs) s h =
    let (first, rest) = &&-eq-true (is_quiet x) (all is_quiet xs) h in
    split_osc-plain x (xs ++ s) (ground (arith, first))
    ∙ ap (prepended x) (split_osc-append xs s rest)

all_quiet :
    (p : ℕ → Bool)
    → ((c : ℕ) → p c ≡ true → is_quiet c ≡ true)
    → (xs : List ℕ) → all p xs ≡ true
    → all is_quiet xs ≡ true
all_quiet p f [] h = refl
all_quiet p f (x ∷ xs) h =
    let (first, rest) = &&-eq-true (p x) (all p xs) h in rw (f x first, all_quiet p f xs rest) refl

split_osc-bracket :
    (s : List ℕ) → split_osc (27 ∷ (b'[' ∷ s)) ≡ prepended 27 (prepended b'[' (split_osc s))
unfolding split_osc
split_osc-bracket s = ap (prepended 27) (split_osc-plain b'[' s refl)

pub split_osc-written :
    (parameters intermediates : List ℕ) (f : ℕ) (s : List ℕ)
    → IsPiece (csi parameters intermediates f)
    → split_osc (written (csi parameters intermediates f) s)
      ≡ prepended 27 (
          prepended b'[' (prefixed parameters (prefixed intermediates (prepended f (split_osc s)))))
split_osc-written parameters intermediates f s (p, i, k) =
    split_osc-bracket (parameters ++ (intermediates ++ (f ∷ s)))
    ∙ ap (λ split. prepended 27 (prepended b'[' split))
        (split_osc-append parameters (intermediates ++ (f ∷ s))
            (all_quiet is_parameter (λ c h. ground (arith, h)) parameters p)
          ∙ ap (prefixed parameters) (
              split_osc-append intermediates (f ∷ s)
                (all_quiet is_intermediate (λ c h. ground (arith, h)) intermediates i)
              ∙ ap (prefixed intermediates) (split_osc-plain f s (ground (arith, k)))))

-- What stands before a text does not change where its OSC sequences are.
pub record IsThrough (before : List ℕ → List ℕ) (shown : List ℕ) : Type 0 where
  pub cleaned : (s : List ℕ) → without_csi (before s) ≡ shown ++ without_csi s
  pub whole : (s : List ℕ) → split_osc s ≡ none → split_osc (before s) ≡ none
  pub parted :
      (s b a : List ℕ) → split_osc s ≡ some (b, a) → split_osc (before s) ≡ some (before b, a)

pub strip-IsThrough :
    (before : List ℕ → List ℕ) (shown : List ℕ) (n : ℕ) (s : List ℕ)
    → IsThrough before shown
    → strip (suc n) (before s) ≡ shown ++ strip (suc n) s
unfolding strip
strip-IsThrough before shown n s h = elim (Option-cases (split_osc s)) [
  | inl e ↦ rw (e, h.whole s e, strip) (h.cleaned s)
  | inr ((b, a), e) ↦ elim (Option-cases (after_osc a)) [
    | inl unfinished ↦
        rw (e, h.parted s b a e, unfinished, strip, h.cleaned b)
          (append_assoc shown (without_csi b) _)
    | inr (rest, ended) ↦
        rw (e, h.parted s b a e, ended, strip, h.cleaned b)
          (append_assoc shown (without_csi b) (strip n rest))
  ]
]
