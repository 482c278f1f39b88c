-- ===== src/Reporting/Text/Stripped.antt =====
-- Stripping a text leaves its plain characters.
use pyrepo_check.Base.{
  ℕ, zero, suc, ◌≤◌, ◌≡◌, refl, ap, ◌∙◌, ◌≢◌, Bool, true, false, some, List, [], ◌∷◌, ◌++◌, arith,
  ◌==◌, ◌!=◌, nat_eq, string_eq, bool_eq, &&-eq-true, length, all, first, length-append, All,
}
use pyrepo_check.Reporting.Text.{
  remove_csi, without_csi, prepended, split_osc, after_osc, strip, strip_terminal_sequences,
}
use pyrepo_check.Reporting.Text.Laws.Pieces.{
  Piece, plain, csi, osc, IsPiece, is_osc_body, terminated, written, text_of, plain_of,
  without_csi-plain, without_csi-written, split_osc-plain, split_osc-written, IsThrough,
  strip-IsThrough, prefixed-none, prefixed-some,
}

plain-IsThrough : (c : ℕ) → (c == 27) ≡ false → IsThrough (λ s. c ∷ s) (c ∷ [])
plain-IsThrough c h = record {
  cleaned = λ s. without_csi-plain c s h;
  whole = λ s e. split_osc-plain c s h ∙ ap (prepended c) e;
  parted = λ s b a e. split_osc-plain c s h ∙ ap (prepended c) e;
}

csi-IsThrough :
    (parameters intermediates : List ℕ) (f : ℕ)
    → IsPiece (csi parameters intermediates f)
    → IsThrough (written (csi parameters intermediates f)) []
csi-IsThrough parameters intermediates f h = record {
  cleaned = λ s. without_csi-written parameters intermediates f s h;
  whole = λ s e.
      rw
        (
          split_osc-written parameters intermediates f s h,
          e,
          prefixed-none intermediates,
          prefixed-none parameters,
        )
        refl;
  parted = λ s b a e.
      rw
        (
          split_osc-written parameters intermediates f s h,
          e,
          prefixed-some intermediates (f ∷ b) a,
          prefixed-some parameters (intermediates ++ (f ∷ b)) a,
        )
        refl;
}

after_osc-terminated : (bell : Bool) (s : List ℕ) → after_osc (terminated bell s) ≡ some s
unfolding after_osc
after_osc-terminated true [] = refl
after_osc-terminated true (c ∷ s) = refl
after_osc-terminated false s = refl

after_osc-quiet :
    (c : ℕ) (s : List ℕ) → is_osc_body c ≡ true → s ≢ [] → after_osc (c ∷ s) ≡ after_osc s
unfolding after_osc
after_osc-quiet c [] h filled = absurd (filled refl)
after_osc-quiet c (d ∷ s) h filled =
    let (bell, escape) = &&-eq-true (c != 7) (c != 27) h in
    let quiet : (c == 7) ≡ false = ground (arith, bell) in
    let plain : (c == 27) ≡ false = ground (arith, escape) in rw (quiet, plain) refl

filled-append : (body : List ℕ) (bell : Bool) (s : List ℕ) → body ++ terminated bell s ≢ []
filled-append [] true s e = cc
filled-append [] false s e = cc
filled-append (c ∷ body) bell s e = cc

after_osc-written :
    (body : List ℕ) (bell : Bool) (s : List ℕ)
    → all is_osc_body body ≡ true
    → after_osc (body ++ terminated bell s) ≡ some s
after_osc-written [] bell s h = after_osc-terminated bell s
after_osc-written (c ∷ body) bell s h =
    let (first, rest) = &&-eq-true (is_osc_body c) (all is_osc_body body) h in
    after_osc-quiet c (body ++ terminated bell s) first (filled-append body bell s)
    ∙ after_osc-written body bell s rest

split_osc-osc : (s : List ℕ) → split_osc (27 ∷ (b']' ∷ s)) ≡ some ([], s)
unfolding split_osc
split_osc-osc s = refl

without_csi-nil : without_csi [] ≡ []
unfolding without_csi remove_csi
without_csi-nil = refl

strip-osc :
    (n : ℕ) (body : List ℕ) (bell : Bool) (s : List ℕ)
    → all is_osc_body body ≡ true
    → strip (suc n) (written (osc body bell) s) ≡ strip n s
unfolding strip
strip-osc n body bell s h =
    rw
      (
        split_osc-osc (body ++ terminated bell s),
        strip,
        after_osc-written body bell s h,
        without_csi-nil,
      )
      refl

length-terminated : (bell : Bool) (s : List ℕ) → length s ≤ length (terminated bell s)
length-terminated true s = omega arith
length-terminated false s = omega arith

length-written-osc :
    (body : List ℕ) (bell : Bool) (s : List ℕ) → suc (length s) ≤ length (written (osc body bell) s)
length-written-osc body bell s =
    omega (arith, length-append body (terminated bell s), length-terminated bell s)

length-written-csi :
    (ps is : List ℕ) (f : ℕ) (s : List ℕ) → length s ≤ length (written (csi ps is f) s)
length-written-csi ps is f s =
    omega (arith, length-append ps (is ++ (f ∷ s)), length-append is (f ∷ s))

strip-nil : (n : ℕ) → strip n [] ≡ []
unfolding strip split_osc without_csi remove_csi
strip-nil zero = refl
strip-nil (suc n) = refl

strip-text_of :
    (n : ℕ) (pieces : List Piece)
    → All IsPiece pieces
    → length (text_of pieces) ≤ n
    → strip n (text_of pieces) ≡ plain_of pieces
strip-text_of n [] h k = strip-nil n
strip-text_of zero (plain c ∷ pieces) (p, h) k = absurd (omega (arith, k))
strip-text_of zero (csi ps is f ∷ pieces) (p, h) k = absurd (omega (arith, k))
strip-text_of zero (osc body bell ∷ pieces) (p, h) k = absurd (omega (arith, k))
strip-text_of (suc n) (plain c ∷ pieces) (p, h) k =
    strip-IsThrough (λ s. c ∷ s) (c ∷ []) n (text_of pieces) (plain-IsThrough c p)
    ∙ ap (λ t. c ∷ t) (strip-text_of (suc n) pieces h (omega (arith, k)))
strip-text_of (suc n) (csi ps is f ∷ pieces) (p, h) k =
    strip-IsThrough (written (csi ps is f)) [] n (text_of pieces) (csi-IsThrough ps is f p)
    ∙ strip-text_of (suc n) pieces h (omega (arith, k, length-written-csi ps is f (text_of pieces)))
strip-text_of (suc n) (osc body bell ∷ pieces) (p, h) k =
    strip-osc n body bell (text_of pieces) p
    ∙ strip-text_of n pieces h (omega (arith, k, length-written-osc body bell (text_of pieces)))

-- Of a text made of characters other than ESC, complete CSI sequences, and OSC sequences that end in BEL
-- or ST and have neither BEL nor ESC inside, exactly those characters are left.
pub strip_terminal_sequences-text_of :
    (pieces : List Piece)
    → All IsPiece pieces
    → strip_terminal_sequences (text_of pieces) ≡ plain_of pieces
unfolding strip_terminal_sequences
strip_terminal_sequences-text_of pieces h =
    strip-text_of (length (text_of pieces)) pieces h (omega arith)
