-- ===== src/Reporting/Text/Laws.antt =====
-- The fuel of the two loops is enough, and what is left of a text that is told piece by piece.
pub mod Pieces
use pyrepo_check.Base.{
  ℕ, zero, suc, ◌+◌, ◌-◌, ◌*◌, ◌/◌, ◌%◌, ◌≤◌, ◌<◌, code, String, ◌<>◌, ◌≡◌, refl, sym, ap, ◌∙◌, ◌≢◌,
  ◌↔◌, ◌⊎◌, inl, inr, Bool, true, false, not, ◌&&◌, ◌||◌, Option, none, some, List, [], ◌∷◌, ◌++◌,
  map, arith, eq_iff, ltb, leb, if◌then◌else◌, Eq, ◌==◌, ◌!=◌, nat_eq, string_eq, bool_eq, is_none,
  is_some, or_else, Bool-cases, Option-cases, &&-eq-true, ||-false, ==_refl, ==_sym, length, take,
  drop, is_empty, all, any, keep, first, length-append, length-drop, is_empty-eq-true, All,
  length-map, All-of_keep-nil, All-map, contains, contains-keep, subset, distinct, lists_equal,
  Outcome, returned, raised, ◌>>=◌, ◌>>◌, require, refuse, >>=-eq-returned, refuse-eq-returned,
  refuse-returned, returned-injective, if_is_empty-returned, >>=-cong, Outcome-cases, traverse,
  starts_with,
}
use pyrepo_check.Reporting.Text.{
  after_run, is_parameter, is_intermediate, is_final, after_final, after_csi, remove_csi,
  without_csi, prepended, split_osc, after_osc, strip, strip_terminal_sequences,
}

length-after_run : (p : ℕ → Bool) (s : List ℕ) → length (after_run p s) ≤ length s
length-after_run p [] = omega arith
length-after_run p (c ∷ s) = ground (arith, length-after_run p s)

length-after_final :
    (s : List ℕ) {rest : List ℕ} → after_final s ≡ some rest → length rest < length s
unfolding after_final
length-after_final [] h = cc
length-after_final (c ∷ s) h = ground (arith, h)

pub length-after_csi :
    (s : List ℕ) {rest : List ℕ} → after_csi s ≡ some rest → length rest < length s
unfolding after_csi
length-after_csi [] h = cc
length-after_csi (c ∷ []) h = cc
length-after_csi (c ∷ (d ∷ s)) h = elim (Bool-cases (c == 27 && d == b'[')) [
  | inl starts ↦
      let later =
        length-after_final (after_run is_intermediate (after_run is_parameter s))
          (rw starts at h) in
      omega (
        arith,
        later,
        length-after_run is_intermediate (after_run is_parameter s),
        length-after_run is_parameter s,
      )
  | inr other ↦ ground (arith, h, other)
]

-- More fuel than characters changes nothing.
pub remove_csi-fuel :
    (f g : ℕ) (s : List ℕ) → length s ≤ f → length s ≤ g → remove_csi f s ≡ remove_csi g s
unfolding remove_csi
remove_csi-fuel zero zero s h k = refl
remove_csi-fuel zero (suc g) [] h k = refl
remove_csi-fuel (suc f) zero [] h k = refl
remove_csi-fuel (suc f) (suc g) [] h k = refl
remove_csi-fuel zero (suc g) (c ∷ s) h k = absurd (omega (arith, h))
remove_csi-fuel (suc f) zero (c ∷ s) h k = absurd (omega (arith, k))
remove_csi-fuel (suc f) (suc g) (c ∷ s) h k = elim (Option-cases (after_csi (c ∷ s))) [
  | inl e ↦
      rw (e, remove_csi)
        (ap (λ t. c ∷ t) (remove_csi-fuel f g s (omega (arith, h)) (omega (arith, k))))
  | inr (rest, e) ↦
      let shorter = length-after_csi (c ∷ s) e in
      rw (e, remove_csi)
        (remove_csi-fuel f g rest (omega (arith, h, shorter)) (omega (arith, k, shorter)))
]

length-split_osc :
    (s : List ℕ) {before rest : List ℕ} → split_osc s ≡ some (before, rest) → length rest < length s
unfolding split_osc
length-split_osc [] h = cc
length-split_osc (c ∷ []) h = cc
length-split_osc (c ∷ (d ∷ s)) h = elim (Bool-cases (c == 27 && d == b']')) [
  | inl starts ↦ ground (arith, h, starts)
  | inr other ↦ elim (Option-cases (split_osc (d ∷ s))) [
    | inl e ↦ ground (arith, h, other, e)
    | inr ((b, r), e) ↦ ground (arith, h, other, e, length-split_osc (d ∷ s) e)
  ]
]

length-after_osc : (s : List ℕ) {rest : List ℕ} → after_osc s ≡ some rest → length rest < length s
unfolding after_osc
length-after_osc [] h = cc
length-after_osc (c ∷ []) h = ground (arith, h)
length-after_osc (c ∷ (d ∷ s)) h = elim (Bool-cases (c == 7)) [
  | inl bell ↦ ground (arith, h, bell)
  | inr quiet ↦ elim (Bool-cases (c == 27 && d == b'\\')) [
    | inl ends ↦ ground (arith, h, quiet, ends)
    | inr other ↦
        let later = length-after_osc (d ∷ s) (rw (quiet, other) at h) in omega (arith, later)
  ]
]

split_osc-nil : split_osc [] ≡ none
unfolding split_osc
split_osc-nil = refl

strip-fuel : (f g : ℕ) (s : List ℕ) → length s ≤ f → length s ≤ g → strip f s ≡ strip g s
unfolding strip
strip-fuel zero zero s h k = refl
strip-fuel zero (suc g) [] h k = rw (split_osc-nil, strip) refl
strip-fuel (suc f) zero [] h k = rw (split_osc-nil, strip) refl
strip-fuel zero (suc g) (c ∷ s) h k = absurd (omega (arith, h))
strip-fuel (suc f) zero (c ∷ s) h k = absurd (omega (arith, k))
strip-fuel (suc f) (suc g) s h k = elim (Option-cases (split_osc s)) [
  | inl e ↦ rw (e, strip) refl
  | inr ((before, after), e) ↦ elim (Option-cases (after_osc after)) [
    | inl unfinished ↦ rw (e, unfinished, strip) refl
    | inr (rest, ended) ↦
        let shorter = length-split_osc s e in
        let less = length-after_osc after ended in
        rw (e, ended, strip)
          (ap (λ t. without_csi before ++ t)
            (strip-fuel f g rest (omega (arith, h, shorter, less))
              (omega (arith, k, shorter, less))))
  ]
]

-- The loop over the OSC sequences of a text ends: it needs no more turns than the text has
-- characters, so that with more turns the result is the same.
pub strip-strip_terminal_sequences :
    (fuel : ℕ) (text : List ℕ)
    → length text ≤ fuel
    → strip fuel text ≡ strip_terminal_sequences text
unfolding strip_terminal_sequences
strip-strip_terminal_sequences fuel text h = strip-fuel fuel (length text) text h (omega arith)
