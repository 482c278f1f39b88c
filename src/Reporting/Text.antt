-- ===== src/Reporting/Text.antt =====
-- reporting.py: the terminal sequences that are taken out of captured text, code point by code point.
pub mod Laws
pub mod Stripped
use pyrepo_check.Base.{
  ℕ, zero, suc, ◌+◌, ◌-◌, ◌*◌, ◌/◌, ◌%◌, ◌≤◌, ◌<◌, code, String, ◌<>◌, ◌≡◌, refl, sym, ap, ◌∙◌, ◌≢◌,
  ◌↔◌, ◌⊎◌, inl, inr, Bool, true, false, not, ◌&&◌, ◌||◌, Option, none, some, List, [], ◌∷◌, ◌++◌,
  map, arith, eq_iff, ltb, leb, if◌then◌else◌, Eq, ◌==◌, ◌!=◌, nat_eq, string_eq, bool_eq, is_none,
  is_some, or_else, Bool-cases, Option-cases, &&-eq-true, ||-false, ==_refl, ==_sym, length, take,
  drop, is_empty, all, any, keep, first, length-append, length-drop, is_empty-eq-true, All,
  length-map, All-of_keep-nil, All-map, contains, contains-keep, subset, distinct, lists_equal,
  Outcome, returned, raised, ◌>>=◌, ◌>>◌, require, refuse, >>=-eq-returned, refuse-eq-returned,
  refuse-returned, returned-injective, if_is_empty-returned, >>=-cong, Outcome-cases, traverse,
  starts_with,
}
use pyrepo_check.Base.Text.{between}
use pyrepo_check.Execution.{CapturedBytes}
use pyrepo_check.Reporting.{CapturedText}

-- The text after a run of characters of a class
abbrev pub after_run : (ℕ → Bool) → List ℕ → List ℕ
after_run in_class [] = []
after_run in_class (c ∷ s) = let rest = after_run in_class s in if in_class c then rest else c ∷ s

abbrev pub is_parameter : ℕ → Bool
is_parameter = between 48 63

abbrev pub is_intermediate : ℕ → Bool
is_intermediate = between 32 47

abbrev pub is_final : ℕ → Bool
is_final = between 64 126

unfoldable pub after_final : List ℕ → Option (List ℕ)
after_final [] = none
after_final (c ∷ s) = if is_final c then some s else none

-- `_CSI_PATTERN` at the start of a text: what follows its match. The classes of its three parts are
-- disjoint, so that no match gives back what it has taken.
unfoldable pub after_csi : List ℕ → Option (List ℕ)
after_csi [] = none
after_csi (c ∷ []) = none
after_csi (c ∷ (d ∷ s)) =
    if c == 27 && d == b'['
    then after_final (after_run is_intermediate (after_run is_parameter s))
    else none

-- `_CSI_PATTERN.sub("", text)`, on fuel: each match and each other character uses one.
unfoldable pub remove_csi : ℕ → List ℕ → List ℕ
remove_csi zero text = text
remove_csi (suc fuel) [] = []
remove_csi (suc fuel) (c ∷ s) = elim (after_csi (c ∷ s)) [
  | none ↦ c ∷ remove_csi fuel s
  | some rest ↦ remove_csi fuel rest
]

-- A match takes at least one character.
unfoldable pub without_csi : List ℕ → List ℕ
without_csi text = remove_csi (length text) text

abbrev pub prepended : ℕ → Option (List ℕ × List ℕ) → Option (List ℕ × List ℕ)
prepended c none = none
prepended c (some (before, rest)) = some (c ∷ before, rest)

-- The text before the first "\x1b]" and the text after it.
unfoldable pub split_osc : List ℕ → Option (List ℕ × List ℕ)
split_osc [] = none
split_osc (c ∷ []) = none
split_osc (c ∷ (d ∷ s)) =
    let later = split_osc (d ∷ s) in
    if c == 27 && d == b']' then some ([], s) else prepended c later

-- The text after the first BEL or "\x1b\\", whichever comes first.
unfoldable pub after_osc : List ℕ → Option (List ℕ)
after_osc [] = none
after_osc (c ∷ []) = if c == 7 then some [] else none
after_osc (c ∷ (d ∷ s)) =
    let later = after_osc (d ∷ s) in
    if c == 7 then some (d ∷ s) else if c == 27 && d == b'\\' then some s else later

-- The loop of `strip_terminal_sequences`: each finished OSC sequence uses one unit of fuel.
unfoldable pub strip : ℕ → List ℕ → List ℕ
strip zero text = without_csi text
strip (suc fuel) text = elim (split_osc text) [
  | none ↦ without_csi text
  | some (before, after) ↦
      without_csi before
      ++ elim (after_osc after) [ none ↦ 27 ∷ (b']' ∷ after) | some rest ↦ strip fuel rest ]
]

unfoldable pub strip_terminal_sequences : List ℕ → List ℕ
strip_terminal_sequences text = strip (length text) text

-- `decode` is UTF-8 with replacement.
module _ (decode : List ℕ → List ℕ) where
  -- `capture_text` of captured bytes
  unfoldable pub capture_text : CapturedBytes → CapturedText
  capture_text raw = record {
    captured = true;
    text = strip_terminal_sequences (decode raw.tail);
    truncated = ltb 0 raw.omitted_bytes;
    omitted_bytes = raw.omitted_bytes;
  }
