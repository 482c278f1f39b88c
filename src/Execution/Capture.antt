-- ===== src/Execution/Capture.antt =====
-- execution.py: the bounded capture of a child's output. The limit is a parameter of the section, so
-- that nothing here computes with 65536; `capture_limit_bytes` is the program's value.
pub mod Laws
use pyrepo_check.Base.{
  ℕ, zero, suc, ◌+◌, ◌-◌, ◌*◌, ◌/◌, ◌%◌, ◌≤◌, ◌<◌, code, String, ◌<>◌, ◌≡◌, refl, sym, ap, ◌∙◌, ◌≢◌,
  ◌↔◌, ◌⊎◌, inl, inr, Bool, true, false, not, ◌&&◌, ◌||◌, Option, none, some, List, [], ◌∷◌, ◌++◌,
  map, arith, eq_iff, ltb, leb, if◌then◌else◌, Eq, ◌==◌, ◌!=◌, nat_eq, string_eq, bool_eq, is_none,
  is_some, or_else, Bool-cases, Option-cases, &&-eq-true, ||-false, ==_refl, ==_sym, length, take,
  drop, is_empty, all, any, keep, first, length-append, length-drop, is_empty-eq-true, All,
  length-map, All-of_keep-nil, All-map, contains, contains-keep, subset, distinct, lists_equal,
  Outcome, returned, raised, ◌>>=◌, ◌>>◌, require, refuse, >>=-eq-returned, refuse-eq-returned,
  refuse-returned, returned-injective, if_is_empty-returned, >>=-cong, Outcome-cases, traverse,
  starts_with,
}
use pyrepo_check.Execution.{CapturedBytes}

abbrev pub capture_limit_bytes : ℕ
capture_limit_bytes = 65536

-- `_TailAccumulator`
pub record TailAccumulator : Type 0 where
  pub tail : List ℕ
  pub total_bytes : ℕ

abbrev pub empty_accumulator : TailAccumulator
empty_accumulator = record { tail = []; total_bytes = 0 }

-- `chunk[-limit:]` for a positive limit
abbrev pub last : ℕ → List ℕ → List ℕ
last limit chunk = drop (length chunk - limit) chunk

module _ (limit : ℕ) where
  -- A difference that is not positive deletes nothing, as `-` on ℕ does.
  unfoldable pub feed : TailAccumulator → List ℕ → TailAccumulator
  feed state chunk =
      let size = length chunk in
      let overflow = length state.tail + size - limit in
      if leb limit size
      then record { tail = last limit chunk; total_bytes = state.total_bytes + size }
      else record {
        tail = drop overflow state.tail ++ chunk;
        total_bytes = state.total_bytes + size;
      }

  -- `_drain_pipe`, over what the reads return: an empty read is the end of the stream. There
  -- is no consumer beside the accumulator.
  unfoldable pub drain : List (List ℕ) → TailAccumulator → TailAccumulator
  drain [] state = state
  drain ([] ∷ reads) state = state
  drain ((b ∷ bs) ∷ reads) state = drain reads (feed state (b ∷ bs))

  -- `_normalize_buffered_output` of bytes
  unfoldable pub normalize_buffered_output : List ℕ → CapturedBytes
  normalize_buffered_output raw =
      let retained = last limit raw in
      record { tail = retained; omitted_bytes = length raw - length retained }

unfoldable pub finish : TailAccumulator → CapturedBytes
finish state = record { tail = state.tail; omitted_bytes = state.total_bytes - length state.tail }
