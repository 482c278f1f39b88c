-- ===== src/Execution/Capture/Laws.antt =====
-- Streaming and buffering capture the same.
use pyrepo_check.Base.{
  ℕ, zero, suc, ◌+◌, ◌-◌, ◌≤◌, ◌<◌, ◌≡◌, refl, sym, ap, ◌∙◌, inl, inr, true, false, List, [], ◌∷◌,
  ◌++◌, arith, leb, nat_eq, string_eq, bool_eq, Bool-cases, length, drop, length-append,
  length-drop,
}
use mathlib.Core.List.{append-nil, append_assoc}
use pyrepo_check.Execution.Capture.{
  TailAccumulator, empty_accumulator, last, feed, drain, finish, normalize_buffered_output,
}

drop-append_le : (n : ℕ) (xs ys : List ℕ) → n ≤ length xs → drop n (xs ++ ys) ≡ drop n xs ++ ys
drop-append_le zero xs ys h = refl
drop-append_le (suc n) [] ys h = absurd (omega arith)
drop-append_le (suc n) (x ∷ xs) ys h = drop-append_le n xs ys (omega arith)

drop_at : (j k : ℕ) (xs : List ℕ) → j ≡ k → drop j xs ≡ drop k xs
drop_at j k xs e = ap (λ (n : ℕ). drop n xs) e

drop_nil : (n : ℕ) → drop {A = ℕ} n [] ≡ []
drop_nil zero = refl
drop_nil (suc n) = refl

drop-append_add : (n : ℕ) (xs ys : List ℕ) → drop (length xs + n) (xs ++ ys) ≡ drop n ys
drop-append_add n [] ys = drop_at (0 + n) n ys (omega arith)
drop-append_add n (x ∷ xs) ys =
    drop_at (suc (length xs) + n) (suc (length xs + n)) (x ∷ (xs ++ ys)) (omega arith)
    ∙ drop-append_add n xs ys

drop-drop : (m n : ℕ) (xs : List ℕ) → drop m (drop n xs) ≡ drop (n + m) xs
drop-drop m zero xs = drop_at m (0 + m) xs (omega arith)
drop-drop m (suc n) [] = drop_nil m ∙ sym (drop_nil (suc n + m))
drop-drop m (suc n) (x ∷ xs) =
    drop-drop m n xs ∙ drop_at (suc (n + m)) (suc n + m) (x ∷ xs) (omega arith)

leb-true : (a b : ℕ) → leb a b ≡ true → a ≤ b
leb-true a b e = ground arith

leb-false : (a b : ℕ) → leb a b ≡ false → b < a
leb-false a b e = ground arith

-- What the state is after the bytes `seen`.
pub record Holds (limit : ℕ) (seen : List ℕ) (state : TailAccumulator) : Type 0 where
  pub tail : state.tail ≡ last limit seen
  pub total : state.total_bytes ≡ length seen

module _ (limit : ℕ) where
  last-append_long :
      (seen chunk : List ℕ) → limit ≤ length chunk → last limit (seen ++ chunk) ≡ last limit chunk
  last-append_long seen chunk h =
      drop_at (length (seen ++ chunk) - limit) (length seen + (length chunk - limit))
        (seen ++ chunk) (omega (arith, length-append seen chunk, h))
      ∙ drop-append_add (length chunk - limit) seen chunk

  last-append_short :
      (seen chunk : List ℕ)
      → length chunk < limit
      → last limit (seen ++ chunk)
        ≡ drop (length (last limit seen) + length chunk - limit) (last limit seen) ++ chunk
  last-append_short seen chunk h =
      let k : ℕ = length seen - limit in
      let m : ℕ = length (last limit seen) + length chunk - limit in
      let n : ℕ = length (seen ++ chunk) - limit in
      let e : n ≡ k + m = omega (arith, length-append seen chunk, length-drop k seen, h) in
      drop-append_le n seen chunk (omega (arith, length-append seen chunk, h))
      ∙ ap (λ (xs : List ℕ). xs ++ chunk) (drop_at n (k + m) seen e ∙ sym (drop-drop m k seen))

  feed_of_last-Holds :
      (seen chunk : List ℕ)
      → Holds limit
          (seen ++ chunk)
          (feed limit (record { tail = last limit seen; total_bytes = length seen }) chunk)
  unfolding feed
  feed_of_last-Holds seen chunk = elim (Bool-cases (leb limit (length chunk))) [
    | inl long ↦ rw long (record {
      tail = sym (last-append_long seen chunk (leb-true limit (length chunk) long));
      total = sym (length-append seen chunk);
    })
    | inr short ↦ rw short (record {
      tail = sym (last-append_short seen chunk (leb-false limit (length chunk) short));
      total = sym (length-append seen chunk);
    })
  ]

  feed-Holds :
      (seen chunk : List ℕ) (state : TailAccumulator)
      → Holds limit seen state
      → Holds limit (seen ++ chunk) (feed limit state chunk)
  feed-Holds seen chunk state held =
      let expected : TailAccumulator = record {
        tail = last limit seen;
        total_bytes = length seen;
      } in
      let e : state ≡ expected = λ i. record { tail = held.tail i; total_bytes = held.total i } in
      rw e (feed_of_last-Holds seen chunk)

  -- The bytes of the reads up to the first empty one.
  unfoldable pub stream : List (List ℕ) → List ℕ
  stream [] = []
  stream ([] ∷ reads) = []
  stream ((b ∷ bs) ∷ reads) = (b ∷ bs) ++ stream reads

  drain-Holds :
      (reads : List (List ℕ)) (seen : List ℕ) (state : TailAccumulator)
      → Holds limit seen state
      → Holds limit (seen ++ stream reads) (drain limit reads state)
  unfolding stream drain
  drain-Holds [] seen state held = rw (append-nil seen) held
  drain-Holds ([] ∷ reads) seen state held = rw (append-nil seen) held
  drain-Holds ((b ∷ bs) ∷ reads) seen state held =
      rw (sym (append_assoc seen (b ∷ bs) (stream reads))) (
        drain-Holds reads (seen ++ (b ∷ bs)) (feed limit state (b ∷ bs))
          (feed-Holds seen (b ∷ bs) state held))

  -- Draining a pipe read by read, in whatever pieces the reads return, and finishing captures
  -- exactly what the buffered normalisation captures of all the bytes up to the first empty read:
  -- the same tail and the same number of omitted bytes.
  pub drain-normalize_buffered_output :
      (reads : List (List ℕ))
      → finish (drain limit reads empty_accumulator)
        ≡ normalize_buffered_output limit (stream reads)
  unfolding finish normalize_buffered_output
  drain-normalize_buffered_output reads =
      let held : Holds limit (stream reads) (drain limit reads empty_accumulator) =
        drain-Holds reads [] empty_accumulator
          (record { tail = sym (drop_nil (0 - limit)); total = refl }) in
      rw (held.tail, held.total) refl
