-- ===== src/Safety/Index/Laws.antt =====
-- The index of the whole output, whatever the chunks it came in.
use pyrepo_check.Base.{
  ℕ, suc, ◌≡◌, refl, sym, ◌∙◌, inl, inr, Bool, true, false, Option, none, some, List, [], ◌∷◌, ◌++◌,
  arith, ltb, if◌then◌else◌, nat_eq, string_eq, bool_eq, Bool-cases, length, length-append, Outcome,
  returned, raised, ◌>>=◌, Outcome-cases,
}
use mathlib.Core.List.{append-nil, append_assoc}
use pyrepo_check.Base.{concat}
use pyrepo_check.Execution.{ExecutedProcess}
use pyrepo_check.Safety.Index.Split.{
  resume, split_records-append, split_records-All, IsLong, split_records-IsLong, IsLong-mono,
}
use pyrepo_check.Safety.Index.{
  IndexEntry, Content, TrackedIndexParser, empty_content, empty_parser, split_records,
  consume_record, consume_records, feed, feed_all, is_complete, finish,
}

-- The index that records and a remainder amount to: there must be no remainder.
unfoldable pub publish : List ℕ → Outcome Content Content → Option (List IndexEntry × Bool)
publish [] (returned c) = some (c.entries, c.has_unmerged)
publish [] (raised c) = none
publish (b ∷ rest) outcome = none

publish-raised : (rest : List ℕ) (c : Content) → publish rest (raised c) ≡ none
unfolding publish
publish-raised [] c = refl
publish-raised (b ∷ rest) c = refl

module _ (limit : ℕ) where
  -- The index read from the whole output at once.
  unfoldable pub index_of : List ℕ → Option (List IndexEntry × Bool)
  index_of bytes =
      publish (split_records bytes).1 (consume_records limit empty_content (split_records bytes).0)

  consume_records-append :
      (content : Content) (xs ys : List (List ℕ))
      → consume_records limit content (xs ++ ys)
        ≡ (consume_records limit content xs >>= λ next. consume_records limit next ys)
  unfolding consume_records
  consume_records-append content [] ys = refl
  consume_records-append content (x ∷ xs) ys =
      elim (Outcome-cases (consume_record limit content x)) [
        | inl (next, e) ↦ rw e (consume_records-append next xs ys)
        | inr (c, e) ↦ rw e refl
      ]

  index_of-append :
      (xs ys : List ℕ)
      → index_of (xs ++ ys)
        ≡ publish (split_records ((split_records xs).1 ++ ys)).1 (
            consume_records limit empty_content (split_records xs).0 >>= λ next.
            consume_records limit next (split_records ((split_records xs).1 ++ ys)).0)
  unfolding index_of resume
  index_of-append xs ys =
      rw
        (
          split_records-append xs ys,
          sym (
              consume_records-append empty_content (split_records xs).0
                (split_records ((split_records xs).1 ++ ys)).0),
        )
        refl

  -- No more bytes can make an index of these.
  abbrev IsDoomed : List ℕ → Type 0
  IsDoomed seen = (more : List ℕ) → index_of (seen ++ more) ≡ none

  raised-IsDoomed :
      (seen : List ℕ) (c : Content)
      → consume_records limit empty_content (split_records seen).0 ≡ raised c
      → IsDoomed seen
  raised-IsDoomed seen c e more =
      index_of-append seen more
      ∙ rw e (publish-raised (split_records ((split_records seen).1 ++ more)).1 c)

  IsLong-none :
      (content : Content) (s : List (List ℕ) × List ℕ)
      → IsLong (suc limit) s
      → publish s.1 (consume_records limit content s.0) ≡ none
  unfolding IsLong publish consume_records consume_record
  IsLong-none content ([], []) h = absurd (omega (arith, h))
  IsLong-none content ([], b ∷ rest) h = refl
  IsLong-none content (r ∷ records, rest) h =
      let long : ltb limit (length r) ≡ true = ground (arith, h) in
      rw long (publish-raised rest content)

  IsLong-IsDoomed :
      (seen : List ℕ) → ltb limit (length (split_records seen).1) ≡ true → IsDoomed seen
  IsLong-IsDoomed seen e more =
      elim (Outcome-cases (consume_records limit empty_content (split_records seen).0)) [
        | inr (c, f) ↦ raised-IsDoomed seen c f more
        | inl (c, f) ↦
            let long : IsLong (suc limit) (split_records ((split_records seen).1 ++ more)) =
              IsLong-mono (suc limit) (length (split_records seen).1)
                (split_records ((split_records seen).1 ++ more)) (ground (arith, e))
                (split_records-IsLong (split_records seen).1 more (split_records-All seen)) in
            index_of-append seen more
            ∙ rw f (IsLong-none c (split_records ((split_records seen).1 ++ more)) long)
      ]

  -- A parser that has been fed the bytes `seen`.
  data Tracks (seen : List ℕ) : TrackedIndexParser → Type 0 where
    live :
        (c : Content)
        → consume_records limit empty_content (split_records seen).0 ≡ returned c
        → Tracks seen (record {
          total_bytes = length seen;
          pending = (split_records seen).1;
          content = c;
          invalid = false;
        })
    dead :
        (rest : List ℕ) (c : Content)
        → IsDoomed seen
        → Tracks seen
            (record { total_bytes = length seen; pending = rest; content = c; invalid = true })

  content_after :
      (seen chunk : List ℕ) (c : Content)
      → consume_records limit empty_content (split_records seen).0 ≡ returned c
      → consume_records limit empty_content (split_records (seen ++ chunk)).0
        ≡ consume_records limit c (split_records ((split_records seen).1 ++ chunk)).0
  unfolding resume
  content_after seen chunk c e =
      rw
        (
          split_records-append seen chunk,
          consume_records-append empty_content (split_records seen).0
              (split_records ((split_records seen).1 ++ chunk)).0,
          e,
        )
        refl

  rest_of :
      (seen chunk : List ℕ)
      → (split_records (seen ++ chunk)).1 ≡ (split_records ((split_records seen).1 ++ chunk)).1
  unfolding resume
  rest_of seen chunk = rw (split_records-append seen chunk) refl

  feed-Tracks :
      (seen chunk : List ℕ) (parser : TrackedIndexParser)
      → Tracks seen parser
      → Tracks (seen ++ chunk) (feed limit parser chunk)
  unfolding feed
  feed-Tracks seen chunk _ (dead rest c h) =
      rw (sym (length-append seen chunk))
        (dead rest c (λ more. rw (append_assoc seen chunk more) (h (chunk ++ more))))
  feed-Tracks seen chunk _ (live c e) =
      let s : List (List ℕ) × List ℕ = split_records ((split_records seen).1 ++ chunk) in
      rw (sym (length-append seen chunk)) (elim (Bool-cases (ltb limit (length s.1))) [
        | inl long ↦
            rw long (dead [] _ (IsLong-IsDoomed (seen ++ chunk) (rw (rest_of seen chunk) long)))
        | inr short ↦ elim (Outcome-cases (consume_records limit c s.0)) [
          | inl (next, f) ↦
              rw (short, f, sym (rest_of seen chunk)) (live next (content_after seen chunk c e ∙ f))
          | inr (bad, f) ↦
              rw (short, f)
                (dead [] _ (raised-IsDoomed (seen ++ chunk) bad (content_after seen chunk c e ∙ f)))
        ]
      ])

  feed_all-Tracks :
      (chunks : List (List ℕ)) (seen : List ℕ) (parser : TrackedIndexParser)
      → Tracks seen parser
      → Tracks (seen ++ concat chunks) (feed_all limit parser chunks)
  unfolding feed_all
  feed_all-Tracks [] seen parser t = rw (append-nil seen) t
  feed_all-Tracks (chunk ∷ chunks) seen parser t =
      rw (sym (append_assoc seen chunk (concat chunks))) (
        feed_all-Tracks chunks (seen ++ chunk) (feed limit parser chunk)
          (feed-Tracks seen chunk parser t))

  finish-live :
      (total : ℕ) (rest : List ℕ) (c : Content) (process : ExecutedProcess)
      → finish
          (record { total_bytes = total; pending = rest; content = c; invalid = false })
          process
        ≡ (if is_complete total process then publish rest (returned c) else none)
  unfolding finish publish
  finish-live total [] c process = ground arith
  finish-live total (b ∷ rest) c process = ground arith

  finish-dead :
      (total : ℕ) (rest : List ℕ) (c : Content) (process : ExecutedProcess)
      → finish (record { total_bytes = total; pending = rest; content = c; invalid = true }) process
        ≡ (if is_complete total process then none else none)
  unfolding finish
  finish-dead total rest c process = ground arith

  finish-Tracks :
      (seen : List ℕ) (parser : TrackedIndexParser) (process : ExecutedProcess)
      → Tracks seen parser
      → finish parser process ≡ (if is_complete (length seen) process then index_of seen else none)
  unfolding index_of
  finish-Tracks seen _ process (live c e) =
      rw e (finish-live (length seen) (split_records seen).1 c process)
  finish-Tracks seen _ process (dead rest c h) =
      let doomed : index_of seen ≡ none = rw (sym (append-nil seen)) (h []) in
      rw doomed (finish-dead (length seen) rest c process)

  -- Feeding git's output in any chunks and finishing gives exactly what reading the whole output at
  -- once gives: its entries and whether a path is unmerged when every record is well formed, short
  -- enough and NUL-terminated and no path repeats, and a failure otherwise or when the process did
  -- not return 0 or its captured output does not account for every byte that was fed.
  pub finish-index_of :
      (chunks : List (List ℕ)) (process : ExecutedProcess)
      → finish (feed_all limit empty_parser chunks) process
        ≡ (if is_complete (length (concat chunks)) process then index_of (concat chunks) else none)
  unfolding consume_records split_records
  finish-index_of chunks process =
      finish-Tracks (concat chunks) (feed_all limit empty_parser chunks) process
        (feed_all-Tracks chunks [] empty_parser (live empty_content refl))
