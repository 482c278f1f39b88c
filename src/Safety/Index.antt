-- ===== src/Safety/Index.antt =====
-- repository_safety.py: `_TrackedIndexParser`, which reads the output of `git ls-files -s -z` chunk by
-- chunk. A path is kept as its bytes, of which `os.fsdecode` makes a text one to one. The limit on
-- a record is a parameter of the section; `max_index_record_bytes` is the program's value.
pub mod Split
pub mod Laws
use pyrepo_check.Base.{
  ℕ, zero, suc, ◌+◌, ◌-◌, ◌*◌, ◌/◌, ◌%◌, ◌≤◌, ◌<◌, code, String, ◌<>◌, ◌≡◌, refl, sym, ap, ◌∙◌, ◌≢◌,
  ◌↔◌, ◌⊎◌, inl, inr, Bool, true, false, not, ◌&&◌, ◌||◌, Option, none, some, List, [], ◌∷◌, ◌++◌,
  map, arith, eq_iff, ltb, leb, if◌then◌else◌, Eq, ◌==◌, ◌!=◌, nat_eq, string_eq, bool_eq, is_none,
  is_some, or_else, Bool-cases, Option-cases, &&-eq-true, ||-false, ==_refl, ==_sym, length, take,
  drop, is_empty, all, any, keep, first, length-append, length-drop, is_empty-eq-true, All,
  length-map, All-of_keep-nil, All-map, contains, contains-keep, subset, distinct, lists_equal,
  Outcome, returned, raised, ◌>>=◌, ◌>>◌, require, refuse, >>=-eq-returned, refuse-eq-returned,
  refuse-returned, returned-injective, if_is_empty-returned, >>=-cong, Outcome-cases, traverse,
  starts_with,
}
use pyrepo_check.Base.Text.{between}
use pyrepo_check.Base.Int.{pos, int_eq}
use pyrepo_check.Execution.{CapturedBytes, ExecutedProcess}

abbrev pub max_index_record_bytes : ℕ
max_index_record_bytes = 65536

-- `_IndexEntry`
pub record IndexEntry : Type 0 where
  pub path : List ℕ
  pub mode : List ℕ
  pub object_id : List ℕ

-- What the records read so far left.
pub record Content : Type 0 where
  pub entries : List IndexEntry
  pub observed_paths : List (List ℕ)
  pub has_unmerged : Bool

-- `_TrackedIndexParser`
pub record TrackedIndexParser : Type 0 where
  pub total_bytes : ℕ
  pub pending : List ℕ
  pub content : Content
  pub invalid : Bool

abbrev pub empty_content : Content
empty_content = record { entries = []; observed_paths = []; has_unmerged = false }

abbrev pub empty_parser : TrackedIndexParser
empty_parser = record { total_bytes = 0; pending = []; content = empty_content; invalid = false }

-- `(pending + chunk).split(b"\0")`: the complete records, and what follows the last NUL
unfoldable pub put_byte : ℕ → List (List ℕ) × List ℕ → List (List ℕ) × List ℕ
put_byte b ([], rest) = ([], b ∷ rest)
put_byte b (r ∷ records, rest) = ((b ∷ r) ∷ records, rest)

unfoldable pub split_records : List ℕ → List (List ℕ) × List ℕ
split_records [] = ([], [])
split_records (zero ∷ bytes) = let s = split_records bytes in ([] ∷ s.0, s.1)
split_records (suc b ∷ bytes) = put_byte (suc b) (split_records bytes)

abbrev is_octal : ℕ → Bool
is_octal = between b'0' b'7'

abbrev is_hex : ℕ → Bool
is_hex c = between b'0' b'9' c || between b'a' b'f' c

-- The longest run of hexadecimal digits, and the rest
abbrev hex_run : List ℕ → List ℕ × List ℕ
hex_run [] = ([], [])
hex_run (b ∷ bytes) = let s = hex_run bytes in if is_hex b then (b ∷ s.0, s.1) else ([], b ∷ bytes)

-- The groups of `_INDEX_ENTRY_PATTERN`
pub record Match : Type 0 where
  pub mode : List ℕ
  pub object_id : List ℕ
  pub stage : ℕ
  pub path : List ℕ

abbrev match_object : List ℕ → List ℕ × List ℕ → Option Match
match_object mode ([], rest) = none
match_object mode (d ∷ digits, s ∷ (stage ∷ (t ∷ path))) =
    if s == b' ' && between b'0' b'3' stage && t == 9
    then some (record { mode = mode; object_id = d ∷ digits; stage = stage; path = path })
    else none
match_object mode (d ∷ digits, _) = none

-- `_INDEX_ENTRY_PATTERN.fullmatch`
unfoldable pub match_record : List ℕ → Option Match
match_record (a ∷ (b ∷ (c ∷ (d ∷ (e ∷ (f ∷ (s ∷ rest))))))) =
    let mode = a ∷ b ∷ c ∷ d ∷ e ∷ f ∷ [] in
    if all is_octal mode && s == b' ' then match_object mode (hex_run rest) else none
match_record _ = none

abbrev same_bytes : List ℕ → List ℕ → Bool
same_bytes = lists_equal

-- The components of a path
abbrev components : List ℕ → List (List ℕ)
components [] = [] ∷ []
components (b ∷ bytes) =
    let rest = components bytes in
    if b == b'/' then [] ∷ rest else elim rest [ [] ↦ (b ∷ []) ∷ [] | w ∷ ws ↦ (b ∷ w) ∷ ws ]

abbrev is_absolute_path : List ℕ → Bool
is_absolute_path [] = false
is_absolute_path (b ∷ bytes) = b == b'/'

unfoldable pub is_unsafe_path : List ℕ → Bool
is_unsafe_path path =
    is_empty path || is_absolute_path path || any (same_bytes (b'.' ∷ b'.' ∷ [])) (components path)

-- The part of `_consume_record` behind the match
unfoldable pub consume_match : Content → Match → Outcome Content Content
consume_match content m =
    if is_unsafe_path m.path
    then raised content
    else if m.stage != b'0'
    then returned (record {
      entries = content.entries;
      observed_paths = content.observed_paths;
      has_unmerged = true;
    })
    else if any (same_bytes m.path) content.observed_paths
    then raised content
    else returned (record {
      entries =
          content.entries ++ record { path = m.path; mode = m.mode; object_id = m.object_id } ∷ [];
      observed_paths = m.path ∷ content.observed_paths;
      has_unmerged = content.has_unmerged;
    })

module _ (limit : ℕ) where
  -- `_consume_record`: a failure carries the content at the `raise`.
  unfoldable pub consume_record : Content → List ℕ → Outcome Content Content
  consume_record content bytes =
      if ltb limit (length bytes)
      then raised content
      else elim (match_record bytes) [ none ↦ raised content | some m ↦ consume_match content m ]

  unfoldable pub consume_records : Content → List (List ℕ) → Outcome Content Content
  consume_records content [] = returned content
  consume_records content (r ∷ records) = do
    next ← consume_record content r
    consume_records next records

  -- The `except` branch of `feed`
  abbrev discard : ℕ → Content → TrackedIndexParser
  discard total content = record {
    total_bytes = total;
    pending = [];
    content = record { entries = []; observed_paths = []; has_unmerged = content.has_unmerged };
    invalid = true;
  }

  abbrev pub settle : ℕ → List ℕ → Outcome Content Content → TrackedIndexParser
  settle total pending (returned content) = record {
    total_bytes = total;
    pending = pending;
    content = content;
    invalid = false;
  }
  settle total pending (raised content) = discard total content

  unfoldable pub feed : TrackedIndexParser → List ℕ → TrackedIndexParser
  feed parser chunk =
      let total = parser.total_bytes + length chunk in
      let s = split_records (parser.pending ++ chunk) in
      if parser.invalid
      then record {
        total_bytes = total;
        pending = parser.pending;
        content = parser.content;
        invalid = true;
      }
      else if ltb limit (length s.1)
      then discard total parser.content
      else settle total s.1 (consume_records parser.content s.0)

  unfoldable pub feed_all : TrackedIndexParser → List (List ℕ) → TrackedIndexParser
  feed_all parser [] = parser
  feed_all parser (chunk ∷ chunks) = feed_all (feed parser chunk) chunks

-- What `finish` asks of the process that produced the bytes
unfoldable pub is_complete : ℕ → ExecutedProcess → Bool
is_complete total process =
    is_none process.spawn_error
    && elim process.returncode [ none ↦ false | some c ↦ c == pos 0 ]
    && elim process.stdout [
      | none ↦ false
      | some out ↦ total == length out.tail + out.omitted_bytes
    ]

-- `finish`, none where the source raises `_SnapshotError`
unfoldable pub finish : TrackedIndexParser → ExecutedProcess → Option (List IndexEntry × Bool)
finish parser process =
    if parser.invalid
      || not (is_empty parser.pending)
      || not (is_complete parser.total_bytes process)
    then none
    else some (parser.content.entries, parser.content.has_unmerged)
