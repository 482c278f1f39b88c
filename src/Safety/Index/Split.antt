-- ===== src/Safety/Index/Split.antt =====
-- How splitting at NUL goes on when more bytes come.
use pyrepo_check.Base.{
  ℕ, zero, suc, ◌≤◌, ◌≡◌, refl, ◌≢◌, List, [], ◌∷◌, ◌++◌, arith, nat_eq, string_eq, bool_eq, length,
  All,
}
use pyrepo_check.Safety.Index.{put_byte, split_records}

-- Splitting more bytes goes on from what was left over.
unfoldable pub resume : List (List ℕ) → List (List ℕ) × List ℕ → List (List ℕ) × List ℕ
resume records s = (records ++ s.0, s.1)

put_byte-resume :
    (b : ℕ) (s : List (List ℕ) × List ℕ) (ys : List ℕ)
    → put_byte (suc b) (resume s.0 (split_records (s.1 ++ ys)))
      ≡ resume (put_byte (suc b) s).0 (split_records ((put_byte (suc b) s).1 ++ ys))
unfolding split_records put_byte resume
put_byte-resume b ([], rest) ys = refl
put_byte-resume b (r ∷ records, rest) ys = refl

pub split_records-append :
    (xs ys : List ℕ)
    → split_records (xs ++ ys)
      ≡ resume (split_records xs).0 (split_records ((split_records xs).1 ++ ys))
unfolding split_records resume
split_records-append [] ys = refl
split_records-append (zero ∷ xs) ys = rw (split_records-append xs ys) refl
split_records-append (suc b ∷ xs) ys =
    rw (split_records-append xs ys) (put_byte-resume b (split_records xs) ys)

-- What is left over has no NUL.
put_byte-All :
    (b : ℕ) (s : List (List ℕ) × List ℕ)
    → All (λ c. c ≢ 0) s.1
    → All (λ c. c ≢ 0) (put_byte (suc b) s).1
unfolding put_byte
put_byte-All b ([], rest) h = ((λ e. absurd (omega (arith, e))), h)
put_byte-All b (r ∷ records, rest) h = h

pub split_records-All : (xs : List ℕ) → All (λ c. c ≢ 0) (split_records xs).1
unfolding split_records
split_records-All [] = tt
split_records-All (zero ∷ xs) = split_records-All xs
split_records-All (suc b ∷ xs) = put_byte-All b (split_records xs) (split_records-All xs)

-- The first record, or else what is left over, has at least `n` bytes.
unfoldable pub IsLong : ℕ → List (List ℕ) × List ℕ → Type 0
IsLong n ([], rest) = n ≤ length rest
IsLong n (r ∷ records, rest) = n ≤ length r

put_byte-IsLong :
    (n b : ℕ) (s : List (List ℕ) × List ℕ) → IsLong n s → IsLong (suc n) (put_byte b s)
unfolding put_byte IsLong
put_byte-IsLong n b ([], rest) h = omega (arith, h)
put_byte-IsLong n b (r ∷ records, rest) h = omega (arith, h)

zero-IsLong : (s : List (List ℕ) × List ℕ) → IsLong 0 s
unfolding IsLong
zero-IsLong ([], rest) = omega arith
zero-IsLong (r ∷ records, rest) = omega arith

pub split_records-IsLong :
    (p ys : List ℕ) → All (λ c. c ≢ 0) p → IsLong (length p) (split_records (p ++ ys))
unfolding split_records
split_records-IsLong [] ys h = zero-IsLong (split_records ys)
split_records-IsLong (zero ∷ p) ys h = absurd (h.0 refl)
split_records-IsLong (suc b ∷ p) ys h =
    put_byte-IsLong (length p) (suc b) (split_records (p ++ ys)) (split_records-IsLong p ys h.1)

pub IsLong-mono : (m n : ℕ) (s : List (List ℕ) × List ℕ) → m ≤ n → IsLong n s → IsLong m s
unfolding IsLong
IsLong-mono m n ([], rest) h g = omega (arith, h, g)
IsLong-mono m n (r ∷ records, rest) h g = omega (arith, h, g)
