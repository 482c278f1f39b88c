-- ===== src/Environment/Versions/RoundTrip.antt =====
use pyrepo_check.Base.{Char}
use pyrepo_check.Base.{
  ℕ, zero, suc, ◌+◌, ◌-◌, ◌*◌, ◌/◌, ◌%◌, ◌≤◌, ◌<◌, code, String, ◌<>◌, ◌≡◌, refl, ap, ◌∙◌, inl, inr,
  true, false, ◌&&◌, some, List, [], ◌∷◌, map, arith, eq_iff, ltb, leb, ◌==◌, nat_eq, string_eq,
  bool_eq, Bool-cases, &&-eq-true, first, All,
}
use pyrepo_check.Environment.Versions.{
  digit_text, digits, decimal, format_numeric_version, read_digits, all_digits, text_length,
  numeric_part, numeric_parts, numeric_version,
}
use pyrepo_check.Base.Text.{split_on, is_digit}
use text.Mathlib.TextLemmas.{cons-append, nil-append}

read_digit : (v d : ℕ) → d < 10 → read_digits v (digit_text d) ≡ v * 10 + d
read_digit v zero h = refl
read_digit v (suc zero) h = refl
read_digit v (suc (suc zero)) h = refl
read_digit v (suc (suc (suc zero))) h = refl
read_digit v (suc (suc (suc (suc zero)))) h = refl
read_digit v (suc (suc (suc (suc (suc zero))))) h = refl
read_digit v (suc (suc (suc (suc (suc (suc zero)))))) h = refl
read_digit v (suc (suc (suc (suc (suc (suc (suc zero))))))) h = refl
read_digit v (suc (suc (suc (suc (suc (suc (suc (suc zero)))))))) h = refl
read_digit v (suc (suc (suc (suc (suc (suc (suc (suc (suc d))))))))) h = omega (arith, h)

digit-all_digits : (d : ℕ) → all_digits (digit_text d) ≡ true
digit-all_digits zero = refl
digit-all_digits (suc zero) = refl
digit-all_digits (suc (suc zero)) = refl
digit-all_digits (suc (suc (suc zero))) = refl
digit-all_digits (suc (suc (suc (suc zero)))) = refl
digit-all_digits (suc (suc (suc (suc (suc zero))))) = refl
digit-all_digits (suc (suc (suc (suc (suc (suc zero)))))) = refl
digit-all_digits (suc (suc (suc (suc (suc (suc (suc zero))))))) = refl
digit-all_digits (suc (suc (suc (suc (suc (suc (suc (suc zero)))))))) = refl
digit-all_digits (suc (suc (suc (suc (suc (suc (suc (suc (suc d))))))))) = refl

read_digits-append :
    (v : ℕ) (s t : String) → read_digits v (s <> t) ≡ read_digits (read_digits v s) t
read_digits-append v String.[] t = rw (nil-append t) refl
read_digits-append v (String.◌∷◌ c s) t =
    rw (cons-append c s t) (read_digits-append (v * 10 + (code c - 48)) s t)

all_digits-append : (s t : String) → all_digits (s <> t) ≡ (all_digits s && all_digits t)
all_digits-append String.[] t = rw (nil-append t) refl
all_digits-append (String.◌∷◌ c s) t = rw (cons-append c s t, all_digits-append s t) (ground arith)

below-ten : (n : ℕ) → ltb n 10 ≡ true → n < 10
below-ten n h = ground (arith, h)

shrinks : (n fuel : ℕ) → ltb n 10 ≡ false → n < suc fuel → n / 10 < fuel
shrinks n fuel l h = let big : 10 ≤ n = ground (arith, l) in omega (arith, h)

read_digits-digits : (fuel n : ℕ) → n < fuel → read_digits 0 (digits fuel n) ≡ n
read_digits-digits zero n h = absurd (omega (arith, h))
read_digits-digits (suc fuel) n h = elim (Bool-cases (ltb n 10)) [
  | inl small ↦ rw small (read_digit 0 n (below-ten n small) ∙ omega arith)
  | inr large ↦
      rw
        (
          large,
          read_digits-append 0 (digits fuel (n / 10)) (digit_text (n % 10)),
          read_digits-digits fuel (n / 10) (shrinks n fuel large h),
        )
        (read_digit (n / 10) (n % 10) (omega arith) ∙ omega arith)
]

all_digits-digits : (fuel n : ℕ) → all_digits (digits fuel n) ≡ true
all_digits-digits zero n = refl
all_digits-digits (suc fuel) n = elim (Bool-cases (ltb n 10)) [
  | inl small ↦ rw small (digit-all_digits n)
  | inr large ↦
      rw
        (
          large,
          all_digits-append (digits fuel (n / 10)) (digit_text (n % 10)),
          all_digits-digits fuel (n / 10),
        )
        (digit-all_digits (n % 10))
]

text_length-digit_text : (d : ℕ) → text_length (digit_text d) ≡ 1
text_length-digit_text zero = refl
text_length-digit_text (suc zero) = refl
text_length-digit_text (suc (suc zero)) = refl
text_length-digit_text (suc (suc (suc zero))) = refl
text_length-digit_text (suc (suc (suc (suc zero)))) = refl
text_length-digit_text (suc (suc (suc (suc (suc zero))))) = refl
text_length-digit_text (suc (suc (suc (suc (suc (suc zero)))))) = refl
text_length-digit_text (suc (suc (suc (suc (suc (suc (suc zero))))))) = refl
text_length-digit_text (suc (suc (suc (suc (suc (suc (suc (suc zero)))))))) = refl
text_length-digit_text (suc (suc (suc (suc (suc (suc (suc (suc (suc d))))))))) = refl

text_length-append : (s t : String) → text_length (s <> t) ≡ text_length s + text_length t
text_length-append String.[] t = rw (nil-append t) (omega arith)
text_length-append (String.◌∷◌ c s) t =
    rw (cons-append c s t) (omega (arith, text_length-append s t))

text_length-decimal : (n : ℕ) → 1 ≤ text_length (decimal n)
text_length-decimal n = elim (Bool-cases (ltb n 10)) [
  | inl small ↦ rw small (omega (arith, text_length-digit_text n))
  | inr large ↦
      rw (large, text_length-append (digits n (n / 10)) (digit_text (n % 10)))
        (omega (arith, text_length-digit_text (n % 10)))
]

decimal-filled : (n : ℕ) → (decimal n == "") ≡ false
decimal-filled n = elim (Bool-cases (decimal n == "")) [
  | inl e ↦
      let empty : text_length (decimal n) ≡ 0 = ap text_length ((eq_iff (decimal n) "").0 e) in
      absurd (omega (arith, empty, text_length-decimal n))
  | inr e ↦ e
]

digit_no_dot : (c : ℕ) → is_digit c ≡ true → (c == b'.') ≡ false
digit_no_dot c h = ground (arith, h)

one-append : (c : Char) (s : String) → String.◌∷◌ c String.[] <> s ≡ String.◌∷◌ c s
one-append c s = rw (cons-append c String.[] s, nil-append s) refl

split_on-all_digits : (s : String) → all_digits s ≡ true → split_on b'.' s ≡ s ∷ []
split_on-all_digits String.[] h = refl
split_on-all_digits (String.◌∷◌ c s) h =
    let (first, rest) = &&-eq-true (is_digit (code c)) (all_digits s) h in
    rw (split_on-all_digits s rest, digit_no_dot (code c) first) (ap (λ w. w ∷ []) (one-append c s))

split_on-append :
    (s t : String) → all_digits s ≡ true → split_on b'.' (s <> ("." <> t)) ≡ s ∷ split_on b'.' t
split_on-append String.[] t h = rw (nil-append ("." <> t), one-append "." t) refl
split_on-append (String.◌∷◌ c s) t h =
    let (first, rest) = &&-eq-true (is_digit (code c)) (all_digits s) h in
    rw (cons-append c s ("." <> t), split_on-append s t rest, digit_no_dot (code c) first)
      (ap (λ w. w ∷ split_on b'.' t) (one-append c s))

split_on-format_numeric_version :
    (n : ℕ) (version : List ℕ)
    → split_on b'.' (format_numeric_version (n ∷ version)) ≡ map decimal (n ∷ version)
unfolding format_numeric_version
split_on-format_numeric_version n [] = split_on-all_digits (decimal n) (all_digits-digits (suc n) n)
split_on-format_numeric_version n (m ∷ version) =
    split_on-append (decimal n) (format_numeric_version (m ∷ version)) (all_digits-digits (suc n) n)
    ∙ ap (λ ws. decimal n ∷ ws) (split_on-format_numeric_version m version)

numeric_part-decimal :
    (limit n : ℕ) → text_length (decimal n) ≤ limit → numeric_part limit (decimal n) ≡ some n
unfolding numeric_part
numeric_part-decimal limit n h =
    let short : leb (text_length (decimal n)) limit ≡ true = ground (arith, h) in
    rw
      (
        decimal-filled n,
        all_digits-digits (suc n) n,
        short,
        read_digits-digits (suc n) n (omega arith),
      )
      refl

numeric_parts-decimal :
    (limit : ℕ) (version : List ℕ)
    → All (λ n. text_length (decimal n) ≤ limit) version
    → numeric_parts limit (map decimal version) ≡ some version
numeric_parts-decimal limit [] h = refl
numeric_parts-decimal limit (n ∷ version) (h, hs) =
    rw (numeric_part-decimal limit n h, numeric_parts-decimal limit version hs) refl

-- A version with at least one number reads back from its text, if no number is too long to be read.
pub numeric_version-format_numeric_version :
    (limit n : ℕ) (version : List ℕ)
    → All (λ part. text_length (decimal part) ≤ limit) (n ∷ version)
    → numeric_version limit (format_numeric_version (n ∷ version)) ≡ some (n ∷ version)
unfolding numeric_version
numeric_version-format_numeric_version limit n version h =
    ap (numeric_parts limit) (split_on-format_numeric_version n version)
    ∙ numeric_parts-decimal limit (n ∷ version) h
