-- ===== src/Version/Segments.antt =====
-- What `parse_segment` reads, and where it stops.
use crimp.Common.{
  Bool-cases, Bytes, [], ap₂, arith, fold_case, if◌then◌else◌, inl, inr, is_alpha, is_digit,
  leading, leb, length, map, refl, suc, take, trailing, zero, ℕ, ◌*◌, ◌+◌, ◌-◌, ◌<◌, ◌^◌, ◌∙◌, ◌∷◌,
  ◌≡◌, ◌≤◌,
}
use native.Mathlib.Nat.{zero-add}
use crimp.Version.{ullong_max, read_digits, read_suffix, skip_junk, parse_segment}
use crimp.Version.Pieces.{value, number, piece_segment}

abbrev pow10 : ℕ → ℕ
pow10 zero = 1
pow10 (suc r) = 10 * pow10 r

pow10_pos : (r : ℕ) → 1 ≤ pow10 r
pow10_pos zero = omega arith
pow10_pos (suc r) = omega (arith, pow10_pos r)

-- Once the count of digits is used up, the number is the largest one.
read_digits_full : (s : Bytes) → read_digits s ullong_max 18 ≡ (ullong_max, trailing is_digit s)
unfolding read_digits
read_digits_full [] = refl
read_digits_full (c ∷ s) = ground (arith, read_digits_full s)

fits_word : (n r : ℕ) → (n + 1) * pow10 r ≤ 10 ^ 18 → n < 2 ^ 64
fits_word n r h = grind (arith, pow10_pos r)

step_small : (n q p m : ℕ) → q ≤ 9 → (n + 1) * (10 * p) ≤ m → (n * 10 + q + 1) * p ≤ m
step_small n q p m hq h = grind arith

read_digits_lem :
    (s : Bytes) (n d r : ℕ)
    → d + r ≡ 18
    → (n + 1) * pow10 r ≤ 10 ^ 18
    → read_digits s n d ≡ (
      if leb (d + length (leading is_digit s)) 18 then value n (leading is_digit s) else ullong_max,
      trailing is_digit s,
    )
unfolding read_digits
read_digits_lem [] n d r e h = ground arith
read_digits_lem (c ∷ s) n d zero e h =
    let full : d ≡ 18 = omega arith in rw full (ground (arith, read_digits_full s))
read_digits_lem (c ∷ s) n d (suc r) e h = elim (Bool-cases (is_digit c)) [
  | inl yes_digit ↦
      let n' = n * 10 + (c - b'0') in
      let small : (n' + 1) * pow10 r ≤ 10 ^ 18 =
        step_small n (c - b'0') (pow10 r) (10 ^ 18) (ground arith) h in
      ground (arith, fits_word n' r small, read_digits_lem s n' (d + 1) r (omega arith) small)
  | inr other ↦ ground arith
]

-- The suffix holds the first seven letters in lower case.
read_suffix-letters :
    (s : Bytes) (i k : ℕ)
    → i + k ≡ 7
    → (read_suffix s i).0 ≡ map fold_case (take k (leading is_alpha s))
unfolding read_suffix
read_suffix-letters [] i zero e = refl
read_suffix-letters [] i (suc k) e = refl
read_suffix-letters (c ∷ s) i zero e = ground arith
read_suffix-letters (c ∷ s) i (suc k) e = ground (arith, read_suffix-letters s (i + 1) k)

skip_junk-read_suffix : (s : Bytes) (i : ℕ) → skip_junk (read_suffix s i).1 ≡ skip_junk s
unfolding read_suffix skip_junk
skip_junk-read_suffix [] i = refl
skip_junk-read_suffix (c ∷ s) i = ground (arith, skip_junk-read_suffix s (i + 1))

skip_junk-digits : (s : Bytes) → skip_junk (trailing is_digit s) ≡ skip_junk s
unfolding skip_junk
skip_junk-digits [] = refl
skip_junk-digits (c ∷ s) = ground (arith, skip_junk-digits s)

-- One segment of a version: the leading digits as a number that is ULLONG_MAX for more than 18 of
-- them (it never wraps around), up to seven letters in lower case behind them, and the rest of the
-- text from the next separator on.
pub parse_segment_lem : (s : Bytes) → parse_segment s ≡ (piece_segment s, skip_junk s)
unfolding parse_segment
parse_segment_lem s =
    rw (read_digits_lem s 0 0 18 refl (omega arith), zero-add (length (leading is_digit s)))
      (ap₂ (λ l r. (record { num = number (leading is_digit s); suffix = l }, r))
        (read_suffix-letters (trailing is_digit s) 0 7 refl)
        (skip_junk-read_suffix (trailing is_digit s) 0 ∙ skip_junk-digits s))
