-- ===== src/Version.antt =====
-- Version comparison of src/core/cve_match.c: `parse_segment` and `version_compare`.
pub mod Pieces
pub mod Segments
pub mod Refine
pub mod Order
pub mod Blank
use crimp.Common.{
  Bool, Bytes, Option, Ordering, [], fold_case, if◌then◌else◌, is_alpha, is_digit, is_nil, length,
  ltb, none, some, strcmp, suc, zero, ℕ, ◌%◌, ◌&&◌, ◌*◌, ◌+◌, ◌-◌, ◌==◌, ◌^◌, ◌||◌, ◌∷◌,
}

pub record Segment : Type 0 where
  pub num : ℕ
  pub suffix : Bytes

-- `ULLONG_MAX`
abbrev pub ullong_max : ℕ
ullong_max = 2 ^ 64 - 1

-- The digit loop of `parse_segment`, with its variables `num` and `digits`.
unfoldable pub read_digits : Bytes → ℕ → ℕ → ℕ × Bytes
read_digits [] num digits = (num, [])
read_digits (c ∷ p) num digits =
    if is_digit c
    then read_digits p (if ltb digits 18 then (num * 10 + (c - b'0')) % 2 ^ 64 else ullong_max)
        (if ltb digits 18 then digits + 1 else digits)
    else (num, c ∷ p)

-- The letter loop: at most `sizeof(seg->suffix) - 1` letters, in lower case.
unfoldable pub read_suffix : Bytes → ℕ → Bytes × Bytes
read_suffix [] i = ([], [])
read_suffix (c ∷ p) i =
    let rest = read_suffix p (i + 1) in
    if is_alpha c && ltb i 7 then (fold_case c ∷ rest.0, rest.1) else ([], c ∷ p)

abbrev pub is_separator : ℕ → Bool
is_separator c = c == b'.' || c == b'-'

-- The loop over what is left of the segment.
unfoldable pub skip_junk : Bytes → Bytes
skip_junk [] = []
skip_junk (c ∷ p) = if is_separator c then c ∷ p else skip_junk p

unfoldable pub parse_segment : Bytes → Segment × Bytes
unfolding read_digits read_suffix skip_junk
parse_segment p =
    let number = read_digits p 0 0 in
    let letters = read_suffix number.1 0 in
    (record { num = number.0; suffix = letters.0 }, skip_junk letters.1)

-- `{0, {0}}`
abbrev pub no_segment : Segment
no_segment = record { num = 0; suffix = [] }

-- `if (*a) { a = parse_segment(a, &sa); }`
unfoldable pub next_segment : Bytes → Segment × Bytes
next_segment [] = (no_segment, [])
next_segment (c ∷ p) = parse_segment (c ∷ p)

-- `if (*a == '.' || *a == '-') { a++; }`
unfoldable pub skip_separator : Bytes → Bytes
skip_separator [] = []
skip_separator (c ∷ p) = if is_separator c then p else c ∷ p

-- The tests of one round on the two segments; `eq` goes on to the next round.
unfoldable pub compare_segment : Segment → Segment → Ordering
compare_segment s t =
    if s.num == t.num
    then strcmp s.suffix t.suffix
    else if ltb s.num t.num
    then Ordering.lt
    else Ordering.gt

-- The loop of `version_compare`; `none` means that the fuel ran out. The `int` -1, 0 or 1 is an
-- `Ordering`.
unfoldable pub compare_loop : ℕ → Bytes → Bytes → Option Ordering
compare_loop zero a b = none
compare_loop (suc fuel) a b =
    let next =
      compare_loop fuel (skip_separator (next_segment a).1) (skip_separator (next_segment b).1) in
    if is_nil a && is_nil b
    then some Ordering.eq
    else elim (compare_segment (next_segment a).0 (next_segment b).0) [
      | Ordering.lt ↦ some Ordering.lt
      | Ordering.eq ↦ next
      | Ordering.gt ↦ some Ordering.gt
    ]

-- Every round that does not end the loop drops a byte.
abbrev pub compare_fuel : Bytes → Bytes → ℕ
compare_fuel a b = suc (length a + length b)

abbrev result_or_eq : Option Ordering → Ordering
result_or_eq none = Ordering.eq
result_or_eq (some o) = o

unfoldable pub version_compare : Bytes → Bytes → Ordering
unfolding compare_loop
version_compare a b = result_or_eq (compare_loop (compare_fuel a b) a b)
