-- ===== src/Version/Pieces.antt =====
-- The specification of `version_compare`: a version is cut at `.` and `-`, every piece is read as a
-- number with a suffix, and the sequences are compared in the order of dictionaries, the shorter one
-- filled up with empty segments.
use crimp.Common.{
  Bytes, List, Ordering, [], cons_head, fold_case, if◌then◌else◌, is_alpha, is_digit, leading, leb,
  length, map, take, trailing, ℕ, ◌*◌, ◌+◌, ◌-◌, ◌∷◌,
}
use crimp.Version.{Segment, is_separator, ullong_max, no_segment, compare_segment}

-- The number that digits spell behind `n`, with no bound.
abbrev pub value : ℕ → Bytes → ℕ
value n [] = n
value n (c ∷ s) = value (n * 10 + (c - b'0')) s

-- More than 18 digits stand for the largest number.
abbrev pub number : Bytes → ℕ
number ds = if leb (length ds) 18 then value 0 ds else ullong_max

abbrev pub piece_segment : Bytes → Segment
piece_segment p = record {
  num = number (leading is_digit p);
  suffix = map fold_case (take 7 (leading is_alpha (trailing is_digit p)));
}

unfoldable pub pieces : Bytes → List Bytes
pieces [] = [] ∷ []
pieces (c ∷ s) = if is_separator c then [] ∷ pieces s else cons_head c (pieces s)

abbrev pub segments : Bytes → List Segment
segments s = map piece_segment (pieces s)

abbrev pub before_else : Ordering → Ordering → Ordering
before_else Ordering.lt later = Ordering.lt
before_else Ordering.eq later = later
before_else Ordering.gt later = Ordering.gt

unfoldable pub padded : List Segment → List Segment → Ordering
padded [] [] = Ordering.eq
padded [] (t ∷ ts) = before_else (compare_segment no_segment t) (padded [] ts)
padded (s ∷ ss) [] = before_else (compare_segment s no_segment) (padded ss [])
padded (s ∷ ss) (t ∷ ts) = before_else (compare_segment s t) (padded ss ts)
