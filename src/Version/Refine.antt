-- ===== src/Version/Refine.antt =====
-- `version_compare` of src/core/cve_match.c, against the padded comparison of pieces.
use crimp.Common.{
  Bool-cases, Bytes, List, Option, Ordering, [], ap, arith, false, if◌then◌else◌, inl, inr,
  is_alpha, is_digit, is_nil, leading, length, map, refl, some, strcmp, suc, trailing, zero, ℕ,
  ◌&&◌, ◌+◌, ◌<◌, ◌∙◌, ◌∷◌, ◌≡◌, ◌≤◌, ◌⊎◌,
}
use native.Mathlib.Nat.{le_refl}
use crimp.Version.{
  Segment, is_separator, skip_junk, next_segment, skip_separator, compare_segment, compare_loop,
  compare_fuel, version_compare,
}
use crimp.Version.Pieces.{piece_segment, pieces, segments, before_else, padded}
use crimp.Version.Segments.{parse_segment_lem}

before : Bytes → Bytes
before [] = []
before (c ∷ s) = if is_separator c then [] else c ∷ before s

abbrev pub after_pieces : Bytes → List Bytes
after_pieces [] = []
after_pieces (c ∷ t) = pieces t

pieces_lem : (s : Bytes) → pieces s ≡ before s ∷ after_pieces (skip_junk s)
unfolding pieces before skip_junk
pieces_lem [] = refl
pieces_lem (c ∷ s) = ground (arith, pieces_lem s)

leading_digit-before : (s : Bytes) → leading is_digit (before s) ≡ leading is_digit s
unfolding before
leading_digit-before [] = refl
leading_digit-before (c ∷ s) = ground (arith, leading_digit-before s)

leading_alpha-before : (s : Bytes) → leading is_alpha (before s) ≡ leading is_alpha s
unfolding before
leading_alpha-before [] = refl
leading_alpha-before (c ∷ s) = ground (arith, leading_alpha-before s)

trailing-before : (s : Bytes) → trailing is_digit (before s) ≡ before (trailing is_digit s)
unfolding before
trailing-before [] = refl
trailing-before (c ∷ s) = ground (arith, trailing-before s)

piece_segment-before : (s : Bytes) → piece_segment (before s) ≡ piece_segment s
piece_segment-before s =
    rw (leading_digit-before s, trailing-before s, leading_alpha-before (trailing is_digit s))

abbrev pub after_segments : Bytes → List Segment
after_segments s = map piece_segment (after_pieces s)

pub segments_lem : (s : Bytes) → segments s ≡ piece_segment s ∷ after_segments (skip_junk s)
segments_lem s = rw (pieces_lem s, piece_segment-before s)

next_segment_lem : (s : Bytes) → next_segment s ≡ (piece_segment s, skip_junk s)
unfolding next_segment skip_junk
next_segment_lem [] = refl
next_segment_lem (c ∷ s) = parse_segment_lem (c ∷ s)

-- The text after a segment begins with a separator, or is empty.
skip_separator_lem :
    (s : Bytes)
    → (segments (skip_separator (skip_junk s)) ≡ after_segments (skip_junk s))
      ⊎ ((skip_separator (skip_junk s) ≡ []) × (skip_junk s ≡ []))
unfolding skip_junk skip_separator
skip_separator_lem [] = inr (refl, refl)
skip_separator_lem (c ∷ s) = ground (arith, skip_separator_lem s)

length-skip_separator : (s : Bytes) → length (skip_separator s) ≤ length s
unfolding skip_separator
length-skip_separator [] = omega arith
length-skip_separator (c ∷ s) = ground arith

length-skip_junk : (s : Bytes) → length (skip_junk s) ≤ length s
unfolding skip_junk
length-skip_junk [] = omega arith
length-skip_junk (c ∷ s) = ground (arith, length-skip_junk s)

length-round : (c : ℕ) (s : Bytes) → length (skip_separator (skip_junk (c ∷ s))) ≤ length s
unfolding skip_junk
length-round c s = elim (Bool-cases (is_separator c)) [
  | inl sep ↦ rw sep (unfold skip_separator in rw sep (le_refl (length s)))
  | inr other ↦ rw other (omega (arith, length-skip_separator (skip_junk s), length-skip_junk s))
]

padded_left : (ts : List Segment) → padded (segments []) ts ≡ padded [] ts
unfolding padded pieces compare_segment strcmp
padded_left [] = refl
padded_left (t ∷ ts) = refl

padded_right : (ts : List Segment) → padded ts (segments []) ≡ padded ts []
unfolding padded pieces compare_segment strcmp
padded_right [] = refl
padded_right (t ∷ ts) = refl

padded-skip_left :
    (s : Bytes) (ts : List Segment)
    → padded (segments (skip_separator (skip_junk s))) ts ≡ padded (after_segments (skip_junk s)) ts
padded-skip_left s ts = elim (skip_separator_lem s) [
  | inl same ↦ rw same
  | inr (end, none_left) ↦ rw (end, none_left) (padded_left ts)
]

padded-skip_right :
    (s : Bytes) (ts : List Segment)
    → padded ts (segments (skip_separator (skip_junk s))) ≡ padded ts (after_segments (skip_junk s))
padded-skip_right s ts = elim (skip_separator_lem s) [
  | inl same ↦ rw same
  | inr (end, none_left) ↦ rw (end, none_left) (padded_right ts)
]

decide_round :
    (o later : Ordering) (next : Option Ordering)
    → next ≡ some later
    → Path
        (Option Ordering)
        (elim o [
          | Ordering.lt ↦ some Ordering.lt
          | Ordering.eq ↦ next
          | Ordering.gt ↦ some Ordering.gt
        ])
        (some (before_else o later))
decide_round Ordering.lt later next e = refl
decide_round Ordering.eq later next e = e
decide_round Ordering.gt later next e = refl

abbrev rest : Bytes → Bytes
rest s = skip_separator (skip_junk s)

compare_round :
    (fuel : ℕ) (a b : Bytes)
    → (is_nil a && is_nil b) ≡ false
    → compare_loop fuel (rest a) (rest b) ≡ some (padded (segments (rest a)) (segments (rest b)))
    → compare_loop (suc fuel) a b ≡ some (padded (segments a) (segments b))
unfolding compare_loop padded
compare_round fuel a b more ih = rw more (
    decide_round (compare_segment (next_segment a).0 (next_segment b).0)
      (padded (after_segments (skip_junk a)) (after_segments (skip_junk b))) _
      (rw (next_segment_lem a, next_segment_lem b)
        (ih ∙ ap some (padded-skip_left a _ ∙ padded-skip_right b _)))
    ∙ rw (next_segment_lem a, next_segment_lem b, segments_lem a, segments_lem b))

rest_nil : length (rest []) ≡ 0
unfolding skip_junk skip_separator
rest_nil = refl

compare_loop_lem :
    (fuel : ℕ) (a b : Bytes)
    → length a + length b < fuel
    → compare_loop fuel a b ≡ some (padded (segments a) (segments b))
compare_loop_lem zero a b h = absurd (omega arith)
compare_loop_lem (suc fuel) [] [] h =
    unfold compare_loop padded pieces compare_segment strcmp in refl
compare_loop_lem (suc fuel) [] (d ∷ b) h =
    compare_round fuel [] (d ∷ b) refl
      (compare_loop_lem fuel _ _ (omega (arith, length-round d b, rest_nil)))
compare_loop_lem (suc fuel) (c ∷ a) [] h =
    compare_round fuel (c ∷ a) [] refl
      (compare_loop_lem fuel _ _ (omega (arith, length-round c a, rest_nil)))
compare_loop_lem (suc fuel) (c ∷ a) (d ∷ b) h =
    compare_round fuel (c ∷ a) (d ∷ b) refl
      (compare_loop_lem fuel _ _ (omega (arith, length-round c a, length-round d b)))

-- The loop of `version_compare` ends within the fuel, for every two texts.
pub compare_loop-total :
    (a b : Bytes) → compare_loop (compare_fuel a b) a b ≡ some (version_compare a b)
unfolding version_compare
compare_loop-total a b = rw (compare_loop_lem (compare_fuel a b) a b (omega arith))

-- Comparing two versions is comparing their pieces, number before suffix, the first difference
-- decides, and a version with fewer pieces is filled up with empty ones.
pub version_compare-padded : (a b : Bytes) → version_compare a b ≡ padded (segments a) (segments b)
unfolding version_compare
version_compare-padded a b = rw (compare_loop_lem (compare_fuel a b) a b (omega arith))
