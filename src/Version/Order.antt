-- ===== src/Version/Order.antt =====
-- `version_compare` of src/core/cve_match.c as an order on version texts.
use crimp.Common.{
  Bytes, List, Ordering, [], arith, length, refl, strcmp, suc, zero, ℕ, ◌+◌, ◌∷◌, ◌≡◌, ◌≢◌, ◌≤◌,
}
use native.Mathlib.Nat.{le_refl}
use crimp.Version.{Segment, no_segment, compare_segment, version_compare}
use crimp.Version.Pieces.{segments, before_else, padded}
use crimp.Version.Refine.{version_compare-padded}

abbrev pub flip : Ordering → Ordering
flip Ordering.lt = Ordering.gt
flip Ordering.eq = Ordering.eq
flip Ordering.gt = Ordering.lt

strcmp-flip : (s t : Bytes) → strcmp t s ≡ flip (strcmp s t)
unfolding strcmp
strcmp-flip [] [] = refl
strcmp-flip [] (d ∷ t) = refl
strcmp-flip (c ∷ s) [] = refl
strcmp-flip (c ∷ s) (d ∷ t) = ground (arith, strcmp-flip s t)

strcmp_refl : (s : Bytes) → strcmp s s ≡ Ordering.eq
unfolding strcmp
strcmp_refl [] = refl
strcmp_refl (c ∷ s) = ground (arith, strcmp_refl s)

strcmp-eq : (s t : Bytes) → strcmp s t ≡ Ordering.eq → s ≡ t
unfolding strcmp
strcmp-eq [] [] h = refl
strcmp-eq [] (d ∷ t) h = ground arith
strcmp-eq (c ∷ s) [] h = ground arith
strcmp-eq (c ∷ s) (d ∷ t) h = ground (arith, strcmp-eq s t)

strcmp_trans :
    (s t u : Bytes) → strcmp s t ≡ Ordering.lt → strcmp t u ≡ Ordering.lt → strcmp s u ≡ Ordering.lt
unfolding strcmp
strcmp_trans [] [] u h k = ground arith
strcmp_trans [] (d ∷ t) [] h k = ground arith
strcmp_trans [] (d ∷ t) (e ∷ u) h k = refl
strcmp_trans (c ∷ s) [] u h k = ground arith
strcmp_trans (c ∷ s) (d ∷ t) [] h k = ground arith
strcmp_trans (c ∷ s) (d ∷ t) (e ∷ u) h k = ground (arith, strcmp_trans s t u)

compare_segment-flip : (s t : Segment) → compare_segment t s ≡ flip (compare_segment s t)
unfolding compare_segment
compare_segment-flip s t = ground (arith, strcmp-flip s.suffix t.suffix)

compare_segment_refl : (s : Segment) → compare_segment s s ≡ Ordering.eq
unfolding compare_segment
compare_segment_refl s = ground (arith, strcmp_refl s.suffix)

compare_segment-eq : (s t : Segment) → compare_segment s t ≡ Ordering.eq → s ≡ t
unfolding compare_segment
compare_segment-eq s t h = ground (arith, strcmp-eq s.suffix t.suffix)

compare_segment_trans :
    (s t u : Segment)
    → compare_segment s t ≡ Ordering.lt
    → compare_segment t u ≡ Ordering.lt
    → compare_segment s u ≡ Ordering.lt
unfolding compare_segment
compare_segment_trans s t u h k = ground (arith, strcmp_trans s.suffix t.suffix u.suffix)

abbrev first : List Segment → Segment
first [] = no_segment
first (s ∷ ss) = s

abbrev others : List Segment → List Segment
others [] = []
others (s ∷ ss) = ss

padded_step :
    (a b : List Segment)
    → padded a b ≡ before_else (compare_segment (first a) (first b)) (padded (others a) (others b))
unfolding padded
padded_step [] [] = rw (compare_segment_refl no_segment)
padded_step [] (t ∷ b) = refl
padded_step (s ∷ a) [] = refl
padded_step (s ∷ a) (t ∷ b) = refl

padded-flip :
    (n : ℕ) (a b : List Segment) → length a + length b ≤ n → padded b a ≡ flip (padded a b)
unfolding padded
padded-flip n [] [] h = refl
padded-flip zero [] (t ∷ b) h = absurd (omega arith)
padded-flip zero (s ∷ a) b h = absurd (omega arith)
padded-flip (suc n) [] (t ∷ b) h =
    ground (arith, compare_segment-flip no_segment t, padded-flip n [] b (omega arith))
padded-flip (suc n) (s ∷ a) [] h =
    ground (arith, compare_segment-flip s no_segment, padded-flip n a [] (omega arith))
padded-flip (suc n) (s ∷ a) (t ∷ b) h =
    ground (arith, compare_segment-flip s t, padded-flip n a b (omega arith))

padded_refl : (a : List Segment) → padded a a ≡ Ordering.eq
unfolding padded
padded_refl [] = refl
padded_refl (s ∷ a) = rw (compare_segment_refl s) (padded_refl a)

-- One round of a chain of three, from the laws of its first segments.
chain :
    (s t u : Segment) (x y z : Ordering)
    → before_else (compare_segment s t) x ≢ Ordering.gt
    → before_else (compare_segment t u) y ≢ Ordering.gt
    → (x ≢ Ordering.gt → y ≢ Ordering.gt → z ≢ Ordering.gt)
    → before_else (compare_segment s u) z ≢ Ordering.gt
chain s t u x y z h k ih = ground (
  arith,
  compare_segment_trans s t u,
  compare_segment-eq s t,
  compare_segment-eq t u,
  compare_segment_refl s,
  compare_segment_refl t,
)

length-others : (a : List Segment) (n : ℕ) → length a ≤ suc n → length (others a) ≤ n
length-others [] n h = omega arith
length-others (s ∷ a) n h = omega arith

padded_trans :
    (n : ℕ) (a b c : List Segment)
    → length a ≤ n
    → length b ≤ n
    → length c ≤ n
    → padded a b ≢ Ordering.gt
    → padded b c ≢ Ordering.gt
    → padded a c ≢ Ordering.gt
padded_trans zero [] [] [] _ _ _ h k = h
padded_trans zero (s ∷ a) b c p _ _ h k = absurd (omega arith)
padded_trans zero [] (s ∷ b) c _ p _ h k = absurd (omega arith)
padded_trans zero [] [] (s ∷ c) _ _ p h k = absurd (omega arith)
padded_trans (suc n) a b c p q r h k = rw (padded_step a c) (
    chain (first a) (first b) (first c) _ _ _ (rw (padded_step a b) at h)
      (rw (padded_step b c) at k)
      (padded_trans n (others a) (others b) (others c) (length-others a n p) (length-others b n q)
        (length-others c n r)))

-- Swapping the two versions turns the answer round.
pub version_compare-flip : (a b : Bytes) → version_compare b a ≡ flip (version_compare a b)
version_compare-flip a b =
    rw (version_compare-padded a b, version_compare-padded b a)
      (padded-flip _ (segments a) (segments b) (le_refl _))

-- A version is equal to itself.
pub version_compare_refl : (a : Bytes) → version_compare a a ≡ Ordering.eq
version_compare_refl a = rw (version_compare-padded a a) (padded_refl (segments a))

-- "Not newer than" is transitive.
pub version_compare_trans :
    (a b c : Bytes)
    → version_compare a b ≢ Ordering.gt
    → version_compare b c ≢ Ordering.gt
    → version_compare a c ≢ Ordering.gt
version_compare_trans a b c h k =
    let n = length (segments a) + length (segments b) + length (segments c) in
    rw (version_compare-padded a c) (
      padded_trans n (segments a) (segments b) (segments c) (omega arith) (omega arith)
        (omega arith) (rw (version_compare-padded a b) at h) (rw (version_compare-padded b c) at k))
