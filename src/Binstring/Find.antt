-- ===== src/Binstring/Find.antt =====
-- `crimp_memfind` of src/core/binstring.c, against the occurrences of the needle.
use crimp.Common.{
  Bool-cases, Bytes, Option, [], ap, arith, false, if◌then◌else◌, inl, inr, is_nil, length, none,
  refl, some, some_inj, suc, sym, true, ℕ, ◌++◌, ◌+◌, ◌-◌, ◌<◌, ◌∙◌, ◌∷◌, ◌≡◌, ◌≢◌, ◌≤◌,
}
use native.Mathlib.Nat.{sub-zero}
use native.Mathlib.Decide.{dec_lt, dec_le}
use crimp.Binstring.{starts_with, memfind_loop, memfind}

-- `needle` stands in `haystack` at offset `i`.
abbrev pub OccursAt : Bytes → Bytes → ℕ → Type 0
OccursAt needle haystack i =
    (front : Bytes) × (back : Bytes) × (haystack ≡ front ++ (needle ++ back)) × (length front ≡ i)

starts_with_sound :
    (needle p : Bytes) → starts_with needle p ≡ true → (back : Bytes) × (p ≡ needle ++ back)
unfolding starts_with
starts_with_sound [] p h = (p, refl)
starts_with_sound (c ∷ needle) [] h = ground arith
starts_with_sound (c ∷ needle) (d ∷ p) h =
    let (back, e) = starts_with_sound needle p (ground arith) in (back, ground arith)

starts_with_complete : (needle back : Bytes) → starts_with needle (needle ++ back) ≡ true
unfolding starts_with
starts_with_complete [] back = refl
starts_with_complete (c ∷ needle) back = ground (arith, starts_with_complete needle back)

-- No occurrence fits at a place where the needle is longer than what is left.
starts_with-length : (needle p : Bytes) → length p < length needle → starts_with needle p ≡ false
unfolding starts_with
starts_with-length [] p h = elim h [ ]
starts_with-length (c ∷ needle) [] h = refl
starts_with-length (c ∷ needle) (d ∷ p) h = ground (arith, starts_with-length needle p)

-- A search that is not cut short by the length test.
unfoldable pub first_offset : Bytes → Bytes → ℕ → Option ℕ
first_offset needle [] i = none
first_offset needle (c ∷ p) i =
    let later = first_offset needle p (i + 1) in
    if starts_with needle (c ∷ p) then some i else later

first_offset-short :
    (needle p : Bytes) (i : ℕ) → length p < length needle → first_offset needle p i ≡ none
unfolding first_offset
first_offset-short needle [] i h = refl
first_offset-short needle (c ∷ p) i h =
    rw (starts_with-length needle (c ∷ p) h) (first_offset-short needle p (i + 1) (omega arith))

memfind_loop_lem : (needle p : Bytes) (i : ℕ) → memfind_loop needle p i ≡ first_offset needle p i
unfolding memfind_loop first_offset
memfind_loop_lem needle [] i = refl
memfind_loop_lem needle (c ∷ p) i = elim (dec_le (length needle) (length (c ∷ p))) [
  | yes fits ↦ ground (arith, memfind_loop_lem needle p (i + 1))
  | no short ↦ ground (arith, first_offset-short needle (c ∷ p) i)
]

pub memfind-first_offset :
    (haystack needle : Bytes)
    → memfind haystack needle ≡ (if is_nil needle then none else first_offset needle haystack 0)
unfolding memfind
memfind-first_offset haystack [] = refl
memfind-first_offset haystack (c ∷ needle) = elim (dec_lt (length haystack) (suc (length needle))) [
  | yes short ↦ rw (first_offset-short (c ∷ needle) haystack 0 short) (ground arith)
  | no fits ↦ rw (memfind_loop_lem (c ∷ needle) haystack 0) (ground arith)
]

first_offset_sound :
    (needle p : Bytes) (i j : ℕ)
    → first_offset needle p i ≡ some j
    → (i ≤ j) × OccursAt needle p (j - i)
unfolding first_offset
first_offset_sound needle [] i j h = ground arith
first_offset_sound needle (c ∷ p) i j h = elim (Bool-cases (starts_with needle (c ∷ p))) [
  | inl here ↦
      let (back, e) = starts_with_sound needle (c ∷ p) here in
      let same : i ≡ j = ground arith in (omega arith, ([], back, e, omega arith))
  | inr later ↦
      let (le, (front, back, e, at)) = first_offset_sound needle p (i + 1) j (rw later at h) in
      (omega arith, (c ∷ front, back, ap (λ r. c ∷ r) e, omega arith))
]

-- An occurrence is found, at its place or before it.
first_offset_complete :
    (needle front back : Bytes) (i : ℕ)
    → needle ≢ []
    → (j : ℕ) × (first_offset needle (front ++ (needle ++ back)) i ≡ some j)
      × (j ≤ i + length front)
unfolding first_offset
first_offset_complete [] front back i h = absurd (h refl)
first_offset_complete (d ∷ needle) [] back i h =
    (i, rw (starts_with_complete (d ∷ needle) back), omega arith)
first_offset_complete (d ∷ needle) (c ∷ front) back i h =
    elim (Bool-cases (starts_with (d ∷ needle) (c ∷ front ++ (d ∷ needle ++ back)))) [
      | inl here ↦ (i, rw here, omega arith)
      | inr later ↦
          let (j, e, le) = first_offset_complete (d ∷ needle) front back (i + 1) h in
          (j, rw later e, omega arith)
    ]

-- A needle that is not empty and occurs is found, there or before, so that no occurrence lies
-- before the offset that is found.
memfind_complete :
    (haystack needle : Bytes) (i : ℕ)
    → needle ≢ []
    → OccursAt needle haystack i
    → (j : ℕ) × (memfind haystack needle ≡ some j) × (j ≤ i)
memfind_complete haystack [] i h at = absurd (h refl)
memfind_complete haystack (c ∷ needle) i h (front, back, e, at) =
    let (j, found, le) = first_offset_complete (c ∷ needle) front back 0 h in
    (j, memfind-first_offset haystack (c ∷ needle) ∙ rw e found, omega arith)

-- An offset that is found is an occurrence of the needle in the haystack.
pub memfind_sound :
    (haystack needle : Bytes) (i : ℕ)
    → memfind haystack needle ≡ some i
    → OccursAt needle haystack i
memfind_sound haystack [] i h = absurd (cc (memfind-first_offset haystack [], h))
memfind_sound haystack (c ∷ needle) i h =
    let (le, at) =
      first_offset_sound (c ∷ needle) haystack 0 i
        (sym (memfind-first_offset haystack (c ∷ needle)) ∙ h) in
    rw (← sub-zero i) at

-- For a needle that is not empty: an offset that is found is an occurrence of the needle in the
-- haystack, and no occurrence lies before it; where nothing is found, the needle occurs nowhere.
pub memfind_first :
    (haystack needle : Bytes)
    → needle ≢ []
    → ((j : ℕ)
        → memfind haystack needle ≡ some j
        → OccursAt needle haystack j × ((i : ℕ) → OccursAt needle haystack i → j ≤ i))
      × (memfind haystack needle ≡ none → (i : ℕ) → ¬ OccursAt needle haystack i)
memfind_first haystack needle h = (
  λ j found. (
    memfind_sound haystack needle j found,
    λ i at.
        let (k, first, le) = memfind_complete haystack needle i h at in
        let same : k ≡ j = some_inj (sym first ∙ found) in omega arith,
  ),
  λ missing i at.
      let (k, first, le) = memfind_complete haystack needle i h at in absurd (cc (missing, first)),
)
