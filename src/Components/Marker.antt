-- ===== src/Components/Marker.antt =====
-- The search for a marker that a version follows, against a scan of every position.
use crimp.Common.{
  Bool, Bool-cases, Bytes, Option, Option-cases, [], ap, arith, drop, false, if◌then◌else◌, inl,
  inr, is_nil, leading, length, length-drop, length-take_le, none, not, refl, some, suc, take, true,
  zero, ℕ, ◌&&◌, ◌+◌, ◌<◌, ◌||◌, ◌∙◌, ◌∷◌, ◌≡◌, ◌≢◌, ◌≤◌,
}
use Prim.Native.Nat.add
use crimp.Binstring.{starts_with, memfind}
use crimp.Binstring.Find.{first_offset, memfind-first_offset}
use crimp.Components.{ComponentMarker, is_version_char, extract_version, search_loop, search_fuel}

extract_version_lem :
    (allow : Bool) (s : Bytes) (i k : ℕ)
    → i + k ≡ 63
    → extract_version allow s i ≡ take k (leading (is_version_char allow) s)
unfolding extract_version
extract_version_lem allow [] i zero e = refl
extract_version_lem allow [] i (suc k) e = refl
extract_version_lem allow (c ∷ s) i zero e = ground arith
extract_version_lem allow (c ∷ s) i (suc k) e =
    ground (arith, extract_version_lem allow s (i + 1) k)

-- The version is the longest run of version characters, cut off at 63 so that it fits the buffer
-- with its NUL.
pub extract_version-leading :
    (allow : Bool) (start : Bytes)
    → (extract_version allow start 0 ≡ take 63 (leading (is_version_char allow) start))
      × (length (extract_version allow start 0) ≤ 63)
extract_version-leading allow start =
    rw (extract_version_lem allow start 0 63 refl) (refl, length-take_le 63 _)

-- Whether the marker stands anywhere in the buffer.
unfoldable pub contains : Bytes → Bytes → Bool
contains needle [] = false
contains needle (c ∷ s) = starts_with needle (c ∷ s) || contains needle s

abbrev pub version_behind : ComponentMarker → Bytes → Bytes
version_behind m s = extract_version m.allow_letter_suffix (drop (length m.marker) s) 0

-- The version behind the first occurrence that a version follows; empty if there is none.
unfoldable pub first_version : ComponentMarker → Bytes → Bytes
first_version m [] = []
first_version m (c ∷ s) =
    let rest = first_version m s in
    if starts_with m.marker (c ∷ s) && not (is_nil (version_behind m (c ∷ s)))
    then version_behind m (c ∷ s)
    else rest

abbrev version_at : ComponentMarker → ℕ → Bytes → Bytes
version_at m i s = extract_version m.allow_letter_suffix (drop (i + length m.marker) s) 0

no_offset :
    (m : ComponentMarker) (s : Bytes) (k : ℕ)
    → first_offset m.marker s k ≡ none
    → (contains m.marker s ≡ false) × (first_version m s ≡ [])
unfolding first_offset contains first_version
no_offset m [] k h = (refl, refl)
no_offset m (c ∷ s) k h = elim (Bool-cases (starts_with m.marker (c ∷ s))) [
  | inl here ↦ absurd (ground arith)
  | inr away ↦ let (p, q) = no_offset m s (k + 1) (rw away at h) in (rw (away, p), rw (away, q))
]

pick : {A : Type 0} (b : Bool) (x y : A) → (if not b then x else y) ≡ (if b then y else x)
pick true x y = refl
pick false x y = refl

-- The first occurrence decides, unless no version follows it.
at_offset :
    (m : ComponentMarker) (s : Bytes) (k j : ℕ)
    → first_offset m.marker s k ≡ some j
    → (i : ℕ) × (j ≡ i + k)
      × (contains m.marker s ≡ true)
      × (first_version m s ≡ (
          if is_nil (version_at m i s) then first_version m (drop (i + 1) s) else version_at m i s))
unfolding first_offset contains first_version
at_offset m [] k j h = absurd (ground arith)
at_offset m (c ∷ s) k j h = elim (Bool-cases (starts_with m.marker (c ∷ s))) [
  | inl here ↦ (
    0,
    ground arith,
    rw here,
    rw (here, add.zero (length m.marker))
        (pick (is_nil (version_behind m (c ∷ s))) (version_behind m (c ∷ s)) (first_version m s)),
  )
  | inr away ↦
      let (i, e, p, q) = at_offset m s (k + 1) j (rw away at h) in
      (suc i, omega arith, rw (away, p), rw (away, add.suc i (length m.marker), add.suc i 1) q)
]

memfind-nonempty :
    (m : ComponentMarker) (s : Bytes)
    → m.marker ≢ []
    → memfind s m.marker ≡ first_offset m.marker s 0
memfind-nonempty m s h =
    rw (memfind-first_offset s m.marker) (go m.marker h (first_offset m.marker s 0))
  where
    go : (needle : Bytes) → needle ≢ [] → (o : Option ℕ) → (if is_nil needle then none else o) ≡ o
    go [] h o = absurd (h refl)
    go (c ∷ needle) h o = refl

length-drop_lt : (i : ℕ) (c : ℕ) (s : Bytes) → length (drop (i + 1) (c ∷ s)) ≤ length s
length-drop_lt i c s = omega (arith, length-drop {0} (i + 1) (c ∷ s))

or_false : (b : Bool) → (b || false) ≡ b
or_false true = refl
or_false false = refl

choose :
    (b n : Bool) (v w : Bytes) (r : Option (Bool × Bytes))
    → r ≡ some (true, w)
    → Path
        (Option (Bool × Bytes))
        (if n then r else some (true, v))
        (some (b || true, if n then w else v))
choose true true v w r e = e
choose true false v w r e = refl
choose false true v w r e = e
choose false false v w r e = refl

search_loop_lem :
    (fuel : ℕ) (m : ComponentMarker) (s : Bytes) (found_any : Bool)
    → m.marker ≢ []
    → length s < fuel
    → search_loop fuel m s found_any ≡ some (found_any || contains m.marker s, first_version m s)
unfolding search_loop
search_loop_lem zero m s found_any h l = absurd (omega arith)
search_loop_lem (suc fuel) m [] found_any h l =
    unfold contains first_version in rw (or_false found_any)
search_loop_lem (suc fuel) m (c ∷ s) found_any h l =
    elim (Option-cases (first_offset m.marker (c ∷ s) 0)) [
      | inl absent ↦
          let (p, q) = no_offset m (c ∷ s) 0 absent in
          rw (memfind-nonempty m (c ∷ s) h, search_loop, absent, p, q, or_false found_any) refl
      | inr (j, at) ↦
          let (i, e, p, q) = at_offset m (c ∷ s) 0 j at in
          let here : memfind (c ∷ s) m.marker ≡ some i =
            memfind-nonempty m (c ∷ s) h ∙ at ∙ ap some (omega arith) in
          rw (here, search_loop, p, q)
            (choose found_any (is_nil (version_at m i (c ∷ s))) (version_at m i (c ∷ s))
              (first_version m (drop (i + 1) (c ∷ s))) _
              (search_loop_lem fuel m (drop (i + 1) (c ∷ s)) true h
                (omega (arith, length-drop_lt i c s))))
    ]

-- The search for a marker ends within its fuel. It finds the version behind the first occurrence of
-- the marker that a version follows directly, however many other occurrences come before it, and it
-- says whether the marker occurs at all.
pub search_loop-first_version :
    (m : ComponentMarker) (buf : Bytes)
    → m.marker ≢ []
    → search_loop (search_fuel buf) m buf false ≡ some (contains m.marker buf, first_version m buf)
search_loop-first_version m buf h = search_loop_lem (search_fuel buf) m buf false h (omega arith)
