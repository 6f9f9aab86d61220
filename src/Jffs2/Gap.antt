-- ===== src/Jffs2/Gap.antt =====
-- `find_next_node` of src/extract/jffs2.c, against one pass over the rest of the image.
use crimp.Common.{
  Bool, Bool-cases, Bytes, Option-cases, [], ap, arith, drop, drop-drop, if◌then◌else◌, inl, inr,
  length, length-drop, ltb, none, refl, some, suc, sym, take, take-all, true, zero, ℕ, ◌*◌, ◌+◌,
  ◌-◌, ◌/◌, ◌<◌, ◌==◌, ◌∙◌, ◌∷◌, ◌≡◌, ◌≤◌, ◌⊎◌,
}
use crimp.FsUtil.{decode_u16}
use crimp.Jffs2.{magic, scan_chunk, gap_scan_chunk, gap_loop, find_next_node}

abbrev quad : ℕ → ℕ
quad zero = 0
quad (suc j) = suc (suc (suc (suc (quad j))))

quad_lem : (j : ℕ) → quad j ≡ 4 * j
quad_lem zero = refl
quad_lem (suc j) = omega (arith, quad_lem j)

scan_chunk_found :
    (be : Bool) (j : ℕ) (s : Bytes) (i p : ℕ)
    → scan_chunk be (take (quad j) s) i ≡ some p
    → scan_chunk be s i ≡ some p
unfolding scan_chunk decode_u16
scan_chunk_found be zero s i p h = absurd (cc)
scan_chunk_found be (suc j) [] i p h = h
scan_chunk_found be (suc j) (a ∷ []) i p h = h
scan_chunk_found be (suc j) (a ∷ b ∷ []) i p h = h
scan_chunk_found be (suc j) (a ∷ b ∷ c ∷ []) i p h = h
scan_chunk_found be (suc j) (a ∷ b ∷ c ∷ d ∷ s) i p h =
    ground (arith, h, scan_chunk_found be j s (i + 4) p)

scan_chunk_rest :
    (be : Bool) (j : ℕ) (s : Bytes) (i : ℕ)
    → scan_chunk be (take (quad j) s) i ≡ none
    → scan_chunk be s i ≡ scan_chunk be (drop (quad j) s) (i + quad j)
unfolding scan_chunk decode_u16
scan_chunk_rest be zero s i h = ap (scan_chunk be s) (omega arith)
scan_chunk_rest be (suc j) [] i h = refl
scan_chunk_rest be (suc j) (a ∷ []) i h = refl
scan_chunk_rest be (suc j) (a ∷ b ∷ []) i h = h
scan_chunk_rest be (suc j) (a ∷ b ∷ c ∷ []) i h = h
scan_chunk_rest be (suc j) (a ∷ b ∷ c ∷ d ∷ s) i h =
    elim (Bool-cases (decode_u16 (a ∷ b ∷ c ∷ d ∷ s) be == magic)) [
      | inl hit ↦ absurd (cc (rw (hit, scan_chunk) at h))
      | inr miss ↦
          rw (miss, scan_chunk)
            (scan_chunk_rest be j s (i + 4) (rw (miss, scan_chunk) at h)
              ∙ ap (scan_chunk be (drop (quad j) s)) (omega arith))
    ]

pub scan_chunk_within :
    (be : Bool) (s : Bytes) (i p : ℕ)
    → scan_chunk be s i ≡ some p
    → (i ≤ p) × (p + 2 ≤ i + length s)
unfolding scan_chunk
scan_chunk_within be [] i p h = absurd (cc)
scan_chunk_within be (a ∷ []) i p h = absurd (cc)
scan_chunk_within be (a ∷ b ∷ []) i p h = ground arith
scan_chunk_within be (a ∷ b ∷ c ∷ []) i p h = ground arith
scan_chunk_within be (a ∷ b ∷ c ∷ d ∷ s) i p h = ground (arith, scan_chunk_within be s (i + 4) p)

-- Where the magic is found: behind the start, and four bytes behind it unless it stands there.
pub scan_chunk_after :
    (be : Bool) (s : Bytes) (i p : ℕ)
    → scan_chunk be s i ≡ some p
    → ((decode_u16 s be == magic) ≡ true) ⊎ (i + 4 ≤ p)
unfolding scan_chunk
scan_chunk_after be [] i p h = absurd (cc)
scan_chunk_after be (a ∷ []) i p h = absurd (cc)
scan_chunk_after be (a ∷ b ∷ []) i p h = ground arith
scan_chunk_after be (a ∷ b ∷ c ∷ []) i p h = ground arith
scan_chunk_after be (a ∷ b ∷ c ∷ d ∷ s) i p h =
    elim (Bool-cases (decode_u16 (a ∷ b ∷ c ∷ d ∷ s) be == magic)) [
      | inl hit ↦ inl hit
      | inr miss ↦ inr (scan_chunk_within be s (i + 4) p (rw (miss, scan_chunk) at h)).0
    ]

scan_chunk_short : (be : Bool) (s : Bytes) (i : ℕ) → length s < 2 → scan_chunk be s i ≡ none
unfolding scan_chunk
scan_chunk_short be [] i h = refl
scan_chunk_short be (a ∷ []) i h = refl
scan_chunk_short be (a ∷ b ∷ s) i h = absurd (omega arith)

-- A chunk is a number of whole words, or all that is left.
abbrev IsChunk : ℕ → Bytes → Type 0
IsChunk w s = ((j : ℕ) × (w ≡ quad (suc j))) ⊎ (w ≡ length s)

chunk_found :
    (be : Bool) (w : ℕ) (s : Bytes) (i p : ℕ)
    → IsChunk w s
    → scan_chunk be (take w s) i ≡ some p
    → scan_chunk be s i ≡ some p
chunk_found be w s i p (inl (j, e)) h = scan_chunk_found be (suc j) s i p (rw e at h)
chunk_found be w s i p (inr e) h = rw (take-all w s (omega arith)) at h

chunk_none :
    (be : Bool) (w : ℕ) (s : Bytes) (i : ℕ)
    → IsChunk w s
    → scan_chunk be (take w s) i ≡ none
    → scan_chunk be (take (quad (w / 4)) s) i ≡ none
chunk_none be w s i (inl (j, e)) h =
    let same : quad (w / 4) ≡ w = omega (arith, quad_lem (w / 4), quad_lem (suc j), e) in rw same h
chunk_none be w s i (inr e) h = elim (Option-cases (scan_chunk be (take (quad (w / 4)) s) i)) [
  | inl missed ↦ missed
  | inr (p, found) ↦
      absurd (cc (scan_chunk_found be (w / 4) s i p found, rw (take-all w s (omega arith)) at h))
]

-- The chunk of a round.
abbrev wanted : ℕ → ℕ → ℕ
wanted remaining chunk = if ltb remaining chunk then remaining else chunk

wanted-IsChunk : (k : ℕ) (s : Bytes) → IsChunk (wanted (length s) (quad (suc k))) s
wanted-IsChunk k s = elim (Bool-cases (ltb (length s) (quad (suc k)))) [
  | inl last ↦ inr (rw last)
  | inr full ↦ inl (k, rw full)
]

wanted_small : (k n : ℕ) → ltb (wanted n (quad (suc k))) 4 ≡ true → wanted n (quad (suc k)) ≡ n
wanted_small k n h = ground arith

wanted_le : (k n : ℕ) → wanted n (quad (suc k)) ≤ n
wanted_le k n = ground arith

skip_lem :
    (f : Bytes) (be : Bool) (pos w : ℕ)
    → IsChunk w (drop pos f)
    → scan_chunk be (take w (drop pos f)) pos ≡ none
    → scan_chunk be (drop (pos + w / 4 * 4) f) (pos + w / 4 * 4) ≡ scan_chunk be (drop pos f) pos
skip_lem f be pos w chunk missed =
    let q : quad (w / 4) ≡ w / 4 * 4 = omega (arith, quad_lem (w / 4)) in
    let rest =
      scan_chunk_rest be (w / 4) (drop pos f) pos (chunk_none be w (drop pos f) pos chunk missed) in
    sym ((rw q at rest) ∙ ap (λ t. scan_chunk be t (pos + w / 4 * 4)) (drop-drop pos (w / 4 * 4) f))

gap_loop_lem :
    (k fuel : ℕ) (f : Bytes) (be : Bool) (pos : ℕ)
    → pos ≤ length f
    → length f < pos + fuel
    → gap_loop (quad (suc k)) fuel f be pos ≡ some (scan_chunk be (drop pos f) pos)
unfolding gap_loop
gap_loop_lem k zero f be pos a h = absurd (omega arith)
gap_loop_lem k (suc fuel) f be pos a h =
    let s = drop pos f in
    let w = wanted (length f - pos) (quad (suc k)) in
    let len : length f - pos ≡ length s = sym (length-drop pos f) in
    let chunk : IsChunk w s = rw len (wanted-IsChunk k s) in
    elim (Bool-cases (ltb (length f) (pos + 2))) [
      | inl over ↦
          rw (over, gap_loop)
            (ap some (sym (scan_chunk_short be s pos (ground (arith, over, len)))))
      | inr more ↦ elim (Option-cases (scan_chunk be (take w s) pos)) [
        | inr (p, found) ↦
            rw (more, gap_loop, found) (ap some (sym (chunk_found be w s pos p chunk found)))
        | inl missed ↦ elim (Bool-cases (ltb w 4)) [
          | inl small ↦
              rw (more, gap_loop, missed, small)
                (ap some (
                  sym (
                    rw (take-all w s (omega (arith, len, wanted_small k (length f - pos) small))) at
                      missed)))
          | inr big ↦
              rw (more, gap_loop, missed, big)
                (gap_loop_lem k fuel f be (pos + w / 4 * 4)
                    (omega (arith, wanted_le k (length f - pos))) (ground (arith, big))
                  ∙ ap some (skip_lem f be pos w chunk missed))
        ]
      ]
    ]

-- Reading the image in chunks finds what one pass over the rest of it finds: the first place, in steps
-- of four bytes, at which the magic stands, or that there is none. The search ends within its fuel.
pub find_next_node-scan_chunk :
    (f : Bytes) (be : Bool) (start : ℕ)
    → start ≤ length f
    → find_next_node f be start ≡ some (scan_chunk be (drop start f) start)
unfolding find_next_node
find_next_node-scan_chunk f be start h =
    let chunk : quad (suc 16383) ≡ gap_scan_chunk = quad_lem (suc 16383) in
    rw (← chunk) (gap_loop_lem 16383 (suc (length f)) f be start h (omega arith))
