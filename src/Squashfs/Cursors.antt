-- ===== src/Squashfs/Cursors.antt =====
-- What a round of the loop of `cursor_read` of src/extract/squashfs.c leaves to do.
use crimp.Common.{
  Bool, Bool-cases, Bytes, Option-cases, [], ap, arith, drop, false, inl, inr, is_nil, length,
  length-drop, ltb, none, refl, some, some_inj, subst, suc, take, zero, ℕ, ◌%◌, ◌+◌, ◌-◌, ◌<◌, ◌==◌,
  ◌||◌, ◌∷◌, ◌≡◌, ◌≢◌, ◌≤◌,
}
use crimp.Image.{read_at}
use crimp.Squashfs.{
  Io, Cursor, block_content, cursor_load_next_block, refill, metadata_block_size, le,
}

length-take_within : (n : ℕ) (s : Bytes) → length (take n s) ≤ length s
length-take_within zero s = omega arith
length-take_within (suc n) [] = omega arith
length-take_within (suc n) (c ∷ s) = omega (arith, length-take_within n s)

read_at_within :
    (f : Bytes) (pos n : ℕ) (s : Bytes) → n ≢ 0 → read_at f pos n ≡ some s → pos + n ≤ length f
unfolding read_at
read_at_within f pos n s more h =
    let full : length (take n (drop pos f)) ≡ n = ground (arith, h) in
    omega (arith, full, more, length-take_within n (drop pos f), length-drop pos f)

-- A block lies behind the cursor, in the image.
cursor_load_next_block_lem :
    (alloc : ℕ → Bool) (io : Io) (c c' : Cursor)
    → cursor_load_next_block alloc io c ≡ some c'
    → (c.next_block_offset + 2 ≤ length io.f) × (c.next_block_offset + 3 ≤ c'.next_block_offset)
unfolding cursor_load_next_block
cursor_load_next_block_lem alloc io c c' h =
    elim (Option-cases (read_at io.f c.next_block_offset 2)) [
      | inl bad ↦ absurd (cc (rw (bad, cursor_load_next_block) at h))
      | inr (hdr, good) ↦
          let size = le hdr % 32768 in
          elim (Bool-cases (ltb metadata_block_size size || size == 0)) [
            | inl wrong ↦ absurd (cc (rw (good, wrong, cursor_load_next_block) at h))
            | inr right ↦
                elim (Option-cases
                  (block_content alloc io (c.next_block_offset + 2) size (ltb (le hdr) 32768))) [
                    | inl bad ↦ absurd (cc (rw (good, right, bad, cursor_load_next_block) at h))
                    | inr (s, read) ↦
                        let behind : c.next_block_offset + 2 + size ≡ c'.next_block_offset =
                          ap (λ o. elim o [ none ↦ 0 | some d ↦ d.next_block_offset ])
                            (rw (good, right, read, cursor_load_next_block) at h) in
                        let full : size ≢ 0 = ground (arith, right) in
                        (
                          read_at_within io.f c.next_block_offset 2 hdr (omega arith) good,
                          omega (arith, behind, full),
                        )
                  ]
          ]
    ]

-- What is left to do: bytes to give, and bytes of the image behind the cursor.
abbrev pub left : Io → Cursor → ℕ → ℕ
left io c n = n + (length io.f - c.next_block_offset)

abbrev pub behind_round : Cursor → ℕ → Cursor
behind_round c n = record c { buf = drop n c.buf }

take_some : (n : ℕ) (s : Bytes) → n ≢ 0 → is_nil s ≡ false → length (take n s) ≢ 0
take_some zero s more h = absurd (more refl)
take_some (suc n) [] more h = absurd (cc)
take_some (suc n) (c ∷ s) more h = λ e. absurd (omega arith)

abbrev pub LeavesLess : Io → Cursor → Cursor → ℕ → Type 0
LeavesLess io c c' n = left io (behind_round c' n) (n - length (take n c'.buf)) < left io c n

kept_less : (io : Io) (c : Cursor) (n : ℕ) → n ≢ 0 → is_nil c.buf ≡ false → LeavesLess io c c n
kept_less io c n more full =
    let some_taken = take_some n c.buf more full in omega (arith, some_taken, more)

pub refill_less :
    (alloc : ℕ → Bool) (io : Io) (c c' : Cursor) (n : ℕ)
    → n ≢ 0
    → refill alloc io c ≡ some c'
    → LeavesLess io c c' n
refill_less alloc io c c' n more h = elim (Bool-cases (is_nil c.buf)) [
  | inl spent ↦
      let (within, behind) = cursor_load_next_block_lem alloc io c c' (rw (spent, refill) at h) in
      omega (arith, within, behind)
  | inr full ↦
      subst (λ d. LeavesLess io c d n) (some_inj (rw (full, refill) at h))
        (kept_less io c n more full)
]
