-- ===== src/Squashfs/Streams.antt =====
-- `cursor_read` of src/extract/squashfs.c, against the stream that the metadata blocks make.
use crimp.Common.{
  Bool, Bool-cases, Bytes, List, Option, Option-cases, [], ap, append-nil, append_assoc, arith,
  drop, false, inl, inr, is_nil, length, length-append, length-take_le, ltb, none, refl, some,
  some_inj, subst, suc, sym, take, true, zero, ℕ, ◌%◌, ◌++◌, ◌+◌, ◌-◌, ◌<◌, ◌==◌, ◌||◌, ◌∙◌, ◌∷◌,
  ◌≡◌, ◌≢◌, ◌≤◌,
}
use crimp.Image.{read_at}
use crimp.Squashfs.{
  Io, Cursor, block_content, cursor_load_next_block, refill, with_front, cursor_loop, cursor_read,
  metadata_block_size, le,
}
use crimp.Squashfs.Cursors.{left, behind_round, refill_less}

-- A metadata block at an offset: a header of two bytes, whose low 15 bits are the size of the content
-- that follows, and whose highest bit says that the content is not compressed.
abbrev pub IsBlock : (ℕ → Bool) → Io → ℕ → Bytes → Bytes → Type 0
IsBlock alloc io offset hdr s =
    (read_at io.f offset 2 ≡ some hdr)
    × (le hdr % 32768 ≢ 0)
    × (le hdr % 32768 ≤ metadata_block_size)
    × (block_content alloc io (offset + 2) (le hdr % 32768) (ltb (le hdr) 32768) ≡ some s)

-- The contents of blocks that lie behind one another, from one offset to another.
abbrev pub Blocks : (ℕ → Bool) → Io → ℕ → List Bytes → ℕ → Type 0
Blocks alloc io offset [] end = offset ≡ end
Blocks alloc io offset (s ∷ blocks) end =
    (hdr : Bytes) × IsBlock alloc io offset hdr s
    × Blocks alloc io (offset + 2 + le hdr % 32768) blocks end

abbrev pub joined : List Bytes → Bytes
joined [] = []
joined (s ∷ blocks) = s ++ joined blocks

take-drop : (n : ℕ) (s : Bytes) → take n s ++ drop n s ≡ s
take-drop zero s = refl
take-drop (suc n) [] = refl
take-drop (suc n) (c ∷ s) = ap (λ t. c ∷ t) (take-drop n s)

is_nil_lem : (s : Bytes) → is_nil s ≡ true → s ≡ []
is_nil_lem [] h = refl
is_nil_lem (c ∷ s) h = absurd (cc)

module _ (alloc : ℕ → Bool) (io : Io) where
  cursor_load_next_block-IsBlock :
      (c d : Cursor)
      → cursor_load_next_block alloc io c ≡ some d
      → (hdr : Bytes) × IsBlock alloc io c.next_block_offset hdr d.buf
        × (d.next_block_offset ≡ c.next_block_offset + 2 + le hdr % 32768)
  unfolding cursor_load_next_block
  cursor_load_next_block-IsBlock c d h = elim (Option-cases (read_at io.f c.next_block_offset 2)) [
    | inl bad ↦ absurd (cc (rw (bad, cursor_load_next_block) at h))
    | inr (hdr, good) ↦
        elim (Bool-cases (ltb metadata_block_size (le hdr % 32768) || le hdr % 32768 == 0)) [
          | inl wrong ↦ absurd (cc (rw (good, wrong, cursor_load_next_block) at h))
          | inr right ↦
              elim (Option-cases (
                block_content alloc io (c.next_block_offset + 2) (le hdr % 32768)
                  (ltb (le hdr) 32768))) [
                    | inl bad ↦ absurd (cc (rw (good, right, bad, cursor_load_next_block) at h))
                    | inr (s, read) ↦
                        let same = some_inj (rw (good, right, read, cursor_load_next_block) at h) in
                        (
                          hdr,
                          (
                            good,
                            ground (arith, right),
                            ground (arith, right),
                            read ∙ ap some (ap (λ (q : Cursor). q.buf) same),
                          ),
                          sym (ap (λ (q : Cursor). q.next_block_offset) same),
                        )
                  ]
        ]
  ]

  cursor_load_next_block_complete :
      (c : Cursor) (hdr s : Bytes)
      → IsBlock alloc io c.next_block_offset hdr s
      → cursor_load_next_block alloc io c
        ≡ some (record { next_block_offset = c.next_block_offset + 2 + le hdr % 32768; buf = s })
  unfolding cursor_load_next_block
  cursor_load_next_block_complete c hdr s (good, filled, small, read) =
      let right : (ltb metadata_block_size (le hdr % 32768) || le hdr % 32768 == 0) ≡ false =
        ground (arith, filled, small) in
      rw (good, right, read, cursor_load_next_block) refl

  -- The bytes that were given are the first of the stream from one cursor, and the other cursor stands
  -- behind them.
  abbrev pub Reads : Cursor → ℕ → Bytes × Cursor → Type 0
  Reads c n (s, c') =
      (length s ≡ n)
      × ((blocks : List Bytes) × Blocks alloc io c.next_block_offset blocks c'.next_block_offset
          × (c.buf ++ joined blocks ≡ s ++ c'.buf))

  round-Reads :
      (d c' : Cursor) (n : ℕ) (rest : Bytes)
      → Reads (behind_round d n) (n - length (take n d.buf)) (rest, c')
      → Reads d n (take n d.buf ++ rest, c')
  round-Reads d c' n rest (full, (blocks, there, same)) = (
    omega (arith, full, length-append (take n d.buf) rest, length-take_le n d.buf),
    (
      blocks,
      there,
      ap (λ t. t ++ joined blocks) (sym (take-drop n d.buf))
          ∙ append_assoc (take n d.buf) (drop n d.buf) (joined blocks)
          ∙ ap (λ t. take n d.buf ++ t) same
          ∙ sym (append_assoc (take n d.buf) rest c'.buf),
    ),
  )

  refill-Reads :
      (c d : Cursor) (n : ℕ) (r : Bytes × Cursor)
      → refill alloc io c ≡ some d
      → Reads d n r
      → Reads c n r
  refill-Reads c d n r h (full, (blocks, there, same)) = elim (Bool-cases (is_nil c.buf)) [
    | inl spent ↦
        let (hdr, is, next) = cursor_load_next_block-IsBlock c d (rw (spent, refill) at h) in
        (
          full,
          (
            d.buf ∷ blocks,
            (hdr, is, subst (λ o. Blocks alloc io o blocks r.1.next_block_offset) next there),
            ap (λ t. t ++ (d.buf ++ joined blocks)) (is_nil_lem c.buf spent) ∙ same,
          ),
        )
    | inr kept ↦
        subst (λ q. Reads q n r) (sym (some_inj (rw (kept, refill) at h)))
          (full, (blocks, there, same))
  ]

  cursor_loop-Reads :
      (fuel : ℕ) (c : Cursor) (n : ℕ) (r : Bytes × Cursor)
      → cursor_loop fuel alloc io c n ≡ some r
      → Reads c n r
  unfolding cursor_loop
  cursor_loop-Reads zero c n r e = absurd (cc)
  cursor_loop-Reads (suc fuel) c n r e = elim (Bool-cases (n == 0)) [
    | inl done ↦
        subst (Reads c n) (some_inj (rw (done, cursor_loop) at e))
          (ground (arith, done), ([], refl, append-nil c.buf))
    | inr more ↦ elim (Option-cases (refill alloc io c)) [
      | inl bad ↦ absurd (cc (rw (more, bad, cursor_loop) at e))
      | inr (d, good) ↦ refill-Reads c d n r good (
          after d
            (λ q ran. cursor_loop-Reads fuel (behind_round d n) (n - length (take n d.buf)) q ran)
            (cursor_loop fuel alloc io (behind_round d n) (n - length (take n d.buf))) refl
            (rw (more, good, cursor_loop) at e))
    ]
  ]
    where
      after :
          (d : Cursor)
          → ((q : Bytes × Cursor)
              → cursor_loop fuel alloc io (behind_round d n) (n - length (take n d.buf)) ≡ some q
              → Reads (behind_round d n) (n - length (take n d.buf)) q)
          → (o : Option (Bytes × Cursor))
          → cursor_loop fuel alloc io (behind_round d n) (n - length (take n d.buf)) ≡ o
          → with_front (take n d.buf) o ≡ some r
          → Reads d n r
      after d later none ran f = absurd (cc)
      after d later (some (rest, c')) ran f =
          subst (Reads d n) (some_inj f) (round-Reads d c' n rest (later (rest, c') ran))

  block_first :
      (c : Cursor) (n end : ℕ) (blocks : List Bytes)
      → n ≢ 0
      → is_nil c.buf ≡ true
      → n ≤ length (c.buf ++ joined blocks)
      → Blocks alloc io c.next_block_offset blocks end
      → (d : Cursor) × (later : List Bytes) × (cursor_load_next_block alloc io c ≡ some d)
        × Blocks alloc io d.next_block_offset later end
        × (joined blocks ≡ d.buf ++ joined later)
  block_first c n end [] more spent enough h =
      let none_left : n ≤ 0 = subst (λ t. n ≤ length (t ++ [])) (is_nil_lem c.buf spent) enough in
      absurd (omega (arith, none_left, more))
  block_first c n end (s ∷ blocks) more spent enough (hdr, is, h) =
      (_, blocks, cursor_load_next_block_complete c hdr s is, h, refl)

  refill_complete :
      (c : Cursor) (n end : ℕ) (blocks : List Bytes)
      → n ≢ 0
      → n ≤ length (c.buf ++ joined blocks)
      → Blocks alloc io c.next_block_offset blocks end
      → (d : Cursor) × (later : List Bytes) × (refill alloc io c ≡ some d)
        × Blocks alloc io d.next_block_offset later end
        × (c.buf ++ joined blocks ≡ d.buf ++ joined later)
  refill_complete c n end blocks more enough h = elim (Bool-cases (is_nil c.buf)) [
    | inl spent ↦
        let (d, later, good, there, same) = block_first c n end blocks more spent enough h in
        (
          d,
          later,
          rw spent good,
          there,
          ap (λ t. t ++ joined blocks) (is_nil_lem c.buf spent) ∙ same,
        )
    | inr kept ↦ (c, blocks, rw kept refl, h, refl)
  ]

  enough_left :
      (n : ℕ) (s t : Bytes) → n ≤ length (s ++ t) → n - length (take n s) ≤ length (drop n s ++ t)
  enough_left n s t enough =
      let whole = ap length (take-drop n s) in
      omega (
        arith,
        whole,
        enough,
        length-append s t,
        length-append (drop n s) t,
        length-append (take n s) (drop n s),
      )

  cursor_loop_complete :
      (fuel : ℕ) (c : Cursor) (n end : ℕ) (blocks : List Bytes)
      → left io c n < fuel
      → n ≤ length (c.buf ++ joined blocks)
      → Blocks alloc io c.next_block_offset blocks end
      → (r : Bytes × Cursor) × (cursor_loop fuel alloc io c n ≡ some r)
  unfolding cursor_loop
  cursor_loop_complete zero c n end blocks low enough h = absurd (omega arith)
  cursor_loop_complete (suc fuel) c n end blocks low enough h = elim (Bool-cases (n == 0)) [
    | inl done ↦ (([], c), rw (done, cursor_loop) refl)
    | inr busy ↦
        let more : n ≢ 0 = ground (arith, busy) in
        let (d, later, good, there, same) = refill_complete c n end blocks more enough h in
        let less = refill_less alloc io c d n more good in
        let ((s, c'), ran) =
          cursor_loop_complete fuel (behind_round d n) (n - length (take n d.buf)) end later
            (omega arith)
            (enough_left n d.buf (joined later) (subst (λ t. n ≤ length t) same enough)) there in
        ((take n d.buf ++ s, c'), rw (busy, good, cursor_loop) (ap (with_front (take n d.buf)) ran))
  ]

-- The stream of a cursor is what is left of its block and then the contents of the metadata blocks
-- that lie behind one another in the image. A read of `n` bytes that succeeds gives the first `n` bytes
-- of the stream and leaves the cursor behind them, so that what it still has is the rest of the blocks
-- that were read; and a read succeeds wherever the stream holds `n` bytes.
pub cursor_read-Reads :
    (alloc : ℕ → Bool) (io : Io) (c : Cursor) (n : ℕ)
    → ((r : Bytes × Cursor) → cursor_read alloc io c n ≡ some r → Reads alloc io c n r)
      × ((blocks : List Bytes) (end : ℕ)
          → Blocks alloc io c.next_block_offset blocks end
          → n ≤ length (c.buf ++ joined blocks)
          → (r : Bytes × Cursor) × (cursor_read alloc io c n ≡ some r))
unfolding cursor_read
cursor_read-Reads alloc io c n = (
  λ r e. cursor_loop-Reads alloc io _ c n r e,
  λ blocks end h enough. cursor_loop_complete alloc io _ c n end blocks (omega arith) enough h,
)
