-- ===== src/Squashfs/Sizes.antt =====
-- How much an extraction of a file of src/extract/squashfs.c writes.
use crimp.Common.{
  Bool, Bool-cases, Bytes, List, Option-cases, [], arith, drop, false, inl, inr, length,
  length-drop, length-take, ltb, not, refl, true, ℕ, ◌+◌, ◌-◌, ◌==◌, ◌||◌, ◌∷◌, ◌≡◌, ◌≤◌,
}
use crimp.Disk.{History, Outside, create}
use crimp.Disk.Writes.{written, Extracted}
use crimp.Squashfs.Files.{
  after_blocks, keep_or_remove, write_content, extract_regular_file, data_block, write_bytes,
  write_data_block, expected_length, size_of, write_blocks, fragment_block, write_tail,
}
use crimp.Squashfs.{Io}
use crimp.Squashfs.Inodes.{Inode, invalid_frag}

-- The room in some blocks.
abbrev pub total : List ℕ → ℕ → ℕ
total [] block_size = 0
total (raw ∷ raws) block_size = block_size + total raws block_size

-- A file without a fragment fits its blocks.
abbrev pub FitsBlocks : ℕ → Inode → Type 0
FitsBlocks block_size inode =
    inode.frag_index ≡ invalid_frag → inode.file_size ≤ total inode.block_sizes block_size

module _ (os : Outside) (io : Io) (path : Bytes) where
  written-write_data_block :
      (offset raw expected : ℕ) (history : History)
      → (write_data_block os io path offset raw expected history).1 ≡ true
      → written (write_data_block os io path offset raw expected history).0
        ≡ expected + written history
  unfolding write_data_block write_bytes
  written-write_data_block offset raw expected history h =
      elim (Option-cases (data_block os.alloc io offset raw expected)) [
        | inl bad ↦ absurd (cc (rw (bad, write_data_block) at h))
        | inr (s, good) ↦ elim (Bool-cases (length s == expected)) [
          | inl full ↦ rw (good, full, write_data_block) (ground (arith, full))
          | inr short ↦ absurd (cc (rw (good, short, write_data_block) at h))
        ]
      ]

  -- What the loop over the blocks has done when it ends well.
  abbrev HasWritten : ℕ → ℕ → ℕ → History → History × ℕ × Bool → Type 0
  HasWritten size room before history r =
      (written r.0 + before ≡ r.1 + written history)
      × (r.1 ≤ size)
      × (size ≤ before + room → r.1 ≡ size)

  expected_length_bounds :
      (block_size size before : ℕ)
      → before ≤ size
      → (before + expected_length block_size size before ≤ size)
        × ((room : ℕ)
            → size ≤ before + (block_size + room)
            → size ≤ before + expected_length block_size size before + room)
  expected_length_bounds block_size size before le =
      elim (Bool-cases (ltb size (before + block_size))) [
        | inl last ↦ rw last (omega arith, λ room h. omega arith)
        | inr full ↦ rw full (ground (arith, full), λ room h. omega arith)
      ]

  write_blocks-HasWritten :
      (size : ℕ) (raws : List ℕ) (offset before : ℕ) (history : History)
      → before ≤ size
      → (write_blocks os io path size raws offset before history).2 ≡ true
      → HasWritten size
          (total raws io.sb.block_size)
          before
          history
          (write_blocks os io path size raws offset before history)
  unfolding write_blocks
  write_blocks-HasWritten size [] offset before history le h =
      (omega arith, le, λ fits. omega arith)
  write_blocks-HasWritten size (raw ∷ raws) offset before history le h =
      let expected = expected_length io.sb.block_size size before in
      let r = write_data_block os io path offset raw expected history in
      elim (Bool-cases r.1) [
        | inr bad ↦ absurd (cc (rw (bad, write_blocks) at h))
        | inl good ↦
            let (within, fits) = expected_length_bounds io.sb.block_size size before le in
            let wrote = written-write_data_block offset raw expected history good in
            let (all, le', done) =
              write_blocks-HasWritten size raws (offset + size_of raw) (before + expected) r.0
                within (rw (good, write_blocks) at h) in
            rw (good, write_blocks)
              (
                omega (arith, all, wrote),
                le',
                λ room. done (fits (total raws io.sb.block_size) room),
              )
      ]

  written-write_tail :
      (inode : Inode) (before : ℕ) (history : History)
      → before ≤ inode.file_size
      → (inode.frag_index ≡ invalid_frag → before ≡ inode.file_size)
      → (write_tail os io path inode before history).1 ≡ true
      → written (write_tail os io path inode before history).0 + before
        ≡ inode.file_size + written history
  unfolding write_tail write_bytes
  written-write_tail inode before history le whole_done h =
      let tail_len = inode.file_size - before in
      elim (Bool-cases (inode.frag_index == invalid_frag)) [
        | inl whole ↦
            let same = whole_done (ground (arith, whole)) in
            rw (whole, write_tail) (omega (arith, same))
        | inr tail ↦ elim (Option-cases (fragment_block os.alloc io inode.frag_index)) [
          | inl bad ↦ absurd (cc (rw (tail, bad, write_tail) at h))
          | inr (s, good) ↦
              elim (Bool-cases (ltb (length s) (inode.frag_block_offset + tail_len))) [
                | inl short ↦ absurd (cc (rw (tail, good, short, write_tail) at h))
                | inr fits ↦
                    let room : tail_len ≤ length (drop inode.frag_block_offset s) =
                      ground (arith, fits, length-drop inode.frag_block_offset s) in
                    let len = length-take tail_len (drop inode.frag_block_offset s) room in
                    rw (tail, good, fits, write_tail) (omega (arith, len))
              ]
        ]
      ]

  written-after_blocks :
      (inode : Inode) (history : History) (r : History × ℕ × Bool)
      → (r.2 ≡ true
          → HasWritten inode.file_size (total inode.block_sizes io.sb.block_size) 0 history r)
      → FitsBlocks io.sb.block_size inode
      → (after_blocks os io path inode r).1 ≡ true
      → written (after_blocks os io path inode r).0 ≡ inode.file_size + written history
  written-after_blocks inode history (h', before, false) blocks fits ok = absurd (cc)
  written-after_blocks inode history (h', before, true) blocks fits ok =
      let (all, le, done) = blocks refl in
      omega (
        arith,
        all,
        written-write_tail inode before h' le (λ whole. done (omega (arith, fits whole))) ok,
      )

  written-write_content :
      (inode : Inode) (history : History)
      → FitsBlocks io.sb.block_size inode
      → (write_content os io inode path history).1 ≡ true
      → written (write_content os io inode path history).0 ≡ inode.file_size + written history
  unfolding write_content
  written-write_content inode history fits h = elim (Bool-cases (os.alloc io.sb.block_size)) [
    | inr refused ↦ absurd (cc (rw (refused, write_content) at h))
    | inl got ↦
        rw (got, write_content)
          (written-after_blocks inode history _
            (write_blocks-HasWritten inode.file_size inode.block_sizes inode.content_blocks_start 0
              history (omega arith))
            fits (rw (got, write_content) at h))
  ]

  keep_or_remove-Extracted :
      (size : ℕ) (history : History) (r : History × Bool)
      → (r.1 ≡ true → written r.0 ≡ size + written history)
      → Extracted size path history (keep_or_remove path r)
  keep_or_remove-Extracted size history (h', true) all = inl (refl, all refl)
  keep_or_remove-Extracted size history (h', false) all = inr (refl, inr (h', refl))

-- A file that fits its blocks, or has a fragment, is extracted whole, with as many bytes as its inode
-- says, or the extraction fails: then it changed nothing, or its last call removed the file that it
-- had begun.
pub extract_regular_file_whole :
    (os : Outside) (io : Io) (inode : Inode) (path : Bytes) (history : History)
    → FitsBlocks io.sb.block_size inode
    → Extracted inode.file_size path history (extract_regular_file os io inode path history)
unfolding extract_regular_file
extract_regular_file_whole os io inode path history fits =
    elim (Bool-cases (os.is_symlink history path || not (os.opens history path))) [
      | inl refused ↦ rw (refused, extract_regular_file) (inr (refl, inl refl))
      | inr opened ↦
          rw (opened, extract_regular_file)
            (keep_or_remove-Extracted os io path inode.file_size history _ (λ ok.
              omega
                (arith, written-write_content os io path inode (create path ∷ history) fits ok)))
    ]
