-- ===== src/Squashfs/Writes.antt =====
-- The calls that the extraction of a file of src/extract/squashfs.c makes.
use crimp.Common.{
  Bool, Bool-cases, Bytes, List, Option-cases, [], false, inl, inr, length, ltb, not, true, ℕ, ◌+◌,
  ◌-◌, ◌==◌, ◌||◌, ◌∷◌,
}
use crimp.Disk.{create, History, Outside}
use crimp.Disk.Paths.{Inside, Confined}
use crimp.Entries.Confined.{IsConfined}
use crimp.Squashfs.{Io}
use crimp.Squashfs.Inodes.{Inode, invalid_frag}
use crimp.Squashfs.Files.{
  data_block, write_bytes, write_data_block, expected_length, size_of, write_blocks, fragment_block,
  write_tail, after_blocks, keep_or_remove, write_content, extract_regular_file,
}

module _ (os : Outside) (io : Io) (dir path : Bytes) (inside : Inside dir path) where
  write_data_block-Confined :
      (offset raw expected : ℕ) (history : History)
      → Confined dir history
      → Confined dir (write_data_block os io path offset raw expected history).0
  unfolding write_data_block write_bytes
  write_data_block-Confined offset raw expected history c =
      elim (Option-cases (data_block os.alloc io offset raw expected)) [
        | inl bad ↦ rw (bad, write_data_block) c
        | inr (s, good) ↦ elim (Bool-cases (length s == expected)) [
          | inl full ↦ rw (good, full, write_data_block) (inside, c)
          | inr short ↦ rw (good, short, write_data_block) c
        ]
      ]

  write_blocks-Confined :
      (size : ℕ) (raws : List ℕ) (offset before : ℕ) (history : History)
      → Confined dir history
      → Confined dir (write_blocks os io path size raws offset before history).0
  unfolding write_blocks
  write_blocks-Confined size [] offset before history c = c
  write_blocks-Confined size (raw ∷ raws) offset before history c =
      let expected = expected_length io.sb.block_size size before in
      let r = write_data_block os io path offset raw expected history in
      let c' = write_data_block-Confined offset raw expected history c in
      elim (Bool-cases r.1) [
        | inl good ↦
            rw (good, write_blocks)
              (write_blocks-Confined size raws (offset + size_of raw) (before + expected) r.0 c')
        | inr bad ↦ rw (bad, write_blocks) c'
      ]

  write_tail-Confined :
      (inode : Inode) (before : ℕ) (history : History)
      → Confined dir history
      → Confined dir (write_tail os io path inode before history).0
  unfolding write_tail write_bytes
  write_tail-Confined inode before history c =
      elim (Bool-cases (inode.frag_index == invalid_frag)) [
        | inl whole ↦ rw (whole, write_tail) c
        | inr tail ↦ elim (Option-cases (fragment_block os.alloc io inode.frag_index)) [
          | inl bad ↦ rw (tail, bad, write_tail) c
          | inr (s, good) ↦
              elim (Bool-cases
                (ltb (length s) (inode.frag_block_offset + (inode.file_size - before)))) [
                  | inl short ↦ rw (tail, good, short, write_tail) c
                  | inr fits ↦ rw (tail, good, fits, write_tail) (inside, c)
                ]
        ]
      ]

  after_blocks-Confined :
      (inode : Inode) (r : History × ℕ × Bool)
      → Confined dir r.0
      → Confined dir (after_blocks os io path inode r).0
  after_blocks-Confined inode (history, before, false) c = c
  after_blocks-Confined inode (history, before, true) c = write_tail-Confined inode before history c

  write_content-Confined :
      (inode : Inode) (history : History)
      → Confined dir history
      → Confined dir (write_content os io inode path history).0
  unfolding write_content
  write_content-Confined inode history c = elim (Bool-cases (os.alloc io.sb.block_size)) [
    | inr refused ↦ rw (refused, write_content) c
    | inl got ↦
        rw (got, write_content)
          (after_blocks-Confined inode _ (
            write_blocks-Confined inode.file_size inode.block_sizes inode.content_blocks_start 0
              history c))
  ]

  keep_or_remove-Confined :
      (r : History × Bool) → Confined dir r.0 → Confined dir (keep_or_remove path r).0
  keep_or_remove-Confined (history, true) c = c
  keep_or_remove-Confined (history, false) c = (inside, c)

pub extract_regular_file-IsConfined :
    (os : Outside) (io : Io) (inode : Inode) (dir : Bytes)
    → IsConfined dir (extract_regular_file os io inode)
unfolding extract_regular_file
extract_regular_file-IsConfined os io inode dir path history i c =
    elim (Bool-cases (os.is_symlink history path || not (os.opens history path))) [
      | inl refused ↦ rw (refused, extract_regular_file) c
      | inr opened ↦
          rw (opened, extract_regular_file)
            (keep_or_remove-Confined os io dir path i _
              (write_content-Confined os io dir path i inode (create path ∷ history) (i, c)))
    ]
