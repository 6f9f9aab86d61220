-- ===== src/Cramfs/Files.antt =====
-- The calls that the extraction of one file of a cramfs image makes.
use crimp.Common.{
  Bool, Bool-cases, Bytes, Option-cases, arith, false, inl, inr, not, some, suc, true, zero, ℕ, ◌<◌,
  ◌||◌, ◌≡◌,
}
use crimp.Cramfs.{
  Inode, Super, Uncompress, extract_regular_file, extract_blocks, read_block_pointer, fetch_block,
  expected_length, keep_or_discard, block_size, block_count,
}
use crimp.Cramfs.Tree.{Entry, read_name, read_entry}
use crimp.Disk.{History, Outside}
use crimp.Disk.Paths.{Inside, Confined}
use crimp.FsUtil.{path_component_is_safe}

pub read_entry_lem :
    (f : Bytes) (sb : Super) (pos remaining : ℕ) (e : Entry)
    → read_entry f sb pos remaining ≡ some e
    → (e.remaining < remaining) × (path_component_is_safe e.name ≡ true)
unfolding read_entry read_name
read_entry_lem f sb pos remaining e h = ground arith

module _ (os : Outside) (uncompress : Uncompress) (f : Bytes) (sb : Super) (dir : Bytes) where
  extract_blocks-Confined :
      (size : ℕ) (path : Bytes) (n ptr_pos prev_end bytes_written cap : ℕ) (history : History)
      → Inside dir path
      → Confined dir history
      → Confined dir
          (extract_blocks os uncompress f sb size path n ptr_pos prev_end bytes_written cap
            history).0
  unfolding extract_blocks
  extract_blocks-Confined size path zero ptr_pos prev_end bytes_written cap history i c = c
  extract_blocks-Confined size path (suc n) ptr_pos prev_end bytes_written cap history i c =
      elim (Option-cases (read_block_pointer f sb ptr_pos prev_end)) [
        | inl bad ↦ rw (bad, extract_blocks) c
        | inr (next, good) ↦
            elim (Option-cases (
              fetch_block uncompress os.alloc f (expected_length size bytes_written) prev_end next
                cap)) [
                  | inl bad ↦ rw (good, bad, extract_blocks) c
                  | inr ((block, cap'), fetched) ↦
                      elim (Bool-cases (os.writes history path block)) [
                        | inl written ↦
                            rw (good, fetched, written, extract_blocks)
                              (extract_blocks-Confined size path n _ _ _ _ _ i (i, c))
                        | inr failed ↦ rw (good, fetched, failed, extract_blocks) (i, c)
                      ]
                ]
      ]

  keep_or_discard-Confined :
      (path : Bytes) (r : History × Bool)
      → Inside dir path
      → Confined dir r.0
      → Confined dir (keep_or_discard path r).0
  keep_or_discard-Confined path (history, true) i c = c
  keep_or_discard-Confined path (history, false) i c = (i, c)

  pub file-Confined :
      (inode : Inode) (path : Bytes) (history : History)
      → Inside dir path
      → Confined dir history
      → Confined dir (extract_regular_file os uncompress f sb inode path history).0
  unfolding extract_regular_file
  file-Confined inode path history i c =
      elim (Bool-cases (os.is_symlink history path || not (os.opens history path))) [
        | inl refused ↦ rw refused c
        | inr opened ↦ elim (Bool-cases (os.alloc block_size)) [
          | inl granted ↦
              rw (opened, granted)
                (keep_or_discard-Confined path _ i (
                  extract_blocks-Confined inode.size path (block_count inode.size) _ _ _ _ _ i
                    (i, c)))
          | inr denied ↦ rw (opened, denied) (i, (i, c))
        ]
      ]
