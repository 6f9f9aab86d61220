-- ===== src/Cramfs/Sizes.antt =====
-- How much of a file an extraction writes, and what it leaves behind when it fails.
use crimp.Common.{
  Bool, Bool-cases, Bytes, Option-cases, ap, arith, false, inl, inr, length, not, refl, some, suc,
  sym, true, zero, ℕ, ◌*◌, ◌+◌, ◌-◌, ◌<◌, ◌==◌, ◌||◌, ◌∙◌, ◌∷◌, ◌≡◌, ◌≤◌, ◌⊎◌,
}
use crimp.Cramfs.{
  Inode, Super, extract_regular_file, extract_blocks, read_block_pointer, fetch_block,
  expected_length, keep_or_discard, block_size, block_count, zeros, inflate,
}
use crimp.Image.{Uncompress, of_length_lem, grow_buffer, read_at}
use crimp.Disk.{create, write, History, Outside}
use crimp.Disk.Writes.{written, Extracted}

length-zeros : (n : ℕ) → length (zeros n) ≡ n
length-zeros zero = refl
length-zeros (suc n) = ap suc (length-zeros n)

inflate-length :
    (uncompress : Uncompress) (f : Bytes) (expected prev_end comp_len : ℕ) (block : Bytes)
    → inflate uncompress f expected prev_end comp_len ≡ some block
    → length block ≡ expected
unfolding inflate
inflate-length uncompress f expected prev_end comp_len block h =
    elim (Option-cases (read_at f prev_end comp_len)) [
      | inl bad ↦ absurd (cc (rw (bad, inflate) at h))
      | inr (comp, good) ↦
          of_length_lem expected (uncompress block_size comp) block (rw (good, inflate) at h)
    ]

fetch_block-length :
    (uncompress : Uncompress) (alloc : ℕ → Bool) (f : Bytes) (expected prev_end next cap cap' : ℕ)
    (block : Bytes)
    → fetch_block uncompress alloc f expected prev_end next cap ≡ some (block, cap')
    → length block ≡ expected
unfolding fetch_block
fetch_block-length uncompress alloc f expected prev_end next cap cap' block h =
    let comp_len = next - prev_end in
    elim (Bool-cases (comp_len == 0)) [
      | inl hole ↦
          let same : zeros expected ≡ block = cc (rw (hole, fetch_block) at h) in
          sym (ap length same) ∙ length-zeros expected
      | inr filled ↦ elim (Option-cases (grow_buffer alloc comp_len cap)) [
        | inl bad ↦ absurd (cc (rw (filled, bad, fetch_block) at h))
        | inr (grown, good) ↦
            elim (Option-cases (inflate uncompress f expected prev_end comp_len)) [
              | inl bad ↦ absurd (cc (rw (filled, good, bad, fetch_block) at h))
              | inr (s, inflated) ↦
                  let same : s ≡ block = cc (rw (filled, good, inflated, fetch_block) at h) in
                  sym (ap length same)
                  ∙ inflate-length uncompress f expected prev_end comp_len s inflated
            ]
      ]
    ]

step_bounds :
    (size bytes_written n : ℕ)
    → bytes_written ≤ size
    → size ≤ bytes_written + block_size * suc n
    → bytes_written + block_size * suc n < size + block_size
    → (bytes_written + expected_length size bytes_written ≤ size)
      × (size ≤ bytes_written + expected_length size bytes_written + block_size * n)
      × (bytes_written + expected_length size bytes_written + block_size * n < size + block_size)
step_bounds size bytes_written n a b c = ground arith

-- What a run of the block loop wrote: the rest of the file, if it did not fail.
abbrev Wrote : ℕ → ℕ → History → History × Bool → Type 0
Wrote size bytes_written history r =
    (written r.0 + bytes_written ≡ size + written history) ⊎ (r.1 ≡ false)

Wrote-write :
    (size bytes_written expected : ℕ) (path block : Bytes) (history : History) (r : History × Bool)
    → length block ≡ expected
    → Wrote size (bytes_written + expected) (write path block ∷ history) r
    → Wrote size bytes_written history r
Wrote-write size bytes_written expected path block history r len (inl e) = inl (omega arith)
Wrote-write size bytes_written expected path block history r len (inr e) = inr e

module _ (os : Outside) (uncompress : Uncompress) (f : Bytes) (sb : Super) where
  extract_blocks_lem :
      (size : ℕ) (path : Bytes) (n ptr_pos prev_end bytes_written cap : ℕ) (history : History)
      → bytes_written ≤ size
      → size ≤ bytes_written + block_size * n
      → bytes_written + block_size * n < size + block_size
      → Wrote size bytes_written history
          (extract_blocks os uncompress f sb size path n ptr_pos prev_end bytes_written cap history)
  unfolding extract_blocks
  extract_blocks_lem size path zero ptr_pos prev_end bytes_written cap history a b c =
      inl (omega arith)
  extract_blocks_lem size path (suc n) ptr_pos prev_end bytes_written cap history a b c =
      let expected = expected_length size bytes_written in
      elim (Option-cases (read_block_pointer f sb ptr_pos prev_end)) [
        | inl bad ↦ inr (rw (bad, extract_blocks))
        | inr (next, good) ↦
            elim (Option-cases (fetch_block uncompress os.alloc f expected prev_end next cap)) [
              | inl bad ↦ inr (rw (good, bad, extract_blocks))
              | inr ((block, cap'), fetched) ↦ elim (Bool-cases (os.writes history path block)) [
                | inr failed ↦ inr (rw (good, fetched, failed, extract_blocks))
                | inl went ↦
                    let len =
                      fetch_block-length uncompress os.alloc f expected prev_end next cap cap' block
                        fetched in
                    let (a', b', c') = step_bounds size bytes_written n a b c in
                    let rest =
                      extract_blocks_lem size path n (ptr_pos + 4) next (bytes_written + expected)
                        cap' (write path block ∷ history) a' b' c' in
                    rw (good, fetched, went, extract_blocks)
                      (Wrote-write size bytes_written expected path block history _ len rest)
              ]
            ]
      ]

keep_or_discard-Extracted :
    (size : ℕ) (path : Bytes) (history begun : History) (r : History × Bool)
    → written begun ≡ written history
    → Wrote size 0 begun r
    → Extracted size path history (keep_or_discard path r)
keep_or_discard-Extracted size path history begun (h, true) same (inl e) = inl (refl, omega arith)
keep_or_discard-Extracted size path history begun (h, true) same (inr e) = absurd (cc)
keep_or_discard-Extracted size path history begun (h, false) same w = inr (refl, inr (h, refl))

-- The extraction of a file either succeeds, and has then written exactly as many bytes as the inode
-- says, or fails, and has then made no call at all or removed the file as its last one.
pub extract_regular_file-Extracted :
    (os : Outside) (uncompress : Uncompress) (f : Bytes) (sb : Super) (inode : Inode)
    (disk_path : Bytes) (history : History)
    → Extracted inode.size disk_path history
        (extract_regular_file os uncompress f sb inode disk_path history)
unfolding extract_regular_file
extract_regular_file-Extracted os uncompress f sb inode disk_path history =
    let n = block_count inode.size in
    elim (Bool-cases (os.is_symlink history disk_path || not (os.opens history disk_path))) [
      | inl refused ↦ rw refused (inr (refl, inl refl))
      | inr opened ↦ elim (Bool-cases (os.alloc block_size)) [
        | inr denied ↦ rw (opened, denied) (inr (refl, inr (_, refl)))
        | inl granted ↦
            rw (opened, granted)
              (keep_or_discard-Extracted inode.size disk_path history (create disk_path ∷ history) _
                (omega arith)
                (extract_blocks_lem os uncompress f sb inode.size disk_path n _ _ 0 _ _
                  (omega arith) (omega arith) (omega arith)))
      ]
    ]
