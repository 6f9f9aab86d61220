-- ===== src/Squashfs/Blocks.antt =====
-- The blocks of the inodes that `read_inode` of src/extract/squashfs.c reads.
use crimp.Common.{
  Bool, Bool-cases, Bytes, List, Option, Option-cases, [], ap, arith, false, if◌then◌else◌, inl,
  inr, length, ltb, none, refl, some, some_inj, subst, suc, sym, true, zero, ℕ, ◌%◌, ◌*◌, ◌+◌, ◌-◌,
  ◌/◌, ◌<◌, ◌==◌, ◌^◌, ◌||◌, ◌∙◌, ◌∷◌, ◌≡◌, ◌≤◌,
}
use native.Mathlib.Nat.{zero-mul, suc-mul, mod-lt, div-add-mod'}
use crimp.Disk.{History, Outside}
use crimp.Disk.Writes.{Extracted}
use crimp.Squashfs.{Io, Cursor, cursor_init, cursor_read, read_fields, field}
use crimp.Squashfs.Inodes.{
  Inode, invalid_frag, max_blocks_per_file, max_extracted_file_size, blocks_of, read_sizes,
  read_block_sizes, read_basic_dir_fields, read_extended_dir_fields, file_inode,
  read_basic_file_fields, read_extended_file_fields, read_symlink_fields, read_type_fields,
  read_inode,
}
use crimp.Squashfs.Files.{validate_block_size, extract_regular_file}
use crimp.Squashfs.Sizes.{extract_regular_file_whole, total, FitsBlocks}

total_lem : (raws : List ℕ) (block_size : ℕ) → total raws block_size ≡ length raws * block_size
total_lem [] block_size = sym (zero-mul block_size)
total_lem (raw ∷ raws) block_size =
    omega (arith, total_lem raws block_size, suc-mul (length raws) block_size)

ceiling_lem : (x r size d : ℕ) → x + r ≡ size + d - 1 → r < d → size ≤ x
ceiling_lem x r size d e h = omega arith

blocks_of_fits :
    (size block_size : ℕ)
    → 0 < block_size
    → size ≤ blocks_of size block_size invalid_frag * block_size
unfolding blocks_of
blocks_of_fits size d h =
    ceiling_lem ((size + d - 1) / d * d) ((size + d - 1) % d) size d (div-add-mod' (size + d - 1) d)
      (mod-lt (size + d - 1) h)

read_sizes-length :
    (alloc : ℕ → Bool) (io : Io) (c : Cursor) (n : ℕ) (sizes : List ℕ)
    → read_sizes alloc io c n ≡ some sizes
    → length sizes ≡ n
unfolding read_sizes
read_sizes-length alloc io c zero sizes h = ap length (sym (some_inj h))
read_sizes-length alloc io c (suc n) sizes h = elim (Option-cases (cursor_read alloc io c 4)) [
  | inl bad ↦ absurd (cc (rw (bad, read_sizes) at h))
  | inr ((s, c'), good) ↦ elim (Option-cases (read_sizes alloc io c' n)) [
    | inl bad ↦ absurd (cc (rw (good, bad, read_sizes) at h))
    | inr (later, rest) ↦
        ap length (sym (some_inj (rw (good, rest, read_sizes) at h)))
        ∙ ap suc (read_sizes-length alloc io c' n later rest)
  ]
]

read_block_sizes-length :
    (alloc : ℕ → Bool) (io : Io) (c : Cursor) (size frag : ℕ) (sizes : List ℕ)
    → read_block_sizes alloc io c size frag ≡ some sizes
    → length sizes ≡ blocks_of size io.sb.block_size frag
unfolding read_block_sizes
read_block_sizes-length alloc io c size frag sizes h =
    let nblocks = blocks_of size io.sb.block_size frag in
    elim (Bool-cases (ltb max_extracted_file_size size)) [
      | inl large ↦ absurd (cc (rw (large, read_block_sizes) at h))
      | inr small ↦ elim (Bool-cases (ltb max_blocks_per_file nblocks)) [
        | inl many ↦ absurd (cc (rw (small, many, read_block_sizes) at h))
        | inr few ↦ elim (Bool-cases (nblocks == 0)) [
          | inl nothing ↦
              ap length (sym (some_inj (rw (small, few, nothing, read_block_sizes) at h)))
              ∙ ground (arith, nothing)
          | inr more ↦ elim (Bool-cases (alloc (4 * nblocks))) [
            | inr refused ↦ absurd (cc (rw (small, few, more, refused, read_block_sizes) at h))
            | inl got ↦
                read_sizes-length alloc io c nblocks sizes
                  (rw (small, few, more, got, read_block_sizes) at h)
          ]
        ]
      ]
    ]

module _ (alloc : ℕ → Bool) (io : Io) (positive : 0 < io.sb.block_size) where
  -- Whatever inode comes out fits its blocks.
  abbrev AllFit : Option Inode → Type 0
  AllFit o = (inode : Inode) → o ≡ some inode → FitsBlocks io.sb.block_size inode

  -- An inode that is no file has no fragment field, which is then 0.
  no_file-AllFit : (made : Inode) → made.frag_index ≡ 0 → AllFit (some made)
  no_file-AllFit made none_there inode e whole =
      absurd (omega (arith, ap (λ i. i.frag_index) (some_inj e), none_there, whole))

  sizes_fit :
      (c : Cursor) (frag size : ℕ) (sizes : List ℕ)
      → read_block_sizes alloc io c size frag ≡ some sizes
      → frag ≡ invalid_frag
      → size ≤ total sizes io.sb.block_size
  sizes_fit c frag size sizes good whole =
      let count = read_block_sizes-length alloc io c size frag sizes good in
      subst (λ n. size ≤ n)
        (sym (
          total_lem sizes io.sb.block_size
          ∙ ap (λ n. n * io.sb.block_size) (count ∙ ap (blocks_of size io.sb.block_size) whole)))
        (blocks_of_fits size io.sb.block_size positive)

  file_inode-AllFit :
      (type : ℕ) (c : Cursor) (start frag offset size : ℕ)
      → AllFit (file_inode alloc io type true c start frag offset size)
  unfolding file_inode
  file_inode-AllFit type c start frag offset size inode h whole =
      elim (Option-cases (read_block_sizes alloc io c size frag)) [
        | inl bad ↦ absurd (cc (rw (bad, file_inode) at h))
        | inr (sizes, good) ↦
            subst (FitsBlocks io.sb.block_size) (some_inj (rw (good, file_inode) at h))
              (sizes_fit c frag size sizes good) whole
      ]

  if-AllFit : (b : Bool) (x y : Option Inode) → AllFit x → AllFit y → AllFit (if b then x else y)
  if-AllFit true x y hx hy = hx
  if-AllFit false x y hx hy = hy

  none-AllFit : AllFit none
  none-AllFit inode h = absurd (cc)

  fields-AllFit :
      (o : Option (List ℕ × Cursor)) (made : List ℕ → Cursor → Option Inode)
      → ((ns : List ℕ) (c : Cursor) → AllFit (made ns c))
      → AllFit (elim o [ none ↦ none | some (ns, c) ↦ made ns c ])
  fields-AllFit none made all = none-AllFit
  fields-AllFit (some (ns, c)) made all = all ns c

  read_type_fields-AllFit : (type : ℕ) (c : Cursor) → AllFit (read_type_fields alloc io type true c)
  unfolding read_type_fields read_basic_dir_fields read_extended_dir_fields read_basic_file_fields
      read_extended_file_fields read_symlink_fields
  read_type_fields-AllFit type c =
      if-AllFit (type == 1) _ _
        (fields-AllFit (read_fields alloc io c _) _ (λ ns c'. no_file-AllFit _ refl))
        (if-AllFit (type == 8) _ _
          (fields-AllFit (read_fields alloc io c _) _ (λ ns c'. no_file-AllFit _ refl))
          (if-AllFit (type == 2) _ _
            (fields-AllFit (read_fields alloc io c _) _
              (λ ns c'. file_inode-AllFit type c' _ _ _ _))
            (if-AllFit (type == 9) _ _
              (fields-AllFit (read_fields alloc io c _) _
                (λ ns c'. file_inode-AllFit type c' _ _ _ _))
              (if-AllFit (type == 3 || type == 10) _ _
                (fields-AllFit (read_fields alloc io c _) _ (λ ns c'. no_file-AllFit _ refl))
                (no_file-AllFit _ refl)))))

  read_inode-AllFit :
      (block_offset in_block_offset : ℕ)
      → AllFit (read_inode alloc io block_offset in_block_offset true)
  unfolding read_inode
  read_inode-AllFit block_offset in_block_offset inode h =
      elim (Option-cases (
        cursor_init alloc io ((io.sb.inode_table_start + block_offset) % 2 ^ 64) in_block_offset)) [
          | inl bad ↦ absurd (cc (rw (bad, read_inode) at h))
          | inr (c, good) ↦
              fields-AllFit (read_fields alloc io c (2 ∷ 2 ∷ 2 ∷ 2 ∷ 4 ∷ 4 ∷ [])) _
                (λ ns c'. read_type_fields-AllFit (field ns 0) c') inode
                (rw (good, read_inode) at h)
        ]

validate_block_size-positive : (n : ℕ) → validate_block_size n ≡ true → 0 < n
unfolding validate_block_size
validate_block_size-positive n h = ground (arith, h)

-- In an image whose size of blocks is accepted, a file whose inode could be read is extracted whole,
-- with as many bytes as the inode says, or the extraction fails: then it changed nothing, or its last
-- call removed the file that it had begun.
pub read_inode-Extracted :
    (os : Outside) (io : Io) (block_offset in_block_offset : ℕ) (inode : Inode) (path : Bytes)
    (history : History)
    → validate_block_size io.sb.block_size ≡ true
    → read_inode os.alloc io block_offset in_block_offset true ≡ some inode
    → Extracted inode.file_size path history (extract_regular_file os io inode path history)
read_inode-Extracted os io block_offset in_block_offset inode path history valid read =
    extract_regular_file_whole os io inode path history (
      read_inode-AllFit os.alloc io (validate_block_size-positive io.sb.block_size valid)
        block_offset in_block_offset inode read)
