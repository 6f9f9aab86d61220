-- ===== src/Squashfs/Inodes.antt =====
-- src/extract/squashfs.c: the inodes.
use crimp.Common.{
  Bool, List, Option, [], if◌then◌else◌, ltb, none, some, suc, zero, ℕ, ◌%◌, ◌*◌, ◌+◌, ◌-◌, ◌/◌,
  ◌==◌, ◌^◌, ◌||◌, ◌∷◌,
}
use crimp.Squashfs.{Io, Cursor, cursor_init, cursor_read, read_fields, le, field}

-- `SQUASHFS_INVALID_FRAG`
abbrev pub invalid_frag : ℕ
invalid_frag = 0xffffffff

-- `squashfs_inode`, without its number; `block_sizes` has `block_count` elements.
pub record Inode : Type 0 where
  pub type : ℕ
  pub dir_block_index : ℕ
  pub dir_block_offset : ℕ
  pub dir_size : ℕ
  pub file_size : ℕ
  pub content_blocks_start : ℕ
  pub frag_index : ℕ
  pub frag_block_offset : ℕ
  pub block_sizes : List ℕ

abbrev pub max_blocks_per_file : ℕ
max_blocks_per_file = 1048576

abbrev pub max_extracted_file_size : ℕ
max_extracted_file_size = 4294967296

-- `nblocks64`; no sum here comes near 2^64 behind the test of the size of the file.
unfoldable pub blocks_of : ℕ → ℕ → ℕ → ℕ
blocks_of file_size block_size frag_index =
    if frag_index == invalid_frag
    then (file_size + block_size - 1) / block_size
    else file_size / block_size

-- A list of `n` sizes.
unfoldable pub read_sizes : (ℕ → Bool) → Io → Cursor → ℕ → Option (List ℕ)
read_sizes alloc io c zero = some []
read_sizes alloc io c (suc n) = elim (cursor_read alloc io c 4) [
  | none ↦ none
  | some (s, c') ↦ elim (read_sizes alloc io c' n) [
    | none ↦ none
    | some sizes ↦ some (le s ∷ sizes)
  ]
]

unfoldable pub read_block_sizes : (ℕ → Bool) → Io → Cursor → ℕ → ℕ → Option (List ℕ)
read_block_sizes alloc io c file_size frag_index =
    let nblocks = blocks_of file_size io.sb.block_size frag_index in
    if ltb max_extracted_file_size file_size
    then none
    else if ltb max_blocks_per_file nblocks
    then none
    else if nblocks == 0
    then some []
    else if alloc (4 * nblocks)
    then read_sizes alloc io c nblocks
    else none

-- The inode after `memset`, with its type.
abbrev pub blank : ℕ → Inode
blank type = record {
  type = type;
  dir_block_index = 0;
  dir_block_offset = 0;
  dir_size = 0;
  file_size = 0;
  content_blocks_start = 0;
  frag_index = 0;
  frag_block_offset = 0;
  block_sizes = [];
}

abbrev pub directory_inode : ℕ → ℕ → ℕ → ℕ → Inode
directory_inode type block_index block_offset size = record {
  type = type;
  dir_block_index = block_index;
  dir_block_offset = block_offset;
  dir_size = size;
  file_size = 0;
  content_blocks_start = 0;
  frag_index = 0;
  frag_block_offset = 0;
  block_sizes = [];
}

unfoldable pub read_basic_dir_fields : (ℕ → Bool) → Io → ℕ → Cursor → Option Inode
read_basic_dir_fields alloc io type c = elim (read_fields alloc io c (4 ∷ 4 ∷ 2 ∷ 2 ∷ 4 ∷ [])) [
  | none ↦ none
  | some (ns, c') ↦ some (directory_inode type (field ns 0) (field ns 3) (field ns 2))
]

unfoldable pub read_extended_dir_fields : (ℕ → Bool) → Io → ℕ → Cursor → Option Inode
read_extended_dir_fields alloc io type c =
    elim (read_fields alloc io c (4 ∷ 4 ∷ 4 ∷ 4 ∷ 2 ∷ 2 ∷ 4 ∷ [])) [
      | none ↦ none
      | some (ns, c') ↦ some (directory_inode type (field ns 2) (field ns 5) (field ns 1))
    ]

-- The fields of a file, with its sizes if its content is wanted.
unfoldable pub file_inode : (ℕ → Bool) → Io → ℕ → Bool → Cursor → ℕ → ℕ → ℕ → ℕ → Option Inode
file_inode alloc io type want_content c blocks_start frag_index block_offset file_size =
    elim (if want_content then read_block_sizes alloc io c file_size frag_index else some []) [
      | none ↦ none
      | some sizes ↦ some (record {
        type = type;
        dir_block_index = 0;
        dir_block_offset = 0;
        dir_size = 0;
        file_size = file_size;
        content_blocks_start = blocks_start;
        frag_index = frag_index;
        frag_block_offset = block_offset;
        block_sizes = sizes;
      })
    ]

unfoldable pub read_basic_file_fields : (ℕ → Bool) → Io → ℕ → Bool → Cursor → Option Inode
read_basic_file_fields alloc io type want_content c =
    elim (read_fields alloc io c (4 ∷ 4 ∷ 4 ∷ 4 ∷ [])) [
      | none ↦ none
      | some (ns, c') ↦
          file_inode alloc io type want_content c' (field ns 0) (field ns 1) (field ns 2)
            (field ns 3)
    ]

unfoldable pub read_extended_file_fields : (ℕ → Bool) → Io → ℕ → Bool → Cursor → Option Inode
read_extended_file_fields alloc io type want_content c =
    elim (read_fields alloc io c (8 ∷ 8 ∷ 8 ∷ 4 ∷ 4 ∷ 4 ∷ 4 ∷ [])) [
      | none ↦ none
      | some (ns, c') ↦
          file_inode alloc io type want_content c' (field ns 0) (field ns 4) (field ns 5)
            (field ns 1)
    ]

unfoldable pub read_symlink_fields : (ℕ → Bool) → Io → ℕ → Cursor → Option Inode
read_symlink_fields alloc io type c = elim (read_fields alloc io c (4 ∷ 4 ∷ [])) [
  | none ↦ none
  | some (ns, c') ↦ some (record (blank type) { file_size = field ns 1 })
]

-- The `switch` on the type.
unfoldable pub read_type_fields : (ℕ → Bool) → Io → ℕ → Bool → Cursor → Option Inode
read_type_fields alloc io type want_content c =
    if type == 1
    then read_basic_dir_fields alloc io type c
    else if type == 8
    then read_extended_dir_fields alloc io type c
    else if type == 2
    then read_basic_file_fields alloc io type want_content c
    else if type == 9
    then read_extended_file_fields alloc io type want_content c
    else if type == 3 || type == 10
    then read_symlink_fields alloc io type c
    else some (blank type)

unfoldable pub read_inode : (ℕ → Bool) → Io → ℕ → ℕ → Bool → Option Inode
read_inode alloc io block_offset in_block_offset want_content =
    elim (cursor_init alloc io ((io.sb.inode_table_start + block_offset) % 2 ^ 64)
      in_block_offset) [
        | none ↦ none
        | some c ↦ elim (read_fields alloc io c (2 ∷ 2 ∷ 2 ∷ 2 ∷ 4 ∷ 4 ∷ [])) [
          | none ↦ none
          | some (ns, c') ↦ read_type_fields alloc io (field ns 0) want_content c'
        ]
      ]
