-- ===== src/Squashfs.antt =====
-- src/extract/squashfs.c: the superblock and the metadata blocks. The structures are read as they lie
-- in the image, on a machine whose numbers begin with their lowest byte. `XzDecode` is liblzma's
-- `lzma_stream_buffer_decode` with its memory limit: from the size of the output and the input it
-- gives the bytes that it wrote and how many it read, or fails.
pub mod Inodes
pub mod Files
pub mod Tree
pub mod Writes
pub mod Cursors
pub mod Streams
pub mod Sizes
pub mod Blocks
pub mod Confined
use crimp.Common.{
  Bool, Bytes, List, Option, [], codes, drop, if◌then◌else◌, is_nil, length, ltb, none, not, some,
  str_eq, suc, take, zero, ℕ, ◌%◌, ◌&&◌, ◌*◌, ◌++◌, ◌+◌, ◌-◌, ◌==◌, ◌||◌, ◌∷◌,
}
use crimp.Cramfs.{FsInfo}
use crimp.Image.{read_at, Uncompress}

abbrev pub XzDecode : Type 0
XzDecode = ℕ → Bytes → Option (Bytes × ℕ)

-- The number whose bytes are given, the lowest first.
abbrev pub le : Bytes → ℕ
le [] = 0
le (b ∷ bs) = b + 256 * le bs

-- `n` bytes at an offset of a structure.
abbrev pub field_at : Bytes → ℕ → ℕ → ℕ
field_at s offset n = le (take n (drop offset s))

-- `squashfs_superblock`, without the fields that are not read.
pub record Superblock : Type 0 where
  pub inodes : ℕ
  pub block_size : ℕ
  pub fragments : ℕ
  pub compression : ℕ
  pub root_inode : ℕ
  pub bytes_used : ℕ
  pub inode_table_start : ℕ
  pub directory_table_start : ℕ
  pub fragment_table_start : ℕ

abbrev pub superblock_size : ℕ
superblock_size = 96

unfoldable pub decode_superblock : Bytes → Superblock
decode_superblock s = record {
  inodes = field_at s 4 4;
  block_size = field_at s 12 4;
  fragments = field_at s 16 4;
  compression = field_at s 20 2;
  root_inode = field_at s 32 8;
  bytes_used = field_at s 40 8;
  inode_table_start = field_at s 64 8;
  directory_table_start = field_at s 72 8;
  fragment_table_start = field_at s 80 8;
}

unfoldable pub read_superblock : Bytes → Option Superblock
read_superblock f = elim (read_at f 0 superblock_size) [
  | none ↦ none
  | some s ↦ if str_eq (take 4 s) (codes "hsqs") then some (decode_superblock s) else none
]

-- `crimp_squashfs_identify` of an image that can be opened.
unfoldable pub identify : Bytes → Option FsInfo
identify f = elim (read_superblock f) [
  | none ↦ none
  | some sb ↦ some (record {
    inode_count = sb.inodes;
    block_size = sb.block_size;
    compression = sb.compression;
    bytes_used = sb.bytes_used;
  })
]

unfoldable pub compression_name : ℕ → Bytes
compression_name id =
    if id == 1
    then codes "gzip"
    else if id == 2
    then codes "lzma"
    else if id == 3
    then codes "lzo"
    else if id == 4
    then codes "xz"
    else if id == 5
    then codes "lz4"
    else if id == 6
    then codes "zstd"
    else codes "unknown"

-- What a run keeps of the image: the file, its superblock and the two decoders.
pub record Io : Type 0 where
  pub f : Bytes
  pub sb : Superblock
  pub uncompress : Uncompress
  pub xz_decode : XzDecode

-- Not `in_pos != src_len`.
abbrev pub whole_input : ℕ → Option (Bytes × ℕ) → Option Bytes
whole_input src_len none = none
whole_input src_len (some (dest, in_pos)) = if in_pos == src_len then some dest else none

unfoldable pub decompress_block : Io → ℕ → Bytes → Option Bytes
decompress_block io dest_cap src =
    if io.sb.compression == 1
    then io.uncompress dest_cap src
    else if io.sb.compression == 4
    then whole_input (length src) (io.xz_decode dest_cap src)
    else none

abbrev pub metadata_block_size : ℕ
metadata_block_size = 8192

-- `metadata_cursor`; `buf` holds the bytes from `buf_pos` to `buf_len`.
pub record Cursor : Type 0 where
  pub next_block_offset : ℕ
  pub buf : Bytes

-- The bytes of a metadata block of a size, which stand behind its header.
unfoldable pub block_content : (ℕ → Bool) → Io → ℕ → ℕ → Bool → Option Bytes
block_content alloc io offset size compressed =
    if compressed && not (alloc size) then none else elim (read_at io.f offset size) [
      | none ↦ none
      | some s ↦ if compressed then decompress_block io metadata_block_size s else some s
    ]

unfoldable pub cursor_load_next_block : (ℕ → Bool) → Io → Cursor → Option Cursor
cursor_load_next_block alloc io c = elim (read_at io.f c.next_block_offset 2) [
  | none ↦ none
  | some hdr ↦
      let size = le hdr % 32768 in
      let compressed = ltb (le hdr) 32768 in
      if ltb metadata_block_size size || size == 0
      then none
      else (elim (block_content alloc io (c.next_block_offset + 2) size compressed) [
        | none ↦ none
        | some s ↦ some (record { next_block_offset = c.next_block_offset + 2 + size; buf = s })
      ])
]

unfoldable pub cursor_init : (ℕ → Bool) → Io → ℕ → ℕ → Option Cursor
cursor_init alloc io start_block_offset start_in_block_offset =
    elim (cursor_load_next_block alloc io
      (record { next_block_offset = start_block_offset; buf = [] })) [
        | none ↦ none
        | some c ↦
            if ltb (length c.buf) start_in_block_offset
            then none
            else some (record c { buf = drop start_in_block_offset c.buf })
      ]

-- The cursor of a round, which has bytes if a block could be loaded that has some.
abbrev pub refill : (ℕ → Bool) → Io → Cursor → Option Cursor
refill alloc io c = if is_nil c.buf then cursor_load_next_block alloc io c else some c

abbrev pub with_front : Bytes → Option (Bytes × Cursor) → Option (Bytes × Cursor)
with_front s none = none
with_front s (some (rest, c)) = some (s ++ rest, c)

-- A round of `cursor_read`, and then the rest of them.
abbrev pub cursor_round :
    (Cursor → ℕ → Option (Bytes × Cursor)) → ℕ → Cursor → Option (Bytes × Cursor)
cursor_round later n c =
    with_front (take n c.buf) (later (record c { buf = drop n c.buf }) (n - length (take n c.buf)))

unfoldable pub cursor_loop : ℕ → (ℕ → Bool) → Io → Cursor → ℕ → Option (Bytes × Cursor)
cursor_loop zero alloc io c n = none
cursor_loop (suc fuel) alloc io c n = if n == 0 then some ([], c) else elim (refill alloc io c) [
  | none ↦ none
  | some c' ↦ cursor_round (cursor_loop fuel alloc io) n c'
]

-- Every round takes a byte, or loads a block of the image.
unfoldable pub cursor_read : (ℕ → Bool) → Io → Cursor → ℕ → Option (Bytes × Cursor)
cursor_read alloc io c n = cursor_loop (suc (n + (length io.f - c.next_block_offset))) alloc io c n

-- A chain of reads of numbers, of the sizes given.
unfoldable pub read_fields : (ℕ → Bool) → Io → Cursor → List ℕ → Option (List ℕ × Cursor)
read_fields alloc io c [] = some ([], c)
read_fields alloc io c (n ∷ ns) = elim (cursor_read alloc io c n) [
  | none ↦ none
  | some (s, c') ↦ elim (read_fields alloc io c' ns) [
    | none ↦ none
    | some (fields, c'') ↦ some (le s ∷ fields, c'')
  ]
]

-- The field at a place of those that were read.
abbrev pub field : List ℕ → ℕ → ℕ
field [] i = 0
field (n ∷ ns) zero = n
field (n ∷ ns) (suc i) = field ns i
