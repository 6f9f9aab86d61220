-- ===== src/Cramfs.antt =====
-- src/extract/cramfs.c: the format, and the extraction of one file.
pub mod Layout
pub mod Tree
pub mod Files
pub mod Confined
pub mod Sizes
use crimp.Common.{
  Bool, Bytes, Option, [], drop, false, if◌then◌else◌, ltb, none, not, some, suc, true, zero, ℕ,
  ◌%◌, ◌*◌, ◌+◌, ◌-◌, ◌/◌, ◌==◌, ◌^◌, ◌||◌, ◌∷◌,
}
use crimp.Disk.{Operation, create, write, discard, History, Outside}
use crimp.FsUtil.{decode_u32}
use crimp.Image.{read_at, Uncompress, grow_buffer, of_length}

abbrev pub cramfs_magic : ℕ
cramfs_magic = 684539205

-- `CRAMFS_SUPER_SIZE`, `CRAMFS_ROOT_INODE_OFFSET` and `CRAMFS_BLOCK_SIZE`
abbrev pub super_size : ℕ
super_size = 76

abbrev pub root_inode_offset : ℕ
root_inode_offset = 64

abbrev pub block_size : ℕ
block_size = 4096

-- `cramfs_inode`
pub record Inode : Type 0 where
  pub mode : ℕ
  pub uid : ℕ
  pub size : ℕ
  pub gid : ℕ
  pub namelen : ℕ
  pub offset : ℕ

unfoldable pub decode_inode : Bytes → Bool → Inode
decode_inode raw12 big_endian =
    let w0 = decode_u32 raw12 big_endian in
    let w1 = decode_u32 (drop 4 raw12) big_endian in
    let w2 = decode_u32 (drop 8 raw12) big_endian in
    record {
      mode = w0 % 2 ^ 16;
      uid = w0 / 2 ^ 16 % 2 ^ 16;
      size = w1 % 2 ^ 24;
      gid = w1 / 2 ^ 24 % 2 ^ 8;
      namelen = w2 % 2 ^ 6 * 4;
      offset = w2 / 2 ^ 6 % 2 ^ 26 * 4;
    }

-- `cramfs_super`
pub record Super : Type 0 where
  pub size : ℕ
  pub big_endian : Bool
  pub root : Inode

-- The byte order in which the magic stands.
unfoldable pub detect_endian : Bytes → Option Bool
detect_endian raw =
    if decode_u32 raw false == cramfs_magic
    then some false
    else if decode_u32 raw true == cramfs_magic
    then some true
    else none

unfoldable pub decode_super : Bytes → Bool → Option Super
decode_super raw big_endian =
    let size = decode_u32 (drop 4 raw) big_endian in
    if ltb size super_size
    then none
    else some (record {
      size = size;
      big_endian = big_endian;
      root = decode_inode (drop root_inode_offset raw) big_endian;
    })

unfoldable pub read_superblock : Bytes → Option Super
read_superblock f = elim (read_at f 0 super_size) [
  | none ↦ none
  | some raw ↦ elim (detect_endian raw) [
    | none ↦ none
    | some big_endian ↦ decode_super raw big_endian
  ]
]

-- `*next_out`; `none` is 0.
unfoldable pub read_block_pointer : Bytes → Super → ℕ → ℕ → Option ℕ
read_block_pointer f sb ptr_pos prev_end = elim (read_at f ptr_pos 4) [
  | none ↦ none
  | some ptr_raw ↦
      let next = decode_u32 ptr_raw sb.big_endian in
      if ltb next prev_end || ltb sb.size next then none else some next
]

abbrev pub zeros : ℕ → Bytes
zeros zero = []
zeros (suc n) = 0 ∷ zeros n

-- The bytes of a compressed block.
unfoldable pub inflate : Uncompress → Bytes → ℕ → ℕ → ℕ → Option Bytes
inflate uncompress f expected_len prev_end comp_len = elim (read_at f prev_end comp_len) [
  | none ↦ none
  | some comp ↦ of_length expected_len (uncompress block_size comp)
]

-- The `expected_len` bytes of the block, with the size of `comp_buf`.
unfoldable pub fetch_block : Uncompress → (ℕ → Bool) → Bytes → ℕ → ℕ → ℕ → ℕ → Option (Bytes × ℕ)
fetch_block uncompress alloc f expected_len prev_end next comp_cap =
    let comp_len = next - prev_end in
    if comp_len == 0
    then some (zeros expected_len, comp_cap)
    else elim (grow_buffer alloc comp_len comp_cap) [
      | none ↦ none
      | some comp_cap' ↦ elim (inflate uncompress f expected_len prev_end comp_len) [
        | none ↦ none
        | some block ↦ some (block, comp_cap')
      ]
    ]

-- `expected_len` of the block behind `bytes_written` bytes.
abbrev pub expected_length : ℕ → ℕ → ℕ
expected_length size bytes_written =
    if ltb size (bytes_written + block_size) then size - bytes_written else block_size

-- The block loop of `extract_regular_file` with `nblocks - i` rounds to go.
unfoldable pub extract_blocks :
    Outside → Uncompress → Bytes → Super → ℕ → Bytes → ℕ → ℕ → ℕ → ℕ → ℕ → History → History × Bool
extract_blocks os uncompress f sb size disk_path zero ptr_pos prev_end bytes_written cap history =
    (history, true)
extract_blocks os uncompress f sb size disk_path (suc n) ptr_pos prev_end bytes_written cap
      history =
    let expected = expected_length size bytes_written in
    elim (read_block_pointer f sb ptr_pos prev_end) [
      | none ↦ (history, false)
      | some next ↦ elim (fetch_block uncompress os.alloc f expected prev_end next cap) [
        | none ↦ (history, false)
        | some (block, cap') ↦ elim (os.writes history disk_path block) [
          | false ↦ (write disk_path block ∷ history, false)
          | true ↦
              extract_blocks os uncompress f sb size disk_path n (ptr_pos + 4) next
                (bytes_written + expected) cap' (write disk_path block ∷ history)
        ]
      ]
    ]

abbrev pub block_count : ℕ → ℕ
block_count size = (size + block_size - 1) / block_size

-- A file that was not finished is removed.
abbrev pub keep_or_discard : Bytes → History × Bool → History × Bool
keep_or_discard disk_path (history, true) = (history, true)
keep_or_discard disk_path (history, false) = (discard disk_path ∷ history, false)

unfoldable pub extract_regular_file :
    Outside → Uncompress → Bytes → Super → Inode → Bytes → History → History × Bool
extract_regular_file os uncompress f sb inode disk_path history =
    let nblocks = block_count inode.size in
    if os.is_symlink history disk_path || not (os.opens history disk_path)
    then (history, false)
    else keep_or_discard disk_path (
        if os.alloc block_size
        then extract_blocks os uncompress f sb inode.size disk_path nblocks inode.offset
            (inode.offset + 4 * nblocks) 0 0 (create disk_path ∷ history)
        else (create disk_path ∷ history, false))

-- `crimp_fs_info`, less its type; `none` of `identify` is -1.
pub record FsInfo : Type 0 where
  pub inode_count : ℕ
  pub block_size : ℕ
  pub compression : ℕ
  pub bytes_used : ℕ

-- `crimp_cramfs_identify` on a file that can be opened.
unfoldable pub identify : Bytes → Option FsInfo
identify f = elim (read_superblock f) [
  | none ↦ none
  | some sb ↦
      some
        (record { inode_count = 0; block_size = block_size; compression = 0; bytes_used = sb.size })
]
