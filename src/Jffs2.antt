-- ===== src/Jffs2.antt =====
-- src/extract/jffs2.c: the nodes of the log, and the scan that collects them. `Memory` says whether a
-- block for a number of records, or for a name, can be had; a scan that fails gives everything back.
pub mod Log
pub mod Lookup
pub mod Files
pub mod Tree
pub mod Gap
pub mod Ends
pub mod Runs
pub mod Winner
pub mod Live
pub mod Fetch
pub mod Contents
pub mod Sizes
pub mod Names
pub mod Bounds
pub mod Confined
use crimp.Common.{
  Bool, Bytes, Option, [], drop, if◌then◌else◌, length, ltb, none, not, some, suc, take, zero, ℕ,
  ◌&&◌, ◌*◌, ◌+◌, ◌-◌, ◌/◌, ◌==◌, ◌||◌, ◌∷◌,
}
use crimp.ArrayList.{ArrayList, empty, is_full, new_capacity, grow, append_item}
use crimp.FsUtil.{byte, decode_u16, decode_u32}
use crimp.Image.{read_at}

abbrev pub magic : ℕ
magic = 0x1985

-- `JFFS2_NODETYPE_DIRENT` and `JFFS2_NODETYPE_INODE`
abbrev pub nodetype_dirent : ℕ
nodetype_dirent = 0xe001

abbrev pub nodetype_inode : ℕ
nodetype_inode = 0xe002

abbrev pub common_header_size : ℕ
common_header_size = 12

abbrev pub dirent_fixed_size : ℕ
dirent_fixed_size = 28

abbrev pub inode_fixed_size : ℕ
inode_fixed_size = 56

-- `jffs2_dirent_rec`; the name is as long as `name_len` says.
pub record Dirent : Type 0 where
  pub pino : ℕ
  pub version : ℕ
  pub ino : ℕ
  pub name : Bytes

-- `jffs2_inode_rec`
pub record InodeRec : Type 0 where
  pub ino : ℕ
  pub version : ℕ
  pub mode : ℕ
  pub isize : ℕ
  pub frag_offset : ℕ
  pub csize : ℕ
  pub dsize : ℕ
  pub compr : ℕ
  pub file_offset : ℕ

abbrev pub DirentList : Type 0
DirentList = ArrayList Dirent

abbrev pub InodeRecList : Type 0
InodeRecList = ArrayList InodeRec

pub record Memory : Type 0 where
  pub dirents : ℕ → Bool
  pub inodes : ℕ → Bool
  pub name : Bytes → Bool

-- `none` is -1.
unfoldable pub dirent_list_add : Memory → DirentList → Dirent → Option DirentList
dirent_list_add mem list d =
    if is_full list && not (mem.dirents (new_capacity 64 list))
    then none
    else if not (mem.name d.name)
    then none
    else some (append_item d (grow 64 list))

unfoldable pub inode_rec_list_add : Memory → InodeRecList → InodeRec → Option InodeRecList
inode_rec_list_add mem list rec =
    if is_full list && not (mem.inodes (new_capacity 64 list))
    then none
    else some (append_item rec (grow 64 list))

-- The inner loop of `find_next_node` on the bytes that were read, from the index `i` on.
unfoldable pub scan_chunk : Bool → Bytes → ℕ → Option ℕ
scan_chunk be [] i = none
scan_chunk be (a ∷ []) i = none
scan_chunk be (a ∷ b ∷ []) i = if decode_u16 (a ∷ b ∷ []) be == magic then some i else none
scan_chunk be (a ∷ b ∷ c ∷ []) i = if decode_u16 (a ∷ b ∷ c ∷ []) be == magic then some i else none
scan_chunk be (a ∷ b ∷ c ∷ d ∷ buf) i =
    let later = scan_chunk be buf (i + 4) in
    if decode_u16 (a ∷ b ∷ c ∷ d ∷ buf) be == magic then some i else later

-- `GAP_SCAN_CHUNK`
abbrev pub gap_scan_chunk : ℕ
gap_scan_chunk = 65536

-- The loop of `find_next_node`; `none` means that the fuel ran out, and `some none` is -1. `fread`
-- gives all that was asked for, since no more is asked for than the image holds.
unfoldable pub gap_loop : ℕ → ℕ → Bytes → Bool → ℕ → Option (Option ℕ)
gap_loop chunk zero f be pos = none
gap_loop chunk (suc fuel) f be pos =
    let remaining = length f - pos in
    let want = if ltb remaining chunk then remaining else chunk in
    let buf = take want (drop pos f) in
    let later = gap_loop chunk fuel f be (pos + want / 4 * 4) in
    if ltb (length f) (pos + 2) then some none else elim (scan_chunk be buf pos) [
      | some p ↦ some (some p)
      | none ↦ if ltb want 4 then some none else later
    ]

unfoldable pub find_next_node : Bytes → Bool → ℕ → Option (Option ℕ)
find_next_node f be start = gap_loop gap_scan_chunk (suc (length f)) f be start

-- What a scan has collected.
pub record Scan : Type 0 where
  pub dirents : DirentList
  pub inodes : InodeRecList

abbrev pub with_dirents : Scan → Option DirentList → Option Scan
with_dirents s none = none
with_dirents s (some dirents) = some (record s { dirents = dirents })

abbrev pub with_inodes : Scan → Option InodeRecList → Option Scan
with_inodes s none = none
with_inodes s (some inodes) = some (record s { inodes = inodes })

-- The fields of a dirent node in front of its name.
unfoldable pub dirent_of : Bytes → Bool → Bytes → Dirent
dirent_of fixed be name = record {
  pino = decode_u32 fixed be;
  version = decode_u32 (drop 4 fixed) be;
  ino = decode_u32 (drop 8 fixed) be;
  name = name;
}

-- The length of the name, if it fits the node.
unfoldable pub name_size : Bytes → ℕ → Option ℕ
name_size fixed totlen =
    let nsize = byte fixed 16 in
    if nsize == 0 || ltb (totlen - common_header_size - dirent_fixed_size) nsize || ltb 255 nsize
    then none
    else some nsize

-- `parse_dirent_node` for the node at `pos`, whose common header was read.
unfoldable pub parse_dirent_node : Memory → Bytes → Bool → ℕ → ℕ → DirentList → Option DirentList
parse_dirent_node mem f be pos totlen dirents =
    if ltb totlen (common_header_size + dirent_fixed_size)
    then none
    else elim (read_at f (pos + common_header_size) dirent_fixed_size) [
      | none ↦ none
      | some fixed ↦ elim (name_size fixed totlen) [
        | none ↦ none
        | some nsize ↦ elim (read_at f (pos + common_header_size + dirent_fixed_size) nsize) [
          | none ↦ none
          | some name ↦ dirent_list_add mem dirents (dirent_of fixed be name)
        ]
      ]
    ]

unfoldable pub inode_of : Bytes → Bool → ℕ → InodeRec
inode_of fixed be pos = record {
  ino = decode_u32 fixed be;
  version = decode_u32 (drop 4 fixed) be;
  mode = decode_u32 (drop 8 fixed) be;
  isize = decode_u32 (drop 16 fixed) be;
  frag_offset = decode_u32 (drop 32 fixed) be;
  csize = decode_u32 (drop 36 fixed) be;
  dsize = decode_u32 (drop 40 fixed) be;
  compr = byte fixed 44;
  file_offset = pos + common_header_size + inode_fixed_size;
}

unfoldable pub parse_inode_node : Memory → Bytes → Bool → ℕ → ℕ → InodeRecList → Option InodeRecList
parse_inode_node mem f be pos totlen inodes =
    if ltb totlen (common_header_size + inode_fixed_size)
    then none
    else elim (read_at f (pos + common_header_size) inode_fixed_size) [
      | none ↦ none
      | some fixed ↦
          let rec = inode_of fixed be pos in
          if ltb (totlen - common_header_size - inode_fixed_size) rec.csize
          then none
          else inode_rec_list_add mem inodes rec
    ]
