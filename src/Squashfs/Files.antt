-- ===== src/Squashfs/Files.antt =====
-- src/extract/squashfs.c: the content of a regular file.
use crimp.Common.{
  Bool, Bytes, List, Option, [], drop, false, if◌then◌else◌, leb, length, ltb, none, not, some, suc,
  take, true, zero, ℕ, ◌%◌, ◌&&◌, ◌*◌, ◌+◌, ◌-◌, ◌/◌, ◌==◌, ◌^◌, ◌||◌, ◌∷◌,
}
use crimp.Disk.{create, write, discard, History, Outside}
use crimp.Image.{read_at}
use crimp.Squashfs.{Io, cursor_init, read_fields, field, decompress_block, le}
use crimp.Squashfs.Inodes.{Inode, invalid_frag}

-- A power of two from 2^12 to 2^20.
unfoldable pub is_power : ℕ → ℕ → Bool
is_power zero n = n == 1
is_power (suc bits) n =
    let half = is_power bits (n / 2) in if n == 1 then true else n % 2 == 0 && half

abbrev pub min_squashfs_block_size : ℕ
min_squashfs_block_size = 4096

abbrev pub max_squashfs_block_size : ℕ
max_squashfs_block_size = 1048576

-- `block_size & (block_size - 1)` is 0 for the powers of two.
unfoldable pub validate_block_size : ℕ → Bool
validate_block_size n =
    not (ltb n min_squashfs_block_size || ltb max_squashfs_block_size n) && is_power 20 n

-- What `read_fragment_entry` gives.
pub record Fragment : Type 0 where
  pub start : ℕ
  pub size : ℕ
  pub compressed : Bool

-- The size of a block and its flag, bit 24.
abbrev pub size_of : ℕ → ℕ
size_of raw = raw % 2 ^ 24

abbrev pub is_compressed : ℕ → Bool
is_compressed raw = raw / 2 ^ 24 % 2 == 0

abbrev pub fragments_per_metadata_block : ℕ
fragments_per_metadata_block = 512

-- The entry in the metadata block at an offset.
unfoldable pub fragment_at : (ℕ → Bool) → Io → ℕ → ℕ → Option Fragment
fragment_at alloc io meta_block_offset entry_idx =
    elim (cursor_init alloc io meta_block_offset (entry_idx * 16)) [
      | none ↦ none
      | some c ↦ elim (read_fields alloc io c (8 ∷ 4 ∷ 4 ∷ [])) [
        | none ↦ none
        | some (ns, c') ↦ some (record {
          start = field ns 0;
          size = size_of (field ns 1);
          compressed = is_compressed (field ns 1);
        })
      ]
    ]

unfoldable pub read_fragment_entry : (ℕ → Bool) → Io → ℕ → Option Fragment
read_fragment_entry alloc io frag_index =
    if leb io.sb.fragments frag_index
    then none
    else elim (read_at io.f
        ((io.sb.fragment_table_start + frag_index / fragments_per_metadata_block * 8) % 2 ^ 64) 8) [
          | none ↦ none
          | some s ↦ fragment_at alloc io (le s) (frag_index % fragments_per_metadata_block)
        ]

-- The bytes in `dest`, whose size is `block_size`.
unfoldable pub read_and_inflate_block : (ℕ → Bool) → Io → ℕ → ℕ → Bool → Option Bytes
read_and_inflate_block alloc io offset size compressed =
    if ltb io.sb.block_size size || (compressed && not (alloc size))
    then none
    else elim (read_at io.f offset size) [
      | none ↦ none
      | some s ↦ if compressed then decompress_block io io.sb.block_size s else some s
    ]

abbrev pub zeros : ℕ → Bytes
zeros zero = []
zeros (suc n) = 0 ∷ zeros n

-- `block_buf` of `write_data_block`; a block of size 0 is a hole.
unfoldable pub data_block : (ℕ → Bool) → Io → ℕ → ℕ → ℕ → Option Bytes
data_block alloc io block_offset raw expected_len =
    if size_of raw == 0
    then some (zeros expected_len)
    else read_and_inflate_block alloc io block_offset (size_of raw) (is_compressed raw)

-- `fwrite` of a block to the file at a path.
unfoldable pub write_bytes : Outside → Bytes → Bytes → History → History × Bool
write_bytes os disk_path s history = (write disk_path s ∷ history, os.writes history disk_path s)

unfoldable pub write_data_block : Outside → Io → Bytes → ℕ → ℕ → ℕ → History → History × Bool
write_data_block os io disk_path block_offset raw expected_len history =
    elim (data_block os.alloc io block_offset raw expected_len) [
      | none ↦ (history, false)
      | some s ↦
          if length s == expected_len then write_bytes os disk_path s history else (history, false)
    ]

abbrev pub expected_length : ℕ → ℕ → ℕ → ℕ
expected_length block_size file_size bytes_before =
    if ltb file_size (bytes_before + block_size) then file_size - bytes_before else block_size

-- The loop over the blocks; what it leaves are the history, `bytes_before` and `ok`.
unfoldable pub write_blocks :
    Outside → Io → Bytes → ℕ → List ℕ → ℕ → ℕ → History → History × ℕ × Bool
write_blocks os io disk_path file_size [] block_offset bytes_before history =
    (history, bytes_before, true)
write_blocks os io disk_path file_size (raw ∷ raws) block_offset bytes_before history =
    let expected_len = expected_length io.sb.block_size file_size bytes_before in
    let (history', ok) = write_data_block os io disk_path block_offset raw expected_len history in
    elim ok [
      | false ↦ (history', bytes_before, false)
      | true ↦
          write_blocks os io disk_path file_size raws (block_offset + size_of raw)
            (bytes_before + expected_len) history'
    ]

-- The bytes of the whole fragment block of a file.
unfoldable pub fragment_block : (ℕ → Bool) → Io → ℕ → Option Bytes
fragment_block alloc io frag_index = elim (read_fragment_entry alloc io frag_index) [
  | none ↦ none
  | some frag ↦ read_and_inflate_block alloc io frag.start frag.size frag.compressed
]

-- The tail of a file, from its fragment.
unfoldable pub write_tail : Outside → Io → Bytes → Inode → ℕ → History → History × Bool
write_tail os io disk_path inode bytes_before history =
    let tail_len = inode.file_size - bytes_before in
    if inode.frag_index == invalid_frag
    then (history, true)
    else elim (fragment_block os.alloc io inode.frag_index) [
      | none ↦ (history, false)
      | some s ↦
          if ltb (length s) (inode.frag_block_offset + tail_len)
          then (history, false)
          else write_bytes os disk_path (take tail_len (drop inode.frag_block_offset s)) history
    ]

abbrev pub after_blocks : Outside → Io → Bytes → Inode → History × ℕ × Bool → History × Bool
after_blocks os io disk_path inode (history, bytes_before, false) = (history, false)
after_blocks os io disk_path inode (history, bytes_before, true) =
    write_tail os io disk_path inode bytes_before history

-- `remove` after a failure.
abbrev pub keep_or_remove : Bytes → History × Bool → History × Bool
keep_or_remove disk_path (history, true) = (history, true)
keep_or_remove disk_path (history, false) = (discard disk_path ∷ history, false)

-- The file once it is open.
unfoldable pub write_content : Outside → Io → Inode → Bytes → History → History × Bool
write_content os io inode disk_path history =
    if os.alloc io.sb.block_size
    then after_blocks os io disk_path inode (
        write_blocks os io disk_path inode.file_size inode.block_sizes inode.content_blocks_start 0
          history)
    else (history, false)

unfoldable pub extract_regular_file : Outside → Io → Inode → Bytes → History → History × Bool
extract_regular_file os io inode disk_path history =
    if os.is_symlink history disk_path || not (os.opens history disk_path)
    then (history, false)
    else keep_or_remove disk_path (write_content os io inode disk_path (create disk_path ∷ history))
