-- ===== src/Tests/Images.antt =====
-- A cramfs image, and an extraction of it.
use crimp.Common.{
  Bool, Bytes, Option, [], arith, codes, false, none, refl, some, str_eq, suc, true, zero, ℕ, ◌*◌,
  ◌++◌, ◌∷◌, ◌≡◌,
}
use crimp.ArrayList.{append_item, grow}
use crimp.FsUtil.{
  decode_u32, path_component_is_safe, is_windows_reserved_name, base_length, any_reserved,
  matches_reserved, fs_entry_list_add, join_output_path,
}
use crimp.Cramfs.{
  read_block_pointer, fetch_block, Inode, Super, read_superblock, detect_endian, decode_super,
  decode_inode, extract_regular_file, extract_blocks,
}
use crimp.Cramfs.Tree.{
  walk_root, walk_directory, walk_entries, read_entry, read_name, trim_name, enter_entry,
  process_entry, write_entry, extract,
}
use crimp.Disk.Writes.{Extracted}
use crimp.Entries.{State, child_path, output_entry, add_entry}
use crimp.Image.{Uncompress, read_at}
use crimp.Disk.Paths.{Confined}
use crimp.Cramfs.Layout.{IsInode, encode_inode, decode_inode-encode_inode}
use crimp.Cramfs.Sizes.{extract_regular_file-Extracted}
use crimp.Cramfs.Confined.{extract-Confined}
use crimp.Disk.{write, make_directory, History, create, mkdir, Outside, made}
use crimp.FsUtil.Decode.{encode_u32}

abbrev zeros : ℕ → Bytes
zeros zero = []
zeros (suc n) = 0 ∷ zeros n

-- A directory of mode 0x4000 at word 19, with one entry of 16 bytes: the file `a`, of no bytes.
abbrev image : Bytes
image =
    encode_u32 684539205 false
    ++ encode_u32 92 false
    ++ zeros 56
    ++ encode_u32 16384 false
    ++ encode_u32 16 false
    ++ encode_u32 (19 * 64) false
    ++ encode_u32 32768 false
    ++ encode_u32 0 false
    ++ encode_u32 1 false
    ++ b'a' ∷ 0 ∷ 0 ∷ 0 ∷ []

abbrev os : Outside
os = record {
  mkdir_result = λ h p. made;
  is_existing_directory = λ h p. true;
  is_symlink = λ h p. false;
  opens = λ h p. true;
  writes = λ h p s. true;
  alloc = λ n. true;
  alloc_entries = λ n. true;
  copies = λ p. true;
}

abbrev stored : Uncompress
stored n s = some s

extract-Confined_example :
    (r : State × Bool) × (extract os stored image (codes "out") ≡ some r)
    × Confined (codes "out") r.0.history
extract-Confined_example = extract-Confined os stored image (codes "out")

abbrev history_of : Option (State × Bool) → History
history_of none = []
history_of (some r) = r.0.history

extracted_test :
    history_of (extract os stored image (codes "out"))
    ≡ create (codes "out/a") ∷ mkdir (codes "out") ∷ []
unfolding extract make_directory str_eq append_item grow read_superblock read_at detect_endian
    decode_super decode_inode extract_regular_file extract_blocks walk_root walk_directory
    walk_entries read_entry read_name trim_name add_entry child_path enter_entry output_entry
    process_entry write_entry decode_u32 path_component_is_safe is_windows_reserved_name base_length
    any_reserved matches_reserved fs_entry_list_add join_output_path
extracted_test = refl

-- A file of three bytes that is one hole, with its block pointer at the start of the image.
abbrev hole : Inode
hole = record { mode = 32768; uid = 0; size = 3; gid = 0; namelen = 4; offset = 0 }

abbrev hole_super : Super
hole_super = record { size = 92; big_endian = false; root = hole }

hole-IsInode : IsInode hole
hole-IsInode = omega arith

decode_inode-encode_inode_example : decode_inode (encode_inode hole true ++ []) true ≡ hole
decode_inode-encode_inode_example = decode_inode-encode_inode hole true [] hole-IsInode

extract_regular_file-Extracted_example :
    Extracted 3
      (codes "out/h")
      []
      (extract_regular_file os stored (4 ∷ 0 ∷ 0 ∷ 0 ∷ []) hole_super hole (codes "out/h") [])
extract_regular_file-Extracted_example =
    extract_regular_file-Extracted os stored (4 ∷ 0 ∷ 0 ∷ 0 ∷ []) hole_super hole (codes "out/h") []

hole_test :
    extract_regular_file os stored (4 ∷ 0 ∷ 0 ∷ 0 ∷ []) hole_super hole (codes "out/h") []
    ≡ (write (codes "out/h") (0 ∷ 0 ∷ 0 ∷ []) ∷ create (codes "out/h") ∷ [], true)
unfolding extract_regular_file extract_blocks read_block_pointer read_at decode_u32 fetch_block
hole_test = refl
