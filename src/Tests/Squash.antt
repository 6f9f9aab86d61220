-- ===== src/Tests/Squash.antt =====
-- A SquashFS image, and an extraction of it.
use crimp.Common.{
  All, Bool, Bool-cases, Bytes, List, Option, [], arith, codes, drop, every, false, inl, inr,
  is_nil, length, ltb, none, not, refl, some, str_eq, suc, take, true, zero, ℕ, ◌%◌, ◌++◌, ◌+◌, ◌/◌,
  ◌<◌, ◌∷◌, ◌≡◌, ◌≤◌,
}
use crimp.ArrayList.{append_item, grow}
use crimp.Disk.{write, make_directory, History, create, mkdir, Outside, made}
use crimp.Disk.Paths.{Confined}
use crimp.Disk.Writes.{Extracted}
use crimp.Entries.{State, child_path, output_entry, add_entry}
use crimp.FsUtil.{
  path_component_is_safe, is_windows_reserved_name, base_length, any_reserved, matches_reserved,
  fs_entry_list_add, join_output_path,
}
use crimp.FsUtil.Safe.{path_parts, resolve}
use crimp.Identify.Beside.{extracted-EndsInName}
use crimp.Identify.{tmp_of, Libraries, Step, extract_dispatch, fs_extract, identify, squashfs}
use crimp.Identify.Dispatch.{extract_dispatch_ends}
use crimp.Identify.Replace.{Replaces, fs_extract-Replaces}
use crimp.Squashfs.{
  identify as identify_squashfs, XzDecode, Io, Cursor, Superblock, decode_superblock,
  read_superblock, block_content, cursor_load_next_block, cursor_init, cursor_loop, cursor_read,
  read_fields,
}
use crimp.Cramfs.{FsInfo, identify as identify_cramfs}
use crimp.Jffs2.Tree.{identify as identify_jffs2}
use crimp.Identify.Formats.{identify_unique}
use crimp.Image.{Uncompress, read_at}
use crimp.Squashfs.Blocks.{read_inode-Extracted}
use crimp.Squashfs.Confined.{extract_stays_inside}
use crimp.Squashfs.Streams.{Blocks, Reads, joined, cursor_read-Reads}
use crimp.Squashfs.Files.{
  is_power, validate_block_size, data_block, read_and_inflate_block, write_bytes, write_data_block,
  write_blocks, write_tail, write_content, extract_regular_file,
}
use crimp.Squashfs.Inodes.{
  Inode, read_inode, read_type_fields, read_basic_dir_fields, read_basic_file_fields, file_inode,
  read_block_sizes, read_sizes, blocks_of,
}
use crimp.Squashfs.Tree.{
  read_name, read_entry, read_group, write_entry, enter_entry, process_path, process_entry,
  walk_entries, walk_groups, walk_from, walk_directory, walk_root, extract_checked, extract,
}

-- A number as so many bytes.
abbrev bytes_of : ℕ → ℕ → Bytes
bytes_of zero n = []
bytes_of (suc size) n = n % 256 ∷ bytes_of size (n / 256)

abbrev superblock : Bytes
superblock =
    codes "hsqs"
    ++ bytes_of 4 2
    ++ bytes_of 4 0
    ++ bytes_of 4 4096
    ++ bytes_of 4 0
    ++ bytes_of 2 1
    ++ bytes_of 2 12
    ++ bytes_of 2 0
    ++ bytes_of 2 1
    ++ bytes_of 2 4
    ++ bytes_of 2 0
    ++ bytes_of 8 0
    ++ bytes_of 8 191
    ++ bytes_of 8 0
    ++ bytes_of 8 0
    ++ bytes_of 8 96
    ++ bytes_of 8 166
    ++ bytes_of 8 0
    ++ bytes_of 8 0

-- The root, and a file of two bytes in one block that is not compressed.
abbrev inode_table : Bytes
inode_table =
    bytes_of 2 (32768 + 68)
    ++ bytes_of 2 1
    ++ bytes_of 2 0
    ++ bytes_of 2 0
    ++ bytes_of 2 0
    ++ bytes_of 4 0
    ++ bytes_of 4 1
    ++ bytes_of 4 0
    ++ bytes_of 4 2
    ++ bytes_of 2 24
    ++ bytes_of 2 0
    ++ bytes_of 4 0
    ++ bytes_of 2 2
    ++ bytes_of 2 0
    ++ bytes_of 2 0
    ++ bytes_of 2 0
    ++ bytes_of 4 0
    ++ bytes_of 4 2
    ++ bytes_of 4 189
    ++ bytes_of 4 4294967295
    ++ bytes_of 4 0
    ++ bytes_of 4 2
    ++ bytes_of 4 (2 + 16777216)

abbrev directory_table : Bytes
directory_table =
    bytes_of 2 (32768 + 21)
    ++ bytes_of 4 0
    ++ bytes_of 4 0
    ++ bytes_of 4 1
    ++ bytes_of 2 32
    ++ bytes_of 2 0
    ++ bytes_of 2 2
    ++ bytes_of 2 0
    ++ codes "a"

abbrev image : Bytes
image = superblock ++ inode_table ++ directory_table ++ codes "hi"

abbrev os : Outside
os = record {
  mkdir_result = λ h p. made;
  is_existing_directory = λ h p. true;
  is_symlink = λ h p. false;
  opens = λ h p. true;
  writes = λ h p s. true;
  alloc = λ n. true;
  alloc_entries = λ n. true;
  copies = λ p. true;
}

abbrev stored : Uncompress
stored n s = some s

abbrev stored_whole : XzDecode
stored_whole n s = some (s, length s)

extract_stays_inside_example :
    (r : State × Bool) × (extract os stored stored_whole image (codes "out") ≡ some r)
    × Confined (codes "out") r.0.history
extract_stays_inside_example = extract_stays_inside os stored stored_whole image (codes "out")

abbrev sb : Superblock
sb = record {
  inodes = 2;
  block_size = 4096;
  fragments = 0;
  compression = 1;
  root_inode = 0;
  bytes_used = 191;
  inode_table_start = 96;
  directory_table_start = 166;
  fragment_table_start = 0;
}

superblock_test : read_superblock image ≡ some sb
unfolding read_superblock decode_superblock read_at str_eq
superblock_test = refl

abbrev io : Io
io = record { f = image; sb = sb; uncompress = stored; xz_decode = stored_whole }

abbrev cursor : Cursor
cursor = record { next_block_offset = 96; buf = [] }

cursor_read-Reads_example :
    ((r : Bytes × Cursor)
      → cursor_read os.alloc io cursor 2 ≡ some r
      → Reads os.alloc io cursor 2 r)
    × ((blocks : List Bytes) (end : ℕ)
        → Blocks os.alloc io 96 blocks end
        → 2 ≤ length (joined blocks)
        → (r : Bytes × Cursor) × (cursor_read os.alloc io cursor 2 ≡ some r))
cursor_read-Reads_example = cursor_read-Reads os.alloc io cursor 2

-- The inode table is one block of 68 bytes, which is not compressed.
Blocks-test : Blocks os.alloc io 96 (take 68 (drop 98 image) ∷ []) 166
unfolding read_at block_content
Blocks-test = (take 2 (drop 96 image), (refl, omega arith, omega arith, refl), refl)

abbrev file : Inode
file = record {
  type = 2;
  dir_block_index = 0;
  dir_block_offset = 0;
  dir_size = 0;
  file_size = 2;
  content_blocks_start = 189;
  frag_index = 4294967295;
  frag_block_offset = 0;
  block_sizes = (2 + 16777216) ∷ [];
}

file_test : read_inode os.alloc io 0 32 true ≡ some file
unfolding read_inode read_type_fields read_basic_file_fields file_inode read_block_sizes read_sizes
    blocks_of cursor_init cursor_load_next_block block_content cursor_read cursor_loop read_fields
    read_at
file_test = refl

valid_test : validate_block_size 4096 ≡ true
unfolding validate_block_size is_power
valid_test = refl

read_inode-Extracted_example :
    Extracted 2 (codes "out/a") [] (extract_regular_file os io file (codes "out/a") [])
read_inode-Extracted_example =
    read_inode-Extracted os io 0 32 file (codes "out/a") [] valid_test file_test

abbrev history_of : Option (State × Bool) → History
history_of none = []
history_of (some r) = r.0.history

extracted_test :
    history_of (extract os stored stored_whole image (codes "out"))
    ≡ write (codes "out/a") (codes "hi") ∷ create (codes "out/a") ∷ mkdir (codes "out") ∷ []
unfolding read_superblock decode_superblock read_at str_eq read_inode read_type_fields
    read_basic_dir_fields read_basic_file_fields file_inode read_block_sizes read_sizes blocks_of
    cursor_init cursor_load_next_block block_content cursor_read cursor_loop read_fields extract
    extract_checked walk_root walk_directory walk_from walk_groups walk_entries process_entry
    process_path enter_entry write_entry read_group read_entry read_name extract_regular_file
    write_content write_tail write_blocks write_data_block write_bytes data_block
    read_and_inflate_block validate_block_size is_power add_entry child_path output_entry
    make_directory append_item grow path_component_is_safe is_windows_reserved_name base_length
    any_reserved matches_reserved fs_entry_list_add join_output_path
extracted_test = refl

abbrev libraries : Libraries
libraries = record {
  uncompress = stored;
  xz_decode = stored_whole;
  memory = record { dirents = λ n. true; inodes = λ n. true; name = λ s. true };
  qsort = record { dirents = λ cmp ds. ds; inodes = λ cmp rs. rs };
}

extract_dispatch_ends_example :
    (r : History × Bool) × (extract_dispatch os libraries image (codes "out") ≡ some r)
    × Confined (codes "out") r.0
extract_dispatch_ends_example = extract_dispatch_ends os libraries image (codes "out")

-- `rename` moves a tree that an extraction has written to.
abbrev moves : List Step → Bool
moves steps = not (is_nil steps)

fs_extract-Replaces_example :
    (r : List Step × Bool) × (fs_extract os moves libraries image (codes "fw.bin.crimp-extracted")
      ≡ some r)
    × Replaces [] os moves libraries image (codes "fw.bin.crimp-extracted") r
fs_extract-Replaces_example =
    fs_extract-Replaces [] os moves libraries image (codes "fw.bin.crimp-extracted")
      (extracted-EndsInName (codes "fw.bin"))

-- The temporary directory of a path that ends in a slash lies below it.
slash_test : resolve [] (path_parts (tmp_of (codes "out/"))) ≡ codes ".tmp" ∷ codes "out" ∷ []
unfolding path_parts str_eq
slash_test = refl

identified_test :
    identify image
    ≡ some
        (squashfs, record { inode_count = 2; block_size = 4096; compression = 1; bytes_used = 191 })
unfolding identify identify_squashfs read_superblock decode_superblock read_at str_eq
identified_test = refl

every-All : (f : Bytes) → every (λ b. ltb b 256) f ≡ true → All (λ b. b < 256) f
every-All [] h = tt
every-All (b ∷ f) h = elim (Bool-cases (ltb b 256)) [
  | inl small ↦ (ground (arith, small), every-All f (rw (small, every) at h))
  | inr large ↦ absurd (cc (rw (large, every) at h))
]

identify_unique_example :
    ((info : FsInfo)
      → identify_squashfs image ≡ some info
      → (identify_cramfs image ≡ none) × (identify_jffs2 image ≡ none))
    × ((info : FsInfo) → identify_cramfs image ≡ some info → identify_jffs2 image ≡ none)
identify_unique_example = identify_unique image (every-All image refl)
