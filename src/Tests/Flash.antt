-- ===== src/Tests/Flash.antt =====
-- A JFFS2 image, and an extraction of it.
use crimp.Common.{
  Bool, Bytes, In, List, Option, [], arith, at_head, codes, false, get_elem?, in_tail, keep, length,
  none, refl, some, str_eq, true, ℕ, ◌*◌, ◌++◌, ◌+◌, ◌<◌, ◌==◌, ◌∷◌, ◌≡◌,
}
use crimp.Disk.{History, write, create, mkdir, make_directory, Outside, made}
use crimp.ArrayList.{append_item, grow}
use crimp.Disk.Paths.{Confined}
use crimp.Disk.Writes.{Extracted}
use crimp.Entries.{State, add_entry, child_path, output_entry}
use crimp.FsUtil.Decode.{encode_u32}
use crimp.Image.{Uncompress, read_at}
use crimp.Jffs2.{
  Dirent, InodeRec, Memory, Scan, scan_chunk, find_next_node, parse_dirent_node, parse_inode_node,
  dirent_of, inode_of, name_size, dirent_list_add, inode_rec_list_add,
}
use crimp.Jffs2.Bounds.{inode_run-keep}
use crimp.Jffs2.Confined.{extract_ends_inside}
use crimp.Jffs2.Contents.{expected_byte, file_content-bytes}
use crimp.Jffs2.Ends.{scan_log-total}
use crimp.Jffs2.Files.{
  file_content, extract_regular_file, replay, overlay, fetch_fragment, fetch_fragment_none,
  write_file,
}
use crimp.Jffs2.Gap.{find_next_node-scan_chunk}
use crimp.Jffs2.Live.{Listing, live_children-Listing}
use crimp.Jffs2.Log.{scan_log, scan_loop, scan_round, node_round, parse_node}
use crimp.Jffs2.Lookup.{
  Qsort, dirent_cmp, dirent_name_cmp, memcmp, inode_run, inode_lower_bound, lower_bound_loop,
  live_children, live_loop, dirent_lower_bound, same_run, find_inode_meta,
}
use crimp.Jffs2.Runs.{IsSorted}
use crimp.Jffs2.Sizes.{extract_regular_file_ends}
use crimp.Jffs2.Tree.{
  extract, run, make_output, walk_root, scan_and_sort, detect_endianness, walk_directory,
  visit_children, visit_child, visit_found, visit_path, enter_child, write_entry,
}
use crimp.FsUtil.{
  decode_u16, decode_u32, path_component_is_safe, is_windows_reserved_name, base_length,
  any_reserved, matches_reserved, fs_entry_list_add, join_output_path,
}

abbrev word : ℕ → Bytes
word n = encode_u32 n false

-- A dirent node for the name `a` of inode 2 in the root.
abbrev dirent_node : Bytes
dirent_node =
    word (0x1985 + 0xe001 * 65536)
    ++ word 41
    ++ word 0
    ++ word 1
    ++ word 1
    ++ word 2
    ++ word 0
    ++ word 1
    ++ word 0
    ++ word 0
    ++ b'a' ∷ 0xff ∷ 0xff ∷ 0xff ∷ []

-- An inode node of inode 2 with two bytes that are not compressed.
abbrev inode_node : Bytes
inode_node =
    word (0x1985 + 0xe002 * 65536)
    ++ word 70
    ++ word 0
    ++ word 2
    ++ word 1
    ++ word 32768
    ++ word 0
    ++ word 2
    ++ word 0
    ++ word 0
    ++ word 0
    ++ word 0
    ++ word 2
    ++ word 2
    ++ word 0
    ++ word 0
    ++ word 0
    ++ b'h' ∷ b'i' ∷ []

abbrev image : Bytes
image = dirent_node ++ inode_node

abbrev os : Outside
os = record {
  mkdir_result = λ h p. made;
  is_existing_directory = λ h p. true;
  is_symlink = λ h p. false;
  opens = λ h p. true;
  writes = λ h p s. true;
  alloc = λ n. true;
  alloc_entries = λ n. true;
  copies = λ p. true;
}

abbrev memory : Memory
memory = record { dirents = λ n. true; inodes = λ n. true; name = λ s. true }

-- Enough for arrays that are sorted as they are.
abbrev in_order : Qsort
in_order = record { dirents = λ cmp ds. ds; inodes = λ cmp rs. rs }

abbrev stored : Uncompress
stored n s = some s

extract_ends_inside_example :
    (r : State × Bool) × (extract os memory in_order stored image (codes "out") ≡ some r)
    × Confined (codes "out") r.0.history
extract_ends_inside_example = extract_ends_inside os memory in_order stored image (codes "out")

scan_log-total_example : (r : Option Scan) × (scan_log memory image false ≡ some r)
scan_log-total_example = scan_log-total memory image false

find_next_node-scan_chunk_example :
    find_next_node (0xff ∷ 0xff ∷ 0xff ∷ 0xff ∷ inode_node) false 0
    ≡ some (scan_chunk false (0xff ∷ 0xff ∷ 0xff ∷ 0xff ∷ inode_node) 0)
find_next_node-scan_chunk_example =
    find_next_node-scan_chunk (0xff ∷ 0xff ∷ 0xff ∷ 0xff ∷ inode_node) false 0 (omega arith)

-- The fragments of inode 2: its two bytes, and a later version of the second.
abbrev fragment : ℕ → ℕ → ℕ → InodeRec
fragment version offset size = record {
  ino = 2;
  version = version;
  mode = 32768;
  isize = 2;
  frag_offset = offset;
  csize = size;
  dsize = size;
  compr = 0;
  file_offset = offset;
}

abbrev fragments : List InodeRec
fragments = fragment 1 0 2 ∷ fragment 2 1 1 ∷ []

abbrev bytes : Bytes
bytes = b'h' ∷ b'o' ∷ []

inode_run-keep_example : inode_run fragments 2 ≡ keep (λ r. r.ino == 2) fragments
inode_run-keep_example = inode_run-keep fragments 2 ((omega arith, tt), (tt, tt))

content_lem : file_content os stored bytes fragments 2 2 ≡ some bytes
unfolding file_content replay overlay fetch_fragment fetch_fragment_none read_at inode_run
    inode_lower_bound lower_bound_loop
content_lem = refl

file_content-bytes_example :
    (length bytes ≡ 2)
    × ((j : ℕ) → j < 2 → get_elem? bytes j ≡ expected_byte stored bytes (inode_run fragments 2) 2 j)
file_content-bytes_example = file_content-bytes os stored bytes fragments 2 2 bytes content_lem

extract_regular_file_ends_example :
    Extracted 2
      (codes "out/a")
      []
      (extract_regular_file os stored bytes fragments 2 2 (codes "out/a") [])
extract_regular_file_ends_example =
    extract_regular_file_ends os stored bytes fragments 2 2 (codes "out/a") []

-- A file `a` that is deleted later, and a file `b`.
abbrev created : Dirent
created = record { pino = 1; version = 1; ino = 2; name = codes "a" }

abbrev deleted : Dirent
deleted = record { pino = 1; version = 3; ino = 0; name = codes "a" }

abbrev other : Dirent
other = record { pino = 1; version = 2; ino = 4; name = codes "b" }

abbrev log : List Dirent
log = created ∷ other ∷ deleted ∷ []

abbrev array : List Dirent
array = created ∷ deleted ∷ other ∷ []

array-IsSorted : IsSorted array
unfolding dirent_cmp dirent_name_cmp memcmp
array-IsSorted = ((refl, (refl, tt)), ((refl, tt), (tt, tt)))

log_there : (e : Dirent) → In e log → In e array
log_there e at_head = at_head
log_there e (in_tail at_head) = in_tail (in_tail at_head)
log_there e (in_tail (in_tail at_head)) = in_tail at_head
log_there e (in_tail (in_tail (in_tail i))) = elim i [ ]

array_there : (e : Dirent) → In e array → In e log
array_there e at_head = at_head
array_there e (in_tail at_head) = in_tail (in_tail at_head)
array_there e (in_tail (in_tail at_head)) = in_tail at_head
array_there e (in_tail (in_tail (in_tail i))) = elim i [ ]

live_children-Listing_example : Listing log 1 (live_children array 1)
live_children-Listing_example =
    live_children-Listing log array 1 array-IsSorted log_there array_there

live_children_test : live_children array 1 ≡ other ∷ []
unfolding live_children live_loop dirent_lower_bound lower_bound_loop same_run dirent_name_cmp
    memcmp
live_children_test = refl

abbrev history_of : Option (State × Bool) → History
history_of none = []
history_of (some r) = r.0.history

extracted_test :
    history_of (extract os memory in_order stored image (codes "out"))
    ≡ write (codes "out/a") (codes "hi") ∷ create (codes "out/a") ∷ mkdir (codes "out") ∷ []
unfolding extract run make_output walk_root scan_and_sort detect_endianness scan_log scan_loop
    scan_round node_round parse_node parse_dirent_node parse_inode_node dirent_of inode_of name_size
    dirent_list_add inode_rec_list_add append_item grow read_at decode_u16 decode_u32 walk_directory
    visit_children visit_child visit_found visit_path enter_child add_entry child_path output_entry
    write_entry make_directory extract_regular_file write_file file_content replay overlay
    fetch_fragment fetch_fragment_none inode_run find_inode_meta inode_lower_bound lower_bound_loop
    live_children live_loop dirent_lower_bound same_run dirent_name_cmp memcmp
    path_component_is_safe is_windows_reserved_name base_length any_reserved matches_reserved
    fs_entry_list_add join_output_path str_eq
extracted_test = refl
