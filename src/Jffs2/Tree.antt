-- ===== src/Jffs2/Tree.antt =====
-- src/extract/jffs2.c: directories, identification, listing and extraction.
use crimp.Common.{
  Bool, Bytes, List, Option, [], false, if◌then◌else◌, is_nil, length, ltb, none, some, suc, true,
  zero, ℕ, ◌%◌, ◌*◌, ◌+◌, ◌/◌, ◌==◌, ◌^◌, ◌∷◌,
}
use crimp.ArrayList.{empty}
use crimp.Disk.{History, Outside, make_directory}
use crimp.Entries.{State, child_path, add_entry, close_walk}
use crimp.FsUtil.{decode_u16, path_component_is_safe}
use crimp.Image.{read_at, Uncompress}
use crimp.Jffs2.{Dirent, InodeRec, magic, common_header_size, Memory, Scan}
use crimp.Jffs2.Files.{extract_regular_file}
use crimp.Jffs2.Log.{scan_log}
use crimp.Jffs2.Lookup.{Qsort, dirent_cmp, inode_rec_cmp, find_inode_meta, live_children}

-- `mode & JFFS2_S_IFMT`
abbrev pub file_type : InodeRec → ℕ
file_type r = r.mode / 2 ^ 12 % 2 ^ 4 * 2 ^ 12

abbrev pub is_dir : InodeRec → Bool
is_dir r = file_type r == 0x4000

abbrev pub is_reg : InodeRec → Bool
is_reg r = file_type r == 0x8000

-- The image and its sorted records do not change during a walk.
module _ (os : Outside) (uncompress : Uncompress) (f : Bytes) (inodes : List InodeRec) where
  -- The block under `is_dir` and `is_reg`.
  unfoldable pub write_entry : Dirent → InodeRec → Bytes → History → History × Bool
  write_entry dirent info disk_path history =
      if is_dir info
      then make_directory os history disk_path
      else if is_reg info
      then extract_regular_file os uncompress f inodes dirent.ino info.isize disk_path history
      else (history, true)

-- The recursive call for a directory; `walk` takes its number and path.
unfoldable pub enter_child :
    (ℕ → Bytes → State → State × Bool) → Bool → ℕ → Bytes → State × Bool → State × Bool
enter_child walk is_dir ino path (s, false) = (s, false)
enter_child walk is_dir ino path (s, true) = elim is_dir [
  | true ↦ walk ino path s
  | false ↦ (s, true)
]

module _ (os : Outside) (uncompress : Uncompress) (f : Bytes) (dirents : List Dirent)
    (inodes : List InodeRec) (output_dir : Option Bytes) where
  -- `visit_child` behind the lookup of the inode.
  unfoldable pub visit_path :
      (ℕ → Bytes → State → State × Bool) → Dirent → InodeRec → Bytes → State → State × Bool
  visit_path walk dirent info path s = enter_child walk (is_dir info) dirent.ino path (
      add_entry os output_dir (write_entry os uncompress f inodes dirent info) (is_dir info)
        info.isize path s)

  unfoldable pub visit_found :
      (ℕ → Bytes → State → State × Bool) → Bytes → Dirent → Option InodeRec → State → State × Bool
  visit_found walk parent_path dirent none s = (s, false)
  visit_found walk parent_path dirent (some info) s = elim (child_path parent_path dirent.name) [
    | none ↦ (s, false)
    | some path ↦ visit_path walk dirent info path s
  ]

  unfoldable pub visit_child :
      (ℕ → Bytes → State → State × Bool) → Bytes → Dirent → State → State × Bool
  visit_child walk parent_path dirent s =
      if path_component_is_safe dirent.name
      then visit_found walk parent_path dirent (find_inode_meta inodes dirent.ino) s
      else (s, false)

  -- The visits of `for_each_live_child`, up to the first that fails.
  unfoldable pub visit_children :
      (ℕ → Bytes → State → State × Bool) → Bytes → List Dirent → State → State × Bool
  visit_children walk parent_path [] s = (s, true)
  visit_children walk parent_path (d ∷ ds) s =
      let (s', ok) = visit_child walk parent_path d s in
      elim ok [ true ↦ visit_children walk parent_path ds s' | false ↦ (s', false) ]

  -- `walk_directory`; `levels` is `MAX_DIR_DEPTH + 1 - depth`.
  unfoldable pub walk_directory : ℕ → ℕ → Bytes → State → State × Bool
  walk_directory zero pino parent_path s = (s, false)
  walk_directory (suc levels) pino parent_path s =
      visit_children (walk_directory levels) parent_path (live_children dirents pino) s

-- `MAX_DIR_DEPTH` and `JFFS2_ROOT_INO`
abbrev pub max_dir_depth : ℕ
max_dir_depth = 32

abbrev pub root_ino : ℕ
root_ino = 1

unfoldable pub detect_endianness : Bytes → Option Bool
detect_endianness f = elim (read_at f 0 2) [
  | none ↦ none
  | some magic_bytes ↦
      if decode_u16 magic_bytes false == magic
      then some false
      else if decode_u16 magic_bytes true == magic
      then some true
      else none
]

-- The two arrays after `qsort`.
abbrev pub sorted : Qsort → Scan → List Dirent × List InodeRec
sorted q s = (
  if is_nil s.dirents.items then [] else q.dirents dirent_cmp s.dirents.items,
  if is_nil s.inodes.items then [] else q.inodes inode_rec_cmp s.inodes.items,
)

abbrev pub sorted_scan :
    Qsort → Option (Option Scan) → Option (Option (List Dirent × List InodeRec))
sorted_scan q none = none
sorted_scan q (some none) = some none
sorted_scan q (some (some s)) = some (some (sorted q s))

-- `scan_and_sort` on an image that can be opened; `none` means that the fuel ran out, and
-- `some none` is -1.
unfoldable pub scan_and_sort :
    Memory → Qsort → Bytes → Option (Option (List Dirent × List InodeRec))
scan_and_sort mem q f = elim (detect_endianness f) [
  | none ↦ some none
  | some be ↦
      if ltb (length f) common_header_size then some none else sorted_scan q (scan_log mem f be)
]

-- What `crimp_jffs2_identify` reports of an image that can be opened: `bytes_used`; the other
-- numbers are 0.
unfoldable pub identify : Bytes → Option ℕ
identify f = elim (detect_endianness f) [ none ↦ none | some be ↦ some (length f) ]

-- The walk of `run` from the root.
unfoldable pub walk_root :
    Outside
    → Uncompress
    → Bytes
    → Option Bytes
    → List Dirent
    → List InodeRec
    → History
    → State × Bool
walk_root os uncompress f output_dir dirents inodes history = close_walk (
    walk_directory os uncompress f dirents inodes output_dir (max_dir_depth + 1) root_ino []
      (record { entries = empty; history = history }))

-- `output_dir != NULL && crimp_fs_make_directory(output_dir) != 0`
unfoldable pub make_output : Outside → Option Bytes → History × Bool
make_output os none = ([], true)
make_output os (some dir) = make_directory os [] dir

-- `run` on an image that can be opened: the state after it, and whether it returned 0.
unfoldable pub run :
    Outside → Memory → Qsort → Uncompress → Bytes → Option Bytes → Option (State × Bool)
run os mem q uncompress f output_dir = elim (scan_and_sort mem q f) [
  | none ↦ none
  | some none ↦ some (record { entries = empty; history = [] }, false)
  | some (some (dirents, inodes)) ↦
      let (history, ok) = make_output os output_dir in
      elim ok [
        | false ↦ some (record { entries = empty; history = history }, false)
        | true ↦ some (walk_root os uncompress f output_dir dirents inodes history)
      ]
]

-- `crimp_jffs2_list` and `crimp_jffs2_extract`
unfoldable pub list : Outside → Memory → Qsort → Uncompress → Bytes → Option (State × Bool)
list os mem q uncompress f = run os mem q uncompress f none

unfoldable pub extract :
    Outside → Memory → Qsort → Uncompress → Bytes → Bytes → Option (State × Bool)
extract os mem q uncompress f output_dir = run os mem q uncompress f (some output_dir)
