-- ===== src/Cramfs/Tree.antt =====
-- src/extract/cramfs.c: directories, listing and extraction.
use crimp.Common.{
  Bool, Bytes, Option, [], false, if◌then◌else◌, is_nil, ltb, none, some, suc, true, zero, ℕ, ◌%◌,
  ◌&&◌, ◌*◌, ◌+◌, ◌-◌, ◌/◌, ◌==◌, ◌^◌, ◌||◌, ◌∷◌,
}
use crimp.ArrayList.{empty}
use crimp.Cramfs.{Inode, decode_inode, Super, read_superblock, extract_regular_file}
use crimp.Entries.{State, child_path, add_entry, close_walk}
use crimp.Image.{read_at, Uncompress}
use crimp.Disk.{History, Outside, make_directory}
use crimp.FsUtil.{path_component_is_safe}

-- The name without the NULs at its end.
unfoldable pub trim_name : Bytes → Bytes
trim_name [] = []
trim_name (c ∷ name) = let rest = trim_name name in if c == 0 && is_nil rest then [] else c ∷ rest

-- An entry of a directory table, with `*pos` and `*remaining` behind it.
pub record Entry : Type 0 where
  pub child : Inode
  pub name : Bytes
  pub pos : ℕ
  pub remaining : ℕ

abbrev pub safe_entry : Inode → ℕ → ℕ → Bytes → Option Entry
safe_entry child pos remaining name =
    if path_component_is_safe name
    then some (record { child = child; name = name; pos = pos; remaining = remaining })
    else none

-- The name of an entry, whose inode ends at `pos`.
unfoldable pub read_name : Bytes → Inode → ℕ → ℕ → Option Entry
read_name f child pos remaining =
    if child.namelen == 0 || ltb remaining child.namelen
    then none
    else elim (read_at f pos child.namelen) [
      | none ↦ none
      | some raw ↦
          safe_entry child (pos + child.namelen) (remaining - child.namelen) (trim_name raw)
    ]

-- `process_dir_entry` up to the test of the name.
unfoldable pub read_entry : Bytes → Super → ℕ → ℕ → Option Entry
read_entry f sb pos remaining = if ltb remaining 12 then none else elim (read_at f pos 12) [
  | none ↦ none
  | some raw ↦ read_name f (decode_inode raw sb.big_endian) (pos + 12) (remaining - 12)
]

-- `mode & CRAMFS_S_IFMT`
abbrev pub file_type : Inode → ℕ
file_type i = i.mode / 2 ^ 12 % 2 ^ 4 * 2 ^ 12

abbrev pub is_dir : Inode → Bool
is_dir i = file_type i == 16384

abbrev pub is_reg : Inode → Bool
is_reg i = file_type i == 32768

-- The block under `is_dir` and `is_reg`.
unfoldable pub write_entry :
    Outside → Uncompress → Bytes → Super → Inode → Bytes → History → History × Bool
write_entry os uncompress f sb child disk_path history =
    if is_dir child
    then make_directory os history disk_path
    else if is_reg child
    then extract_regular_file os uncompress f sb child disk_path history
    else (history, true)

-- The recursive call for a directory; `walk` takes the position, the size and the path.
unfoldable pub enter_entry :
    (ℕ → ℕ → Bytes → State → Option (State × Bool))
    → Inode
    → Bytes
    → State × Bool
    → Option (State × Bool)
enter_entry walk child path (s, false) = some (s, false)
enter_entry walk child path (s, true) = elim (is_dir child) [
  | true ↦ walk child.offset child.size path s
  | false ↦ some (s, true)
]

-- The image, its superblock and `output_dir` do not change during a walk.
module _ (os : Outside) (uncompress : Uncompress) (f : Bytes) (sb : Super)
    (output_dir : Option Bytes) where
  -- `process_dir_entry` behind the test of the name.
  unfoldable pub process_entry :
      (ℕ → ℕ → Bytes → State → Option (State × Bool))
      → Bytes
      → Entry
      → State
      → Option (State × Bool)
  process_entry walk parent_path e s = elim (child_path parent_path e.name) [
    | none ↦ some (s, false)
    | some path ↦ enter_entry walk e.child path (
        add_entry os output_dir (write_entry os uncompress f sb e.child) (is_dir e.child)
          e.child.size path s)
  ]

  -- The loop of `walk_directory`; `none` means that the fuel ran out.
  unfoldable pub walk_entries :
      (ℕ → ℕ → Bytes → State → Option (State × Bool))
      → ℕ
      → Bytes
      → ℕ
      → ℕ
      → State
      → Option (State × Bool)
  walk_entries walk zero parent_path pos remaining s = none
  walk_entries walk (suc fuel) parent_path pos remaining s = elim (remaining == 0) [
    | true ↦ some (s, true)
    | false ↦ elim (read_entry f sb pos remaining) [
      | none ↦ some (s, false)
      | some e ↦ elim (process_entry walk parent_path e s) [
        | none ↦ none
        | some (s', false) ↦ some (s', false)
        | some (s', true) ↦ walk_entries walk fuel parent_path e.pos e.remaining s'
      ]
    ]
  ]

  -- `walk_directory`; `levels` is `MAX_DIR_DEPTH + 1 - depth`. An entry takes at least 12 bytes, so
  -- that one more than the size is enough fuel for the loop.
  unfoldable pub walk_directory : ℕ → ℕ → ℕ → Bytes → State → Option (State × Bool)
  walk_directory zero offset size parent_path s = some (s, false)
  walk_directory (suc levels) offset size parent_path s =
      if ltb sb.size offset || ltb (sb.size - offset) size
      then some (s, false)
      else walk_entries (walk_directory levels) (size + 1) parent_path offset size s

-- `MAX_DIR_DEPTH`
abbrev pub max_dir_depth : ℕ
max_dir_depth = 32

-- The end of `crimp_cramfs_list` and `crimp_cramfs_extract`.
abbrev pub close : Option (State × Bool) → Option (State × Bool)
close none = none
close (some r) = some (close_walk r)

-- The walk from the root.
unfoldable pub walk_root :
    Outside → Uncompress → Bytes → Super → Option Bytes → History → Option (State × Bool)
walk_root os uncompress f sb output_dir history = close (
    walk_directory os uncompress f sb output_dir (max_dir_depth + 1) sb.root.offset sb.root.size []
      (record { entries = empty; history = history }))

-- `crimp_cramfs_list` on an image that can be opened; `none` means that the fuel ran out.
unfoldable pub list : Outside → Uncompress → Bytes → Option (State × Bool)
list os uncompress f = elim (read_superblock f) [
  | none ↦ some (record { entries = empty; history = [] }, false)
  | some sb ↦ walk_root os uncompress f sb none []
]

-- `crimp_cramfs_extract` on an image that can be opened.
unfoldable pub extract : Outside → Uncompress → Bytes → Bytes → Option (State × Bool)
extract os uncompress f output_dir = elim (read_superblock f) [
  | none ↦ some (record { entries = empty; history = [] }, false)
  | some sb ↦
      let (history, ok) = make_directory os [] output_dir in
      elim ok [
        | false ↦ some (record { entries = empty; history = history }, false)
        | true ↦ walk_root os uncompress f sb (some output_dir) history
      ]
]
