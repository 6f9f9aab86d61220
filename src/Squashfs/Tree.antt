-- ===== src/Squashfs/Tree.antt =====
-- src/extract/squashfs.c: directories, listing and extraction.
use crimp.Common.{
  Bool, Bytes, List, Option, [], false, if◌then◌else◌, ltb, none, some, suc, true, zero, ℕ, ◌%◌,
  ◌+◌, ◌-◌, ◌/◌, ◌==◌, ◌^◌, ◌||◌, ◌∷◌,
}
use crimp.ArrayList.{empty}
use crimp.Disk.{History, Outside, make_directory}
use crimp.Entries.{State, child_path, add_entry, close_walk}
use crimp.FsUtil.{path_component_is_safe}
use crimp.Image.{Uncompress}
use crimp.Squashfs.{
  XzDecode, Io, Cursor, cursor_init, cursor_read, read_fields, field, read_superblock, Superblock,
}
use crimp.Squashfs.Inodes.{Inode, read_inode}
use crimp.Squashfs.Files.{extract_regular_file, validate_block_size}

-- The cursor in a directory, and `remaining`.
pub record Position : Type 0 where
  pub cursor : Cursor
  pub remaining : ℕ

-- An entry whose name was read and is safe: the place of its inode in the metadata block, its name,
-- and the position behind it.
pub record Entry : Type 0 where
  pub offset : ℕ
  pub name : Bytes
  pub behind : Position

abbrev pub safe_entry : ℕ → ℕ → Bytes × Cursor → Option Entry
safe_entry offset remaining (name, c) =
    if path_component_is_safe name
    then some (record {
      offset = offset;
      name = name;
      behind = record { cursor = c; remaining = remaining };
    })
    else none

-- The name behind the fixed fields of an entry, of which `remaining` bytes are left.
unfoldable pub read_name : (ℕ → Bool) → Io → Cursor → ℕ → ℕ → ℕ → Option Entry
read_name alloc io c remaining offset name_len =
    if ltb remaining name_len || ltb 256 name_len
    then none
    else elim (cursor_read alloc io c name_len) [
      | none ↦ none
      | some named ↦ safe_entry offset (remaining - name_len) named
    ]

unfoldable pub read_entry : (ℕ → Bool) → Io → Position → Option Entry
read_entry alloc io p =
    if ltb p.remaining 8 then none else elim (read_fields alloc io p.cursor (2 ∷ 2 ∷ 2 ∷ 2 ∷ [])) [
      | none ↦ none
      | some (ns, c) ↦ read_name alloc io c (p.remaining - 8) (field ns 0) (field ns 3 + 1)
    ]

-- The header of a group of entries: their number, the metadata block of their inodes, and the position
-- behind it.
pub record Group : Type 0 where
  pub entry_count : ℕ
  pub start : ℕ
  pub behind : Position

abbrev pub group_of : List ℕ → Cursor → ℕ → Option Group
group_of ns c remaining =
    let entry_count = (field ns 0 + 1) % 2 ^ 32 in
    if ltb 256 entry_count
    then none
    else some (record {
      entry_count = entry_count;
      start = field ns 1;
      behind = record { cursor = c; remaining = remaining };
    })

unfoldable pub read_group : (ℕ → Bool) → Io → Position → Option Group
read_group alloc io p =
    if ltb p.remaining 12 then none else elim (read_fields alloc io p.cursor (4 ∷ 4 ∷ 4 ∷ [])) [
      | none ↦ none
      | some (ns, c) ↦ group_of ns c (p.remaining - 12)
    ]

abbrev pub is_dir : Inode → Bool
is_dir child = child.type == 1 || child.type == 8

abbrev pub is_reg : Inode → Bool
is_reg child = child.type == 2 || child.type == 9

-- The two tests of the kind, for the entry at a path of the disk.
unfoldable pub write_entry : Outside → Io → Inode → Bytes → History → History × Bool
write_entry os io child disk_path history =
    if is_dir child
    then make_directory os history disk_path
    else if is_reg child
    then extract_regular_file os io child disk_path history
    else (history, true)

abbrev pub Walk : Type 0
Walk = ℕ → ℕ → ℕ → Bytes → State → Option (State × Bool)

-- The recursive call for a directory.
unfoldable pub enter_entry : Walk → Inode → Bytes → State × Bool → Option (State × Bool)
enter_entry walk child path (s, false) = some (s, false)
enter_entry walk child path (s, true) = elim (is_dir child) [
  | true ↦ walk child.dir_block_index child.dir_block_offset child.dir_size path s
  | false ↦ some (s, true)
]

abbrev pub is_wanted : Option Bytes → Bool
is_wanted none = false
is_wanted (some dir) = true

module _ (os : Outside) (io : Io) (output_dir : Option Bytes) where
  -- `process_dir_entry` behind the test of the path.
  unfoldable pub process_path : Walk → Bytes → Option Inode → State → Option (State × Bool)
  process_path walk path none s = some (s, false)
  process_path walk path (some child) s =
      enter_entry walk child path
        (add_entry os output_dir (write_entry os io child) (is_dir child) child.file_size path s)

  -- `process_dir_entry` behind the test of the name.
  unfoldable pub process_entry : Walk → ℕ → Bytes → Entry → State → Option (State × Bool)
  process_entry walk start parent_path e s = elim (child_path parent_path e.name) [
    | none ↦ some (s, false)
    | some path ↦
        process_path walk path (read_inode os.alloc io start e.offset (is_wanted output_dir)) s
  ]

  -- The inner loop of `walk_directory`, over the entries of a group that are left.
  unfoldable pub walk_entries :
      Walk → ℕ → Bytes → ℕ → Position → State → Option (Position × State × Bool)
  walk_entries walk start parent_path zero p s = some (p, s, true)
  walk_entries walk start parent_path (suc count) p s = elim (read_entry os.alloc io p) [
    | none ↦ some (p, s, false)
    | some e ↦ elim (process_entry walk start parent_path e s) [
      | none ↦ none
      | some (s', false) ↦ some (e.behind, s', false)
      | some (s', true) ↦ walk_entries walk start parent_path count e.behind s'
    ]
  ]

  -- The loop of `walk_directory` over the groups; `none` means that the fuel ran out.
  unfoldable pub walk_groups : Walk → ℕ → Bytes → Position → State → Option (State × Bool)
  walk_groups walk zero parent_path p s = none
  walk_groups walk (suc fuel) parent_path p s = elim (p.remaining == 0) [
    | true ↦ some (s, true)
    | false ↦ elim (read_group os.alloc io p) [
      | none ↦ some (s, false)
      | some g ↦ elim (walk_entries walk g.start parent_path g.entry_count g.behind s) [
        | none ↦ none
        | some (p', s', false) ↦ some (s', false)
        | some (p', s', true) ↦ walk_groups walk fuel parent_path p' s'
      ]
    ]
  ]

  -- The rest of `walk_directory` with the cursor at its first group. A group takes 12 bytes, so that
  -- one more than the size is enough fuel for the loop.
  unfoldable pub walk_from : Walk → Bytes → ℕ → Option Cursor → State → Option (State × Bool)
  walk_from walk parent_path remaining none s = some (s, false)
  walk_from walk parent_path remaining (some c) s =
      walk_groups walk (remaining + 1) parent_path (record { cursor = c; remaining = remaining }) s

  -- `walk_directory`; `levels` is `MAX_DIR_DEPTH + 1 - depth`.
  unfoldable pub walk_directory : ℕ → ℕ → ℕ → ℕ → Bytes → State → Option (State × Bool)
  walk_directory zero block_index block_offset size parent_path s = some (s, false)
  walk_directory (suc levels) block_index block_offset size parent_path s =
      if ltb size 4
      then some (s, true)
      else walk_from (walk_directory levels) parent_path (size - 3)
          (cursor_init os.alloc io ((io.sb.directory_table_start + block_index) % 2 ^ 64)
            block_offset)
          s

abbrev pub max_dir_depth : ℕ
max_dir_depth = 32

abbrev pub close : Option (State × Bool) → Option (State × Bool)
close none = none
close (some r) = some (close_walk r)

-- The walk from the inode of the root.
unfoldable pub walk_root :
    Outside → Io → Option Bytes → Option Inode → History → Option (State × Bool)
walk_root os io output_dir none history =
    some (record { entries = empty; history = history }, false)
walk_root os io output_dir (some root) history = close (
    walk_directory os io output_dir (max_dir_depth + 1) root.dir_block_index root.dir_block_offset
      root.dir_size [] (record { entries = empty; history = history }))

abbrev pub read_root : Outside → Io → Option Inode
read_root os io =
    read_inode os.alloc io (io.sb.root_inode / 2 ^ 16) (io.sb.root_inode % 2 ^ 16) false

abbrev pub io_of : Uncompress → XzDecode → Bytes → Superblock → Io
io_of uncompress xz_decode f sb = record {
  f = f;
  sb = sb;
  uncompress = uncompress;
  xz_decode = xz_decode;
}

-- `crimp_squashfs_list` on an image that can be opened; `none` means that the fuel ran out. The list
-- of entries is taken to be empty when it is called, which it leaves alone without a superblock.
unfoldable pub list : Outside → Uncompress → XzDecode → Bytes → Option (State × Bool)
list os uncompress xz_decode f = elim (read_superblock f) [
  | none ↦ some (record { entries = empty; history = [] }, false)
  | some sb ↦ let io = io_of uncompress xz_decode f sb in walk_root os io none (read_root os io) []
]

-- The rest of `crimp_squashfs_extract` behind the test of the size of the blocks.
unfoldable pub extract_checked : Outside → Io → Bytes → Option (State × Bool)
extract_checked os io output_dir =
    let (history, ok) = make_directory os [] output_dir in
    elim ok [
      | false ↦ some (record { entries = empty; history = history }, false)
      | true ↦ walk_root os io (some output_dir) (read_root os io) history
    ]

-- `crimp_squashfs_extract` on an image that can be opened.
unfoldable pub extract : Outside → Uncompress → XzDecode → Bytes → Bytes → Option (State × Bool)
extract os uncompress xz_decode f output_dir = elim (read_superblock f) [
  | none ↦ some (record { entries = empty; history = [] }, false)
  | some sb ↦
      if validate_block_size sb.block_size
      then extract_checked os (io_of uncompress xz_decode f sb) output_dir
      else some (record { entries = empty; history = [] }, false)
]
