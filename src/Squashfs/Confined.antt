-- ===== src/Squashfs/Confined.antt =====
-- The paths that `crimp_squashfs_extract` of src/extract/squashfs.c writes to.
use crimp.Common.{
  Bool, Bool-cases, Bytes, Option, Option-cases, [], arith, false, inl, inr, ltb, none, refl, some,
  suc, true, zero, ℕ, ◌+◌, ◌-◌, ◌<◌, ◌==◌, ◌∷◌, ◌≡◌, ◌≤◌,
}
use crimp.ArrayList.{empty}
use crimp.Disk.{mkdir, History, Outside, make_directory}
use crimp.Disk.Paths.{Inside, Confined, place}
use crimp.Entries.{State, child_path}
use crimp.Entries.Confined.{IsConfined, add_entry-Confined, child_path-Inside}
use crimp.FileSystem.{join}
use crimp.FsUtil.{path_component_is_safe}
use crimp.Image.{Uncompress}
use crimp.Squashfs.{XzDecode, Io, Cursor, read_superblock}
use crimp.Squashfs.Inodes.{Inode}
use crimp.Squashfs.Files.{validate_block_size}
use crimp.Squashfs.Tree.{
  Position, Entry, read_name, read_entry, Group, read_group, is_dir, is_reg, write_entry, Walk,
  enter_entry, process_path, process_entry, walk_entries, walk_groups, walk_from, walk_directory,
  max_dir_depth, close, walk_root, read_root, io_of, extract_checked, extract,
}
use crimp.Squashfs.Writes.{extract_regular_file-IsConfined}

read_entry_lem :
    (alloc : ℕ → Bool) (io : Io) (p : Position) (e : Entry)
    → read_entry alloc io p ≡ some e
    → (e.behind.remaining < p.remaining) × (path_component_is_safe e.name ≡ true)
unfolding read_entry read_name
read_entry_lem alloc io p e h = ground arith

read_group_lem :
    (alloc : ℕ → Bool) (io : Io) (p : Position) (g : Group)
    → read_group alloc io p ≡ some g
    → g.behind.remaining < p.remaining
unfolding read_group
read_group_lem alloc io p g h = ground arith

module _ (os : Outside) (io : Io) (dir : Bytes) where
  write_entry-IsConfined : (child : Inode) → IsConfined dir (write_entry os io child)
  unfolding write_entry make_directory
  write_entry-IsConfined child path history i c = elim (Bool-cases (is_dir child)) [
    | inl directory ↦ rw directory (i, c)
    | inr other ↦ elim (Bool-cases (is_reg child)) [
      | inl regular ↦
          rw (other, regular) (extract_regular_file-IsConfined os io child dir path history i c)
      | inr special ↦ rw (other, special) c
    ]
  ]

  -- A run ends, and leaves a history inside the directory.
  abbrev EndsInside : Option (State × Bool) → Type 0
  EndsInside o = (r : State × Bool) × (o ≡ some r) × Confined dir r.0.history

  abbrev IsGood : Walk → Type 0
  IsGood walk =
      (block_index block_offset size : ℕ) (path : Bytes) (s : State)
      → Inside dir (place dir path)
      → Confined dir s.history
      → EndsInside (walk block_index block_offset size path s)

  enter_entry-EndsInside :
      (walk : Walk)
      → IsGood walk
      → (child : Inode) (path : Bytes) (r : State × Bool) → Inside dir (place dir path)
      → Confined dir r.0.history
      → EndsInside (enter_entry walk child path r)
  unfolding enter_entry
  enter_entry-EndsInside walk good child path (s, false) i c = ((s, false), refl, c)
  enter_entry-EndsInside walk good child path (s, true) i c = elim (Bool-cases (is_dir child)) [
    | inl directory ↦
        rw (directory, enter_entry)
          (good child.dir_block_index child.dir_block_offset child.dir_size path s i c)
    | inr other ↦ rw (other, enter_entry) ((s, true), refl, c)
  ]

  process_path-EndsInside :
      (walk : Walk)
      → IsGood walk
      → (path : Bytes) (child : Option Inode) (s : State) → Inside dir (place dir path)
      → Inside dir (join dir path)
      → Confined dir s.history
      → EndsInside (process_path os io (some dir) walk path child s)
  unfolding process_path
  process_path-EndsInside walk good path none s placed joined c = ((s, false), refl, c)
  process_path-EndsInside walk good path (some child) s placed joined c =
      enter_entry-EndsInside walk good child path _ placed (
        add_entry-Confined dir (write_entry os io child) (write_entry-IsConfined child) os
          (is_dir child) child.file_size path s joined c)

  process_entry-EndsInside :
      (walk : Walk)
      → IsGood walk
      → (start : ℕ) (parent : Bytes) (e : Entry) (s : State) → path_component_is_safe e.name ≡ true
      → Inside dir (place dir parent)
      → Confined dir s.history
      → EndsInside (process_entry os io (some dir) walk start parent e s)
  unfolding process_entry
  process_entry-EndsInside walk good start parent e s safe i c =
      elim (Option-cases (child_path parent e.name)) [
        | inl long ↦ rw (long, process_entry) ((s, false), refl, c)
        | inr (path, fits) ↦
            let (placed, joined) = child_path-Inside dir parent e.name path i safe fits in
            rw (fits, process_entry) (process_path-EndsInside walk good path _ s placed joined c)
      ]

  -- The entries of a group end, and the position does not move back.
  abbrev GroupEnds : ℕ → Option (Position × State × Bool) → Type 0
  GroupEnds remaining o =
      (p : Position) × (r : State × Bool) × (o ≡ some (p, r.0, r.1))
      × (p.remaining ≤ remaining)
      × Confined dir r.0.history

  walk_entries-GroupEnds :
      (walk : Walk)
      → IsGood walk
      → (start : ℕ) (parent : Bytes) (count : ℕ) (p : Position) (s : State)
      → Inside dir (place dir parent)
      → Confined dir s.history
      → GroupEnds p.remaining (walk_entries os io (some dir) walk start parent count p s)
  unfolding walk_entries
  walk_entries-GroupEnds walk good start parent zero p s i c = (p, (s, true), refl, omega arith, c)
  walk_entries-GroupEnds walk good start parent (suc count) p s i c =
      elim (Option-cases (read_entry os.alloc io p)) [
        | inl bad ↦ rw (bad, walk_entries) (p, (s, false), refl, omega arith, c)
        | inr (e, good_entry) ↦
            let (less, safe) = read_entry_lem os.alloc io p e good_entry in
            let ((s', ok), ran, c') =
              process_entry-EndsInside walk good start parent e s safe i c in
            elim (Bool-cases ok) [
              | inr stopped ↦
                  rw (good_entry, walk_entries, ran, stopped)
                    (e.behind, (s', false), refl, omega arith, c')
              | inl went ↦
                  let (p', r, later, le, c'') =
                    walk_entries-GroupEnds walk good start parent count e.behind s' i c' in
                  rw (good_entry, walk_entries, ran, went) (p', r, later, omega arith, c'')
            ]
      ]

  walk_groups-EndsInside :
      (walk : Walk)
      → IsGood walk
      → (fuel : ℕ) (parent : Bytes) (p : Position) (s : State) → p.remaining < fuel
      → Inside dir (place dir parent)
      → Confined dir s.history
      → EndsInside (walk_groups os io (some dir) walk fuel parent p s)
  unfolding walk_groups
  walk_groups-EndsInside walk good zero parent p s h i c = absurd (omega arith)
  walk_groups-EndsInside walk good (suc fuel) parent p s h i c =
      elim (Bool-cases (p.remaining == 0)) [
        | inl done ↦ rw (done, walk_groups) ((s, true), refl, c)
        | inr more ↦ elim (Option-cases (read_group os.alloc io p)) [
          | inl bad ↦ rw (more, bad, walk_groups) ((s, false), refl, c)
          | inr (g, good_group) ↦
              let less = read_group_lem os.alloc io p g good_group in
              let (p', (s', ok), ran, le, c') =
                walk_entries-GroupEnds walk good g.start parent g.entry_count g.behind s i c in
              elim (Bool-cases ok) [
                | inl went ↦
                    rw (more, good_group, walk_groups, ran, went)
                      (walk_groups-EndsInside walk good fuel parent p' s' (omega arith) i c')
                | inr stopped ↦
                    rw (more, good_group, walk_groups, ran, stopped) ((s', false), refl, c')
              ]
        ]
      ]

  walk_from-EndsInside :
      (walk : Walk)
      → IsGood walk
      → (parent : Bytes) (remaining : ℕ) (o : Option Cursor) (s : State)
      → Inside dir (place dir parent)
      → Confined dir s.history
      → EndsInside (walk_from os io (some dir) walk parent remaining o s)
  unfolding walk_from
  walk_from-EndsInside walk good parent remaining none s i c = ((s, false), refl, c)
  walk_from-EndsInside walk good parent remaining (some cursor) s i c =
      walk_groups-EndsInside walk good (remaining + 1) parent _ s (omega arith) i c

  walk_directory-EndsInside : (levels : ℕ) → IsGood (walk_directory os io (some dir) levels)
  unfolding walk_directory
  walk_directory-EndsInside zero index offset size parent s i c = ((s, false), refl, c)
  walk_directory-EndsInside (suc levels) index offset size parent s i c =
      elim (Bool-cases (ltb size 4)) [
        | inl nothing ↦ rw (nothing, walk_directory) ((s, true), refl, c)
        | inr more ↦
            rw (more, walk_directory)
              (walk_from-EndsInside _ (walk_directory-EndsInside levels) parent (size - 3) _ s i c)
      ]

  close-EndsInside : (o : Option (State × Bool)) → EndsInside o → EndsInside (close o)
  close-EndsInside o ((s, true), e, c) = ((s, true), rw e refl, c)
  close-EndsInside o ((s, false), e, c) = ((record s { entries = empty }, false), rw e refl, c)

  walk_root-EndsInside :
      (root : Option Inode) (history : History)
      → Confined dir history
      → EndsInside (walk_root os io (some dir) root history)
  unfolding walk_root
  walk_root-EndsInside none history c = (_, refl, c)
  walk_root-EndsInside (some root) history c = close-EndsInside _ (
      walk_directory-EndsInside (max_dir_depth + 1) root.dir_block_index root.dir_block_offset
        root.dir_size [] _ ([], tt, refl) c)

  extract_checked-EndsInside : EndsInside (extract_checked os io dir)
  unfolding extract_checked make_directory
  extract_checked-EndsInside = elim (Bool-cases (make_directory os [] dir).1) [
    | inl made_dir ↦
        rw (made_dir, extract_checked)
          (walk_root-EndsInside (read_root os io) (mkdir dir ∷ []) (([], tt, refl), tt))
    | inr refused ↦ rw (refused, extract_checked) (_, refl, (([], tt, refl), tt))
  ]

-- Whatever the image holds, whatever the decoders give and whatever the system answers, an extraction
-- ends, and every call that makes, opens, writes or removes something names the output directory or a
-- path of safe names below it.
pub extract_stays_inside :
    (os : Outside) (uncompress : Uncompress) (xz_decode : XzDecode) (f dir : Bytes)
    → (r : State × Bool) × (extract os uncompress xz_decode f dir ≡ some r)
      × Confined dir r.0.history
unfolding extract
extract_stays_inside os uncompress xz_decode f dir = elim (Option-cases (read_superblock f)) [
  | inl bad ↦ rw (bad, extract) (_, refl, tt)
  | inr (sb, good) ↦ elim (Bool-cases (validate_block_size sb.block_size)) [
    | inl valid ↦
        rw (good, valid, extract)
          (extract_checked-EndsInside os (io_of uncompress xz_decode f sb) dir)
    | inr invalid ↦ rw (good, invalid, extract) (_, refl, tt)
  ]
]
