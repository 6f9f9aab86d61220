-- ===== src/Cramfs/Confined.antt =====
-- The paths that `crimp_cramfs_extract` of src/extract/cramfs.c writes to.
use crimp.Common.{
  Bool, Bool-cases, Bytes, Option, Option-cases, [], arith, false, inl, inr, ltb, refl, some, suc,
  true, zero, ℕ, ◌+◌, ◌-◌, ◌<◌, ◌==◌, ◌||◌, ◌∷◌, ◌≡◌,
}
use crimp.ArrayList.{empty}
use crimp.Cramfs.{Inode, Super, read_superblock}
use crimp.Image.{Uncompress}
use crimp.Entries.{State, child_path}
use crimp.Entries.Confined.{IsConfined, add_entry-Confined, child_path-Inside}
use crimp.Disk.Paths.{Inside, Confined, place}
use crimp.Cramfs.Tree.{
  Entry, read_entry, is_dir, is_reg, write_entry, enter_entry, process_entry, walk_entries,
  walk_directory, close, walk_root, extract, max_dir_depth,
}
use crimp.Disk.{mkdir, History, Outside, make_directory}
use crimp.FsUtil.{path_component_is_safe}
use crimp.Cramfs.Files.{read_entry_lem, file-Confined}

module _ (os : Outside) (uncompress : Uncompress) (f : Bytes) (sb : Super) (dir : Bytes) where
  write_entry-Confined : (child : Inode) → IsConfined dir (write_entry os uncompress f sb child)
  unfolding write_entry make_directory
  write_entry-Confined child path history i c = elim (Bool-cases (is_dir child)) [
    | inl directory ↦ rw directory (i, c)
    | inr other ↦ elim (Bool-cases (is_reg child)) [
      | inl regular ↦
          rw (other, regular) (file-Confined os uncompress f sb dir child path history i c)
      | inr special ↦ rw (other, special) c
    ]
  ]

  abbrev Walk : Type 0
  Walk = ℕ → ℕ → Bytes → State → Option (State × Bool)

  -- A run ends, and leaves a history inside the directory.
  abbrev EndsInside : Option (State × Bool) → Type 0
  EndsInside o = (r : State × Bool) × (o ≡ some r) × Confined dir r.0.history

  abbrev IsGood : Walk → Type 0
  IsGood walk =
      (offset size : ℕ) (path : Bytes) (s : State)
      → Inside dir (place dir path)
      → Confined dir s.history
      → EndsInside (walk offset size path s)

  enter_entry-EndsInside :
      (walk : Walk)
      → IsGood walk
      → (child : Inode) (path : Bytes) (r : State × Bool) → Inside dir (place dir path)
      → Confined dir r.0.history
      → EndsInside (enter_entry walk child path r)
  unfolding enter_entry
  enter_entry-EndsInside walk good child path (s, false) i c = ((s, false), refl, c)
  enter_entry-EndsInside walk good child path (s, true) i c = elim (Bool-cases (is_dir child)) [
    | inl directory ↦ rw (directory, enter_entry) (good child.offset child.size path s i c)
    | inr other ↦ rw (other, enter_entry) ((s, true), refl, c)
  ]

  process_entry-EndsInside :
      (walk : Walk)
      → IsGood walk
      → (parent : Bytes) (e : Entry) (s : State) → path_component_is_safe e.name ≡ true
      → Inside dir (place dir parent)
      → Confined dir s.history
      → EndsInside (process_entry os uncompress f sb (some dir) walk parent e s)
  unfolding process_entry
  process_entry-EndsInside walk good parent e s safe i c =
      elim (Option-cases (child_path parent e.name)) [
        | inl long ↦ rw (long, process_entry) ((s, false), refl, c)
        | inr (path, fits) ↦
            let (placed, joined) = child_path-Inside dir parent e.name path i safe fits in
            rw (fits, process_entry)
              (enter_entry-EndsInside walk good e.child path _ placed (
                add_entry-Confined dir (write_entry os uncompress f sb e.child)
                  (write_entry-Confined e.child) os (is_dir e.child) e.child.size path s joined c))
      ]

  walk_entries-EndsInside :
      (walk : Walk)
      → IsGood walk
      → (fuel : ℕ) (parent : Bytes) (pos remaining : ℕ) (s : State) → remaining < fuel
      → Inside dir (place dir parent)
      → Confined dir s.history
      → EndsInside (walk_entries os uncompress f sb (some dir) walk fuel parent pos remaining s)
  unfolding walk_entries
  walk_entries-EndsInside walk good zero parent pos remaining s h i c = absurd (omega arith)
  walk_entries-EndsInside walk good (suc fuel) parent pos remaining s h i c =
      elim (Bool-cases (remaining == 0)) [
        | inl done ↦ rw (done, walk_entries) ((s, true), refl, c)
        | inr more ↦ elim (Option-cases (read_entry f sb pos remaining)) [
          | inl bad ↦ rw (more, bad, walk_entries) ((s, false), refl, c)
          | inr (e, good_entry) ↦
              let (less, safe) = read_entry_lem f sb pos remaining e good_entry in
              let ((s', ok), ran, c') = process_entry-EndsInside walk good parent e s safe i c in
              elim (Bool-cases ok) [
                | inl went ↦
                    rw (more, good_entry, walk_entries, ran, went)
                      (walk_entries-EndsInside walk good fuel parent e.pos e.remaining s'
                        (omega arith) i c')
                | inr stopped ↦
                    rw (more, good_entry, walk_entries, ran, stopped) ((s', false), refl, c')
              ]
        ]
      ]

  walk_directory-EndsInside :
      (levels : ℕ) → IsGood (walk_directory os uncompress f sb (some dir) levels)
  unfolding walk_directory
  walk_directory-EndsInside zero offset size parent s i c = ((s, false), refl, c)
  walk_directory-EndsInside (suc levels) offset size parent s i c =
      elim (Bool-cases (ltb sb.size offset || ltb (sb.size - offset) size)) [
        | inl outside ↦ rw outside ((s, false), refl, c)
        | inr within ↦ rw within (
            walk_entries-EndsInside _ (walk_directory-EndsInside levels) (size + 1) parent offset
              size s (omega arith) i c)
      ]

  close-EndsInside : (o : Option (State × Bool)) → EndsInside o → EndsInside (close o)
  close-EndsInside o ((s, true), e, c) = ((s, true), rw e, c)
  close-EndsInside o ((s, false), e, c) = ((record s { entries = empty }, false), rw e, c)

  walk_root-EndsInside :
      (history : History)
      → Confined dir history
      → EndsInside (walk_root os uncompress f sb (some dir) history)
  unfolding walk_root
  walk_root-EndsInside history c = close-EndsInside _ (
      walk_directory-EndsInside (max_dir_depth + 1) sb.root.offset sb.root.size [] _ ([], tt, refl)
        c)

-- Whatever the image holds and whatever the system answers, an extraction ends, and every call that
-- makes, opens, writes or removes something names the output directory or a path of safe names below
-- it.
pub extract-Confined :
    (os : Outside) (uncompress : Uncompress) (f dir : Bytes)
    → (r : State × Bool) × (extract os uncompress f dir ≡ some r) × Confined dir r.0.history
unfolding extract make_directory
extract-Confined os uncompress f dir = elim (Option-cases (read_superblock f)) [
  | inl bad ↦ rw (bad, extract) (_, refl, tt)
  | inr (sb, good) ↦ elim (Bool-cases (make_directory os [] dir).1) [
    | inl made_dir ↦
        rw (good, made_dir, extract)
          (walk_root-EndsInside os uncompress f sb dir (mkdir dir ∷ []) (([], tt, refl), tt))
    | inr refused ↦ rw (good, refused, extract) (_, refl, (([], tt, refl), tt))
  ]
]
