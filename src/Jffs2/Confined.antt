-- ===== src/Jffs2/Confined.antt =====
-- The paths that `crimp_jffs2_extract` of src/extract/jffs2.c writes to.
use crimp.Common.{
  Bool, Bool-cases, Bytes, List, Option, Option-cases, [], false, inl, inr, length, ltb, none, refl,
  some, suc, true, zero, ℕ, ◌+◌, ◌==◌, ◌∷◌, ◌≡◌,
}
use crimp.Image.{Uncompress}
use crimp.Entries.{State, child_path, close_walk}
use crimp.Entries.Confined.{IsConfined, add_entry-Confined, child_path-Inside}
use crimp.Disk.{create, mkdir, History, Outside, make_directory}
use crimp.Disk.Paths.{Inside, Confined, place}
use crimp.FsUtil.{path_component_is_safe}
use crimp.Jffs2.{Scan, Dirent, InodeRec, Memory, common_header_size}
use crimp.Jffs2.Ends.{scan_log-total}
use crimp.Jffs2.Files.{
  max_extracted_file_size, file_content, write_file, create_empty, extract_regular_file,
}
use crimp.Jffs2.Lookup.{Qsort, find_inode_meta, live_children}
use crimp.Jffs2.Tree.{
  is_dir, is_reg, write_entry, enter_child, visit_path, visit_found, visit_child, visit_children,
  walk_directory, scan_and_sort, detect_endianness, walk_root, make_output, run, extract,
  max_dir_depth, root_ino, sorted, sorted_scan,
}
use crimp.Jffs2.Log.{scan_log}

write_file-Confined :
    (os : Outside) (dir content : Bytes) → IsConfined dir (λ p. write_file os p content)
unfolding write_file
write_file-Confined os dir content path history i c = elim (Bool-cases (os.opens history path)) [
  | inr shut ↦ rw (shut, write_file) c
  | inl opened ↦ elim (Bool-cases (os.writes (create path ∷ history) path content)) [
    | inl good ↦ rw (opened, write_file, good) (i, (i, c))
    | inr bad ↦ rw (opened, write_file, bad) (i, (i, (i, c)))
  ]
]

create_empty-Confined : (os : Outside) (dir : Bytes) → IsConfined dir (create_empty os)
unfolding create_empty
create_empty-Confined os dir path history i c = elim (Bool-cases (os.opens history path)) [
  | inl opened ↦ rw (opened, create_empty) (i, c)
  | inr shut ↦ rw (shut, create_empty) c
]

file-Confined :
    (os : Outside) (uncompress : Uncompress) (f : Bytes) (inodes : List InodeRec) (ino size : ℕ)
    (dir : Bytes)
    → IsConfined dir (extract_regular_file os uncompress f inodes ino size)
unfolding extract_regular_file
file-Confined os uncompress f inodes ino size dir path history i c =
    elim (Bool-cases (os.is_symlink history path)) [
      | inl link ↦ rw (link, extract_regular_file) c
      | inr plain ↦ elim (Bool-cases (ltb max_extracted_file_size size)) [
        | inl large ↦ rw (plain, large, extract_regular_file) c
        | inr small ↦ elim (Bool-cases (size == 0)) [
          | inl none_left ↦
              rw (plain, small, none_left, extract_regular_file)
                (create_empty-Confined os dir path history i c)
          | inr some_left ↦ elim (Option-cases (file_content os uncompress f inodes ino size)) [
            | inl bad ↦ rw (plain, small, some_left, bad, extract_regular_file) c
            | inr (content, good) ↦
                rw (plain, small, some_left, good, extract_regular_file)
                  (write_file-Confined os dir content path history i c)
          ]
        ]
      ]
    ]

module _ (os : Outside) (uncompress : Uncompress) (f : Bytes) (dirents : List Dirent)
    (inodes : List InodeRec) (dir : Bytes) where
  write_entry-Confined :
      (d : Dirent) (info : InodeRec) → IsConfined dir (write_entry os uncompress f inodes d info)
  unfolding write_entry make_directory
  write_entry-Confined d info path history i c = elim (Bool-cases (is_dir info)) [
    | inl directory ↦ rw directory (i, c)
    | inr other ↦ elim (Bool-cases (is_reg info)) [
      | inl regular ↦
          rw (other, regular)
            (file-Confined os uncompress f inodes d.ino info.isize dir path history i c)
      | inr special ↦ rw (other, special) c
    ]
  ]

  abbrev Walk : Type 0
  Walk = ℕ → Bytes → State → State × Bool

  abbrev KeepsInside : Walk → Type 0
  KeepsInside walk =
      (ino : ℕ) (path : Bytes) (s : State)
      → Inside dir (place dir path)
      → Confined dir s.history
      → Confined dir (walk ino path s).0.history

  enter_child-Confined :
      (walk : Walk)
      → KeepsInside walk
      → (directory : Bool) (ino : ℕ) (path : Bytes) (r : State × Bool) → Inside dir (place dir path)
      → Confined dir r.0.history
      → Confined dir (enter_child walk directory ino path r).0.history
  unfolding enter_child
  enter_child-Confined walk good directory ino path (s, false) i c = c
  enter_child-Confined walk good true ino path (s, true) i c = good ino path s i c
  enter_child-Confined walk good false ino path (s, true) i c = c

  visit_found-Confined :
      (walk : Walk)
      → KeepsInside walk
      → (parent : Bytes) (d : Dirent) (info : Option InodeRec) (s : State)
      → path_component_is_safe d.name ≡ true
      → Inside dir (place dir parent)
      → Confined dir s.history
      → Confined dir
          (visit_found os uncompress f dirents inodes (some dir) walk parent d info s).0.history
  unfolding visit_found visit_path
  visit_found-Confined walk good parent d none s safe i c = c
  visit_found-Confined walk good parent d (some info) s safe i c =
      elim (Option-cases (child_path parent d.name)) [
        | inl long ↦ rw (long, visit_found) c
        | inr (path, fits) ↦
            let (placed, joined) = child_path-Inside dir parent d.name path i safe fits in
            rw (fits, visit_found)
              (enter_child-Confined walk good (is_dir info) d.ino path _ placed (
                add_entry-Confined dir (write_entry os uncompress f inodes d info)
                  (write_entry-Confined d info) os (is_dir info) info.isize path s joined c))
      ]

  visit_child-Confined :
      (walk : Walk)
      → KeepsInside walk
      → (parent : Bytes) (d : Dirent) (s : State) → Inside dir (place dir parent)
      → Confined dir s.history
      → Confined dir
          (visit_child os uncompress f dirents inodes (some dir) walk parent d s).0.history
  unfolding visit_child
  visit_child-Confined walk good parent d s i c =
      elim (Bool-cases (path_component_is_safe d.name)) [
        | inl safe ↦
            rw (safe, visit_child)
              (visit_found-Confined walk good parent d (find_inode_meta inodes d.ino) s safe i c)
        | inr unsafe ↦ rw (unsafe, visit_child) c
      ]

  visit_children-Confined :
      (walk : Walk)
      → KeepsInside walk
      → (parent : Bytes) (ds : List Dirent) (s : State) → Inside dir (place dir parent)
      → Confined dir s.history
      → Confined dir
          (visit_children os uncompress f dirents inodes (some dir) walk parent ds s).0.history
  unfolding visit_children
  visit_children-Confined walk good parent [] s i c = c
  visit_children-Confined walk good parent (d ∷ ds) s i c =
      let r = visit_child os uncompress f dirents inodes (some dir) walk parent d s in
      let c' = visit_child-Confined walk good parent d s i c in
      elim (Bool-cases r.1) [
        | inl went ↦
            rw (went, visit_children) (visit_children-Confined walk good parent ds r.0 i c')
        | inr stopped ↦ rw (stopped, visit_children) c'
      ]

  walk_directory-Confined :
      (levels : ℕ) → KeepsInside (walk_directory os uncompress f dirents inodes (some dir) levels)
  unfolding walk_directory
  walk_directory-Confined zero ino path s i c = c
  walk_directory-Confined (suc levels) ino path s i c =
      visit_children-Confined _ (walk_directory-Confined levels) path (live_children dirents ino) s
        i c

  close_walk-Confined :
      (r : State × Bool) → Confined dir r.0.history → Confined dir (close_walk r).0.history
  close_walk-Confined (s, true) c = c
  close_walk-Confined (s, false) c = c

  walk_root-Confined :
      (history : History)
      → Confined dir history
      → Confined dir (walk_root os uncompress f (some dir) dirents inodes history).0.history
  unfolding walk_root
  walk_root-Confined history c =
      close_walk-Confined _
        (walk_directory-Confined (max_dir_depth + 1) root_ino [] _ ([], tt, refl) c)

sorted_scan-total :
    (q : Qsort) (o : Option (Option Scan))
    → (r : Option Scan) × (o ≡ some r)
    → (r : Option (List Dirent × List InodeRec)) × (sorted_scan q o ≡ some r)
sorted_scan-total q o (none, e) = (none, rw e refl)
sorted_scan-total q o (some s, e) = (some (sorted q s), rw e refl)

pub scan_and_sort-total :
    (mem : Memory) (q : Qsort) (f : Bytes)
    → (r : Option (List Dirent × List InodeRec)) × (scan_and_sort mem q f ≡ some r)
unfolding scan_and_sort
scan_and_sort-total mem q f = elim (Option-cases (detect_endianness f)) [
  | inl bad ↦ (none, rw (bad, scan_and_sort) refl)
  | inr (be, good) ↦ elim (Bool-cases (ltb (length f) common_header_size)) [
    | inl short ↦ (none, rw (good, scan_and_sort, short) refl)
    | inr long ↦
        rw (good, scan_and_sort, long)
          (sorted_scan-total q (scan_log mem f be) (scan_log-total mem f be))
  ]
]

module _ (os : Outside) (mem : Memory) (q : Qsort) (uncompress : Uncompress) (f dir : Bytes) where
  abbrev EndsInside : Type 0
  EndsInside =
      (r : State × Bool) × (extract os mem q uncompress f dir ≡ some r) × Confined dir r.0.history

  extract-EndsInside :
      (o : Option (List Dirent × List InodeRec)) → scan_and_sort mem q f ≡ some o → EndsInside
  unfolding extract run make_output make_directory
  extract-EndsInside none ran = rw (ran, run) (_, refl, tt)
  extract-EndsInside (some (dirents, inodes)) ran = elim (Bool-cases (make_directory os [] dir).1) [
    | inl made_dir ↦
        rw (ran, run, made_dir)
          (
            _,
            refl,
            walk_root-Confined os uncompress f dirents inodes dir (mkdir dir ∷ [])
                (([], tt, refl), tt),
          )
    | inr refused ↦ rw (ran, run, refused) (_, refl, (([], tt, refl), tt))
  ]

-- Whatever the image holds, however it is sorted, and whatever the system answers, an extraction ends,
-- and every call that makes, opens, writes or removes something names the output directory or a path
-- of safe names below it.
pub extract_ends_inside :
    (os : Outside) (mem : Memory) (q : Qsort) (uncompress : Uncompress) (f dir : Bytes)
    → (r : State × Bool) × (extract os mem q uncompress f dir ≡ some r) × Confined dir r.0.history
extract_ends_inside os mem q uncompress f dir =
    let (o, ran) = scan_and_sort-total mem q f in extract-EndsInside os mem q uncompress f dir o ran
