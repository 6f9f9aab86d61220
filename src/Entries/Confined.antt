-- ===== src/Entries/Confined.antt =====
-- The paths that an entry is written to.
use crimp.Common.{
  Bool, Bool-cases, Bytes, arith, false, if◌then◌else◌, inl, inr, is_nil, leb, length, some, subst,
  sym, true, ℕ, ◌≡◌,
}
use crimp.Disk.{History, Outside}
use crimp.Disk.Paths.{Inside, Confined, place, safe_not_nil, Inside-join, place-join}
use crimp.Entries.{child_path, State, with_history, output_entry, add_entry}
use crimp.FileSystem.{join}
use crimp.FsUtil.{FsEntryList, path_component_is_safe, join_output_path}

-- A way to write an entry that makes calls below the directory only.
abbrev pub IsConfined : Bytes → (Bytes → History → History × Bool) → Type 0
IsConfined dir write =
    (path : Bytes) (history : History)
    → Inside dir path
    → Confined dir history
    → Confined dir (write path history).0

module _ (dir : Bytes) (write : Bytes → History → History × Bool)
    (confined : IsConfined dir write) where
  output_entry-Confined :
      (path : Bytes) (history : History)
      → Inside dir (join dir path)
      → Confined dir history
      → Confined dir (output_entry (some dir) write path history).0
  unfolding output_entry join_output_path
  output_entry-Confined path history i c = elim (Bool-cases (leb 1280 (length (join dir path)))) [
    | inl long ↦ rw (long, output_entry) c
    | inr fits ↦ rw (fits, output_entry) (confined (join dir path) history i c)
  ]

  added-Confined :
      (added : FsEntryList × Bool) (r : History × Bool) (s : State)
      → Confined dir s.history
      → Confined dir r.0
      → Confined dir
          (if added.1
            then with_history added.0 r
            else (record s { entries = added.0 }, false)).0.history
  added-Confined (entries, true) (history, ok) s c d = d
  added-Confined (entries, false) (history, ok) s c d = c

  pub add_entry-Confined :
      (os : Outside) (is_dir : Bool) (size : ℕ) (path : Bytes) (s : State)
      → Inside dir (join dir path)
      → Confined dir s.history
      → Confined dir (add_entry os (some dir) write is_dir size path s).0.history
  unfolding add_entry
  add_entry-Confined os is_dir size path s i c =
      added-Confined _ (output_entry (some dir) write path s.history) s c
        (output_entry-Confined path s.history i c)

-- The path of an entry with a safe name, in the image and on the disk.
pub child_path-Inside :
    (dir parent name path : Bytes)
    → Inside dir (place dir parent)
    → path_component_is_safe name ≡ true
    → child_path parent name ≡ some path
    → Inside dir (place dir path) × Inside dir (join dir path)
unfolding child_path
child_path-Inside dir parent name path i safe h =
    let (placed, joined) = place-join dir parent name (safe_not_nil name safe) in
    let inside = Inside-join dir (place dir parent) name i safe in
    let same : path ≡ (if is_nil parent then name else join parent name) = ground (arith, h) in
    (
      subst (λ p. Inside dir (place dir p)) (sym same) (subst (Inside dir) (sym placed) inside),
      subst (λ p. Inside dir (join dir p)) (sym same) (subst (Inside dir) (sym joined) inside),
    )
