-- ===== src/Walk.antt =====
-- src/core/walk.c: `crimp_walk_directory`. A visitor with its `userdata` is a function on a state.
-- Links can make the tree endless for `stat`, so that the recursion takes fuel; `none` means that it
-- ran out.
pub mod Files
pub mod Reach
pub mod Exact
pub mod Whole
use crimp.Common.{
  Bool, Bytes, List, Option, [], codes, if◌then◌else◌, none, some, str_eq, suc, truncate, zero, ℕ,
  ◌||◌, ◌∷◌,
}
use crimp.FileSystem.{FileSystem, FileKind, directory, regular, other, join}

abbrev pub is_dot : Bytes → Bool
is_dot name = str_eq name (codes ".") || str_eq name (codes "..")

-- `char path[1024]`; a longer path is cut off without a test.
abbrev pub entry_path : Bytes → Bytes → Bytes
entry_path dir_path name = truncate 1024 (join dir_path name)

module _ {S : Type 0} (fs : FileSystem) (visit : Bytes → S → S) where
  -- One entry; `walk` is the recursive call.
  unfoldable pub visit_entry : (Bytes → S → Option S) → Bytes → Option FileKind → S → Option S
  visit_entry walk path (some directory) s = walk path s
  visit_entry walk path (some regular) s = some (visit path s)
  visit_entry walk path (some other) s = some s
  visit_entry walk path none s = some s

  -- The `readdir` loop.
  unfoldable pub visit_entries : (Bytes → S → Option S) → Bytes → List Bytes → S → Option S
  unfolding visit_entry
  visit_entries walk dir_path [] s = some s
  visit_entries walk dir_path (name ∷ names) s =
      let path = entry_path dir_path name in
      let step = if is_dot name then some s else visit_entry walk path (fs.stat path) s in
      elim step [ none ↦ none | some s' ↦ visit_entries walk dir_path names s' ]

  unfoldable pub walk_directory : ℕ → Bytes → S → Option S
  unfolding visit_entries
  walk_directory zero dir_path s = none
  walk_directory (suc fuel) dir_path s = elim (fs.opendir dir_path) [
    | none ↦ some s
    | some names ↦ visit_entries (walk_directory fuel) dir_path names s
  ]
