-- ===== src/Entries.antt =====
-- What the extractors of src/extract/ do with an entry once its name is known to be safe: its path,
-- the list of entries, and the place where it is written.
pub mod Confined
use crimp.Common.{
  Bool, Bytes, Option, false, if◌then◌else◌, is_nil, leb, length, none, some, true, ℕ,
}
use crimp.ArrayList.{empty}
use crimp.Disk.{History, Outside}
use crimp.FileSystem.{join}
use crimp.FsUtil.{FsEntryList, fs_entry_list_add, join_output_path}

-- `snprintf` into `child_path[1024]`
unfoldable pub child_path : Bytes → Bytes → Option Bytes
child_path parent_path name =
    let path = if is_nil parent_path then name else join parent_path name in
    if leb 1024 (length path) then none else some path

-- What a walk changes: the entries in `ctx->out`, and the calls that were made.
pub record State : Type 0 where
  pub entries : FsEntryList
  pub history : History

abbrev pub with_history : FsEntryList → History × Bool → State × Bool
with_history entries (history, ok) = (record { entries = entries; history = history }, ok)

-- The block under `ctx->output_dir != NULL`, with `disk_path[1280]`; `write` is what stands under the
-- tests of the kind.
unfoldable pub output_entry :
    Option Bytes → (Bytes → History → History × Bool) → Bytes → History → History × Bool
output_entry none write path history = (history, true)
output_entry (some dir) write path history = elim (join_output_path dir path 1280) [
  | none ↦ (history, false)
  | some disk_path ↦ write disk_path history
]

-- Lists the entry at `path` and writes it.
unfoldable pub add_entry :
    Outside
    → Option Bytes
    → (Bytes → History → History × Bool)
    → Bool
    → ℕ
    → Bytes
    → State
    → State × Bool
add_entry os output_dir write is_dir size path s =
    let added =
      fs_entry_list_add os.alloc_entries (os.copies path) s.entries
        (record { path = path; is_dir = is_dir; size = if is_dir then 0 else size }) in
    if added.1
    then with_history added.0 (output_entry output_dir write path s.history)
    else (record s { entries = added.0 }, false)

-- The end of a listing or an extraction: the list is emptied after a failure.
abbrev pub close_walk : State × Bool → State × Bool
close_walk (s, true) = (s, true)
close_walk (s, false) = (record s { entries = empty }, false)
