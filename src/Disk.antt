-- ===== src/Disk.antt =====
-- The calls of the operating system through which an extractor writes: those of src/extract/fs_util.c
-- and of the extractors themselves. The calls made so far stand in a history, the last one first, and
-- the answers to a call may depend on it.
pub mod Paths
pub mod Writes
use crimp.Common.{Bool, Bytes, List, false, true, ℕ, ◌∷◌}

pub data Operation : Type 0 where
  mkdir : Bytes → Operation
  create : Bytes → Operation
  write : Bytes → Bytes → Operation
  discard : Bytes → Operation

abbrev pub History : Type 0
History = List Operation

-- What `mkdir` returns: 0, an error `EEXIST`, or another error.
pub data MkdirResult : Type 0 where
  made existing failed : MkdirResult

-- The answers to `mkdir`, `lstat`, `fopen` for writing, `fwrite`, `malloc` or `realloc` of a number
-- of bytes, `realloc` of a number of entries, and `strdup`.
pub record Outside : Type 0 where
  pub mkdir_result : History → Bytes → MkdirResult
  pub is_existing_directory : History → Bytes → Bool
  pub is_symlink : History → Bytes → Bool
  pub opens : History → Bytes → Bool
  pub writes : History → Bytes → Bytes → Bool
  pub alloc : ℕ → Bool
  pub alloc_entries : ℕ → Bool
  pub copies : Bytes → Bool

-- `crimp_fs_make_directory`: the history after it, and whether it returned 0.
unfoldable pub make_directory : Outside → History → Bytes → History × Bool
make_directory os history path = (
  mkdir path ∷ history,
  elim (os.mkdir_result history path) [
    | made ↦ true
    | existing ↦ os.is_existing_directory history path
    | failed ↦ false
  ],
)
