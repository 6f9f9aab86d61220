-- ===== src/FileSystem.antt =====
-- What the scanner reads of the operating system: the results of `opendir` with `readdir`, of
-- `stat`, and of `fopen` with `fread`. It does not change while a scan runs. Also the two ways in
-- which src/core/fileutil.c and src/core/component_identify.c read a file.

use crimp.Common.{
  Bytes, List, Option, if◌then◌else◌, length, none, read_prefix, some, ℕ, ◌*◌, ◌++◌, ◌-◌, ◌==◌, ◌∷◌,
}

pub data FileKind : Type 0 where
  directory regular other : FileKind

pub record FileSystem : Type 0 where
  -- The names in a directory, `.` and `..` included, in the order of `readdir`.
  pub opendir : Bytes → Option (List Bytes)
  -- `stat`, which follows links.
  pub stat : Bytes → Option FileKind
  -- All bytes of a file that can be opened and read.
  pub read : Bytes → Option Bytes

-- `snprintf(path, sizeof(path), "%s/%s", dir_path, name)`
abbrev pub join : Bytes → Bytes → Bytes
join dir_path name = dir_path ++ b'/' ∷ name

-- `crimp_read_file_chunk`: `none` is -1, and else the bytes in `buf`, of which C functions see the
-- text in front of the first NUL.
unfoldable pub read_file_chunk : FileSystem → Bytes → ℕ → Option Bytes
read_file_chunk fs path buf_size = elim (fs.read path) [
  | none ↦ none
  | some content ↦ some (read_prefix (buf_size - 1) content)
]

-- `COMPONENT_SCAN_MAX`
abbrev pub component_scan_max : ℕ
component_scan_max = 2 * 1024 * 1024

-- `read_file_for_scan`: `none` is `NULL`, also for an empty file.
unfoldable pub read_file_for_scan : FileSystem → Bytes → Option Bytes
read_file_for_scan fs path = elim (fs.read path) [
  | none ↦ none
  | some content ↦
      if length content == 0 then none else some (read_prefix component_scan_max content)
]
