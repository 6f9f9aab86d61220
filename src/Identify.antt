-- ===== src/Identify.antt =====
-- src/extract/identify.c: which format an image has, and its extraction by the first extractor that
-- takes it.

pub mod Dispatch
pub mod Formats
pub mod Replace
pub mod Beside
use crimp.Common.{
  Bool, Bytes, List, Option, [], codes, false, if◌then◌else◌, leb, length, none, some, true, ℕ,
  ◌++◌, ◌∷◌,
}
use crimp.Cramfs.{FsInfo, identify as identify_cramfs}
use crimp.Disk.{History, Outside}
use crimp.Entries.{State}
use crimp.Image.{Uncompress}
use crimp.Jffs2.{Memory}
use crimp.Jffs2.Lookup.{Qsort}
use crimp.Squashfs.{XzDecode, compression_name, identify as identify_squashfs}
use crimp.Squashfs.Tree.{extract as extract_squashfs}
use crimp.Cramfs.Tree.{extract as extract_cramfs}
use crimp.Jffs2.Tree.{extract as extract_jffs2, identify as identify_jffs2}

-- `crimp_fs_type`
pub data FsType : Type 0 where
  unknown squashfs cramfs jffs2 : FsType

abbrev pub jffs2_info : ℕ → FsInfo
jffs2_info bytes_used = record {
  inode_count = 0;
  block_size = 0;
  compression = 0;
  bytes_used = bytes_used;
}

abbrev pub typed : FsType → Option FsInfo → Option (FsType × FsInfo)
typed type none = none
typed type (some info) = some (type, info)

abbrev pub jffs2_format : Option ℕ → Option FsInfo
jffs2_format none = none
jffs2_format (some bytes_used) = some (jffs2_info bytes_used)

abbrev pub first_of {ℓ} : {A : Type ℓ} → Option A → Option A → Option A
first_of none later = later
first_of (some a) later = some a

-- `crimp_fs_identify` of a file that can be opened.
unfoldable pub identify : Bytes → Option (FsType × FsInfo)
identify f =
    first_of (typed squashfs (identify_squashfs f))
      (first_of (typed cramfs (identify_cramfs f)) (typed jffs2 (jffs2_format (identify_jffs2 f))))

-- `crimp_fs_compression_name`
unfoldable pub fs_compression_name : FsType → ℕ → Bytes
fs_compression_name unknown compression = codes "unknown"
fs_compression_name squashfs compression = compression_name compression
fs_compression_name cramfs compression = codes "zlib"
fs_compression_name jffs2 compression = codes "zlib"

-- The system after the calls of a history.
abbrev pub since : Outside → History → Outside
since os before = record {
  mkdir_result = λ h p. os.mkdir_result (h ++ before) p;
  is_existing_directory = λ h p. os.is_existing_directory (h ++ before) p;
  is_symlink = λ h p. os.is_symlink (h ++ before) p;
  opens = λ h p. os.opens (h ++ before) p;
  writes = λ h p s. os.writes (h ++ before) p s;
  alloc = os.alloc;
  alloc_entries = os.alloc_entries;
  copies = os.copies;
}

-- The call of an extractor after others: the calls made so far, and whether it returned 0.
abbrev pub with_before : History → Option (State × Bool) → Option (History × Bool)
with_before before none = none
with_before before (some (s, ok)) = some (s.history ++ before, ok)

-- An extractor that failed is followed by the next one.
abbrev pub or_next :
    Option (History × Bool) → (History → Option (History × Bool)) → Option (History × Bool)
or_next none next = none
or_next (some (history, true)) next = some (history, true)
or_next (some (history, false)) next = next history

-- What the extractors take besides the image and the directory.
pub record Libraries : Type 0 where
  pub uncompress : Uncompress
  pub xz_decode : XzDecode
  pub memory : Memory
  pub qsort : Qsort

-- `extract_dispatch` for an image that can be opened; `none` means that the fuel ran out.
unfoldable pub extract_dispatch : Outside → Libraries → Bytes → Bytes → Option (History × Bool)
extract_dispatch os lib f dir =
    or_next (with_before [] (extract_squashfs (since os []) lib.uncompress lib.xz_decode f dir))
      (λ before.
        or_next (with_before before (extract_cramfs (since os before) lib.uncompress f dir))
          (λ before'.
            with_before before'
              (extract_jffs2 (since os before') lib.memory lib.qsort lib.uncompress f dir)))

-- What `crimp_fs_extract` does, in the order of time: `remove_tree` of a path, the calls of an
-- extraction, the last one first, and `rename`.
pub data Step : Type 0 where
  remove_tree : Bytes → Step
  calls : History → Step
  rename : Bytes → Bytes → Step

abbrev pub staged :
    (List Step → Bool) → Bytes → Bytes → Option (History × Bool) → Option (List Step × Bool)
staged renames tmp_dir output_dir none = none
staged renames tmp_dir output_dir (some (history, false)) =
    some (remove_tree tmp_dir ∷ calls history ∷ remove_tree tmp_dir ∷ [], false)
staged renames tmp_dir output_dir (some (history, true)) = some (
  remove_tree tmp_dir ∷ calls history ∷ remove_tree output_dir ∷ rename tmp_dir output_dir ∷ [],
  renames (remove_tree tmp_dir ∷ calls history ∷ remove_tree output_dir ∷ []),
)

abbrev pub tmp_of : Bytes → Bytes
tmp_of output_dir = output_dir ++ codes ".tmp"

-- `crimp_fs_extract` of an image that can be opened; `os` answers after the first `remove_tree`, and
-- `renames` is whether `rename` succeeds after the steps before it.
unfoldable pub fs_extract :
    Outside → (List Step → Bool) → Libraries → Bytes → Bytes → Option (List Step × Bool)
fs_extract os renames lib f output_dir =
    if leb 1280 (length (tmp_of output_dir))
    then some ([], false)
    else staged renames (tmp_of output_dir) output_dir
        (extract_dispatch os lib f (tmp_of output_dir))
