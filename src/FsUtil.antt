-- ===== src/FsUtil.antt =====
-- src/extract/fs_util.c: helpers that the extractors share. The calls of the operating system that
-- only ask or make directories are left to the extractors' model.
pub mod Reserved
pub mod Safe
pub mod Decode
use crimp.Common.{
  Bool, Bytes, List, Option, [], any, codes, false, fold_case, if◌then◌else◌, leb, length, ltb,
  none, not, some, str_eq, suc, true, zero, ℕ, ◌&&◌, ◌*◌, ◌+◌, ◌==◌, ◌^◌, ◌||◌, ◌∷◌,
}
use crimp.ArrayList.{ArrayList, is_full, new_capacity, grow, append_item}
use crimp.FileSystem.{join}

-- `p[i]`
abbrev pub byte : Bytes → ℕ → ℕ
byte [] i = 0
byte (c ∷ p) zero = c
byte (c ∷ p) (suc i) = byte p i

-- The shifted bytes do not overlap, so that `|` adds them.
unfoldable pub decode_u32 : Bytes → Bool → ℕ
decode_u32 p big_endian =
    if big_endian
    then byte p 0 * 2 ^ 24 + byte p 1 * 2 ^ 16 + byte p 2 * 2 ^ 8 + byte p 3
    else byte p 3 * 2 ^ 24 + byte p 2 * 2 ^ 16 + byte p 1 * 2 ^ 8 + byte p 0

unfoldable pub decode_u16 : Bytes → Bool → ℕ
decode_u16 p big_endian =
    if big_endian then byte p 0 * 2 ^ 8 + byte p 1 else byte p 1 * 2 ^ 8 + byte p 0

-- `WINDOWS_RESERVED_NAMES`
abbrev pub windows_reserved_names : List Bytes
windows_reserved_names =
    codes "con"
    ∷ codes "prn"
    ∷ codes "aux"
    ∷ codes "nul"
    ∷ codes "com1"
    ∷ codes "com2"
    ∷ codes "com3"
    ∷ codes "com4"
    ∷ codes "com5"
    ∷ codes "com6"
    ∷ codes "com7"
    ∷ codes "com8"
    ∷ codes "com9"
    ∷ codes "lpt1"
    ∷ codes "lpt2"
    ∷ codes "lpt3"
    ∷ codes "lpt4"
    ∷ codes "lpt5"
    ∷ codes "lpt6"
    ∷ codes "lpt7"
    ∷ codes "lpt8"
    ∷ codes "lpt9"
    ∷ []

-- The loop that sets `base_len`.
unfoldable pub base_length : Bytes → ℕ
base_length [] = 0
base_length (c ∷ name) = if c == b'.' then 0 else suc (base_length name)

-- The inner loop: `match` after `strlen(reserved)` bytes.
unfoldable pub matches_reserved : Bytes → Bytes → Bool
matches_reserved name [] = true
matches_reserved [] (r ∷ reserved) = false
matches_reserved (c ∷ name) (r ∷ reserved) = fold_case c == r && matches_reserved name reserved

-- The loop over the reserved names.
unfoldable pub any_reserved : List Bytes → Bytes → ℕ → Bool
any_reserved [] name base_len = false
any_reserved (reserved ∷ rs) name base_len =
    if not (length reserved == base_len)
    then any_reserved rs name base_len
    else (matches_reserved name reserved || any_reserved rs name base_len)

unfoldable pub is_windows_reserved_name : Bytes → Bool
is_windows_reserved_name name =
    let base_len = base_length name in
    if base_len == 0 || ltb 4 base_len
    then false
    else any_reserved windows_reserved_names name base_len

-- The bytes that the loop of `crimp_fs_path_component_is_safe` refuses.
abbrev pub is_refused : ℕ → Bool
is_refused c = c == b'/' || c == b'\\' || c == b':' || c == 0

unfoldable pub path_component_is_safe : Bytes → Bool
path_component_is_safe name =
    if length name == 0
    then false
    else if str_eq name (codes ".")
    then false
    else if str_eq name (codes "..")
    then false
    else if any is_refused name
    then false
    else not (is_windows_reserved_name name)

-- `crimp_fs_join_output_path`: `none` is -1, for a path that does not fit `out_cap`.
unfoldable pub join_output_path : Bytes → Bytes → ℕ → Option Bytes
join_output_path output_dir rel_path out_cap =
    if leb out_cap (length (join output_dir rel_path))
    then none
    else some (join output_dir rel_path)

-- `crimp_fs_entry`
pub record FsEntry : Type 0 where
  pub path : Bytes
  pub is_dir : Bool
  pub size : ℕ

abbrev pub FsEntryList : Type 0
FsEntryList = ArrayList FsEntry

-- `crimp_fs_entry_list_add`: the list after it, and whether it returned 0. `alloc` says of a number
-- of entries whether a block for them can be had, and `copied` whether `strdup` succeeds.
unfoldable pub fs_entry_list_add : (ℕ → Bool) → Bool → FsEntryList → FsEntry → FsEntryList × Bool
fs_entry_list_add alloc copied list e =
    if is_full list && not (alloc (new_capacity 16 list))
    then (list, false)
    else if not copied
    then (grow 16 list, false)
    else (append_item e (grow 16 list), true)
