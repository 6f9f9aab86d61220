-- ===== src/Jffs2/Files.antt =====
-- src/extract/jffs2.c: the content of a regular file, from the fragments of its inode.
use crimp.Common.{
  Bool, Bytes, List, Option, [], drop, false, if◌then◌else◌, leb, length, ltb, none, not, some, suc,
  take, true, zero, ℕ, ◌++◌, ◌+◌, ◌-◌, ◌==◌, ◌||◌, ◌∷◌,
}
use crimp.Disk.{create, write, discard, History, Outside}
use crimp.Image.{read_at, Uncompress, grow_buffer, of_length}
use crimp.Jffs2.{InodeRec}
use crimp.Jffs2.Lookup.{inode_run}

-- `JFFS2_COMPR_NONE`, `JFFS2_COMPR_ZLIB` and `JFFS2_MAX_EXTRACTED_FILE_SIZE`
abbrev pub compr_none : ℕ
compr_none = 0

abbrev pub compr_zlib : ℕ
compr_zlib = 6

abbrev pub max_extracted_file_size : ℕ
max_extracted_file_size = 268435456

-- `content` after bytes were copied to it at an offset.
unfoldable pub overlay : Bytes → ℕ → Bytes → Bytes
overlay content offset s = take offset content ++ (s ++ drop (offset + length s) content)

-- The bytes that a fragment puts at its place, with the size of `comp_buf`; `none` is 0.
unfoldable pub fetch_fragment_none : Bytes → InodeRec → ℕ → ℕ → Option (Bytes × ℕ)
fetch_fragment_none f rec usable comp_cap =
    if not (rec.csize == rec.dsize)
    then none
    else elim (read_at f rec.file_offset usable) [ none ↦ none | some s ↦ some (s, comp_cap) ]

-- The `dsize` bytes in `decomp_buf`.
unfoldable pub decompress : Uncompress → Bytes → InodeRec → Option Bytes
decompress uncompress f rec = elim (read_at f rec.file_offset rec.csize) [
  | none ↦ none
  | some comp ↦ of_length rec.dsize (uncompress rec.dsize comp)
]

unfoldable pub fetch_fragment_zlib :
    Outside → Uncompress → Bytes → InodeRec → ℕ → ℕ → Option (Bytes × ℕ)
fetch_fragment_zlib os uncompress f rec usable comp_cap =
    if ltb max_extracted_file_size rec.dsize
    then none
    else elim (grow_buffer os.alloc rec.csize comp_cap) [
      | none ↦ none
      | some comp_cap' ↦
          if not (os.alloc rec.dsize) then none else elim (decompress uncompress f rec) [
            | none ↦ none
            | some decomp ↦ some (take usable decomp, comp_cap')
          ]
    ]

unfoldable pub fetch_fragment : Outside → Uncompress → Bytes → InodeRec → ℕ → ℕ → Option (Bytes × ℕ)
fetch_fragment os uncompress f rec usable comp_cap =
    if rec.compr == compr_none
    then fetch_fragment_none f rec usable comp_cap
    else if rec.compr == compr_zlib
    then fetch_fragment_zlib os uncompress f rec usable comp_cap
    else none

-- A fragment of no bytes, or behind the end of the file.
abbrev pub is_skipped : ℕ → InodeRec → Bool
is_skipped final_isize rec = rec.dsize == 0 || leb final_isize rec.frag_offset

abbrev pub usable_length : ℕ → InodeRec → ℕ
usable_length final_isize rec =
    if ltb final_isize (rec.frag_offset + rec.dsize)
    then final_isize - rec.frag_offset
    else rec.dsize

-- The loop over the fragments, with `content`.
unfoldable pub replay : Outside → Uncompress → Bytes → ℕ → List InodeRec → Bytes → ℕ → Option Bytes
replay os uncompress f final_isize [] content comp_cap = some content
replay os uncompress f final_isize (rec ∷ recs) content comp_cap =
    elim (is_skipped final_isize rec) [
      | true ↦ replay os uncompress f final_isize recs content comp_cap
      | false ↦ elim (fetch_fragment os uncompress f rec (usable_length final_isize rec) comp_cap) [
        | none ↦ none
        | some (s, comp_cap') ↦
            replay os uncompress f final_isize recs (overlay content rec.frag_offset s) comp_cap'
      ]
    ]

abbrev pub zeros : ℕ → Bytes
zeros zero = []
zeros (suc n) = 0 ∷ zeros n

-- The content that `extract_regular_file` writes, from `calloc` to the end of its loop.
unfoldable pub file_content : Outside → Uncompress → Bytes → List InodeRec → ℕ → ℕ → Option Bytes
file_content os uncompress f inodes ino final_isize =
    if os.alloc final_isize
    then replay os uncompress f final_isize (inode_run inodes ino) (zeros final_isize) 0
    else none

-- `fopen` and the one `fwrite`.
unfoldable pub write_file : Outside → Bytes → Bytes → History → History × Bool
write_file os disk_path content history =
    if not (os.opens history disk_path)
    then (history, false)
    else if os.writes (create disk_path ∷ history) disk_path content
    then (write disk_path content ∷ create disk_path ∷ history, true)
    else (discard disk_path ∷ write disk_path content ∷ create disk_path ∷ history, false)

-- The `fopen` of a file of no bytes.
unfoldable pub create_empty : Outside → Bytes → History → History × Bool
create_empty os disk_path history =
    if os.opens history disk_path then (create disk_path ∷ history, true) else (history, false)

unfoldable pub extract_regular_file :
    Outside → Uncompress → Bytes → List InodeRec → ℕ → ℕ → Bytes → History → History × Bool
extract_regular_file os uncompress f inodes ino final_isize disk_path history =
    if os.is_symlink history disk_path
    then (history, false)
    else if ltb max_extracted_file_size final_isize
    then (history, false)
    else if final_isize == 0
    then create_empty os disk_path history
    else elim (file_content os uncompress f inodes ino final_isize) [
      | none ↦ (history, false)
      | some content ↦ write_file os disk_path content history
    ]
