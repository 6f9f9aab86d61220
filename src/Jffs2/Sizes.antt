-- ===== src/Jffs2/Sizes.antt =====
-- How much `extract_regular_file` of src/extract/jffs2.c writes.
use crimp.Common.{
  Bool-cases, Bytes, List, Option-cases, arith, inl, inr, length, ltb, refl, subst, ℕ, ◌==◌, ◌∷◌,
  ◌≡◌,
}
use crimp.Disk.{create, History, Outside}
use crimp.Disk.Writes.{Extracted}
use crimp.Image.{Uncompress}
use crimp.Jffs2.{InodeRec}
use crimp.Jffs2.Contents.{file_content-bytes}
use crimp.Jffs2.Files.{
  max_extracted_file_size, file_content, write_file, create_empty, extract_regular_file,
}

write_file-Extracted :
    (os : Outside) (path content : Bytes) (history : History)
    → Extracted (length content) path history (write_file os path content history)
unfolding write_file
write_file-Extracted os path content history = elim (Bool-cases (os.opens history path)) [
  | inr shut ↦ rw (shut, write_file) (inr (refl, inl refl))
  | inl opened ↦ elim (Bool-cases (os.writes (create path ∷ history) path content)) [
    | inl good ↦ rw (opened, good, write_file) (inl (refl, omega arith))
    | inr bad ↦ rw (opened, bad, write_file) (inr (refl, inr (_, refl)))
  ]
]

create_empty-Extracted :
    (os : Outside) (path : Bytes) (history : History)
    → Extracted 0 path history (create_empty os path history)
unfolding create_empty
create_empty-Extracted os path history = elim (Bool-cases (os.opens history path)) [
  | inl opened ↦ rw (opened, create_empty) (inl (refl, omega arith))
  | inr shut ↦ rw (shut, create_empty) (inr (refl, inl refl))
]

-- A file is extracted whole, with as many bytes as its inode says, or the extraction fails: then it
-- changed nothing, or its last call removed the file that it had begun.
pub extract_regular_file_ends :
    (os : Outside) (uncompress : Uncompress) (f : Bytes) (inodes : List InodeRec) (ino size : ℕ)
    (path : Bytes) (history : History)
    → Extracted size path history
        (extract_regular_file os uncompress f inodes ino size path history)
unfolding extract_regular_file
extract_regular_file_ends os uncompress f inodes ino size path history =
    elim (Bool-cases (os.is_symlink history path)) [
      | inl link ↦ rw (link, extract_regular_file) (inr (refl, inl refl))
      | inr plain ↦ elim (Bool-cases (ltb max_extracted_file_size size)) [
        | inl large ↦ rw (plain, large, extract_regular_file) (inr (refl, inl refl))
        | inr small ↦ elim (Bool-cases (size == 0)) [
          | inl nothing ↦
              let empty_size : size ≡ 0 = ground (arith, nothing) in
              rw (plain, small, nothing, extract_regular_file, empty_size)
                (create_empty-Extracted os path history)
          | inr some_left ↦ elim (Option-cases (file_content os uncompress f inodes ino size)) [
            | inl bad ↦
                rw (plain, small, some_left, bad, extract_regular_file) (inr (refl, inl refl))
            | inr (content, good) ↦
                let (len, _) = file_content-bytes os uncompress f inodes ino size content good in
                rw (plain, small, some_left, good, extract_regular_file)
                  (subst (λ n. Extracted n path history (write_file os path content history)) len
                    (write_file-Extracted os path content history))
          ]
        ]
      ]
    ]
