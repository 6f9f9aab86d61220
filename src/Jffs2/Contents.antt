-- ===== src/Jffs2/Contents.antt =====
-- The bytes of a file of src/extract/jffs2.c, against the fragments that cover them.
use crimp.Common.{
  Bool, Bool-cases, Bytes, List, Option, Option-cases, [], ap, arith, false, get_elem?, inl, inr,
  keep, leb, length, ltb, none, refl, some, suc, sym, true, zero, ℕ, ◌&&◌, ◌+◌, ◌-◌, ◌<◌, ◌∙◌, ◌∷◌,
  ◌≡◌, ◌≤◌,
}
use crimp.Disk.{Outside}
use crimp.Image.{Uncompress}
use crimp.Jffs2.{InodeRec}
use crimp.Jffs2.Files.{
  replay, zeros, file_content, overlay, fetch_fragment, is_skipped, usable_length,
}
use crimp.Jffs2.Fetch.{
  IsFetched, source_byte, length-overlay, get_elem?-overlay, fetch_fragment-IsFetched,
}
use crimp.Jffs2.Lookup.{inode_run, last_rec}

-- Whether a fragment puts a byte at a place of a file of a size.
abbrev pub covers : ℕ → ℕ → InodeRec → Bool
covers size j rec = leb rec.frag_offset j && ltb j (rec.frag_offset + usable_length size rec)

is_skipped-covers :
    (size j : ℕ) (rec : InodeRec) → is_skipped size rec ≡ true → covers size j rec ≡ false
is_skipped-covers size j rec h = ground (arith, h)

usable_length_fits :
    (size : ℕ) (rec : InodeRec)
    → is_skipped size rec ≡ false
    → (usable_length size rec ≤ rec.dsize) × (rec.frag_offset + usable_length size rec ≤ size)
usable_length_fits size rec h = ground (arith, h)

-- The byte of the last of some fragments, or another one.
abbrev last_byte : Uncompress → Bytes → ℕ → Option ℕ → Option InodeRec → Option ℕ
last_byte uncompress f j before none = before
last_byte uncompress f j before (some rec) = source_byte uncompress f rec (j - rec.frag_offset)

last_byte-cons :
    (uncompress : Uncompress) (f : Bytes) (j : ℕ) (before : Option ℕ) (rec : InodeRec)
    (recs : List InodeRec)
    → last_byte uncompress f j (source_byte uncompress f rec (j - rec.frag_offset)) (last_rec recs)
      ≡ last_byte uncompress f j before (last_rec (rec ∷ recs))
last_byte-cons uncompress f j before rec [] = refl
last_byte-cons uncompress f j before rec (r ∷ rs) = refl

module _ (os : Outside) (uncompress : Uncompress) (f : Bytes) (size : ℕ) where
  -- A content whose bytes come from the last fragment that covers them, or else from another content.
  abbrev IsReplayed : List InodeRec → Bytes → Bytes → Type 0
  IsReplayed recs before after =
      (length after ≡ size)
      × ((j : ℕ)
          → j < size
          → get_elem? after j
            ≡ last_byte uncompress f j (get_elem? before j) (last_rec (keep (covers size j) recs)))

  skipped-IsReplayed :
      (rec : InodeRec) (recs : List InodeRec) (before after : Bytes)
      → is_skipped size rec ≡ true
      → IsReplayed recs before after
      → IsReplayed (rec ∷ recs) before after
  skipped-IsReplayed rec recs before after skip (len, bytes) =
      (len, λ j less. rw (is_skipped-covers size j rec skip, keep) (bytes j less))

  overlay-IsReplayed :
      (rec : InodeRec) (recs : List InodeRec) (before after s : Bytes)
      → length before ≡ size
      → rec.frag_offset + usable_length size rec ≤ size
      → IsFetched uncompress f rec (usable_length size rec) s
      → IsReplayed recs (overlay before rec.frag_offset s) after
      → IsReplayed (rec ∷ recs) before after
  overlay-IsReplayed rec recs before after s len fits (taken, fetched) (done, bytes) = (
    done,
    λ j less.
        let here = get_elem?-overlay before rec.frag_offset s j (omega (arith, taken, len)) in
        elim (Bool-cases (covers size j rec)) [
          | inl inside ↦
              rw (inside, keep)
                (bytes j less
                  ∙ ap (λ b. last_byte uncompress f j b (last_rec (keep (covers size j) recs)))
                      (here
                        ∙ rw (taken, inside)
                            (fetched (j - rec.frag_offset) (ground (arith, inside))))
                  ∙ last_byte-cons uncompress f j (get_elem? before j) rec
                      (keep (covers size j) recs))
          | inr outside ↦
              rw (outside, keep)
                (bytes j less
                  ∙ ap (λ b. last_byte uncompress f j b (last_rec (keep (covers size j) recs)))
                      (here ∙ rw (taken, outside) refl))
        ],
  )

  replay-IsReplayed :
      (recs : List InodeRec) (before : Bytes) (cap : ℕ) (after : Bytes)
      → length before ≡ size
      → replay os uncompress f size recs before cap ≡ some after
      → IsReplayed recs before after
  unfolding replay
  replay-IsReplayed [] before cap after len h =
      let same : before ≡ after = cc h in
      (ap length (sym same) ∙ len, λ j less. ap (λ t. get_elem? t j) (sym same))
  replay-IsReplayed (rec ∷ recs) before cap after len h = elim (Bool-cases (is_skipped size rec)) [
    | inl skip ↦
        skipped-IsReplayed rec recs before after skip
          (replay-IsReplayed recs before cap after len (rw (skip, replay) at h))
    | inr needed ↦
        elim (Option-cases (fetch_fragment os uncompress f rec (usable_length size rec) cap)) [
          | inl bad ↦ absurd (cc (rw (needed, bad, replay) at h))
          | inr ((s, cap'), good) ↦
              let (le, fits) = usable_length_fits size rec needed in
              let fetched =
                fetch_fragment-IsFetched os uncompress f rec (usable_length size rec) cap s cap' le
                  good in
              overlay-IsReplayed rec recs before after s len fits fetched (
                replay-IsReplayed recs (overlay before rec.frag_offset s) cap' after
                  (length-overlay before rec.frag_offset s (omega (arith, fetched.0, len)) ∙ len)
                  (rw (needed, good, replay) at h))
        ]
  ]

length-zeros : (n : ℕ) → length (zeros n) ≡ n
length-zeros zero = refl
length-zeros (suc n) = ap suc (length-zeros n)

get_elem?-zeros : (n j : ℕ) → j < n → get_elem? (zeros n) j ≡ some 0
get_elem?-zeros zero j h = elim h [ ]
get_elem?-zeros (suc n) zero h = refl
get_elem?-zeros (suc n) (suc j) h = get_elem?-zeros n j (omega arith)

-- The byte of a place of a file: that of the last of its fragments that cover it, or 0.
abbrev pub expected_byte : Uncompress → Bytes → List InodeRec → ℕ → ℕ → Option ℕ
expected_byte uncompress f recs size j =
    last_byte uncompress f j (some 0) (last_rec (keep (covers size j) recs))

-- The content that is put together for a file has the size that was asked for, and every byte of it is
-- the one that the last fragment covering its place holds, in the order of the array of the inode's
-- fragments, or 0 where no fragment covers the place.
pub file_content-bytes :
    (os : Outside) (uncompress : Uncompress) (f : Bytes) (inodes : List InodeRec) (ino size : ℕ)
    (content : Bytes)
    → file_content os uncompress f inodes ino size ≡ some content
    → (length content ≡ size)
      × ((j : ℕ)
          → j < size
          → get_elem? content j ≡ expected_byte uncompress f (inode_run inodes ino) size j)
unfolding file_content
file_content-bytes os uncompress f inodes ino size content h = elim (Bool-cases (os.alloc size)) [
  | inr refused ↦ absurd (cc (rw (refused, file_content) at h))
  | inl got ↦
      let (len, bytes) =
        replay-IsReplayed os uncompress f size (inode_run inodes ino) (zeros size) 0 content
          (length-zeros size) (rw (got, file_content) at h) in
      (
        len,
        λ j less.
            bytes j less
            ∙ ap
                (λ b.
                  last_byte uncompress f j b
                    (last_rec (keep (covers size j) (inode_run inodes ino))))
                (get_elem?-zeros size j less),
      )
]
