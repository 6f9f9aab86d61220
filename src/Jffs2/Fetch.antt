-- ===== src/Jffs2/Fetch.antt =====
-- The fragments of src/extract/jffs2.c, one by one: what is fetched, and where it is copied to.
use crimp.Common.{
  Bool-cases, Bytes, Option, Option-cases, ap, arith, drop, false, get_elem?, get_elem?-append_left,
  get_elem?-append_right, get_elem?-drop, get_elem?-take, if◌then◌else◌, inl, inr, leb, length,
  length-append, length-drop, length-take, ltb, none, some, take, true, ℕ, ◌&&◌, ◌++◌, ◌+◌, ◌-◌,
  ◌<◌, ◌==◌, ◌∙◌, ◌≡◌, ◌≤◌,
}
use crimp.Disk.{Outside}
use crimp.Image.{read_at, length-read_at, read_at_lem, Uncompress, grow_buffer, of_length_lem}
use crimp.Jffs2.{InodeRec}
use crimp.Jffs2.Files.{
  compr_none, compr_zlib, max_extracted_file_size, overlay, fetch_fragment_none, decompress,
  fetch_fragment_zlib, fetch_fragment,
}

pub length-overlay :
    (c : Bytes) (off : ℕ) (s : Bytes)
    → off + length s ≤ length c
    → length (overlay c off s) ≡ length c
unfolding overlay
length-overlay c off s h = omega (
  arith,
  length-append (take off c) (s ++ drop (off + length s) c),
  length-append s (drop (off + length s) c),
  length-take off c (omega arith),
  length-drop (off + length s) c,
)

-- The byte at a place, which the copied bytes cover or do not.
abbrev pub overlaid : Bytes → ℕ → Bytes → ℕ → Option ℕ
overlaid c off s j =
    if leb off j && ltb j (off + length s) then get_elem? s (j - off) else get_elem? c j

pub get_elem?-overlay :
    (c : Bytes) (off : ℕ) (s : Bytes) (j : ℕ)
    → off + length s ≤ length c
    → get_elem? (overlay c off s) j ≡ overlaid c off s j
unfolding overlay
get_elem?-overlay c off s j h =
    let before = length-take off c (omega arith) in
    elim (Bool-cases (ltb j off)) [
      | inl left ↦
          let out : (leb off j && ltb j (off + length s)) ≡ false = ground (arith, left) in
          rw out (
            get_elem?-append_left j (take off c) _ (ground (arith, left, before))
            ∙ get_elem?-take off j c (ground (arith, left)))
      | inr right ↦
          get_elem?-append_right j (take off c) (s ++ drop (off + length s) c)
            (ground (arith, right, before))
          ∙ ap (get_elem? (s ++ drop (off + length s) c)) (ap (λ n. j - n) before)
          ∙ elim (Bool-cases (ltb j (off + length s))) [
            | inl inside ↦
                let within : (leb off j && ltb j (off + length s)) ≡ true =
                  ground (arith, right, inside) in
                rw within (get_elem?-append_left (j - off) s _ (ground (arith, right, inside)))
            | inr beyond ↦
                let out : (leb off j && ltb j (off + length s)) ≡ false = ground (arith, beyond) in
                rw out (
                  get_elem?-append_right (j - off) s _ (ground (arith, right, beyond))
                  ∙ get_elem?-drop (off + length s) (j - off - length s) c
                  ∙ ap (get_elem? c) (ground (arith, right, beyond)))
          ]
    ]

-- The bytes that a fragment puts at its place.
abbrev byte_in : Option Bytes → ℕ → Option ℕ
byte_in none i = none
byte_in (some s) i = get_elem? s i

abbrev pub source_byte : Uncompress → Bytes → InodeRec → ℕ → Option ℕ
source_byte uncompress f rec i =
    if rec.compr == compr_none
    then get_elem? f (rec.file_offset + i)
    else byte_in (decompress uncompress f rec) i

decompress-length :
    (uncompress : Uncompress) (f : Bytes) (rec : InodeRec) (s : Bytes)
    → decompress uncompress f rec ≡ some s
    → length s ≡ rec.dsize
unfolding decompress
decompress-length uncompress f rec s h = elim (Option-cases (read_at f rec.file_offset rec.csize)) [
  | inl bad ↦ absurd (cc (rw (bad, decompress) at h))
  | inr (comp, good) ↦
      of_length_lem rec.dsize (uncompress rec.dsize comp) s (rw (good, decompress) at h)
]

-- What was fetched is as long as the place, and has the fragment's bytes.
abbrev pub IsFetched : Uncompress → Bytes → InodeRec → ℕ → Bytes → Type 0
IsFetched uncompress f rec usable s =
    (length s ≡ usable) × ((i : ℕ) → i < usable → get_elem? s i ≡ source_byte uncompress f rec i)

fetch_fragment_none_lem :
    (f : Bytes) (rec : InodeRec) (usable cap : ℕ) (s : Bytes) (cap' : ℕ)
    → fetch_fragment_none f rec usable cap ≡ some (s, cap')
    → read_at f rec.file_offset usable ≡ some s
unfolding fetch_fragment_none
fetch_fragment_none_lem f rec usable cap s cap' h = ground (arith, h)

fetch_fragment_zlib_lem :
    (os : Outside) (uncompress : Uncompress) (f : Bytes) (rec : InodeRec) (usable cap : ℕ)
    (s : Bytes) (cap' : ℕ)
    → fetch_fragment_zlib os uncompress f rec usable cap ≡ some (s, cap')
    → (decomp : Bytes) × (decompress uncompress f rec ≡ some decomp) × (s ≡ take usable decomp)
unfolding fetch_fragment_zlib
fetch_fragment_zlib_lem os uncompress f rec usable cap s cap' h =
    elim (Bool-cases (ltb max_extracted_file_size rec.dsize)) [
      | inl large ↦ absurd (cc (rw (large, fetch_fragment_zlib) at h))
      | inr small ↦ elim (Option-cases (grow_buffer os.alloc rec.csize cap)) [
        | inl full ↦ absurd (cc (rw (small, full, fetch_fragment_zlib) at h))
        | inr (c, grown) ↦ elim (Bool-cases (os.alloc rec.dsize)) [
          | inr refused ↦ absurd (cc (rw (small, grown, refused, fetch_fragment_zlib) at h))
          | inl got ↦ elim (Option-cases (decompress uncompress f rec)) [
            | inl bad ↦ absurd (cc (rw (small, grown, got, bad, fetch_fragment_zlib) at h))
            | inr (decomp, good) ↦
                (decomp, good, cc (rw (small, grown, got, good, fetch_fragment_zlib) at h))
          ]
        ]
      ]
    ]

pub fetch_fragment-IsFetched :
    (os : Outside) (uncompress : Uncompress) (f : Bytes) (rec : InodeRec) (usable cap : ℕ)
    (s : Bytes) (cap' : ℕ)
    → usable ≤ rec.dsize
    → fetch_fragment os uncompress f rec usable cap ≡ some (s, cap')
    → IsFetched uncompress f rec usable s
unfolding fetch_fragment
fetch_fragment-IsFetched os uncompress f rec usable cap s cap' le h =
    elim (Bool-cases (rec.compr == compr_none)) [
      | inl plain ↦
          let read =
            fetch_fragment_none_lem f rec usable cap s cap' (rw (plain, fetch_fragment) at h) in
          (
            length-read_at f rec.file_offset usable s read,
            λ i less.
                rw (plain, read_at_lem f rec.file_offset usable s read)
                  (get_elem?-take usable i (drop rec.file_offset f) less
                    ∙ get_elem?-drop rec.file_offset i f),
          )
      | inr other ↦ elim (Bool-cases (rec.compr == compr_zlib)) [
        | inr unknown ↦ absurd (cc (rw (other, unknown, fetch_fragment) at h))
        | inl zlib ↦
            let (decomp, good, e) =
              fetch_fragment_zlib_lem os uncompress f rec usable cap s cap'
                (rw (other, zlib, fetch_fragment) at h) in
            let size = decompress-length uncompress f rec decomp good in
            (
              ap length e ∙ length-take usable decomp (omega arith),
              λ i less.
                  rw (other, good)
                    (ap (λ t. get_elem? t i) e ∙ get_elem?-take usable i decomp less),
            )
      ]
    ]
