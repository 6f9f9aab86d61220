-- ===== src/Identify/Formats.antt =====
-- The formats that `crimp_fs_identify` of src/extract/identify.c tells apart.
use crimp.Common.{
  All, Bool, Bool-cases, Bytes, Option, Option-cases, [], ap, arith, codes, inl, inr, none, refl,
  some, str_eq, str_eq→eq, subst, sym, take, true, ℕ, ◌*◌, ◌+◌, ◌<◌, ◌^◌, ◌∙◌, ◌∷◌, ◌≡◌, ◌⊎◌,
}
use crimp.Cramfs.{
  FsInfo, cramfs_magic, detect_endian, super_size, read_superblock as read_cramfs,
  identify as identify_cramfs,
}
use crimp.Image.{read_at, read_at_lem}
use crimp.FsUtil.{decode_u16, decode_u32}
use crimp.Jffs2.{magic}
use crimp.Jffs2.Tree.{detect_endianness, identify as identify_jffs2}
use crimp.Squashfs.{read_superblock as read_squashfs, identify as identify_squashfs}

module _ (a b c d : ℕ) (rest : Bytes) where
  -- What the first four bytes are in each of the formats.
  abbrev StartsSquashfs : Type 0
  StartsSquashfs = (a ≡ b'h') × (b ≡ b's') × (c ≡ b'q') × (d ≡ b's')

  abbrev StartsCramfs : Type 0
  StartsCramfs =
      (d * 2 ^ 24 + c * 2 ^ 16 + b * 2 ^ 8 + a ≡ cramfs_magic)
      ⊎ (a * 2 ^ 24 + b * 2 ^ 16 + c * 2 ^ 8 + d ≡ cramfs_magic)

  abbrev StartsJffs2 : Type 0
  StartsJffs2 = (b * 2 ^ 8 + a ≡ magic) ⊎ (a * 2 ^ 8 + b ≡ magic)

  abbrev image : Bytes
  image = a ∷ b ∷ c ∷ d ∷ rest

  squashfs_starts :
      (s : Bytes) → s ≡ take 96 image → str_eq (take 4 s) (codes "hsqs") ≡ true → StartsSquashfs
  squashfs_starts s e h =
      let same : a ∷ b ∷ c ∷ d ∷ [] ≡ codes "hsqs" =
        ap (take 4) (sym e) ∙ str_eq→eq (take 4 s) (codes "hsqs") h in
      (cc same, cc same, cc same, cc same)

  cramfs_starts :
      (s : Bytes) (be : Bool) → s ≡ take super_size image → detect_endian s ≡ some be → StartsCramfs
  unfolding detect_endian decode_u32
  cramfs_starts s be e h = starts (subst (λ t. detect_endian t ≡ some be) e h)
    where
      starts : detect_endian (take super_size image) ≡ some be → StartsCramfs
      starts g = ground (arith, g)

  jffs2_starts :
      (s : Bytes) (be : Bool) → s ≡ take 2 image → detect_endianness image ≡ some be → StartsJffs2
  unfolding detect_endianness decode_u16 read_at
  jffs2_starts s be e h = ground (arith, h)

  squashfs_cramfs : StartsSquashfs → StartsCramfs → ⊥
  squashfs_cramfs (p, q, r, t) (inl e) = omega (arith, p, q, r, t, e)
  squashfs_cramfs (p, q, r, t) (inr e) = omega (arith, p, q, r, t, e)

  squashfs_jffs2 : StartsSquashfs → StartsJffs2 → ⊥
  squashfs_jffs2 (p, q, r, t) (inl e) = omega (arith, p, q, e)
  squashfs_jffs2 (p, q, r, t) (inr e) = omega (arith, p, q, e)

  cramfs_jffs2 : a < 256 → b < 256 → c < 256 → d < 256 → StartsCramfs → StartsJffs2 → ⊥
  cramfs_jffs2 ha hb hc hd (inl e) (inl g) = omega (arith, e, g)
  cramfs_jffs2 ha hb hc hd (inl e) (inr g) = omega (arith, e, g)
  cramfs_jffs2 ha hb hc hd (inr e) (inl g) = omega (arith, e, g)
  cramfs_jffs2 ha hb hc hd (inr e) (inr g) = omega (arith, e, g)

  squashfs_image : (info : FsInfo) → identify_squashfs image ≡ some info → StartsSquashfs
  unfolding identify_squashfs read_squashfs
  squashfs_image info h = elim (Option-cases (read_at image 0 96)) [
    | inl bad ↦ absurd (cc (rw (bad, identify_squashfs, read_squashfs) at h))
    | inr (s, good) ↦ elim (Bool-cases (str_eq (take 4 s) (codes "hsqs"))) [
      | inl hit ↦ squashfs_starts s (read_at_lem image 0 96 s good) hit
      | inr miss ↦ absurd (cc (rw (good, miss, identify_squashfs, read_squashfs) at h))
    ]
  ]

  cramfs_image : (info : FsInfo) → identify_cramfs image ≡ some info → StartsCramfs
  unfolding identify_cramfs read_cramfs
  cramfs_image info h = elim (Option-cases (read_at image 0 super_size)) [
    | inl bad ↦ absurd (cc (rw (bad, identify_cramfs, read_cramfs) at h))
    | inr (s, good) ↦ elim (Option-cases (detect_endian s)) [
      | inr (be, found) ↦ cramfs_starts s be (read_at_lem image 0 super_size s good) found
      | inl bad ↦ absurd (cc (rw (good, bad, identify_cramfs, read_cramfs) at h))
    ]
  ]

  jffs2_image : (bytes_used : ℕ) → identify_jffs2 image ≡ some bytes_used → StartsJffs2
  unfolding identify_jffs2
  jffs2_image bytes_used h = elim (Option-cases (detect_endianness image)) [
    | inl bad ↦ absurd (cc (rw (bad, identify_jffs2) at h))
    | inr (be, found) ↦ jffs2_starts (a ∷ b ∷ []) be refl found
  ]

refuted {ℓ} : {A : Type ℓ} (o : Option A) → ((x : A) → o ≡ some x → ⊥) → o ≡ none
refuted o h = elim (Option-cases o) [ inl e ↦ e | inr (x, e) ↦ absurd (h x e) ]

-- No image has two formats, if its elements are bytes: where `crimp_squashfs_identify` succeeds the other
-- two fail, and where `crimp_cramfs_identify` does `crimp_jffs2_identify` fails. So the order in which
-- they are tried does not matter.
pub identify_unique :
    (f : Bytes)
    → All (λ b. b < 256) f
    → ((info : FsInfo)
        → identify_squashfs f ≡ some info
        → (identify_cramfs f ≡ none) × (identify_jffs2 f ≡ none))
      × ((info : FsInfo) → identify_cramfs f ≡ some info → identify_jffs2 f ≡ none)
unfolding identify_squashfs read_squashfs identify_cramfs read_cramfs read_at
identify_unique [] h = (λ info e. absurd (cc e), λ info e. absurd (cc e))
identify_unique (a ∷ []) h = (λ info e. absurd (cc e), λ info e. absurd (cc e))
identify_unique (a ∷ b ∷ []) h = (λ info e. absurd (cc e), λ info e. absurd (cc e))
identify_unique (a ∷ b ∷ c ∷ []) h = (λ info e. absurd (cc e), λ info e. absurd (cc e))
identify_unique (a ∷ b ∷ c ∷ d ∷ rest) (ha, (hb, (hc, (hd, _)))) = (
  λ info e.
      let starts = squashfs_image a b c d rest info e in
      (
        refuted _
            (λ info' e'. squashfs_cramfs a b c d rest starts (cramfs_image a b c d rest info' e')),
        refuted _
            (λ used e'. squashfs_jffs2 a b c d rest starts (jffs2_image a b c d rest used e')),
      ),
  λ info e. refuted _ (λ used e'.
      cramfs_jffs2 a b c d rest ha hb hc hd (cramfs_image a b c d rest info e)
        (jffs2_image a b c d rest used e')),
)
