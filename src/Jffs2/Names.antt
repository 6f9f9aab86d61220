-- ===== src/Jffs2/Names.antt =====
-- The order of the names and of the dirents in src/extract/jffs2.c.
use crimp.Common.{
  Bool, Bytes, Ordering, [], ap, ap₂, arith, compare, false, refl, sym, true, ℕ, ◌∙◌, ◌∷◌, ◌≡◌, ◌≤◌,
}
use crimp.Jffs2.{Dirent}
use crimp.Jffs2.Lookup.{memcmp, or_else, dirent_name_cmp, dirent_cmp, is_eq}

abbrev pub is_gt : Ordering → Bool
is_gt Ordering.lt = false
is_gt Ordering.eq = false
is_gt Ordering.gt = true

-- The next byte decides, or the rest does.
abbrev by_byte : ℕ → ℕ → Ordering → Ordering
by_byte c d later = elim (compare c d) [
  | Ordering.lt ↦ Ordering.lt
  | Ordering.eq ↦ later
  | Ordering.gt ↦ Ordering.gt
]

dirent_name_cmp_step :
    (c d : ℕ) (a b : Bytes) → dirent_name_cmp (c ∷ a) (d ∷ b) ≡ by_byte c d (dirent_name_cmp a b)
unfolding dirent_name_cmp memcmp
dirent_name_cmp_step c d a b = ground arith

by_byte_antisym :
    (c d : ℕ) (o o' : Ordering)
    → is_gt (by_byte c d o) ≡ false
    → is_gt (by_byte d c o') ≡ false
    → (c ≡ d) × (is_gt o ≡ false) × (is_gt o' ≡ false)
by_byte_antisym c d o o' h h' = ground arith

by_byte_same : (c : ℕ) (o : Ordering) → by_byte c c o ≡ o
by_byte_same c o = ground arith

by_byte_eq : (c d : ℕ) (o : Ordering) → is_eq (by_byte c d o) ≡ true → (c ≡ d) × (is_eq o ≡ true)
by_byte_eq c d o h = ground arith

pub dirent_name_cmp_antisym :
    (a b : Bytes)
    → is_gt (dirent_name_cmp a b) ≡ false
    → is_gt (dirent_name_cmp b a) ≡ false
    → a ≡ b
unfolding dirent_name_cmp memcmp
dirent_name_cmp_antisym [] [] h h' = refl
dirent_name_cmp_antisym [] (d ∷ b) h h' = absurd (ground arith)
dirent_name_cmp_antisym (c ∷ a) [] h h' = absurd (ground arith)
dirent_name_cmp_antisym (c ∷ a) (d ∷ b) h h' =
    let (e, p, p') =
      by_byte_antisym c d (dirent_name_cmp a b) (dirent_name_cmp b a)
        (rw (dirent_name_cmp_step c d a b) at h) (rw (dirent_name_cmp_step d c b a) at h') in
    ap₂ (λ x xs. x ∷ xs) e (dirent_name_cmp_antisym a b p p')

pub dirent_name_cmp_refl : (a : Bytes) → dirent_name_cmp a a ≡ Ordering.eq
unfolding dirent_name_cmp memcmp
dirent_name_cmp_refl [] = ground arith
dirent_name_cmp_refl (c ∷ a) =
    dirent_name_cmp_step c c a a ∙ by_byte_same c (dirent_name_cmp a a) ∙ dirent_name_cmp_refl a

pub dirent_name_cmp_eq : (a b : Bytes) → is_eq (dirent_name_cmp a b) ≡ true → a ≡ b
unfolding dirent_name_cmp memcmp
dirent_name_cmp_eq [] [] h = refl
dirent_name_cmp_eq [] (d ∷ b) h = absurd (ground arith)
dirent_name_cmp_eq (c ∷ a) [] h = absurd (ground arith)
dirent_name_cmp_eq (c ∷ a) (d ∷ b) h =
    let (e, p) = by_byte_eq c d (dirent_name_cmp a b) (rw (dirent_name_cmp_step c d a b) at h) in
    ap₂ (λ x xs. x ∷ xs) e (dirent_name_cmp_eq a b p)

compare_first :
    (m n : ℕ) (later : Ordering)
    → is_gt (or_else (compare m n) later) ≡ false
    → (m ≤ n) × (m ≡ n → is_gt later ≡ false)
compare_first m n later h = ground arith

compare_last : (m n : ℕ) → is_gt (compare m n) ≡ false → m ≤ n
compare_last m n h = ground arith

or_else_lem :
    (o later : Ordering)
    → is_gt (or_else o later) ≡ false
    → (is_gt o ≡ false) × (o ≡ Ordering.eq → is_gt later ≡ false)
or_else_lem Ordering.lt later h = (refl, λ e. absurd (cc))
or_else_lem Ordering.eq later h = (refl, λ _. h)
or_else_lem Ordering.gt later h = absurd (cc)

-- What the order of two dirents says.
pub dirent_cmp_lem :
    (d e : Dirent)
    → is_gt (dirent_cmp d e) ≡ false
    → (d.pino ≤ e.pino)
      × (d.pino ≡ e.pino → is_gt (dirent_name_cmp d.name e.name) ≡ false)
      × (d.pino ≡ e.pino → d.name ≡ e.name → d.version ≤ e.version)
unfolding dirent_cmp
dirent_cmp_lem d e h =
    let names = dirent_name_cmp d.name e.name in
    let (le, later) = compare_first d.pino e.pino (or_else names (compare d.version e.version)) h in
    (
      le,
      λ p. (or_else_lem names (compare d.version e.version) (later p)).0,
      λ p n. compare_last d.version e.version (
          (or_else_lem names (compare d.version e.version) (later p)).1
            (ap (dirent_name_cmp d.name) (sym n) ∙ dirent_name_cmp_refl d.name)),
    )
