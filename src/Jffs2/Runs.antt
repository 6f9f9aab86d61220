-- ===== src/Jffs2/Runs.antt =====
-- The runs of dirents for one name in the sorted array of src/extract/jffs2.c.
use crimp.Common.{
  All, All-In, Bool, Bool-cases, In, In-All, List, Ordering, [], ap, arith, at_head, false, in_tail,
  inl, inr, leading, sym, trailing, true, ℕ, ◌&&◌, ◌==◌, ◌∙◌, ◌∷◌, ◌≡◌, ◌≢◌, ◌≤◌,
}
use crimp.Jffs2.{Dirent}
use crimp.Jffs2.Bounds.{Ascending}
use crimp.Jffs2.Lookup.{dirent_cmp, dirent_name_cmp, is_eq, same_run, last_or}
use crimp.Jffs2.Names.{
  is_gt, dirent_name_cmp_antisym, dirent_name_cmp_refl, dirent_name_cmp_eq, dirent_cmp_lem,
}

abbrev pub Precedes : Dirent → Dirent → Type 0
Precedes d e = is_gt (dirent_cmp d e) ≡ false

-- In the order of `dirent_cmp`.
abbrev pub IsSorted : List Dirent → Type 0
IsSorted [] = Unit
IsSorted (d ∷ ds) = All (Precedes d) ds × IsSorted ds

-- No dirent for the same name in the same directory is newer.
abbrev pub Newest : List Dirent → Dirent → Type 0
Newest ds w = (e : Dirent) → In e ds → e.pino ≡ w.pino → e.name ≡ w.name → e.version ≤ w.version

-- A dirent of a directory, that no newer one replaces.
abbrev pub Latest : List Dirent → ℕ → Dirent → Type 0
Latest ds pino w = In w ds × (w.pino ≡ pino) × Newest ds w

abbrev pub DistinctNames : List Dirent → Type 0
DistinctNames [] = Unit
DistinctNames (d ∷ ds) = All (λ e. e.name ≢ d.name) ds × DistinctNames ds

pub trailing-IsSorted :
    (p : Dirent → Bool) (ds : List Dirent) → IsSorted ds → IsSorted (trailing p ds)
trailing-IsSorted p [] h = tt
trailing-IsSorted p (d ∷ ds) (a, h) = elim (Bool-cases (p d)) [
  | inl pass ↦ rw (pass, trailing) (trailing-IsSorted p ds h)
  | inr stop ↦ rw (stop, trailing) (a, h)
]

pub All-leading :
    (P : Dirent → Type 0) (p : Dirent → Bool) (ds : List Dirent) → All P ds → All P (leading p ds)
All-leading P p [] h = tt
All-leading P p (d ∷ ds) (a, h) = elim (Bool-cases (p d)) [
  | inl pass ↦ rw (pass, leading) (a, All-leading P p ds h)
  | inr stop ↦ rw (stop, leading) tt
]

pub leading-IsSorted :
    (p : Dirent → Bool) (ds : List Dirent) → IsSorted ds → IsSorted (leading p ds)
leading-IsSorted p [] h = tt
leading-IsSorted p (d ∷ ds) (a, h) = elim (Bool-cases (p d)) [
  | inl pass ↦ rw (pass, leading) (All-leading (Precedes d) p ds a, leading-IsSorted p ds h)
  | inr stop ↦ rw (stop, leading) tt
]

pub IsSorted-Ascending : (ds : List Dirent) → IsSorted ds → Ascending (λ d. d.pino) ds
IsSorted-Ascending [] h = tt
IsSorted-Ascending (d ∷ ds) (a, h) = (
  In-All (λ e. d.pino ≤ e.pino) ds (λ e i. (dirent_cmp_lem d e (All-In (Precedes d) ds a e i)).0),
  IsSorted-Ascending ds h,
)

key_test : (m n : ℕ) (o : Ordering) → ((m == n) && is_eq o) ≡ true → (m ≡ n) × (is_eq o ≡ true)
key_test m n o h = ground arith

test_key : (m n : ℕ) (o : Ordering) → m ≡ n → o ≡ Ordering.eq → ((m == n) && is_eq o) ≡ true
test_key m n o e p = rw p (ground (arith, e))

module _ (pino : ℕ) (d : Dirent) where
  -- The dirents for the name of `d` in the directory.
  abbrev pub IsSame : Dirent → Type 0
  IsSame e = (e.pino ≡ pino) × (e.name ≡ d.name)

  pub same_run-IsSame : (e : Dirent) → same_run pino d e ≡ true → IsSame e
  unfolding same_run
  same_run-IsSame e h =
      let (p, n) = key_test e.pino pino (dirent_name_cmp e.name d.name) h in
      (p, dirent_name_cmp_eq e.name d.name n)

  IsSame-same_run : (e : Dirent) → IsSame e → same_run pino d e ≡ true
  unfolding same_run
  IsSame-same_run e (p, n) =
      test_key e.pino pino (dirent_name_cmp e.name d.name) p
        (ap (λ t. dirent_name_cmp t d.name) n ∙ dirent_name_cmp_refl d.name)

  between_lem : (y e : Dirent) → d.pino ≡ pino → Precedes d y → Precedes y e → IsSame e → IsSame y
  between_lem y e at before after (p, n) =
      let (a, b, _) = dirent_cmp_lem d y before in
      let (a', b', _) = dirent_cmp_lem y e after in
      let same : y.pino ≡ pino = omega arith in
      (same, dirent_name_cmp_antisym y.name d.name (rw n at b' (omega arith)) (b (omega arith)))

  pub same_run-false : (e : Dirent) → same_run pino d e ≡ false → IsSame e → ⊥
  same_run-false e h same = absurd (cc (h, IsSame-same_run e same))

  -- A dirent behind one for another name is for another name.
  other_lem :
      (y : Dirent) (ds : List Dirent)
      → d.pino ≡ pino
      → Precedes d y
      → same_run pino d y ≡ false
      → All (Precedes y) ds
      → All (λ e. same_run pino d e ≡ false) ds
  other_lem y ds at before other after =
      In-All (λ e. same_run pino d e ≡ false) ds
        (λ e i. elim (Bool-cases (same_run pino d e)) [
          | inl same ↦ absurd (
              same_run-false y other (
                between_lem y e at before (All-In (Precedes y) ds after e i)
                  (same_run-IsSame e same)))
          | inr differs ↦ differs
        ])

  pub trailing-other :
      (ds : List Dirent)
      → d.pino ≡ pino
      → All (Precedes d) ds
      → IsSorted ds
      → All (λ e. same_run pino d e ≡ false) (trailing (same_run pino d) ds)
  trailing-other [] at a h = tt
  trailing-other (y ∷ ys) at (before, a) (after, h) = elim (Bool-cases (same_run pino d y)) [
    | inl same ↦ rw (same, trailing) (trailing-other ys at a h)
    | inr other ↦ rw (other, trailing) (other, other_lem y ys at before other after)
  ]

pub last_or-In {ℓ} : {A : Type ℓ} (a : A) (as' : List A) → In (last_or a as') (a ∷ as')
last_or-In a [] = at_head
last_or-In a (b ∷ bs) = in_tail (last_or-In b bs)

-- The last of the dirents for a name is the newest.
pub last_or-newest :
    (pino : ℕ) (d : Dirent) (x : Dirent) (xs : List Dirent)
    → IsSame pino d x
    → All (λ e. same_run pino d e ≡ true) xs
    → IsSorted (x ∷ xs)
    → (e : Dirent) → In e (x ∷ xs)
    → e.version ≤ (last_or x xs).version
last_or-newest pino d x [] same alike h e at_head = omega arith
last_or-newest pino d x [] same alike h e (in_tail i) = elim i [ ]
last_or-newest pino d x (y ∷ ys) (p, n) (alike, later) ((before, a), h) e at_head =
    let (q, m) = same_run-IsSame pino d y alike in
    let (_, _, version) = dirent_cmp_lem x y before in
    let le = version (p ∙ sym q) (n ∙ sym m) in
    omega (arith, last_or-newest pino d y ys (q, m) later h y at_head)
last_or-newest pino d x (y ∷ ys) same (alike, later) (a, h) e (in_tail i) =
    last_or-newest pino d y ys (same_run-IsSame pino d y alike) later h e i
