-- ===== src/Jffs2/Bounds.antt =====
-- The binary searches of src/extract/jffs2.c.
use crimp.Common.{
  All, Bool-cases, List, [], ap, arith, drop, drop-leading, false, get_elem?, inl, inr, keep,
  leading, length, length-leading_le, ltb, refl, suc, sym, trailing, true, zero, ℕ, ◌+◌, ◌-◌, ◌/◌,
  ◌==◌, ◌∙◌, ◌∷◌, ◌≡◌, ◌≤◌,
}
use crimp.Jffs2.{Dirent, InodeRec}
use crimp.Jffs2.Lookup.{
  key_below, lower_bound_loop, dirent_lower_bound, inode_lower_bound, inode_run,
}

module _ {A : Type 0} (key : A → ℕ) where
  -- The keys do not descend.
  abbrev pub Ascending : List A → Type 0
  Ascending [] = Unit
  Ascending (x ∷ xs) = All (λ y. key x ≤ key y) xs × Ascending xs

  key_below_none :
      (k : ℕ) (x : A) (xs : List A) (i : ℕ)
      → ltb (key x) k ≡ false
      → All (λ y. key x ≤ key y) xs
      → key_below key xs k (get_elem? xs i) ≡ false
  key_below_none k x [] i h a = refl
  key_below_none k x (y ∷ ys) zero h (a, later) = ground (arith, h, a)
  key_below_none k x (y ∷ ys) (suc i) h (a, later) = key_below_none k x ys i h later

  key_below_first :
      (k : ℕ) (x : A) (xs : List A) (i : ℕ)
      → ltb (key x) k ≡ false
      → All (λ y. key x ≤ key y) xs
      → key_below key (x ∷ xs) k (get_elem? (x ∷ xs) i) ≡ ltb i 0
  key_below_first k x xs zero h a = h
  key_below_first k x xs (suc i) h a = key_below_none k x xs i h a ∙ ground arith

  key_below_later :
      (k : ℕ) (x : A) (xs : List A) (i : ℕ)
      → ltb (key x) k ≡ true
      → ((j : ℕ)
          → key_below key xs k (get_elem? xs j) ≡ ltb j (length (leading (λ x. ltb (key x) k) xs)))
      → key_below key (x ∷ xs) k (get_elem? (x ∷ xs) i)
        ≡ ltb i (suc (length (leading (λ x. ltb (key x) k) xs)))
  key_below_later k x xs zero h ih = h ∙ ground arith
  key_below_later k x xs (suc i) h ih = ih i ∙ ground arith

  key_below_lem :
      (k : ℕ) (xs : List A) (i : ℕ)
      → Ascending xs
      → key_below key xs k (get_elem? xs i) ≡ ltb i (length (leading (λ x. ltb (key x) k) xs))
  key_below_lem k [] i h = ground arith
  key_below_lem k (x ∷ xs) i (a, h) = elim (Bool-cases (ltb (key x) k)) [
    | inr above ↦ rw (above, length) (key_below_first k x xs i above a)
    | inl below ↦ rw (below, length) (key_below_later k x xs i below (λ j. key_below_lem k xs j h))
  ]

  lower_bound_loop_lem :
      (items : List A) (k n fuel lo hi : ℕ)
      → ((i : ℕ) → key_below key items k (get_elem? items i) ≡ ltb i n)
      → lo ≤ n
      → n ≤ hi
      → hi ≤ lo + fuel
      → lower_bound_loop key items k fuel lo hi ≡ n
  unfolding lower_bound_loop
  lower_bound_loop_lem items k n zero lo hi h a b c = omega arith
  lower_bound_loop_lem items k n (suc fuel) lo hi h a b c =
      let mid = lo + (hi - lo) / 2 in
      elim (Bool-cases (ltb lo hi)) [
        | inr done ↦ rw (done, lower_bound_loop) (ground (arith, done))
        | inl more ↦ elim (Bool-cases (ltb mid n)) [
          | inl right ↦
              rw (more, lower_bound_loop, h mid, right)
                (lower_bound_loop_lem items k n fuel (mid + 1) hi h (ground (arith, right)) b
                  (omega arith))
          | inr left ↦
              rw (more, lower_bound_loop, h mid, left)
                (lower_bound_loop_lem items k n fuel lo mid h a (ground (arith, left))
                  (ground (arith, more)))
        ]
      ]

  lower_bound_lem :
      (items : List A) (k : ℕ)
      → Ascending items
      → lower_bound_loop key items k (length items) 0 (length items)
        ≡ length (leading (λ x. ltb (key x) k) items)
  lower_bound_lem items k h =
      lower_bound_loop_lem items k _ (length items) 0 (length items)
        (λ i. key_below_lem k items i h) (omega arith)
        (length-leading_le (λ x. ltb (key x) k) items) (omega arith)

  keep-above :
      (k : ℕ) (x : A) (xs : List A)
      → ltb k (key x) ≡ true
      → All (λ y. key x ≤ key y) xs
      → keep (λ r. key r == k) xs ≡ []
  keep-above k x [] h a = refl
  keep-above k x (y ∷ ys) h (a, later) =
      let other : (key y == k) ≡ false = ground (arith, h, a) in
      rw (other, keep) (keep-above k x ys h later)

  leading-at_lem :
      (k : ℕ) (xs : List A)
      → Ascending xs
      → All (λ y. k ≤ key y) xs
      → leading (λ r. key r == k) xs ≡ keep (λ r. key r == k) xs
  leading-at_lem k [] h a = refl
  leading-at_lem k (x ∷ xs) (le, h) (least, a) = elim (Bool-cases (key x == k)) [
    | inl here ↦ rw (here, leading, keep) (ap (λ r. x ∷ r) (leading-at_lem k xs h a))
    | inr beyond ↦
        rw (beyond, leading, keep) (sym (keep-above k x xs (ground (arith, beyond, least)) le))
  ]

  All-least :
      (k : ℕ) (x : A) (xs : List A)
      → k ≤ key x
      → All (λ y. key x ≤ key y) xs
      → All (λ y. k ≤ key y) xs
  All-least k x [] h a = tt
  All-least k x (y ∷ ys) h (a, later) = (omega arith, All-least k x ys h later)

  -- The run of the records with a key, which the search finds.
  pub leading-trailing_lem :
      (k : ℕ) (xs : List A)
      → Ascending xs
      → leading (λ r. key r == k) (trailing (λ x. ltb (key x) k) xs) ≡ keep (λ r. key r == k) xs
  leading-trailing_lem k [] h = refl
  leading-trailing_lem k (x ∷ xs) (le, h) = elim (Bool-cases (ltb (key x) k)) [
    | inl below ↦
        let other : (key x == k) ≡ false = ground (arith, below) in
        rw (below, other, trailing, keep) (leading-trailing_lem k xs h)
    | inr above ↦
        let least : k ≤ key x = ground (arith, above) in
        rw (above, trailing) (leading-at_lem k (x ∷ xs) (le, h) (least, All-least k x xs least le))
  ]

-- On dirents in the order of their parents, the binary search passes the dirents of smaller parents
-- and no others: what is left starts with the first dirent whose parent is not smaller.
pub drop-dirent_lower_bound :
    (items : List Dirent) (pino : ℕ)
    → Ascending (λ d. d.pino) items
    → drop (dirent_lower_bound items pino) items ≡ trailing (λ d. ltb d.pino pino) items
unfolding dirent_lower_bound
drop-dirent_lower_bound items pino h =
    ap (λ n. drop n items) (lower_bound_lem (λ d. d.pino) items pino h)
    ∙ drop-leading (λ d. ltb d.pino pino) items

pub drop-inode_lower_bound :
    (items : List InodeRec) (ino : ℕ)
    → Ascending (λ r. r.ino) items
    → drop (inode_lower_bound items ino) items ≡ trailing (λ r. ltb r.ino ino) items
unfolding inode_lower_bound
drop-inode_lower_bound items ino h =
    ap (λ n. drop n items) (lower_bound_lem (λ r. r.ino) items ino h)
    ∙ drop-leading (λ r. ltb r.ino ino) items

-- On records in the order of their inodes, the run that the search finds is every record of the inode,
-- in that order.
pub inode_run-keep :
    (items : List InodeRec) (ino : ℕ)
    → Ascending (λ r. r.ino) items
    → inode_run items ino ≡ keep (λ r. r.ino == ino) items
unfolding inode_run
inode_run-keep items ino h =
    ap (leading (λ r. r.ino == ino)) (drop-inode_lower_bound items ino h)
    ∙ leading-trailing_lem (λ r. r.ino) ino items h
