-- ===== src/Jffs2/Lookup.antt =====
-- src/extract/jffs2.c: the order of the records, and the searches in the sorted arrays.
use crimp.Common.{
  Bool, Bytes, List, Option, [], compare, drop, false, get_elem?, if◌then◌else◌, leading, length,
  ltb, none, some, suc, trailing, true, zero, ℕ, ◌&&◌, ◌+◌, ◌-◌, ◌/◌, ◌==◌, ◌∷◌,
}
use Prim.Native.Nat.{Ordering}
use crimp.Jffs2.{Dirent, InodeRec}

-- `memcmp` on the bytes that both texts have.
unfoldable pub memcmp : Bytes → Bytes → Ordering
memcmp [] b = Ordering.eq
memcmp (c ∷ a) [] = Ordering.eq
memcmp (c ∷ a) (d ∷ b) = elim (compare c d) [
  | Ordering.lt ↦ Ordering.lt
  | Ordering.eq ↦ memcmp a b
  | Ordering.gt ↦ Ordering.gt
]

-- `c` if it is not 0, and else what stands behind the test.
abbrev pub or_else : Ordering → Ordering → Ordering
or_else Ordering.lt later = Ordering.lt
or_else Ordering.eq later = later
or_else Ordering.gt later = Ordering.gt

unfoldable pub dirent_name_cmp : Bytes → Bytes → Ordering
dirent_name_cmp a b = or_else (memcmp a b) (compare (length a) (length b))

unfoldable pub dirent_cmp : Dirent → Dirent → Ordering
dirent_cmp da db =
    or_else (compare da.pino db.pino)
      (or_else (dirent_name_cmp da.name db.name) (compare da.version db.version))

unfoldable pub inode_rec_cmp : InodeRec → InodeRec → Ordering
inode_rec_cmp ia ib = or_else (compare ia.ino ib.ino) (compare ia.version ib.version)

-- `qsort` of the C library, for the two comparators that it is called with.
pub record Qsort : Type 0 where
  pub dirents : (Dirent → Dirent → Ordering) → List Dirent → List Dirent
  pub inodes : (InodeRec → InodeRec → Ordering) → List InodeRec → List InodeRec

module _ {A : Type 0} (key : A → ℕ) (items : List A) (k : ℕ) where
  abbrev pub key_below : Option A → Bool
  key_below none = false
  key_below (some a) = ltb (key a) k

  -- The loop of the two lower bounds; `mid` lies inside the array.
  unfoldable pub lower_bound_loop : ℕ → ℕ → ℕ → ℕ
  lower_bound_loop zero lo hi = lo
  lower_bound_loop (suc fuel) lo hi =
      let mid = lo + (hi - lo) / 2 in
      let right = lower_bound_loop fuel (mid + 1) hi in
      let left = lower_bound_loop fuel lo mid in
      if ltb lo hi then (if key_below (get_elem? items mid) then right else left) else lo

-- Every round shortens the range.
unfoldable pub dirent_lower_bound : List Dirent → ℕ → ℕ
dirent_lower_bound items pino =
    lower_bound_loop (λ d. d.pino) items pino (length items) 0 (length items)

unfoldable pub inode_lower_bound : List InodeRec → ℕ → ℕ
inode_lower_bound items ino =
    lower_bound_loop (λ r. r.ino) items ino (length items) 0 (length items)

-- The run of records of an inode.
unfoldable pub inode_run : List InodeRec → ℕ → List InodeRec
inode_run items ino = leading (λ r. r.ino == ino) (drop (inode_lower_bound items ino) items)

abbrev pub last_or {ℓ} : {A : Type ℓ} → A → List A → A
last_or a [] = a
last_or a (b ∷ bs) = last_or b bs

-- `best` at the end of the loop of `find_inode_meta`.
abbrev pub last_rec : List InodeRec → Option InodeRec
last_rec [] = none
last_rec (r ∷ rs) = some (last_or r rs)

unfoldable pub find_inode_meta : List InodeRec → ℕ → Option InodeRec
unfolding inode_run
find_inode_meta items ino = last_rec (inode_run items ino)

-- The test of `run_end`.
abbrev pub is_eq : Ordering → Bool
is_eq Ordering.lt = false
is_eq Ordering.eq = true
is_eq Ordering.gt = false

unfoldable pub same_run : ℕ → Dirent → Dirent → Bool
same_run pino d e = e.pino == pino && is_eq (dirent_name_cmp e.name d.name)

abbrev pub live : Dirent → List Dirent → List Dirent
live winner rest = if winner.ino == 0 then rest else winner ∷ rest

-- The dirents that `for_each_live_child` visits, in order, from the suffix of the array at `i` on.
-- Every round takes a record.
unfoldable pub live_loop : ℕ → ℕ → List Dirent → List Dirent
live_loop zero pino ds = []
live_loop (suc fuel) pino [] = []
live_loop (suc fuel) pino (d ∷ ds) =
    let winner = last_or d (leading (same_run pino d) ds) in
    let rest = live_loop fuel pino (trailing (same_run pino d) ds) in
    if d.pino == pino then live winner rest else []

unfoldable pub live_children : List Dirent → ℕ → List Dirent
live_children items pino =
    live_loop (length items) pino (drop (dirent_lower_bound items pino) items)
