-- ===== src/ArrayList.antt =====
-- The growing array that src/core/finding.c, src/core/inventory.c, src/core/yaml_rules.c and
-- src/extract/fs_util.c each write out: `items` holds the entries in use, in order.

use crimp.Common.{
  Bool, List, [], arith, if◌then◌else◌, length, length-append, ℕ, ◌*◌, ◌++◌, ◌+◌, ◌<◌, ◌==◌, ◌∷◌,
  ◌≡◌, ◌≤◌,
}

pub record ArrayList (A : Type 0) : Type 0 where
  pub items : List A
  pub count : ℕ
  pub capacity : ℕ

module _ {A : Type 0} where
  -- `*_list_init`, and the state that `*_list_free` leaves.
  abbrev pub empty : ArrayList A
  empty = record { items = []; count = 0; capacity = 0 }

  abbrev pub is_full : ArrayList A → Bool
  is_full l = l.count == l.capacity

  -- `list->capacity == 0 ? INITIAL_CAPACITY : list->capacity * 2`
  abbrev pub new_capacity : ℕ → ArrayList A → ℕ
  new_capacity initial l = if l.capacity == 0 then initial else l.capacity * 2

  -- The array after the `if (list->count == list->capacity)` block.
  unfoldable pub grow : ℕ → ArrayList A → ArrayList A
  grow initial l = if is_full l then record l { capacity = new_capacity initial l } else l

  -- Writes `items[count++]`.
  unfoldable pub append_item : A → ArrayList A → ArrayList A
  append_item a l = record l { items = l.items ++ a ∷ []; count = l.count + 1 }

  unfoldable pub push : ℕ → A → ArrayList A → ArrayList A
  unfolding grow append_item
  push initial a l = append_item a (grow initial l)

  -- The entries in use lie inside the allocation, which is never more than twice as long.
  pub record IsValid (initial : ℕ) (l : ArrayList A) : Type 0 where
    pub counted : length l.items ≡ l.count
    pub within : l.count ≤ l.capacity
    pub tight : l.capacity ≤ initial + 2 * l.count

  pub empty-IsValid : (initial : ℕ) → IsValid initial empty
  empty-IsValid initial = omega arith

  -- For an initial capacity that is not zero, appending keeps the entries in use inside the
  -- allocation, their count right, and the allocation at most twice as long.
  pub push-IsValid :
      (initial : ℕ) (a : A) (l : ArrayList A)
      → 0 < initial
      → IsValid initial l
      → IsValid initial (push initial a l)
  unfolding push
  push-IsValid initial a l pos v = ground (arith, length-append l.items (a ∷ []))

  pub push-items :
      (initial : ℕ) (a : A) (l : ArrayList A) → (push initial a l).items ≡ l.items ++ a ∷ []
  unfolding push
  push-items initial a l = ground arith
