-- ===== src/Inventory/Sanitize.antt =====
-- What `crimp_component_list_add` stores of a version text.
use crimp.Common.{
  All, Bytes, [], arith, is_print, keep, length, length-take_le, refl, suc, take, take-all, true,
  zero, ℕ, ◌++◌, ◌+◌, ◌∷◌, ◌≡◌, ◌≤◌,
}
use crimp.ArrayList.{push-items}
use crimp.Inventory.{ComponentList, copy_printable, component_list_add}

copy_printable_lem :
    (s : Bytes) (vi k : ℕ) → vi + k ≡ 63 → copy_printable s vi ≡ take k (keep is_print s)
unfolding copy_printable
copy_printable_lem [] vi zero e = refl
copy_printable_lem [] vi (suc k) e = refl
copy_printable_lem (c ∷ s) vi zero e = ground arith
copy_printable_lem (c ∷ s) vi (suc k) e =
    ground (arith, copy_printable_lem s (vi + 1) k, copy_printable_lem s vi (suc k))

abbrev pub IsPrintable : Bytes → Type 0
IsPrintable = All (λ c. is_print c ≡ true)

keep-IsPrintable : (s : Bytes) → IsPrintable (keep is_print s)
keep-IsPrintable [] = tt
keep-IsPrintable (c ∷ s) = ground (arith, keep-IsPrintable s)

take-IsPrintable : (k : ℕ) (s : Bytes) → IsPrintable s → IsPrintable (take k s)
take-IsPrintable zero s h = tt
take-IsPrintable (suc k) [] h = tt
take-IsPrintable (suc k) (c ∷ s) (p, h) = (p, take-IsPrintable k s h)

keep-IsPrintable_id : (s : Bytes) → IsPrintable s → keep is_print s ≡ s
keep-IsPrintable_id [] h = refl
keep-IsPrintable_id (c ∷ s) (p, h) = ground (arith, keep-IsPrintable_id s h)

-- Whatever the firmware holds, the stored version is at most 63 printable bytes, so that it cannot
-- forge lines of a report: it is the first 63 of the printable bytes, in order.
pub copy_printable_safe :
    (s : Bytes)
    → (copy_printable s 0 ≡ take 63 (keep is_print s))
      × IsPrintable (copy_printable s 0)
      × (length (copy_printable s 0) ≤ 63)
copy_printable_safe s =
    rw (copy_printable_lem s 0 63 refl)
      (refl, take-IsPrintable 63 _ (keep-IsPrintable s), length-take_le 63 (keep is_print s))

-- A printable version of at most 63 bytes is stored unchanged, behind the entries that were there.
pub component_list_add-items :
    (list : ComponentList) (component version path : Bytes)
    → IsPrintable version
    → length version ≤ 63
    → (component_list_add list component version path).items
      ≡ list.items ++ (record { component = component; version = version; path = path }) ∷ []
unfolding component_list_add
component_list_add-items list component version path printable short =
    rw
      (
        copy_printable_lem version 0 63 refl,
        keep-IsPrintable_id version printable,
        take-all 63 version short,
      )
      (push-items _ _ list)
