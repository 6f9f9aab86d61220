-- ===== src/Inventory.antt =====
-- include/crimp/inventory.h and src/core/inventory.c: identified components.
pub mod Sanitize
use crimp.Common.{Bytes, [], if◌then◌else◌, is_print, ltb, ℕ, ◌+◌, ◌∷◌}
use crimp.ArrayList.{ArrayList, push}

pub record Component : Type 0 where
  pub component : Bytes
  pub version : Bytes
  pub path : Bytes

abbrev pub ComponentList : Type 0
ComponentList = ArrayList Component

-- `INITIAL_CAPACITY`
abbrev pub initial_capacity : ℕ
initial_capacity = 16

-- The copy loop of `crimp_component_list_add` into `version[64]`, with its index `vi`.
unfoldable pub copy_printable : Bytes → ℕ → Bytes
copy_printable [] vi = []
copy_printable (c ∷ s) vi =
    let kept = c ∷ copy_printable s (vi + 1) in
    let skipped = copy_printable s vi in
    if ltb vi 63 then (if is_print c then kept else skipped) else []

unfoldable pub component_list_add : ComponentList → Bytes → Bytes → Bytes → ComponentList
component_list_add list component version path =
    push initial_capacity
      (record { component = component; version = copy_printable version 0; path = path }) list
