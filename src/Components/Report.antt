-- ===== src/Components/Report.antt =====
-- What `scan_file` of src/core/component_identify.c reports, and what every component list holds.
use crimp.Common.{
  All, All-append, Bytes, In, List, Option, Option-cases, [], arith, at_head, if◌then◌else◌,
  in_tail, inl, inr, is_nil, length, map, none, not, some, subst, sym, ℕ, ◌&&◌, ◌<◌, ◌∷◌, ◌≡◌, ◌≢◌,
  ◌≤◌,
}
use crimp.ArrayList.{IsValid, push-IsValid, push-items}
use crimp.Components.{
  ComponentMarker, component_markers, marker_version, text_of, add_markers, scan_file,
  identify_components,
}
use crimp.Components.Dropbear.{tokens, adjacent_version, find_isolated-adjacent}
use crimp.Components.Marker.{contains, first_version, search_loop-first_version}
use crimp.FileSystem.{FileSystem, read_file_for_scan}
use crimp.Inventory.{Component, ComponentList, initial_capacity, component_list_add}
use crimp.Inventory.Sanitize.{IsPrintable, copy_printable_safe}
use crimp.Walk.Files.{visit_all, walk_directory-invariant}
use crimp.Walk.Reach.{IsRanked, walk_directory-total}

-- What is reported of a marker: nothing unless it occurs; the version behind its first occurrence
-- that has one; else, for Dropbear, the version beside a token that names it; else no version.
abbrev pub reported_version : ComponentMarker → Bytes → Option Bytes
reported_version m buf =
    if not (is_nil (first_version m buf))
    then some (first_version m buf)
    else if contains m.marker buf && m.dropbear_version_fallback
    then some (text_of (adjacent_version (tokens buf)))
    else if contains m.marker buf
    then some []
    else none

-- What is reported of a marker that is not empty: nothing unless it occurs in the buffer; the version
-- behind its first occurrence that has one; else, if the marker has the fallback, the version beside
-- a token that names Dropbear; else that it is present without a version.
pub marker_version-reported :
    (m : ComponentMarker) (buf : Bytes)
    → m.marker ≢ []
    → marker_version m buf ≡ reported_version m buf
unfolding marker_version
marker_version-reported m buf h = rw (search_loop-first_version m buf h, find_isolated-adjacent buf)

-- An entry names a known component, and its version is safe to print.
abbrev pub IsReportable : Component → Type 0
IsReportable c =
    In c.component (map (λ m. m.component_name) component_markers)
    × IsPrintable c.version
    × (length c.version ≤ 63)

abbrev pub IsInventory : ComponentList → Type 0
IsInventory l = IsValid initial_capacity l × All IsReportable l.items

component_list_add-IsInventory :
    (l : ComponentList) (name version path : Bytes)
    → In name (map (λ m. m.component_name) component_markers)
    → IsInventory l
    → IsInventory (component_list_add l name version path)
unfolding component_list_add
component_list_add-IsInventory l name version path known (v, h) =
    let (same, printable, short) = copy_printable_safe version in
    (
      push-IsValid initial_capacity _ l (omega arith) v,
      subst (All IsReportable) (sym (push-items initial_capacity _ l))
          (All-append IsReportable l.items _ h ((known, printable, short), tt)),
    )

add_markers-IsInventory :
    (ms : List ComponentMarker) (path buf : Bytes) (l : ComponentList)
    → ((m : ComponentMarker)
        → In m ms
        → In m.component_name (map (λ m. m.component_name) component_markers))
    → IsInventory l
    → IsInventory (add_markers ms path buf l)
unfolding add_markers
add_markers-IsInventory [] path buf l known i = i
add_markers-IsInventory (m ∷ ms) path buf l known i = elim (Option-cases (marker_version m buf)) [
  | inl absent ↦
      rw (absent, add_markers)
        (add_markers-IsInventory ms path buf l (λ n k. known n (in_tail k)) i)
  | inr (version, present) ↦
      rw (present, add_markers)
        (add_markers-IsInventory ms path buf _ (λ n k. known n (in_tail k))
          (component_list_add-IsInventory l m.component_name version path (known m at_head) i))
]

In-map : {A B : Type 0} (f : A → B) (xs : List A) (x : A) → In x xs → In (f x) (map f xs)
In-map f [] x i = elim i [ ]
In-map f (x ∷ xs) _ at_head = at_head
In-map f (y ∷ xs) x (in_tail i) = in_tail (In-map f xs x i)

scan_file-IsInventory :
    (fs : FileSystem) (path : Bytes) (l : ComponentList)
    → IsInventory l
    → IsInventory (scan_file fs path l)
unfolding scan_file
scan_file-IsInventory fs path l i = elim (Option-cases (read_file_for_scan fs path)) [
  | inl closed ↦ rw (closed, scan_file) i
  | inr (buf, opened) ↦
      rw (opened, scan_file)
        (add_markers-IsInventory component_markers path buf l
          (λ m k. In-map (λ m. m.component_name) component_markers m k) i)
]

-- In a tree of finite depth, with more fuel than its depth, the identification ends, keeps the list
-- well formed, and all that it adds names one of the four known components with a version of at most
-- 63 printable bytes, whatever the files hold.
pub identify_components-IsInventory :
    (fs : FileSystem) (rank : Bytes → ℕ)
    → IsRanked fs rank
    → (fuel : ℕ) (root_path : Bytes) → rank root_path < fuel
    → (out : ComponentList) → IsInventory out
    → (out' : ComponentList) × (identify_components fs fuel root_path out ≡ some out')
      × IsInventory out'
unfolding identify_components
identify_components-IsInventory fs rank ranked fuel root_path deep out i =
    let (ps, found, e) =
      walk_directory-total fs (scan_file fs) rank ranked fuel root_path out deep in
    (
      visit_all (scan_file fs) ps out,
      e,
      walk_directory-invariant IsInventory fs (scan_file fs)
          (λ path l h. scan_file-IsInventory fs path l h) fuel root_path out _ e i,
    )
