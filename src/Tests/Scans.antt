-- ===== src/Tests/Scans.antt =====
-- Walks and scans of a small tree, the registry, and the lists that grow.
use crimp.Common.{
  Bool-cases, Bytes, In, List, Option, [], arith, at_head, codes, false, if◌then◌else◌, in_tail,
  inl, inr, length, none, refl, some, some_inj, str_eq, str_eq→eq, subst, sym, true, truncate, ℕ,
  ◌++◌, ◌+◌, ◌<◌, ◌↔◌, ◌∷◌, ◌≡◌, ◌≢◌, ◌⊎◌,
}
use crimp.ArrayList.{ArrayList, empty, empty-IsValid}
use crimp.Components.{identify_components}
use crimp.Components.Report.{IsInventory, identify_components-IsInventory}
use crimp.Detector.{FindingList, low}
use crimp.FileSystem.{FileSystem, FileKind, directory, regular, join}
use crimp.Inventory.{ComponentList}
use crimp.Inventory.Sanitize.{IsPrintable}
use crimp.PatternScan.{PatternMarker, scan_directory_for_patterns}
use crimp.PatternScan.Findings.{all_findings, HasPatterns, scan_directory_for_patterns-items}
use crimp.Registry.{
  Detector, Registry, registry_init, registry_add, registry_run_all, max_detectors,
  IsValid as IsRegistry,
}
use crimp.Registry.Laws.{bind, registry_add_lem, registry_run_all-add}
use crimp.Scan.{Environment, ScanResult, scan_result_init, scan_directory}
use crimp.Scan.Result.{rules_bit, cve_bit, scan_directory-returns}
use crimp.Walk.{entry_path, walk_directory}
use crimp.Walk.Files.{files, visit_all}
use crimp.Walk.Reach.{IsRanked, walk_directory-total}
use crimp.Walk.Whole.{Beneath, Fits, walk_directory_visits}

abbrev opendir : Bytes → Option (List Bytes)
opendir p =
    if str_eq p (codes "r")
    then some (codes "." ∷ codes "e" ∷ codes "f" ∷ [])
    else if str_eq p (codes "r/e")
    then some (codes "g" ∷ [])
    else none

abbrev stat : Bytes → Option FileKind
stat p = if str_eq p (codes "r/e") then some directory else some regular

abbrev tree : FileSystem
tree = record { opendir = opendir; stat = stat; read = λ p. some (codes "BusyBox v1.30 telnetd") }

abbrev rank : Bytes → ℕ
rank p = if str_eq p (codes "r") then 1 else 0

visited_test :
    walk_directory tree (λ p ps. ps ++ p ∷ []) 2 (codes "r") []
    ≡ some (codes "r/e/g" ∷ codes "r/f" ∷ [])
unfolding walk_directory str_eq truncate
visited_test = refl

child_e : entry_path (codes "r") (codes "e") ≡ codes "r/e"
unfolding truncate
child_e = refl

child_g : entry_path (codes "r/e") (codes "g") ≡ codes "r/e/g"
unfolding truncate
child_g = refl

directory_lem : (p : Bytes) → stat p ≡ some directory → p ≡ codes "r/e"
directory_lem p h = elim (Bool-cases (str_eq p (codes "r/e"))) [
  | inl same ↦ str_eq→eq p (codes "r/e") same
  | inr differs ↦ absurd (cc (rw differs at h))
]

leaf_lem : (name : Bytes) → In name (codes "g" ∷ []) → entry_path (codes "r/e") name ≢ codes "r/e"
leaf_lem _ at_head h = absurd (cc (child_g, h))
leaf_lem name (in_tail i) h = elim i [ ]

below_lem :
    (dir name : Bytes) (names : List Bytes)
    → str_eq dir (codes "r") ≡ false
    → opendir dir ≡ some names
    → In name names
    → entry_path dir name ≢ codes "r/e"
below_lem dir name names below opened i h = elim (Bool-cases (str_eq dir (codes "r/e"))) [
  | inl same ↦
      leaf_lem name (subst (In name) (sym (some_inj (rw (below, same) at opened))) i)
        (subst (λ d. entry_path d name ≡ codes "r/e") (str_eq→eq dir (codes "r/e") same) h)
  | inr differs ↦ absurd (cc (rw (below, differs) at opened))
]

rank_lem : rank (codes "r/e") < 1
unfolding str_eq
rank_lem = omega arith

tree-IsRanked : IsRanked tree rank
tree-IsRanked dir names opened name i plain kind =
    let same = directory_lem (entry_path dir name) kind in
    elim (Bool-cases (str_eq dir (codes "r"))) [
      | inl top ↦ rw (same, top) rank_lem
      | inr below ↦ absurd (below_lem dir name names below opened i same)
    ]

abbrev collect : Bytes → List Bytes → List Bytes
collect p ps = ps ++ p ∷ []

deep_enough : rank (codes "r") < 2
unfolding str_eq
deep_enough = omega arith

root_fits : (name : Bytes) → In name (codes "." ∷ codes "e" ∷ codes "f" ∷ []) → length name < 2
root_fits _ at_head = omega arith
root_fits _ (in_tail at_head) = omega arith
root_fits _ (in_tail (in_tail at_head)) = omega arith
root_fits name (in_tail (in_tail (in_tail i))) = elim i [ ]

leaf_fits : (name : Bytes) → In name (codes "g" ∷ []) → length name < 2
leaf_fits _ at_head = omega arith
leaf_fits name (in_tail i) = elim i [ ]

tree-Fits : Fits tree (codes "r")
tree-Fits dir entered names opened name i plain = elim (Bool-cases (str_eq dir (codes "r"))) [
  | inl top ↦
      let short = root_fits name (subst (In name) (sym (some_inj (rw top at opened))) i) in
      subst (λ d. length (join d name) < 1024) (sym (str_eq→eq dir (codes "r") top))
        (omega (arith, short))
  | inr below ↦ elim (Bool-cases (str_eq dir (codes "r/e"))) [
    | inl same ↦
        let short =
          leaf_fits name (subst (In name) (sym (some_inj (rw (below, same) at opened))) i) in
        subst (λ d. length (join d name) < 1024) (sym (str_eq→eq dir (codes "r/e") same))
          (omega (arith, short))
    | inr differs ↦ absurd (cc (rw (below, differs) at opened))
  ]
]

walk_directory_visits_example :
    (visited : List Bytes) × (walk_directory tree (λ p ps. ps ++ p ∷ []) 2 (codes "r") []
      ≡ some visited)
    × ((path : Bytes) → In path visited ↔ Beneath tree (codes "r") path)
walk_directory_visits_example =
    walk_directory_visits tree rank tree-IsRanked 2 (codes "r") deep_enough tree-Fits

walk_directory-total_example :
    (ps : List Bytes) × (files tree 2 (codes "r") ≡ some ps)
    × (walk_directory tree collect 2 (codes "r") [] ≡ some (visit_all collect ps []))
walk_directory-total_example =
    walk_directory-total tree collect rank tree-IsRanked 2 (codes "r") [] deep_enough

abbrev env : Environment
env = record { fs = tree; yaml_load = λ s. none; alloc = λ n. true; fuel = 2 }

scan_directory-returns_example :
    (r : ScanResult) × (scan_directory env (codes "r") (some (codes "rules")) none scan_result_init
      ≡ some (r, rules_bit tree (some (codes "rules")) + cve_bit env none))
    × (identify_components tree 2 (codes "r") scan_result_init.components ≡ some r.components)
scan_directory-returns_example =
    scan_directory-returns env rank tree-IsRanked (codes "r") deep_enough (some (codes "rules"))
      none scan_result_init

abbrev markers : List PatternMarker
markers =
    (record {
      pattern = codes "telnetd";
      description = codes "telnet";
      severity = low;
      name = none;
    })
    ∷ []

markers-HasPatterns : HasPatterns markers
markers-HasPatterns = (λ e. cc, tt)

abbrev no_findings : FindingList
no_findings = empty

scan_directory_for_patterns-items_example :
    (ps : List Bytes) × (out : FindingList) × (files tree 2 (codes "r") ≡ some ps)
    × (scan_directory_for_patterns tree 2 (codes "r") (codes "d") markers no_findings ≡ some out)
    × (out.items ≡ no_findings.items ++ all_findings tree (codes "d") markers ps)
scan_directory_for_patterns-items_example =
    scan_directory_for_patterns-items tree rank tree-IsRanked 2 (codes "r") deep_enough (codes "d")
      markers no_findings markers-HasPatterns

no_components : IsInventory scan_result_init.components
no_components = (empty-IsValid _, tt)

identify_components-IsInventory_example :
    (out : ComponentList) × (identify_components tree 2 (codes "r") scan_result_init.components
      ≡ some out)
    × IsInventory out
identify_components-IsInventory_example =
    identify_components-IsInventory tree rank tree-IsRanked 2 (codes "r") deep_enough
      scan_result_init.components no_components

abbrev no_numbers : ArrayList ℕ
no_numbers = empty

IsPrintable-test : IsPrintable (codes "1.30")
IsPrintable-test = (refl, (refl, (refl, (refl, tt))))

abbrev quiet : Detector
quiet = record { name = codes "quiet"; scan = λ root out. some out }

init-IsValid : IsRegistry registry_init
init-IsValid = omega arith

registry_add_lem_example :
    ((registry_add registry_init quiet ≡ none) × (registry_init.count ≡ max_detectors))
    ⊎ ((reg' : Registry) × (registry_add registry_init quiet ≡ some reg')
        × (reg'.detectors ≡ quiet ∷ [])
        × IsRegistry reg')
registry_add_lem_example = registry_add_lem registry_init quiet init-IsValid

abbrev one_detector : Registry
one_detector = record { detectors = quiet ∷ []; count = 1 }

added_test : registry_add registry_init quiet ≡ some one_detector
unfolding registry_add
added_test = refl

registry_run_all-add_example :
    registry_run_all one_detector (codes "r") no_findings
    ≡ bind (registry_run_all registry_init (codes "r") no_findings) (quiet.scan (codes "r"))
registry_run_all-add_example =
    registry_run_all-add registry_init one_detector quiet (codes "r") no_findings init-IsValid
      added_test
