-- ===== src/Scan/Result.antt =====
-- The end and the return value of `crimp_scan_directory` of src/core/scan.c.
use crimp.Common.{
  All, Bool, Bool-cases, Bytes, List, Option, Option-cases, [], ap, arith, false, if◌then◌else◌,
  inl, inr, none, refl, some, suc, true, zero, ℕ, ◌+◌, ◌<◌, ◌==◌, ◌∷◌, ◌≡◌, ◌≤◌,
}
use Prim.Native.Nat.{bit_or}
use crimp.ArrayList.{empty}
use crimp.Components.{scan_file as scan_components, identify_components}
use crimp.CveMatch.Findings.{dataset_items, is_loaded, cve_match_components-findings}
use crimp.Detector.{FindingList}
use crimp.FileSystem.{FileSystem}
use crimp.Inventory.{ComponentList}
use crimp.PatternScan.{PatternMarker, scan_file, scan_directory_for_patterns}
use crimp.Registry.{Detector, registry_add, run_detectors, registry_run_all}
use crimp.Rules.{RuleList, load_dir, scan_directory_for_yaml_rules}
use crimp.Scan.{
  scan_rules_failed, ScanResult, Environment, built_in, scan_rules, scan_cves, scan_inventory,
  scan_directory,
}
use crimp.Walk.Reach.{IsRanked, walk_directory-total}

-- The bit of a rule directory that was given and cannot be opened.
abbrev pub rules_bit : FileSystem → Option Bytes → ℕ
rules_bit fs none = 0
rules_bit fs (some dir) = elim (fs.opendir dir) [ none ↦ 1 | some names ↦ 0 ]

-- The bit of a dataset that was given and cannot be loaded.
abbrev pub cve_bit : Environment → Option Bytes → ℕ
cve_bit env none = 0
cve_bit env (some path) = if is_loaded (dataset_items env.fs env.yaml_load path) then 0 else 2

load_dir-result :
    (env : Environment) (dir : Bytes) (out : RuleList)
    → (load_dir env.fs env.yaml_load env.alloc dir out).1
      ≡ elim (env.fs.opendir dir) [ none ↦ false | some names ↦ true ]
unfolding load_dir
load_dir-result env dir out = elim (Option-cases (env.fs.opendir dir)) [
  | inl closed ↦ rw (closed, load_dir)
  | inr (names, opened) ↦ rw (opened, load_dir)
]

rules_rc :
    (env : Environment) (dir : Bytes)
    → Path ℕ
        (if (load_dir env.fs env.yaml_load env.alloc dir empty).1
          then 0
          else bit_or 0 scan_rules_failed)
        (rules_bit env.fs (some dir))
rules_rc env dir = rw (load_dir-result env dir empty) (go (env.fs.opendir dir))
  where
    go :
        (o : Option (List Bytes))
        → Path ℕ
            (if elim o [ none ↦ false | some names ↦ true ] then 0 else bit_or 0 scan_rules_failed)
            (elim o [ none ↦ 1 | some names ↦ 0 ])
    go none = refl
    go (some names) = refl

or_bit : (rc : ℕ) (b : Bool) → rc ≤ 1 → (if b then rc else bit_or rc 2) ≡ rc + (if b then 0 else 2)
or_bit zero true h = refl
or_bit zero false h = refl
or_bit (suc zero) true h = refl
or_bit (suc zero) false h = refl
or_bit (suc (suc rc)) b h = absurd (omega arith)

scan_cves_rc :
    (env : Environment) (path : Option Bytes) (components : ComponentList) (findings : FindingList)
    (rc : ℕ)
    → rc ≤ 1
    → (scan_cves env path components findings rc).1 ≡ rc + cve_bit env path
unfolding scan_cves
scan_cves_rc env none components findings rc h = omega arith
scan_cves_rc env (some path) components findings rc h =
    rw ((cve_match_components-findings env.fs env.yaml_load path components findings).1)
      (or_bit rc (is_loaded (dataset_items env.fs env.yaml_load path)) h)

rules_bit-le : (fs : FileSystem) (dir : Option Bytes) → rules_bit fs dir ≤ 1
rules_bit-le fs none = omega arith
rules_bit-le fs (some dir) = go (fs.opendir dir)
  where
    go : (o : Option (List Bytes)) → (elim o [ none ↦ 1 | some names ↦ 0 ]) ≤ 1
    go none = omega arith
    go (some names) = omega arith

module _ (env : Environment) (rank : Bytes → ℕ) (ranked : IsRanked env.fs rank) (root_path : Bytes)
    (deep : rank root_path < env.fuel) where
  patterns-total :
      (name : Bytes) (ms : List PatternMarker) (out : FindingList)
      → (out' : FindingList) × (scan_directory_for_patterns env.fs env.fuel root_path name ms out
          ≡ some out')
  unfolding scan_directory_for_patterns
  patterns-total name ms out =
      let (ps, found, e) =
        walk_directory-total env.fs (scan_file env.fs name ms) rank ranked env.fuel root_path out
          deep in
      (_, e)

  identify-total :
      (out : ComponentList)
      → (out' : ComponentList) × (identify_components env.fs env.fuel root_path out ≡ some out')
  unfolding identify_components
  identify-total out =
      let (ps, found, e) =
        walk_directory-total env.fs (scan_components env.fs) rank ranked env.fuel root_path out
          deep in
      (_, e)

  abbrev Ends : Detector → Type 0
  Ends d = (out : FindingList) → (out' : FindingList) × (d.scan root_path out ≡ some out')

  run_detectors-total :
      (ds : List Detector)
      → All Ends ds
      → (out : FindingList) → (out' : FindingList) × (run_detectors ds root_path out ≡ some out')
  unfolding run_detectors
  run_detectors-total [] h out = (out, refl)
  run_detectors-total (d ∷ ds) (hd, hs) out =
      let (a, p) = hd out in
      let (b, q) = run_detectors-total ds hs a in (b, rw (p, run_detectors) q)

  run_all-total :
      (out : FindingList)
      → (out' : FindingList) × (registry_run_all (built_in env) root_path out ≡ some out')
  unfolding registry_run_all registry_add
  run_all-total out =
      run_detectors-total (built_in env).detectors
        (patterns-total _ _, (patterns-total _ _, (patterns-total _ _, tt))) out

  yaml_rules-total :
      (rules : RuleList) (out : FindingList)
      → (out' : FindingList) × (scan_directory_for_yaml_rules env.fs env.fuel env.alloc root_path
            rules out
          ≡ some out')
  unfolding scan_directory_for_yaml_rules
  yaml_rules-total rules out = elim (Bool-cases (rules.count == 0)) [
    | inl empty_list ↦ (out, rw empty_list)
    | inr some_rules ↦ elim (Bool-cases (env.alloc rules.count)) [
      | inl granted ↦ rw (some_rules, granted) (patterns-total _ _ out)
      | inr denied ↦ (out, rw (some_rules, denied))
    ]
  ]

  scan_rules-total :
      (rules_dir : Option Bytes) (out : FindingList)
      → (out' : FindingList) × (scan_rules env root_path rules_dir out 0
          ≡ some (out', rules_bit env.fs rules_dir))
  unfolding scan_rules
  scan_rules-total none out = (out, refl)
  scan_rules-total (some dir) out =
      let rules = (load_dir env.fs env.yaml_load env.alloc dir empty).0 in
      let (out', p) = yaml_rules-total rules out in
      (out', rw (p, scan_rules) (ap (λ b. some (out', b)) (rules_rc env dir)))

  -- A scan of a tree of finite depth ends, with more fuel than that depth. Its return value is 1 if
  -- the rule directory was given and cannot be opened, plus 2 if the dataset was given and cannot be
  -- loaded: each of the two bits stands for its own input. The components are those of the
  -- identification.
  pub scan_directory-returns :
      (rules_dir cve_dataset_path : Option Bytes) (result : ScanResult)
      → (r : ScanResult) × (scan_directory env root_path rules_dir cve_dataset_path result
          ≡ some (r, rules_bit env.fs rules_dir + cve_bit env cve_dataset_path))
        × (identify_components env.fs env.fuel root_path result.components ≡ some r.components)
  unfolding scan_directory scan_inventory
  scan_directory-returns rules_dir cve_dataset_path result =
      let (a, p) = run_all-total result.findings in
      let (comps, q) = identify-total result.components in
      let (b, s) = scan_rules-total rules_dir a in
      let rc = rules_bit env.fs rules_dir in
      (
        record { findings = (scan_cves env cve_dataset_path comps b rc).0; components = comps },
        rw (
          p,
          scan_directory,
          q,
          s,
          scan_inventory,
          scan_cves_rc env cve_dataset_path comps b rc (rules_bit-le env.fs rules_dir),
        ),
        q,
      )
