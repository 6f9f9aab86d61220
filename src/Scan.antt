-- ===== src/Scan.antt =====
-- src/core/scan.c: the whole scan of an extracted tree.
pub mod Result
use crimp.Common.{Bool, Bytes, Option, if◌then◌else◌, none, some, ℕ}
use Prim.Native.Nat.{bit_or}
use crimp.ArrayList.{empty}
use crimp.Components.{identify_components}
use crimp.CveMatch.{cve_match_components}
use crimp.Detector.{FindingList}
use crimp.Detectors.{detector_weak_credentials, detector_exposed_protocols, detector_weak_crypto}
use crimp.FileSystem.{FileSystem}
use crimp.Inventory.{ComponentList}
use crimp.Registry.{Detector, Registry, registry_init, registry_add, registry_run_all}
use crimp.Rules.{load_dir, scan_directory_for_yaml_rules}
use crimp.Yaml.{YamlLoad}

-- `crimp_scan_result`
pub record ScanResult : Type 0 where
  pub findings : FindingList
  pub components : ComponentList

-- `crimp_scan_result_init`
abbrev pub scan_result_init : ScanResult
scan_result_init = record { findings = empty; components = empty }

-- `CRIMP_SCAN_RULES_FAILED` and `CRIMP_SCAN_CVE_DATASET_FAILED`
abbrev pub scan_rules_failed : ℕ
scan_rules_failed = 1

abbrev pub scan_cve_dataset_failed : ℕ
scan_cve_dataset_failed = 2

-- `crimp_registry_add` with its result ignored.
abbrev pub add_or_keep : Registry → Detector → Registry
add_or_keep reg det = elim (registry_add reg det) [ none ↦ reg | some reg' ↦ reg' ]

-- What the operating system and libyaml give a scan, and the fuel of its walks.
pub record Environment : Type 0 where
  pub fs : FileSystem
  pub yaml_load : YamlLoad
  pub alloc : ℕ → Bool
  pub fuel : ℕ

abbrev pub built_in : Environment → Registry
built_in env =
    add_or_keep
      (add_or_keep (add_or_keep registry_init (detector_weak_credentials env.fs env.fuel))
        (detector_exposed_protocols env.fs env.fuel))
      (detector_weak_crypto env.fs env.fuel)

-- The block under `rules_dir != NULL`: the findings and `rc` after it.
unfoldable pub scan_rules :
    Environment → Bytes → Option Bytes → FindingList → ℕ → Option (FindingList × ℕ)
scan_rules env root_path none findings rc = some (findings, rc)
scan_rules env root_path (some rules_dir) findings rc =
    let (rules, loaded) = load_dir env.fs env.yaml_load env.alloc rules_dir empty in
    elim (scan_directory_for_yaml_rules env.fs env.fuel env.alloc root_path rules findings) [
      | none ↦ none
      | some findings' ↦ some (findings', if loaded then rc else bit_or rc scan_rules_failed)
    ]

-- The block under `cve_dataset_path != NULL`.
unfoldable pub scan_cves :
    Environment → Option Bytes → ComponentList → FindingList → ℕ → FindingList × ℕ
scan_cves env none components findings rc = (findings, rc)
scan_cves env (some path) components findings rc =
    let (findings', matched) = cve_match_components env.fs env.yaml_load path components findings in
    (findings', if matched then rc else bit_or rc scan_cve_dataset_failed)

-- What stands behind the walks of the detectors.
unfoldable pub scan_inventory :
    Environment
    → Bytes
    → Option Bytes
    → Option Bytes
    → ComponentList
    → FindingList
    → Option (ScanResult × ℕ)
scan_inventory env root_path rules_dir cve_dataset_path components findings =
    elim (scan_rules env root_path rules_dir findings 0) [
      | none ↦ none
      | some (findings', rc) ↦
          let (findings'', rc') = scan_cves env cve_dataset_path components findings' rc in
          some (record { findings = findings''; components = components }, rc')
    ]

-- `crimp_scan_directory`: the result after it and its return value; `none` means that a walk ran out
-- of fuel.
unfoldable pub scan_directory :
    Environment → Bytes → Option Bytes → Option Bytes → ScanResult → Option (ScanResult × ℕ)
scan_directory env root_path rules_dir cve_dataset_path result =
    elim (registry_run_all (built_in env) root_path result.findings) [
      | none ↦ none
      | some findings ↦ elim (identify_components env.fs env.fuel root_path result.components) [
        | none ↦ none
        | some components ↦
            scan_inventory env root_path rules_dir cve_dataset_path components findings
      ]
    ]
