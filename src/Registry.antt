-- ===== src/Registry.antt =====
-- src/core/registry.c: the table of detectors.
pub mod Laws
use crimp.Common.{
  Bytes, List, Option, [], if◌then◌else◌, leb, length, none, some, take, ℕ, ◌++◌, ◌+◌, ◌∷◌, ◌≡◌,
  ◌≤◌,
}
use crimp.Detector.{FindingList}

-- `crimp_detector`; a scan that needs more fuel than it is given yields `none`.
pub record Detector : Type 0 where
  pub name : Bytes
  pub scan : Bytes → FindingList → Option FindingList

-- `CRIMP_MAX_DETECTORS`
abbrev pub max_detectors : ℕ
max_detectors = 64

-- `crimp_registry`: the first `count` slots.
pub record Registry : Type 0 where
  pub detectors : List Detector
  pub count : ℕ

-- `crimp_registry_init`
abbrev pub registry_init : Registry
registry_init = record { detectors = []; count = 0 }

-- `none` is -1: the table is full.
unfoldable pub registry_add : Registry → Detector → Option Registry
registry_add reg det =
    if leb max_detectors reg.count
    then none
    else some (record reg { detectors = reg.detectors ++ det ∷ []; count = reg.count + 1 })

unfoldable pub run_detectors : List Detector → Bytes → FindingList → Option FindingList
run_detectors [] root_path out = some out
run_detectors (d ∷ ds) root_path out = elim (d.scan root_path out) [
  | none ↦ none
  | some out' ↦ run_detectors ds root_path out'
]

unfoldable pub registry_run_all : Registry → Bytes → FindingList → Option FindingList
unfolding run_detectors
registry_run_all reg root_path out = run_detectors (take reg.count reg.detectors) root_path out

-- The slots in use are counted, and lie inside the table.
pub record IsValid (reg : Registry) : Type 0 where
  pub counted : length reg.detectors ≡ reg.count
  pub within : reg.count ≤ max_detectors
