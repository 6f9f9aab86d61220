-- ===== src/PatternScan.antt =====
-- src/core/pattern_scan.c: the walk, read, match and add loop of the pattern detectors.
pub mod Findings
use crimp.Common.{
  Bytes, List, Option, [], c_str, codes, false, if◌then◌else◌, is_nil, none, some, true, truncate,
  ℕ, ◌++◌, ◌∷◌,
}
use crimp.Binstring.{strstr}
use crimp.Detector.{Severity, FindingList, finding_list_add}
use crimp.FileSystem.{FileSystem, read_file_chunk}
use crimp.Walk.{walk_directory}

-- `crimp_pattern_marker`; `name` is `none` for `NULL`.
pub record PatternMarker : Type 0 where
  pub pattern : Bytes
  pub description : Bytes
  pub severity : Severity
  pub name : Option Bytes

-- `READ_CHUNK`
abbrev pub read_chunk : ℕ
read_chunk = 65536

abbrev pub name_or : Option Bytes → Bytes → Bytes
name_or none detector_name = detector_name
name_or (some name) detector_name = name

-- `snprintf(desc, sizeof(desc), "%s (%s)", description, path)` into `desc[1024]`
abbrev pub describe : Bytes → Bytes → Bytes
describe description path = truncate 1024 (description ++ codes " (" ++ path ++ codes ")")

-- The marker loop on the text of a file.
unfoldable pub add_matches : Bytes → List PatternMarker → Bytes → Bytes → FindingList → FindingList
add_matches detector_name [] path buf out = out
add_matches detector_name (m ∷ ms) path buf out = elim (strstr (c_str buf) m.pattern) [
  | false ↦ add_matches detector_name ms path buf out
  | true ↦
      add_matches detector_name ms path buf (
        finding_list_add out (name_or m.name detector_name) (describe m.description path)
          m.severity)
]

-- `scan_file`; a file that cannot be read or is empty is passed over.
unfoldable pub scan_file :
    FileSystem → Bytes → List PatternMarker → Bytes → FindingList → FindingList
scan_file fs detector_name markers path out = elim (read_file_chunk fs path read_chunk) [
  | none ↦ out
  | some buf ↦ if is_nil buf then out else add_matches detector_name markers path buf out
]

unfoldable pub scan_directory_for_patterns :
    FileSystem → ℕ → Bytes → Bytes → List PatternMarker → FindingList → Option FindingList
scan_directory_for_patterns fs fuel root_path detector_name markers out =
    walk_directory fs (scan_file fs detector_name markers) fuel root_path out
