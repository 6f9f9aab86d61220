-- ===== src/CveMatch.antt =====
-- src/core/cve_match.c: the match of identified components against a CVE dataset.
pub mod Findings
use crimp.Common.{
  Bool, Bytes, List, Option, [], codes, false, if◌then◌else◌, is_nil, none, not, some, str_eq, take,
  true, truncate, ℕ, ◌&&◌, ◌++◌, ◌||◌, ◌∷◌,
}
use crimp.Detector.{Severity, low, FindingList, finding_list_add}
use crimp.FileSystem.{FileSystem}
use crimp.Inventory.{Component, ComponentList}
use crimp.Range.{version_satisfies}
use crimp.Yaml.{
  Node, scalar, sequence, mapping, Document, YamlLoad, mapping_get, get_text, str_to_lower,
  parse_severity,
}

-- The texts of a dataset entry, its severity with the fall back on `low`.
pub record CveEntry : Type 0 where
  pub id : Bytes
  pub affected : Bytes
  pub severity : Severity
  pub description : Bytes

abbrev pub severity_or_low : Option Severity → Severity
severity_or_low none = low
severity_or_low (some severity) = severity

-- `id && affected && affected[0] != '\0' && severity_str && description`
unfoldable pub make_entry :
    Option Bytes → Option Bytes → Option Bytes → Option Bytes → Option CveEntry
make_entry none affected severity_str description = none
make_entry (some id) none severity_str description = none
make_entry (some id) (some affected) none description = none
make_entry (some id) (some affected) (some severity_str) none = none
make_entry (some id) (some affected) (some severity_str) (some description) =
    if is_nil affected
    then none
    else some (record {
      id = id;
      affected = affected;
      severity = severity_or_low (parse_severity (str_to_lower severity_str));
      description = description;
    })

-- The part of `match_cve_entry` in front of its loop.
unfoldable pub read_entry : Document → Option Node → Option CveEntry
unfolding make_entry
read_entry doc (some (mapping pairs)) =
    let node = some (mapping pairs) in
    make_entry (get_text doc node "id") (get_text doc node "affected")
      (get_text doc node "severity") (get_text doc node "description")
read_entry doc (some (scalar value)) = none
read_entry doc (some (sequence items)) = none
read_entry doc none = none

-- Not the `continue`, and `version_satisfies`.
unfoldable pub is_affected : Bytes → CveEntry → Component → Bool
is_affected dataset_name e comp =
    not (is_nil comp.version || not (str_eq comp.component dataset_name))
    && version_satisfies comp.version e.affected

-- `snprintf(desc, sizeof(desc), "%s (%s %s, %s)", …)` into `desc[1024]`
abbrev pub describe_match : CveEntry → Component → Bytes
describe_match e comp = truncate 1024 (
    e.description
    ++ codes " ("
    ++ comp.component
    ++ codes " "
    ++ comp.version
    ++ codes ", "
    ++ comp.path
    ++ codes ")")

-- The loop over the components.
unfoldable pub match_loop : Bytes → CveEntry → List Component → FindingList → FindingList
match_loop dataset_name e [] out = out
match_loop dataset_name e (comp ∷ comps) out = elim (is_affected dataset_name e comp) [
  | false ↦ match_loop dataset_name e comps out
  | true ↦
      match_loop dataset_name e comps (finding_list_add out e.id (describe_match e comp) e.severity)
]

unfoldable pub match_cve_entry :
    Document → Option Node → List Component → Bytes → FindingList → FindingList
match_cve_entry doc cve_entry components dataset_name out = elim (read_entry doc cve_entry) [
  | none ↦ out
  | some e ↦ match_loop dataset_name e components out
]

-- The loop over the `cves` of a dataset component.
unfoldable pub match_cves : Document → List ℕ → List Component → Bytes → FindingList → FindingList
match_cves doc [] components name out = out
match_cves doc (item ∷ items) components name out =
    match_cves doc items components name
      (match_cve_entry doc (doc.get_node item) components name out)

-- The name and the items of a dataset component; `none` is the early return.
unfoldable pub component_parts : Option Bytes → Option Node → Option (Bytes × List ℕ)
component_parts none cves = none
component_parts (some name) (some (sequence items)) = some (name, items)
component_parts (some name) (some (scalar value)) = none
component_parts (some name) (some (mapping pairs)) = none
component_parts (some name) none = none

unfoldable pub read_component : Document → Option Node → Option (Bytes × List ℕ)
unfolding component_parts
read_component doc (some (mapping pairs)) =
    let node = some (mapping pairs) in
    component_parts (get_text doc node "name") (mapping_get doc node (codes "cves"))
read_component doc (some (scalar value)) = none
read_component doc (some (sequence items)) = none
read_component doc none = none

unfoldable pub match_component_entry :
    Document → Option Node → List Component → FindingList → FindingList
match_component_entry doc entry components out = elim (read_component doc entry) [
  | none ↦ out
  | some (name, items) ↦ match_cves doc items components name out
]

-- The loop over the dataset's components.
unfoldable pub match_entries : Document → List ℕ → List Component → FindingList → FindingList
match_entries doc [] components out = out
match_entries doc (item ∷ items) components out =
    match_entries doc items components
      (match_component_entry doc (doc.get_node item) components out)

unfoldable pub match_document :
    Document → Option Node → List Component → FindingList → FindingList × Bool
match_document doc (some (sequence items)) components out =
    (match_entries doc items components out, true)
match_document doc (some (scalar value)) components out = (out, false)
match_document doc (some (mapping pairs)) components out = (out, false)
match_document doc none components out = (out, false)

unfoldable pub match_loaded : Option Document → List Component → FindingList → FindingList × Bool
match_loaded none components out = (out, false)
match_loaded (some doc) components out =
    match_document doc (mapping_get doc doc.root (codes "components")) components out

-- `crimp_cve_match_components`: the findings after it, and whether it returned 0.
unfoldable pub cve_match_components :
    FileSystem → YamlLoad → Bytes → ComponentList → FindingList → FindingList × Bool
cve_match_components fs yaml_load dataset_path components out = elim (fs.read dataset_path) [
  | none ↦ (out, false)
  | some content ↦ match_loaded (yaml_load content) (take components.count components.items) out
]
