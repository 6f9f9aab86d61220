-- ===== src/Tests/Loads.antt =====
-- Documents of rules and of a CVE dataset.
use crimp.Common.{
  Bool, Option, [], codes, false, get_elem?, if◌then◌else◌, is_nil, leb, none, refl, some, str_eq,
  strcmp, take, true, ℕ, ◌↔◌, ◌∷◌, ◌≡◌, ◌≢◌,
}
use crimp.ArrayList.{grow, push, empty, append_item}
use crimp.CveMatch.{
  match_loaded, match_document, match_entries, match_component_entry, read_component, match_cves,
  match_cve_entry, read_entry, match_loop, component_parts, make_entry, CveEntry, is_affected,
  cve_match_components,
}
use crimp.CveMatch.Findings.{Matches, dataset_items, cve_match_components-findings}
use crimp.Detector.{finding_list_add, FindingList, low, high}
use crimp.FileSystem.{FileSystem, regular}
use crimp.Inventory.{Component, ComponentList}
use crimp.Version.{version_compare, compare_segment, next_segment, parse_segment, skip_separator}
use crimp.Range.{op_holds, version_satisfies}
use crimp.Rules.{
  Rule, RuleList, move_rules, load_file, load_dir, load_document, load_rules_node, parse_items,
  parse_item, parse_rule_entry, read_rule, make_rule, rule_list_add,
}
use crimp.Rules.Load.{all_or_nothing, file_rules, load_file-all_or_nothing}
use crimp.Rules.Directory.{directory_rules, load_dir-items}
use crimp.Yaml.{
  mapping_get, find_pair, is_key, get_text, dup_scalar, str_to_lower, parse_severity, Node, scalar,
  sequence, mapping, Document, YamlLoad,
}

-- The nodes of `{components: [{name: Dropbear, cves: [{id, affected, severity, description}]}]}`.
abbrev dataset_node : ℕ → Option Node
dataset_node n =
    get_elem?
      (mapping ((1, 2) ∷ [])
        ∷ scalar (codes "components")
        ∷ sequence (3 ∷ [])
        ∷ mapping ((4, 5) ∷ (6, 7) ∷ [])
        ∷ scalar (codes "name")
        ∷ scalar (codes "Dropbear")
        ∷ scalar (codes "cves")
        ∷ sequence (8 ∷ [])
        ∷ mapping ((9, 10) ∷ (11, 12) ∷ (13, 14) ∷ (15, 16) ∷ [])
        ∷ scalar (codes "id")
        ∷ scalar (codes "CVE-2018-15599")
        ∷ scalar (codes "affected")
        ∷ scalar (codes "<2018.77")
        ∷ scalar (codes "severity")
        ∷ scalar (codes "Medium")
        ∷ scalar (codes "description")
        ∷ scalar (codes "user enumeration")
        ∷ [])
      n

abbrev dataset : Document
dataset = record { get_node = dataset_node; root = dataset_node 0 }

abbrev yaml_load : YamlLoad
yaml_load content = if is_nil content then none else some dataset

abbrev disk : FileSystem
disk = record {
  opendir = λ p. some (codes "." ∷ codes "a.YML" ∷ codes "b.txt" ∷ []);
  stat = λ p. some regular;
  read = λ p. some (codes "components:");
}

abbrev dropbear : Component
dropbear = record {
  component = codes "Dropbear";
  version = codes "2017.75";
  path = codes "r/dropbear";
}

abbrev components : ComponentList
components = record { items = dropbear ∷ []; count = 1; capacity = 16 }

abbrev no_findings : FindingList
no_findings = empty

cve_match_components-findings_example :
    Matches no_findings
      (take 1 (dropbear ∷ []))
      (dataset_items disk yaml_load (codes "d"))
      (cve_match_components disk yaml_load (codes "d") components no_findings)
cve_match_components-findings_example =
    cve_match_components-findings disk yaml_load (codes "d") components no_findings

matched_test : (cve_match_components disk yaml_load (codes "d") components no_findings).0.count ≡ 1
unfolding cve_match_components match_loaded match_document mapping_get find_pair is_key str_eq
    match_entries match_component_entry read_component dup_scalar match_cves match_cve_entry
    read_entry match_loop is_affected version_satisfies op_holds append_item grow push strcmp
    component_parts make_entry finding_list_add version_compare compare_segment next_segment
    parse_segment skip_separator str_to_lower parse_severity
matched_test = refl

abbrev cve : CveEntry
cve = record {
  id = codes "CVE-2018-15599";
  affected = codes "<2018.77";
  severity = low;
  description = codes "user enumeration";
}

abbrev all_memory : ℕ → Bool
all_memory n = true

abbrev no_rules : RuleList
no_rules = empty

load_file-all_or_nothing_example :
    load_file disk yaml_load all_memory (codes "a.yml") no_rules
    ≡ all_or_nothing (file_rules disk yaml_load (codes "a.yml")) no_rules
load_file-all_or_nothing_example =
    load_file-all_or_nothing all_memory (λ n. refl) disk yaml_load (codes "a.yml") no_rules

load_dir-items_example :
    ((load_dir disk yaml_load all_memory (codes "d") no_rules).0.items
      ≡ directory_rules disk yaml_load (codes "d") (disk.opendir (codes "d")))
    × ((load_dir disk yaml_load all_memory (codes "d") no_rules).1 ≡ true
        ↔ disk.opendir (codes "d") ≢ none)
load_dir-items_example = load_dir-items disk yaml_load all_memory (λ n. refl) (codes "d") no_rules

abbrev telnet : Rule
telnet = record {
  id = codes "telnet";
  pattern = codes "telnetd";
  description = codes "telnet server";
  severity = high;
}

abbrev seven : RuleList
seven = record {
  items = telnet ∷ telnet ∷ telnet ∷ telnet ∷ telnet ∷ telnet ∷ telnet ∷ [];
  count = 7;
  capacity = 8;
}

-- The nodes of `{rules: [r, r]}`, where `r` is the rule `telnet`.
abbrev rules_node : ℕ → Option Node
rules_node n =
    get_elem?
      (mapping ((1, 2) ∷ [])
        ∷ scalar (codes "rules")
        ∷ sequence (3 ∷ 3 ∷ [])
        ∷ mapping ((4, 5) ∷ (6, 7) ∷ (8, 9) ∷ (10, 11) ∷ [])
        ∷ scalar (codes "id")
        ∷ scalar (codes "telnet")
        ∷ scalar (codes "pattern")
        ∷ scalar (codes "telnetd")
        ∷ scalar (codes "description")
        ∷ scalar (codes "telnet server")
        ∷ scalar (codes "severity")
        ∷ scalar (codes "High")
        ∷ [])
      n

abbrev rules_load : YamlLoad
rules_load content = some (record { get_node = rules_node; root = rules_node 0 })

-- Blocks of up to eight rules.
abbrev little_memory : ℕ → Bool
little_memory n = leb n 8

kept_test :
    load_file disk rules_load little_memory (codes "r.yml") seven
    ≡ (append_item telnet seven, false)
unfolding load_file load_document load_rules_node parse_items parse_item parse_rule_entry read_rule
    make_rule rule_list_add move_rules mapping_get find_pair is_key str_eq get_text dup_scalar
    str_to_lower parse_severity append_item grow
kept_test = refl
