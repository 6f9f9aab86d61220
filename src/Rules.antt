-- ===== src/Rules.antt =====
-- src/core/yaml_rules.c: user-defined rules. `alloc` says of a number of rules whether a block for
-- them can be had; `free` gives back memory that nothing reads again, and is left out.
pub mod Load
pub mod Directory
pub mod Merge
use crimp.Common.{
  Bool, Bytes, List, Option, [], codes, drop, false, if◌then◌else◌, is_nil, leb, length, ltb, map,
  none, not, some, str_eq, take, true, ℕ, ◌&&◌, ◌-◌, ◌==◌, ◌||◌, ◌∷◌,
}
use crimp.ArrayList.{ArrayList, empty, is_full, new_capacity, grow, append_item}
use crimp.Detector.{Severity, FindingList}
use crimp.FileSystem.{FileSystem, join}
use crimp.PatternScan.{PatternMarker, scan_directory_for_patterns}
use crimp.Yaml.{
  Node, scalar, sequence, mapping, Document, YamlLoad, mapping_get, get_text, str_to_lower,
  parse_severity,
}

pub record Rule : Type 0 where
  pub id : Bytes
  pub pattern : Bytes
  pub description : Bytes
  pub severity : Severity

abbrev pub RuleList : Type 0
RuleList = ArrayList Rule

-- The capacity that an empty list takes.
abbrev pub initial_capacity : ℕ
initial_capacity = 8

-- `rule_list_add`: `none` is -1, when the list is full and does not grow.
unfoldable pub rule_list_add : (ℕ → Bool) → RuleList → Rule → Option RuleList
rule_list_add alloc list r =
    if is_full list && not (alloc (new_capacity initial_capacity list))
    then none
    else some (append_item r (grow initial_capacity list))

-- The tests of `parse_rule_entry` on the four texts, behind one another as in its `&&`.
unfoldable pub make_rule : Option Bytes → Option Bytes → Option Bytes → Option Bytes → Option Rule
make_rule none pattern description severity = none
make_rule (some id) none description severity = none
make_rule (some id) (some pattern) none severity = none
make_rule (some id) (some pattern) (some description) none = none
make_rule (some id) (some pattern) (some description) (some severity_str) =
    elim (parse_severity (str_to_lower severity_str)) [
      | none ↦ none
      | some severity ↦
          if is_nil pattern
          then none
          else some (record {
            id = id;
            pattern = pattern;
            description = description;
            severity = severity;
          })
    ]

-- `parse_rule_entry` up to the addition.
unfoldable pub read_rule : Document → Option Node → Option Rule
unfolding make_rule
read_rule doc entry =
    make_rule (get_text doc entry "id") (get_text doc entry "pattern")
      (get_text doc entry "description") (get_text doc entry "severity")

unfoldable pub parse_rule_entry : (ℕ → Bool) → Document → Option Node → RuleList → Option RuleList
parse_rule_entry alloc doc entry out = elim (read_rule doc entry) [
  | none ↦ none
  | some r ↦ rule_list_add alloc out r
]

-- `!entry || entry->type != YAML_MAPPING_NODE || parse_rule_entry(…) != 0`
unfoldable pub parse_item : (ℕ → Bool) → Document → Option Node → RuleList → Option RuleList
parse_item alloc doc (some (mapping pairs)) parsed =
    parse_rule_entry alloc doc (some (mapping pairs)) parsed
parse_item alloc doc (some (scalar value)) parsed = none
parse_item alloc doc (some (sequence items)) parsed = none
parse_item alloc doc none parsed = none

-- The loop over the items of `rules`; `none` is `ok = 0`.
unfoldable pub parse_items : (ℕ → Bool) → Document → List ℕ → RuleList → Option RuleList
parse_items alloc doc [] parsed = some parsed
parse_items alloc doc (item ∷ items) parsed =
    elim (parse_item alloc doc (doc.get_node item) parsed) [
      | none ↦ none
      | some parsed' ↦ parse_items alloc doc items parsed'
    ]

-- The loop that moves the rules into `out`: the list after it, and whether it went through.
unfoldable pub move_rules : (ℕ → Bool) → List Rule → RuleList → RuleList × Bool
move_rules alloc [] out = (out, true)
move_rules alloc (r ∷ rs) out = elim (rule_list_add alloc out r) [
  | none ↦ (out, false)
  | some out' ↦ move_rules alloc rs out'
]

unfoldable pub load_rules_node : (ℕ → Bool) → Document → Option Node → RuleList → RuleList × Bool
load_rules_node alloc doc (some (sequence items)) out = elim (parse_items alloc doc items empty) [
  | none ↦ (out, false)
  | some parsed ↦ move_rules alloc parsed.items out
]
load_rules_node alloc doc (some (scalar value)) out = (out, false)
load_rules_node alloc doc (some (mapping pairs)) out = (out, false)
load_rules_node alloc doc none out = (out, false)

unfoldable pub load_document : (ℕ → Bool) → Option Document → RuleList → RuleList × Bool
load_document alloc none out = (out, false)
load_document alloc (some doc) out =
    load_rules_node alloc doc (mapping_get doc doc.root (codes "rules")) out

-- `crimp_yaml_rules_load_file`: the list after it, and whether it returned 0.
unfoldable pub load_file : FileSystem → YamlLoad → (ℕ → Bool) → Bytes → RuleList → RuleList × Bool
load_file fs yaml_load alloc path out = elim (fs.read path) [
  | none ↦ (out, false)
  | some content ↦ load_document alloc (yaml_load content) out
]

-- `ends_with_ci`
unfoldable pub ends_with_ci : Bytes → Bytes → Bool
ends_with_ci name suffix =
    if ltb (length name) (length suffix)
    then false
    else str_eq (str_to_lower (drop (length name - length suffix) name)) suffix

unfoldable pub has_yaml_extension : Bytes → Bool
unfolding ends_with_ci
has_yaml_extension name = ends_with_ci name (codes ".yaml") || ends_with_ci name (codes ".yml")

-- The `readdir` loop of `crimp_yaml_rules_load_dir`; a path that does not fit `path[1024]` and a
-- file that fails are passed over.
unfoldable pub load_names :
    FileSystem → YamlLoad → (ℕ → Bool) → Bytes → List Bytes → RuleList → RuleList
load_names fs yaml_load alloc dir_path [] out = out
load_names fs yaml_load alloc dir_path (name ∷ names) out =
    let path = join dir_path name in
    load_names fs yaml_load alloc dir_path names (
      if not (has_yaml_extension name)
      then out
      else if leb 1024 (length path)
      then out
      else (load_file fs yaml_load alloc path out).0)

-- `crimp_yaml_rules_load_dir`: the list after it, and whether it returned 0.
unfoldable pub load_dir : FileSystem → YamlLoad → (ℕ → Bool) → Bytes → RuleList → RuleList × Bool
load_dir fs yaml_load alloc dir_path out = elim (fs.opendir dir_path) [
  | none ↦ (out, false)
  | some names ↦ (load_names fs yaml_load alloc dir_path names out, true)
]

-- One marker for a rule, under the rule's own name.
abbrev pub rule_marker : Rule → PatternMarker
rule_marker r = record {
  pattern = r.pattern;
  description = r.description;
  severity = r.severity;
  name = some r.id;
}

-- `crimp_scan_directory_for_yaml_rules`
unfoldable pub scan_directory_for_yaml_rules :
    FileSystem → ℕ → (ℕ → Bool) → Bytes → RuleList → FindingList → Option FindingList
scan_directory_for_yaml_rules fs fuel alloc root_path rules out =
    if rules.count == 0
    then some out
    else if not (alloc rules.count)
    then some out
    else scan_directory_for_patterns fs fuel root_path []
        (map rule_marker (take rules.count rules.items)) out
