-- ===== src/Yaml.antt =====
-- src/core/yaml_util.c over the node tree of libyaml. The parser of libyaml is a parameter: it turns
-- the bytes of a file into a document, or fails.
use crimp.Common.{
  Bool, Bytes, List, Option, String, [], c_str, codes, false, fold_case, if◌then◌else◌, length,
  none, some, str_eq, true, ℕ, ◌&&◌, ◌==◌, ◌∷◌,
}
use crimp.Detector.{Severity, low, medium, high, critical}

-- `yaml_node_t`: items and pairs name nodes of the document by number.
pub data Node : Type 0 where
  scalar : Bytes → Node
  sequence : List ℕ → Node
  mapping : List (ℕ × ℕ) → Node

-- `yaml_document_t`, with `yaml_document_get_node` and `yaml_document_get_root_node`.
pub record Document : Type 0 where
  pub get_node : ℕ → Option Node
  pub root : Option Node

-- `yaml_parser_initialize`, `yaml_parser_set_input_file` and `yaml_parser_load`.
abbrev pub YamlLoad : Type 0
YamlLoad = Bytes → Option Document

-- The C string that the copy of a scalar holds.
unfoldable pub dup_scalar : Option Node → Option Bytes
dup_scalar (some (scalar value)) = some (c_str value)
dup_scalar (some (sequence items)) = none
dup_scalar (some (mapping pairs)) = none
dup_scalar none = none

-- `key_node && key_node->type == YAML_SCALAR_NODE` with the length and the bytes of `key`
unfoldable pub is_key : Bytes → Option Node → Bool
is_key key (some (scalar value)) = length value == length key && str_eq value key
is_key key (some (sequence items)) = false
is_key key (some (mapping pairs)) = false
is_key key none = false

-- The loop over the pairs.
unfoldable pub find_pair : Document → List (ℕ × ℕ) → Bytes → Option Node
find_pair doc [] key = none
find_pair doc ((k, v) ∷ pairs) key = elim (is_key key (doc.get_node k)) [
  | true ↦ doc.get_node v
  | false ↦ find_pair doc pairs key
]

unfoldable pub mapping_get : Document → Option Node → Bytes → Option Node
mapping_get doc (some (mapping pairs)) key = find_pair doc pairs key
mapping_get doc (some (scalar value)) key = none
mapping_get doc (some (sequence items)) key = none
mapping_get doc none key = none

-- `crimp_yaml_dup_scalar(crimp_yaml_mapping_get(doc, node, key))`
abbrev pub get_text : Document → Option Node → String → Option Bytes
get_text doc node key = dup_scalar (mapping_get doc node (codes key))

unfoldable pub str_to_lower : Bytes → Bytes
str_to_lower [] = []
str_to_lower (c ∷ s) = fold_case c ∷ str_to_lower s

-- `none` is -1.
unfoldable pub parse_severity : Bytes → Option Severity
parse_severity s =
    if str_eq s (codes "low")
    then some low
    else if str_eq s (codes "medium")
    then some medium
    else if str_eq s (codes "high")
    then some high
    else if str_eq s (codes "critical")
    then some critical
    else none
