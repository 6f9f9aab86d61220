-- ===== src/Rules/Load.antt =====
-- `crimp_yaml_rules_load_file` of src/core/yaml_rules.c, against a description of a file's rules.
use crimp.Common.{
  Bool, Bytes, List, Option, Option-cases, [], append-nil, append_assoc, arith, codes, false, inl,
  inr, none, refl, some, sym, true, ℕ, ◌++◌, ◌∙◌, ◌∷◌, ◌≡◌,
}
use crimp.ArrayList.{push, push-items, new_capacity, empty}
use crimp.FileSystem.{FileSystem}
use crimp.Rules.{
  Rule, RuleList, initial_capacity, rule_list_add, read_rule, parse_rule_entry, parse_item,
  parse_items, move_rules, load_rules_node, load_document, load_file,
}
use crimp.Yaml.{Node, scalar, sequence, mapping, Document, YamlLoad, mapping_get}

-- What one item of `rules` stands for.
abbrev pub item_rule : Document → Option Node → Option Rule
item_rule doc (some (mapping pairs)) = read_rule doc (some (mapping pairs))
item_rule doc (some (scalar value)) = none
item_rule doc (some (sequence items)) = none
item_rule doc none = none

abbrev pub cons_rule : Option Rule → Option (List Rule) → Option (List Rule)
cons_rule none rs = none
cons_rule (some r) none = none
cons_rule (some r) (some rs) = some (r ∷ rs)

-- All items, if every one of them is a rule.
abbrev pub all_rules : Document → List ℕ → Option (List Rule)
all_rules doc [] = some []
all_rules doc (item ∷ items) = cons_rule (item_rule doc (doc.get_node item)) (all_rules doc items)

abbrev pub node_rules : Document → Option Node → Option (List Rule)
node_rules doc (some (sequence items)) = all_rules doc items
node_rules doc (some (scalar value)) = none
node_rules doc (some (mapping pairs)) = none
node_rules doc none = none

abbrev pub document_rules : Option Document → Option (List Rule)
document_rules none = none
document_rules (some doc) = node_rules doc (mapping_get doc doc.root (codes "rules"))

-- The rules that a file defines, if it is well formed.
unfoldable pub file_rules : FileSystem → YamlLoad → Bytes → Option (List Rule)
file_rules fs yaml_load path = elim (fs.read path) [
  | none ↦ none
  | some content ↦ document_rules (yaml_load content)
]

abbrev pub push_all : List Rule → RuleList → RuleList
push_all [] l = l
push_all (r ∷ rs) l = push_all rs (push initial_capacity r l)

pub push_all-items : (rs : List Rule) (l : RuleList) → (push_all rs l).items ≡ l.items ++ rs
push_all-items [] l = sym (append-nil l.items)
push_all-items (r ∷ rs) l =
    push_all-items rs (push initial_capacity r l)
    ∙ rw (push-items initial_capacity r l) (append_assoc l.items (r ∷ []) rs)

-- The list behind the rules, or the old one with a failure.
abbrev pub all_or_nothing : Option (List Rule) → RuleList → RuleList × Bool
all_or_nothing none out = (out, false)
all_or_nothing (some rs) out = (push_all rs out, true)

module _ (alloc : ℕ → Bool) (granted : (n : ℕ) → alloc n ≡ true) where
  rule_list_add-granted :
      (l : RuleList) (r : Rule) → rule_list_add alloc l r ≡ some (push initial_capacity r l)
  unfolding rule_list_add push
  rule_list_add-granted l r = ground (arith, granted (new_capacity initial_capacity l))

  move_rules-granted :
      (rs : List Rule) (out : RuleList) → move_rules alloc rs out ≡ (push_all rs out, true)
  unfolding move_rules
  move_rules-granted [] out = refl
  move_rules-granted (r ∷ rs) out =
      rw (rule_list_add-granted out r, move_rules)
        (move_rules-granted rs (push initial_capacity r out))

  abbrev pushed : Option (List Rule) → RuleList → Option RuleList
  pushed none l = none
  pushed (some rs) l = some (push_all rs l)

  abbrev add_read : Option Rule → RuleList → Option RuleList
  add_read none l = none
  add_read (some r) l = some (push initial_capacity r l)

  parse_rule_entry-granted :
      (doc : Document) (node : Option Node) (l : RuleList)
      → parse_rule_entry alloc doc node l ≡ add_read (read_rule doc node) l
  unfolding parse_rule_entry
  parse_rule_entry-granted doc node l = elim (Option-cases (read_rule doc node)) [
    | inl bad ↦ rw (bad, parse_rule_entry)
    | inr (r, good) ↦ rw (good, parse_rule_entry) (rule_list_add-granted l r)
  ]

  parse_item-granted :
      (doc : Document) (node : Option Node) (l : RuleList)
      → parse_item alloc doc node l ≡ add_read (item_rule doc node) l
  unfolding parse_item
  parse_item-granted doc (some (mapping pairs)) l =
      parse_rule_entry-granted doc (some (mapping pairs)) l
  parse_item-granted doc (some (scalar value)) l = refl
  parse_item-granted doc (some (sequence items)) l = refl
  parse_item-granted doc none l = refl

  parse_step :
      (o : Option Rule) (rest : Option (List Rule)) (l : RuleList)
      (next : RuleList → Option RuleList)
      → ((k : RuleList) → next k ≡ pushed rest k)
      → Path
          (Option RuleList)
          (elim (add_read o l) [ none ↦ none | some k ↦ next k ])
          (pushed (cons_rule o rest) l)
  parse_step none rest l next same = refl
  parse_step (some r) none l next same = same (push initial_capacity r l)
  parse_step (some r) (some rs) l next same = same (push initial_capacity r l)

  parse_items-granted :
      (doc : Document) (items : List ℕ) (l : RuleList)
      → parse_items alloc doc items l ≡ pushed (all_rules doc items) l
  unfolding parse_items
  parse_items-granted doc [] l = refl
  parse_items-granted doc (item ∷ items) l =
      rw (parse_item-granted doc (doc.get_node item) l, parse_items)
        (parse_step (item_rule doc (doc.get_node item)) (all_rules doc items) l
          (parse_items alloc doc items) (parse_items-granted doc items))

  moved :
      (o : Option (List Rule)) (out : RuleList)
      → Path
          (RuleList × Bool)
          (elim (pushed o empty) [ none ↦ (out, false) | some p ↦ move_rules alloc p.items out ])
          (all_or_nothing o out)
  moved none out = refl
  moved (some rs) out = rw (push_all-items rs empty) (move_rules-granted rs out)

  load_rules_node-granted :
      (doc : Document) (node : Option Node) (out : RuleList)
      → load_rules_node alloc doc node out ≡ all_or_nothing (node_rules doc node) out
  unfolding load_rules_node
  load_rules_node-granted doc (some (sequence items)) out =
      rw (parse_items-granted doc items empty, load_rules_node) (moved (all_rules doc items) out)
  load_rules_node-granted doc (some (scalar value)) out = refl
  load_rules_node-granted doc (some (mapping pairs)) out = refl
  load_rules_node-granted doc none out = refl

  load_document-granted :
      (doc : Option Document) (out : RuleList)
      → load_document alloc doc out ≡ all_or_nothing (document_rules doc) out
  unfolding load_document
  load_document-granted none out = refl
  load_document-granted (some doc) out =
      load_rules_node-granted doc (mapping_get doc doc.root (codes "rules")) out

  -- While memory can be had, a file adds all of its rules in their order, or fails and adds none; it
  -- fails exactly if it cannot be read, is no YAML, has no sequence `rules`, or one item of that
  -- sequence is no rule.
  pub load_file-all_or_nothing :
      (fs : FileSystem) (yaml_load : YamlLoad) (path : Bytes) (out : RuleList)
      → load_file fs yaml_load alloc path out ≡ all_or_nothing (file_rules fs yaml_load path) out
  unfolding load_file file_rules
  load_file-all_or_nothing fs yaml_load path out = elim (Option-cases (fs.read path)) [
    | inl closed ↦ rw (closed, load_file, file_rules)
    | inr (content, opened) ↦
        rw (opened, load_file, file_rules) (load_document-granted (yaml_load content) out)
  ]
