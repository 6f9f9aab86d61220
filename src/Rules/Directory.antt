-- ===== src/Rules/Directory.antt =====
-- `crimp_yaml_rules_load_dir` of src/core/yaml_rules.c, and the patterns of a file's rules.
use crimp.Common.{
  All, Bool, Bytes, List, Option, Option-cases, [], ap, append-nil, append_assoc, arith,
  if◌then◌else◌, inl, inr, leb, length, ltb, none, not, refl, some, some_inj, subst, sym, true, ℕ,
  ◌&&◌, ◌++◌, ◌↔◌, ◌∙◌, ◌∷◌, ◌≡◌, ◌≢◌,
}
use crimp.FileSystem.{FileSystem, join}
use crimp.Rules.{
  Rule, RuleList, make_rule, read_rule, load_file, has_yaml_extension, load_names, load_dir,
}
use crimp.Rules.Load.{
  file_rules, push_all-items, all_or_nothing, load_file-all_or_nothing, item_rule, cons_rule,
  all_rules, node_rules, document_rules,
}
use crimp.Yaml.{Node, scalar, sequence, mapping, Document, YamlLoad, str_to_lower, parse_severity}

abbrev pub rules_or_none : Option (List Rule) → List Rule
rules_or_none none = []
rules_or_none (some rs) = rs

-- The rules that one name of a directory contributes.
abbrev pub name_rules : FileSystem → YamlLoad → Bytes → Bytes → List Rule
name_rules fs yaml_load dir_path name =
    if has_yaml_extension name && ltb (length (join dir_path name)) 1024
    then rules_or_none (file_rules fs yaml_load (join dir_path name))
    else []

abbrev pub names_rules : FileSystem → YamlLoad → Bytes → List Bytes → List Rule
names_rules fs yaml_load dir_path [] = []
names_rules fs yaml_load dir_path (name ∷ names) =
    name_rules fs yaml_load dir_path name ++ names_rules fs yaml_load dir_path names

abbrev pub directory_rules : FileSystem → YamlLoad → Bytes → Option (List Bytes) → List Rule
directory_rules fs yaml_load dir_path none = []
directory_rules fs yaml_load dir_path (some names) = names_rules fs yaml_load dir_path names

module _ (fs : FileSystem) (yaml_load : YamlLoad) (alloc : ℕ → Bool)
    (granted : (n : ℕ) → alloc n ≡ true) where
  all_or_nothing-items :
      (o : Option (List Rule)) (out : RuleList)
      → (all_or_nothing o out).0.items ≡ out.items ++ rules_or_none o
  all_or_nothing-items none out = sym (append-nil out.items)
  all_or_nothing-items (some rs) out = push_all-items rs out

  load_file-items :
      (path : Bytes) (out : RuleList)
      → (load_file fs yaml_load alloc path out).0.items
        ≡ out.items ++ rules_or_none (file_rules fs yaml_load path)
  load_file-items path out =
      rw (load_file-all_or_nothing alloc granted fs yaml_load path out)
        (all_or_nothing-items (file_rules fs yaml_load path) out)

  load_name-items :
      (dir_path name : Bytes) (out : RuleList)
      → (if not (has_yaml_extension name)
          then out
          else if leb 1024 (length (join dir_path name))
          then out
          else (load_file fs yaml_load alloc (join dir_path name) out).0).items
        ≡ out.items ++ name_rules fs yaml_load dir_path name
  load_name-items dir_path name out =
      ground (arith, load_file-items (join dir_path name) out, append-nil out.items)

  load_names-items :
      (dir_path : Bytes) (names : List Bytes) (out : RuleList)
      → (load_names fs yaml_load alloc dir_path names out).items
        ≡ out.items ++ names_rules fs yaml_load dir_path names
  unfolding load_names
  load_names-items dir_path [] out = sym (append-nil out.items)
  load_names-items dir_path (name ∷ names) out =
      load_names-items dir_path names _
      ∙ rw (load_name-items dir_path name out)
          (append_assoc out.items (name_rules fs yaml_load dir_path name) _)

  -- While memory can be had, loading a directory succeeds exactly if it can be opened. It adds the
  -- rules of every well-formed file whose name ends in .yaml or .yml, in any case of the letters, and
  -- whose path has fewer than 1024 bytes, in the order of the directory, and skips all else.
  pub load_dir-items :
      (dir_path : Bytes) (out : RuleList)
      → ((load_dir fs yaml_load alloc dir_path out).0.items
          ≡ out.items ++ directory_rules fs yaml_load dir_path (fs.opendir dir_path))
        × ((load_dir fs yaml_load alloc dir_path out).1 ≡ true ↔ fs.opendir dir_path ≢ none)
  unfolding load_dir
  load_dir-items dir_path out = elim (Option-cases (fs.opendir dir_path)) [
    | inl closed ↦
        rw (closed, load_dir, directory_rules)
          (sym (append-nil out.items), (λ e. absurd (cc), λ open_. absurd (open_ refl)))
    | inr (names, opened) ↦
        rw (opened, load_dir, directory_rules)
          (load_names-items dir_path names out, (λ e n. cc n, λ _. refl))
  ]

abbrev HasPattern : Rule → Type 0
HasPattern r = r.pattern ≢ []

make_rule-HasPattern :
    (id pattern description severity : Option Bytes) (r : Rule)
    → make_rule id pattern description severity ≡ some r
    → HasPattern r
unfolding make_rule
make_rule-HasPattern none p d s r e = absurd (cc)
make_rule-HasPattern (some id) none d s r e = absurd (cc)
make_rule-HasPattern (some id) (some p) none s r e = absurd (cc)
make_rule-HasPattern (some id) (some p) (some d) none r e = absurd (cc)
make_rule-HasPattern (some id) (some []) (some d) (some s) r e =
    elim (Option-cases (parse_severity (str_to_lower s))) [
      | inl bad ↦ absurd (cc (rw (bad, make_rule) at e))
      | inr (severity, good) ↦ absurd (cc (rw (good, make_rule) at e))
    ]
make_rule-HasPattern (some id) (some (c ∷ p)) (some d) (some s) r e =
    elim (Option-cases (parse_severity (str_to_lower s))) [
      | inl bad ↦ absurd (cc (rw (bad, make_rule) at e))
      | inr (severity, good) ↦
          λ h. cc (ap (λ (q : Rule). q.pattern) (some_inj (rw (good, make_rule) at e)), h)
    ]

item_rule-HasPattern :
    (doc : Document) (node : Option Node) (r : Rule) → item_rule doc node ≡ some r → HasPattern r
unfolding read_rule
item_rule-HasPattern doc (some (mapping pairs)) r e = make_rule-HasPattern _ _ _ _ r e
item_rule-HasPattern doc (some (scalar value)) r e = absurd (cc)
item_rule-HasPattern doc (some (sequence items)) r e = absurd (cc)
item_rule-HasPattern doc none r e = absurd (cc)

cons_rule-HasPattern :
    (o : Option Rule) (rest : Option (List Rule)) (rs : List Rule)
    → ((r : Rule) → o ≡ some r → HasPattern r)
    → ((qs : List Rule) → rest ≡ some qs → All HasPattern qs)
    → cons_rule o rest ≡ some rs
    → All HasPattern rs
cons_rule-HasPattern none rest rs h k e = absurd (cc)
cons_rule-HasPattern (some r) none rs h k e = absurd (cc)
cons_rule-HasPattern (some r) (some qs) rs h k e =
    subst (All HasPattern) (some_inj e) (h r refl, k qs refl)

all_rules-HasPattern :
    (doc : Document) (items : List ℕ) (rs : List Rule)
    → all_rules doc items ≡ some rs
    → All HasPattern rs
all_rules-HasPattern doc [] rs e = subst (All HasPattern) (some_inj e) tt
all_rules-HasPattern doc (item ∷ items) rs e =
    cons_rule-HasPattern (item_rule doc (doc.get_node item)) (all_rules doc items) rs
      (item_rule-HasPattern doc (doc.get_node item)) (all_rules-HasPattern doc items) e

node_rules-HasPattern :
    (doc : Document) (node : Option Node) (rs : List Rule)
    → node_rules doc node ≡ some rs
    → All HasPattern rs
node_rules-HasPattern doc (some (sequence items)) rs e = all_rules-HasPattern doc items rs e
node_rules-HasPattern doc (some (scalar value)) rs e = absurd (cc)
node_rules-HasPattern doc (some (mapping pairs)) rs e = absurd (cc)
node_rules-HasPattern doc none rs e = absurd (cc)

-- No rule that a file defines has an empty pattern, which every file would match.
pub file_rules-HasPattern :
    (fs : FileSystem) (yaml_load : YamlLoad) (path : Bytes) (rs : List Rule)
    → file_rules fs yaml_load path ≡ some rs
    → All (λ r. r.pattern ≢ []) rs
unfolding file_rules
file_rules-HasPattern fs yaml_load path rs e = elim (Option-cases (fs.read path)) [
  | inl closed ↦ absurd (cc (rw (closed, file_rules) at e))
  | inr (content, opened) ↦ go (yaml_load content) (rw (opened, file_rules) at e)
]
  where
    go : (doc : Option Document) → document_rules doc ≡ some rs → All (λ r. r.pattern ≢ []) rs
    go none f = absurd (cc)
    go (some doc) f = node_rules-HasPattern doc _ rs f
