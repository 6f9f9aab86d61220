-- ===== src/CveMatch/Findings.antt =====
-- The findings of src/core/cve_match.c, against a description by filter and map over the dataset.
use crimp.Common.{
  Bool, Bool-cases, Bytes, List, Option, Option-cases, [], append-nil, append_assoc, arith, codes,
  false, inl, inr, is_nil, keep, map, none, not, refl, some, str_eq, str_eq_refl, str_eq→eq, subst,
  sym, take, true, ℕ, ◌&&◌, ◌++◌, ◌||◌, ◌↔◌, ◌∙◌, ◌∷◌, ◌≡◌, ◌≢◌, ◌⊎◌,
}
use crimp.CveMatch.{
  CveEntry, is_affected, describe_match, match_loop, match_cve_entry, match_cves, read_entry,
  read_component, match_component_entry, match_entries, match_document, match_loaded,
  cve_match_components,
}
use crimp.Detector.{Finding, FindingList}
use crimp.Detector.Items.{finding, finding_list_add-items}
use crimp.FileSystem.{FileSystem}
use crimp.Inventory.{Component, ComponentList}
use crimp.Range.{version_satisfies}
use crimp.Yaml.{Node, scalar, sequence, mapping, Document, YamlLoad, mapping_get}

-- The finding of an entry on a component.
abbrev pub match_finding : CveEntry → Component → Finding
match_finding e comp = finding e.id (describe_match e comp) e.severity

-- One entry: a finding for each component instance that it affects, in their order.
abbrev pub entry_findings : Bytes → List Component → Option CveEntry → List Finding
entry_findings name comps none = []
entry_findings name comps (some e) = map (match_finding e) (keep (is_affected name e) comps)

abbrev pub cves_findings : Document → List Component → Bytes → List ℕ → List Finding
cves_findings doc comps name [] = []
cves_findings doc comps name (item ∷ items) =
    entry_findings name comps (read_entry doc (doc.get_node item))
    ++ cves_findings doc comps name items

abbrev pub component_findings : Document → List Component → Option (Bytes × List ℕ) → List Finding
component_findings doc comps none = []
component_findings doc comps (some (name, items)) = cves_findings doc comps name items

abbrev pub items_findings : Document → List Component → List ℕ → List Finding
items_findings doc comps [] = []
items_findings doc comps (item ∷ items) =
    component_findings doc comps (read_component doc (doc.get_node item))
    ++ items_findings doc comps items

-- The items of the dataset, if it has the right form.
abbrev pub node_items : Option Node → Option (List ℕ)
node_items (some (sequence items)) = some items
node_items (some (scalar value)) = none
node_items (some (mapping pairs)) = none
node_items none = none

abbrev pub with_items : Document → Option (List ℕ) → Option (Document × List ℕ)
with_items doc none = none
with_items doc (some items) = some (doc, items)

abbrev pub document_items : Option Document → Option (Document × List ℕ)
document_items none = none
document_items (some doc) =
    with_items doc (node_items (mapping_get doc doc.root (codes "components")))

unfoldable pub dataset_items : FileSystem → YamlLoad → Bytes → Option (Document × List ℕ)
dataset_items fs yaml_load path = elim (fs.read path) [
  | none ↦ none
  | some content ↦ document_items (yaml_load content)
]

abbrev pub dataset_findings : List Component → Option (Document × List ℕ) → List Finding
dataset_findings comps none = []
dataset_findings comps (some (doc, items)) = items_findings doc comps items

abbrev pub is_loaded : Option (Document × List ℕ) → Bool
is_loaded none = false
is_loaded (some d) = true

-- What a step adds behind a list.
abbrev Adds : (FindingList → FindingList) → List Finding → Type 0
Adds step fs = (out : FindingList) → (step out).items ≡ out.items ++ fs

nothing-Adds : Adds (λ out. out) []
nothing-Adds out = sym (append-nil out.items)

then-Adds :
    (f g : FindingList → FindingList) (xs ys : List Finding)
    → Adds f xs
    → Adds g ys
    → Adds (λ out. g (f out)) (xs ++ ys)
then-Adds f g xs ys hf hg out = hg (f out) ∙ rw (hf out) (append_assoc out.items xs ys)

match_loop-Adds :
    (name : Bytes) (e : CveEntry) (comps : List Component)
    → Adds (match_loop name e comps) (entry_findings name comps (some e))
unfolding match_loop
match_loop-Adds name e [] out = nothing-Adds out
match_loop-Adds name e (comp ∷ comps) out = elim (Bool-cases (is_affected name e comp)) [
  | inl hit ↦
      rw (hit, match_loop, keep)
        (match_loop-Adds name e comps _
          ∙ rw (finding_list_add-items out e.id (describe_match e comp) e.severity)
              (append_assoc out.items (match_finding e comp ∷ []) _))
  | inr miss ↦ rw (miss, match_loop, keep) (match_loop-Adds name e comps out)
]

match_cve_entry-Adds :
    (doc : Document) (node : Option Node) (comps : List Component) (name : Bytes)
    → Adds (match_cve_entry doc node comps name) (entry_findings name comps (read_entry doc node))
unfolding match_cve_entry
match_cve_entry-Adds doc node comps name out = elim (Option-cases (read_entry doc node)) [
  | inl bad ↦ rw (bad, match_cve_entry) (nothing-Adds out)
  | inr (e, good) ↦ rw (good, match_cve_entry) (match_loop-Adds name e comps out)
]

match_cves-Adds :
    (doc : Document) (items : List ℕ) (comps : List Component) (name : Bytes)
    → Adds (match_cves doc items comps name) (cves_findings doc comps name items)
unfolding match_cves
match_cves-Adds doc [] comps name = nothing-Adds
match_cves-Adds doc (item ∷ items) comps name =
    then-Adds (match_cve_entry doc (doc.get_node item) comps name) (match_cves doc items comps name)
      _ _ (match_cve_entry-Adds doc (doc.get_node item) comps name)
      (match_cves-Adds doc items comps name)

match_component_entry-Adds :
    (doc : Document) (node : Option Node) (comps : List Component)
    → Adds
        (match_component_entry doc node comps)
        (component_findings doc comps (read_component doc node))
unfolding match_component_entry
match_component_entry-Adds doc node comps out = elim (Option-cases (read_component doc node)) [
  | inl bad ↦ rw (bad, match_component_entry) (nothing-Adds out)
  | inr ((name, items), good) ↦
      rw (good, match_component_entry) (match_cves-Adds doc items comps name out)
]

match_entries-Adds :
    (doc : Document) (items : List ℕ) (comps : List Component)
    → Adds (match_entries doc items comps) (items_findings doc comps items)
unfolding match_entries
match_entries-Adds doc [] comps = nothing-Adds
match_entries-Adds doc (item ∷ items) comps =
    then-Adds (match_component_entry doc (doc.get_node item) comps) (match_entries doc items comps)
      _ _ (match_component_entry-Adds doc (doc.get_node item) comps)
      (match_entries-Adds doc items comps)

-- The list behind the match, and whether it went through, for the items that were found.
abbrev pub Matches :
    FindingList → List Component → Option (Document × List ℕ) → FindingList × Bool → Type 0
Matches out comps found r =
    (r.0.items ≡ out.items ++ dataset_findings comps found)
    × (r.1 ≡ is_loaded found)
    × ((r.0 ≡ out) ⊎ (r.1 ≡ true))

match_document-Matches :
    (doc : Document) (node : Option Node) (comps : List Component) (out : FindingList)
    → Matches out comps (with_items doc (node_items node)) (match_document doc node comps out)
unfolding match_document
match_document-Matches doc (some (sequence items)) comps out =
    (match_entries-Adds doc items comps out, refl, inr refl)
match_document-Matches doc (some (scalar value)) comps out = (nothing-Adds out, refl, inl refl)
match_document-Matches doc (some (mapping pairs)) comps out = (nothing-Adds out, refl, inl refl)
match_document-Matches doc none comps out = (nothing-Adds out, refl, inl refl)

match_loaded-Matches :
    (doc : Option Document) (comps : List Component) (out : FindingList)
    → Matches out comps (document_items doc) (match_loaded doc comps out)
unfolding match_loaded
match_loaded-Matches none comps out = (nothing-Adds out, refl, inl refl)
match_loaded-Matches (some doc) comps out =
    match_document-Matches doc (mapping_get doc doc.root (codes "components")) comps out

-- A match adds, behind the findings that were there, one finding for each pair of a dataset entry
-- and a component instance that it affects, entry by entry, and nothing else. It fails exactly if
-- the dataset cannot be read, is no YAML or has no sequence `components`, and then it leaves the
-- findings as they were.
pub cve_match_components-findings :
    (fs : FileSystem) (yaml_load : YamlLoad) (path : Bytes) (components : ComponentList)
    (out : FindingList)
    → Matches out
        (take components.count components.items)
        (dataset_items fs yaml_load path)
        (cve_match_components fs yaml_load path components out)
unfolding cve_match_components dataset_items
cve_match_components-findings fs yaml_load path components out =
    elim (Option-cases (fs.read path)) [
      | inl closed ↦
          rw (closed, cve_match_components, dataset_items) (nothing-Adds out, refl, inl refl)
      | inr (content, opened) ↦
          rw (opened, cve_match_components, dataset_items)
            (match_loaded-Matches (yaml_load content) (take components.count components.items) out)
    ]

split_tests :
    (n s t : Bool) → ((not (n || not s) && t) ≡ true) ↔ ((n ≡ false) × (s ≡ true) × (t ≡ true))
split_tests n s t = (λ h. ground arith, λ h. ground arith)

is_nil_iff : (xs : Bytes) → (is_nil xs ≡ false) ↔ (xs ≢ [])
is_nil_iff [] = (λ e. absurd (cc), λ h. absurd (h refl))
is_nil_iff (x ∷ xs) = (λ e. cc, λ h. refl)

-- A component is reported for an entry exactly if its version is known, its name is the dataset's,
-- and its version satisfies the entry's condition list.
pub is_affected_iff :
    (name : Bytes) (e : CveEntry) (comp : Component)
    → (is_affected name e comp ≡ true) ↔ (
        (comp.version ≢ [])
        × (comp.component ≡ name)
        × (version_satisfies comp.version e.affected ≡ true))
unfolding is_affected
is_affected_iff name e comp =
    let tests =
      split_tests (is_nil comp.version) (str_eq comp.component name)
        (version_satisfies comp.version e.affected) in
    let nil = is_nil_iff comp.version in
    (
      λ h.
          let (known, named, sat) = tests.0 h in
          (nil.0 known, str_eq→eq comp.component name named, sat),
      λ h. tests.1 (
        nil.1 h.0,
        subst (λ n. str_eq comp.component n ≡ true) h.1 (str_eq_refl comp.component),
        h.2,
      ),
    )
