-- ===== src/PatternScan/Findings.antt =====
-- The findings of a pattern scan, against a description by filter and map.
use crimp.Common.{
  All, Bool-cases, Bytes, List, Option-cases, [], ap, append-nil, append_assoc, arith, c_str,
  if◌then◌else◌, inl, inr, is_nil, keep, map, none, read_prefix, refl, some, sym, ℕ, ◌++◌, ◌-◌, ◌<◌,
  ◌∙◌, ◌∷◌, ◌≡◌, ◌≢◌,
}
use crimp.ArrayList.{IsValid}
use crimp.Binstring.{strstr}
use crimp.Detector.{Finding, FindingList, initial_capacity}
use crimp.Detector.Items.{finding, finding_list_add-items, finding_list_add-IsValid}
use crimp.FileSystem.{FileSystem, read_file_chunk}
use crimp.PatternScan.{
  PatternMarker, name_or, describe, read_chunk, add_matches, scan_file, scan_directory_for_patterns,
}
use crimp.Walk.Reach.{IsRanked, walk_directory-total}
use crimp.Walk.Files.{files, visit_all, walk_directory-invariant}

-- The finding of a marker in a file.
abbrev pub marker_finding : Bytes → Bytes → PatternMarker → Finding
marker_finding detector_name path m =
    finding (name_or m.name detector_name) (describe m.description path) m.severity

-- The text that the markers are looked for in: at most 65535 bytes, up to the first NUL.
abbrev pub scanned_text : FileSystem → Bytes → Bytes
scanned_text fs path = elim (fs.read path) [
  | none ↦ []
  | some content ↦ c_str (read_prefix (read_chunk - 1) content)
]

abbrev pub file_findings : FileSystem → Bytes → List PatternMarker → Bytes → List Finding
file_findings fs detector_name markers path =
    map (marker_finding detector_name path)
      (keep (λ m. strstr (scanned_text fs path) m.pattern) markers)

-- No marker stands in the empty text, unless it is empty itself.
abbrev pub HasPatterns : List PatternMarker → Type 0
HasPatterns = All (λ m. m.pattern ≢ [])

add_matches-items :
    (detector_name : Bytes) (ms : List PatternMarker) (path buf : Bytes) (out : FindingList)
    → (add_matches detector_name ms path buf out).items
      ≡ out.items
        ++ map (marker_finding detector_name path) (keep (λ m. strstr (c_str buf) m.pattern) ms)
unfolding add_matches
add_matches-items detector_name [] path buf out = sym (append-nil out.items)
add_matches-items detector_name (m ∷ ms) path buf out =
    elim (Bool-cases (strstr (c_str buf) m.pattern)) [
      | inl hit ↦
          rw (hit, add_matches, keep)
            (add_matches-items detector_name ms path buf _
              ∙ rw (finding_list_add-items out _ _ m.severity)
                  (append_assoc out.items (marker_finding detector_name path m ∷ []) _))
      | inr miss ↦ rw (miss, add_matches, keep) (add_matches-items detector_name ms path buf out)
    ]

empty_file : (ms : List PatternMarker) → HasPatterns ms → keep (λ m. strstr [] m.pattern) ms ≡ []
unfolding strstr
empty_file [] h = refl
empty_file (m ∷ ms) (p, h) = ground (arith, empty_file ms h)

chunk-items :
    (detector_name : Bytes) (ms : List PatternMarker) (path buf : Bytes) (out : FindingList)
    → HasPatterns ms
    → Path
        (List Finding)
        (if is_nil buf then out else add_matches detector_name ms path buf out).items
        (out.items
          ++ map (marker_finding detector_name path) (keep (λ m. strstr (c_str buf) m.pattern) ms))
chunk-items detector_name ms path [] out h = rw (empty_file ms h) (sym (append-nil out.items))
chunk-items detector_name ms path (c ∷ buf) out h =
    add_matches-items detector_name ms path (c ∷ buf) out

text_closed : (fs : FileSystem) (path : Bytes) → fs.read path ≡ none → scanned_text fs path ≡ []
text_closed fs path closed = rw (closed, scanned_text)

text_read :
    (fs : FileSystem) (path content : Bytes)
    → fs.read path ≡ some content
    → scanned_text fs path ≡ c_str (read_prefix (read_chunk - 1) content)
text_read fs path content opened = rw (opened, scanned_text)

-- A file adds one finding for each marker in its text, in the order of the markers.
pub scan_file-items :
    (fs : FileSystem) (detector_name : Bytes) (ms : List PatternMarker) (path : Bytes)
    (out : FindingList)
    → HasPatterns ms
    → (scan_file fs detector_name ms path out).items
      ≡ out.items ++ file_findings fs detector_name ms path
unfolding scan_file read_file_chunk
scan_file-items fs detector_name ms path out h = elim (Option-cases (fs.read path)) [
  | inl closed ↦
      rw (closed, scan_file, read_file_chunk)
        (sym (
          ap
            (λ t.
              out.items
              ++ map (marker_finding detector_name path) (keep (λ m. strstr t m.pattern) ms))
            (text_closed fs path closed)
          ∙ rw (empty_file ms h) (append-nil out.items)))
  | inr (content, opened) ↦
      rw (opened, scan_file, read_file_chunk)
        (chunk-items detector_name ms path (read_prefix (read_chunk - 1) content) out h
          ∙ ap
              (λ t.
                out.items
                ++ map (marker_finding detector_name path) (keep (λ m. strstr t m.pattern) ms))
              (sym (text_read fs path content opened)))
]

-- The findings of files, in their order.
abbrev pub all_findings : FileSystem → Bytes → List PatternMarker → List Bytes → List Finding
all_findings fs detector_name ms [] = []
all_findings fs detector_name ms (p ∷ ps) =
    file_findings fs detector_name ms p ++ all_findings fs detector_name ms ps

visit_all-items :
    (fs : FileSystem) (detector_name : Bytes) (ms : List PatternMarker) (ps : List Bytes)
    (out : FindingList)
    → HasPatterns ms
    → (visit_all (scan_file fs detector_name ms) ps out).items
      ≡ out.items ++ all_findings fs detector_name ms ps
visit_all-items fs detector_name ms [] out h = sym (append-nil out.items)
visit_all-items fs detector_name ms (p ∷ ps) out h =
    visit_all-items fs detector_name ms ps (scan_file fs detector_name ms p out) h
    ∙ rw (scan_file-items fs detector_name ms p out h)
        (append_assoc out.items (file_findings fs detector_name ms p) _)

-- For markers whose patterns are not empty, in a tree of finite depth, with more fuel than its depth,
-- a scan ends. It adds, behind what the list held, the findings of every file of the walk and nothing
-- else; a file has one finding for each marker whose pattern stands in its first 65535 bytes, before
-- the first NUL among them.
pub scan_directory_for_patterns-items :
    (fs : FileSystem) (rank : Bytes → ℕ)
    → IsRanked fs rank
    → (fuel : ℕ) (root_path : Bytes) → rank root_path < fuel
    → (detector_name : Bytes) (ms : List PatternMarker) (out : FindingList) → HasPatterns ms
    → (ps : List Bytes) × (out' : FindingList) × (files fs fuel root_path ≡ some ps)
      × (scan_directory_for_patterns fs fuel root_path detector_name ms out ≡ some out')
      × (out'.items ≡ out.items ++ all_findings fs detector_name ms ps)
unfolding scan_directory_for_patterns
scan_directory_for_patterns-items fs rank ranked fuel root_path deep detector_name ms out h =
    let (ps, found, e) =
      walk_directory-total fs (scan_file fs detector_name ms) rank ranked fuel root_path out deep in
    (
      ps,
      visit_all (scan_file fs detector_name ms) ps out,
      found,
      e,
      visit_all-items fs detector_name ms ps out h,
    )

add_matches-IsValid :
    (detector_name : Bytes) (ms : List PatternMarker) (path buf : Bytes) (out : FindingList)
    → IsValid initial_capacity out
    → IsValid initial_capacity (add_matches detector_name ms path buf out)
unfolding add_matches
add_matches-IsValid detector_name [] path buf out v = v
add_matches-IsValid detector_name (m ∷ ms) path buf out v =
    elim (Bool-cases (strstr (c_str buf) m.pattern)) [
      | inl hit ↦
          rw (hit, add_matches)
            (add_matches-IsValid detector_name ms path buf _ (finding_list_add-IsValid out _ _ _ v))
      | inr miss ↦ rw (miss, add_matches) (add_matches-IsValid detector_name ms path buf out v)
    ]

chunk-IsValid :
    (detector_name : Bytes) (ms : List PatternMarker) (path buf : Bytes) (out : FindingList)
    → IsValid initial_capacity out
    → IsValid initial_capacity
        (if is_nil buf then out else add_matches detector_name ms path buf out)
chunk-IsValid detector_name ms path [] out v = v
chunk-IsValid detector_name ms path (c ∷ buf) out v =
    add_matches-IsValid detector_name ms path (c ∷ buf) out v

scan_file-IsValid :
    (fs : FileSystem) (detector_name : Bytes) (ms : List PatternMarker) (path : Bytes)
    (out : FindingList)
    → IsValid initial_capacity out
    → IsValid initial_capacity (scan_file fs detector_name ms path out)
unfolding scan_file read_file_chunk
scan_file-IsValid fs detector_name ms path out v = elim (Option-cases (fs.read path)) [
  | inl closed ↦ rw (closed, scan_file, read_file_chunk) v
  | inr (content, opened) ↦
      rw (opened, scan_file, read_file_chunk) (chunk-IsValid detector_name ms path _ out v)
]

-- A scan keeps the list well formed.
pub scan_directory_for_patterns-IsValid :
    (fs : FileSystem) (fuel : ℕ) (root_path detector_name : Bytes) (ms : List PatternMarker)
    (out out' : FindingList)
    → scan_directory_for_patterns fs fuel root_path detector_name ms out ≡ some out'
    → IsValid initial_capacity out
    → IsValid initial_capacity out'
unfolding scan_directory_for_patterns
scan_directory_for_patterns-IsValid fs fuel root_path detector_name ms out out' e v =
    walk_directory-invariant (IsValid initial_capacity) fs (scan_file fs detector_name ms)
      (λ p s h. scan_file-IsValid fs detector_name ms p s h) fuel root_path out out' e v
