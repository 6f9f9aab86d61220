-- ===== src/Components.antt =====
-- src/core/component_identify.c: versions of known components in the raw bytes of a file.
pub mod Marker
pub mod Dropbear
pub mod Report
use crimp.Common.{
  Bool, Bytes, List, Option, [], codes, drop, every, false, if◌then◌else◌, is_digit, is_lower,
  is_nil, length, ltb, none, not, some, str_eq, suc, take, true, zero, ℕ, ◌&&◌, ◌++◌, ◌+◌, ◌==◌,
  ◌||◌, ◌∷◌,
}
use crimp.Binstring.{memfind}
use crimp.FileSystem.{FileSystem, read_file_for_scan}
use crimp.Inventory.{ComponentList, component_list_add}
use crimp.Walk.{walk_directory}

-- `component_marker`
pub record ComponentMarker : Type 0 where
  pub marker : Bytes
  pub component_name : Bytes
  pub allow_letter_suffix : Bool
  pub dropbear_version_fallback : Bool

-- `COMPONENT_MARKERS`
abbrev pub component_markers : List ComponentMarker
component_markers =
    (record {
      marker = codes "BusyBox v";
      component_name = codes "BusyBox";
      allow_letter_suffix = false;
      dropbear_version_fallback = false;
    })
    ∷ (record {
      marker = codes "OpenSSL ";
      component_name = codes "OpenSSL";
      allow_letter_suffix = true;
      dropbear_version_fallback = false;
    })
    ∷ (record {
      marker = codes "dropbear_";
      component_name = codes "Dropbear";
      allow_letter_suffix = false;
      dropbear_version_fallback = true;
    })
    ∷ (record {
      marker = codes "Linux version ";
      component_name = codes "Linux kernel";
      allow_letter_suffix = false;
      dropbear_version_fallback = false;
    })
    ∷ []

-- The characters that `extract_version` takes.
abbrev pub is_version_char : Bool → ℕ → Bool
is_version_char allow_letter_suffix c =
    not (c == 0) && (is_digit c || c == b'.' || c == b'-' || (allow_letter_suffix && is_lower c))

-- `extract_version` into `version[64]`; `start` is what is left of the buffer, so that its end is
-- `max_len`.
unfoldable pub extract_version : Bool → Bytes → ℕ → Bytes
extract_version allow_letter_suffix [] i = []
extract_version allow_letter_suffix (c ∷ start) i =
    let rest = extract_version allow_letter_suffix start (i + 1) in
    if ltb i 63 && is_version_char allow_letter_suffix c then c ∷ rest else []

-- `looks_like_dropbear_version`: the length, the four digits, the dot and the other digits.
unfoldable pub looks_like_dropbear_version : Bytes → Bool
looks_like_dropbear_version tok =
    if ltb (length tok) 6 || ltb 8 (length tok)
    then false
    else if not (every is_digit (take 4 tok))
    then false
    else if not (str_eq (take 1 (drop 4 tok)) (codes "."))
    then false
    else every is_digit (drop 5 tok)

abbrev is_found : Option ℕ → Bool
is_found none = false
is_found (some i) = true

unfoldable pub token_mentions_dropbear : Bytes → Bool
token_mentions_dropbear tok =
    is_found (memfind tok (codes "dropbear")) || is_found (memfind tok (codes "Dropbear"))

-- A test on a pointer that may be `NULL`.
abbrev pub holds : (Bytes → Bool) → Option Bytes → Bool
holds test none = false
holds test (some tok) = test tok

-- What the body of the loop does with a whole token: it returns a version, or goes on with the
-- next candidate.
pub data TokenStep : Type 0 where
  found : Bytes → TokenStep
  go_on : Option Bytes → TokenStep

-- `candidate && token_mentions_dropbear(tok, len) && candidate_len < out_size`
abbrev pub accepts_candidate : Option Bytes → Bytes → Bool
accepts_candidate candidate tok =
    holds (λ c. token_mentions_dropbear tok && ltb (length c) 64) candidate

abbrev pub accepts_token : Option Bytes → Bytes → Bool
accepts_token prev_tok tok = holds token_mentions_dropbear prev_tok && ltb (length tok) 64

abbrev pub text_of : Option Bytes → Bytes
text_of none = []
text_of (some tok) = tok

unfoldable pub token_step : Option Bytes → Option Bytes → Bytes → TokenStep
token_step prev_tok candidate tok =
    if accepts_candidate candidate tok
    then found (text_of candidate)
    else if looks_like_dropbear_version tok
    then (if accepts_token prev_tok tok then found tok else go_on (some tok))
    else go_on none

-- The loop of `find_isolated_dropbear_version`; `tok` holds the bytes from `buf + start` on.
unfoldable pub isolated_loop : Bytes → Bytes → Option Bytes → Option Bytes → Option Bytes
isolated_loop [] tok prev_tok candidate = elim (token_step prev_tok candidate tok) [
  | found version ↦ some version
  | go_on next ↦ none
]
isolated_loop (c ∷ buf) tok prev_tok candidate = elim (c == 0) [
  | false ↦ isolated_loop buf (tok ++ c ∷ []) prev_tok candidate
  | true ↦ elim (token_step prev_tok candidate tok) [
    | found version ↦ some version
    | go_on next ↦ isolated_loop buf [] (some tok) next
  ]
]

unfoldable pub find_isolated_dropbear_version : Bytes → Option Bytes
unfolding isolated_loop token_step token_mentions_dropbear looks_like_dropbear_version
find_isolated_dropbear_version buf = isolated_loop buf [] none none

-- The `while` loop of `scan_file` for one marker: `found_any`, and the version, which is empty
-- unless `matched`. `none` means that the fuel ran out.
unfoldable pub search_loop : ℕ → ComponentMarker → Bytes → Bool → Option (Bool × Bytes)
search_loop zero m search found_any = none
search_loop (suc fuel) m search found_any =
    if is_nil search then some (found_any, []) else elim (memfind search m.marker) [
      | none ↦ some (found_any, [])
      | some i ↦
          let version =
            extract_version m.allow_letter_suffix (drop (i + length m.marker) search) 0 in
          let later = search_loop fuel m (drop (i + 1) search) true in
          if is_nil version then later else some (true, version)
    ]

-- Every round drops a byte of the buffer.
abbrev pub search_fuel : Bytes → ℕ
search_fuel buf = suc (length buf)

abbrev pub result_or_nothing : Option (Bool × Bytes) → Bool × Bytes
result_or_nothing none = (false, [])
result_or_nothing (some r) = r

abbrev pub search_marker : ComponentMarker → Bytes → Bool × Bytes
search_marker m buf = result_or_nothing (search_loop (search_fuel buf) m buf false)

-- What the body of the marker loop reports: `none`, or the version that is added, empty if it is
-- not known.
unfoldable pub marker_version : ComponentMarker → Bytes → Option Bytes
marker_version m buf =
    let (found_any, version) = search_marker m buf in
    if not (is_nil version)
    then some version
    else if found_any && m.dropbear_version_fallback
    then some (text_of (find_isolated_dropbear_version buf))
    else if found_any
    then some []
    else none

-- The marker loop of `scan_file`.
unfoldable pub add_markers : List ComponentMarker → Bytes → Bytes → ComponentList → ComponentList
add_markers [] path buf out = out
add_markers (m ∷ ms) path buf out = elim (marker_version m buf) [
  | none ↦ add_markers ms path buf out
  | some version ↦ add_markers ms path buf (component_list_add out m.component_name version path)
]

unfoldable pub scan_file : FileSystem → Bytes → ComponentList → ComponentList
scan_file fs path out = elim (read_file_for_scan fs path) [
  | none ↦ out
  | some buf ↦ add_markers component_markers path buf out
]

-- `crimp_identify_components`
unfoldable pub identify_components : FileSystem → ℕ → Bytes → ComponentList → Option ComponentList
identify_components fs fuel root_path out = walk_directory fs (scan_file fs) fuel root_path out
