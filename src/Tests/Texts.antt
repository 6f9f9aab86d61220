-- ===== src/Tests/Texts.antt =====
-- Searches in raw bytes, JSON strings, names of files, byte orders and command lines.
use crimp.Common.{
  All, Bytes, List, [], arith, codes, false, is_print, keep, length, none, refl, some, str_eq, take,
  true, ℕ, ◌++◌, ◌∷◌, ◌≡◌, ◌≤◌,
}
use crimp.Binstring.{memfind}
use crimp.Binstring.Find.{OccursAt, memfind_first}
use crimp.Components.{
  ComponentMarker, find_isolated_dropbear_version, search_loop, search_fuel, marker_version,
}
use crimp.Components.Marker.{contains, first_version, search_loop-first_version}
use crimp.Components.Dropbear.{tokens, adjacent_version, find_isolated-adjacent}
use crimp.Components.Report.{reported_version, marker_version-reported}
use crimp.Inventory.{copy_printable}
use crimp.Inventory.Sanitize.{IsPrintable, copy_printable_safe}
use crimp.Sbom.{json_string}
use crimp.Sbom.RoundTrip.{read_string, read_string-json_string}
use crimp.FsUtil.{
  base_length, any_reserved, matches_reserved, path_component_is_safe, is_windows_reserved_name,
}
use crimp.FsUtil.Safe.{join_all, AllSafe, resolve, path_parts, push_names, resolve-join_all}
use crimp.Cli.{flag_of, parse_arguments, no_arguments}
use crimp.Cli.CommandLine.{
  IsPlain, Piece, rules, plain, words, plain_words, last_rules, last_dataset, run_words,
  parse_arguments-words,
}

abbrev sample : Bytes
sample = codes "xdropbear_" ++ 0 ∷ codes "2019.78" ++ 0 ∷ codes "SSH-2.0-dropbear" ++ 0 ∷ []

abbrev dropbear : ComponentMarker
dropbear = record {
  marker = codes "dropbear_";
  component_name = codes "Dropbear";
  allow_letter_suffix = false;
  dropbear_version_fallback = true;
}

found : memfind (codes "abcab") (codes "ca") ≡ some 2
unfolding memfind
found = refl

memfind_first_example :
    ((j : ℕ)
      → memfind (codes "abcab") (codes "b") ≡ some j
      → OccursAt (codes "b") (codes "abcab") j
        × ((i : ℕ) → OccursAt (codes "b") (codes "abcab") i → j ≤ i))
    × (memfind (codes "abcab") (codes "b") ≡ none
        → (i : ℕ) → ¬ OccursAt (codes "b") (codes "abcab") i)
memfind_first_example = memfind_first (codes "abcab") (codes "b") (cc)

search_loop-first_version_example :
    search_loop (search_fuel sample) dropbear sample false
    ≡ some (contains dropbear.marker sample, first_version dropbear sample)
search_loop-first_version_example = search_loop-first_version dropbear sample (cc)

find_isolated-adjacent_example :
    find_isolated_dropbear_version sample ≡ adjacent_version (tokens sample)
find_isolated-adjacent_example = find_isolated-adjacent sample

pooled_test : find_isolated_dropbear_version sample ≡ some (codes "2019.78")
unfolding find_isolated_dropbear_version str_eq memfind
pooled_test = refl

marker_version-reported_example : marker_version dropbear sample ≡ reported_version dropbear sample
marker_version-reported_example = marker_version-reported dropbear sample (cc)

copy_printable_safe_example :
    (copy_printable (10 ∷ codes "1.2") 0 ≡ take 63 (keep is_print (10 ∷ codes "1.2")))
    × IsPrintable (copy_printable (10 ∷ codes "1.2") 0)
    × (length (copy_printable (10 ∷ codes "1.2") 0) ≤ 63)
copy_printable_safe_example = copy_printable_safe (10 ∷ codes "1.2")

read_string-json_string_example :
    read_string 5 (json_string (10 ∷ 34 ∷ 65 ∷ []) ++ codes ",")
    ≡ some (10 ∷ 34 ∷ 65 ∷ [], codes ",")
read_string-json_string_example =
    read_string-json_string (10 ∷ 34 ∷ 65 ∷ []) (codes ",") 5 (omega arith)

two_names : AllSafe (codes "etc" ∷ codes "passwd" ∷ [])
unfolding path_component_is_safe str_eq is_windows_reserved_name base_length any_reserved
    matches_reserved
two_names = (refl, (refl, tt))

resolve-join_all_example :
    resolve [] (path_parts (join_all (codes "out") (codes "etc" ∷ codes "passwd" ∷ [])))
    ≡ push_names (codes "etc" ∷ codes "passwd" ∷ []) (resolve [] (path_parts (codes "out")))
resolve-join_all_example =
    resolve-join_all (codes "etc" ∷ codes "passwd" ∷ []) (codes "out") [] two_names

abbrev line : List Piece
line = plain (codes "fw.bin") ∷ rules (codes "rules") ∷ []

line_words : All IsPlain line
unfolding flag_of str_eq
line_words = (refl, (tt, tt))

parse_arguments-words_example :
    parse_arguments (words line) no_arguments
    ≡ run_words none (plain_words line) (last_rules none line) (last_dataset none line)
parse_arguments-words_example = parse_arguments-words line line_words
