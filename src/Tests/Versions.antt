-- ===== src/Tests/Versions.antt =====
-- Versions, ranges and the parsing of their parts, on the inputs of the kind that a dataset holds.
use crimp.Common.{Bytes, codes, every, is_nil, not, refl, strcmp, true, ◌&&◌, ◌∷◌, ◌≡◌, ◌≢◌}
use Prim.Native.Nat.{Ordering}
use crimp.Version.{
  compare_segment, next_segment, skip_separator, version_compare, parse_segment, skip_junk,
}
use crimp.Version.Pieces.{piece_segment, segments, padded}
use crimp.Version.Refine.{version_compare-padded}
use crimp.Version.Segments.{parse_segment_lem}
use crimp.Version.Order.{version_compare-flip, version_compare_trans}
use crimp.Version.Blank.{version_compare-blank}
use crimp.Range.{op_holds, version_satisfies}
use crimp.Range.Conditions.{part_holds, comma_parts, version_satisfies-every}

abbrev old : Bytes
old = codes "2019.78"

abbrev newer : Bytes
newer = codes "2019.78b"

abbrev newest : Bytes
newest = codes "2020"

abbrev range : Bytes
range = codes ">=2016.74,<2019.79"

old_test : version_compare old newer ≡ Ordering.lt
unfolding version_compare compare_segment next_segment parse_segment strcmp skip_separator
old_test = refl

newest_test : version_compare newest newer ≡ Ordering.gt
unfolding version_compare compare_segment next_segment parse_segment
newest_test = refl

range_test : version_satisfies old range ≡ true
unfolding version_satisfies op_holds version_compare compare_segment next_segment parse_segment
    strcmp skip_separator
range_test = refl

version_compare-padded_example :
    version_compare old newest ≡ padded (segments old) (segments newest)
version_compare-padded_example = version_compare-padded old newest

parse_segment_example : parse_segment newer ≡ (piece_segment newer, skip_junk newer)
parse_segment_example = parse_segment_lem newer

old_le : version_compare old newer ≢ Ordering.gt
old_le h = cc (old_test, h)

newer_le : version_compare newer newest ≢ Ordering.gt
newer_le h = cc (version_compare-flip newest newer, newest_test, h)

version_compare_trans_example : version_compare old newest ≢ Ordering.gt
version_compare_trans_example = version_compare_trans old newer newest old_le newer_le

version_compare-blank_example :
    version_compare old (codes " 2019.79")
    ≡ version_compare old (b'0' ∷ skip_junk (codes "2019.79"))
version_compare-blank_example = version_compare-blank old (codes "2019.79")

version_satisfies-every_example :
    version_satisfies old range ≡ (not (is_nil range) && every (part_holds old) (comma_parts range))
version_satisfies-every_example = version_satisfies-every old range
