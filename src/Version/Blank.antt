-- ===== src/Version/Blank.antt =====
-- A blank between an operator and its version, which `version_satisfies` leaves in the token.
use crimp.Common.{Bytes, [], arith, refl, ◌∷◌, ◌≡◌}
use crimp.Version.{skip_junk, version_compare}
use crimp.Version.Pieces.{piece_segment}
use crimp.Version.Refine.{segments_lem, version_compare-padded}

skip_junk_idem : (s : Bytes) → skip_junk (skip_junk s) ≡ skip_junk s
unfolding skip_junk
skip_junk_idem [] = refl
skip_junk_idem (c ∷ s) = ground (arith, skip_junk_idem s)

zero_segment : (s : Bytes) → piece_segment (b'0' ∷ skip_junk s) ≡ piece_segment (b' ' ∷ s)
unfolding skip_junk
zero_segment [] = refl
zero_segment (c ∷ s) = ground (arith, zero_segment s)

-- A version token that begins with a blank is compared as if the blank and all that follows it up
-- to the next separator were the number 0.
pub version_compare-blank :
    (v s : Bytes) → version_compare v (b' ' ∷ s) ≡ version_compare v (b'0' ∷ skip_junk s)
version_compare-blank v s =
    rw
      (
        version_compare-padded v (b' ' ∷ s),
        version_compare-padded v (b'0' ∷ skip_junk s),
        segments_lem (b' ' ∷ s),
        segments_lem (b'0' ∷ skip_junk s),
        zero_segment s,
      )
      (unfold skip_junk in rw (skip_junk_idem s))
