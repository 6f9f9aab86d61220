-- ===== src/Binstring.antt =====
-- src/core/binstring.c: `crimp_memfind`, and the `strstr` that src/core/pattern_scan.c calls.
pub mod Find
-- `memcmp(p, needle, strlen(needle)) == 0` on a block that is long enough.
use crimp.Common.{
  Bool, Bytes, Option, [], false, if◌then◌else◌, is_nil, leb, length, ltb, none, some, true, ℕ,
  ◌&&◌, ◌+◌, ◌==◌, ◌||◌, ◌∷◌,
}

unfoldable pub starts_with : Bytes → Bytes → Bool
starts_with [] p = true
starts_with (c ∷ needle) [] = false
starts_with (c ∷ needle) (d ∷ p) = d == c && starts_with needle p

-- The loop, at `haystack + i`; the result is the offset of the pointer that is returned.
unfoldable pub memfind_loop : Bytes → Bytes → ℕ → Option ℕ
unfolding starts_with
memfind_loop needle [] i = none
memfind_loop needle (c ∷ haystack) i =
    let later = memfind_loop needle haystack (i + 1) in
    if leb (length needle) (length (c ∷ haystack))
    then (if starts_with needle (c ∷ haystack) then some i else later)
    else none

unfoldable pub memfind : Bytes → Bytes → Option ℕ
unfolding memfind_loop
memfind haystack needle =
    if is_nil needle || ltb (length haystack) (length needle)
    then none
    else memfind_loop needle haystack 0

-- `strstr(text, pattern) != NULL` on C strings.
unfoldable pub strstr : Bytes → Bytes → Bool
unfolding starts_with
strstr [] pattern = is_nil pattern
strstr (c ∷ text) pattern = starts_with pattern (c ∷ text) || strstr text pattern
