-- ===== src/Common/Text.antt =====
-- Bytes and C strings. A C string is the list of its bytes in front of the terminating NUL; a
-- pointer into it is the list of the bytes from there on.
use Prim.Native.Nat.{ℕ, ◌+◌, ◌-◌, compare, Ordering}
use Prim.Native.Char.{code}
use Prim.Native.String.{String}
use mathlib.Core.Path.{◌≡◌, refl}
use mathlib.Core.Bool.{Bool, true, false, ◌&&◌, ◌||◌}
use mathlib.Core.List.{List, [], ◌∷◌}
use native.Mathlib.Omega.{arith}
use crimp.Common.Tests.{leb, ◌==◌, if◌then◌else◌}
use crimp.Common.Lists.{take}

abbrev pub Bytes : Type 0
Bytes = List ℕ

-- The code points of a literal; these are its bytes when the text is ASCII.
abbrev pub codes : String → Bytes
codes String.[] = []
codes (String.◌∷◌ c s) = code c ∷ codes s

-- The C string that stands at the front of a buffer.
abbrev pub c_str : Bytes → Bytes
c_str [] = []
c_str (c ∷ s) = if c == 0 then [] else c ∷ c_str s

abbrev pub is_digit : ℕ → Bool
is_digit c = leb b'0' c && leb c b'9'

abbrev pub is_upper : ℕ → Bool
is_upper c = leb b'A' c && leb c b'Z'

abbrev pub is_lower : ℕ → Bool
is_lower c = leb b'a' c && leb c b'z'

abbrev pub is_alpha : ℕ → Bool
is_alpha c = is_upper c || is_lower c

abbrev pub is_print : ℕ → Bool
is_print c = leb 0x20 c && leb c 0x7e

-- `(char)(c - 'A' + 'a')` for a capital letter, as several loops of the program write it.
abbrev pub fold_case : ℕ → ℕ
fold_case c = if is_upper c then c - b'A' + b'a' else c

-- `strcmp`, its sign as an `Ordering`: bytes compare as unsigned numbers, the end comes first.
unfoldable pub strcmp : Bytes → Bytes → Ordering
strcmp [] [] = Ordering.eq
strcmp [] (d ∷ t) = Ordering.lt
strcmp (c ∷ s) [] = Ordering.gt
strcmp (c ∷ s) (d ∷ t) = elim (compare c d) [
  | Ordering.lt ↦ Ordering.lt
  | Ordering.eq ↦ strcmp s t
  | Ordering.gt ↦ Ordering.gt
]

-- `strcmp (s, t) == 0`, and `memcmp` of blocks of one length.
unfoldable pub str_eq : Bytes → Bytes → Bool
str_eq [] [] = true
str_eq [] (d ∷ t) = false
str_eq (c ∷ s) [] = false
str_eq (c ∷ s) (d ∷ t) = c == d && str_eq s t

pub str_eq_refl : (s : Bytes) → str_eq s s ≡ true
unfolding str_eq
str_eq_refl [] = refl
str_eq_refl (c ∷ s) = ground (arith, str_eq_refl s)

pub str_eq→eq : (s t : Bytes) → str_eq s t ≡ true → s ≡ t
unfolding str_eq
str_eq→eq [] [] h = refl
str_eq→eq [] (d ∷ t) h = cc
str_eq→eq (c ∷ s) [] h = cc
str_eq→eq (c ∷ s) (d ∷ t) h = ground (arith, str_eq→eq s t)

-- `snprintf` into `cap` bytes keeps at most `cap - 1` of the text.
unfoldable pub truncate : ℕ → Bytes → Bytes
truncate cap s = take (cap - 1) s

-- `fread` of at most `n` bytes.
unfoldable pub read_prefix : ℕ → Bytes → Bytes
read_prefix n s = take n s
