-- ===== src/FsUtil/Decode.antt =====
-- The byte order of the fields that the extractors read.
use crimp.Common.{
  Bool, Bytes, [], arith, false, if◌then◌else◌, true, ℕ, ◌%◌, ◌++◌, ◌/◌, ◌<◌, ◌^◌, ◌∷◌, ◌≡◌,
}
use crimp.FsUtil.{decode_u32, decode_u16}

-- The four bytes of a number, the lowest first or last.
abbrev pub encode_u32 : ℕ → Bool → Bytes
encode_u32 n big_endian =
    if big_endian
    then n / 2 ^ 24 % 256 ∷ n / 2 ^ 16 % 256 ∷ n / 2 ^ 8 % 256 ∷ n % 256 ∷ []
    else n % 256 ∷ n / 2 ^ 8 % 256 ∷ n / 2 ^ 16 % 256 ∷ n / 2 ^ 24 % 256 ∷ []

abbrev pub encode_u16 : ℕ → Bool → Bytes
encode_u16 n big_endian =
    if big_endian then n / 2 ^ 8 % 256 ∷ n % 256 ∷ [] else n % 256 ∷ n / 2 ^ 8 % 256 ∷ []

-- Every 32-bit number is read back from its bytes, in either byte order and whatever follows.
pub decode_u32-encode_u32 :
    (n : ℕ) (big_endian : Bool) (rest : Bytes)
    → n < 2 ^ 32
    → decode_u32 (encode_u32 n big_endian ++ rest) big_endian ≡ n
unfolding decode_u32
decode_u32-encode_u32 n true rest h = omega arith
decode_u32-encode_u32 n false rest h = omega arith

-- Every 16-bit number is read back from its bytes, in either byte order and whatever follows.
pub decode_u16-encode_u16 :
    (n : ℕ) (big_endian : Bool) (rest : Bytes)
    → n < 2 ^ 16
    → decode_u16 (encode_u16 n big_endian ++ rest) big_endian ≡ n
unfolding decode_u16
decode_u16-encode_u16 n true rest h = omega arith
decode_u16-encode_u16 n false rest h = omega arith
