-- ===== src/Image.antt =====
-- What the extractors of src/extract/ share in reading an image: the bytes at a position, and the
-- buffer for compressed bytes. An image is the list of its bytes, and a position in it a number;
-- seeking behind its end succeeds, and reading there fails. zlib's `uncompress` is a parameter: from
-- the size of the buffer and the compressed bytes it gives the bytes that it wrote, or fails.

-- `crimp_fs_seek64` and `fread` of `n` bytes.
use crimp.Common.{
  Bool, Bytes, Option, arith, drop, if◌then◌else◌, length, ltb, none, some, take, ℕ, ◌==◌, ◌≡◌,
}

unfoldable pub read_at : Bytes → ℕ → ℕ → Option Bytes
read_at f pos n = if length (take n (drop pos f)) == n then some (take n (drop pos f)) else none

abbrev pub Uncompress : Type 0
Uncompress = ℕ → Bytes → Option Bytes

-- The size of `comp_buf` after it was grown for `comp_len` bytes.
unfoldable pub grow_buffer : (ℕ → Bool) → ℕ → ℕ → Option ℕ
grow_buffer alloc comp_len comp_cap =
    if ltb comp_cap comp_len
    then (if alloc comp_len then some comp_len else none)
    else some comp_cap

-- Not `out_len != n`.
abbrev pub of_length : ℕ → Option Bytes → Option Bytes
of_length n none = none
of_length n (some s) = if length s == n then some s else none

pub of_length_lem : (n : ℕ) (o : Option Bytes) (s : Bytes) → of_length n o ≡ some s → length s ≡ n
of_length_lem n none s h = absurd (cc)
of_length_lem n (some t) s h = ground arith

pub length-read_at : (f : Bytes) (pos n : ℕ) (s : Bytes) → read_at f pos n ≡ some s → length s ≡ n
unfolding read_at
length-read_at f pos n s h = ground arith

pub read_at_lem :
    (f : Bytes) (pos n : ℕ) (s : Bytes) → read_at f pos n ≡ some s → s ≡ take n (drop pos f)
unfolding read_at
read_at_lem f pos n s h = ground arith
