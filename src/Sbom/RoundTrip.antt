-- ===== src/Sbom/RoundTrip.antt =====
-- A reader for the strings that `write_json_string` of src/core/sbom.c writes.
use crimp.Common.{
  ==_iff, Bool-cases, Bytes, Option, [], ap, append_assoc, arith, false, if◌then◌else◌, inl, inr,
  leb, length, ltb, ltb→lt, none, refl, some, suc, sym, true, zero, ℕ, ◌%◌, ◌*◌, ◌++◌, ◌+◌, ◌-◌,
  ◌/◌, ◌<◌, ◌==◌, ◌∙◌, ◌∷◌, ◌≡◌,
}
use crimp.Sbom.{hex_digit, json_char, json_chars, json_string}

-- The value of a hexadecimal digit in lower case.
abbrev hex_value : ℕ → ℕ
hex_value d = if leb b'a' d then d - b'a' + 10 else d - b'0'

-- The byte behind a backslash, for the escapes of one letter.
abbrev letter_escape : ℕ → ℕ
letter_escape c =
    if c == b'n' then b'\n' else if c == b'r' then b'\r' else if c == b't' then b'\t' else c

abbrev onto : ℕ → Option (Bytes × Bytes) → Option (Bytes × Bytes)
onto c none = none
onto c (some (s, rest)) = some (c ∷ s, rest)

-- The four digits behind `\\u`.
abbrev read_hex : Bytes → Option (ℕ × Bytes)
read_hex [] = none
read_hex (a ∷ []) = none
read_hex (a ∷ b ∷ []) = none
read_hex (a ∷ b ∷ x ∷ []) = none
read_hex (a ∷ b ∷ x ∷ y ∷ p) =
    some (((hex_value a * 16 + hex_value b) * 16 + hex_value x) * 16 + hex_value y, p)

-- What stands behind a backslash.
abbrev read_escape : Bytes → Option (ℕ × Bytes)
read_escape [] = none
read_escape (d ∷ p) = if d == b'u' then read_hex p else some (letter_escape d, p)

-- A reader of the inside of a JSON string: the text, and what follows the closing quote. A control
-- character is refused, as JSON asks. `none` also stands for fuel that ran out.
unfoldable pub read_chars : ℕ → Bytes → Option (Bytes × Bytes)
read_chars zero p = none
read_chars (suc fuel) [] = none
read_chars (suc fuel) (c ∷ p) =
    if c == b'"'
    then some ([], p)
    else if c == b'\\'
    then elim (read_escape p) [ none ↦ none | some (d, q) ↦ onto d (read_chars fuel q) ]
    else if ltb c 0x20
    then none
    else onto c (read_chars fuel p)

unfoldable pub read_string : ℕ → Bytes → Option (Bytes × Bytes)
read_string fuel [] = none
read_string fuel (c ∷ p) = if c == b'"' then read_chars fuel p else none

plain_byte :
    (fuel c : ℕ) (p : Bytes)
    → (c == b'"') ≡ false
    → (c == b'\\') ≡ false
    → ltb c 0x20 ≡ false
    → read_chars (suc fuel) (c ∷ p) ≡ onto c (read_chars fuel p)
unfolding read_chars
plain_byte fuel c p q b l = rw (q, b, l)

hex_byte :
    (c : ℕ) → c < 0x20 → (hex_value (hex_digit (c / 16)) * 16 + hex_value (hex_digit (c % 16))) ≡ c
hex_byte c h = ground arith

hex_text : (c : ℕ) → Bytes
hex_text c = b'\\' ∷ b'u' ∷ b'0' ∷ b'0' ∷ hex_digit (c / 16) ∷ hex_digit (c % 16) ∷ []

read-hex_text :
    (fuel c : ℕ) (p : Bytes)
    → c < 0x20
    → read_chars (suc fuel) (hex_text c ++ p) ≡ onto c (read_chars fuel p)
unfolding read_chars hex_text
read-hex_text fuel c p h = ap (λ d. onto d (read_chars fuel p)) (omega (arith, hex_byte c h))

read-json_char :
    (fuel c : ℕ) (p : Bytes) → read_chars (suc fuel) (json_char c ++ p) ≡ onto c (read_chars fuel p)
unfolding json_char
read-json_char fuel c p = elim (Bool-cases (c == b'"')) [
  | inl is_quote ↦ rw is_quote (same b'"' is_quote (unfold read_chars in refl))
  | inr q ↦ elim (Bool-cases (c == b'\\')) [
    | inl is_slash ↦ rw (q, is_slash) (same b'\\' is_slash (unfold read_chars in refl))
    | inr b ↦ elim (Bool-cases (c == b'\n')) [
      | inl is_line ↦ rw (q, b, is_line) (same b'\n' is_line (unfold read_chars in refl))
      | inr n ↦ elim (Bool-cases (c == b'\r')) [
        | inl is_return ↦ rw (q, b, n, is_return) (same b'\r' is_return (unfold read_chars in refl))
        | inr r ↦ elim (Bool-cases (c == b'\t')) [
          | inl is_tab ↦ rw (q, b, n, r, is_tab) (same b'\t' is_tab (unfold read_chars in refl))
          | inr t ↦ elim (Bool-cases (ltb c 0x20)) [
            | inl control ↦
                rw (q, b, n, r, t, control)
                  (unfold hex_text in read-hex_text fuel c p (ltb→lt c 0x20 control))
            | inr plain ↦ rw (q, b, n, r, t, plain) (plain_byte fuel c p q b plain)
          ]
        ]
      ]
    ]
  ]
]
  where
    same :
        (k : ℕ) {o : Option (Bytes × Bytes)}
        → (c == k) ≡ true
        → o ≡ onto k (read_chars fuel p)
        → o ≡ onto c (read_chars fuel p)
    same k h e = e ∙ ap (λ d. onto d (read_chars fuel p)) (sym ((==_iff c k).0 h))

read-json_chars :
    (s rest : Bytes) (fuel : ℕ)
    → length s < fuel
    → read_chars fuel (json_chars s ++ b'"' ∷ rest) ≡ some (s, rest)
unfolding json_chars
read-json_chars s rest zero h = absurd (omega arith)
read-json_chars [] rest (suc fuel) h = unfold read_chars in refl
read-json_chars (c ∷ s) rest (suc fuel) h = rw (
  append_assoc (json_char c) (json_chars s) (b'"' ∷ rest),
  read-json_char fuel c _,
  read-json_chars s rest fuel (omega arith),
)

-- Any text is read back from its JSON string, and the reader stops exactly at the end of it: no
-- byte of a name, a version or a path can end the string early or be misread.
pub read_string-json_string :
    (s rest : Bytes) (fuel : ℕ)
    → length s < fuel
    → read_string fuel (json_string s ++ rest) ≡ some (s, rest)
unfolding json_string read_string
read_string-json_string s rest fuel h =
    rw (append_assoc (json_chars s) (b'"' ∷ []) rest) (read-json_chars s rest fuel h)
