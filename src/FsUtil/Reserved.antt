-- ===== src/FsUtil/Reserved.antt =====
-- The test for reserved names, against its description.
use crimp.Common.{
  ==_iff, All, Bool-cases, Bytes, List, [], any, ap, arith, false, fold_case, if◌then◌else◌, inl,
  inr, leading, length, ltb, ltb→lt, map, not, refl, str_eq, str_eq→eq, sym, true, ◌<◌, ◌==◌, ◌||◌,
  ◌∙◌, ◌∷◌, ◌≡◌, ◌≤◌,
}
use crimp.FsUtil.{
  windows_reserved_names, base_length, matches_reserved, any_reserved, is_windows_reserved_name,
}

-- The name in front of the first dot, in lower case.
abbrev pub folded_base : Bytes → Bytes
folded_base name = map fold_case (leading (λ c. not (c == b'.')) name)

length-folded_base : (name : Bytes) → length (folded_base name) ≡ base_length name
unfolding base_length
length-folded_base [] = refl
length-folded_base (c ∷ name) = ground (arith, length-folded_base name)

str_eq-length : (s t : Bytes) → str_eq s t ≡ true → length s ≡ length t
str_eq-length s t h = ap length (str_eq→eq s t h)

matches_reserved_lem :
    (name reserved : Bytes)
    → length reserved ≡ base_length name
    → matches_reserved name reserved ≡ str_eq reserved (folded_base name)
unfolding matches_reserved base_length str_eq
matches_reserved_lem [] [] h = refl
matches_reserved_lem [] (r ∷ reserved) h = absurd (omega arith)
matches_reserved_lem (c ∷ name) [] h = ground arith
matches_reserved_lem (c ∷ name) (r ∷ reserved) h =
    ground (arith, matches_reserved_lem name reserved)

any_reserved_lem :
    (rs : List Bytes) (name : Bytes)
    → any_reserved rs name (base_length name) ≡ any (λ r. str_eq r (folded_base name)) rs
unfolding any_reserved
any_reserved_lem [] name = refl
any_reserved_lem (r ∷ rs) name = ground (
  arith,
  matches_reserved_lem name r,
  any_reserved_lem rs name,
  length-folded_base name,
  str_eq-length r (folded_base name),
)

too_long :
    (rs : List Bytes) (base : Bytes)
    → All (λ r. length r ≤ 4) rs
    → 4 < length base
    → any (λ r. str_eq r base) rs ≡ false
too_long [] base h l = refl
too_long (r ∷ rs) base (h, hs) l = ground (arith, str_eq-length r base, too_long rs base hs l)

no_base : any (λ r. str_eq r []) windows_reserved_names ≡ false
unfolding str_eq
no_base = refl

nil_of_length : (s : Bytes) → length s ≡ 0 → s ≡ []
nil_of_length [] h = refl
nil_of_length (c ∷ s) h = absurd (omega arith)

reserved_test :
    (rs : List Bytes) (name : Bytes)
    → All (λ r. length r ≤ 4) rs
    → any (λ r. str_eq r []) rs ≡ false
    → (if base_length name == 0 || ltb 4 (base_length name)
        then false
        else any_reserved rs name (base_length name))
      ≡ any (λ r. str_eq r (folded_base name)) rs
reserved_test rs name short filled = elim (Bool-cases (base_length name == 0)) [
  | inl empty ↦
      let none_left =
        nil_of_length (folded_base name)
          (length-folded_base name ∙ (==_iff (base_length name) 0).0 empty) in
      rw (empty, none_left) (sym filled)
  | inr more ↦ elim (Bool-cases (ltb 4 (base_length name))) [
    | inl long ↦
        rw (more, long)
          (sym (
            too_long rs (folded_base name) short
              (omega (arith, ltb→lt 4 (base_length name) long, length-folded_base name))))
    | inr fits ↦ rw (more, fits) (any_reserved_lem rs name)
  ]
]

-- A name is refused as a device exactly if what stands in front of its first dot is one of the 22
-- reserved names, in any case of the letters.
pub is_windows_reserved_name-any :
    (name : Bytes)
    → is_windows_reserved_name name ≡ any (λ r. str_eq r (folded_base name)) windows_reserved_names
unfolding is_windows_reserved_name
is_windows_reserved_name-any name = reserved_test windows_reserved_names name (omega arith) no_base
