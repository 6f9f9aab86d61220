-- ===== src/Range.antt =====
-- The range syntax of src/core/cve_match.c: `parse_op`, `op_holds` and `version_satisfies`.
pub mod Conditions
use crimp.Common.{
  Bool, Bytes, Option, Ordering, [], drop, false, if◌then◌else◌, is_nil, length, ltb, none, not,
  some, suc, true, zero, ℕ, ◌&&◌, ◌+◌, ◌==◌, ◌||◌, ◌∷◌,
}
use crimp.Version.{version_compare}

pub data RangeOp : Type 0 where
  op_lt op_le op_gt op_ge op_eq : RangeOp

-- `*p`, which is NUL at the end of the text.
abbrev pub peek : Bytes → ℕ
peek [] = 0
peek (c ∷ p) = c

-- `p[0]` and `p[1]` decide; `none` is `NULL`.
unfoldable pub parse_op : Bytes → Option (RangeOp × Bytes)
parse_op p =
    if peek p == b'<' && peek (drop 1 p) == b'='
    then some (op_le, drop 2 p)
    else if peek p == b'>' && peek (drop 1 p) == b'='
    then some (op_ge, drop 2 p)
    else if peek p == b'=' && peek (drop 1 p) == b'='
    then some (op_eq, drop 2 p)
    else if peek p == b'<'
    then some (op_lt, drop 1 p)
    else if peek p == b'>'
    then some (op_gt, drop 1 p)
    else none

unfoldable pub op_holds : RangeOp → Ordering → Bool
op_holds op_lt cmp = elim cmp [ Ordering.lt ↦ true | _ ↦ false ]
op_holds op_le cmp = elim cmp [ Ordering.gt ↦ false | _ ↦ true ]
op_holds op_gt cmp = elim cmp [ Ordering.gt ↦ true | _ ↦ false ]
op_holds op_ge cmp = elim cmp [ Ordering.lt ↦ false | _ ↦ true ]
op_holds op_eq cmp = elim cmp [ Ordering.eq ↦ true | _ ↦ false ]

-- `while (*p == ' ') { p++; }`
unfoldable pub skip_spaces : Bytes → Bytes
skip_spaces [] = []
skip_spaces (c ∷ p) = if c == b' ' then skip_spaces p else c ∷ p

-- The loop that fills `verbuf`, of 64 bytes, up to a comma.
unfoldable pub read_token : Bytes → ℕ → Bytes × Bytes
read_token [] i = ([], [])
read_token (c ∷ p) i =
    let rest = read_token p (i + 1) in
    if not (c == b',') && ltb i 63 then (c ∷ rest.0, rest.1) else ([], c ∷ p)

-- `if (*p == ',') { p++; }`
unfoldable pub skip_comma : Bytes → Bytes
skip_comma [] = []
skip_comma (c ∷ p) = if c == b',' then p else c ∷ p

-- The round of `version_satisfies` behind `parse_op`; `none` is `return 0`.
unfoldable pub check_token : Bytes → RangeOp → Bytes × Bytes → Option Bytes
unfolding skip_comma
check_token version op (verbuf, p) =
    if is_nil verbuf || (not (is_nil p) && not (peek p == b','))
    then none
    else if not (op_holds op (version_compare version verbuf))
    then none
    else some (skip_comma p)

unfoldable pub check_condition : Bytes → Option (RangeOp × Bytes) → Option Bytes
unfolding check_token read_token
check_condition version none = none
check_condition version (some (op, p)) = check_token version op (read_token p 0)

unfoldable pub satisfies_round : Bytes → Bytes → Option Bytes
unfolding check_condition skip_spaces parse_op
satisfies_round version p = check_condition version (parse_op (skip_spaces p))

-- The loop; `none` means that the fuel ran out.
unfoldable pub satisfies_loop : ℕ → Bytes → Bytes → Option Bool
satisfies_loop zero version p = none
satisfies_loop (suc fuel) version [] = some true
satisfies_loop (suc fuel) version (c ∷ p) = elim (satisfies_round version (c ∷ p)) [
  | none ↦ some false
  | some q ↦ satisfies_loop fuel version q
]

-- Every round drops a byte of `affected`.
abbrev pub satisfies_fuel : Bytes → ℕ
satisfies_fuel affected = suc (length affected)

abbrev result_or_false : Option Bool → Bool
result_or_false none = false
result_or_false (some b) = b

unfoldable pub version_satisfies : Bytes → Bytes → Bool
unfolding satisfies_loop satisfies_round
version_satisfies version affected =
    if is_nil affected
    then false
    else result_or_false (satisfies_loop (satisfies_fuel affected) version affected)
