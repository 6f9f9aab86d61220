-- ===== src/Range/Conditions.antt =====
-- `version_satisfies` against its specification: `affected` is cut at commas, and every part holds.
use crimp.Common.{
  Bool, Bool-cases, Bytes, List, Option, [], arith, cons_head, every, false, if◌then◌else◌, inl,
  inr, is_nil, leb, length, ltb, none, not, refl, some, suc, zero, ℕ, ◌&&◌, ◌+◌, ◌<◌, ◌==◌, ◌∷◌,
  ◌≡◌, ◌≤◌,
}
use native.Mathlib.Decide.{dec_le}
use crimp.Version.{version_compare}
use crimp.Range.{
  RangeOp, peek, parse_op, op_holds, skip_spaces, read_token, skip_comma, check_token,
  check_condition, satisfies_round, satisfies_loop, satisfies_fuel, version_satisfies,
}

-- The parts between the commas; one comma at the end adds no part.
unfoldable pub comma_parts : Bytes → List Bytes
comma_parts [] = []
comma_parts (c ∷ s) = if c == b',' then [] ∷ comma_parts s else cons_head c (comma_parts s)

abbrev pub condition_holds : Bytes → Option (RangeOp × Bytes) → Bool
condition_holds version none = false
condition_holds version (some (op, token)) =
    ltb 0 (length token) && leb (length token) 63 && op_holds op (version_compare version token)

-- One part: spaces, an operator, and a version of 1 to 63 bytes that the operator relates to.
abbrev pub part_holds : Bytes → Bytes → Bool
part_holds version part = condition_holds version (parse_op (skip_spaces part))

upto : Bytes → Bytes
upto [] = []
upto (c ∷ s) = if c == b',' then [] else c ∷ upto s

from_comma : Bytes → Bytes
from_comma [] = []
from_comma (c ∷ s) = if c == b',' then c ∷ s else from_comma s

comma_parts_lem :
    (c : ℕ) (s : Bytes)
    → comma_parts (c ∷ s) ≡ upto (c ∷ s) ∷ comma_parts (skip_comma (from_comma (c ∷ s)))
unfolding comma_parts upto from_comma skip_comma
comma_parts_lem c [] = ground arith
comma_parts_lem c (d ∷ s) = ground (arith, comma_parts_lem d s)

skip_spaces-upto : (s : Bytes) → skip_spaces (upto s) ≡ upto (skip_spaces s)
unfolding skip_spaces upto
skip_spaces-upto [] = refl
skip_spaces-upto (c ∷ s) = ground (arith, skip_spaces-upto s)

from_comma-skip_spaces : (s : Bytes) → from_comma (skip_spaces s) ≡ from_comma s
unfolding skip_spaces from_comma
from_comma-skip_spaces [] = refl
from_comma-skip_spaces (c ∷ s) = ground (arith, from_comma-skip_spaces s)

abbrev upto_op : Option (RangeOp × Bytes) → Option (RangeOp × Bytes)
upto_op none = none
upto_op (some (op, q)) = some (op, upto q)

parse_op-upto : (s : Bytes) → parse_op (upto s) ≡ upto_op (parse_op s)
unfolding parse_op upto
parse_op-upto [] = refl
parse_op-upto (c ∷ []) = ground arith
parse_op-upto (c ∷ d ∷ s) = ground arith

parse_op-from_comma :
    (s q : Bytes) (op : RangeOp) → parse_op s ≡ some (op, q) → from_comma q ≡ from_comma s
unfolding parse_op from_comma
parse_op-from_comma [] q op h = ground arith
parse_op-from_comma (c ∷ []) q op h = ground arith
parse_op-from_comma (c ∷ d ∷ s) q op h = ground arith

read_token_fits :
    (q : Bytes) (i k : ℕ)
    → i + k ≡ 63
    → length (upto q) ≤ k
    → read_token q i ≡ (upto q, from_comma q)
unfolding read_token upto from_comma
read_token_fits [] i k e h = refl
read_token_fits (c ∷ q) i zero e h = ground arith
read_token_fits (c ∷ q) i (suc k) e h = ground (arith, read_token_fits q (i + 1) k)

-- A token that does not fit the buffer leaves the loop in front of a byte that is no delimiter.
read_token_long :
    (q : Bytes) (i k : ℕ)
    → i + k ≡ 63
    → k < length (upto q)
    → (is_nil (read_token q i).1 ≡ false) × ((peek (read_token q i).1 == b',') ≡ false)
unfolding read_token upto
read_token_long [] i k e h = absurd (omega arith)
read_token_long (c ∷ q) i zero e h = ground arith
read_token_long (c ∷ q) i (suc k) e h = ground (arith, read_token_long q (i + 1) k)

from_comma_head :
    (q : Bytes) → (not (is_nil (from_comma q)) && not (peek (from_comma q) == b',')) ≡ false
unfolding from_comma
from_comma_head [] = refl
from_comma_head (c ∷ q) = ground (arith, from_comma_head q)

abbrev when : Bool → Bytes → Option Bytes
when b q = if b then some q else none

check_token_fits :
    (version t r : Bytes) (op : RangeOp)
    → (not (is_nil r) && not (peek r == b',')) ≡ false
    → length t ≤ 63
    → check_token version op (t, r) ≡ when (condition_holds version (some (op, t))) (skip_comma r)
unfolding check_token
check_token_fits version [] r op h small = refl
check_token_fits version (c ∷ t) r op h small =
    rw h (ground (arith, op_holds op (version_compare version (c ∷ t))))

check_token_long :
    (version : Bytes) (op : RangeOp) (read : Bytes × Bytes)
    → is_nil read.1 ≡ false
    → (peek read.1 == b',') ≡ false
    → check_token version op read ≡ none
unfolding check_token
check_token_long version op ([], r) h k = refl
check_token_long version op (c ∷ t, r) h k = rw (h, k)

check_condition_lem :
    (version : Bytes) (found : Option (RangeOp × Bytes)) (s : Bytes)
    → ((q : Bytes) (op : RangeOp) → found ≡ some (op, q) → from_comma q ≡ from_comma s)
    → check_condition version found
      ≡ when (condition_holds version (upto_op found)) (skip_comma (from_comma s))
unfolding check_condition
check_condition_lem version none s same = refl
check_condition_lem version (some (op, q)) s same = elim (dec_le (length (upto q)) 63) [
  | yes small ↦
      rw (read_token_fits q 0 63 refl small, ← same q op refl)
        (check_token_fits version (upto q) (from_comma q) op (from_comma_head q) small)
  | no large ↦
      let (more, other) = read_token_long q 0 63 refl (omega arith) in
      rw (check_token_long version op (read_token q 0) more other) (ground arith)
]

satisfies_round_lem :
    (version s : Bytes)
    → satisfies_round version s ≡ when (part_holds version (upto s)) (skip_comma (from_comma s))
unfolding satisfies_round
satisfies_round_lem version s =
    rw (skip_spaces-upto s, parse_op-upto (skip_spaces s), ← from_comma-skip_spaces s)
      (check_condition_lem version (parse_op (skip_spaces s)) (skip_spaces s)
        (λ q op h. parse_op-from_comma (skip_spaces s) q op h))

length-next : (c : ℕ) (s : Bytes) → length (skip_comma (from_comma (c ∷ s))) ≤ length s
unfolding from_comma skip_comma
length-next c [] = ground arith
length-next c (d ∷ s) = ground (arith, length-next d s)

satisfies_loop_lem :
    (fuel : ℕ) (version p : Bytes)
    → length p < fuel
    → satisfies_loop fuel version p ≡ some (every (part_holds version) (comma_parts p))
unfolding satisfies_loop
satisfies_loop_lem zero version p h = absurd (omega arith)
satisfies_loop_lem (suc fuel) version [] h = unfold comma_parts in refl
satisfies_loop_lem (suc fuel) version (c ∷ p) h =
    rw (satisfies_round_lem version (c ∷ p), satisfies_loop, comma_parts_lem c p)
      (elim (Bool-cases (part_holds version (upto (c ∷ p)))) [
        | inl holds ↦ rw holds (satisfies_loop_lem fuel version _ (omega (arith, length-next c p)))
        | inr fails ↦ rw fails
      ])

-- The loop of `version_satisfies` ends within the fuel and decides every part.
pub satisfies_loop-total :
    (version affected : Bytes)
    → satisfies_loop (satisfies_fuel affected) version affected
      ≡ some (every (part_holds version) (comma_parts affected))
satisfies_loop-total version affected =
    satisfies_loop_lem (satisfies_fuel affected) version affected (omega arith)

-- A version satisfies a condition list exactly when the list is not empty and every part of it
-- between commas, less the spaces at the front of the part, is an operator with a version of 1 to 63
-- bytes that the operator relates to; a part of any other form makes the whole list fail, and one
-- comma at the end is ignored.
pub version_satisfies-every :
    (version affected : Bytes)
    → version_satisfies version affected
      ≡ (not (is_nil affected) && every (part_holds version) (comma_parts affected))
unfolding version_satisfies
version_satisfies-every version [] = refl
version_satisfies-every version (c ∷ affected) = rw (satisfies_loop-total version (c ∷ affected))
