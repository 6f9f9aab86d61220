-- ===== src/Common/Splits.antt =====
-- Predicates on lists, and the two parts that a test splits a list into.
use Prim.Native.Nat.{◌≤◌}
use mathlib.Core.Path.{◌≡◌, refl}
use mathlib.Core.Logic.{◌⊎◌, inl, inr}
use mathlib.Core.Bool.{Bool, true}
use mathlib.Core.List.{List, [], ◌∷◌}
use native.Mathlib.Omega.{arith}
use crimp.Common.Lists.{All, In, at_head, in_tail, length, drop, leading, trailing}
use crimp.Common.Tests.{Bool-cases}

module _ {ℓ κ} {A : Type ℓ} (P : A → Type κ) where
  pub All-In : (xs : List A) → All P xs → (x : A) → In x xs → P x
  All-In [] h y i = elim i [ ]
  All-In (x ∷ xs) (px, h) y at_head = px
  All-In (x ∷ xs) (px, h) y (in_tail i) = All-In xs h y i

  pub In-All : (xs : List A) → ((x : A) → In x xs → P x) → All P xs
  In-All [] h = tt
  In-All (x ∷ xs) h = (h x at_head, In-All xs (λ y i. h y (in_tail i)))

module _ {ℓ} {A : Type ℓ} (p : A → Bool) where
  pub leading-All : (xs : List A) → All (λ x. p x ≡ true) (leading p xs)
  leading-All [] = tt
  leading-All (x ∷ xs) = elim (Bool-cases (p x)) [
    | inl pass ↦ rw (pass, leading) (pass, leading-All xs)
    | inr stop ↦ rw (stop, leading) tt
  ]

  In-under : (x a : A) (xs ys : List A) → (In a xs → In a ys) → In a (x ∷ xs) → In a (x ∷ ys)
  In-under x a xs ys h at_head = at_head
  In-under x a xs ys h (in_tail i) = in_tail (h i)

  pub In-leading : (xs : List A) (a : A) → In a (leading p xs) → In a xs
  In-leading [] a i = i
  In-leading (x ∷ xs) a i = elim (Bool-cases (p x)) [
    | inl pass ↦ In-under x a (leading p xs) xs (In-leading xs a) (rw (pass, leading) at i)
    | inr stop ↦ elim (rw (stop, leading) at i) [ ]
  ]

  pub In-trailing : (xs : List A) (a : A) → In a (trailing p xs) → In a xs
  In-trailing [] a i = i
  In-trailing (x ∷ xs) a i = elim (Bool-cases (p x)) [
    | inl pass ↦ in_tail (In-trailing xs a (rw (pass, trailing) at i))
    | inr stop ↦ rw (stop, trailing) at i
  ]

  pub In-split : (xs : List A) (a : A) → In a xs → In a (leading p xs) ⊎ In a (trailing p xs)
  In-split [] a i = elim i [ ]
  In-split (x ∷ xs) a at_head = elim (Bool-cases (p x)) [
    | inl pass ↦ inl (rw (pass, leading) at_head)
    | inr stop ↦ inr (rw (stop, trailing) at_head)
  ]
  In-split (x ∷ xs) a (in_tail i) = elim (Bool-cases (p x)) [
    | inl pass ↦
        rw (pass, leading, trailing)
          (elim (In-split xs a i) [ inl j ↦ inl (in_tail j) | inr j ↦ inr j ])
    | inr stop ↦ inr (rw (stop, trailing) (in_tail i))
  ]

  pub length-trailing_le : (xs : List A) → length (trailing p xs) ≤ length xs
  length-trailing_le [] = omega arith
  length-trailing_le (x ∷ xs) = elim (Bool-cases (p x)) [
    | inl pass ↦ rw (pass, trailing) (omega (arith, length-trailing_le xs))
    | inr stop ↦ rw (stop, trailing) (omega arith)
  ]

  pub length-leading_le : (xs : List A) → length (leading p xs) ≤ length xs
  length-leading_le [] = omega arith
  length-leading_le (x ∷ xs) = elim (Bool-cases (p x)) [
    | inl pass ↦ rw (pass, length) (omega (arith, length-leading_le xs))
    | inr stop ↦ rw (stop, length) (omega arith)
  ]

  pub drop-leading : (xs : List A) → drop (length (leading p xs)) xs ≡ trailing p xs
  drop-leading [] = refl
  drop-leading (x ∷ xs) = elim (Bool-cases (p x)) [
    | inl pass ↦ rw (pass, length, trailing) (drop-leading xs)
    | inr stop ↦ rw (stop, length, trailing) refl
  ]
