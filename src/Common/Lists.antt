-- ===== src/Common/Lists.antt =====
-- Lists measured and indexed by native numbers, under the library's names, and predicates on lists.
use Prim.Native.Nat.{ℕ, zero, suc, ◌+◌, ◌-◌, ◌≤◌, ◌<◌}
use mathlib.Core.Path.{◌≡◌, refl, ap, ◌∙◌}
use mathlib.Core.Bool.{Bool, true, false, ◌||◌, ◌&&◌}
use mathlib.Core.List.{List, [], ◌∷◌, ◌++◌}
use mathlib.Core.Option.{Option, none, some}
use native.Mathlib.Omega.{arith}

suc_add : (m n : ℕ) → suc (m + n) ≡ suc m + n
suc_add m n = omega arith

module _ {ℓ} {A : Type ℓ} where
  abbrev pub length : List A → ℕ
  length [] = 0
  length (x ∷ xs) = suc (length xs)

  abbrev pub is_nil : List A → Bool
  is_nil [] = true
  is_nil (x ∷ xs) = false

  abbrev pub get_elem? : List A → ℕ → Option A
  get_elem? [] i = none
  get_elem? (x ∷ xs) zero = some x
  get_elem? (x ∷ xs) (suc i) = get_elem? xs i

  abbrev pub take : ℕ → List A → List A
  take zero xs = []
  take (suc n) [] = []
  take (suc n) (x ∷ xs) = x ∷ take n xs

  abbrev pub drop : ℕ → List A → List A
  drop zero xs = xs
  drop (suc n) [] = []
  drop (suc n) (x ∷ xs) = drop n xs

  abbrev pub keep : (A → Bool) → List A → List A
  keep p [] = []
  keep p (x ∷ xs) = elim (p x) [ true ↦ x ∷ keep p xs | false ↦ keep p xs ]

  abbrev pub any : (A → Bool) → List A → Bool
  any p [] = false
  any p (x ∷ xs) = p x || any p xs

  abbrev pub every : (A → Bool) → List A → Bool
  every p [] = true
  every p (x ∷ xs) = p x && every p xs

  -- Puts an element on the front of the first list.
  abbrev pub cons_head : A → List (List A) → List (List A)
  cons_head x [] = (x ∷ []) ∷ []
  cons_head x (p ∷ ps) = (x ∷ p) ∷ ps

  -- The longest prefix whose elements pass the test, and what follows it.
  abbrev pub leading : (A → Bool) → List A → List A
  leading p [] = []
  leading p (x ∷ xs) = elim (p x) [ true ↦ x ∷ leading p xs | false ↦ [] ]

  abbrev pub trailing : (A → Bool) → List A → List A
  trailing p [] = []
  trailing p (x ∷ xs) = elim (p x) [ true ↦ trailing p xs | false ↦ x ∷ xs ]

  pub length-append : (xs ys : List A) → length (xs ++ ys) ≡ length xs + length ys
  length-append [] ys = omega arith
  length-append (x ∷ xs) ys = omega (arith, length-append xs ys)

  pub length-take_le : (n : ℕ) (xs : List A) → length (take n xs) ≤ n
  length-take_le zero xs = omega arith
  length-take_le (suc n) [] = omega arith
  length-take_le (suc n) (x ∷ xs) = omega (arith, length-take_le n xs)

  pub take-all : (n : ℕ) (xs : List A) → length xs ≤ n → take n xs ≡ xs
  take-all zero [] h = refl
  take-all zero (x ∷ xs) h = elim h [ ]
  take-all (suc n) [] h = refl
  take-all (suc n) (x ∷ xs) h = ap (λ r. x ∷ r) (take-all n xs (omega arith))

  pub length-drop : (n : ℕ) (xs : List A) → length (drop n xs) ≡ length xs - n
  length-drop zero xs = omega arith
  length-drop (suc n) [] = omega arith
  length-drop (suc n) (x ∷ xs) = omega (arith, length-drop n xs)

  pub drop-nil : (n : ℕ) → drop n [] ≡ []
  drop-nil zero = refl
  drop-nil (suc n) = refl

  pub drop-drop : (m n : ℕ) (xs : List A) → drop n (drop m xs) ≡ drop (m + n) xs
  drop-drop zero n xs = ap (λ k. drop k xs) (omega arith)
  drop-drop (suc m) n [] = drop-nil n ∙ ap (λ k. drop k []) (suc_add m n)
  drop-drop (suc m) n (x ∷ xs) = drop-drop m n xs ∙ ap (λ k. drop k (x ∷ xs)) (suc_add m n)

  pub take-append : (xs ys : List A) → take (length xs) (xs ++ ys) ≡ xs
  take-append [] ys = refl
  take-append (x ∷ xs) ys = ap (λ r. x ∷ r) (take-append xs ys)

  pub drop-append : (xs ys : List A) → drop (length xs) (xs ++ ys) ≡ ys
  drop-append [] ys = refl
  drop-append (x ∷ xs) ys = drop-append xs ys

  pub length-take : (n : ℕ) (xs : List A) → n ≤ length xs → length (take n xs) ≡ n
  length-take zero xs h = refl
  length-take (suc n) [] h = absurd (omega arith)
  length-take (suc n) (x ∷ xs) h = ap suc (length-take n xs (omega arith))

module _ {ℓ} {A : Type ℓ} where
  pub get_elem?-take : (n i : ℕ) (xs : List A) → i < n → get_elem? (take n xs) i ≡ get_elem? xs i
  get_elem?-take zero i xs h = elim h [ ]
  get_elem?-take (suc n) i [] h = refl
  get_elem?-take (suc n) zero (x ∷ xs) h = refl
  get_elem?-take (suc n) (suc i) (x ∷ xs) h = get_elem?-take n i xs (omega arith)

  pub get_elem?-drop : (n i : ℕ) (xs : List A) → get_elem? (drop n xs) i ≡ get_elem? xs (n + i)
  get_elem?-drop zero i xs = ap (get_elem? xs) (omega arith)
  get_elem?-drop (suc n) i [] = refl
  get_elem?-drop (suc n) i (x ∷ xs) = get_elem?-drop n i xs ∙ ap (get_elem? (x ∷ xs)) (suc_add n i)

  pub get_elem?-append_left :
      (i : ℕ) (xs ys : List A) → i < length xs → get_elem? (xs ++ ys) i ≡ get_elem? xs i
  get_elem?-append_left i [] ys h = elim h [ ]
  get_elem?-append_left zero (x ∷ xs) ys h = refl
  get_elem?-append_left (suc i) (x ∷ xs) ys h = get_elem?-append_left i xs ys (omega arith)

  pub get_elem?-append_right :
      (i : ℕ) (xs ys : List A)
      → length xs ≤ i
      → get_elem? (xs ++ ys) i ≡ get_elem? ys (i - length xs)
  get_elem?-append_right i [] ys h = ap (get_elem? ys) (omega arith)
  get_elem?-append_right zero (x ∷ xs) ys h = absurd (omega arith)
  get_elem?-append_right (suc i) (x ∷ xs) ys h =
      get_elem?-append_right i xs ys (omega arith) ∙ ap (get_elem? ys) (omega arith)

-- A predicate on every element, by recursion.
abbrev pub All {ℓ κ} : {A : Type ℓ} → (A → Type κ) → List A → Type κ
All P [] = Unit
All P (x ∷ xs) = P x × All P xs

-- Membership as data: where the element stands.
pub data In {ℓ} {A : Type ℓ} (a : A) : List A → Type ℓ where
  at_head : {xs : List A} → In a (a ∷ xs)
  in_tail : {x : A} {xs : List A} → In a xs → In a (x ∷ xs)

module _ {ℓ} {A : Type ℓ} where
  pub In-append_left : {a : A} (xs ys : List A) → In a xs → In a (xs ++ ys)
  In-append_left [] ys i = elim i [ ]
  In-append_left (x ∷ xs) ys at_head = at_head
  In-append_left (x ∷ xs) ys (in_tail i) = in_tail (In-append_left xs ys i)

  pub In-append_right : {a : A} (xs ys : List A) → In a ys → In a (xs ++ ys)
  In-append_right [] ys i = i
  In-append_right (x ∷ xs) ys i = in_tail (In-append_right xs ys i)

  pub All-append {κ} : (P : A → Type κ) (xs ys : List A) → All P xs → All P ys → All P (xs ++ ys)
  All-append P [] ys _ hy = hy
  All-append P (x ∷ xs) ys (px, hx) hy = (px, All-append P xs ys hx hy)
