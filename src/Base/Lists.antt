-- ===== src/Base/Lists.antt =====
-- Lists measured by native numbers, under the library's names, and what a text ends with.
use Prim.Native.Nat.{ℕ, zero, suc, ◌+◌, ◌-◌, ◌≤◌, min}
use mathlib.Core.Path.{◌≡◌, refl, ap}
use mathlib.Core.List.{List, [], ◌∷◌, ◌++◌}
use mathlib.Core.Option.{Option, none, some}
use native.Mathlib.Omega.{arith}

module _ {ℓ} {A : Type ℓ} where
  abbrev pub length : List A → ℕ
  length [] = 0
  length (x ∷ xs) = suc (length xs)

  abbrev pub take : ℕ → List A → List A
  take zero xs = []
  take (suc n) [] = []
  take (suc n) (x ∷ xs) = x ∷ take n xs

  abbrev pub drop : ℕ → List A → List A
  drop zero xs = xs
  drop (suc n) [] = []
  drop (suc n) (x ∷ xs) = drop n xs

  abbrev pub get_elem? : List A → ℕ → Option A
  get_elem? [] i = none
  get_elem? (x ∷ xs) zero = some x
  get_elem? (x ∷ xs) (suc i) = get_elem? xs i

  abbrev pub head? : List A → Option A
  head? [] = none
  head? (x ∷ xs) = some x

  abbrev pub last_from : A → List A → A
  last_from x [] = x
  last_from x (y ∷ ys) = last_from y ys

  abbrev pub last? : List A → Option A
  last? [] = none
  last? (x ∷ xs) = some (last_from x xs)

  abbrev pub init_from : A → List A → List A
  init_from x [] = []
  init_from x (y ∷ ys) = x ∷ init_from y ys

  -- All but the last element.
  abbrev pub drop_last : List A → List A
  drop_last [] = []
  drop_last (x ∷ xs) = init_from x xs

module _ {ℓ} {A : Type ℓ} where
  pub length-append : (xs ys : List A) → length (xs ++ ys) ≡ length xs + length ys
  length-append [] ys = omega arith
  length-append (x ∷ xs) ys = omega (arith, length-append xs ys)

  pub length-take-le : (n : ℕ) (xs : List A) → length (take n xs) ≤ n
  length-take-le zero xs = omega arith
  length-take-le (suc n) [] = omega arith
  length-take-le (suc n) (x ∷ xs) = omega (arith, length-take-le n xs)

  pub length-take : (n : ℕ) (xs : List A) → length (take n xs) ≡ min n (length xs)
  length-take zero xs = omega arith
  length-take (suc n) [] = omega arith
  length-take (suc n) (x ∷ xs) = omega (arith, length-take n xs)

  pub length-drop : (n : ℕ) (xs : List A) → length (drop n xs) ≡ length xs - n
  length-drop zero xs = omega arith
  length-drop (suc n) [] = omega arith
  length-drop (suc n) (x ∷ xs) = omega (arith, length-drop n xs)

  pub take-all : (n : ℕ) (xs : List A) → length xs ≤ n → take n xs ≡ xs
  take-all zero [] h = refl
  take-all zero (x ∷ xs) h = absurd (omega arith)
  take-all (suc n) [] h = refl
  take-all (suc n) (x ∷ xs) h = ap (λ l. x ∷ l) (take-all n xs (omega arith))

  pub drop-append : (xs ys : List A) → drop (length xs) (xs ++ ys) ≡ ys
  drop-append [] ys = refl
  drop-append (x ∷ xs) ys = drop-append xs ys

  pub take-append : (xs ys : List A) → take (length xs) (xs ++ ys) ≡ xs
  take-append [] ys = refl
  take-append (x ∷ xs) ys = ap (λ l. x ∷ l) (take-append xs ys)

  last_from-snoc : (x y : A) (xs : List A) → last_from x (xs ++ y ∷ []) ≡ y
  last_from-snoc x y [] = refl
  last_from-snoc x y (z ∷ xs) = last_from-snoc z y xs

  pub last?-snoc : (xs : List A) (y : A) → last? (xs ++ y ∷ []) ≡ some y
  last?-snoc [] y = refl
  last?-snoc (x ∷ xs) y = ap some (last_from-snoc x y xs)

  init_from-snoc : (x y : A) (xs : List A) → init_from x (xs ++ y ∷ []) ≡ x ∷ xs
  init_from-snoc x y [] = refl
  init_from-snoc x y (z ∷ xs) = ap (λ l. x ∷ l) (init_from-snoc z y xs)

  pub drop_last-snoc : (xs : List A) (y : A) → drop_last (xs ++ y ∷ []) ≡ xs
  drop_last-snoc [] y = refl
  drop_last-snoc (x ∷ xs) y = init_from-snoc x y xs
