-- ===== src/Common/Sort.antt =====
-- `sorted(xs, key=f)` and `sorted(xs, key=f, reverse=True)`: stable insertion sorts.
pub mod Keyed
use mathlib.Core.Path.{◌≡◌, refl, ap}
use mathlib.Core.Bool.{Bool, true, false, ◌||◌}
use mathlib.Core.List.{List, [], ◌∷◌, ◌++◌}
use Prim.Native.Nat.{ℕ, zero, suc, ◌+◌, ◌-◌, ◌≤◌, ◌<◌, min}
use native.Mathlib.Omega.{arith}
use anti_bot_gw.Common.Tests.{if◌then◌else◌, leb, ltb}
use anti_bot_gw.Common.Lists.{length, take, drop, All}

module _ {ℓ} {A : Type ℓ} (key : A → ℕ) where
  insert : A → List A → List A
  insert x [] = x ∷ []
  insert x (y ∷ ys) = let rest = insert x ys in if leb (key x) (key y) then x ∷ y ∷ ys else y ∷ rest

  unfoldable pub sorted : List A → List A
  unfolding insert
  sorted [] = []
  sorted (x ∷ xs) = insert x (sorted xs)

  insert_reverse : A → List A → List A
  insert_reverse x [] = x ∷ []
  insert_reverse x (y ∷ ys) =
      let rest = insert_reverse x ys in if leb (key y) (key x) then x ∷ y ∷ ys else y ∷ rest

  unfoldable pub sorted_reverse : List A → List A
  unfolding insert_reverse
  sorted_reverse [] = []
  sorted_reverse (x ∷ xs) = insert_reverse x (sorted_reverse xs)

  length-insert : (x : A) (xs : List A) → length (insert x xs) ≡ suc (length xs)
  unfolding insert
  length-insert x [] = refl
  length-insert x (y ∷ ys) = ground (arith, length-insert x ys)

  pub length-sorted : (xs : List A) → length (sorted xs) ≡ length xs
  unfolding sorted
  length-sorted [] = refl
  length-sorted (x ∷ xs) = omega (arith, length-insert x (sorted xs), length-sorted xs)

  length-insert_reverse : (x : A) (xs : List A) → length (insert_reverse x xs) ≡ suc (length xs)
  unfolding insert_reverse
  length-insert_reverse x [] = refl
  length-insert_reverse x (y ∷ ys) = ground (arith, length-insert_reverse x ys)

  pub length-sorted_reverse : (xs : List A) → length (sorted_reverse xs) ≡ length xs
  unfolding sorted_reverse
  length-sorted_reverse [] = refl
  length-sorted_reverse (x ∷ xs) =
      omega (arith, length-insert_reverse x (sorted_reverse xs), length-sorted_reverse xs)

  -- Every element's key is at least, and each list is in the order of its keys.
  abbrev pub AtLeast : ℕ → List A → Type 0
  AtLeast n [] = Unit
  AtLeast n (x ∷ xs) = (n ≤ key x) × AtLeast n xs

  abbrev pub IsSorted : List A → Type 0
  IsSorted [] = Unit
  IsSorted (x ∷ xs) = AtLeast (key x) xs × IsSorted xs

  AtLeast-le : (m n : ℕ) (xs : List A) → m ≤ n → AtLeast n xs → AtLeast m xs
  AtLeast-le m n [] h a = tt
  AtLeast-le m n (x ∷ xs) h a = (omega arith, AtLeast-le m n xs h a.1)

  AtLeast-insert :
      (n : ℕ) (x : A) (xs : List A) → n ≤ key x → AtLeast n xs → AtLeast n (insert x xs)
  unfolding insert
  AtLeast-insert n x [] h a = (h, tt)
  AtLeast-insert n x (y ∷ ys) h a = ground (arith, AtLeast-insert n x ys)

  insert-IsSorted : (x : A) (xs : List A) → IsSorted xs → IsSorted (insert x xs)
  unfolding insert
  insert-IsSorted x [] s = (tt, tt)
  insert-IsSorted x (y ∷ ys) s =
      ground
        (arith, insert-IsSorted x ys, AtLeast-insert (key y) x ys, AtLeast-le (key x) (key y) ys)

  pub sorted-IsSorted : (xs : List A) → IsSorted (sorted xs)
  unfolding sorted
  sorted-IsSorted [] = tt
  sorted-IsSorted (x ∷ xs) = insert-IsSorted x (sorted xs) (sorted-IsSorted xs)
