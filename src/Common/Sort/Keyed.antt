-- ===== src/Common/Sort/Keyed.antt =====
-- Sorting pairs keeps the set of their first components.
use mathlib.Core.Path.{◌≡◌, refl, ap, ◌∙◌}
use mathlib.Core.Bool.{false, ◌||◌}
use mathlib.Core.List.{List, [], ◌∷◌}
use Prim.Native.Nat.{ℕ, zero, suc}
use native.Mathlib.Omega.{arith}
use anti_bot_gw.Common.Lists.{length, take}
use anti_bot_gw.Common.Keys.{Eq, ◌==◌}
use anti_bot_gw.Common.Dict.{mem}
use anti_bot_gw.Common.Sort.{insert, sorted}

abbrev pub Distinct {ℓ} : {K : Type ℓ} ⦃e : Eq K⦄ → List K → Type ℓ
Distinct [] = Unit
Distinct (k ∷ ks) = (mem k ks ≡ false) × Distinct ks

module _ {ℓ} {K B : Type ℓ} ⦃e : Eq K⦄ where
  -- `[k for k, _ in xs]`
  abbrev pub firsts : List (K × B) → List K
  firsts [] = []
  firsts ((k, b) ∷ xs) = k ∷ firsts xs

  module _ (key : K × B → ℕ) where
    mem-firsts-insert :
        (k j : K) (b : B) (xs : List (K × B))
        → mem k (firsts (insert key (j, b) xs)) ≡ ((j == k) || mem k (firsts xs))
    unfolding insert mem
    mem-firsts-insert k j b [] = refl
    mem-firsts-insert k j b ((i, c) ∷ xs) = ground (arith, mem-firsts-insert k j b xs)

    pub mem-firsts-sorted :
        (k : K) (xs : List (K × B)) → mem k (firsts (sorted key xs)) ≡ mem k (firsts xs)
    unfolding sorted mem
    mem-firsts-sorted k [] = refl
    mem-firsts-sorted k ((j, b) ∷ xs) =
        ground (arith, mem-firsts-insert k j b (sorted key xs), mem-firsts-sorted k xs)

    Distinct-insert :
        (j : K) (b : B) (xs : List (K × B))
        → mem j (firsts xs) ≡ false
        → Distinct (firsts xs)
        → Distinct (firsts (insert key (j, b) xs))
    unfolding insert mem
    Distinct-insert j b [] out u = (refl, tt)
    Distinct-insert j b ((i, c) ∷ xs) out u =
        ground
          (arith, Distinct-insert j b xs, mem-firsts-insert i j b xs, e.beq_iff i j, e.beq_iff j i)

    pub Distinct-sorted :
        (xs : List (K × B)) → Distinct (firsts xs) → Distinct (firsts (sorted key xs))
    unfolding sorted
    Distinct-sorted [] u = tt
    Distinct-sorted ((j, b) ∷ xs) u =
        Distinct-insert j b (sorted key xs) (mem-firsts-sorted j xs ∙ u.0) (Distinct-sorted xs u.1)

  pub mem-firsts-take :
      (k : K) (n : ℕ) (xs : List (K × B))
      → mem k (firsts xs) ≡ false
      → mem k (firsts (take n xs)) ≡ false
  unfolding mem
  mem-firsts-take k zero xs h = refl
  mem-firsts-take k (suc n) [] h = refl
  mem-firsts-take k (suc n) ((i, c) ∷ xs) h = ground (arith, mem-firsts-take k n xs)

  pub Distinct-take :
      (n : ℕ) (xs : List (K × B)) → Distinct (firsts xs) → Distinct (firsts (take n xs))
  Distinct-take zero xs u = tt
  Distinct-take (suc n) [] u = tt
  Distinct-take (suc n) ((i, c) ∷ xs) u = (mem-firsts-take i n xs u.0, Distinct-take n xs u.1)

  pub length-firsts : (xs : List (K × B)) → length (firsts xs) ≡ length xs
  length-firsts [] = refl
  length-firsts ((k, b) ∷ xs) = ap suc (length-firsts xs)
