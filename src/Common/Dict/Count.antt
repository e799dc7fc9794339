-- ===== src/Common/Dict/Count.antt =====
-- How many values of a dictionary pass a test.
use mathlib.Core.Path.{◌≡◌}
use mathlib.Core.Bool.{Bool, true}
use mathlib.Core.Option.{Option, none, some}
use mathlib.Core.List.{[], ◌∷◌}
use Prim.Native.Nat.{ℕ, ◌+◌}
use native.Mathlib.Omega.{arith}
use anti_bot_gw.Common.Tests.{if◌then◌else◌}
use anti_bot_gw.Common.Lists.{length, filter}
use anti_bot_gw.Common.Keys.{Eq}
use anti_bot_gw.Common.Dict.{Dict, get, put, remove, mem, Unique}
use anti_bot_gw.Common.Sort.Keyed.{firsts}

-- what one entry counts for
abbrev pub weight {ℓ} : {V : Type ℓ} → (V → Bool) → Option V → ℕ
weight p none = 0
weight p (some v) = if p v then 1 else 0

module _ {ℓ} {K V : Type ℓ} ⦃e : Eq K⦄ (p : V → Bool) where
  -- `len([k for k, v in d.items() if p(v)])`
  unfoldable pub count_values : Dict K V → ℕ
  count_values d = length (filter (λ (q : K × V). p q.1) d)

  pub count_values-put :
      (k : K) (v : V) (d : Dict K V)
      → count_values (put k v d) + weight p (get k d) ≡ count_values d + weight p (some v)
  unfolding count_values put get filter
  count_values-put k v [] = ground arith
  count_values-put k v ((j, w) ∷ d) = ground (arith, count_values-put k v d)

  pub count_values-remove :
      (k : K) (d : Dict K V)
      → Unique d
      → count_values (remove k d) + weight p (get k d) ≡ count_values d
  unfolding count_values remove get filter
  count_values-remove k [] u = ground arith
  count_values-remove k ((j, w) ∷ d) u =
      ground (arith, count_values-remove k d u.1, e.beq_iff j k, u.0)

  pub mem-filter_values :
      (k : K) (v : V) (d : Dict K V)
      → get k d ≡ some v
      → p v ≡ true
      → mem k (firsts (filter (λ (q : K × V). p q.1) d)) ≡ true
  unfolding mem get filter
  mem-filter_values k v [] h g = absurd (ground (arith, h))
  mem-filter_values k v ((j, w) ∷ d) h g = ground (arith, h, g, mem-filter_values k v d)
