-- ===== src/Common/Dict/Present.antt =====
-- Lists of keys of a dictionary, and the deletion of such a list.
use mathlib.Core.Path.{◌≡◌, refl}
use mathlib.Core.Bool.{Bool, true, false}
use mathlib.Core.Option.{none}
use mathlib.Core.List.{List, [], ◌∷◌}
use Prim.Native.Nat.{◌+◌}
use native.Mathlib.Omega.{arith}
use anti_bot_gw.Common.Tests.{if◌then◌else◌}
use anti_bot_gw.Common.Lists.{length}
use anti_bot_gw.Common.Keys.{Eq, ◌==◌, beq_refl}
use anti_bot_gw.Common.Dict.{Dict, get, member, remove, remove_all, keys_where, mem, Unique}
use anti_bot_gw.Common.Dict.Laws.{get-remove, remove-Unique, length-remove, mem-keys_where}
use anti_bot_gw.Common.Sort.Keyed.{firsts, Distinct}

module _ {ℓ} {K V : Type ℓ} ⦃e : Eq K⦄ where
  -- Every key of the list is in the dictionary.
  abbrev pub Present : Dict K V → List K → Type 0
  Present d [] = Unit
  Present d (k ∷ ks) = (member k d ≡ true) × Present d ks

  pub Present-of :
      (d : Dict K V) (ks : List K) → ((j : K) → mem j ks ≡ true → member j d ≡ true) → Present d ks
  unfolding mem
  Present-of d [] h = tt
  Present-of d (k ∷ ks) h =
      (h k (ground (arith, beq_refl k)), Present-of d ks (λ j m. h j (ground arith)))

  pub Distinct-keys_where : (p : K → V → Bool) (d : Dict K V) → Unique d → Distinct (keys_where p d)
  unfolding keys_where
  Distinct-keys_where p [] u = tt
  Distinct-keys_where p ((k, s) ∷ d) u =
      ground (arith, mem-keys_where p k d u.1, Distinct-keys_where p d u.1)

  pub Present-keys_where : (p : K → V → Bool) (d : Dict K V) → Unique d → Present d (keys_where p d)
  Present-keys_where p d u =
      Present-of d (keys_where p d) (λ j m. ground (arith, mem-keys_where p j d u))

  pub mem-firsts : (k : K) (d : Dict K V) → mem k (firsts d) ≡ member k d
  unfolding mem get
  mem-firsts k [] = refl
  mem-firsts k ((j, v) ∷ d) = ground (arith, mem-firsts k d)

  pub Distinct-firsts : (d : Dict K V) → Unique d → Distinct (firsts d)
  Distinct-firsts [] u = tt
  Distinct-firsts ((k, v) ∷ d) u = (ground (arith, mem-firsts k d), Distinct-firsts d u.1)

  -- Deleting one key leaves the others present.
  pub Present-remove :
      (k : K) (ks : List K) (d d' : Dict K V)
      → ((j : K) → get j d' ≡ (if k == j then none else get j d))
      → mem k ks ≡ false
      → Present d ks
      → Present d' ks
  unfolding mem
  Present-remove k [] d d' g out p = tt
  Present-remove k (j ∷ ks) d d' g out p = (
    ground (arith, g j, p.0, e.beq_iff k j, e.beq_iff j k),
    Present-remove k ks d d' g (ground arith) p.1,
  )

  pub length-remove_all :
      (ks : List K) (d : Dict K V)
      → Unique d
      → Distinct ks
      → Present d ks
      → length (remove_all ks d) + length ks ≡ length d
  unfolding remove_all
  length-remove_all [] d u o p = omega arith
  length-remove_all (k ∷ ks) d u o p = ground (
    arith,
    length-remove_all ks (remove k d) (remove-Unique k d u) o.1
        (Present-remove k ks d (remove k d) (λ j. get-remove k j d) o.0 p.1),
    length-remove k d u,
  )
