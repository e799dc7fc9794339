-- ===== src/Common/Dict/Laws.antt =====
-- The laws of the dictionary operations.
use mathlib.Core.Path.{◌≡◌, refl}
use mathlib.Core.Bool.{Bool, false}
use mathlib.Core.Option.{none, some}
use mathlib.Core.List.{List, [], ◌∷◌}
use Prim.Native.Nat.{suc, ◌+◌, ◌≤◌}
use native.Mathlib.Omega.{arith}
use anti_bot_gw.Common.Tests.{if◌then◌else◌}
use anti_bot_gw.Common.Lists.{length}
use anti_bot_gw.Common.Keys.{Eq, ◌==◌, beq_refl}
use anti_bot_gw.Common.Dict.{
  Dict, get, member, put, remove, keys_where, remove_all, evict, mem, Unique,
}

module _ {ℓ} {K V : Type ℓ} ⦃e : Eq K⦄ where
  pub get-put :
      (k j : K) (v : V) (d : Dict K V) → get j (put k v d) ≡ (if k == j then some v else get j d)
  unfolding get put
  get-put k j v [] = refl
  get-put k j v ((i, w) ∷ d) =
      ground (arith, e.beq_iff k j, e.beq_iff i k, e.beq_iff i j, get-put k j v d)

  pub get-put_self : (k : K) (v : V) (d : Dict K V) → get k (put k v d) ≡ some v
  get-put_self k v d = simp (get-put, beq_refl)

  pub get-remove :
      (k j : K) (d : Dict K V) → get j (remove k d) ≡ (if k == j then none else get j d)
  unfolding get remove
  get-remove k j [] = ground arith
  get-remove k j ((i, w) ∷ d) =
      ground (arith, e.beq_iff k j, e.beq_iff i k, e.beq_iff i j, get-remove k j d)

  pub get-remove_all :
      (ks : List K) (j : K) (d : Dict K V)
      → get j (remove_all ks d) ≡ (if mem j ks then none else get j d)
  unfolding remove_all mem
  get-remove_all [] j d = refl
  get-remove_all (k ∷ ks) j d = ground (arith, get-remove_all ks j (remove k d), get-remove k j d)

  pub mem-keys_where :
      (p : K → V → Bool) (j : K) (d : Dict K V)
      → Unique d
      → mem j (keys_where p d) ≡ elim (get j d) [ none ↦ false | some v ↦ p j v ]
  unfolding mem keys_where get
  mem-keys_where p j [] u = refl
  mem-keys_where p j ((i, w) ∷ d) u = ground (arith, e.beq_iff i j, mem-keys_where p j d u.1)

  pub get-evict :
      (p : K → V → Bool) (j : K) (d : Dict K V)
      → Unique d
      → get j (evict p d) ≡ elim (get j d) [ none ↦ none | some v ↦ if p j v then none else some v ]
  unfolding evict
  get-evict p j d u = ground (arith, get-remove_all (keys_where p d) j d, mem-keys_where p j d u)

  pub put-Unique : (k : K) (v : V) (d : Dict K V) → Unique d → Unique (put k v d)
  unfolding put get
  put-Unique k v [] u = (refl, tt)
  put-Unique k v ((i, w) ∷ d) u =
      ground (arith, put-Unique k v d u.1, get-put k i v d, e.beq_iff i k, e.beq_iff k i)

  pub remove-Unique : (k : K) (d : Dict K V) → Unique d → Unique (remove k d)
  unfolding remove get
  remove-Unique k [] u = tt
  remove-Unique k ((i, w) ∷ d) u = ground (arith, remove-Unique k d u.1, get-remove k i d)

  pub remove_all-Unique : (ks : List K) (d : Dict K V) → Unique d → Unique (remove_all ks d)
  unfolding remove_all
  remove_all-Unique [] d u = u
  remove_all-Unique (k ∷ ks) d u = remove_all-Unique ks (remove k d) (remove-Unique k d u)

  remove_absent : (k : K) (d : Dict K V) → get k d ≡ none → remove k d ≡ d
  unfolding remove get
  remove_absent k [] h = refl
  remove_absent k ((i, w) ∷ d) h = ground (arith, remove_absent k d)

  pub evict-Unique : (p : K → V → Bool) (d : Dict K V) → Unique d → Unique (evict p d)
  unfolding evict
  evict-Unique p d u = remove_all-Unique (keys_where p d) d u

  pub length-put :
      (k : K) (v : V) (d : Dict K V)
      → length (put k v d) ≡ (if member k d then length d else suc (length d))
  unfolding put get
  length-put k v [] = refl
  length-put k v ((i, w) ∷ d) = ground (arith, length-put k v d)

  pub length-remove :
      (k : K) (d : Dict K V)
      → Unique d
      → length d ≡ length (remove k d) + (if member k d then 1 else 0)
  unfolding remove get
  length-remove k [] u = omega arith
  length-remove k ((i, w) ∷ d) u =
      ground (arith, length-remove k d u.1, e.beq_iff i k, remove_absent k d)

  pub length-remove-le : (k : K) (d : Dict K V) → length (remove k d) ≤ length d
  unfolding remove
  length-remove-le k [] = omega arith
  length-remove-le k ((i, w) ∷ d) = ground (arith, length-remove-le k d)

  pub length-remove_all-le : (ks : List K) (d : Dict K V) → length (remove_all ks d) ≤ length d
  unfolding remove_all
  length-remove_all-le [] d = omega arith
  length-remove_all-le (k ∷ ks) d =
      omega (arith, length-remove-le k d, length-remove_all-le ks (remove k d))
