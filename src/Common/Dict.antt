-- ===== src/Common/Dict.antt =====
-- Python's `dict`, in insertion order: an update keeps a key's place, a new key goes to the end.
pub mod Laws
pub mod Present
pub mod Count
use mathlib.Core.Path.{◌≡◌, refl, ap}
use mathlib.Core.Bool.{Bool, true, false, not, ◌&&◌, ◌||◌}
use mathlib.Core.Option.{Option, none, some}
use mathlib.Core.List.{List, [], ◌∷◌, ◌++◌, map}
use Prim.Native.Nat.{ℕ, zero, suc, ◌+◌, ◌-◌, ◌≤◌, ◌<◌}
use native.Mathlib.Omega.{arith}
use anti_bot_gw.Common.Tests.{if◌then◌else◌, is_some, Bool-cases}
use anti_bot_gw.Common.Lists.{length, length-append, any, All}
use anti_bot_gw.Common.Keys.{Eq, ◌==◌, beq_refl}

abbrev pub Dict {ℓ} : Type ℓ → Type ℓ → Type ℓ
Dict K V = List (K × V)

-- `k in ks`
unfoldable pub mem {ℓ} : {K : Type ℓ} ⦃e : Eq K⦄ → K → List K → Bool
mem k [] = false
mem k (j ∷ ks) = (j == k) || mem k ks

module _ {ℓ} {K V : Type ℓ} ⦃e : Eq K⦄ where
  -- `d.get(k)`
  unfoldable pub get : K → Dict K V → Option V
  get k [] = none
  get k ((j, v) ∷ d) = if j == k then some v else get k d

  -- `k in d`
  abbrev pub member : K → Dict K V → Bool
  member k d = is_some (get k d)

  -- `d[k] = v`
  unfoldable pub put : K → V → Dict K V → Dict K V
  put k v [] = (k, v) ∷ []
  put k v ((j, w) ∷ d) = let rest = put k v d in if j == k then (j, v) ∷ d else (j, w) ∷ rest

  -- `d.pop(k, None)`, and `del d[k]` on a key that is there
  unfoldable pub remove : K → Dict K V → Dict K V
  remove k [] = []
  remove k ((j, v) ∷ d) = let rest = remove k d in if j == k then rest else (j, v) ∷ rest

  -- `[k for k, v in d.items() if p(k, v)]`
  unfoldable pub keys_where : (K → V → Bool) → Dict K V → List K
  keys_where p [] = []
  keys_where p ((k, v) ∷ d) = let rest = keys_where p d in if p k v then k ∷ rest else rest

  -- `for k in ks: del d[k]`
  unfoldable pub remove_all : List K → Dict K V → Dict K V
  remove_all [] d = d
  remove_all (k ∷ ks) d = remove_all ks (remove k d)

  -- the collect-then-delete loop that every eviction of the program is
  unfoldable pub evict : (K → V → Bool) → Dict K V → Dict K V
  evict p d = remove_all (keys_where p d) d

  -- No key occurs twice.
  abbrev pub Unique : Dict K V → Type ℓ
  Unique [] = Unit
  Unique ((k, v) ∷ d) = (get k d ≡ none) × Unique d
