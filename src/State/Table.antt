-- ===== src/State/Table.antt =====
-- state.py, `_BoundedIpStateDict`: an insertion-ordered dictionary of at most `maxsize` entries.
-- The entries are generic. A `KeyError` is `none`. `maxsize * 0.5 < len` is written without the
-- fraction.
pub mod Laws
pub mod Valid
pub mod Writes
pub mod Recency
use anti_bot_gw.Common.{
  ℕ, ◌+◌, ◌*◌, ◌≤◌, ◌<◌, Bool, true, false, Option, none, some, List, [], ◌∷◌, ◌++◌, ltb,
  if◌then◌else◌, length, String, string_eq,
}
use anti_bot_gw.Common.Dict.{Dict, get, member, put, remove, keys_where, remove_all, Unique}

pub record Table (V : Type 0) : Type 0 where
  pub entries : Dict String V
  pub maxsize : ℕ

infixl 5 ◌>>=◌
abbrev pub ◌>>=◌ {ℓ κ} : {A : Type ℓ} {B : Type κ} → Option A → (A → Option B) → Option B
none >>= f = none
some a >>= f = f a

module _ {V : Type 0} where
  -- `_should_promote`
  unfoldable pub should_promote : Table V → Bool
  should_promote t = ltb t.maxsize (2 * length t.entries)

  -- `OrderedDict.move_to_end(key)`
  unfoldable pub move_to_end : String → Dict String V → Option (Dict String V)
  move_to_end key d = elim (get key d) [
    | none ↦ none
    | some v ↦ some (remove key d ++ (key, v) ∷ [])
  ]

  -- `OrderedDict.popitem(last=False)`; on an empty dictionary it raises
  unfoldable pub popitem_first : Dict String V → Option (Dict String V)
  popitem_first [] = none
  popitem_first (e ∷ d) = some d

  -- the eviction that follows the insertion of a key
  unfoldable pub trim : String → ℕ → Dict String V → Option (Dict String V)
  unfolding move_to_end popitem_first
  trim key maxsize d =
      if ltb maxsize (length d) then (do d' ← popitem_first d; move_to_end key d') else some d

  -- `__getitem__`; `fresh` is the `IpState()` that a missing key is given
  unfoldable pub getitem : String → V → Table V → Option (Table V × V)
  getitem key fresh t = do
    d ←
        (if member key t.entries
          then (if should_promote t then move_to_end key t.entries else some t.entries)
          else trim key t.maxsize (put key fresh t.entries))
    v ← get key d
    some (record t { entries = d }, v)

  -- `__setitem__`
  unfoldable pub setitem : String → V → Table V → Option (Table V)
  setitem key value t =
      let d = put key value t.entries in
      let t' = record t { entries = d } in
      if ltb t.maxsize (length d)
      then (do d' ← trim key t.maxsize d; some (record t { entries = d' }))
      else if should_promote t'
      then (do d' ← move_to_end key d; some (record t { entries = d' }))
      else some t'

  -- `get(key)`, with the default `None`
  unfoldable pub get_default : String → Table V → Option (Table V × Option V)
  get_default key t =
      if member key t.entries
      then (do
        d ← (if should_promote t then move_to_end key t.entries else some t.entries)
        v ← get key d
        some (record t { entries = d }, some v))
      else some (t, none)

  -- `setdefault(key, default)`
  unfoldable pub setdefault : String → V → Table V → Option (Table V × V)
  setdefault key value t = do
    t' ← (if member key t.entries then some t else setitem key value t)
    v ← get key t'.entries
    some (t', v)

  -- `__delitem__`
  unfoldable pub delitem : String → Table V → Option (Table V)
  delitem key t =
      if member key t.entries then some (record t { entries = remove key t.entries }) else none

  -- `pop(key, None)`
  unfoldable pub pop : String → Table V → Table V × Option V
  pop key t = (record t { entries = remove key t.entries }, get key t.entries)

  -- `evict_expired`: the number of entries removed comes back
  unfoldable pub evict_expired : (V → ℕ) → ℕ → ℕ → Table V → Table V × ℕ
  evict_expired last_seen now ttl t =
      let stale = keys_where (λ k v. ltb (last_seen v + ttl) now) t.entries in
      (record t { entries = remove_all stale t.entries }, length stale)

  -- `s = table[key]` followed by an update of `s`: the table holds the object itself, so what is
  -- written to `s` is seen in the table.
  unfoldable pub with_state :
      {R : Type 0} → String → V → (V → V × R) → Table V → Option (Table V × R)
  with_state key fresh f t = do
    (t', s) ← getitem key fresh t
    let (s', r) = f s
    some (record t' { entries = put key s' t'.entries }, r)

  pub record IsValid (t : Table V) : Type 0 where
    pub positive : 0 < t.maxsize
    pub bounded : length t.entries ≤ t.maxsize
    pub unique : Unique t.entries
