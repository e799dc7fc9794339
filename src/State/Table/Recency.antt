-- ===== src/State/Table/Recency.antt =====
-- How long an identity stays in the table: the eviction takes the least recently used ones.
use anti_bot_gw.Common.{
  ◌∙◌, ℕ, suc, ◌+◌, ◌*◌, ◌-◌, ◌≤◌, ◌<◌, true, false, Option, none, some, List, [], ◌∷◌, ◌++◌,
  if◌then◌else◌, length, length-append, String, ◌==◌, ◌≡◌, ◌≢◌, refl, arith, inl, inr, Option-cases,
  string_eq, beq_refl,
}
use anti_bot_gw.Common.Dict.{Dict, get, remove, mem, Unique}
use anti_bot_gw.Common.Dict.Laws.{get-remove}
use anti_bot_gw.State.Table.{Table, should_promote, getitem, IsValid, ◌>>=◌}
use anti_bot_gw.State.Table.Laws.{tail_of, found, settled, getitem-settled, get-tail_none}
use anti_bot_gw.State.Table.Valid.{settled-IsValid, get-settled, first_is}

module _ {V : Type 0} where
  -- the number of entries behind the key
  unfoldable pub age : String → Dict String V → ℕ
  age k [] = 0
  age k ((j, v) ∷ d) = if j == k then length d else age k d

  age-lt-length : (k : String) (d : Dict String V) → age k d ≤ length d - 1
  unfolding age
  age-lt-length k [] = omega arith
  age-lt-length k ((j, v) ∷ d) = ground (arith, age-lt-length k d)

  age-append_last :
      (k j : String) (v : V) (d : Dict String V) → k ≢ j → age k (d ++ (j, v) ∷ []) ≤ suc (age k d)
  unfolding age
  age-append_last k j v [] ne = ground (arith, string_eq.beq_iff j k)
  age-append_last k j v ((i, w) ∷ d) ne =
      ground (arith, age-append_last k j v d ne, length-append d ((j, v) ∷ []))

  length-remove-le' : (j : String) (d : Dict String V) → length (remove j d) ≤ length d
  unfolding remove
  length-remove-le' j [] = omega arith
  length-remove-le' j ((i, w) ∷ d) = ground (arith, length-remove-le' j d)

  age-remove-le : (k j : String) (d : Dict String V) → k ≢ j → age k (remove j d) ≤ age k d
  unfolding age remove
  age-remove-le k j [] ne = omega arith
  age-remove-le k j ((i, w) ∷ d) ne = ground (
    arith,
    age-remove-le k j d ne,
    length-remove-le' j d,
    string_eq.beq_iff i k,
    string_eq.beq_iff i j,
  )

  age-tail-le :
      (k : String) (d : Dict String V)
      → Unique d
      → first_is k d ≡ false
      → age k (tail_of d) ≤ age k d
  unfolding age
  age-tail-le k [] u h = omega arith
  age-tail-le k ((i, w) ∷ d) u h = ground arith

  first-age : (k : String) (d : Dict String V) → first_is k d ≡ true → age k d ≡ length d - 1
  unfolding age
  first-age k [] h = cc
  first-age k ((i, w) ∷ d) h = ground arith

  -- a lookup of another key ages an entry by one place at most
  age-settled :
      (k key : String) (fresh : V) (t : Table V)
      → IsValid t
      → k ≢ key
      → suc (age k t.entries) < t.maxsize
      → age k (settled key fresh t) ≤ suc (age k t.entries)
  age-settled k key fresh t valid ne young = elim (Option-cases (get key t.entries)) [
    | inl h ↦ ground (
      arith,
      h,
      age-append_last k key fresh t.entries ne,
      age-append_last k key fresh (tail_of t.entries) ne,
      age-tail-le k t.entries valid.unique,
      first-age k t.entries,
      valid.bounded,
    )
    | inr (v, h) ↦ ground (
      arith,
      h,
      age-append_last k key v (remove key t.entries) ne,
      age-remove-le k key t.entries ne,
    )
  ]

  member-settled :
      (k key : String) (fresh : V) (t : Table V)
      → IsValid t
      → k ≢ key
      → suc (age k t.entries) < t.maxsize
      → get k (settled key fresh t) ≡ get k t.entries
  member-settled k key fresh t valid ne young = ground (
    arith,
    get-settled key k fresh t valid,
    string_eq.beq_iff key k,
    first-age k t.entries,
    valid.bounded,
  )

  -- lookups of keys, one after another
  unfoldable pub lookups : V → List String → Table V → Option (Table V)
  lookups fresh [] t = some t
  lookups fresh (key ∷ keys) t = do (t', _) ← getitem key fresh t; lookups fresh keys t'

  lookups-keep :
      (k : String) (v fresh : V) (keys : List String) (t : Table V)
      → IsValid t
      → mem k keys ≡ false
      → get k t.entries ≡ some v
      → age k t.entries + length keys < t.maxsize
      → (t' : Table V) × (lookups fresh keys t ≡ some t') × (get k t'.entries ≡ some v)
  unfolding lookups mem
  lookups-keep k v fresh [] t valid out h young = (t, refl, h)
  lookups-keep k v fresh (key ∷ keys) t valid out h young =
      let ne : k ≢ key = λ p. ground (arith, string_eq.beq_iff key k) in
      let y : suc (age k t.entries) < t.maxsize = omega arith in
      let (t', e, g) =
        lookups-keep k v fresh keys (record t { entries = settled key fresh t })
          (settled-IsValid key fresh t valid) (ground arith)
          (member-settled k key fresh t valid ne y ∙ h)
          (omega (arith, age-settled k key fresh t valid ne y)) in
      (t', rw (getitem-settled key fresh t valid.positive) e, g)

  age-last :
      (k : String) (v : V) (d : Dict String V) → get k d ≡ none → age k (d ++ (k, v) ∷ []) ≡ 0
  unfolding age get
  age-last k v [] h = ground (arith, beq_refl k)
  age-last k v ((i, w) ∷ d) h = ground (arith, age-last k v d)

  -- after its own lookup an entry is in the newer half of the table
  age-settled_self :
      (k : String) (fresh : V) (t : Table V)
      → IsValid t
      → 2 * suc (age k (settled k fresh t)) ≤ suc t.maxsize
  unfolding should_promote
  age-settled_self k fresh t valid = elim (Option-cases (get k t.entries)) [
    | inl h ↦ ground (
      arith,
      h,
      age-last k fresh t.entries h,
      age-last k fresh (tail_of t.entries) (get-tail_none k t.entries h),
      valid.positive,
    )
    | inr (v, h) ↦ ground (
      arith,
      h,
      age-last k v (remove k t.entries),
      get-remove k k t.entries,
      beq_refl k,
      age-lt-length k t.entries,
      valid.positive,
    )
  ]

  -- On a valid table, an identity that was just looked up is still there, with its record, after
  -- lookups of other identities, new ones included, that number up to half the table's capacity,
  -- and none of these lookups raises.
  pub recently_used-stays :
      (k : String) (fresh : V) (keys : List String) (t : Table V)
      → IsValid t
      → mem k keys ≡ false
      → 2 * length keys ≤ t.maxsize
      → (t' : Table V) × (lookups fresh (k ∷ keys) t ≡ some t')
        × (get k t'.entries ≡ some (found k fresh t))
  unfolding lookups
  recently_used-stays k fresh keys t valid out few =
      let (t', e, g) =
        lookups-keep k (found k fresh t) fresh keys (record t { entries = settled k fresh t })
          (settled-IsValid k fresh t valid) out
          (ground (arith, get-settled k k fresh t valid, beq_refl k))
          (omega (arith, age-settled_self k fresh t valid, valid.positive)) in
      (t', rw (getitem-settled k fresh t valid.positive) e, g)
