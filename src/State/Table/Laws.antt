-- ===== src/State/Table/Laws.antt =====
-- The bounded table: no operation raises on a valid table, and what each one leaves in it.
use anti_bot_gw.Common.{
  ℕ, suc, ◌<◌, none, some, [], ◌∷◌, ◌++◌, ltb, if◌then◌else◌, length, length-append, String, ◌==◌,
  ◌≡◌, refl, arith, inl, inr, Option-cases, string_eq, beq_refl,
}
use anti_bot_gw.Common.Dict.{Dict, get, put, remove, Unique}
use anti_bot_gw.Common.Dict.Laws.{get-remove, remove-Unique, length-remove}
use anti_bot_gw.State.Table.{Table, should_promote, move_to_end, trim, getitem}

module _ {V : Type 0} where
  pub get-append_last :
      (k j : String) (v : V) (d : Dict String V)
      → get k d ≡ none
      → get j (d ++ (k, v) ∷ []) ≡ (if k == j then some v else get j d)
  unfolding get
  get-append_last k j v [] h = refl
  get-append_last k j v ((i, w) ∷ d) h = ground (
    arith,
    string_eq.beq_iff i j,
    string_eq.beq_iff i k,
    string_eq.beq_iff k j,
    get-append_last k j v d,
  )

  pub append_last-Unique :
      (k : String) (v : V) (d : Dict String V)
      → get k d ≡ none
      → Unique d
      → Unique (d ++ (k, v) ∷ [])
  unfolding get
  append_last-Unique k v [] h u = (refl, tt)
  append_last-Unique k v ((i, w) ∷ d) h u = ground (
    arith,
    append_last-Unique k v d,
    get-append_last k i v d,
    string_eq.beq_iff i k,
    string_eq.beq_iff k i,
  )

  -- `d` with the key moved to its end.
  abbrev pub moved : String → V → Dict String V → Dict String V
  moved key v d = remove key d ++ (key, v) ∷ []

  pub get-moved :
      (k j : String) (v : V) (d : Dict String V)
      → get j (moved k v d) ≡ (if k == j then some v else get j d)
  get-moved k j v d =
      ground
        (arith, get-append_last k j v (remove k d), get-remove k k d, get-remove k j d, beq_refl k)

  pub moved-Unique : (k : String) (v : V) (d : Dict String V) → Unique d → Unique (moved k v d)
  moved-Unique k v d u =
      append_last-Unique k v (remove k d) (rw (get-remove, beq_refl)) (remove-Unique k d u)

  pub length-moved :
      (k : String) (v w : V) (d : Dict String V)
      → Unique d
      → get k d ≡ some w
      → length (moved k v d) ≡ length d
  length-moved k v w d u h =
      ground (arith, length-append (remove k d) ((k, v) ∷ []), length-remove k d u)

  pub move_to_end-some :
      (k : String) (v : V) (d : Dict String V)
      → get k d ≡ some v
      → move_to_end k d ≡ some (moved k v d)
  unfolding move_to_end
  move_to_end-some k v d h = ground arith

  -- What a lookup of `key` leaves behind: the same dictionary, the key at its end, or the key
  -- inserted, on a full table in place of the oldest entry.
  abbrev pub tail_of : Dict String V → Dict String V
  tail_of [] = []
  tail_of (e ∷ d) = d

  abbrev pub found : String → V → Table V → V
  found key fresh t = elim (get key t.entries) [ none ↦ fresh | some v ↦ v ]

  abbrev pub settled : String → V → Table V → Dict String V
  settled key fresh t = elim (get key t.entries) [
    | none ↦
        if ltb t.maxsize (suc (length t.entries))
        then tail_of t.entries ++ (key, fresh) ∷ []
        else t.entries ++ (key, fresh) ∷ []
    | some v ↦ if should_promote t then moved key v t.entries else t.entries
  ]

  pub put_absent :
      (k : String) (v : V) (d : Dict String V) → get k d ≡ none → put k v d ≡ d ++ (k, v) ∷ []
  unfolding get put
  put_absent k v [] h = refl
  put_absent k v ((i, w) ∷ d) h = ground (arith, put_absent k v d)

  pub remove_last :
      (k : String) (v : V) (d : Dict String V) → get k d ≡ none → remove k (d ++ (k, v) ∷ []) ≡ d
  unfolding get remove
  remove_last k v [] h = ground (arith, beq_refl k)
  remove_last k v ((i, w) ∷ d) h = ground (arith, remove_last k v d)

  pub get-tail_none : (k : String) (d : Dict String V) → get k d ≡ none → get k (tail_of d) ≡ none
  unfolding get
  get-tail_none k [] h = refl
  get-tail_none k ((i, w) ∷ d) h = ground arith

  pub moved_last :
      (k : String) (v : V) (d : Dict String V)
      → get k d ≡ none
      → moved k v (d ++ (k, v) ∷ []) ≡ d ++ (k, v) ∷ []
  moved_last k v d h = rw (remove_last k v d h)

  -- the eviction after an insertion
  pub trim-some :
      (k : String) (v : V) (m : ℕ) (d : Dict String V)
      → 0 < m
      → get k d ≡ none
      → trim k m (d ++ (k, v) ∷ [])
        ≡ some (if ltb m (suc (length d)) then tail_of d ++ (k, v) ∷ [] else d ++ (k, v) ∷ [])
  unfolding trim
  trim-some k v m [] pos h = ground arith
  trim-some k v m ((i, w) ∷ d) pos h = ground (
    arith,
    length-append d ((k, v) ∷ []),
    get-tail_none k ((i, w) ∷ d),
    move_to_end-some k v (d ++ (k, v) ∷ []),
    get-append_last k k v d,
    beq_refl k,
    remove_last k v d,
  )

  pub getitem-settled :
      (key : String) (fresh : V) (t : Table V)
      → 0 < t.maxsize
      → getitem key fresh t ≡ some (record t { entries = settled key fresh t }, found key fresh t)
  unfolding getitem
  getitem-settled key fresh t pos = elim (Option-cases (get key t.entries)) [
    | inl h ↦ ground (
      arith,
      h,
      put_absent key fresh t.entries h,
      trim-some key fresh t.maxsize t.entries pos h,
      get-append_last key key fresh t.entries,
      get-append_last key key fresh (tail_of t.entries),
      get-tail_none key t.entries,
      beq_refl key,
    )
    | inr (v, h) ↦
        ground (
          arith,
          h,
          move_to_end-some key v t.entries h,
          get-moved key key v t.entries,
          beq_refl key,
        )
  ]
