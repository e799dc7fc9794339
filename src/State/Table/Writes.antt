-- ===== src/State/Table/Writes.antt =====
-- The other operations of the bounded table: writes, default lookups, removals and expiry.
use anti_bot_gw.Common.{
  ℕ, suc, ◌+◌, ◌<◌, none, some, List, [], ◌∷◌, ◌++◌, ltb, if◌then◌else◌, length, length-append,
  String, ◌==◌, ◌≡◌, arith, inl, inr, Option-cases, string_eq, beq_refl, ◌&&◌,
}
use anti_bot_gw.Common.Dict.{Dict, get, put, keys_where, remove_all}
use anti_bot_gw.Common.Dict.Laws.{
  get-put, get-put_self, put-Unique, length-put, remove_all-Unique, length-remove_all-le,
  get-remove_all, mem-keys_where,
}
use anti_bot_gw.State.Table.{Table, should_promote, setitem, get_default, evict_expired, IsValid}
use anti_bot_gw.State.Table.Laws.{
  get-append_last, append_last-Unique, moved, get-moved, moved-Unique, length-moved, tail_of,
  put_absent, trim-some, move_to_end-some, get-tail_none, remove_last,
}
use anti_bot_gw.State.Table.Valid.{first_is, evicts, get-tail, tail-Unique, length-tail}

module _ {V : Type 0} where
  put_last :
      (k : String) (v w : V) (d : Dict String V)
      → get k d ≡ none
      → put k v (d ++ (k, w) ∷ []) ≡ d ++ (k, v) ∷ []
  unfolding get put
  put_last k v w [] h = ground (arith, beq_refl k)
  put_last k v w ((i, u) ∷ d) h = ground (arith, put_last k v w d)

  -- what a write of `key` leaves behind
  abbrev written : String → V → Table V → Dict String V
  written key value t = elim (get key t.entries) [
    | none ↦
        if ltb t.maxsize (suc (length t.entries))
        then tail_of t.entries ++ (key, value) ∷ []
        else t.entries ++ (key, value) ∷ []
    | some v ↦
        if should_promote t
        then moved key value (put key value t.entries)
        else put key value t.entries
  ]

  setitem_absent :
      (key : String) (value : V) (t : Table V)
      → 0 < t.maxsize
      → get key t.entries ≡ none
      → setitem key value t ≡ some (record t { entries = written key value t })
  unfolding setitem should_promote
  setitem_absent key value t pos h = ground (
    arith,
    h,
    put_absent key value t.entries h,
    trim-some key value t.maxsize t.entries pos h,
    length-append t.entries ((key, value) ∷ []),
    move_to_end-some key value (t.entries ++ (key, value) ∷ []),
    get-append_last key key value t.entries h,
    beq_refl key,
    remove_last key value t.entries h,
  )

  setitem_present :
      (key : String) (value v : V) (t : Table V)
      → IsValid t
      → get key t.entries ≡ some v
      → setitem key value t ≡ some (record t { entries = written key value t })
  unfolding setitem should_promote
  setitem_present key value v t valid h = ground (
    arith,
    h,
    length-put key value t.entries,
    valid.bounded,
    get-put_self key value t.entries,
    move_to_end-some key value (put key value t.entries),
  )

  pub setitem-written :
      (key : String) (value : V) (t : Table V)
      → IsValid t
      → setitem key value t ≡ some (record t { entries = written key value t })
  setitem-written key value t valid = elim (Option-cases (get key t.entries)) [
    | inl h ↦ setitem_absent key value t valid.positive h
    | inr (v, h) ↦ setitem_present key value v t valid h
  ]

  get-written :
      (key j : String) (value : V) (t : Table V)
      → IsValid t
      → get j (written key value t) ≡ (
          if key == j
          then some value
          else if evicts key t && first_is j t.entries
          then none
          else get j t.entries)
  get-written key j value t valid = elim (Option-cases (get key t.entries)) [
    | inl h ↦ ground (
      arith,
      h,
      get-append_last key j value t.entries h,
      get-append_last key j value (tail_of t.entries) (get-tail_none key t.entries h),
      get-tail j t.entries valid.unique,
    )
    | inr (v, h) ↦
        ground
          (arith, h, get-moved key j value (put key value t.entries), get-put key j value t.entries)
  ]

  written-IsValid :
      (key : String) (value : V) (t : Table V)
      → IsValid t
      → IsValid (record t { entries = written key value t })
  written-IsValid key value t valid = elim (Option-cases (get key t.entries)) [
    | inl h ↦ record {
      positive = valid.positive;
      bounded = ground (
        arith,
        h,
        length-append t.entries ((key, value) ∷ []),
        length-tail t.entries,
        length-append (tail_of t.entries) ((key, value) ∷ []),
        valid.bounded,
      );
      unique = ground (
        arith,
        h,
        append_last-Unique key value t.entries h valid.unique,
        append_last-Unique key value (tail_of t.entries) (get-tail_none key t.entries h)
            (tail-Unique t.entries valid.unique),
      );
    }
    | inr (v, h) ↦
        let u = put-Unique key value t.entries valid.unique in
        let l = length-put key value t.entries in
        record {
          positive = valid.positive;
          bounded = ground (
            arith,
            h,
            l,
            valid.bounded,
            length-moved key value value (put key value t.entries) u
                (get-put_self key value t.entries),
          );
          unique = ground (arith, h, u, moved-Unique key value (put key value t.entries) u);
        }
  ]

  -- An assignment `table[key] = value` on a valid table raises nothing and leaves a valid table in
  -- which the key has the value; every other key keeps what it had, except that the insertion of
  -- a new key into a full table drops the first key of the order.
  pub setitem_lem :
      (key : String) (value : V) (t : Table V)
      → IsValid t
      → (t' : Table V) × (setitem key value t ≡ some t')
        × IsValid t'
        × ((j : String)
            → get j t'.entries ≡ (
                if key == j
                then some value
                else if evicts key t && first_is j t.entries
                then none
                else get j t.entries))
  setitem_lem key value t valid = (
    record t { entries = written key value t },
    setitem-written key value t valid,
    written-IsValid key value t valid,
    λ j. get-written key j value t valid,
  )

  removed-IsValid :
      (ks : List String) (t : Table V)
      → IsValid t
      → IsValid (record t { entries = remove_all ks t.entries })
  removed-IsValid ks t valid = record {
    positive = valid.positive;
    bounded = omega (arith, length-remove_all-le ks t.entries, valid.bounded);
    unique = remove_all-Unique ks t.entries valid.unique;
  }

  -- The expiry pass on a valid table keeps exactly the entries that were seen within the time to
  -- live, unchanged, and leaves the table valid.
  pub evict_expired_lem :
      (last_seen : V → ℕ) (now ttl : ℕ) (t : Table V)
      → IsValid t
      → IsValid (evict_expired last_seen now ttl t).0
        × ((j : String)
            → get j (evict_expired last_seen now ttl t).0.entries ≡ elim (get j t.entries) [
              | none ↦ none
              | some v ↦ if ltb (last_seen v + ttl) now then none else some v
            ])
  unfolding evict_expired
  evict_expired_lem last_seen now ttl t valid =
      let stale = λ (k : String) (v : V). ltb (last_seen v + ttl) now in
      (
        removed-IsValid (keys_where stale t.entries) t valid,
        λ j. ground (
          arith,
          get-remove_all (keys_where stale t.entries) j t.entries,
          mem-keys_where stale j t.entries valid.unique,
        ),
      )

  -- what a lookup by `get` leaves behind
  abbrev promoted : String → Table V → Dict String V
  promoted key t = elim (get key t.entries) [
    | none ↦ t.entries
    | some v ↦ if should_promote t then moved key v t.entries else t.entries
  ]

  get_default-promoted :
      (key : String) (t : Table V)
      → get_default key t ≡ some (record t { entries = promoted key t }, get key t.entries)
  unfolding get_default
  get_default-promoted key t = elim (Option-cases (get key t.entries)) [
    | inl h ↦ ground (arith, h)
    | inr (v, h) ↦
        ground (
          arith,
          h,
          move_to_end-some key v t.entries h,
          get-moved key key v t.entries,
          beq_refl key,
        )
  ]

  get-promoted : (key j : String) (t : Table V) → get j (promoted key t) ≡ get j t.entries
  get-promoted key j t = elim (Option-cases (get key t.entries)) [
    | inl h ↦ ground (arith, h)
    | inr (v, h) ↦ ground (arith, h, get-moved key j v t.entries, string_eq.beq_iff key j)
  ]

  promoted-IsValid :
      (key : String) (t : Table V) → IsValid t → IsValid (record t { entries = promoted key t })
  promoted-IsValid key t valid = elim (Option-cases (get key t.entries)) [
    | inl h ↦ record {
      positive = valid.positive;
      bounded = ground (arith, h, valid.bounded);
      unique = ground (arith, h, valid.unique);
    }
    | inr (v, h) ↦ record {
      positive = valid.positive;
      bounded = ground (arith, h, valid.bounded, length-moved key v v t.entries valid.unique h);
      unique = ground (arith, h, valid.unique, moved-Unique key v t.entries valid.unique);
    }
  ]

  -- A lookup by `get` on a valid table raises nothing, returns what is stored under the key, and
  -- changes no entry: the table stays valid.
  pub get_default_lem :
      (key : String) (t : Table V)
      → IsValid t
      → (t' : Table V) × (get_default key t ≡ some (t', get key t.entries))
        × IsValid t'
        × ((j : String) → get j t'.entries ≡ get j t.entries)
  get_default_lem key t valid = (
    record t { entries = promoted key t },
    get_default-promoted key t,
    promoted-IsValid key t valid,
    λ j. get-promoted key j t,
  )
