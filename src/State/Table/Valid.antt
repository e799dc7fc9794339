-- ===== src/State/Table/Valid.antt =====
-- The invariant of the bounded table: every operation keeps it, and what it may drop.
use anti_bot_gw.Common.{
  suc, ◌-◌, ◌<◌, Bool, false, none, some, [], ◌∷◌, ltb, if◌then◌else◌, length, length-append,
  String, ◌==◌, ◌≡◌, refl, arith, inl, inr, Option-cases, string_eq, beq_refl, ◌&&◌, ◌||◌, not,
}
use anti_bot_gw.Common.Dict.{Dict, get, member, put, Unique}
use anti_bot_gw.Common.Dict.Laws.{get-put, put-Unique, length-put}
use anti_bot_gw.State.Table.{Table, getitem, with_state, IsValid}
use anti_bot_gw.State.Table.Laws.{
  get-append_last, append_last-Unique, get-moved, moved-Unique, length-moved, tail_of, found,
  settled, getitem-settled, get-tail_none,
}

module _ {V : Type 0} where
  pub tail-Unique : (d : Dict String V) → Unique d → Unique (tail_of d)
  tail-Unique [] u = tt
  tail-Unique (e ∷ d) u = u.1

  settled-Unique :
      (key : String) (fresh : V) (t : Table V) → IsValid t → Unique (settled key fresh t)
  settled-Unique key fresh t valid = elim (Option-cases (get key t.entries)) [
    | inl h ↦ ground (
      arith,
      append_last-Unique key fresh t.entries h valid.unique,
      append_last-Unique key fresh (tail_of t.entries) (get-tail_none key t.entries h)
          (tail-Unique t.entries valid.unique),
    )
    | inr (v, h) ↦ ground (arith, moved-Unique key v t.entries valid.unique)
  ]

  pub length-tail : (d : Dict String V) → length (tail_of d) ≡ length d - 1
  length-tail [] = omega arith
  length-tail (e ∷ d) = omega arith

  pub length-settled :
      (key : String) (fresh : V) (t : Table V)
      → IsValid t
      → length (settled key fresh t) ≡ (
          if member key t.entries || ltb t.maxsize (suc (length t.entries))
          then length t.entries
          else suc (length t.entries))
  length-settled key fresh t valid = elim (Option-cases (get key t.entries)) [
    | inl h ↦ ground (
      arith,
      length-append t.entries ((key, fresh) ∷ []),
      length-append (tail_of t.entries) ((key, fresh) ∷ []),
      length-tail t.entries,
    )
    | inr (v, h) ↦ ground (arith, length-moved key v v t.entries valid.unique h)
  ]

  pub settled-IsValid :
      (key : String) (fresh : V) (t : Table V)
      → IsValid t
      → IsValid (record t { entries = settled key fresh t })
  settled-IsValid key fresh t valid = record {
    positive = valid.positive;
    bounded = ground (arith, length-settled key fresh t valid, valid.bounded);
    unique = settled-Unique key fresh t valid;
  }

  -- the first key of the order
  abbrev pub first_is : String → Dict String V → Bool
  first_is k [] = false
  first_is k ((i, w) ∷ d) = i == k

  -- an insertion into a full table
  abbrev pub evicts : String → Table V → Bool
  evicts key t = not (member key t.entries) && ltb t.maxsize (suc (length t.entries))

  pub get-tail :
      (j : String) (d : Dict String V)
      → Unique d
      → get j (tail_of d) ≡ (if first_is j d then none else get j d)
  unfolding get
  get-tail j [] u = refl
  get-tail j ((i, w) ∷ d) u = ground (arith, string_eq.beq_iff i j)

  pub get-settled :
      (key j : String) (fresh : V) (t : Table V)
      → IsValid t
      → get j (settled key fresh t) ≡ (
          if key == j
          then some (found key fresh t)
          else if evicts key t && first_is j t.entries
          then none
          else get j t.entries)
  get-settled key j fresh t valid = elim (Option-cases (get key t.entries)) [
    | inl h ↦ ground (
      arith,
      h,
      get-append_last key j fresh t.entries h,
      get-append_last key j fresh (tail_of t.entries) (get-tail_none key t.entries h),
      get-tail j t.entries valid.unique,
    )
    | inr (v, h) ↦ ground (arith, h, get-moved key j v t.entries, string_eq.beq_iff key j)
  ]

  module _ {R : Type 0} (key : String) (fresh : V) (f : V → V × R) (t : Table V) where
    abbrev pub after_with : Table V
    after_with = record t { entries = put key (f (found key fresh t)).0 (settled key fresh t) }

    pub with_state-after :
        0 < t.maxsize → with_state key fresh f t ≡ some (after_with, (f (found key fresh t)).1)
    unfolding with_state
    with_state-after pos = ground (arith, getitem-settled key fresh t pos)

    pub after_with-IsValid : IsValid t → IsValid after_with
    after_with-IsValid valid = record {
      positive = valid.positive;
      bounded = ground (
        arith,
        length-put key (f (found key fresh t)).0 (settled key fresh t),
        length-settled key fresh t valid,
        get-settled key key fresh t valid,
        beq_refl key,
        valid.bounded,
      );
      unique = put-Unique key _ (settled key fresh t) (settled-Unique key fresh t valid);
    }

    pub get-after_with :
        (j : String)
        → IsValid t
        → get j after_with.entries ≡ (
            if key == j
            then some (f (found key fresh t)).0
            else if evicts key t && first_is j t.entries
            then none
            else get j t.entries)
    get-after_with j valid = ground (
      arith,
      get-put key j (f (found key fresh t)).0 (settled key fresh t),
      get-settled key j fresh t valid,
    )

  -- A lookup by `[]` on a valid table raises nothing and returns the record stored under the key,
  -- or the fresh one if there is none. The table stays valid, the key is in it with that record,
  -- and every other key keeps what it had, except that the insertion of a new key into a full
  -- table drops the first key of the order.
  pub getitem_lem :
      (key : String) (fresh : V) (t : Table V)
      → IsValid t
      → (t' : Table V) × (getitem key fresh t ≡ some (t', found key fresh t))
        × IsValid t'
        × ((j : String)
            → get j t'.entries ≡ (
                if key == j
                then some (found key fresh t)
                else if evicts key t && first_is j t.entries
                then none
                else get j t.entries))
  getitem_lem key fresh t valid = (
    record t { entries = settled key fresh t },
    getitem-settled key fresh t valid.positive,
    settled-IsValid key fresh t valid,
    λ j. get-settled key j fresh t valid,
  )
