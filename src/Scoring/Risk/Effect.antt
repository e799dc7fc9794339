-- ===== src/Scoring/Risk/Effect.antt =====
-- What `update_risk_and_maybe_ban` does to the table, whatever the scope and the verdict.
use mathlib.Core.Path.{fun_ext}
use anti_bot_gw.Common.{
  ℕ, suc, Bool, false, Option, none, some, List, [], ◌∷◌, if◌then◌else◌, String, ◌==◌, ◌≡◌, ◌≢◌,
  refl, arith, inl, inr, Bool-cases, string_eq, beq_refl, ◌&&◌, ◌∙◌, ap,
}
use anti_bot_gw.Common.Dict.{get, put}
use anti_bot_gw.Common.Dict.Laws.{get-put, put-Unique, length-put}
use anti_bot_gw.State.IpState.{IpState}
use anti_bot_gw.State.Table.{Table, IsValid}
use anti_bot_gw.State.Table.Laws.{found}
use anti_bot_gw.State.Table.Valid.{getitem_lem, evicts, first_is}
use anti_bot_gw.State.Table.Writes.{get_default_lem}
use anti_bot_gw.Scoring.Ban.{Store}
use anti_bot_gw.Scoring.Risk.{
  Config, Request, weight_of, ban_secs, counts_for_nat, count_identities, add_risk, triggers,
  impose, members_at, announce, assess, update_risk_and_maybe_ban,
}

-- the number of identities at an address that look legitimate, by a view of the table
unfoldable pub nat_count : ℕ → String → List String → (String → Option IpState) → ℕ
unfolding counts_for_nat
nat_count now ip [] view = 0
nat_count now ip (k ∷ ks) view =
    let n = nat_count now ip ks view in
    if elim (view k) [ none ↦ false | some s ↦ counts_for_nat now ip s ] then suc n else n

nat_count_ext :
    (now : ℕ) (ip : String) (ks : List String) (f g : String → Option IpState)
    → ((j : String) → f j ≡ g j)
    → nat_count now ip ks f ≡ nat_count now ip ks g
nat_count_ext now ip ks f g h = ap (nat_count now ip ks) (fun_ext h)

count_identities_lem :
    (now : ℕ) (ip : String) (ks : List String) (t : Table IpState)
    → IsValid t
    → (t' : Table IpState) × (count_identities now ip ks t
        ≡ some (t', nat_count now ip ks (λ j. get j t.entries)))
      × IsValid t'
      × ((j : String) → get j t'.entries ≡ get j t.entries)
unfolding count_identities nat_count
count_identities_lem now ip [] t valid = (t, refl, valid, λ j. refl)
count_identities_lem now ip (k ∷ ks) t valid =
    let (t₁, e₁, v₁, g₁) = get_default_lem k t valid in
    let (t₂, e₂, v₂, g₂) = count_identities_lem now ip ks t₁ v₁ in
    let same = nat_count_ext now ip ks (λ j. get j t₁.entries) (λ j. get j t.entries) g₁ in
    (t₂, rw e₁ (rw e₂ (rw same)), v₂, λ j. g₂ j ∙ g₁ j)

-- a record written over a stored one
put-IsValid :
    (k : String) (s v : IpState) (t : Table IpState)
    → IsValid t
    → get k t.entries ≡ some v
    → IsValid (record t { entries = put k s t.entries })
put-IsValid k s v t valid h = record {
  positive = valid.positive;
  bounded = ground (arith, length-put k s t.entries, valid.bounded);
  unique = put-Unique k s t.entries valid.unique;
}

-- The entries that a lookup of the key in a table leaves, its own record apart.
abbrev pub others : String → Table IpState → String → Option IpState
others key t j = if evicts key t && first_is j t.entries then none else get j t.entries

-- what the identities look like while those at the address are counted
abbrev pub viewed : String → IpState → Table IpState → String → Option IpState
viewed key s t j = if key == j then some s else others key t j

module _ (cfg : Config) (req : Request) (fresh : IpState) (key reason ip : String)
    (st : Store) where
  abbrev pub weight : ℕ
  weight = weight_of cfg req.overrides reason

  -- the identity's record with the new risk, and the number of identities at its address
  abbrev pub risen : IpState
  risen = add_risk cfg req reason weight (found key fresh st.ip_state)

  abbrev pub at_ip : ℕ
  at_ip = nat_count req.now ip (members_at ip st) (viewed key risen st.ip_state)

  abbrev pub verdict : Bool
  verdict = triggers cfg req at_ip risen

  abbrev pub outcome : IpState
  outcome = if verdict then impose req (ban_secs cfg reason) risen else risen

  assess_lem :
      IsValid st.ip_state
      → (t : Table IpState) × (assess cfg req fresh key reason ip weight st
          ≡ some (t, outcome, verdict))
        × IsValid t
        × ((j : String)
            → get j t.entries ≡ (if key == j then some outcome else others key st.ip_state j))
  unfolding assess
  assess_lem valid =
      let (t₁, e₁, v₁, g₁) = getitem_lem key fresh st.ip_state valid in
      let here : get key t₁.entries ≡ some (found key fresh st.ip_state) =
        g₁ key ∙ (rw (beq_refl key)) in
      let t₂ : Table IpState = record t₁ { entries = put key risen t₁.entries } in
      let v₂ = put-IsValid key risen _ t₁ v₁ here in
      let (t₃, e₃, v₃, g₃) = count_identities_lem req.now ip (members_at ip st) t₂ v₂ in
      let same =
        nat_count_ext req.now ip (members_at ip st) (λ j. get j t₂.entries)
          (viewed key risen st.ip_state)
          (λ j. ground (arith, get-put key j risen t₁.entries, g₁ j)) in
      let here₃ : get key t₃.entries ≡ some risen =
        g₃ key ∙ get-put key key risen t₁.entries ∙ (rw (beq_refl key)) in
      (
        record t₃ { entries = put key outcome t₃.entries },
        rw e₁ (rw e₃ (rw same)),
        put-IsValid key outcome risen t₃ v₃ here₃,
        λ j.
            ground
              (arith, get-put key j outcome t₃.entries, g₃ j, get-put key j risen t₁.entries, g₁ j),
      )

  ip_state-announce :
      (s : IpState) (st' : Store) → (announce cfg req key reason ip s st').ip_state ≡ st'.ip_state
  unfolding announce
  ip_state-announce s st' = ground arith

  -- On a valid identity table a hit of a reason that has a weight raises nothing and leaves a
  -- valid table. It bans exactly if the verdict on the identity's risen risk says so; the
  -- identity's record is then the outcome, and every other identity keeps its record, except that
  -- a new identity on a full table drops the oldest one.
  pub update_lem :
      IsValid st.ip_state
      → weight ≢ 0
      → (st' : Store) × (update_risk_and_maybe_ban cfg req fresh key reason ip st
          ≡ some (st', verdict))
        × IsValid st'.ip_state
        × ((j : String)
            → get j st'.ip_state.entries
              ≡ (if key == j then some outcome else others key st.ip_state j))
  unfolding update_risk_and_maybe_ban
  update_lem valid heavy =
      let (t, e, v, g) = assess_lem valid in
      let st₁ : Store = record st { ip_state = t } in
      let same = ip_state-announce outcome st₁ in
      elim (Bool-cases verdict) [
        | inl hit ↦ (
          announce cfg req key reason ip outcome st₁,
          ground (arith, e, hit),
          rw same v,
          λ j. rw same (g j),
        )
        | inr miss ↦ (st₁, ground (arith, e, miss), v, g)
      ]

  -- A reason whose weight is zero for the request, such as one that its virtual host suppresses,
  -- changes nothing and bans nobody.
  pub update_weightless :
      weight ≡ 0 → update_risk_and_maybe_ban cfg req fresh key reason ip st ≡ some (st, false)
  unfolding update_risk_and_maybe_ban
  update_weightless e = ground (arith, e)
