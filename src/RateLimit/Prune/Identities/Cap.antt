-- ===== src/RateLimit/Prune/Identities/Cap.antt =====
-- A round of the prune brings the identities under their cap, unless the rest are banned.
use anti_bot_gw.Common.{
  ℕ, zero, suc, ◌-◌, ◌≤◌, min, false, some, List, [], ◌∷◌, ltb, leb, length, String, ◌≡◌, refl,
  arith, ◌⊎◌, inl, inr, Bool-cases, string_eq, leb→le, take, ap, ◌∙◌, length-take,
}
use anti_bot_gw.Common.Dict.{Dict, get, keys_where, evict, mem, Unique}
use anti_bot_gw.Common.Dict.Present.{Distinct-keys_where, Present-keys_where}
use anti_bot_gw.Common.Sort.{sorted, length-sorted}
use anti_bot_gw.Common.Sort.Keyed.{firsts, mem-firsts-sorted, length-firsts}
use anti_bot_gw.RateLimit.Prune.Identities.Drop.{drop_identities_lem}
use anti_bot_gw.State.IpState.{IpState}
use anti_bot_gw.State.Table.{IsValid}
use anti_bot_gw.RateLimit.Prune.Identities.{
  Config, Identities, is_idle, candidates, oldest, cap_identities, prune_identities, is_empty,
}
use anti_bot_gw.RateLimit.Prune.Identities.Safe.{
  without_global_ban, mem-candidates, Distinct-oldest, Present-oldest,
}

take_all : {A : Type 0} (n : ℕ) (xs : List A) → length xs ≤ n → take n xs ≡ xs
take_all zero [] h = refl
take_all zero (x ∷ xs) h = absurd (omega arith)
take_all (suc n) [] h = refl
take_all (suc n) (x ∷ xs) h = ap (◌∷◌ x) (take_all n xs (omega arith))

length-oldest :
    (n now : ℕ) (d : Dict String IpState)
    → length (oldest n now d) ≡ min n (length (candidates now d))
unfolding oldest
length-oldest n now d = omega (
  arith,
  length-firsts (take n (sorted (λ p. p.1) (candidates now d))),
  length-take n (sorted (λ p. p.1) (candidates now d)),
  length-sorted (λ p. p.1) (candidates now d),
)

oldest_all :
    (n now : ℕ) (k : String) (d : Dict String IpState)
    → Unique d
    → length (candidates now d) ≤ n
    → mem k (oldest n now d) ≡ without_global_ban now (get k d)
unfolding oldest
oldest_all n now k d u few =
    ap (λ xs. mem k (firsts xs))
      (take_all n (sorted (λ p. p.1) (candidates now d))
        (rw (length-sorted (λ p. p.1) (candidates now d)) few))
    ∙ mem-firsts-sorted (λ p. p.1) k (candidates now d)
    ∙ mem-candidates now k d u

-- The table is within its cap, or every identity in it is banned.
abbrev pub Capped : Config → ℕ → Dict String IpState → Type 0
Capped cfg now d =
    (length d ≤ cfg.max_identities) ⊎ ((j : String) → without_global_ban now (get j d) ≡ false)

cap-Capped :
    (cfg : Config) (fresh : IpState) (now : ℕ) (st : Identities)
    → IsValid st.ip_state
    → (st' : Identities) × (cap_identities cfg fresh now st ≡ some st')
      × Capped cfg now st'.ip_state.entries
unfolding cap_identities
cap-Capped cfg fresh now st valid =
    let d = st.ip_state.entries in
    let over = length d - cfg.max_identities in
    let (st', e, valid', g, l) =
      drop_identities_lem fresh (oldest over now d) st valid
        (Distinct-oldest over now d valid.unique) (Present-oldest over now d valid.unique) in
    elim (Bool-cases (ltb cfg.max_identities (length d))) [
      | inl full ↦ (
        st',
        ground (arith, e),
        elim (Bool-cases (leb (length (candidates now d)) over)) [
          | inl few ↦
              inr (λ j. ground (arith, g j, oldest_all over now j d valid.unique (leb→le _ _ few)))
          | inr many ↦ inl (ground (arith, l, length-oldest over now d))
        ],
      )
      | inr fits ↦ (st, ground arith, inl (ground arith))
    ]

-- On a valid identity table a round of the prune leaves at most `MAX_IDENTITIES` identities, or
-- only identities whose ban has not expired.
pub prune_identities-Capped :
    (cfg : Config) (fresh : IpState) (now : ℕ) (st : Identities)
    → IsValid st.ip_state
    → (st' : Identities) × (prune_identities cfg fresh now st ≡ some st')
      × Capped cfg now st'.ip_state.entries
unfolding prune_identities
prune_identities-Capped cfg fresh now st valid =
    let d = st.ip_state.entries in
    let idle = keys_where (is_idle cfg now) d in
    let (st₁, e₁, valid₁, g₁, l₁) =
      drop_identities_lem fresh idle st valid (Distinct-keys_where (is_idle cfg now) d valid.unique)
        (Present-keys_where (is_idle cfg now) d valid.unique) in
    let (st₂, e₂, k₂) = cap-Capped cfg fresh now st₁ valid₁ in
    (record st₂ { ip_to_identities = evict is_empty st₂.ip_to_identities }, rw e₁ (rw e₂), k₂)
