-- ===== src/RateLimit/Prune/Identities/Safe.antt =====
-- A round of the prune forgets no ban and keeps the identities within their cap.
use anti_bot_gw.Common.{
  ℕ, ◌-◌, Bool, false, Option, none, some, List, [], ◌∷◌, ltb, leb, if◌then◌else◌, length, String,
  ◌≡◌, refl, arith, ◌⊎◌, inl, inr, Bool-cases, string_eq, ◌∙◌,
}
use anti_bot_gw.Common.Dict.{Dict, get, keys_where, evict, mem, Unique}
use anti_bot_gw.Common.Dict.Laws.{mem-keys_where}
use anti_bot_gw.Common.Dict.Present.{Present, Present-of, Distinct-keys_where, Present-keys_where}
use anti_bot_gw.Common.Sort.Keyed.{
  firsts, Distinct, mem-firsts-sorted, Distinct-sorted, mem-firsts-take, Distinct-take,
}
use anti_bot_gw.RateLimit.Prune.Identities.Drop.{drop_identities_lem}
use anti_bot_gw.State.IpState.{IpState}
use anti_bot_gw.State.Table.{IsValid}
use anti_bot_gw.RateLimit.Prune.Identities.{
  Config, Identities, is_idle, candidates, oldest, cap_identities, prune_identities, is_empty,
}

-- the identity is in the table, with no `banned_until` that is ahead
abbrev pub without_global_ban : ℕ → Option IpState → Bool
without_global_ban now none = false
without_global_ban now (some s) = leb s.banned_until now

pub mem-candidates :
    (now : ℕ) (k : String) (d : Dict String IpState)
    → Unique d
    → mem k (firsts (candidates now d)) ≡ without_global_ban now (get k d)
unfolding candidates mem get
mem-candidates now k [] u = refl
mem-candidates now k ((j, s) ∷ d) u =
    ground (arith, mem-candidates now k d u.1, string_eq.beq_iff j k)

Distinct-candidates :
    (now : ℕ) (d : Dict String IpState) → Unique d → Distinct (firsts (candidates now d))
unfolding candidates
Distinct-candidates now [] u = tt
Distinct-candidates now ((j, s) ∷ d) u =
    ground (arith, mem-candidates now j d u.1, Distinct-candidates now d u.1)

pub Distinct-oldest : (n now : ℕ) (d : Dict String IpState) → Unique d → Distinct (oldest n now d)
unfolding oldest
Distinct-oldest n now d u =
    Distinct-take n _ (Distinct-sorted (λ p. p.1) (candidates now d) (Distinct-candidates now d u))

-- a banned identity is not among the oldest
mem-oldest :
    (n now : ℕ) (k : String) (d : Dict String IpState)
    → Unique d
    → without_global_ban now (get k d) ≡ false
    → mem k (oldest n now d) ≡ false
unfolding oldest
mem-oldest n now k d u h =
    mem-firsts-take k n _
      (mem-firsts-sorted (λ p. p.1) k (candidates now d) ∙ mem-candidates now k d u ∙ h)

pub Present-oldest : (n now : ℕ) (d : Dict String IpState) → Unique d → Present d (oldest n now d)
Present-oldest n now d u =
    Present-of d (oldest n now d) (λ j m. ground (arith, mem-oldest n now j d u))

-- The table of `after` has what `before` has for every identity whose `banned_until` is ahead, and nothing that is new.
pub record Keeps (now : ℕ) (before after : Dict String IpState) : Type 0 where
  pub bans :
      (j : String) → without_global_ban now (get j before) ≡ false → get j after ≡ get j before
  pub old : (j : String) → (get j after ≡ none) ⊎ (get j after ≡ get j before)

Keeps-drop :
    (now : ℕ) (ks : List String) (before after : Dict String IpState)
    → ((j : String) → get j after ≡ (if mem j ks then none else get j before))
    → ((j : String) → without_global_ban now (get j before) ≡ false → mem j ks ≡ false)
    → Keeps now before after
Keeps-drop now ks before after g out = record {
  bans = λ j h. ground (arith, g j, out j h);
  old = λ j. ground (arith, g j);
}

Keeps-trans :
    (now : ℕ) (a b c : Dict String IpState) → Keeps now a b → Keeps now b c → Keeps now a c
Keeps-trans now a b c p q = record {
  bans = λ j h. ground (arith, p.bans j, q.bans j);
  old = λ j. ground (arith, p.old j, q.old j);
}

idle-without_global_ban :
    (cfg : Config) (now : ℕ) (j : String) (d : Dict String IpState)
    → Unique d
    → without_global_ban now (get j d) ≡ false
    → mem j (keys_where (is_idle cfg now) d) ≡ false
unfolding is_idle
idle-without_global_ban cfg now j d u h = ground (arith, mem-keys_where (is_idle cfg now) j d u)

-- the cap
cap_lem :
    (cfg : Config) (fresh : IpState) (now : ℕ) (st : Identities)
    → IsValid st.ip_state
    → (st' : Identities) × (cap_identities cfg fresh now st ≡ some st')
      × IsValid st'.ip_state
      × Keeps now st.ip_state.entries st'.ip_state.entries
unfolding cap_identities
cap_lem cfg fresh now st valid =
    let d = st.ip_state.entries in
    let over = length d - cfg.max_identities in
    let (st', e, valid', g, l) =
      drop_identities_lem fresh (oldest over now d) st valid
        (Distinct-oldest over now d valid.unique) (Present-oldest over now d valid.unique) in
    elim (Bool-cases (ltb cfg.max_identities (length d))) [
      | inl full ↦ (
        st',
        ground (arith, e),
        valid',
        Keeps-drop now (oldest over now d) d st'.ip_state.entries g
            (λ j h. mem-oldest over now j d valid.unique h),
      )
      | inr fits ↦ (st, ground arith, valid, record { bans = λ j h. refl; old = λ j. inr refl })
    ]

-- On a valid identity table a round of the prune raises nothing and leaves a valid table. Every
-- identity whose ban has not expired keeps its record, and what is in the table afterwards was
-- there before, unchanged.
pub prune_identities-Keeps :
    (cfg : Config) (fresh : IpState) (now : ℕ) (st : Identities)
    → IsValid st.ip_state
    → (st' : Identities) × (prune_identities cfg fresh now st ≡ some st')
      × IsValid st'.ip_state
      × Keeps now st.ip_state.entries st'.ip_state.entries
unfolding prune_identities
prune_identities-Keeps cfg fresh now st valid =
    let d = st.ip_state.entries in
    let idle = keys_where (is_idle cfg now) d in
    let (st₁, e₁, valid₁, g₁, l₁) =
      drop_identities_lem fresh idle st valid (Distinct-keys_where (is_idle cfg now) d valid.unique)
        (Present-keys_where (is_idle cfg now) d valid.unique) in
    let (st₂, e₂, valid₂, k₂) = cap_lem cfg fresh now st₁ valid₁ in
    (
      record st₂ { ip_to_identities = evict is_empty st₂.ip_to_identities },
      rw e₁ (rw e₂),
      valid₂,
      Keeps-trans now d st₁.ip_state.entries st₂.ip_state.entries
          (Keeps-drop now idle d st₁.ip_state.entries g₁
            (λ j h. idle-without_global_ban cfg now j d valid.unique h))
          k₂,
    )
