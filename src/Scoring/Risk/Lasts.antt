-- ===== src/Scoring/Risk/Lasts.antt =====
-- scoring.py: what one operation does to the end of a ban: a hit (update_risk_and_maybe_ban), a look
-- for a ban (is_banned), and any change of one record.
use mathlib.Core.Path.{subst}
use anti_bot_gw.Common.{
  ℕ, ◌+◌, ◌-◌, ◌≤◌, Bool, true, false, ltb, if◌then◌else◌, ◌&&◌, String, string_eq, Option, none,
  some, ◌≡◌, refl, sym, ap, ◌∙◌, ◌⊎◌, arith, Bool-cases, Option-cases, inl, inr, beq_refl,
  eq_of_beq, ◌==◌, ◌=ℕ=◌,
}
use anti_bot_gw.Common.Dict.{get}
use anti_bot_gw.Common.Dict.Laws.{get-put}
use anti_bot_gw.State.IpState.{IpState}
use anti_bot_gw.State.Table.{Table, IsValid, with_state}
use anti_bot_gw.State.Table.Laws.{found}
use anti_bot_gw.State.Table.Valid.{
  evicts, first_is, getitem_lem, after_with, with_state-after, after_with-IsValid, get-after_with,
}
use anti_bot_gw.RateLimit.Identity.{charge}
use anti_bot_gw.Scoring.Ban.{Store, local_ban, is_banned, raise_ban}
use anti_bot_gw.Scoring.Risk.{
  Config, Request, ban_secs, gate_open, triggers, impose, update_risk_and_maybe_ban,
}
use anti_bot_gw.Scoring.Risk.Effect.{weight, risen, verdict, outcome, update_lem, update_weightless}
use anti_bot_gw.Scoring.Risk.Decision.{until_in, impose-until, bans-add_risk}

-- A full table does not give up the record of `key` for a new one of `other`.
abbrev pub Spares : String → String → Store → Type 0
Spares key other st = (evicts other st.ip_state && first_is key st.ip_state.entries) ≡ false

-- The identity has a record, in which its ban ends at `until` at the earliest.
abbrev pub Lasts : String × String → ℕ → String → Table IpState → Type 0
Lasts scope until key t =
    IsValid t × (s : IpState) × (get key t.entries ≡ some s) × (until ≤ until_in scope s)

-- A table in which one record has changed, without an earlier end of its ban.
changed :
    (scope : String × String) (until : ℕ) (key other : String) (fresh s : IpState)
    (t t' : Table IpState)
    → IsValid t'
    → ((j : String)
        → get j t'.entries ≡ (
            if other == j
            then some s
            else if evicts other t && first_is j t.entries
            then none
            else get j t.entries))
    → (evicts other t && first_is key t.entries) ≡ false
    → until_in scope (found other fresh t) ≤ until_in scope s
    → Lasts scope until key t
    → Lasts scope until key t'
changed scope until key other fresh s t t' valid g spares later (v, r, h, ends) =
    elim (Bool-cases (other == key)) [
      | inr apart ↦ (valid, r, g key ∙ rw (apart, spares) h, ends)
      | inl same ↦
          let is : found other fresh t ≡ r = rw (eq_of_beq other key same, found, h) refl in
          (valid, s, g key ∙ rw same refl, omega (arith, later, ends, ap (until_in scope) is))
    ]

impose-later :
    (scope : String × String) (req : Request) (secs : ℕ) (s : IpState)
    → until_in req.scope s ≤ req.now
    → until_in scope s ≤ until_in scope (impose req secs s)
unfolding impose
impose-later scope req secs s free = ground (
  arith,
  free,
  get-put req.scope.1 scope.1 (req.now + secs) s.banned_until_by_vhost,
  string_eq.beq_iff req.scope.1 scope.1,
)

add_risk-later :
    (scope : String × String) (cfg : Config) (req : Request) (fresh : IpState)
    (key reason ip : String) (st : Store)
    → until_in scope (risen cfg req fresh key reason ip st)
      ≡ until_in scope (found key fresh st.ip_state)
add_risk-later scope cfg req fresh key reason ip st =
    let (a, b) =
      bans-add_risk cfg req reason (weight cfg req fresh key reason ip st)
        (found key fresh st.ip_state) in
    ground (arith, a, b)

outcome-later :
    (scope : String × String) (cfg : Config) (req : Request) (fresh : IpState)
    (key reason ip : String) (st : Store)
    → until_in scope (found key fresh st.ip_state)
      ≤ until_in scope (outcome cfg req fresh key reason ip st)
unfolding triggers gate_open
outcome-later scope cfg req fresh key reason ip st =
    let r = risen cfg req fresh key reason ip st in
    let same = add_risk-later scope cfg req fresh key reason ip st in
    elim (Bool-cases (verdict cfg req fresh key reason ip st)) [
      | inr miss ↦ rw miss (omega (arith, same))
      | inl hit ↦ rw hit (
          omega (arith, same, impose-later scope req (ban_secs cfg reason) r (ground (arith, hit))))
    ]

pub charge-bans :
    (burst rate n : ℕ) (s : IpState) (scope : String × String)
    → until_in scope (charge burst rate n s).0 ≡ until_in scope s
unfolding charge
charge-bans burst rate n s scope = ground arith

raise_ban-later :
    (scope : String × String) (until : ℕ) (s : IpState)
    → until_in scope s ≤ until_in scope (raise_ban until s).0
raise_ban-later scope until s = ground arith

-- An operation on one record that does not bring the end of its ban forward.
pub with_state-Lasts :
    {A : Type 0} (scope : String × String) (until : ℕ) (key other : String) (fresh : IpState)
    (f : IpState → IpState × A) (t t' : Table IpState) (a : A)
    → ((s : IpState) → until_in scope s ≤ until_in scope (f s).0)
    → (evicts other t && first_is key t.entries) ≡ false
    → with_state other fresh f t ≡ some (t', a)
    → Lasts scope until key t
    → Lasts scope until key t'
with_state-Lasts {A} scope until key other fresh f t t' a later spares e lasts =
    let valid = lasts.0 in
    let is : some (after_with other fresh f t, (f (found other fresh t)).1) ≡ some (t', a) =
      sym (with_state-after other fresh f t valid.positive) ∙ e in
    let same : after_with other fresh f t ≡ t' =
      ap (λ (o : Option (Table IpState × A)). elim o [ none ↦ t | some p ↦ p.0 ]) is in
    subst (Lasts scope until key) same (
      changed scope until key other fresh (f (found other fresh t)).0 t (after_with other fresh f t)
        (after_with-IsValid other fresh f t valid) (λ j. get-after_with other fresh f t j valid)
        spares (later (found other fresh t)) lasts)

abbrev table_of : Table IpState → Option (Store × Bool × ℕ) → Table IpState
table_of t none = t
table_of t (some x) = x.0.ip_state

-- the table that `is_banned` leaves: that of its lookup, or that with the ban of the shared store
asked :
    (fresh : IpState) (own : String × String) (now wall shared : ℕ) (other : String)
    (st st' : Store) (b : Bool) (left : ℕ)
    → (valid : IsValid st.ip_state)
    → is_banned fresh own now wall shared other st ≡ some (st', b, left)
    → (st'.ip_state ≡ (getitem_lem other fresh st.ip_state valid).0)
      ⊎ ((end : ℕ) × (a : Unit {0}) × (with_state other fresh
              (raise_ban end)
              (getitem_lem other fresh st.ip_state valid).0
            ≡ some (st'.ip_state, a)))
unfolding is_banned
asked fresh own now wall shared other st st' b left valid e =
    let (t, looks, v, g) = getitem_lem other fresh st.ip_state valid in
    let s = found other fresh st.ip_state in
    elim (Option-cases (local_ban own now s)) [
      | inr (rest, l) ↦
          let runs : is_banned fresh own now wall shared other st
              ≡ some (record st { ip_state = t }, true, rest) =
            ground (arith, looks, l) in
          inl (ap (table_of t) (sym e ∙ runs))
      | inl l ↦ elim (Bool-cases (ltb wall shared)) [
        | inr past ↦
            let runs : is_banned fresh own now wall shared other st
                ≡ some (record st { ip_state = t }, false, 0) =
              ground (arith, looks, l, past) in
            inl (ap (table_of t) (sym e ∙ runs))
        | inl soon ↦
            let end = now + (shared - wall) in
            let raised = with_state-after other fresh (raise_ban end) t v.positive in
            let u = after_with other fresh (raise_ban end) t in
            let runs : is_banned fresh own now wall shared other st
                ≡ some (record st { ip_state = u }, true, shared - wall) =
              ground (arith, looks, l, soon, raised) in
            inr (
              end,
              tt,
              raised
                  ∙ ap (λ (x : Table IpState). some (x, tt)) (sym (ap (table_of t) (sym e ∙ runs))),
            )
      ]
    ]

pub asks-Lasts :
    (scope own : String × String) (until now wall shared left : ℕ) (key other : String)
    (fresh : IpState) (st st' : Store) (b : Bool)
    → Spares key other st
    → is_banned fresh own now wall shared other st ≡ some (st', b, left)
    → Lasts scope until key st.ip_state
    → Lasts scope until key st'.ip_state
asks-Lasts scope own until now wall shared left key other fresh st st' b spares e lasts =
    let (t, looks, v, g) = getitem_lem other fresh st.ip_state lasts.0 in
    let s = found other fresh st.ip_state in
    let kept = changed scope until key other fresh s st.ip_state t v g spares (omega arith) lasts in
    let there : get other t.entries ≡ some s = g other ∙ rw (beq_refl other) refl in
    elim (asked fresh own now wall shared other st st' b left lasts.0 e) [
      | inl same ↦ subst (Lasts scope until key) (sym same) kept
      | inr (end, a, raised) ↦
          with_state-Lasts scope until key other fresh (raise_ban end) t st'.ip_state a
            (raise_ban-later scope end) (ground (arith, there)) raised kept
    ]

pub hits-Lasts :
    (scope : String × String) (until : ℕ) (key other reason ip : String) (cfg : Config)
    (req : Request) (fresh : IpState) (st st' : Store) (hit : Bool)
    → Spares key other st
    → update_risk_and_maybe_ban cfg req fresh other reason ip st ≡ some (st', hit)
    → Lasts scope until key st.ip_state
    → Lasts scope until key st'.ip_state
hits-Lasts scope until key other reason ip cfg req fresh st st' hit spares e lasts =
    elim (Bool-cases (weight cfg req fresh other reason ip st =ℕ= 0)) [
      | inl light ↦
          let same : st ≡ st' =
            ap (λ (o : Option (Store × Bool)). elim o [ none ↦ st | some x ↦ x.0 ])
              (sym (update_weightless cfg req fresh other reason ip st (ground (arith, light)))
                ∙ e) in
          subst (λ (x : Store). Lasts scope until key x.ip_state) same lasts
      | inr heavy ↦
          let (st₁, runs, v, g) =
            update_lem cfg req fresh other reason ip st lasts.0 (λ z. ground (arith, z, heavy)) in
          let same : st₁ ≡ st' =
            ap (λ (o : Option (Store × Bool)). elim o [ none ↦ st | some x ↦ x.0 ])
              (sym runs ∙ e) in
          subst (λ (x : Store). Lasts scope until key x.ip_state) same
            (changed scope until key other fresh (outcome cfg req fresh other reason ip st)
              st.ip_state st₁.ip_state v g spares
              (outcome-later scope cfg req fresh other reason ip st) lasts)
    ]

-- the record that a hit leaves which bans
pub imposed :
    (cfg : Config) (req : Request) (fresh : IpState) (key reason ip : String) (st st₁ : Store)
    → IsValid st.ip_state
    → update_risk_and_maybe_ban cfg req fresh key reason ip st ≡ some (st₁, true)
    → Lasts req.scope (req.now + ban_secs cfg reason) key st₁.ip_state
imposed cfg req fresh key reason ip st st₁ valid e =
    elim (Bool-cases (weight cfg req fresh key reason ip st =ℕ= 0)) [
      | inl light ↦ absurd (
          ground
            (arith, e, update_weightless cfg req fresh key reason ip st (ground (arith, light))))
      | inr heavy ↦
          let (st', runs, v, g) =
            update_lem cfg req fresh key reason ip st valid (λ z. ground (arith, z, heavy)) in
          let both = sym runs ∙ e in
          let same : st' ≡ st₁ =
            ap (λ (o : Option (Store × Bool)). elim o [ none ↦ st | some x ↦ x.0 ]) both in
          let hit : verdict cfg req fresh key reason ip st ≡ true =
            ap (λ (o : Option (Store × Bool)). elim o [ none ↦ true | some x ↦ x.1 ]) both in
          let r = risen cfg req fresh key reason ip st in
          let until : until_in req.scope (outcome cfg req fresh key reason ip st)
              ≡ req.now + ban_secs cfg reason =
            rw hit (impose-until req (ban_secs cfg reason) r) in
          subst (λ (x : Store). Lasts req.scope (req.now + ban_secs cfg reason) key x.ip_state) same
            (
              v,
              outcome cfg req fresh key reason ip st,
              g key ∙ rw (beq_refl key) refl,
              omega (arith, until),
            )
    ]
