-- ===== src/Scoring/Risk/Decision.antt =====
-- When a hit bans, for how long, and whom it leaves alone.
use anti_bot_gw.Common.{
  ℕ, ◌+◌, ◌-◌, ◌≤◌, ◌<◌, Bool, true, false, some, ltb, if◌then◌else◌, String, ◌≡◌, ◌≢◌, refl, arith,
  inl, inr, Bool-cases, string_eq, beq_refl, ◌∙◌, ap, ◌↔◌,
}
use anti_bot_gw.Common.Dict.{get}
use anti_bot_gw.Common.Dict.Laws.{get-put}
use anti_bot_gw.State.IpState.{IpState}
use anti_bot_gw.State.Table.{IsValid}
use anti_bot_gw.State.Table.Laws.{found}
use anti_bot_gw.State.Table.Valid.{getitem_lem}
use anti_bot_gw.Scoring.Decay.{decay_risk, bans-decay_risk, share}
use anti_bot_gw.Scoring.Ban.{Store, vhost_scoped, until_at, local_ban, is_banned}
use anti_bot_gw.Scoring.Risk.{
  Config, Request, ban_secs, add_risk, eval_score, gate_open, threshold, triggers, impose,
  update_risk_and_maybe_ban,
}
use anti_bot_gw.Scoring.Risk.Effect.{weight, risen, at_ip, verdict, outcome, update_lem}

-- An identity's ban as the scope of the request sees it.
abbrev pub until_in : String × String → IpState → ℕ
until_in scope s =
    if vhost_scoped scope then until_at scope.1 s.banned_until_by_vhost else s.banned_until

local_ban-until :
    (scope : String × String) (now : ℕ) (s : IpState)
    → now < until_in scope s
    → (left : ℕ) × (local_ban scope now s ≡ some left) × (0 < left)
unfolding local_ban
local_ban-until scope now s h = elim (Bool-cases (ltb now s.banned_until)) [
  | inl g ↦ (s.banned_until - now, ground arith, ground arith)
  | inr g ↦ (until_at scope.1 s.banned_until_by_vhost - now, ground arith, ground arith)
]

pub impose-until :
    (req : Request) (secs : ℕ) (s : IpState)
    → until_in req.scope (impose req secs s) ≡ req.now + secs
unfolding impose
impose-until req secs s = ground (
  arith,
  get-put req.scope.1 req.scope.1 (req.now + secs) s.banned_until_by_vhost,
  beq_refl req.scope.1,
)

pub is_banned-local :
    (fresh : IpState) (scope : String × String) (now wall shared : ℕ) (key : String) (st : Store)
    (s : IpState)
    → IsValid st.ip_state
    → get key st.ip_state.entries ≡ some s
    → now < until_in scope s
    → (st' : Store) × (left : ℕ) × (is_banned fresh scope now wall shared key st
        ≡ some (st', true, left))
      × (0 < left)
unfolding is_banned
is_banned-local fresh scope now wall shared key st s valid h banned =
    let (t, e, v, g) = getitem_lem key fresh st.ip_state valid in
    let (left, l, pos) = local_ban-until scope now s banned in
    (record st { ip_state = t }, left, ground (arith, e, h, l), pos)

pub bans-add_risk :
    (cfg : Config) (req : Request) (reason : String) (w : ℕ) (s : IpState)
    → ((add_risk cfg req reason w s).banned_until ≡ s.banned_until)
      × ((add_risk cfg req reason w s).banned_until_by_vhost ≡ s.banned_until_by_vhost)
unfolding add_risk
bans-add_risk cfg req reason w s =
    let (g, v) = bans-decay_risk cfg.halving req.now s in (ground (arith, g), ground (arith, v))

until-add_risk :
    (cfg : Config) (req : Request) (reason : String) (w : ℕ) (s : IpState)
    → until_in req.scope (add_risk cfg req reason w s) ≡ until_in req.scope s
until-add_risk cfg req reason w s =
    let (g, v) = bans-add_risk cfg req reason w s in ground (arith, g, v)

-- the score that the scope looks at, after its decay
unfoldable pub prior : Config → Request → IpState → ℕ
prior cfg req s =
    let d = decay_risk cfg.halving req.now s in
    if vhost_scoped req.scope then share req.scope.1 d.risk_by_vhost else d.risk_score

eval-add_risk :
    (cfg : Config) (req : Request) (reason : String) (w : ℕ) (s : IpState)
    → eval_score req (add_risk cfg req reason w s) ≡ prior cfg req s + w
unfolding eval_score add_risk prior
eval-add_risk cfg req reason w s =
    let d = (decay_risk cfg.halving req.now s).risk_by_vhost in
    ground
      (arith, get-put req.scope.1 req.scope.1 (share req.scope.1 d + w) d, beq_refl req.scope.1)

impose-global :
    (req : Request) (secs : ℕ) (b : Bool) (s : IpState)
    → vhost_scoped req.scope ≡ true
    → (if b then impose req secs s else s).banned_until ≡ s.banned_until
unfolding impose
impose-global req secs true s scoped = ground arith
impose-global req secs false s scoped = refl

impose-other :
    (req : Request) (secs : ℕ) (b : Bool) (s : IpState) (w : String)
    → w ≢ req.scope.1
    → until_at w (if b then impose req secs s else s).banned_until_by_vhost
      ≡ until_at w s.banned_until_by_vhost
unfolding impose
impose-other req secs true s w ne = ground (
  arith,
  get-put req.scope.1 w (req.now + secs) s.banned_until_by_vhost,
  string_eq.beq_iff req.scope.1 w,
)
impose-other req secs false s w ne = refl

module _ (cfg : Config) (req : Request) (fresh : IpState) (key reason ip : String)
    (st : Store) where
  verdict_iff : (verdict cfg req fresh key reason ip st ≡ true) ↔ (
      (threshold cfg (at_ip cfg req fresh key reason ip st)
        ≤ eval_score req (risen cfg req fresh key reason ip st))
      × (until_in req.scope (risen cfg req fresh key reason ip st) ≤ req.now))
  unfolding triggers gate_open
  verdict_iff = (λ h. ground (arith, h), λ h. ground (arith, h.0, h.1))

  -- On a valid table, a hit of a reason that has a weight raises nothing, and bans exactly if the
  -- decayed score that the scope of the request looks at, plus the weight, is at least the
  -- threshold for the number of identities at the address, and the identity has no ban in force
  -- in that scope.
  pub bans_iff :
      IsValid st.ip_state
      → weight cfg req fresh key reason ip st ≢ 0
      → (st₁ : Store) × (hit : Bool) × (update_risk_and_maybe_ban cfg req fresh key reason ip st
          ≡ some (st₁, hit))
        × ((hit ≡ true) ↔ (
            (threshold cfg (at_ip cfg req fresh key reason ip st)
              ≤ prior cfg req (found key fresh st.ip_state) + weight cfg req fresh key reason ip st)
            × (until_in req.scope (found key fresh st.ip_state) ≤ req.now)))
  bans_iff valid heavy =
      let (st₁, e, v, g) = update_lem cfg req fresh key reason ip st valid heavy in
      let s = found key fresh st.ip_state in
      let w = weight cfg req fresh key reason ip st in
      let score = eval-add_risk cfg req reason w s in
      let until = until-add_risk cfg req reason w s in
      (
        st₁,
        verdict cfg req fresh key reason ip st,
        e,
        (
          λ h. let (a, b) = verdict_iff.0 h in (omega (arith, a, score), omega (arith, b, until)),
          λ h. verdict_iff.1 (omega (arith, h.0, score), omega (arith, h.1, until)),
        ),
      )

  -- A hit never shortens a ban: in the scope of the request, the identity's ban afterwards ends no
  -- earlier than before.
  hit-keeps_ban :
      until_in req.scope (found key fresh st.ip_state)
      ≤ until_in req.scope (outcome cfg req fresh key reason ip st)
  hit-keeps_ban =
      let r = risen cfg req fresh key reason ip st in
      let s = found key fresh st.ip_state in
      let w = weight cfg req fresh key reason ip st in
      elim (Bool-cases (verdict cfg req fresh key reason ip st)) [
        | inl hit ↦ rw hit (
            omega (
              arith,
              impose-until req (ban_secs cfg reason) r,
              until-add_risk cfg req reason w s,
              (verdict_iff.0 hit).1,
            ))
        | inr miss ↦ rw miss (omega (arith, until-add_risk cfg req reason w s))
      ]

  -- Under a virtual host's scope a hit leaves the identity's global ban and its bans on all other
  -- virtual hosts as they were.
  pub vhost_isolation :
      IsValid st.ip_state
      → weight cfg req fresh key reason ip st ≢ 0
      → vhost_scoped req.scope ≡ true
      → (st₁ : Store) × (hit : Bool) × (s : IpState) × (update_risk_and_maybe_ban cfg req fresh key
            reason ip st
          ≡ some (st₁, hit))
        × (get key st₁.ip_state.entries ≡ some s)
        × (s.banned_until ≡ (found key fresh st.ip_state).banned_until)
        × ((w : String)
            → w ≢ req.scope.1
            → until_at w s.banned_until_by_vhost
              ≡ until_at w (found key fresh st.ip_state).banned_until_by_vhost)
  vhost_isolation valid heavy scoped =
      let (st₁, e, v, g) = update_lem cfg req fresh key reason ip st valid heavy in
      let s = found key fresh st.ip_state in
      let r = risen cfg req fresh key reason ip st in
      let b = verdict cfg req fresh key reason ip st in
      let w = weight cfg req fresh key reason ip st in
      let (a₁, a₂) = bans-add_risk cfg req reason w s in
      (
        st₁,
        b,
        outcome cfg req fresh key reason ip st,
        e,
        g key ∙ (rw (beq_refl key)),
        impose-global req (ban_secs cfg reason) b r scoped ∙ a₁,
        λ v ne. impose-other req (ban_secs cfg reason) b r v ne ∙ ap (until_at v) a₂,
      )
