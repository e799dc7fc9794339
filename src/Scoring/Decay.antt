-- ===== src/Scoring/Decay.antt =====
-- scoring.py, `_decay_risk`. The factor `0.5 ** (elapsed / RISK_DECAY_HALFLIFE_SECS)` is floating
-- point: its product with a score is a parameter, of which the code needs that it is no more than
-- the score.
use anti_bot_gw.Common.{
  ℕ, ◌-◌, ◌≤◌, ◌<◌, ltb, if◌then◌else◌, ◌≡◌, refl, arith, ◌&&◌, ◌⊎◌, none, some, [], ◌∷◌, String,
  string_eq,
}
use anti_bot_gw.Common.Dict.{Dict, get, Unique}
use anti_bot_gw.State.IpState.{IpState}

pub record Halving : Type 0 where
  -- the elapsed time, and the score
  pub scale : ℕ → ℕ → ℕ
  pub scale-le : (elapsed score : ℕ) → scale elapsed score ≤ score

-- half a point
abbrev pub noise : ℕ
noise = 500

-- each contribution in lockstep; one that falls below the noise goes
unfoldable pub fade : Halving → ℕ → Dict String ℕ → Dict String ℕ
fade h elapsed [] = []
fade h elapsed ((r, x) ∷ d) =
    let rest = fade h elapsed d in
    let y = h.scale elapsed x in if ltb y noise then rest else (r, y) ∷ rest

unfoldable pub decay_risk : Halving → ℕ → IpState → IpState
decay_risk h now s =
    let elapsed = now - s.last_risk_update in
    if ltb 0 elapsed && ltb 0 s.risk_score
    then (let score = h.scale elapsed s.risk_score in
        let quiet = ltb score noise in
        record s {
          risk_score = if quiet then 0 else score;
          risk_by_reason = if quiet then [] else fade h elapsed s.risk_by_reason;
          risk_by_vhost = fade h elapsed s.risk_by_vhost;
          last_risk_update = now;
        })
    else if ltb 0 elapsed
    then record s { risk_by_vhost = fade h elapsed s.risk_by_vhost; last_risk_update = now }
    else record s { last_risk_update = now }

-- what a reason or a virtual host contributes, 0 if nothing
abbrev pub share : String → Dict String ℕ → ℕ
share r d = elim (get r d) [ none ↦ 0 | some x ↦ x ]

module _ (h : Halving) where
  open h use {scale-le}

  get-fade-none :
      (elapsed : ℕ) (r : String) (d : Dict String ℕ)
      → get r d ≡ none
      → get r (fade h elapsed d) ≡ none
  unfolding fade get
  get-fade-none elapsed r [] e = refl
  get-fade-none elapsed r ((j, x) ∷ d) e = ground (arith, get-fade-none elapsed r d)

  pub share-fade-le :
      (elapsed : ℕ) (r : String) (d : Dict String ℕ)
      → Unique d
      → share r (fade h elapsed d) ≤ share r d
  unfolding fade get
  share-fade-le elapsed r [] u = omega arith
  share-fade-le elapsed r ((j, x) ∷ d) u = ground (
    arith,
    share-fade-le elapsed r d u.1,
    scale-le elapsed x,
    get-fade-none elapsed r d,
    string_eq.beq_iff j r,
  )

  pub bans-decay_risk :
      (now : ℕ) (s : IpState)
      → ((decay_risk h now s).banned_until ≡ s.banned_until)
        × ((decay_risk h now s).banned_until_by_vhost ≡ s.banned_until_by_vhost)
  unfolding decay_risk
  bans-decay_risk now s = (ground arith, ground arith)

  -- The decay raises no score: not the identity's, not a reason's, not a virtual host's. A score
  -- that has decayed is zero or above the noise, and the bans are left alone.
  pub decay_risk-shrinks :
      (now : ℕ) (s : IpState) (key : String)
      → Unique s.risk_by_reason
      → Unique s.risk_by_vhost
      → ((decay_risk h now s).risk_score ≤ s.risk_score)
        × (share key (decay_risk h now s).risk_by_reason ≤ share key s.risk_by_reason)
        × (share key (decay_risk h now s).risk_by_vhost ≤ share key s.risk_by_vhost)
        × (s.last_risk_update < now
            → ((decay_risk h now s).risk_score ≡ 0) ⊎ (noise ≤ (decay_risk h now s).risk_score))
        × ((decay_risk h now s).banned_until ≡ s.banned_until)
        × ((decay_risk h now s).banned_until_by_vhost ≡ s.banned_until_by_vhost)
  unfolding decay_risk get
  decay_risk-shrinks now s key ur uv =
      let e = now - s.last_risk_update in
      let r = share-fade-le e key s.risk_by_reason ur in
      let v = share-fade-le e key s.risk_by_vhost uv in
      let m = scale-le e s.risk_score in
      (
        ground (arith, m),
        ground (arith, r),
        ground (arith, v),
        λ p. ground (arith, m),
        ground arith,
        ground arith,
      )
