-- ===== src/Scoring/Risk.antt =====
-- scoring.py, `update_risk_and_maybe_ban`: the risk that a detector's hit adds, and the ban that
-- it may lead to.
pub mod Effect
pub mod Decision
pub mod Lasts
pub mod Standing
use anti_bot_gw.Common.{
  ℕ, suc, ◌+◌, ◌-◌, ◌*◌, ◌/◌, ◌≤◌, ◌<◌, Bool, true, false, ltb, leb, ◌=ℕ=◌, if◌then◌else◌, ◌≡◌,
  ◌&&◌, not, Option, none, some, List, [], ◌∷◌, ◌++◌, length, String, string_eq, ◌==◌,
}
use anti_bot_gw.Common.Dict.{Dict, get, put, mem}
use anti_bot_gw.State.IpState.{IpState, one_point}
use anti_bot_gw.State.Table.{Table, getitem, get_default, ◌>>=◌}
use anti_bot_gw.Scoring.Decay.{Halving, decay_risk, share}
use anti_bot_gw.Scoring.Ban.{Reason, risk, Store, vhost_scoped, until_at, ban_rows, share_ban}

-- The settings of config.py, with durations in milliseconds and scores in thousandths of a point.
pub record Config : Type 0 where
  pub halving : Halving
  pub risk_weights : Dict String ℕ
  pub ban_threshold : ℕ
  pub ban_threshold_nat : ℕ
  pub nat_identities : ℕ
  pub really_reasons : List String
  pub hostile_reasons : List String
  pub really_ban : ℕ
  pub hostile_ban : ℕ
  pub risk_ban : ℕ

-- what the request carries: the weights of its virtual host, the ban scope and the two clocks
pub record Request : Type 0 where
  pub overrides : Dict String ℕ
  pub scope : String × String
  pub now : ℕ
  pub wall : ℕ

unfoldable pub weight_of : Config → Dict String ℕ → String → ℕ
weight_of cfg overrides reason = elim (get reason overrides) [
  | none ↦ share reason cfg.risk_weights
  | some w ↦ w
]

unfoldable pub ban_secs : Config → String → ℕ
ban_secs cfg reason =
    if mem reason cfg.really_reasons
    then cfg.really_ban
    else if mem reason cfg.hostile_reasons
    then cfg.hostile_ban
    else cfg.risk_ban

-- an identity that counts towards a shared address
unfoldable pub counts_for_nat : ℕ → String → IpState → Bool
counts_for_nat now ip s =
    s.last_ip == ip
    && ltb now (s.last_seen + 3_600_000)
    && leb 1 s.static_loads
    && leb 3 s.allowed_count

-- `sum(1 for k in ip_to_identities.get(ip, ()) if …)`: each lookup by `get` may move its key
unfoldable pub count_identities :
    ℕ → String → List String → Table IpState → Option (Table IpState × ℕ)
unfolding counts_for_nat
count_identities now ip [] t = some (t, 0)
count_identities now ip (k ∷ ks) t = do
  (t₁, o) ← get_default k t
  (t₂, n) ← count_identities now ip ks t₁
  some (t₂, if elim o [ none ↦ false | some s ↦ counts_for_nat now ip s ] then suc n else n)

-- the record with the hit's weight: the score, the reason's share, and under a virtual host's
-- scope the host's own score
unfoldable pub add_risk : Config → Request → String → ℕ → IpState → IpState
add_risk cfg req reason weight s =
    let d = decay_risk cfg.halving req.now s in
    let s' = record d {
      risk_score = d.risk_score + weight;
      risk_by_reason = put reason (share reason d.risk_by_reason + weight) d.risk_by_reason;
    } in
    if vhost_scoped req.scope
    then record s' {
      risk_by_vhost =
          put req.scope.1 (share req.scope.1 s'.risk_by_vhost + weight) s'.risk_by_vhost;
    }
    else s'

unfoldable pub eval_score : Request → IpState → ℕ
eval_score req s =
    if vhost_scoped req.scope then share req.scope.1 s.risk_by_vhost else s.risk_score

unfoldable pub gate_open : Request → IpState → Bool
gate_open req s =
    if vhost_scoped req.scope
    then leb (until_at req.scope.1 s.banned_until_by_vhost) req.now
    else leb s.banned_until req.now

unfoldable pub threshold : Config → ℕ → ℕ
threshold cfg identities =
    if leb cfg.nat_identities identities then cfg.ban_threshold_nat else cfg.ban_threshold

unfoldable pub impose : Request → ℕ → IpState → IpState
impose req secs s =
    if vhost_scoped req.scope
    then record s {
      banned_until_by_vhost = put req.scope.1 (req.now + secs) s.banned_until_by_vhost;
    }
    else record s { banned_until = req.now + secs }

-- the verdict on the record that carries the new risk
unfoldable pub triggers : Config → Request → ℕ → IpState → Bool
unfolding eval_score gate_open threshold
triggers cfg req identities s = leb (threshold cfg identities) (eval_score req s) && gate_open req s

unfoldable pub members_at : String → Store → List String
members_at ip st = elim (get ip st.ip_to_identities) [ none ↦ [] | some ks ↦ ks ]

-- what follows the locked part when a ban was imposed
unfoldable pub announce : Config → Request → String → String → String → IpState → Store → Store
unfolding eval_score ban_secs ban_rows share_ban
announce cfg req track_key reason ip s st =
    let secs = ban_secs cfg reason in
    let st' =
      ban_rows cfg.hostile_ban req.scope track_key ip req.wall secs
        (risk (eval_score req s / one_point) reason) st in
    share_ban track_key (req.wall + secs) (risk (s.risk_score / one_point) reason) st'

-- the locked part: the table, the record and the verdict
unfoldable pub assess :
    Config
    → Request
    → IpState
    → String
    → String
    → String
    → ℕ
    → Store
    → Option (Table IpState × IpState × Bool)
unfolding count_identities add_risk triggers impose ban_secs members_at
assess cfg req fresh track_key reason ip weight st = do
  (t₁, s) ← getitem track_key fresh st.ip_state
  let s₁ = add_risk cfg req reason weight s
  (t₂, n) ←
      count_identities req.now ip (members_at ip st)
        (record t₁ { entries = put track_key s₁ t₁.entries })
  let hit = triggers cfg req n s₁
  let s₂ = if hit then impose req (ban_secs cfg reason) s₁ else s₁
  some (record t₂ { entries = put track_key s₂ t₂.entries }, s₂, hit)

unfoldable pub update_risk_and_maybe_ban :
    Config → Request → IpState → String → String → String → Store → Option (Store × Bool)
unfolding assess announce weight_of
update_risk_and_maybe_ban cfg req fresh track_key reason ip st =
    let weight = weight_of cfg req.overrides reason in
    if weight =ℕ= 0 then some (st, false) else (do
      (t, s, hit) ← assess cfg req fresh track_key reason ip weight st
      let st' = record st { ip_state = t }
      some (if hit then announce cfg req track_key reason ip s st' else st', hit))
