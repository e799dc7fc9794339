-- ===== src/Scoring/Ban.antt =====
-- scoring.py, `is_banned`, `_resolve_ban_scope` and `ban`. A reading of the monotonic clock is
-- `now`, of the time of day `wall`; the readings of one call are one.
pub mod Laws
use anti_bot_gw.Common.{
  ℕ, ◌+◌, ◌-◌, ◌≤◌, ◌<◌, max, Bool, true, false, ltb, leb, if◌then◌else◌, ◌≡◌, ◌&&◌, not, Option,
  none, some, List, [], ◌∷◌, ◌++◌, length, String, string_eq, ◌==◌,
}
use anti_bot_gw.Common.Dict.{Dict, get, put}
use anti_bot_gw.State.IpState.{IpState}
use anti_bot_gw.State.Table.{Table, getitem, with_state, ◌>>=◌}

-- A reason for a ban: the text given, or `risk-score:<points>:<reason>`.
pub data Reason : Type 0 where
  given : String → Reason
  risk : ℕ → String → Reason

-- the messages to the database writer
pub data Message : Type 0 where
  ban_row : String → ℕ → Reason → ℕ → Message
  ip_ban_row : String → ℕ → Reason → ℕ → Message
  ip_ban_vhost_row : String → String → ℕ → Reason → ℕ → Message

pub record Queue : Type 0 where
  pub items : List Message
  pub maxsize : ℕ

-- `put_nowait` with its `QueueFull` ignored; a `maxsize` of 0 is no limit
unfoldable pub put_nowait : Message → Queue → Queue
put_nowait m q =
    if ltb 0 q.maxsize && leb q.maxsize (length q.items)
    then q
    else record q { items = q.items ++ m ∷ [] }

-- What the functions read and write: the identities, the index of addresses, the queue where there
-- is one, and the bans sent to the shared store.
pub record Store : Type 0 where
  pub ip_state : Table IpState
  pub ip_to_identities : Dict String (List String)
  pub db_queue : Option Queue
  pub shared_bans : List (String × ℕ × Reason)

unfoldable pub enqueue : Message → Store → Store
unfolding put_nowait
enqueue m st = record st {
  db_queue = elim st.db_queue [ none ↦ none | some q ↦ some (put_nowait m q) ];
}

-- `_shared_ban_set`
unfoldable pub share_ban : String → ℕ → Reason → Store → Store
share_ban key until reason st = record st {
  shared_bans = st.shared_bans ++ (key, until, reason) ∷ [];
}

-- `_resolve_ban_scope`: the request's BAN_SCOPE and virtual host, `none` where the lookup raises
unfoldable pub resolve_ban_scope : Option (String × String) → String × String
resolve_ban_scope none = ("global", "")
resolve_ban_scope (some (scope, vhost)) = (if scope == "" then "global" else scope, vhost)

unfoldable pub vhost_scoped : String × String → Bool
vhost_scoped (scope, vhost) = scope == "vhost" && not (vhost == "")

-- `d.get(vhost, 0.0)`
abbrev pub until_at : String → Dict String ℕ → ℕ
until_at vhost d = elim (get vhost d) [ none ↦ 0 | some t ↦ t ]

-- the two local tests: the time left of a ban in force
unfoldable pub local_ban : String × String → ℕ → IpState → Option ℕ
unfolding vhost_scoped
local_ban scope now s =
    if ltb now s.banned_until
    then some (s.banned_until - now)
    else if vhost_scoped scope && ltb now (until_at scope.1 s.banned_until_by_vhost)
    then some (until_at scope.1 s.banned_until_by_vhost - now)
    else none

abbrev pub raise_ban : ℕ → IpState → IpState × Unit {0}
raise_ban until s = (record s { banned_until = max s.banned_until until }, tt)

-- `is_banned`: the verdict and the time left. `shared` is the expiry that the shared store gives,
-- 0 if it has none or fails.
unfoldable pub is_banned :
    IpState → String × String → ℕ → ℕ → ℕ → String → Store → Option (Store × Bool × ℕ)
unfolding local_ban
is_banned fresh scope now wall shared ip st = do
  (t, s) ← getitem ip fresh st.ip_state
  elim (local_ban scope now s) [
    | some left ↦ some (record st { ip_state = t }, true, left)
    | none ↦
        if ltb wall shared
        then (do
          (t', _) ← with_state ip fresh (raise_ban (now + (shared - wall))) t
          some (record st { ip_state = t' }, true, shared - wall))
        else some (record st { ip_state = t }, false, 0)
  ]

-- the record of a ban on the identity
unfoldable pub apply_ban : String × String → ℕ → IpState → IpState × Unit {0}
unfolding vhost_scoped
apply_ban scope until s =
    if vhost_scoped scope
    then (record s { banned_until_by_vhost = put scope.1 until s.banned_until_by_vhost }, tt)
    else (record s { banned_until = until }, tt)

-- the rows of a ban, shared with `update_risk_and_maybe_ban`
unfoldable pub ban_rows : ℕ → String × String → String → String → ℕ → ℕ → Reason → Store → Store
unfolding vhost_scoped enqueue
ban_rows hostile_secs scope key raw_ip wall secs reason st =
    if vhost_scoped scope
    then enqueue (ip_ban_vhost_row raw_ip scope.1 (wall + secs) reason wall) st
    else (let st' = enqueue (ban_row key (wall + secs) reason wall) st in
        if leb hostile_secs secs
        then enqueue (ip_ban_row raw_ip (wall + secs) reason wall) st'
        else st')

-- `ban`
unfoldable pub ban :
    IpState → ℕ → String × String → ℕ → ℕ → String → ℕ → String → Store → Option Store
unfolding apply_ban ban_rows share_ban
ban fresh hostile_secs scope now wall ip secs reason st = do
  (t, _) ← with_state ip fresh (apply_ban scope (now + secs)) st.ip_state
  (t', s) ← getitem ip fresh t
  let raw_ip = if s.last_ip == "" then ip else s.last_ip
  let st' =
      ban_rows hostile_secs scope ip raw_ip wall secs (given reason) (record st { ip_state = t' })
  some (share_ban ip (wall + secs) (given reason) st')
