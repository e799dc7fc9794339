-- ===== src/Admin/Sessions.antt =====
-- admin/users.py: the cache of sessions. Times are in milliseconds; a session's own random id is an
-- argument.
pub mod Revocation
pub mod Final
pub mod Limit
use anti_bot_gw.Common.{
  ℕ, suc, ◌+◌, ◌*◌, ◌-◌, ◌/◌, ◌≤◌, ◌<◌, Bool, true, false, ltb, leb, ◌=ℕ=◌, if◌then◌else◌, ◌&&◌,
  ◌||◌, not, Option, none, some, List, [], ◌∷◌, ◌++◌, length, take, filter, map, String, ◌==◌,
  nat_eq, list_eq,
}
use anti_bot_gw.Common.Dict.{Dict, get, put, member, keys_where}
use anti_bot_gw.Common.Sort.{sorted}
use anti_bot_gw.Common.Sort.Keyed.{firsts}
use anti_bot_gw.Challenge.Decimal.{Text}
use anti_bot_gw.Challenge.Pow.{is_nil}
use anti_bot_gw.Admin.Store.Write.{user_session_create, user_session_revoke, user_session_touch}
use anti_bot_gw.Admin.Store.{Session, Store, put_or_drop}
use anti_bot_gw.Admin.Token.{Crypto, Parsed, session_ttl, session_sign, session_parse}

-- the checks on the entry of the cache
unfoldable pub cached_ok : ℕ → Text → Session → Bool
cached_ok now username c = not c.revoked && c.username == username && leb now c.expires_ts

abbrev pub verify_at : ℕ → Bool → Text → Option Session → Option Text
verify_at now ready username none = if ready then none else some username
verify_at now ready username (some c) = if cached_ok now username c then some username else none

abbrev pub verify_parsed : ℕ → Store → Option Parsed → Option Text
verify_parsed now s none = none
verify_parsed now s (some p) = verify_at now s.ready p.username (get p.sid s.cache)

-- `_session_verify`
unfoldable pub session_verify : Crypto → ℕ → Store → Text → Option Text
unfolding cached_ok
session_verify crypto now s token = verify_parsed now s (session_parse crypto now token)

abbrev pub set_session : Text → Session → Store → Store
set_session sid c s = record s { cache = put sid c s.cache }

-- `_session_create`: the new state and the token
unfoldable pub session_create : Crypto → ℕ → Text → Text → String → Text → Store → Store × Text
session_create crypto now sid username ip ua s =
    let expires = now + 1000 * session_ttl in
    let w = user_session_create sid username ip (take 512 ua) now expires in
    let c : Session = record {
      username = username;
      expires_ts = expires;
      revoked = false;
      last_touch = none;
    } in
    (set_session sid c (put_or_drop w s), session_sign crypto now username sid session_ttl)

abbrev pub revoke_at : ℕ → Text → Text → Option Session → Store → Store × Bool
revoke_at now sid by none s = (s, false)
revoke_at now sid by (some c) s = (
  put_or_drop (user_session_revoke sid by now) (set_session sid (record c { revoked = true }) s),
  true,
)

-- `_session_revoke`
unfoldable pub session_revoke : ℕ → Text → Text → Store → Store × Bool
session_revoke now sid by s = revoke_at now sid by (get sid s.cache) s

-- `for sid in sids: _session_revoke(sid, by)`
unfoldable pub revoke_all : ℕ → Text → List Text → Store → Store
unfolding session_revoke
revoke_all now by [] s = s
revoke_all now by (sid ∷ sids) s = revoke_all now by sids (session_revoke now sid by s).0

-- "system"
abbrev pub system : Text
system = b's' ∷ b'y' ∷ b's' ∷ b't' ∷ b'e' ∷ b'm' ∷ []

-- neither revoked nor expired, and of this user
unfoldable pub is_live : ℕ → Text → Session → Bool
is_live now username c = c.username == username && (not c.revoked && ltb now c.expires_ts)

-- `sid != except_sid`
abbrev pub other_than : Option Text → Text → Bool
other_than none sid = true
other_than (some except) sid = not (sid == except)

unfoldable pub sessions_of : ℕ → Text → Option Text → Dict Text Session → List Text
unfolding is_live
sessions_of now username except =
    keys_where (λ sid c. is_live now username c && other_than except sid)

-- `_revoke_user_sessions`
unfoldable pub revoke_user_sessions : ℕ → Text → Text → Option Text → Store → Store × ℕ
unfolding sessions_of revoke_all
revoke_user_sessions now username by except s =
    let to_revoke = sessions_of now username except s.cache in
    (revoke_all now (if is_nil by then system else by) to_revoke s, length to_revoke)

-- the live sessions of a user, the one that expires first in front
unfoldable pub active_of : ℕ → Text → Dict Text Session → List (Text × Session)
unfolding is_live
active_of now username d =
    sorted (λ (p : Text × Session). p.1.expires_ts) (filter (λ p. is_live now username p.1) d)

-- the first of them, as many as are too many for one more
abbrev pub oldest_excess : ℕ → List (Text × Session) → List Text
oldest_excess max_sess active = firsts (take (length active - max_sess + 1) active)

-- `_enforce_session_limit`; `max_sess` is `MAX_ADMIN_SESSIONS`
unfoldable pub enforce_session_limit : ℕ → ℕ → Text → Store → Store
unfolding active_of revoke_all
enforce_session_limit max_sess now username s =
    let active = active_of now username s.cache in
    if leb max_sess (length active)
    then revoke_all now system (oldest_excess max_sess active) s
    else s

abbrev pub touch_at : ℕ → Text → Option Session → Store → Store
touch_at now sid none s = s
touch_at now sid (some c) s =
    let last : ℕ = elim c.last_touch [ none ↦ 0 | some t ↦ t ] in
    if ltb now (last + 30_000)
    then s
    else put_or_drop (user_session_touch now sid)
        (set_session sid (record c { last_touch = some now }) s)

-- `_session_touch`
unfoldable pub session_touch : ℕ → Text → Store → Store
session_touch now sid s = touch_at now sid (get sid s.cache) s
