-- ===== src/Admin/Auth.antt =====
-- admin/auth.py: who is signed in, the anti-forgery token and the roles. Times are in milliseconds.
pub mod Idle
use anti_bot_gw.Common.{
  ℕ, ◌+◌, ◌*◌, ◌-◌, ◌/◌, ◌%◌, Bool, true, false, ltb, if◌then◌else◌, ◌&&◌, ◌||◌, not, Option, none,
  some, List, [], ◌∷◌, take, any, ◌==◌, nat_eq, list_eq, String, string_eq,
}
use anti_bot_gw.Common.Dict.{Dict, get, put}
use anti_bot_gw.Challenge.Decimal.{Text}
use anti_bot_gw.Challenge.Pow.{is_nil, compare_digest}
use anti_bot_gw.Admin.Store.{Role, User, Session, Store}
use anti_bot_gw.Admin.Store.Role.{admin, maintainer, viewer}
use anti_bot_gw.Admin.Token.{Crypto, Parsed, session_ttl, session_parse}
use anti_bot_gw.Admin.Sessions.{session_verify, session_revoke, session_touch, system}

-- a digit of `hexdigest()`, and the whole
unfoldable pub hex_digit : ℕ → ℕ
hex_digit n = if ltb n 10 then b'0' + n else b'a' + n - 10

unfoldable pub hex : List ℕ → Text
unfolding hex_digit
hex [] = []
hex (b ∷ bytes) = hex_digit (b / 16) ∷ hex_digit (b % 16) ∷ hex bytes

-- the anti-forgery token of a session
unfoldable pub csrf_token : Crypto → Text → Text
unfolding hex
csrf_token crypto sid = take 32 (hex (crypto.hmac sid))

-- GET, HEAD and OPTIONS
abbrev pub is_safe : String → Bool
is_safe method = method == "GET" || method == "HEAD" || method == "OPTIONS"

-- the token in the header against the session's; an exception of the comparison is caught
abbrev pub csrf_matches : Crypto → Text → Option Parsed → Bool
csrf_matches crypto provided none = false
csrf_matches crypto provided (some p) =
    if is_nil provided
    then false
    else elim (compare_digest (csrf_token crypto p.sid) provided) [ none ↦ false | some b ↦ b ]

-- `_csrf_token_valid`
unfoldable pub csrf_token_valid : Crypto → ℕ → Bool → String → Text → Text → Bool
unfolding csrf_token
csrf_token_valid crypto now require_for_safe method cookie provided =
    if not require_for_safe && is_safe method
    then true
    else if is_nil cookie
    then false
    else csrf_matches crypto provided (session_parse crypto now cookie)

-- `time - last_touch > SESSION_IDLE_TIMEOUT`; without a touch, the session's start stands for it
unfoldable pub is_idle : ℕ → ℕ → Session → Bool
is_idle idle now c = elim c.last_touch [
  | some t ↦ ltb (t + 1000 * idle) now
  | none ↦ ltb (c.expires_ts + 1000 * idle) (now + 1000 * session_ttl)
]

abbrev pub idle_at : ℕ → ℕ → Option Session → Bool
idle_at idle now none = false
idle_at idle now (some c) = is_idle idle now c

-- the user and the session of a request that is signed in
abbrev pub sid_of : Option Parsed → Text
sid_of none = []
sid_of (some p) = p.sid

abbrev pub touch_some : ℕ → Text → Store → Store
touch_some now sid s = if is_nil sid then s else session_touch now sid s

abbrev pub authed_as : ℕ → ℕ → Text → Text → Store → Store × Option (Text × Text)
authed_as idle now user sid s =
    if not (is_nil sid) && (ltb 0 idle && idle_at idle now (get sid s.cache))
    then ((session_revoke now sid system s).0, none)
    else (
      touch_some now sid (record s { active_sessions = put user now s.active_sessions }),
      some (user, sid),
    )

abbrev pub authed_at : ℕ → ℕ → Text → Option Text → Store → Store × Option (Text × Text)
authed_at idle now sid none s = (s, none)
authed_at idle now sid (some user) s =
    if is_nil user then (s, none) else authed_as idle now user sid s

-- `_internal_authed`: the new state, and the user and session of the request if it is signed in;
-- `idle` is `SESSION_IDLE_TIMEOUT` in seconds
unfoldable pub internal_authed : Crypto → ℕ → ℕ → Text → Store → Store × Option (Text × Text)
unfolding is_idle
internal_authed crypto idle now cookie s =
    if is_nil cookie
    then (s, none)
    else authed_at idle now (sid_of (session_parse crypto now cookie))
        (session_verify crypto now s cookie) s

-- `_request_role`: `none` is the role "none"; a request that carries no session user has been let in
-- by the key
abbrev pub request_role : Dict Text User → Option Text → Option Role
request_role users none = some admin
request_role users (some name) = elim (get name users) [ none ↦ none | some u ↦ some u.role ]

abbrev pub role_eq : Role → Role → Bool
role_eq admin admin = true
role_eq maintainer maintainer = true
role_eq viewer viewer = true
role_eq _ _ = false

-- `role in allowed_roles`
abbrev pub role_in : List Role → Option Role → Bool
role_in roles none = false
role_in roles (some r) = any (role_eq r) roles

-- `_role_denied`
unfoldable pub role_denied : Dict Text User → Option Text → List Role → Bool
role_denied users caller allowed_roles = not (role_in allowed_roles (request_role users caller))
