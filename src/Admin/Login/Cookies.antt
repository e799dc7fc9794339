-- ===== src/Admin/Login/Cookies.antt =====
-- The two cookies of a login, at the next request.
use anti_bot_gw.Common.{ℕ, ◌+◌, ◌*◌, false, none, nat_eq, list_eq, string_eq}
use anti_bot_gw.Common.Dict.{Dict}
use anti_bot_gw.Challenge.Decimal.{Text}
use anti_bot_gw.Admin.Store.{Store, Session}
use anti_bot_gw.Admin.Token.{session_ttl}

-- the entry that a login makes
abbrev new_session : ℕ → Text → Session
new_session now username = record {
  username = username;
  expires_ts = now + 1000 * session_ttl;
  revoked = false;
  last_touch = none;
}
