-- ===== src/Tests/Sessions.antt =====
-- The tokens, the sessions and the logins of admin/users.py, at concrete inputs. The digests and
-- scrypt are stand-ins.
use anti_bot_gw.Common.{
  ℕ, ◌%◌, ◌≤◌, true, false, ◌||◌, not, none, some, List, [], ◌∷◌, ◌++◌, length, any, nat_eq,
  list_eq, ◌≡◌, ◌≢◌, ◌↔◌, refl, arith,
}
use anti_bot_gw.Common.Dict.{get, Unique}
use anti_bot_gw.Base64.{decode_padded}
use anti_bot_gw.Base64.RoundTrip.{IsBytes}
use anti_bot_gw.Challenge.Decimal.{Text, Integer, str, int}
use anti_bot_gw.Admin.Store.{Session, Store}
use anti_bot_gw.Admin.Token.{
  Crypto, Parsed, payload, session_ttl, session_sign, session_parse, username_re, sid_re, is_upper,
  is_lower, is_digit,
}
use anti_bot_gw.Admin.Token.RoundTrip.{session_parse-sign, session_parse_sound}
use anti_bot_gw.Admin.Sessions.{session_verify, revoke_user_sessions, session_touch, system}
use anti_bot_gw.Admin.Sessions.Revocation.{revoke_user_sessions_lem}
use anti_bot_gw.Admin.Sessions.Final
use anti_bot_gw.Admin.Sessions.Final.{revoked_for_good, is_revoked}
use anti_bot_gw.Admin.Password.{
  Kdf, stored, password_hash, password_verify, validate_password_strength,
}
use anti_bot_gw.Admin.Password.Weakness.{too_common}
use anti_bot_gw.Admin.Password.Strength.{validate_password_strength_iff}
use anti_bot_gw.Admin.Password.RoundTrip.{password_verify-hash}

abbrev crypto : Crypto
crypto = record { hmac = λ m. length m % 256 ∷ 200 ∷ 7 ∷ 9 ∷ [] }

hmac-IsBytes : (m : Text) → IsBytes (crypto.hmac m)
hmac-IsBytes m = ground arith

abbrev name : Text
name = b'a' ∷ b'b' ∷ []

abbrev sid : Text
sid =
    b'S' ∷ b'-' ∷ b'_' ∷ b'4' ∷ b'5' ∷ b'6' ∷ b'7' ∷ b'8' ∷ b'a' ∷ b'b' ∷ b'c' ∷ b'd' ∷ b'e' ∷ b'f'
    ∷ b'g' ∷ b'h' ∷ []

name_fits : username_re name ≡ true
unfolding username_re
name_fits = refl

sid_fits : sid_re sid ≡ true
unfolding sid_re
sid_fits = refl

abbrev token : Text
token = session_sign crypto 5_000 name sid session_ttl

abbrev parsed : Parsed
parsed = record { username = name; sid = sid; expiry = 43_205 }

token_parses : session_parse crypto 7_000 token ≡ some parsed
token_parses =
    session_parse-sign crypto 5_000 7_000 name sid session_ttl hmac-IsBytes name_fits sid_fits

session_parse-sign_example :
    session_parse crypto 7_000 (session_sign crypto 5_000 name sid 60)
    ≡ some (record { username = name; sid = sid; expiry = 65 })
session_parse-sign_example =
    session_parse-sign crypto 5_000 7_000 name sid 60 hmac-IsBytes name_fits sid_fits

session_parse_sound_example :
    (expiry sig : Text) × (e : Integer) × (token ≡ payload name sid expiry ++ b'|' ∷ sig)
    × (int expiry ≡ some e)
    × (e.magnitude ≡ 43_205)
    × (7 ≤ 43_205)
    × (username_re name ≡ true)
    × (sid_re sid ≡ true)
    × (decode_padded sig ≡ some (crypto.hmac (payload name sid (str 43_205))))
session_parse_sound_example = session_parse_sound crypto 7_000 token parsed token_parses

abbrev entry : Session
entry = record { username = name; expires_ts = 43_205_000; revoked = false; last_touch = none }

abbrev store : Store
store = record { cache = (sid, entry) ∷ []; ready = true; queue = some []; active_sessions = [] }

one_session : Unique store.cache
unfolding get
one_session = (refl, tt)

revoke_user_sessions_lem_example :
    session_verify crypto 7_000 (revoke_user_sessions 6_000 name system none store).0 token ≡ none
revoke_user_sessions_lem_example =
    revoke_user_sessions_lem crypto 6_000 7_000 name system none store token parsed one_session refl
      (omega arith) token_parses

abbrev revoked : Store
revoked = record store { cache = (sid, record entry { revoked = true }) ∷ [] }

is_revoked_there : is_revoked (get sid revoked.cache) ≡ true
unfolding get
is_revoked_there = refl

revoked_for_good_example :
    session_verify crypto 7_000 (session_touch 6_000 sid revoked) token ≡ none
revoked_for_good_example =
    revoked_for_good (Final.next Final.here (Final.touches 6_000 sid revoked)) crypto 7_000 token
      parsed token_parses refl is_revoked_there

abbrev kdf : Kdf
kdf = record { scrypt = λ pw salt n r p. some (length pw % 256 ∷ 3 ∷ []) }

abbrev salt : List ℕ
salt = 1 ∷ 2 ∷ 3 ∷ []

hash_of_name : password_hash kdf salt name ≡ some (stored salt (2 ∷ 3 ∷ []))
unfolding password_hash
hash_of_name = refl

password_verify-hash_example : password_verify kdf sid (stored salt (2 ∷ 3 ∷ [])) ≡ false
password_verify-hash_example =
    password_verify-hash kdf salt (2 ∷ 3 ∷ []) name sid (stored salt (2 ∷ 3 ∷ [])) (ground arith)
      (ground arith) refl hash_of_name

validate_password_strength_iff_example :
    ((validate_password_strength sid ≡ none) ↔ (
      (12 ≤ 16)
      × (any is_upper sid ≡ true)
      × (any is_lower sid ≡ true)
      × (any is_digit sid ≡ true)
      × (any (λ c. not (is_upper c || is_lower c || is_digit c)) sid ≡ true)))
    × (validate_password_strength sid ≢ some too_common)
validate_password_strength_iff_example = validate_password_strength_iff sid
