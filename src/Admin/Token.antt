-- ===== src/Admin/Token.antt =====
-- admin/users.py, `_session_sign` and `_session_parse`: the signed session token. A text is its code
-- points. HMAC-SHA256 under the session key, as bytes, is a parameter.
pub mod RoundTrip
use anti_bot_gw.Common.{
  ℕ, suc, ◌+◌, ◌-◌, ◌/◌, ◌≤◌, ◌<◌, Bool, true, false, ltb, leb, ◌=ℕ=◌, if◌then◌else◌, ◌&&◌, ◌||◌,
  not, Option, none, some, List, [], ◌∷◌, ◌++◌, length, any, ◌==◌, nat_eq, list_eq,
}
use anti_bot_gw.Base64.{urlsafe_b64encode, rstrip_pad, decode_padded}
use anti_bot_gw.Challenge.Decimal.{Text, Integer, str, int}
use anti_bot_gw.Challenge.Pow.{split, is_nil}
use anti_bot_gw.Challenge.Pow.Split.{bars}

-- `hmac.new(SESSION_KEY, …).digest()`
pub record Crypto : Type 0 where
  pub hmac : Text → List ℕ

-- `_SESSION_TTL`, in seconds
abbrev pub session_ttl : ℕ
session_ttl = 43_200

-- a `$` also matches before a newline that ends the text
unfoldable pub chomp : Text → Text
chomp [] = []
chomp (c ∷ []) = if c =ℕ= 10 then [] else c ∷ []
chomp (c ∷ d ∷ s) = c ∷ chomp (d ∷ s)

abbrev pub is_lower : ℕ → Bool
is_lower c = leb b'a' c && leb c b'z'

abbrev pub is_digit : ℕ → Bool
is_digit c = leb b'0' c && leb c b'9'

abbrev pub is_upper : ℕ → Bool
is_upper c = leb b'A' c && leb c b'Z'

-- `[a-z0-9._-]` and `[A-Za-z0-9_-]`
abbrev pub name_char : ℕ → Bool
name_char c = is_lower c || is_digit c || c =ℕ= b'.' || c =ℕ= b'_' || c =ℕ= b'-'

abbrev pub sid_char : ℕ → Bool
sid_char c = is_upper c || is_lower c || is_digit c || c =ℕ= b'_' || c =ℕ= b'-'

unfoldable pub every : (ℕ → Bool) → Text → Bool
every p [] = true
every p (c ∷ s) = let rest = every p s in p c && rest

-- `[a-z0-9][a-z0-9._-]{1,62}` on a whole text
unfoldable pub name_shape : Text → Bool
unfolding every
name_shape [] = false
name_shape (c ∷ s) =
    (is_lower c || is_digit c) && (every name_char s && (leb 1 (length s) && leb (length s) 62))

-- `_USERNAME_RE.match`
unfoldable pub username_re : Text → Bool
unfolding chomp name_shape
username_re u = name_shape (chomp u)

-- `[A-Za-z0-9_-]{16,32}` on a whole text, and `_SID_RE.match`
unfoldable pub sid_shape : Text → Bool
unfolding every
sid_shape s = every sid_char s && (leb 16 (length s) && leb (length s) 32)

unfoldable pub sid_re : Text → Bool
unfolding chomp sid_shape
sid_re s = sid_shape (chomp s)

-- `f"{username}|{sid}|{expiry}"`
abbrev pub payload : Text → Text → Text → Text
payload username sid expiry = username ++ b'|' ∷ (sid ++ b'|' ∷ expiry)

-- `_session_sign`: `ttl` is in seconds
unfoldable pub session_sign : Crypto → ℕ → Text → Text → ℕ → Text
session_sign crypto now username sid ttl =
    let expiry = str (now / 1000 + ttl) in
    payload username sid expiry
    ++ b'|' ∷ rstrip_pad (urlsafe_b64encode (crypto.hmac (payload username sid expiry)))

-- What `_session_parse` returns: the user, the session's id and the expiry in seconds.
pub record Parsed : Type 0 where
  pub username : Text
  pub sid : Text
  pub expiry : ℕ

-- the signature, where it is base64 at all
unfoldable pub check_sig : Crypto → Text → Text → ℕ → Text → Option Parsed
check_sig crypto username sid expiry sig = elim (decode_padded sig) [
  | none ↦ none
  | some got ↦
      if crypto.hmac (payload username sid (str expiry)) == got
      then some (record { username = username; sid = sid; expiry = expiry })
      else none
]

-- the expiry and the shapes, then the signature; an expiry below zero is in the past
unfoldable pub check_parts : Crypto → ℕ → Text → Text → Integer → Text → Option Parsed
unfolding check_sig username_re sid_re
check_parts crypto now username sid expiry sig =
    if expiry.negative && not (expiry.magnitude =ℕ= 0) || ltb expiry.magnitude (now / 1000)
    then none
    else if not (username_re username)
    then none
    else if not (sid_re sid)
    then none
    else check_sig crypto username sid expiry.magnitude sig

abbrev pub check_fields : Crypto → ℕ → List Text → Option Parsed
unfolding check_parts
check_fields crypto now (username ∷ sid ∷ expiry ∷ sig ∷ []) = elim (int expiry) [
  | none ↦ none
  | some e ↦ check_parts crypto now username sid e sig
]
check_fields crypto now _ = none

-- `_session_parse`
unfoldable pub session_parse : Crypto → ℕ → Text → Option Parsed
unfolding check_parts
session_parse crypto now token =
    if is_nil token || not (bars token =ℕ= 3) then none else check_fields crypto now (split token)
