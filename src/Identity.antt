-- ===== src/Identity.antt =====
-- identity.py: the signed session cookie and the identity of a request. A text is its code points.
-- HMAC-SHA256 under the session key, as a hexadecimal digest, and `str.isalnum` on a character are
-- parameters.
pub mod RoundTrip
use anti_bot_gw.Common.{
  ℕ, ◌+◌, ◌-◌, ◌≤◌, ◌<◌, Bool, true, false, ltb, leb, ◌=ℕ=◌, if◌then◌else◌, ◌&&◌, ◌||◌, not, Option,
  none, some, List, [], ◌∷◌, ◌++◌, length, take, any, ◌==◌, nat_eq, list_eq,
}
use anti_bot_gw.Challenge.Decimal.{Text}
use anti_bot_gw.Challenge.Pow.{is_nil, compare_digest}

pub record Crypto : Type 0 where
  pub hmac : Text → Text
  pub isalnum : ℕ → Bool

-- `b"session:" + sid`
abbrev pub session_payload : Text → Text
session_payload sid = b's' ∷ b'e' ∷ b's' ∷ b's' ∷ b'i' ∷ b'o' ∷ b'n' ∷ b':' ∷ sid

-- `_sign_session`
unfoldable pub sign_session : Crypto → Text → Text
sign_session crypto sid = sid ++ b'.' ∷ crypto.hmac (session_payload sid)

-- `token.rsplit(".", 1)`, `none` where there is no dot
unfoldable pub rsplit : Text → Option (Text × Text)
rsplit [] = none
rsplit (c ∷ s) = elim (rsplit s) [
  | some p ↦ some (c ∷ p.0, p.1)
  | none ↦ if c =ℕ= b'.' then some ([], s) else none
]

-- the characters of a session id
unfoldable pub is_clean : Crypto → Text → Bool
is_clean crypto [] = true
is_clean crypto (c ∷ s) =
    let rest = is_clean crypto s in (crypto.isalnum c || c =ℕ= b'-' || c =ℕ= b'_') && rest

-- the checks on the two parts; an exception that leaves the function is the outer `none`
unfoldable pub check_session : Crypto → Text → Text → Option (Option Text)
check_session crypto sid sig =
    if is_nil sid || not (length sig =ℕ= 64)
    then some none
    else if ltb 64 (length sid) || not (is_clean crypto sid)
    then some none
    else elim (compare_digest sig (crypto.hmac (session_payload sid))) [
      | none ↦ none
      | some b ↦ some (if b then some sid else none)
    ]

-- `_verify_session`
unfoldable pub verify_session : Crypto → Text → Option (Option Text)
unfolding check_session
verify_session crypto token = elim (rsplit token) [
  | none ↦ some none
  | some p ↦ check_session crypto p.0 p.1
]

-- `f"sess|{sid}|{fp}"` and `f"anon|{fp}|{ip}"`
abbrev pub session_key : Text → Text → Text
session_key sid fp = b's' ∷ b'e' ∷ b's' ∷ b's' ∷ b'|' ∷ (sid ++ b'|' ∷ fp)

abbrev pub anon_key : Text → Text → Text
anon_key fp ip = b'a' ∷ b'n' ∷ b'o' ∷ b'n' ∷ b'|' ∷ (fp ++ b'|' ∷ ip)

-- What `get_identity` returns; the mode is "session" where the session is not new.
pub record Identity : Type 0 where
  pub identity : Text
  pub session_id : Text
  pub is_new : Bool

-- `get_identity`: the cookie, the fingerprint and the address of the request, and a random new id
unfoldable pub get_identity : Crypto → Text → Text → Text → Text → Option Identity
unfolding verify_session
get_identity crypto cookie fp ip new_sid = elim (verify_session crypto cookie) [
  | none ↦ none
  | some (some sid) ↦ some (record {
    identity = take 16 (crypto.hmac (session_key sid fp));
    session_id = sid;
    is_new = false;
  })
  | some none ↦ some (record {
    identity = take 16 (crypto.hmac (anon_key fp ip));
    session_id = new_sid;
    is_new = true;
  })
]
