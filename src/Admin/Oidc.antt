-- ===== src/Admin/Oidc.antt =====
-- admin/oidc.py: single sign-on. The identity provider and the JWT library are parameters: what the
-- provider answers, the header of a token, and the claims of a token whose signature, issuer,
-- audience and times are right. Times are in milliseconds.
pub mod Callback
pub mod Nonce
use anti_bot_gw.Common.{
  ℕ, suc, ◌+◌, ◌≤◌, ◌<◌, Bool, true, false, ltb, leb, ◌=ℕ=◌, if◌then◌else◌, ◌&&◌, ◌||◌, not, Option,
  none, some, List, [], ◌∷◌, ◌++◌, length, take, map, ◌==◌, nat_eq, list_eq, String,
}
use anti_bot_gw.Common.Dict.{Dict, get, put, remove, evict, mem}
use anti_bot_gw.Admin.Strip.{strip, lower}
use anti_bot_gw.Challenge.Decimal.{Text}
use anti_bot_gw.Challenge.Pow.{is_nil, compare_digest}
use anti_bot_gw.Admin.Store.{Role, Status, User, Store, put_or_drop}
use anti_bot_gw.Admin.Store.Status.{active, pending}
use anti_bot_gw.Admin.Store.Write.{user_login_recorded}
use anti_bot_gw.Admin.Token.{Crypto, is_lower, is_digit, name_char, username_re}
use anti_bot_gw.Admin.Sessions.{session_create}
use anti_bot_gw.Admin.Login.{is_outside, safe_next, status_eq}

-- The opaque error codes.
pub data Problem : Type 0 where
  idp_error missing_params invalid_state token_exchange no_access_token token_replay idtoken
        userinfo timeout network identity_mismatch unmappable disabled :
      Problem

-- What the provider answers a request with.
pub data Reply {ℓ} (A : Type ℓ) : Type ℓ where
  ok : A → Reply A
  bad_status times_out unreachable : Reply A

-- A missing text is empty.
pub record Tokens : Type 0 where
  pub access_token : Text
  pub id_token : Text

pub record Jwk : Type 0 where
  pub kid : Option Text
  pub key : Text

-- the header of a token: its algorithm and its key
pub record Header : Type 0 where
  pub alg : Text
  pub kid : Text

pub record Claims : Type 0 where
  pub sub : Text
  pub nonce : Text

pub record Userinfo : Type 0 where
  pub sub : Text
  pub preferred_username : Text
  pub email : Text

-- The provider and the JWT library: `jwks` tells a forced fetch apart; `none` is an exception.
pub record Provider : Type 0 where
  pub exchange : Text → Reply Tokens
  pub userinfo_of : Text → Reply Userinfo
  pub jwks : Bool → Option (List Jwk)
  pub header : Text → Option Header
  pub decode : Text → Text → Option Claims

pub record Config : Type 0 where
  pub crypto : Crypto
  pub default_role : Role
  pub post_login : Text
  pub allowed_algs : List Text

-- an entry of `_OIDC_STATE`; `nonce` is what `state_data.get("nonce")` finds
pub record Entry : Type 0 where
  pub next_url : Text
  pub expires_ts : ℕ
  pub nonce : Option Text

abbrev pub States : Type 0
States = Dict Text Entry

-- `_STATE_TTL_S`
abbrev pub state_ttl : ℕ
state_ttl = 300_000

-- `re.sub(r"[^a-z0-9._-]", ".", u)`
unfoldable pub dotted : Text → Text
dotted = map (λ c. if name_char c then c else b'.')

-- `re.sub(r"\.{2,}", ".", u)`
unfoldable pub single_dots : Text → Text
single_dots [] = []
single_dots (c ∷ []) = c ∷ []
single_dots (c ∷ d ∷ s) =
    let rest = single_dots (d ∷ s) in if c =ℕ= b'.' && d =ℕ= b'.' then rest else c ∷ rest

-- `.strip(".")`
unfoldable pub strip_dots_left : Text → Text
strip_dots_left [] = []
strip_dots_left (c ∷ s) = let rest = strip_dots_left s in if c =ℕ= b'.' then rest else c ∷ s

unfoldable pub strip_dots_right : Text → Text
strip_dots_right [] = []
strip_dots_right (c ∷ s) = elim (strip_dots_right s) [
  | [] ↦ if c =ℕ= b'.' then [] else c ∷ []
  | d ∷ t ↦ c ∷ d ∷ t
]

-- `_safe_username`
unfoldable pub safe_username : Text → Option Text
unfolding dotted single_dots strip_dots_left strip_dots_right
safe_username preferred =
    let u = strip_dots_left (strip_dots_right (single_dots (dotted (lower (strip preferred))))) in
    if username_re u then some u else none

-- `_purge_expired_states`
unfoldable pub purge_expired_states : ℕ → States → States
purge_expired_states now = evict (λ k e. ltb e.expires_ts now)

-- `_select_jwk`
abbrev pub first_key : Text → List Jwk → Option Jwk
first_key kid [] = none
first_key kid (k ∷ ks) = elim k.kid [
  | none ↦ first_key kid ks
  | some id ↦ let rest = first_key kid ks in if id == kid then some k else rest
]

unfoldable pub select_jwk : Text → List Jwk → Option Jwk
select_jwk kid keys = if is_nil kid then none else first_key kid keys

abbrev pub select_from : Text → Option (List Jwk) → Option Jwk
select_from kid none = none
select_from kid (some keys) = select_jwk kid keys

-- the key, after a forced fetch where the cached keys have none; an exception of either ends it
abbrev pub or_refreshed : Provider → Text → Option Jwk → Option Jwk
or_refreshed idp kid (some k) = some k
or_refreshed idp kid none = select_from kid (idp.jwks true)

abbrev pub key_for : Provider → Text → Option (List Jwk) → Option Jwk
key_for idp kid none = none
key_for idp kid (some keys) = or_refreshed idp kid (select_jwk kid keys)

-- `expected_nonce and tok_nonce and hmac.compare_digest(…)`
unfoldable pub nonce_matches : Option Text → Text → Bool
nonce_matches none tok_nonce = false
nonce_matches (some expected) tok_nonce =
    if is_nil expected || is_nil tok_nonce
    then false
    else elim (compare_digest expected tok_nonce) [ none ↦ false | some b ↦ b ]

abbrev pub bind_nonce : Option Text → Option Claims → Option Claims
bind_nonce expected none = none
bind_nonce expected (some claims) =
    if nonce_matches expected claims.nonce then some claims else none

abbrev pub verify_with : Provider → Text → Option Text → Option Jwk → Option Claims
verify_with idp token expected none = none
verify_with idp token expected (some jwk) = bind_nonce expected (idp.decode token jwk.key)

abbrev pub verify_header : Config → Provider → Text → Option Text → Option Header → Option Claims
verify_header cfg idp token expected none = none
verify_header cfg idp token expected (some h) =
    if not (mem h.alg cfg.allowed_algs)
    then none
    else verify_with idp token expected (key_for idp h.kid (idp.jwks false))

-- `_verify_id_token`: `none` is an exception
unfoldable pub verify_id_token : Config → Provider → Text → Option Text → Option Claims
unfolding nonce_matches select_jwk
verify_id_token cfg idp token expected = verify_header cfg idp token expected (idp.header token)
