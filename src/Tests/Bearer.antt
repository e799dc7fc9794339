-- ===== src/Tests/Bearer.antt =====
-- The bearer tokens of integrations/jwt.py, at a concrete input. HMAC and `json.loads` are stand-ins.
use anti_bot_gw.Common.{
  ℕ, Bool, true, false, if◌then◌else◌, ◌==◌, nat_eq, list_eq, Option, none, some, List, [], ◌∷◌,
  ◌≡◌, refl, drop,
}
use anti_bot_gw.Base64.{decode_padded}
use anti_bot_gw.Admin.Strip.{strip, lower}
use anti_bot_gw.Challenge.Decimal.{Text, natural}
use anti_bot_gw.Challenge.Pow.{is_nil}
use anti_bot_gw.Endpoint.Rules.{starts_with}
use anti_bot_gw.Admin.Split.{split_on}
use anti_bot_gw.Jwt.{
  Claim, missing, number, text, list, Document, object, Library, Config, alg, exp, iss, aud, hs256,
  jwt_required_for, bearer, check_bearer, goes_on,
}
use anti_bot_gw.Jwt.Sound.{GoodToken, check_bearer_sound}

abbrev header : Text → Claim
header k = if k == alg then text hs256 else missing

abbrev claims : Text → Claim
claims k =
    if k == exp
    then number (natural 1_000)
    else if k == iss
    then text (b'i' ∷ [])
    else if k == aud
    then list ((b'z' ∷ []) ∷ (b'a' ∷ []) ∷ [])
    else missing

abbrev loads : List ℕ → Option Document
loads bytes =
    if bytes == (0 ∷ [])
    then some (object header)
    else if bytes == (1 ∷ [])
    then some (object claims)
    else none

abbrev lib : Library
lib = record { hmac = λ m. 200 ∷ 7 ∷ []; loads = loads }

abbrev cfg : Config
cfg = record { secret = b'k' ∷ []; issuer = b'i' ∷ []; audience = b'a' ∷ []; leeway = 60 }

-- "AA.AQ.yAc"
abbrev token : Text
token = b'A' ∷ b'A' ∷ b'.' ∷ b'A' ∷ b'Q' ∷ b'.' ∷ b'y' ∷ b'A' ∷ b'c' ∷ []

-- "Bearer AA.AQ.yAc"
abbrev auth : Text
auth = b'B' ∷ b'e' ∷ b'a' ∷ b'r' ∷ b'e' ∷ b'r' ∷ b' ' ∷ token

abbrev api : Text
api = b'/' ∷ b'a' ∷ []

-- a stand-in for the glob matcher
abbrev same_text : Text → Text → Bool
same_text path glob = path == glob

passes : check_bearer same_text (api ∷ []) lib cfg 1_060 api auth ≡ goes_on
unfolding check_bearer split_on decode_padded anti_bot_gw.Common.any anti_bot_gw.Common.Dict.mem
    starts_with lower strip
passes = refl

asks : jwt_required_for same_text (api ∷ []) api ≡ true
unfolding jwt_required_for anti_bot_gw.Common.any
asks = refl

check_bearer_sound_example :
    (starts_with bearer (lower auth) ≡ true)
    × (is_nil cfg.secret ≡ false)
    × GoodToken lib cfg 1_060 (strip (drop 7 auth))
check_bearer_sound_example =
    check_bearer_sound same_text (api ∷ []) lib cfg 1_060 api auth asks passes
