-- ===== src/Jwt.antt =====
-- integrations/jwt.py: the check of a bearer token, and its place in core/proxy_handler.py.
-- HMAC-SHA256 under the secret, as bytes, and `json.loads` are parameters; of a JSON value the model
-- keeps what the check tells apart. Times are in seconds. A text is its code points.
pub mod Sound
use anti_bot_gw.Common.{
  ℕ, ◌+◌, ◌<◌, Bool, true, false, ltb, if◌then◌else◌, ◌&&◌, ◌||◌, not, Option, none, some, List, [],
  ◌∷◌, ◌++◌, drop, any, ◌==◌, nat_eq, list_eq,
}
use anti_bot_gw.Common.Dict.{mem}
use anti_bot_gw.Base64.{decode_padded}
use anti_bot_gw.Admin.Strip.{strip, lower}
use anti_bot_gw.Challenge.Decimal.{Text, Integer, natural, int}
use anti_bot_gw.Challenge.Pow.{is_nil}
use anti_bot_gw.Endpoint.Rules.{starts_with}
use anti_bot_gw.Admin.Split.{split_on}

-- The value of a claim: a number is its integer part, and a list has the texts among its elements.
pub data Claim : Type 0 where
  missing null other : Claim
  flag : Bool → Claim
  number : Integer → Claim
  text : Text → Claim
  list : List Text → Claim

-- What a segment decodes to: an object with its claims, or another JSON value.
pub data Document : Type 0 where
  object : (Text → Claim) → Document
  no_object : Document

-- `hmac.new(JWT_HMAC_SECRET, …).digest()` and `json.loads`, where `none` is an error
pub record Library : Type 0 where
  pub hmac : Text → List ℕ
  pub loads : List ℕ → Option Document

-- An empty text is a setting that is not set.
pub record Config : Type 0 where
  pub secret : Text
  pub issuer : Text
  pub audience : Text
  pub leeway : ℕ

pub data Reason : Type 0 where
  no_secret malformed alg_not_hs256 bad_signature expired not_yet_valid issuer_mismatch
        audience_mismatch :
      Reason

-- A check returns a verdict, or an exception leaves it.
pub data Verdict : Type 0 where
  ok raised : Verdict
  reject : Reason → Verdict

-- the names of the claims
abbrev pub alg : Text
alg = b'a' ∷ b'l' ∷ b'g' ∷ []

abbrev pub typ : Text
typ = b't' ∷ b'y' ∷ b'p' ∷ []

abbrev pub exp : Text
exp = b'e' ∷ b'x' ∷ b'p' ∷ []

abbrev pub nbf : Text
nbf = b'n' ∷ b'b' ∷ b'f' ∷ []

abbrev pub iss : Text
iss = b'i' ∷ b's' ∷ b's' ∷ []

abbrev pub aud : Text
aud = b'a' ∷ b'u' ∷ b'd' ∷ []

-- "HS256" and "JWT"
abbrev pub hs256 : Text
hs256 = b'H' ∷ b'S' ∷ b'2' ∷ b'5' ∷ b'6' ∷ []

abbrev pub jwt : Text
jwt = b'J' ∷ b'W' ∷ b'T' ∷ []

-- `value == want` for a text
abbrev pub is_text : Text → Claim → Bool
is_text want (text t) = t == want
is_text want _ = false

abbrev pub text_or_missing : Text → Claim → Bool
text_or_missing want missing = true
text_or_missing want c = is_text want c

-- `int(value)` of a claim that is there: the outer `none` is a claim that is not, the inner an error
abbrev pub int_of : Claim → Option (Option Integer)
int_of missing = none
int_of null = none
int_of (flag b) = some (some (natural (if b then 1 else 0)))
int_of (number n) = some (some n)
int_of (text t) = some (int t)
int_of (list ts) = some none
int_of other = some none

-- `n > exp + leeway` and `n + leeway < nbf`
unfoldable pub is_expired : ℕ → ℕ → Integer → Bool
is_expired leeway n e =
    if e.negative then ltb leeway (n + e.magnitude) else ltb (e.magnitude + leeway) n

unfoldable pub is_early : ℕ → ℕ → Integer → Bool
is_early leeway n e = if e.negative then false else ltb (n + leeway) e.magnitude

-- `int(exp)` and its check; `next` is the rest of the function
abbrev pub check_time : (Integer → Bool) → Reason → Option (Option Integer) → Verdict → Verdict
check_time wrong reason none next = next
check_time wrong reason (some none) next = raised
check_time wrong reason (some (some e)) next = if wrong e then reject reason else next

abbrev pub has_audience : Text → Claim → Bool
has_audience want (list ts) = mem want ts
has_audience want c = is_text want c

-- the issuer and the audience
unfoldable pub check_parties : Config → (Text → Claim) → Verdict
check_parties cfg payload =
    if not (is_nil cfg.issuer) && not (is_text cfg.issuer (payload iss))
    then reject issuer_mismatch
    else if not (is_nil cfg.audience) && not (has_audience cfg.audience (payload aud))
    then reject audience_mismatch
    else ok

-- the claims of the payload; one that is no object raises at the first `.get`
unfoldable pub check_claims : Config → ℕ → Document → Verdict
unfolding is_expired is_early check_parties
check_claims cfg n no_object = raised
check_claims cfg n (object payload) =
    check_time (is_expired cfg.leeway n) expired (int_of (payload exp)) (
      check_time (is_early cfg.leeway n) not_yet_valid (int_of (payload nbf))
        (check_parties cfg payload))

-- the header, then the signature
abbrev pub check_header : Library → Config → ℕ → Text → Document → Document → List ℕ → Verdict
check_header lib cfg n msg no_object payload sig = raised
check_header lib cfg n msg (object header) payload sig =
    if not (is_text hs256 (header alg)) || not (text_or_missing jwt (header typ))
    then reject alg_not_hs256
    else if not (lib.hmac msg == sig)
    then reject bad_signature
    else check_claims cfg n payload

-- `json.loads(_jwt_b64url_decode(seg))`
abbrev pub load : Library → Option (List ℕ) → Option Document
load lib none = none
load lib (some bytes) = lib.loads bytes

abbrev pub check_decoded :
    Library → Config → ℕ → Text → Option Document → Option Document → Option (List ℕ) → Verdict
check_decoded lib cfg n msg (some header) (some payload) (some sig) =
    check_header lib cfg n msg header payload sig
check_decoded lib cfg n msg _ _ _ = reject malformed

abbrev pub check_parts : Library → Config → ℕ → List Text → Verdict
check_parts lib cfg n (header ∷ payload ∷ sig ∷ []) =
    check_decoded lib cfg n (header ++ b'.' ∷ payload) (load lib (decode_padded header))
      (load lib (decode_padded payload)) (decode_padded sig)
check_parts lib cfg n _ = reject malformed

-- `_verify_jwt_hs256`
unfoldable pub verify_jwt_hs256 : Library → Config → ℕ → Text → Verdict
unfolding check_claims
verify_jwt_hs256 lib cfg n token =
    if is_nil cfg.secret then reject no_secret else check_parts lib cfg n (split_on b'.' token)

-- `_jwt_required_for`: `fnmatchcase` is a parameter
unfoldable pub jwt_required_for : (Text → Text → Bool) → List Text → Text → Bool
jwt_required_for fnmatchcase globs path = any (fnmatchcase path) globs

-- "bearer "
abbrev pub bearer : Text
bearer = b'b' ∷ b'e' ∷ b'a' ∷ b'r' ∷ b'e' ∷ b'r' ∷ b' ' ∷ []

-- what the handler does with a request: it goes on, gets a decoy, or an exception leaves the check
pub data Gate : Type 0 where
  goes_on decoy raises : Gate

abbrev pub gate_of : Verdict → Gate
gate_of ok = goes_on
gate_of raised = raises
gate_of (reject reason) = decoy

-- The check of `Authorization` in the request handler: its text is empty where it is missing.
unfoldable pub check_bearer :
    (Text → Text → Bool) → List Text → Library → Config → ℕ → Text → Text → Gate
unfolding jwt_required_for verify_jwt_hs256
check_bearer fnmatchcase globs lib cfg n path auth =
    if jwt_required_for fnmatchcase globs path
    then (if starts_with bearer (lower auth)
        then gate_of (verify_jwt_hs256 lib cfg n (strip (drop 7 auth)))
        else decoy)
    else goes_on
