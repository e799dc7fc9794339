-- ===== src/Jwt/Sound.antt =====
-- About the tokens of integrations/jwt.py that pass, and the headers on which the check raises.
use anti_bot_gw.Common.{
  ℕ, Bool, true, false, ◌||◌, not, Option, none, some, List, [], ◌∷◌, ◌++◌, drop, nat_eq, list_eq,
  list_beq_iff, ◌≡◌, refl, arith, sym, ap, ◌∙◌, Bool-cases, inl, inr,
}
use anti_bot_gw.Base64.{decode_padded}
use anti_bot_gw.Admin.Strip.{strip, lower}
use anti_bot_gw.Challenge.Decimal.{Text, Integer}
use anti_bot_gw.Challenge.Pow.{is_nil}
use anti_bot_gw.Endpoint.Rules.{starts_with}
use anti_bot_gw.Admin.Split.{split_on, join_with, join_with-split_on}
use anti_bot_gw.Jwt.{
  Claim, Document, object, no_object, Library, Config, Verdict, ok, raised, alg, typ, exp, nbf, iss,
  aud, hs256, jwt, is_text, text_or_missing, int_of, is_expired, is_early, check_time, has_audience,
  check_parties, check_claims, check_header, load, check_decoded, check_parts, verify_jwt_hs256,
  jwt_required_for, bearer, gate_of, check_bearer, goes_on, reject, Reason,
}

-- the test on a time passes, or the claim is not there
abbrev pub in_time : (Integer → Bool) → Option (Option Integer) → Bool
in_time wrong none = true
in_time wrong (some none) = false
in_time wrong (some (some e)) = not (wrong e)

check_time_sound :
    (wrong : Integer → Bool) (reason : Reason) (o : Option (Option Integer)) (next : Verdict)
    → check_time wrong reason o next ≡ ok
    → (in_time wrong o ≡ true) × (next ≡ ok)
check_time_sound wrong reason none next h = (refl, h)
check_time_sound wrong reason (some none) next h = absurd (ground (arith, h))
check_time_sound wrong reason (some (some e)) next h = ground (arith, h)

-- The payload is an object whose times, issuer and audience are right.
abbrev pub GoodClaims : Config → ℕ → (Text → Claim) → Type 0
GoodClaims cfg n payload =
    (in_time (is_expired cfg.leeway n) (int_of (payload exp)) ≡ true)
    × (in_time (is_early cfg.leeway n) (int_of (payload nbf)) ≡ true)
    × ((is_nil cfg.issuer || is_text cfg.issuer (payload iss)) ≡ true)
    × ((is_nil cfg.audience || has_audience cfg.audience (payload aud)) ≡ true)

check_parties_sound :
    (cfg : Config) (payload : Text → Claim)
    → check_parties cfg payload ≡ ok
    → ((is_nil cfg.issuer || is_text cfg.issuer (payload iss)) ≡ true)
      × ((is_nil cfg.audience || has_audience cfg.audience (payload aud)) ≡ true)
unfolding check_parties
check_parties_sound cfg payload h = ground (arith, h)

check_claims_sound :
    (cfg : Config) (n : ℕ) (doc : Document)
    → check_claims cfg n doc ≡ ok
    → (payload : Text → Claim) × (doc ≡ object payload) × GoodClaims cfg n payload
unfolding check_claims
check_claims_sound cfg n no_object h = absurd (ground (arith, h))
check_claims_sound cfg n (object payload) h =
    let (fresh, rest) = check_time_sound (is_expired cfg.leeway n) _ (int_of (payload exp)) _ h in
    let (valid, parties) =
      check_time_sound (is_early cfg.leeway n) _ (int_of (payload nbf)) _ rest in
    let (from, to) = check_parties_sound cfg payload parties in
    (payload, refl, (fresh, valid, from, to))

-- The decoded parts are those of a token that passes.
abbrev pub GoodParts : Library → Config → ℕ → Text → Document → Document → List ℕ → Type 0
GoodParts lib cfg n msg header payload sig =
    (fields claims : Text → Claim) × (header ≡ object fields)
    × (payload ≡ object claims)
    × (is_text hs256 (fields alg) ≡ true)
    × (text_or_missing jwt (fields typ) ≡ true)
    × (lib.hmac msg ≡ sig)
    × GoodClaims cfg n claims

check_header_sound :
    (lib : Library) (cfg : Config) (n : ℕ) (msg : Text) (header payload : Document) (sig : List ℕ)
    → check_header lib cfg n msg header payload sig ≡ ok
    → GoodParts lib cfg n msg header payload sig
check_header_sound lib cfg n msg no_object payload sig h = absurd (ground (arith, h))
check_header_sound lib cfg n msg (object fields) payload sig h =
    let (claims, is, good) = check_claims_sound cfg n payload (ground (arith, h)) in
    (
      fields,
      claims,
      refl,
      is,
      ground (arith, h),
      ground (arith, h),
      ground (arith, h, list_beq_iff (lib.hmac msg) sig),
      good,
    )

check_decoded_sound :
    (lib : Library) (cfg : Config) (n : ℕ) (msg : Text) (a b : Option Document)
    (c : Option (List ℕ))
    → check_decoded lib cfg n msg a b c ≡ ok
    → (header payload : Document) × (sig : List ℕ) × (a ≡ some header)
      × (b ≡ some payload)
      × (c ≡ some sig)
      × GoodParts lib cfg n msg header payload sig
check_decoded_sound lib cfg n msg none b c h = absurd (ground (arith, h))
check_decoded_sound lib cfg n msg (some header) none c h = absurd (ground (arith, h))
check_decoded_sound lib cfg n msg (some header) (some payload) none h = absurd (ground (arith, h))
check_decoded_sound lib cfg n msg (some header) (some payload) (some sig) h =
    (header, payload, sig, refl, refl, refl, check_header_sound lib cfg n msg header payload sig h)

-- The three segments of a token that passes.
abbrev pub GoodToken : Library → Config → ℕ → Text → Type 0
GoodToken lib cfg n token =
    (first second third : Text) × (header payload : Document) × (sig : List ℕ) × (token
      ≡ first ++ b'.' ∷ (second ++ b'.' ∷ third))
    × (load lib (decode_padded first) ≡ some header)
    × (load lib (decode_padded second) ≡ some payload)
    × (decode_padded third ≡ some sig)
    × GoodParts lib cfg n (first ++ b'.' ∷ second) header payload sig

parts_sound :
    (lib : Library) (cfg : Config) (n : ℕ) (token : Text) (parts : List Text)
    → split_on b'.' token ≡ parts
    → check_parts lib cfg n parts ≡ ok
    → GoodToken lib cfg n token
parts_sound lib cfg n token [] e h = absurd (ground (arith, h))
parts_sound lib cfg n token (a ∷ []) e h = absurd (ground (arith, h))
parts_sound lib cfg n token (a ∷ b ∷ []) e h = absurd (ground (arith, h))
parts_sound lib cfg n token (a ∷ b ∷ c ∷ d ∷ ds) e h = absurd (ground (arith, h))
parts_sound lib cfg n token (a ∷ b ∷ c ∷ []) e h =
    let (header, payload, sig, of_a, of_b, of_c, good) =
      check_decoded_sound lib cfg n (a ++ b'.' ∷ b) (load lib (decode_padded a))
        (load lib (decode_padded b)) (decode_padded c) h in
    (
      a,
      b,
      c,
      header,
      payload,
      sig,
      sym (join_with-split_on b'.' token) ∙ ap (join_with b'.') e,
      of_a,
      of_b,
      of_c,
      good,
    )

-- A bearer token that passes has three segments; the first two decode to JSON objects, of which the
-- first names HS256 and no type but JWT; the third decodes to the HMAC of the first two under the
-- secret, which is set; and the claims are in time, for the issuer and the audience that are asked
-- for.
verify_jwt_hs256_sound :
    (lib : Library) (cfg : Config) (n : ℕ) (token : Text)
    → verify_jwt_hs256 lib cfg n token ≡ ok
    → (is_nil cfg.secret ≡ false) × GoodToken lib cfg n token
unfolding verify_jwt_hs256
verify_jwt_hs256_sound lib cfg n token h = elim (Bool-cases (is_nil cfg.secret)) [
  | inl empty ↦ absurd (ground (arith, h, empty))
  | inr given ↦
      (given, parts_sound lib cfg n token (split_on b'.' token) refl (ground (arith, h, given)))
]

-- A token whose first segment decodes to JSON that is no object, and whose other segments decode,
-- makes the check raise, whatever its signature is.
header_raises :
    (lib : Library) (cfg : Config) (n : ℕ) (first second third : Text) (payload : Document)
    (sig : List ℕ)
    → is_nil cfg.secret ≡ false
    → split_on b'.' (first ++ b'.' ∷ (second ++ b'.' ∷ third)) ≡ first ∷ second ∷ third ∷ []
    → load lib (decode_padded first) ≡ some no_object
    → load lib (decode_padded second) ≡ some payload
    → decode_padded third ≡ some sig
    → verify_jwt_hs256 lib cfg n (first ++ b'.' ∷ (second ++ b'.' ∷ third)) ≡ raised
unfolding verify_jwt_hs256
header_raises lib cfg n first second third payload sig given parts a b c =
    rw (given, parts, check_parts, a, b, c) refl

gate_of-goes_on : (v : Verdict) → gate_of v ≡ goes_on → v ≡ ok
gate_of-goes_on ok h = refl
gate_of-goes_on raised h = absurd (ground (arith, h))
gate_of-goes_on (reject reason) h = absurd (ground (arith, h))

-- A request that goes on to a path that asks for a token has an `Authorization` that begins with
-- "bearer ", in any case, and goes on with a token with three segments; the first two decode to JSON
-- objects, of which the first names HS256 and no type but JWT; the third decodes to the HMAC of the
-- first two under the secret, which is set; and the claims are in time, for the issuer and the
-- audience that are asked for.
pub check_bearer_sound :
    (fnmatchcase : Text → Text → Bool) (globs : List Text) (lib : Library) (cfg : Config) (n : ℕ)
    (path auth : Text)
    → jwt_required_for fnmatchcase globs path ≡ true
    → check_bearer fnmatchcase globs lib cfg n path auth ≡ goes_on
    → (starts_with bearer (lower auth) ≡ true)
      × (is_nil cfg.secret ≡ false)
      × GoodToken lib cfg n (strip (drop 7 auth))
unfolding check_bearer
check_bearer_sound fnmatchcase globs lib cfg n path auth asked h =
    elim (Bool-cases (starts_with bearer (lower auth))) [
      | inl given ↦
          let v : verify_jwt_hs256 lib cfg n (strip (drop 7 auth)) ≡ ok =
            gate_of-goes_on _ (ground (arith, h, asked, given)) in
          let (set, good) = verify_jwt_hs256_sound lib cfg n (strip (drop 7 auth)) v in
          (given, set, good)
      | inr absent ↦ absurd (ground (arith, h, asked, absent))
    ]
