-- ===== src/Challenge/Pow.antt =====
-- challenge/pow.py. A text is its code points. HMAC-SHA256 under the server's key and SHA-256, both
-- as hexadecimal digests, are parameters. Times are in milliseconds.
pub mod Split
pub mod Accept
pub mod RoundTrip
pub mod Replay
pub mod Reuse
use anti_bot_gw.Common.{
  ℕ, zero, suc, ◌+◌, ◌*◌, ◌-◌, ◌/◌, ◌≤◌, ◌<◌, min, max, Bool, true, false, ltb, leb, ◌=ℕ=◌,
  if◌then◌else◌, ◌≡◌, ◌&&◌, ◌||◌, not, Option, none, some, List, [], ◌∷◌, ◌++◌, length, replicate,
  map, any, ◌==◌, Eq, nat_eq, list_eq,
}
use anti_bot_gw.Common.Dict.{Dict, get, member, put, evict}
use anti_bot_gw.Challenge.Decimal.{Text, Integer, str, int}

-- `hmac.new(POW_HMAC_KEY, …).hexdigest()` and `hashlib.sha256(…).hexdigest()`
pub record Crypto : Type 0 where
  pub hmac : Text → Text
  pub sha256 : Text → Text

pub record Config : Type 0 where
  pub difficulty : ℕ
  pub anubis_enabled : Bool
  pub anubis_boost : ℕ
  pub valid_secs : ℕ
  pub min_solve_ms : ℕ

-- `s.upper()` on ASCII letters; HTTP methods are tokens of ASCII characters
unfoldable pub upper : Text → Text
upper = map (λ c. if leb b'a' c && leb c b'z' then c - 32 else c)

unfoldable pub pow_bind : Text → Text → Text
unfolding upper
pow_bind method path = upper method ++ b':' ∷ path

unfoldable pub challenge_difficulty : Config → ℕ → ℕ
challenge_difficulty cfg risk_score =
    if cfg.anubis_enabled
    then cfg.difficulty + cfg.anubis_boost
    else if leb 50 risk_score
    then 9
    else if leb 20 risk_score
    then 7
    else max cfg.difficulty 5

-- `f"{nonce}|{issued}|{diff}|{bind}"`
unfoldable pub payload : Text → Text → Text → Text → Text
payload nonce issued diff bind = nonce ++ b'|' ∷ (issued ++ b'|' ∷ (diff ++ b'|' ∷ bind))

-- the nonce is 16 random hexadecimal digits
unfoldable pub make_pow_challenge : Crypto → Config → Text → ℕ → Text → Text → ℕ → Text
unfolding pow_bind payload challenge_difficulty
make_pow_challenge crypto cfg nonce now method path risk_score =
    let p =
      payload nonce (str (now / 1000)) (str (challenge_difficulty cfg risk_score))
        (pow_bind method path) in
    p ++ b'|' ∷ crypto.hmac p

pub data Rejection : Type 0 where
  missing legacy malformed bad_signature not_bound expired too_quick bad_difficulty wrong_hash
        replay :
      Rejection

-- A call returns a verdict, or an exception leaves it.
pub data Verdict : Type 0 where
  ok : Verdict
  reject : Rejection → Verdict
  raise : Verdict

-- `hmac.compare_digest` on texts: it raises unless both are ASCII
unfoldable pub compare_digest : Text → Text → Option Bool
compare_digest a b =
    if any (λ c. leb 128 c) a || any (λ c. leb 128 c) b then none else some (a == b)

-- `s.split("|")`
unfoldable pub split : Text → List Text
split [] = [] ∷ []
split (c ∷ s) = elim (split s) [
  | [] ↦ (c ∷ []) ∷ []
  | part ∷ parts ↦ if c =ℕ= b'|' then [] ∷ part ∷ parts else (c ∷ part) ∷ parts
]

-- `issued` is later than `age > POW_VALID_SECS` allows
unfoldable pub is_expired : Config → ℕ → Integer → Bool
is_expired cfg now issued =
    if issued.negative
    then ltb cfg.valid_secs (now / 1000 + issued.magnitude)
    else ltb (issued.magnitude + cfg.valid_secs) (now / 1000)

-- four times the floor on the solving time: `POW_MIN_SOLVE_MS` less a quarter, or less 250
abbrev pub floor_4 : Config → ℕ
floor_4 cfg = 4 * cfg.min_solve_ms - min 1000 cfg.min_solve_ms

unfoldable pub is_too_quick : Config → ℕ → Integer → Bool
is_too_quick cfg now issued =
    if issued.negative
    then ltb (4 * now + 4000 * issued.magnitude) (floor_4 cfg)
    else ltb (4 * now) (4000 * issued.magnitude + floor_4 cfg)

-- `h.startswith("0" * n)`
unfoldable pub starts_with_zeros : ℕ → Text → Bool
starts_with_zeros zero h = true
starts_with_zeros (suc n) [] = false
starts_with_zeros (suc n) (c ∷ h) =
    let rest = starts_with_zeros n h in if c =ℕ= b'0' then rest else false

abbrev pub zeros_of : Integer → ℕ
zeros_of d = if d.negative then 0 else d.magnitude

-- the pruning of the tokens that were used, and the use of this one
unfoldable pub use_token : Config → ℕ → Text → Dict Text ℕ → Dict Text ℕ × Verdict
use_token cfg now token seen =
    let kept = if ltb 10000 (length seen) then evict (λ k exp. leb exp now) seen else seen in
    if member token kept
    then (kept, reject replay)
    else (put token (now + 1000 * cfg.valid_secs) kept, ok)

-- the checks that follow the reading of `issued`, in order
unfoldable pub check_work :
    Crypto → Config → ℕ → Text → Text → Text → Text → Integer → Dict Text ℕ → Dict Text ℕ × Verdict
unfolding is_expired is_too_quick starts_with_zeros use_token
check_work crypto cfg now token solution nonce diff issued seen =
    if is_expired cfg now issued
    then (seen, reject expired)
    else if is_too_quick cfg now issued
    then (seen, reject too_quick)
    else elim (int diff) [
      | none ↦ (seen, reject bad_difficulty)
      | some d ↦
          if starts_with_zeros (zeros_of d) (crypto.sha256 (nonce ++ solution))
          then use_token cfg now token seen
          else (seen, reject wrong_hash)
    ]

-- `verify_pow` on the five parts of a token
unfoldable pub check_parts :
    Crypto
    → Config
    → ℕ
    → Text
    → Text
    → Text
    → Text
    → Text
    → Text
    → Text
    → Text
    → Text
    → Dict Text ℕ
    → Dict Text ℕ × Verdict
unfolding check_work
check_parts crypto cfg now token solution method path nonce issued diff bind sig seen =
    elim (compare_digest sig (crypto.hmac (payload nonce issued diff bind))) [
      | none ↦ (seen, raise)
      | some false ↦ (seen, reject bad_signature)
      | some true ↦ elim (compare_digest bind (pow_bind method path)) [
        | none ↦ (seen, raise)
        | some false ↦ (seen, reject not_bound)
        | some true ↦ elim (int issued) [
          | none ↦ (seen, raise)
          | some i ↦ check_work crypto cfg now token solution nonce diff i seen
        ]
      ]
    ]

unfoldable pub by_parts :
    Crypto
    → Config
    → ℕ
    → Text
    → Text
    → Text
    → Text
    → List Text
    → Dict Text ℕ
    → Dict Text ℕ × Verdict
unfolding check_parts
by_parts crypto cfg now token solution method path (nonce ∷ issued ∷ diff ∷ bind ∷ sig ∷ []) seen =
    check_parts crypto cfg now token solution method path nonce issued diff bind sig seen
by_parts crypto cfg now token solution method path (_ ∷ _ ∷ _ ∷ _ ∷ []) seen = (seen, reject legacy)
by_parts crypto cfg now token solution method path _ seen = (seen, reject malformed)

abbrev pub is_nil : Text → Bool
is_nil [] = true
is_nil (c ∷ s) = false

-- `verify_pow` at the time `now`: the used tokens that it leaves, and its verdict
unfoldable pub verify_pow :
    Crypto → Config → ℕ → Text → Text → Text → Text → Dict Text ℕ → Dict Text ℕ × Verdict
unfolding by_parts
verify_pow crypto cfg now token solution method path seen =
    if is_nil token || is_nil solution
    then (seen, reject missing)
    else by_parts crypto cfg now token solution method path (split token) seen
