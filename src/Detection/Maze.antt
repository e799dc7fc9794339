-- ===== src/Detection/Maze.antt =====
-- detection/redirect_maze.py: the signed steps of the maze and their timing. A text is its code
-- points; HMAC-SHA256 under the session key and SHA-256 are parameters, as hexadecimal digests. Times
-- are in milliseconds. The quoting of the destination in a link is left to the web framework.
use anti_bot_gw.Common.{
  ℕ, suc, ◌+◌, ◌-◌, ◌/◌, ◌≤◌, ◌<◌, min, max, Bool, false, ltb, leb, ◌=ℕ=◌, if◌then◌else◌, ◌≡◌,
  arith, ◌&&◌, ◌||◌, not, Option, none, some, List, [], ◌∷◌, ◌++◌, length, take, drop, nat_eq,
  list_eq, string_eq, Option-cases, inl, inr, ap, length-drop, list_beq_iff, ltb-false→le,
}
use anti_bot_gw.Common.Dict.{Dict, get, put, remove}
use anti_bot_gw.Common.Dict.Laws.{length-put}
use anti_bot_gw.Challenge.Decimal.{Text, Integer, str, int}
use anti_bot_gw.Challenge.Pow.{Crypto, compare_digest}
use anti_bot_gw.Endpoint.Rules.{starts_with}
use anti_bot_gw.Detection.Heuristic.{length-if}

-- REDIRECT_MAZE_ENABLED, REDIRECT_MAZE_THRESHOLD, REDIRECT_MAZE_DEPTH and REDIRECT_MAZE_MIN_MS
pub record Config : Type 0 where
  pub enabled : Bool
  pub threshold : ℕ
  pub depth : ℕ
  pub min_ms : ℕ

abbrev pub token_ttl : ℕ
token_ttl = 30_000

abbrev pub timing_max : ℕ
timing_max = 2048

abbrev pub steps_max : ℕ
steps_max = 32

-- `str` of an integer, which writes zero without a sign
unfoldable pub show : Integer → Text
show i = if i.negative && not (i.magnitude =ℕ= 0) then b'-' ∷ str i.magnitude else str i.magnitude

-- `s.split(".")`
unfoldable pub split_dots : Text → List Text
split_dots [] = [] ∷ []
split_dots (c ∷ s) = elim (split_dots s) [
  | [] ↦ (c ∷ []) ∷ []
  | part ∷ parts ↦ if c =ℕ= b'.' then [] ∷ part ∷ parts else (c ∷ part) ∷ parts
]

unfoldable pub dest_hash : Crypto → Text → Text
dest_hash crypto dest = take 16 (crypto.sha256 dest)

-- `f"maze|{identity}|{step}|{ts_ms}|{_dest_hash(dest)}"`
unfoldable pub maze_message : Crypto → Text → Text → Text → Text → Text
unfolding dest_hash
maze_message crypto identity step ts dest =
    b'm'
    ∷ b'a'
    ∷ b'z'
    ∷ b'e'
    ∷ b'|'
    ∷ (identity ++ b'|' ∷ (step ++ b'|' ∷ (ts ++ b'|' ∷ dest_hash crypto dest)))

-- the signature of a token, which `_sign_maze_token` puts after its last dot
unfoldable pub maze_signature : Crypto → Text → Integer → Integer → Text → Text
unfolding maze_message show
maze_signature crypto identity step ts dest =
    take 16 (crypto.hmac (maze_message crypto identity (show step) (show ts) dest))

unfoldable pub sign_maze_token : Crypto → Text → Integer → Integer → Text → Text
unfolding maze_signature
sign_maze_token crypto identity step ts dest =
    show step ++ b'.' ∷ (show ts ++ b'.' ∷ maze_signature crypto identity step ts dest)

-- the token is too old, or more than five seconds ahead
unfoldable pub out_of_time : ℕ → Integer → Bool
out_of_time now ts =
    if ts.negative
    then ltb token_ttl (now + ts.magnitude)
    else ltb (ts.magnitude + token_ttl) now || ltb (now + 5000) ts.magnitude

-- What a token proves: the step and its time.
pub record Step : Type 0 where
  pub step : Integer
  pub ts : Integer

-- the comparison of the signature, which raises on one that is not ASCII: the outer `none`
unfoldable pub check_step : Crypto → Text → Text → Text → Step → Option (Option Step)
unfolding maze_signature
check_step crypto identity dest sig s =
    elim (compare_digest sig (maze_signature crypto identity s.step s.ts dest)) [
      | none ↦ none
      | some b ↦ some (if b then some s else none)
    ]

unfoldable pub by_dots : Crypto → ℕ → Text → Text → List Text → Option (Option Step)
unfolding check_step out_of_time
by_dots crypto now identity dest (a ∷ b ∷ sig ∷ []) = elim (int a) [
  | none ↦ some none
  | some step ↦ elim (int b) [
    | none ↦ some none
    | some ts ↦
        if out_of_time now ts
        then some none
        else check_step crypto identity dest sig (record { step = step; ts = ts })
  ]
]
by_dots crypto now identity dest _ = some none

-- `_verify_maze_token`
unfoldable pub verify_maze_token : Crypto → ℕ → Text → Text → Text → Option (Option Step)
unfolding by_dots split_dots
verify_maze_token crypto now token identity dest =
    by_dots crypto now identity dest (split_dots token)

unfoldable pub should_maze : Config → ℕ → Bool → Bool
should_maze cfg risk_score has_token = cfg.enabled && leb cfg.threshold risk_score && not has_token

-- the steps of each identity with their times
abbrev pub Timing : Type 0
Timing = Dict Text (List ℕ)

abbrev pub steps_of : Text → Timing → List ℕ
steps_of identity timing = elim (get identity timing) [ none ↦ [] | some ts ↦ ts ]

-- the recording of a step at the time `ts`, and the cap on identities
unfoldable pub record_step : Text → ℕ → Timing → Timing
record_step identity ts timing =
    let old = steps_of identity timing in
    let timing' =
      put identity (if ltb (length old) steps_max then old ++ ts ∷ [] else old) timing in
    if ltb timing_max (length timing') then drop (timing_max / 4) timing' else timing'

abbrev pub greatest : ℕ → List ℕ → ℕ
greatest m [] = m
greatest m (t ∷ ts) = greatest (max m t) ts

abbrev pub least : ℕ → List ℕ → ℕ
least m [] = m
least m (t ∷ ts) = least (min m t) ts

-- `_evaluate_maze_timing`: whether the steps were too quick; the depth is positive
unfoldable pub is_too_quick : Config → List ℕ → Bool
is_too_quick cfg [] = false
is_too_quick cfg (t ∷ ts) =
    leb cfg.depth (length (t ∷ ts)) && ltb (greatest t ts - least t ts) cfg.min_ms

-- `step + 1 >= REDIRECT_MAZE_DEPTH`, for a positive depth
unfoldable pub is_last : Config → Integer → Bool
is_last cfg step =
    if step.negative && not (step.magnitude =ℕ= 0)
    then false
    else leb cfg.depth (suc step.magnitude)

-- a destination that is not a relative path on this host becomes "/"
unfoldable pub sanitise : Text → Text
unfolding starts_with
sanitise dest =
    if not (starts_with (b'/' ∷ []) dest) || starts_with (b'/' ∷ b'/' ∷ []) dest
    then b'/' ∷ []
    else dest

-- The answers: a new start of the maze, the next step, or the destination, with whether the steps
-- were too quick, which adds risk.
pub data Answer : Type 0 where
  restart : Text → Answer
  next : Step → Text → Answer
  final : Bool → Text → Answer

unfoldable answer_step : Config → Text → Text → Step → Timing → Timing × Answer
answer_step cfg identity dest s timing =
    let timing' = record_step identity s.ts.magnitude timing in
    if is_last cfg s.step
    then (remove identity timing', final (is_too_quick cfg (steps_of identity timing')) dest)
    else (timing', next s dest)

-- `redirect_maze_endpoint`
unfoldable pub redirect_maze_endpoint :
    Crypto → Config → ℕ → Text → Text → Text → Timing → Option (Timing × Answer)
unfolding answer_step sanitise verify_maze_token
redirect_maze_endpoint crypto cfg now token identity dest timing =
    elim (verify_maze_token crypto now token identity (sanitise dest)) [
      | none ↦ none
      | some none ↦ some (timing, restart (sanitise dest))
      | some (some s) ↦ some (answer_step cfg identity (sanitise dest) s timing)
    ]

parts_sound :
    (crypto : Crypto) (now : ℕ) (identity dest a b sig : Text) (s : Step)
    → by_dots crypto now identity dest (a ∷ b ∷ sig ∷ []) ≡ some (some s)
    → (int a ≡ some s.step)
      × (int b ≡ some s.ts)
      × (out_of_time now s.ts ≡ false)
      × (sig ≡ maze_signature crypto identity s.step s.ts dest)
unfolding by_dots check_step compare_digest
parts_sound crypto now identity dest a b sig s h = elim (Option-cases (int a)) [
  | inl e ↦ absurd (ground (arith, e, h))
  | inr (step, ea) ↦ elim (Option-cases (int b)) [
    | inl e ↦ absurd (ground (arith, ea, e, h))
    | inr (ts, eb) ↦
        let m = maze_signature crypto identity step ts dest in
        ground (arith, ea, eb, h, list_beq_iff sig m)
  ]
]

-- The parts of a token that the server signed for the identity and the destination.
abbrev pub Signed : Crypto → ℕ → Text → Text → List Text → Step → Type 0
Signed crypto now identity dest parts s =
    (a b : Text) × (parts ≡ a ∷ b ∷ maze_signature crypto identity s.step s.ts dest ∷ [])
    × (int a ≡ some s.step)
    × (int b ≡ some s.ts)
    × (out_of_time now s.ts ≡ false)

by_dots_sound :
    (crypto : Crypto) (now : ℕ) (identity dest : Text) (parts : List Text) (s : Step)
    → by_dots crypto now identity dest parts ≡ some (some s)
    → Signed crypto now identity dest parts s
unfolding by_dots
by_dots_sound crypto now identity dest [] s h = absurd (ground (arith, h))
by_dots_sound crypto now identity dest (a ∷ []) s h = absurd (ground (arith, h))
by_dots_sound crypto now identity dest (a ∷ b ∷ []) s h = absurd (ground (arith, h))
by_dots_sound crypto now identity dest (a ∷ b ∷ sig ∷ []) s h =
    let (ea, eb, time, e) = parts_sound crypto now identity dest a b sig s h in
    (a, b, ap (λ (x : Text). a ∷ b ∷ x ∷ []) e, ea, eb, time)
by_dots_sound crypto now identity dest (a ∷ b ∷ c ∷ d ∷ rest) s h = absurd (ground (arith, h))

-- A token is only accepted if it is signed: it has three parts, the texts of the step and of the
-- time and the signature of the server for this identity, destination, step and time, and the time
-- is within the token's life.
pub maze_sound :
    (crypto : Crypto) (now : ℕ) (token identity dest : Text) (s : Step)
    → verify_maze_token crypto now token identity dest ≡ some (some s)
    → Signed crypto now identity dest (split_dots token) s
unfolding verify_maze_token
maze_sound crypto now token identity dest s h =
    by_dots_sound crypto now identity dest (split_dots token) s h

capped :
    (m q : ℕ) (d : Timing)
    → 0 < q
    → 0 < m
    → length d ≤ suc m
    → length (if ltb m (length d) then drop q d else d) ≤ m
capped m q d pq pm h =
    length-if (ltb m (length d)) m (drop q d) d (λ b. omega (arith, h, pq, length-drop q d))
      (λ b. ltb-false→le _ _ b)

put-grows :
    (k : Text) (ts : List ℕ) (d : Timing) (m : ℕ) → length d ≤ m → length (put k ts d) ≤ suc m
put-grows k ts d m h = ground (arith, h, length-put k ts d)

-- The table of the timings stays within its number of identities.
pub record_step-bounded :
    (identity : Text) (ts : ℕ) (timing : Timing)
    → length timing ≤ timing_max
    → length (record_step identity ts timing) ≤ timing_max
unfolding record_step
record_step-bounded identity ts timing h =
    let old = steps_of identity timing in
    let new = if ltb (length old) steps_max then old ++ ts ∷ [] else old in
    capped timing_max (timing_max / 4) (put identity new timing) (omega arith) (omega arith)
      (put-grows identity new timing timing_max h)
