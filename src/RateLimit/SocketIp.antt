-- ===== src/RateLimit/SocketIp.antt =====
-- rate_limit.py, `take_socket_ip_token`: one bucket for each socket address. Each call runs under
-- the state lock, so a history of calls is a sequence of steps.
pub mod Credit
pub mod RateBound
use anti_bot_gw.Common.{
  ℕ, ◌+◌, ◌*◌, ◌-◌, ◌≤◌, ◌<◌, Bool, true, false, ltb, if◌then◌else◌, ◌≡◌, ◌≢◌, refl, arith, String,
  string_eq, Option, none, some, List, [], ◌∷◌, length, suc, zero, is_some, Option-cases, inl, inr,
  ◌==◌, beq_refl, ◌∙◌, sym,
}
use anti_bot_gw.Common.Dict.{Dict, get, member, put, Unique}
use anti_bot_gw.Common.Dict.Laws.{get-put, length-put}
use anti_bot_gw.State.IpState.{one_token}
use anti_bot_gw.RateLimit.Bucket.{
  Bucket, Verdict, allow, deny, Wait, take, is_allow, take_after_wait,
}

-- `IP_BURST`, `IP_REFILL`, `MAX_IDENTITIES`
pub record Config : Type 0 where
  pub ip_burst : ℕ
  pub ip_refill : ℕ
  pub max_identities : ℕ

-- one second
abbrev pub one_second : Wait
one_second = record { missing = 1000; rate = 1 }

unfoldable pub consume :
    Config → ℕ → String → Bucket → Dict String Bucket → Dict String Bucket × Verdict
consume cfg n socket_ip b ip_buckets =
    let (b', verdict) = take cfg.ip_burst cfg.ip_refill n b in
    (put socket_ip b' ip_buckets, verdict)

unfoldable pub take_socket_ip_token :
    Config → ℕ → String → Dict String Bucket → Dict String Bucket × Verdict
unfolding consume
take_socket_ip_token cfg n socket_ip ip_buckets = elim (get socket_ip ip_buckets) [
  | none ↦
      if ltb (cfg.max_identities * 2) (length ip_buckets)
      then (ip_buckets, deny one_second)
      else consume cfg n socket_ip (record { tokens = cfg.ip_burst * one_token; last = n })
          ip_buckets
  | some b ↦ consume cfg n socket_ip b ip_buckets
]

-- requests, each with its time and its address, in the order of their calls
unfoldable pub serve : Config → List (ℕ × String) → Dict String Bucket → Dict String Bucket
serve cfg [] d = d
serve cfg ((n, ip) ∷ requests) d = serve cfg requests (take_socket_ip_token cfg n ip d).0

-- A call touches no other address's bucket.
pub get-take_ne :
    (cfg : Config) (n : ℕ) (ip j : String) (d : Dict String Bucket)
    → ip ≢ j
    → get j (take_socket_ip_token cfg n ip d).0 ≡ get j d
unfolding take_socket_ip_token
get-take_ne cfg n ip j d ne = elim (Option-cases (get ip d)) [
  | inl h ↦ ground (
    arith,
    h,
    string_eq.beq_iff ip j,
    get-put ip j
        (take cfg.ip_burst cfg.ip_refill n
          (record { tokens = cfg.ip_burst * one_token; last = n })).0
        d,
  )
  | inr (b, h) ↦
      ground
        (arith, h, string_eq.beq_iff ip j, get-put ip j (take cfg.ip_burst cfg.ip_refill n b).0 d)
]

-- The table never holds more than twice `MAX_IDENTITIES` addresses and one.
take-bounded :
    (cfg : Config) (n : ℕ) (ip : String) (d : Dict String Bucket)
    → length d ≤ suc (cfg.max_identities * 2)
    → length (take_socket_ip_token cfg n ip d).0 ≤ suc (cfg.max_identities * 2)
unfolding take_socket_ip_token
take-bounded cfg n ip d h = elim (Option-cases (get ip d)) [
  | inl e ↦ ground (
    arith,
    e,
    length-put ip
        (take cfg.ip_burst cfg.ip_refill n
          (record { tokens = cfg.ip_burst * one_token; last = n })).0
        d,
  )
  | inr (b, e) ↦ ground (arith, e, length-put ip (take cfg.ip_burst cfg.ip_refill n b).0 d)
]

-- Whatever requests arrive, from however many addresses, a table of at most twice
-- `MAX_IDENTITIES` addresses and one does not grow past that size.
pub serve-bounded :
    (cfg : Config) (requests : List (ℕ × String)) (d : Dict String Bucket)
    → length d ≤ suc (cfg.max_identities * 2)
    → length (serve cfg requests d) ≤ suc (cfg.max_identities * 2)
unfolding serve
serve-bounded cfg [] d h = h
serve-bounded cfg ((n, ip) ∷ requests) d h =
    serve-bounded cfg requests (take_socket_ip_token cfg n ip d).0 (take-bounded cfg n ip d h)

-- None of the requests is from the address.
abbrev pub OthersOnly : String → List (ℕ × String) → Type 0
OthersOnly ip [] = Unit
OthersOnly ip ((n, j) ∷ requests) = (j ≢ ip) × OthersOnly ip requests

get-serve_ne :
    (cfg : Config) (ip : String) (requests : List (ℕ × String)) (d : Dict String Bucket)
    → OthersOnly ip requests
    → get ip (serve cfg requests d) ≡ get ip d
unfolding serve
get-serve_ne cfg ip [] d o = refl
get-serve_ne cfg ip ((n, j) ∷ requests) d o =
    get-serve_ne cfg ip requests (take_socket_ip_token cfg n j d).0 o.1
    ∙ get-take_ne cfg n j ip d o.0

take-known :
    (cfg : Config) (n : ℕ) (ip : String) (b : Bucket) (d : Dict String Bucket)
    → get ip d ≡ some b
    → (take_socket_ip_token cfg n ip d).1 ≡ (take cfg.ip_burst cfg.ip_refill n b).1
unfolding take_socket_ip_token
take-known cfg n ip b d h = rw (h, take_socket_ip_token)

get-take_known :
    (cfg : Config) (n : ℕ) (ip : String) (b : Bucket) (d : Dict String Bucket)
    → get ip d ≡ some b
    → get ip (take_socket_ip_token cfg n ip d).0 ≡ some (take cfg.ip_burst cfg.ip_refill n b).0
unfolding take_socket_ip_token
get-take_known cfg n ip b d h =
    ground (arith, h, get-put ip ip (take cfg.ip_burst cfg.ip_refill n b).0 d, beq_refl ip)

-- An address that its bucket denies is told a wait. Once that wait is over, whatever other
-- addresses did in the meantime, its next call is allowed.
pub take_after_denial :
    (cfg : Config) (n m : ℕ) (ip : String) (b : Bucket) (w : Wait) (d : Dict String Bucket)
    (others : List (ℕ × String))
    → 0 < cfg.ip_burst
    → n ≤ m
    → get ip d ≡ some b
    → (take_socket_ip_token cfg n ip d).1 ≡ deny w
    → w.missing ≤ (m - n) * w.rate
    → OthersOnly ip others
    → (take_socket_ip_token cfg m ip (serve cfg others (take_socket_ip_token cfg n ip d).0)).1
      ≡ allow
take_after_denial cfg n m ip b w d others pos later h denied waited o =
    let d' = (take_socket_ip_token cfg n ip d).0 in
    take-known cfg m ip (take cfg.ip_burst cfg.ip_refill n b).0 (serve cfg others d')
      (get-serve_ne cfg ip others d' o ∙ get-take_known cfg n ip b d h)
    ∙ take_after_wait cfg.ip_burst cfg.ip_refill n m b w pos later
        (sym (take-known cfg n ip b d h) ∙ denied) waited
