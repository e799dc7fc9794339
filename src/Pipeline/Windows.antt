-- ===== src/Pipeline/Windows.antt =====
-- core/proxy_handler.py, `_probe_rate_limit_ok`, and admin/users.py, `_login_rate_limit`: counters
-- over fixed windows, one for each address. Times are in milliseconds.
use anti_bot_gw.Common.{
  ℕ, suc, ◌+◌, ◌*◌, ◌-◌, ◌≤◌, Bool, true, false, ltb, leb, if◌then◌else◌, arith, String, string_eq,
  Option, none, some, List, [], ◌∷◌, Option-cases, inl, inr, ◌==◌,
}
use anti_bot_gw.Common.Dict.{Dict, get, put, evict, Unique}
use anti_bot_gw.Common.Dict.Laws.{get-put, get-evict, put-Unique, evict-Unique}

-- `PROBE_RL_LIMIT` and `PROBE_RL_WINDOW`
pub record Config : Type 0 where
  pub limit : ℕ
  pub window : ℕ

-- the answer for the window that an address has, if any: its start and its count
unfoldable probe_at :
    Config → ℕ → String → Option (ℕ × ℕ) → Dict String (ℕ × ℕ) → Dict String (ℕ × ℕ) × Bool
probe_at cfg n ip none d = (put ip (n, 1) d, true)
probe_at cfg n ip (some w) d =
    if ltb (w.0 + cfg.window) n
    then (put ip (n, 1) d, true)
    else if leb cfg.limit w.1
    then (d, false)
    else (put ip (w.0, suc w.1) d, true)

unfoldable pub probe_rate_limit_ok :
    Config → ℕ → String → Dict String (ℕ × ℕ) → Dict String (ℕ × ℕ) × Bool
unfolding probe_at
probe_rate_limit_ok cfg n ip d = probe_at cfg n ip (get ip d) d

-- the five attempts and the minute of the login
abbrev pub login_limits : Config
login_limits = record { limit = 5; window = 60_000 }

abbrev pub is_over : Config → ℕ → String → ℕ × ℕ → Bool
is_over cfg n ip w = ltb (w.0 + cfg.window) n

-- the test and the count after the eviction of the windows that are over
unfoldable login_at : ℕ → String → Option (ℕ × ℕ) → Dict String (ℕ × ℕ) → Dict String (ℕ × ℕ) × Bool
login_at n ip none d = (put ip (n, 1) d, true)
login_at n ip (some w) d =
    if is_over login_limits n ip w
    then (put ip (n, 1) d, true)
    else (put ip (w.0, suc w.1) d, leb (suc w.1) login_limits.limit)

unfoldable pub login_rate_limit : ℕ → String → Dict String (ℕ × ℕ) → Dict String (ℕ × ℕ) × Bool
unfolding login_at
login_rate_limit n ip d =
    let kept = evict (is_over login_limits n) d in login_at n ip (get ip kept) kept

-- All calls come between two times; the clock may be set back in between.
abbrev pub Between : ℕ → ℕ → List (ℕ × String) → Type 0
Between start stop [] = Unit
Between start stop ((n, ip) ∷ calls) = (start ≤ n) × (n ≤ stop) × Between start stop calls

-- what an address can still be granted between `start` and the end of a window from then
abbrev credit : Config → ℕ → Option (ℕ × ℕ) → ℕ
credit cfg start none = cfg.limit
credit cfg start (some w) = (cfg.limit - w.1) + (if ltb w.0 start then cfg.limit else 0)

abbrev gain : Bool → Bool → ℕ
gain same ok = if same then (if ok then 1 else 0) else 0

module _ (cfg : Config) (call : ℕ → String → Dict String (ℕ × ℕ) → Dict String (ℕ × ℕ) × Bool) where
  -- how many calls for `ip` are let through
  unfoldable pub passed : String → List (ℕ × String) → Dict String (ℕ × ℕ) → ℕ
  passed ip [] d = 0
  passed ip ((n, j) ∷ calls) d = gain (j == ip) (call n j d).1 + passed ip calls (call n j d).0

  -- A call costs what it is granted, and keeps the keys unique.
  abbrev Costs : ℕ → Type 0
  Costs start =
      (n : ℕ) (ip j : String) (d : Dict String (ℕ × ℕ))
      → start ≤ n
      → n ≤ start + cfg.window
      → Unique d
      → (gain (j == ip) (call n j d).1 + credit cfg start (get ip (call n j d).0)
          ≤ credit cfg start (get ip d))
        × Unique (call n j d).0

  passed-credit :
      (start : ℕ) (ip : String) (calls : List (ℕ × String)) (d : Dict String (ℕ × ℕ))
      → Costs start
      → Between start (start + cfg.window) calls
      → Unique d
      → passed ip calls d ≤ credit cfg start (get ip d)
  unfolding passed
  passed-credit start ip [] d costs b u = omega arith
  passed-credit start ip ((n, j) ∷ calls) d costs (low, high, b) u =
      let (cost, u') = costs n ip j d low high u in
      omega (arith, cost, passed-credit start ip calls (call n j d).0 costs b u')

credit-twice : (cfg : Config) (start : ℕ) (o : Option (ℕ × ℕ)) → credit cfg start o ≤ 2 * cfg.limit
credit-twice cfg start none = omega arith
credit-twice cfg start (some w) = ground arith

Unique-if :
    (b : Bool) (x y : Dict String (ℕ × ℕ) × Bool)
    → Unique x.0
    → Unique y.0
    → Unique (if b then x else y).0
Unique-if true x y ux uy = ux
Unique-if false x y ux uy = uy

probe-Unique :
    (cfg : Config) (n : ℕ) (j : String) (o : Option (ℕ × ℕ)) (d : Dict String (ℕ × ℕ))
    → Unique d
    → Unique (probe_at cfg n j o d).0
unfolding probe_at
probe-Unique cfg n j none d u = put-Unique j (n, 1) d u
probe-Unique cfg n j (some w) d u =
    Unique-if (ltb (w.0 + cfg.window) n) _ _ (put-Unique j (n, 1) d u)
      (Unique-if (leb cfg.limit w.1) _ _ u (put-Unique j (w.0, suc w.1) d u))

probe-credit :
    (cfg : Config) (start n : ℕ) (ip j : String) (d : Dict String (ℕ × ℕ))
    → 1 ≤ cfg.limit
    → start ≤ n
    → n ≤ start + cfg.window
    → gain (j == ip) (probe_rate_limit_ok cfg n j d).1
        + credit cfg start (get ip (probe_rate_limit_ok cfg n j d).0)
      ≤ credit cfg start (get ip d)
unfolding probe_rate_limit_ok
probe-credit cfg start n ip j d pos low high = elim (Option-cases (get j d)) [
  | inl e ↦ ground (arith, e, get-put j ip (n, 1) d, string_eq.beq_iff j ip)
  | inr (w, e) ↦
      ground
        (arith, e, get-put j ip (n, 1) d, get-put j ip (w.0, suc w.1) d, string_eq.beq_iff j ip)
]

login-Unique :
    (n : ℕ) (j : String) (o : Option (ℕ × ℕ)) (d : Dict String (ℕ × ℕ))
    → Unique d
    → Unique (login_at n j o d).0
unfolding login_at
login-Unique n j none d u = put-Unique j (n, 1) d u
login-Unique n j (some w) d u =
    Unique-if (is_over login_limits n j w) _ _ (put-Unique j (n, 1) d u)
      (put-Unique j (w.0, suc w.1) d u)

login_at-credit :
    (start n : ℕ) (ip j : String) (d : Dict String (ℕ × ℕ))
    → start ≤ n
    → n ≤ start + 60_000
    → gain (j == ip) (login_at n j (get j d) d).1
        + credit login_limits start (get ip (login_at n j (get j d) d).0)
      ≤ credit login_limits start (get ip d)
unfolding login_at
login_at-credit start n ip j d low high = elim (Option-cases (get j d)) [
  | inl e ↦ ground (arith, e, get-put j ip (n, 1) d, string_eq.beq_iff j ip)
  | inr (w, e) ↦
      ground
        (arith, e, get-put j ip (n, 1) d, get-put j ip (w.0, suc w.1) d, string_eq.beq_iff j ip)
]

evict-credit :
    (start n : ℕ) (ip : String) (d : Dict String (ℕ × ℕ))
    → Unique d
    → n ≤ start + 60_000
    → credit login_limits start (get ip (evict (is_over login_limits n) d))
      ≤ credit login_limits start (get ip d)
evict-credit start n ip d u high = elim (Option-cases (get ip d)) [
  | inl e ↦ ground (arith, e, get-evict (is_over login_limits n) ip d u)
  | inr (w, e) ↦ ground (arith, e, get-evict (is_over login_limits n) ip d u)
]

login-credit :
    (start n : ℕ) (ip j : String) (d : Dict String (ℕ × ℕ))
    → start ≤ n
    → n ≤ start + 60_000
    → Unique d
    → (gain (j == ip) (login_rate_limit n j d).1
          + credit login_limits start (get ip (login_rate_limit n j d).0)
        ≤ credit login_limits start (get ip d))
      × Unique (login_rate_limit n j d).0
unfolding login_rate_limit
login-credit start n ip j d low high u =
    let kept = evict (is_over login_limits n) d in
    (
      omega (arith, login_at-credit start n ip j kept low high, evict-credit start n ip d u high),
      login-Unique n j (get j kept) kept (evict-Unique (is_over login_limits n) d u),
    )

-- In any stretch as long as the window, an address is let through at most twice as often as the
-- limit, whatever its window is at the start and whatever other addresses do.
pub probe-bounded :
    (cfg : Config) (start : ℕ) (ip : String) (calls : List (ℕ × String)) (d : Dict String (ℕ × ℕ))
    → 1 ≤ cfg.limit
    → Between start (start + cfg.window) calls
    → Unique d
    → passed cfg (probe_rate_limit_ok cfg) ip calls d ≤ 2 * cfg.limit
unfolding probe_rate_limit_ok
probe-bounded cfg start ip calls d pos b u = omega (
  arith,
  credit-twice cfg start (get ip d),
  passed-credit cfg (probe_rate_limit_ok cfg) start ip calls d
      (λ n i j e low high ue.
        (probe-credit cfg start n i j e pos low high, probe-Unique cfg n j (get j e) e ue))
      b u,
)

-- In any minute an address may attempt at most ten logins, whatever its window is at the start and
-- whatever other addresses do.
pub login-bounded :
    (start : ℕ) (ip : String) (calls : List (ℕ × String)) (d : Dict String (ℕ × ℕ))
    → Between start (start + 60_000) calls
    → Unique d
    → passed login_limits login_rate_limit ip calls d ≤ 10
login-bounded start ip calls d b u = omega (
  arith,
  credit-twice login_limits start (get ip d),
  passed-credit login_limits login_rate_limit start ip calls d
      (λ n i j e low high ue. login-credit start n i j e low high ue) b u,
)
