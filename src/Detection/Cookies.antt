-- ===== src/Detection/Cookies.antt =====
-- detection/cookie_lifecycle.py: the signed lifecycle cookie, and the check for cookies that never
-- come back. A text is its code points; HMAC-SHA256 under the session key is a parameter. Times are
-- in milliseconds of the day's clock.
use anti_bot_gw.Common.{
  ℕ, suc, ◌+◌, ◌-◌, ◌/◌, ◌≤◌, ◌<◌, Bool, true, false, ltb, leb, ◌=ℕ=◌, if◌then◌else◌, ◌≡◌, refl,
  arith, ◌&&◌, ◌||◌, not, Option, none, some, List, [], ◌∷◌, ◌++◌, length, take, any, ◌==◌, nat_eq,
  list_eq, list_beq_iff, ◌↔◌, ◌⊎◌, inl, inr, Bool-cases, ap, sym, leb-false→lt,
}
use anti_bot_gw.State.IpState.{IpState}
use anti_bot_gw.Challenge.Decimal.{Text, str}
use anti_bot_gw.Challenge.Pow.{is_nil, compare_digest}

-- `f"lc|{ip_tier}|{window}"`
abbrev pub lc_payload : Text → Text → Text
lc_payload ip_tier window = b'l' ∷ b'c' ∷ b'|' ∷ (ip_tier ++ b'|' ∷ window)

abbrev pub hour : ℕ → ℕ
hour now = now / 3_600_000

-- `str(window - 1)`
abbrev pub hour_before : ℕ → Text
hour_before window = if window =ℕ= 0 then b'-' ∷ b'1' ∷ [] else str (window - 1)

compare-ascii :
    (a b : Text)
    → any (λ c. leb 128 c) a ≡ false
    → any (λ c. leb 128 c) b ≡ false
    → compare_digest a b ≡ some (a == b)
unfolding compare_digest
compare-ascii a b p q = ground (arith, p, q)

beq_self : (a b : Text) → a ≡ b → (a == b) ≡ true
beq_self a b e = ground (arith, e, list_beq_iff a b)

length-is_nil : (s : Text) → length s ≡ 16 → is_nil s ≡ false
length-is_nil [] h = absurd (omega (arith, h))
length-is_nil (c ∷ s) h = refl

hour_before-suc : (w x : ℕ) → w ≡ suc x → hour_before w ≡ str x
hour_before-suc w x e = ground (arith, e)

hour-cases :
    (made now : ℕ)
    → made ≤ now
    → now ≤ made + 3_600_000
    → (hour now ≡ hour made) ⊎ (hour now ≡ suc (hour made))
hour-cases made now h g = elim (Bool-cases (hour now =ℕ= hour made)) [
  | inl e ↦ inl (ground (arith, e))
  | inr e ↦ inr (ground (arith, e, h, g))
]

module _ (hmac : Text → Text) where
  abbrev pub lc_digest : Text → Text → Text
  lc_digest ip_tier window = take 16 (hmac (lc_payload ip_tier window))

  unfoldable pub make_lc_token : ℕ → Text → Text
  make_lc_token now ip_tier = lc_digest ip_tier (str (hour now))

  -- `_verify_lc_token`; `compare_digest` raises on a value that is not ASCII, which is `none`
  unfoldable pub verify_lc_token : ℕ → Text → Text → Option Bool
  verify_lc_token now value ip_tier =
      if is_nil value || not (length value =ℕ= 16)
      then some false
      else elim (compare_digest value (lc_digest ip_tier (str (hour now)))) [
        | none ↦ none
        | some true ↦ some true
        | some false ↦ compare_digest value (lc_digest ip_tier (hour_before (hour now)))
      ]

  -- A token is accepted for an hour after it was made, whatever the hour boundaries. (A digest is
  -- ASCII and has at least 16 characters.)
  pub verify-make_lc :
      (made now : ℕ) (ip_tier : Text)
      → ((m : Text) → length (take 16 (hmac m)) ≡ 16)
      → ((m : Text) → any (λ c. leb 128 c) (take 16 (hmac m)) ≡ false)
      → made ≤ now
      → now ≤ made + 3_600_000
      → verify_lc_token now (make_lc_token made ip_tier) ip_tier ≡ some true
  unfolding verify_lc_token make_lc_token
  verify-make_lc made now ip_tier len ascii h g =
      let at : Text → Text = λ (w : Text). lc_payload ip_tier w in
      let v = lc_digest ip_tier (str (hour made)) in
      let c = lc_digest ip_tier (str (hour now)) in
      let p = lc_digest ip_tier (hour_before (hour now)) in
      let l = len (at (str (hour made))) in
      let av = ascii (at (str (hour made))) in
      elim (hour-cases made now h g) [
        | inl e ↦
            let same : v ≡ c = ap (λ (w : ℕ). lc_digest ip_tier (str w)) (sym e) in
            ground (
              arith,
              l,
              length-is_nil v l,
              compare-ascii v c av (ascii (at (str (hour now)))),
              beq_self v c same,
            )
        | inr e ↦
            let same : v ≡ p =
              ap (λ (w : Text). lc_digest ip_tier w)
                (sym (hour_before-suc (hour now) (hour made) e)) in
            ground (
              arith,
              l,
              length-is_nil v l,
              compare-ascii v c av (ascii (at (str (hour now)))),
              compare-ascii v p av (ascii (at (hour_before (hour now)))),
              beq_self v p same,
            )
      ]

-- the settings, with the names of config.py
pub record Config : Type 0 where
  pub ghost_enabled : Bool
  pub lifecycle_enabled : Bool
  pub min_requests : ℕ
  pub miss_threshold : ℕ

-- What the check reads of a request: whether one of the three cookies is there, whether the
-- lifecycle cookie is valid, and whether the Accept header names HTML.
pub record Request : Type 0 where
  pub has_any : Bool
  pub lc_valid : Bool
  pub accepts_html : Bool

pub data Hit : Type 0 where
  cookie_ghost lifecycle_miss : Hit

-- a miss, and the hit that it leads to at the threshold
unfoldable pub miss : ℕ → Hit → IpState → IpState × Option Hit
miss threshold hit s = (
  record s { cookie_ghost_misses = suc s.cookie_ghost_misses },
  if leb threshold (suc s.cookie_ghost_misses) then some hit else none,
)

abbrev pub has_enough : Config → IpState → Bool
has_enough cfg s = leb (cfg.min_requests + s.cookie_ghost_threshold_jitter) s.request_count

unfoldable pub cookie_ghost_check : Config → Request → IpState → IpState × Option Hit
unfolding miss
cookie_ghost_check cfg req s =
    let jitter = s.cookie_ghost_threshold_jitter in
    if not cfg.ghost_enabled && not cfg.lifecycle_enabled
    then (s, none)
    else if cfg.ghost_enabled && ltb 0 s.gateway_cookies_set && has_enough cfg s
    then (if req.has_any then (s, none) else miss (cfg.miss_threshold + jitter) cookie_ghost s)
    else if cfg.lifecycle_enabled && ltb 0 s.html_loads && has_enough cfg s
    then (if not req.lc_valid && not req.accepts_html
        then miss (cfg.miss_threshold + 2 + jitter) lifecycle_miss s
        else (s, none))
    else (s, none)

-- the checks of a sequence of requests, and whether one of them hits
unfoldable pub checks : Config → List Request → IpState → IpState × Bool
checks cfg [] s = (s, false)
checks cfg (req ∷ reqs) s =
    let (s', hit) = cookie_ghost_check cfg req s in
    let (s'', later) = checks cfg reqs s' in
    (s'', (elim hit [ none ↦ false | some h ↦ true ]) || later)

-- how many of the requests carry no cookie
unfoldable pub cookieless : List Request → ℕ
cookieless [] = 0
cookieless (req ∷ reqs) = if req.has_any then cookieless reqs else suc (cookieless reqs)

check_lem :
    (cfg : Config) (req : Request) (s : IpState)
    → cfg.ghost_enabled ≡ true
    → 0 < s.gateway_cookies_set
    → has_enough cfg s ≡ true
    → cookie_ghost_check cfg req s ≡ (
        if req.has_any
        then (s, none)
        else miss (cfg.miss_threshold + s.cookie_ghost_threshold_jitter) cookie_ghost s)
unfolding cookie_ghost_check
check_lem cfg req s on set enough = ground (arith, on, set, enough)

missed : IpState → IpState
missed s = record s { cookie_ghost_misses = suc s.cookie_ghost_misses }

checks-cons :
    (cfg : Config) (req : Request) (reqs : List Request) (s : IpState)
    → cfg.ghost_enabled ≡ true
    → 0 < s.gateway_cookies_set
    → has_enough cfg s ≡ true
    → ((req.has_any ≡ true) → checks cfg (req ∷ reqs) s ≡ checks cfg reqs s)
      × ((req.has_any ≡ false)
          → ((checks cfg (req ∷ reqs) s).0 ≡ (checks cfg reqs (missed s)).0)
            × ((checks cfg (req ∷ reqs) s).1
                ≡ leb
                    (cfg.miss_threshold + s.cookie_ghost_threshold_jitter)
                    (suc s.cookie_ghost_misses)
                  || (checks cfg reqs (missed s)).1))
unfolding checks miss missed
checks-cons cfg req reqs s on set enough =
    let e = check_lem cfg req s on set enough in
    (λ h. ground (arith, e, h), λ h. (ground (arith, e, h), ground (arith, e, h)))

ghost-misses :
    (cfg : Config) (reqs : List Request) (s : IpState)
    → cfg.ghost_enabled ≡ true
    → 0 < s.gateway_cookies_set
    → has_enough cfg s ≡ true
    → (checks cfg reqs s).0.cookie_ghost_misses ≡ s.cookie_ghost_misses + cookieless reqs
unfolding checks cookieless missed
ghost-misses cfg [] s on set enough = omega arith
ghost-misses cfg (req ∷ reqs) s on set enough =
    let (back, gone) = checks-cons cfg req reqs s on set enough in
    elim (Bool-cases req.has_any) [
      | inl h ↦ ground (arith, h, back h, ghost-misses cfg reqs s on set enough)
      | inr h ↦ ground (arith, h, (gone h).0, ghost-misses cfg reqs (missed s) on set enough)
    ]

ghost-hits :
    (cfg : Config) (reqs : List Request) (s : IpState)
    → cfg.ghost_enabled ≡ true
    → 0 < s.gateway_cookies_set
    → has_enough cfg s ≡ true
    → s.cookie_ghost_misses < cfg.miss_threshold + s.cookie_ghost_threshold_jitter
    → (checks cfg reqs s).1
      ≡ leb
          (cfg.miss_threshold + s.cookie_ghost_threshold_jitter)
          (s.cookie_ghost_misses + cookieless reqs)
unfolding checks cookieless missed
ghost-hits cfg [] s on set enough below = ground (arith, below)
ghost-hits cfg (req ∷ reqs) s on set enough below =
    let (back, gone) = checks-cons cfg req reqs s on set enough in
    let top = cfg.miss_threshold + s.cookie_ghost_threshold_jitter in
    elim (Bool-cases req.has_any) [
      | inl h ↦ ground (arith, h, back h, ghost-hits cfg reqs s on set enough below)
      | inr h ↦ elim (Bool-cases (leb top (suc s.cookie_ghost_misses))) [
        | inl full ↦ ground (arith, h, (gone h).1, full)
        | inr more ↦ ground (
          arith,
          h,
          (gone h).1,
          more,
          ghost-hits cfg reqs (missed s) on set enough (leb-false→lt _ _ more),
        )
      ]
    ]

-- The cookie-ghost signal counts the requests without cookies, consecutive or not: for an identity
-- that was given cookies and has enough requests, below its threshold, a sequence of requests hits
-- exactly if the requests without cookies among them bring the misses to the threshold.
ghost-counts :
    (cfg : Config) (reqs : List Request) (s : IpState)
    → cfg.ghost_enabled ≡ true
    → 0 < s.gateway_cookies_set
    → has_enough cfg s ≡ true
    → s.cookie_ghost_misses < cfg.miss_threshold + s.cookie_ghost_threshold_jitter
    → ((checks cfg reqs s).0.cookie_ghost_misses ≡ s.cookie_ghost_misses + cookieless reqs)
      × (((checks cfg reqs s).1 ≡ true) ↔ (
          cfg.miss_threshold + s.cookie_ghost_threshold_jitter
          ≤ s.cookie_ghost_misses + cookieless reqs))
ghost-counts cfg reqs s on set enough below = (
  ghost-misses cfg reqs s on set enough,
  (
    λ h. ground (arith, h, ghost-hits cfg reqs s on set enough below),
    λ h. ground (arith, h, ghost-hits cfg reqs s on set enough below),
  ),
)
