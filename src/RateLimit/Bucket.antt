-- ===== src/RateLimit/Bucket.antt =====
-- The token arithmetic that the buckets of rate_limit.py and endpoint_policy.py share.
use anti_bot_gw.Common.{
  ℕ, ◌+◌, ◌*◌, ◌-◌, ◌≤◌, ◌<◌, ◌=ℕ=◌, min, Bool, true, false, leb, if◌then◌else◌, ◌≡◌, ◌↔◌, arith,
}
use anti_bot_gw.State.IpState.{one_token}

-- A wait is a fraction: `missing` millionths of a token at `rate` millionths a millisecond.
pub record Wait : Type 0 where
  pub missing : ℕ
  pub rate : ℕ

-- `zero_division` is a `ZeroDivisionError`, which leaves the call after the refill.
pub data Verdict : Type 0 where
  allow : Verdict
  zero_division : Verdict
  deny : Wait → Verdict

abbrev pub is_allow : Verdict → Bool
is_allow allow = true
is_allow (deny w) = false
is_allow zero_division = false

pub record Bucket : Type 0 where
  pub tokens : ℕ
  pub last : ℕ

-- `b["tokens"] = min(burst, b["tokens"] + elapsed * refill); b["last"] = n`
unfoldable pub refill : ℕ → ℕ → ℕ → Bucket → Bucket
refill burst rate n b = record {
  tokens = min (burst * one_token) (b.tokens + (n - b.last) * rate);
  last = n;
}

-- `retry = (1.0 - tokens) / rate`, without a whole token
abbrev pub retry : ℕ → ℕ → Verdict
retry rate missing =
    if rate =ℕ= 0 then zero_division else deny (record { missing = missing; rate = rate })

-- the test on a refilled bucket, and what it costs
unfoldable pub spend : ℕ → Bucket → Bucket × Verdict
spend rate b =
    if leb one_token b.tokens
    then (record b { tokens = b.tokens - one_token }, allow)
    else (b, retry rate (one_token - b.tokens))

unfoldable pub take : ℕ → ℕ → ℕ → Bucket → Bucket × Verdict
unfolding refill spend
take burst rate n b = spend rate (refill burst rate n b)

abbrev pub cost : Verdict → ℕ
cost allow = one_token
cost (deny w) = 0
cost zero_division = 0

-- A take spends no more than what was there and what the elapsed time brought.
pub take-cost :
    (burst rate n : ℕ) (b : Bucket)
    → cost (take burst rate n b).1 + (take burst rate n b).0.tokens ≤ b.tokens + (n - b.last) * rate
unfolding take
take-cost burst rate n b = ground arith

pub take-capped :
    (burst rate n : ℕ) (b : Bucket)
    → cost (take burst rate n b).1 + (take burst rate n b).0.tokens ≤ burst * one_token
unfolding take
take-capped burst rate n b = ground arith

pub take-last : (burst rate n : ℕ) (b : Bucket) → (take burst rate n b).0.last ≡ n
unfolding take
take-last burst rate n b = ground arith

-- A take fails exactly where the rate is zero and the refilled bucket lacks a whole token.
pub take-zero_division :
    (burst rate n : ℕ) (b : Bucket)
    → ((take burst rate n b).1 ≡ zero_division)
      ↔ ((rate ≡ 0) × ((refill burst rate n b).tokens < one_token))
unfolding take
take-zero_division burst rate n b = (λ h. ground (arith, h), λ h. ground (arith, h.0, h.1))

-- A denied caller is told the wait after which a whole token is there: at any time after it the
-- next take is allowed.
pub take_after_wait :
    (burst rate n m : ℕ) (b : Bucket) (w : Wait)
    → 0 < burst
    → n ≤ m
    → (take burst rate n b).1 ≡ deny w
    → w.missing ≤ (m - n) * w.rate
    → (take burst rate m (take burst rate n b).0).1 ≡ allow
unfolding take
take_after_wait burst rate n m b w pos later h waited = ground arith
