-- ===== src/Endpoint/Buckets/Credit.antt =====
-- integrations/endpoint_policy.py: what the bucket of a rule and an identity can still spend.
use anti_bot_gw.Common.{
  ℕ, ◌+◌, ◌*◌, ◌-◌, ◌≤◌, min, true, ltb, if◌then◌else◌, ◌≡◌, refl, sym, ap, arith, string_eq,
  pair_eq, Option, none, some, length, Bool-cases, Option-cases, inl, inr,
}
use mathlib.Core.Path.{subst}
use native.Mathlib.Nat.{add-mul}
use anti_bot_gw.Common.Dict.{Dict, get}
use anti_bot_gw.State.IpState.{one_token}
use anti_bot_gw.RateLimit.Bucket.{Bucket, is_allow, take, take-cost, take-capped, take-last}
use anti_bot_gw.RateLimit.SocketIp.{Config}
use anti_bot_gw.RateLimit.SocketIp.Credit.{UsedBy, credit, cost-allow}
use anti_bot_gw.Endpoint.Policy.{Rule}
use anti_bot_gw.Endpoint.Buckets.{
  Key, bucket_max, bucket_idle, rate_of, burst_of, is_idle_bucket, or_full, seen_at,
}

-- the rule as the settings of an address's bucket
abbrev pub settings : Rule → Config
settings r = record { ip_burst = burst_of r; ip_refill = rate_of r; max_identities = 0 }

module _ (r : Rule) (n : ℕ) (enough : burst_of r * one_token ≤ bucket_idle * rate_of r) where
  -- A bucket that is dropped as idle was full again.
  idle-full :
      (k : Key) (b : Bucket)
      → is_idle_bucket n k b ≡ true
      → credit (settings r) n (some b) ≡ burst_of r * one_token
  idle-full k b idle =
      let long : bucket_idle ≤ n - b.last = ground (arith, idle) in
      let whole : n - b.last ≡ bucket_idle + (n - b.last - bucket_idle) = omega (arith, long) in
      omega (
        arith,
        enough,
        ap (λ (t : ℕ). t * rate_of r) whole,
        add-mul bucket_idle (n - b.last - bucket_idle) (rate_of r),
      )

  pub seen-credit :
      (k : Key) (d : Dict Key Bucket)
      → UsedBy n (get k d)
      → (credit (settings r) n (seen_at n k d) ≡ credit (settings r) n (get k d))
        × UsedBy n (seen_at n k d)
  seen-credit k d used = elim (Bool-cases (ltb bucket_max (length d))) [
    | inr few ↦ rw few (refl, used)
    | inl many ↦ elim (Option-cases (get k d)) [
      | inl absent ↦ rw (many, absent) (refl, tt)
      | inr (b, there) ↦ elim (Bool-cases (is_idle_bucket n k b)) [
        | inl idle ↦ rw (many, there, idle) (sym (idle-full k b idle), tt)
        | inr active ↦ rw (many, there, active) (refl, subst (UsedBy n) there used)
      ]
    ]
  ]

credit-now :
    (cfg : Config) (n : ℕ) (b : Bucket)
    → b.last ≡ n
    → credit cfg n (some b) ≡ min (cfg.ip_burst * one_token) b.tokens
credit-now cfg n b now =
    let none_passed : n - b.last ≡ 0 = omega (arith, now) in
    omega (arith, ap (λ (t : ℕ). t * cfg.ip_refill) none_passed)

-- A take of a stored or a full bucket comes out of the credit.
pub take-credit :
    (r : Rule) (n : ℕ) (o : Option Bucket)
    → UsedBy n o
    → (if is_allow (take (burst_of r) (rate_of r) n (or_full (burst_of r) n o)).1
          then one_token
          else 0)
        + credit
            (settings r)
            n
            (some (take (burst_of r) (rate_of r) n (or_full (burst_of r) n o)).0)
      ≤ credit (settings r) n o
take-credit r n none used =
    let b : Bucket = record { tokens = burst_of r * one_token; last = n } in
    omega (
      arith,
      credit-now (settings r) n (take (burst_of r) (rate_of r) n b).0
          (take-last (burst_of r) (rate_of r) n b),
      cost-allow (take (burst_of r) (rate_of r) n b).1,
      take-capped (burst_of r) (rate_of r) n b,
      take-last (burst_of r) (rate_of r) n b,
    )
take-credit r n (some b) used = omega (
  arith,
  credit-now (settings r) n (take (burst_of r) (rate_of r) n b).0
      (take-last (burst_of r) (rate_of r) n b),
  cost-allow (take (burst_of r) (rate_of r) n b).1,
  take-cost (burst_of r) (rate_of r) n b,
  take-capped (burst_of r) (rate_of r) n b,
  take-last (burst_of r) (rate_of r) n b,
)
