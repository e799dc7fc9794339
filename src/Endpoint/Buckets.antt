-- ===== src/Endpoint/Buckets.antt =====
-- integrations/endpoint_policy.py, `_endpoint_rate_consume`: a token bucket for each rule and
-- identity. Times are in milliseconds and tokens in millionths.
pub mod Credit
pub mod RateBound
use anti_bot_gw.Common.{
  ℕ, ◌+◌, ◌*◌, ◌/◌, ◌-◌, ◌≤◌, min, leb, Bool, true, false, ltb, ◌=ℕ=◌, if◌then◌else◌, ◌≡◌, refl,
  arith, String, string_eq, pair_eq, Option, none, some, length, ◌==◌, ap,
}
use anti_bot_gw.Common.Dict.{Dict, get, put, evict, Unique}
use anti_bot_gw.Common.Dict.Laws.{get-put, get-evict}
use anti_bot_gw.State.IpState.{one_token}
use anti_bot_gw.RateLimit.Bucket.{Bucket, is_allow, take}
use anti_bot_gw.Endpoint.Policy.{Rule}

-- the glob and the identity
abbrev pub Key : Type 0
Key = String × String

-- `_ENDPOINT_BUCKET_MAX` and `_ENDPOINT_BUCKET_IDLE`
abbrev pub bucket_max : ℕ
bucket_max = 50_000

abbrev pub bucket_idle : ℕ
bucket_idle = 3_600_000

-- `rule.get("rps")`, where 0 counts as missing
abbrev pub rate_of : Rule → ℕ
rate_of r = elim r.rps [ none ↦ 0 | some x ↦ x ]

-- `rule.get("burst") or (int(rps * 2) if rps else 1)`
unfoldable pub burst_of : Rule → ℕ
burst_of r =
    let given : ℕ = elim r.burst [ none ↦ 0 | some b ↦ b ] in
    if given =ℕ= 0 then (if rate_of r =ℕ= 0 then 1 else rate_of r * 2 / 1000) else given

abbrev pub is_idle_bucket : ℕ → Key → Bucket → Bool
is_idle_bucket n k b = ltb (b.last + bucket_idle) n

-- the prune, where there are too many
unfoldable pub pruned : ℕ → Dict Key Bucket → Dict Key Bucket
pruned n d = if ltb bucket_max (length d) then evict (is_idle_bucket n) d else d

-- the bucket of a key, a full one if there is none
abbrev pub or_full : ℕ → ℕ → Option Bucket → Bucket
or_full burst n none = record { tokens = burst * one_token; last = n }
or_full burst n (some b) = b

unfoldable pub endpoint_rate_consume : ℕ → Rule → String → Dict Key Bucket → Dict Key Bucket × Bool
unfolding burst_of pruned
endpoint_rate_consume n r identity d =
    if rate_of r =ℕ= 0
    then (d, true)
    else (let key : Key = (r.path, identity) in
        let kept = pruned n d in
        let st = or_full (burst_of r) n (get key kept) in
        let tokens = min (burst_of r * one_token) (st.tokens + (n - st.last) * rate_of r) in
        if leb one_token tokens
        then (put key (record { tokens = tokens - one_token; last = n }) kept, true)
        else (put key (record { tokens = tokens; last = n }) kept, false))

-- what a call sees of another key: the bucket, less the idle ones where there are too many
abbrev pub seen_at : ℕ → Key → Dict Key Bucket → Option Bucket
seen_at n k d =
    if ltb bucket_max (length d)
    then elim (get k d) [ none ↦ none | some b ↦ if is_idle_bucket n k b then none else some b ]
    else get k d

get-prune_if :
    (big : Bool) (n : ℕ) (k : Key) (d : Dict Key Bucket)
    → Unique d
    → get k (if big then evict (is_idle_bucket n) d else d) ≡ (
        if big
        then elim (get k d) [ none ↦ none | some b ↦ if is_idle_bucket n k b then none else some b ]
        else get k d)
get-prune_if true n k d u = get-evict (is_idle_bucket n) k d u
get-prune_if false n k d u = refl

get-pruned : (n : ℕ) (k : Key) (d : Dict Key Bucket) → Unique d → get k (pruned n d) ≡ seen_at n k d
unfolding pruned
get-pruned n k d u = get-prune_if (ltb bucket_max (length d)) n k d u

-- A rule without a rate lets everything through and touches nothing. Under a rate the answer and
-- the new bucket of the rule and the identity are those of the abstract token bucket, on the stored
-- bucket or a full one, and no other bucket changes, except that idle ones are dropped where there
-- are too many.
pub consume-refines :
    (n : ℕ) (r : Rule) (identity : String) (d : Dict Key Bucket)
    → Unique d
    → (rate_of r ≡ 0 → endpoint_rate_consume n r identity d ≡ (d, true))
      × (1 ≤ rate_of r
          → (b : Bucket) × (b ≡ or_full (burst_of r) n (seen_at n (r.path, identity) d))
            × ((endpoint_rate_consume n r identity d).1
                ≡ is_allow (take (burst_of r) (rate_of r) n b).1)
            × ((k : Key)
                → get k (endpoint_rate_consume n r identity d).0 ≡ (
                    if (r.path, identity) == k
                    then some (take (burst_of r) (rate_of r) n b).0
                    else seen_at n k d)))
unfolding endpoint_rate_consume take
consume-refines n r identity d u = (
  λ h. ground (arith, h),
  λ h.
      let key : Key = (r.path, identity) in
      let b = or_full (burst_of r) n (get key (pruned n d)) in
      (
        b,
        ap (or_full (burst_of r) n) (get-pruned n key d u),
        ground (arith, h),
        λ k. ground (
          arith,
          h,
          get-put key k (take (burst_of r) (rate_of r) n b).0 (pruned n d),
          get-pruned n k d u,
        ),
      ),
)
