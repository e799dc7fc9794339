-- ===== src/RateLimit/Identity.antt =====
-- rate_limit.py, `take_token`: the bucket in each identity's record. The burst size and the refill
-- rate are those that the request's virtual host resolves to.
use anti_bot_gw.Common.{
  ◌↔◌, ◌<◌, sym, ℕ, ◌+◌, ◌*◌, ◌-◌, ◌/◌, ◌≤◌, min, leb, if◌then◌else◌, ◌≡◌, arith, ◌&&◌, String,
  string_eq, Option, none, some, List, [], ◌∷◌, length, beq_refl, ◌==◌, ◌∙◌, ◌++◌, length-drop,
}
use anti_bot_gw.Common.Dict.{get}
use anti_bot_gw.State.IpState.{IpState, one_token, push}
use anti_bot_gw.State.Table.{Table, with_state, IsValid}
use anti_bot_gw.State.Table.Laws.{found}
use anti_bot_gw.State.Table.Valid.{
  evicts, first_is, after_with, with_state-after, after_with-IsValid, get-after_with,
}
use anti_bot_gw.RateLimit.Bucket.{
  Bucket, Verdict, allow, zero_division, retry, refill, take, take-zero_division,
}

pub record Taken : Type 0 where
  pub verdict : Verdict
  pub tokens_remaining : ℕ

-- the record after the refill and the counting of the request
refilled : ℕ → ℕ → ℕ → IpState → IpState
refilled burst rate n s = record s {
  tokens = min (burst * one_token) (s.tokens + (n - s.last_refill) * rate);
  last_refill = n;
  request_count = s.request_count + 1;
  request_times = push 50 n s.request_times;
}

-- the body of `take_token`, on the identity's record
unfoldable pub charge : ℕ → ℕ → ℕ → IpState → IpState × Taken
unfolding refilled
charge burst rate n s =
    let s' = refilled burst rate n s in
    if leb one_token s'.tokens
    then (
      record s' { tokens = s'.tokens - one_token },
      record { verdict = allow; tokens_remaining = (s'.tokens - one_token) / one_token },
    )
    else (s', record { verdict = retry rate (one_token - s'.tokens); tokens_remaining = 0 })

unfoldable pub take_token :
    ℕ → ℕ → IpState → ℕ → String → Table IpState → Option (Table IpState × Taken)
take_token burst rate fresh n ip ip_state = with_state ip fresh (charge burst rate n) ip_state

abbrev pub bucket_of : IpState → Bucket
bucket_of s = record { tokens = s.tokens; last = s.last_refill }

charge-take :
    (burst rate n : ℕ) (s : IpState)
    → (bucket_of (charge burst rate n s).0 ≡ (take burst rate n (bucket_of s)).0)
      × ((charge burst rate n s).1.verdict ≡ (take burst rate n (bucket_of s)).1)
unfolding charge take
charge-take burst rate n s = ground arith

length-push : {A : Type 0} (n : ℕ) (x : A) (xs : List A) → length (push n x xs) ≤ n
unfolding push
length-push n x xs = let ys = xs ++ x ∷ [] in omega (arith, length-drop (length ys - n) ys)

charge-count :
    (burst rate n : ℕ) (s : IpState) → (charge burst rate n s).0.request_count ≡ s.request_count + 1
unfolding charge
charge-count burst rate n s = ground arith

charge-window :
    (burst rate n : ℕ) (s : IpState) → length (charge burst rate n s).0.request_times ≤ 50
unfolding charge
charge-window burst rate n s = ground (arith, length-push 50 n s.request_times)

-- On a valid identity table a take finds or makes the identity's record without an error and leaves a
-- valid table. Its verdict and the identity's new bucket are those of the abstract token bucket on
-- the stored record, or on the fresh one if there is none; it is a division by zero exactly where the
-- rate is zero and the refilled bucket lacks a whole token. In each case the request is counted, the window of request times stays within
-- fifty, and no other identity's record changes, except that a new identity on a full table drops
-- the oldest one.
pub take_token-refines :
    (burst rate n : ℕ) (fresh : IpState) (ip : String) (t : Table IpState)
    → IsValid t
    → (t' : Table IpState) × (s' : IpState) × (r : Taken) × (take_token burst rate fresh n ip t
        ≡ some (t', r))
      × IsValid t'
      × (get ip t'.entries ≡ some s')
      × (bucket_of s' ≡ (take burst rate n (bucket_of (found ip fresh t))).0)
      × (r.verdict ≡ (take burst rate n (bucket_of (found ip fresh t))).1)
      × ((r.verdict ≡ zero_division) ↔ (
          (rate ≡ 0) × ((refill burst rate n (bucket_of (found ip fresh t))).tokens < one_token)))
      × (s'.request_count ≡ (found ip fresh t).request_count + 1)
      × (length s'.request_times ≤ 50)
      × ((j : String)
          → get j t'.entries ≡ (
              if ip == j
              then some s'
              else if evicts ip t && first_is j t.entries
              then none
              else get j t.entries))
unfolding take_token
take_token-refines burst rate n fresh ip t valid =
    let f = charge burst rate n in
    let s = found ip fresh t in
    let (e, v) = charge-take burst rate n s in
    (
      after_with ip fresh f t,
      (f s).0,
      (f s).1,
      with_state-after ip fresh f t valid.positive,
      after_with-IsValid ip fresh f t valid,
      get-after_with ip fresh f t ip valid ∙ (rw (beq_refl ip)),
      e,
      v,
      (
        λ h. (take-zero_division burst rate n (bucket_of s)).0 (sym v ∙ h),
        λ h. v ∙ (take-zero_division burst rate n (bucket_of s)).1 h,
      ),
      charge-count burst rate n s,
      charge-window burst rate n s,
      λ j. get-after_with ip fresh f t j valid,
    )
