-- ===== src/Tests/Limits.antt =====
-- The rate limits and the prune of rate_limit.py, at concrete inputs.
use anti_bot_gw.Common.{
  ◌↔◌, ◌<◌, suc, ℕ, ◌*◌, ◌≤◌, ◌+◌, ◌-◌, none, some, List, [], ◌∷◌, ◌≡◌, refl, arith, if◌then◌else◌,
  String, string_eq, nat_eq, list_eq, ◌==◌, ◌&&◌, length,
}
use anti_bot_gw.Common.Dict.{Dict, get}
use anti_bot_gw.State.IpState.{IpState, fresh, one_token}
use anti_bot_gw.State.Table.{Table, IsValid}
use anti_bot_gw.State.Table.Laws.{found}
use anti_bot_gw.State.Table.Valid.{evicts, first_is}
use anti_bot_gw.RateLimit.Bucket.{Bucket, zero_division, refill, take}
use anti_bot_gw.RateLimit.SocketIp.{Config}
use anti_bot_gw.RateLimit.SocketIp.RateBound.{
  Event, request, prune, granted, rounds, granted-bounded,
}
use anti_bot_gw.RateLimit.Identity.{Taken, take_token, bucket_of, take_token-refines}
use anti_bot_gw.RateLimit.Prune.{Tables, round}
use anti_bot_gw.RateLimit.Prune.Identities.{Identities, prune_identities}
use anti_bot_gw.RateLimit.Prune.Identities.Cap.{Capped, prune_identities-Capped}
use anti_bot_gw.RateLimit.Prune.Round.{Guarantee, round-Guarantee}

abbrev limits : Config
limits = record { ip_burst = 2; ip_refill = 500; max_identities = 2 }

-- the bucket of "1.2.3.4" is empty
abbrev buckets : Dict String Bucket
buckets = ("1.2.3.4", record { tokens = 0; last = 1000 }) ∷ []

abbrev requests : List Event
requests =
    request 1000 "1.2.3.4"
    ∷ request 1500 "5.6.7.8"
    ∷ prune 2000
    ∷ request 4000 "1.2.3.4"
    ∷ request 4001 "1.2.3.4"
    ∷ []

granted-bounded_example :
    granted limits "1.2.3.4" requests buckets * one_token
    ≤ suc (rounds requests) * (limits.ip_burst * one_token) + (5000 - 1000) * limits.ip_refill
unfolding get
granted-bounded_example =
    granted-bounded limits "1.2.3.4" 1000 5000 requests buckets
      (omega arith, (omega arith, (omega arith, (omega arith, (omega arith, omega arith)))))
      (omega arith)

abbrev state_at : ℕ → ℕ → IpState
state_at seen until = record (fresh 3 1 seen) { last_ip = "1.2.3.4"; banned_until = until }

-- an idle identity, a banned one and a recent one
abbrev ip_state : Table IpState
ip_state = record {
  entries =
      ("idle", state_at 10 0)
      ∷ ("banned", state_at 10 9_000_000)
      ∷ ("recent", state_at 7_999_000 0)
      ∷ [];
  maxsize = 4;
}

ip_state-IsValid : IsValid ip_state
unfolding get
ip_state-IsValid = record {
  positive = omega arith;
  bounded = omega arith;
  unique = (refl, (refl, (refl, tt)));
}

take_token-refines_example :
    (t' : Table IpState) × (s' : IpState) × (r : Taken) × (take_token 3 500
        (fresh 3 1 8_000_000)
        8_000_000
        "recent"
        ip_state
      ≡ some (t', r))
    × IsValid t'
    × (get "recent" t'.entries ≡ some s')
    × (bucket_of s'
        ≡ (take 3 500 8_000_000 (bucket_of (found "recent" (fresh 3 1 8_000_000) ip_state))).0)
    × (r.verdict
        ≡ (take 3 500 8_000_000 (bucket_of (found "recent" (fresh 3 1 8_000_000) ip_state))).1)
    × ((r.verdict ≡ zero_division) ↔ (
        ◌≡◌ {A = ℕ} 500 0
        × ((refill 3 500 8_000_000
              (bucket_of (found "recent" (fresh 3 1 8_000_000) ip_state))).tokens
            < one_token)))
    × (s'.request_count ≡ (found "recent" (fresh 3 1 8_000_000) ip_state).request_count + 1)
    × (length s'.request_times ≤ 50)
    × ((j : String)
        → get j t'.entries ≡ (
            if "recent" == j
            then some s'
            else if evicts "recent" ip_state && first_is j ip_state.entries
            then none
            else get j ip_state.entries))
take_token-refines_example =
    take_token-refines 3 500 8_000_000 (fresh 3 1 8_000_000) "recent" ip_state ip_state-IsValid

abbrev identities : Identities
identities = record {
  ip_state = ip_state;
  ip_to_identities = ("1.2.3.4", "idle" ∷ "banned" ∷ "recent" ∷ []) ∷ [];
}

abbrev identity_limits : anti_bot_gw.RateLimit.Prune.Identities.Config
identity_limits = record { max_identities = 1; prune_idle = 3_600_000 }

prune_identities-Capped_example :
    (st' : Identities) × (prune_identities identity_limits
        (fresh 3 1 8_000_000)
        8_000_000
        identities
      ≡ some st')
    × Capped identity_limits 8_000_000 st'.ip_state.entries
prune_identities-Capped_example =
    prune_identities-Capped identity_limits (fresh 3 1 8_000_000) 8_000_000 identities
      ip_state-IsValid

abbrev tables : Tables
tables = record {
  identities = identities;
  ip_new_sessions = [];
  ip_buckets = buckets;
  canary_tokens = [];
  fp_canvas_store = [];
  by_path = ("/", 3) ∷ [];
  by_ja4 = [];
  by_path_by_cat = [];
  crowdsec_cache = [];
  active_bans = 0;
  active_sessions = [];
  signal_order_cache = [];
  asn_path_clusters = [];
  fp_session_creations = [];
  probe_rl = [];
  pow_rl = [];
  pow_chal_cache = [];
  pow_seen = ((1 ∷ 2 ∷ []), 5000) ∷ ((3 ∷ []), 9_000_000) ∷ [];
  honeypot_ip_clusters = [];
  login_bucket = [];
  totp_pending = [];
}

abbrev round_limits : anti_bot_gw.RateLimit.Prune.Config
round_limits = record {
  identities = identity_limits;
  churn_window = 600_000;
  probe_window = 60_000;
  pow_window = 60_000;
}

round-Guarantee_example :
    (s' : Tables) × (round round_limits (fresh 3 1 8_000_000) 8_000_000 8_500_000 tables ≡ some s')
    × Guarantee round_limits 8_000_000 8_500_000 tables s'
unfolding get
round-Guarantee_example =
    round-Guarantee round_limits (fresh 3 1 8_000_000) 8_000_000 8_500_000 tables ip_state-IsValid
      (refl, tt) (refl, (refl, tt))
