-- ===== src/RateLimit/Prune/Caches.antt =====
-- Steps 3 to 14 but 4c: the other in-memory tables, each with the test by which its stale entries
-- are dropped. `now` is the monotonic clock and `wall` the time of day, as the code chooses them.
use anti_bot_gw.Common.{
  ℕ, ◌+◌, ◌-◌, ◌*◌, ◌/◌, max, Bool, true, false, ltb, if◌then◌else◌, ◌&&◌, Option, none, some, List,
  [], ◌∷◌, length, take, String, string_eq, nat_eq, pair_eq, list_eq, count, is_some,
}
use anti_bot_gw.Common.Dict.{Dict, remove_all, evict}
use anti_bot_gw.Common.Sort.{sorted, sorted_reverse}
use anti_bot_gw.Common.Sort.Keyed.{firsts}
use anti_bot_gw.RateLimit.Bucket.{Bucket}

abbrev pub seconds : ℕ → ℕ
seconds s = s * 1000

-- `max(m.values())`
unfoldable pub latest : Dict String ℕ → ℕ
latest [] = 0
latest ((k, t) ∷ m) = max t (latest m)

-- 3. the sessions that an address created, each with its time
unfoldable pub is_stale_ip : ℕ → String → Dict String ℕ → Bool
is_stale_ip now ip [] = true
is_stale_ip now ip (e ∷ m) = ltb (latest (e ∷ m) + seconds 3600) now

unfoldable pub prune_new_sessions : ℕ → Dict String (Dict String ℕ) → Dict String (Dict String ℕ)
unfolding is_stale_ip
prune_new_sessions now d = evict (is_stale_ip now) d

-- 4. the buckets of the socket addresses, and 4b. their cap
abbrev pub is_stale_bucket : ℕ → String → Bucket → Bool
is_stale_bucket now ip b = ltb (b.last + seconds 3600) now

abbrev pub last_of : String × Bucket → ℕ
last_of e = e.1.last

unfoldable pub cap_buckets : ℕ → Dict String Bucket → Dict String Bucket
cap_buckets max_identities d =
    if ltb max_identities (length d)
    then remove_all (firsts (take (length d - max_identities) (sorted last_of d))) d
    else d

unfoldable pub prune_buckets : ℕ → ℕ → Dict String Bucket → Dict String Bucket
unfolding cap_buckets
prune_buckets max_identities now d = cap_buckets max_identities (evict (is_stale_bucket now) d)

-- 5. canary tokens, each with its expiry, and 6. canvas fingerprints, each with its `ts`
unfoldable pub prune_canary : ℕ → Dict String ℕ → Dict String ℕ
prune_canary now d = evict (λ tok exp. ltb exp now) d

unfoldable pub prune_canvas : ℕ → Dict String ℕ → Dict String ℕ
prune_canvas now d = evict (λ k ts. ltb (ts + seconds 7200) now) d

-- 7. and 8. the counters of paths: the largest counts stay, in the order of their counts
abbrev pub count_of : String × ℕ → ℕ
count_of e = e.1

unfoldable pub cap_counts : ℕ → ℕ → Dict String ℕ → Dict String ℕ
cap_counts limit keep d = if ltb limit (length d) then take keep (sorted_reverse count_of d) else d

unfoldable pub cap_categories : Dict String (Dict String ℕ) → Dict String (Dict String ℕ)
cap_categories [] = []
cap_categories ((cat, d) ∷ cats) = (cat, cap_counts 1000 500 d) ∷ cap_categories cats

-- 10. the CrowdSec cache, each entry with its decision and its expiry
abbrev pub is_active_ban : ℕ → String × (Option String × ℕ) → Bool
is_active_ban wall e = is_some e.1.0 && ltb wall e.1.1

unfoldable pub prune_crowdsec :
    ℕ → Dict String (Option String × ℕ) → Dict String (Option String × ℕ) × ℕ
prune_crowdsec wall d =
    let d' = evict (λ ip v. ltb v.1 wall) d in (d', count (is_active_ban wall) d')

-- 11. administrators' sessions, the signal orders and the clusters of an ASN's paths
unfoldable pub prune_active_sessions : ℕ → Dict String ℕ → Dict String ℕ
prune_active_sessions wall d = evict (λ u ts. ltb (ts + seconds 43200) wall) d

unfoldable pub prune_signal_orders : Dict String ℕ → Dict String ℕ
prune_signal_orders d =
    if ltb 2000 (length d) then remove_all (firsts (take (length d - 1000) d)) d else d

-- the key is the ASN, the path prefix and the minute
abbrev pub ClusterKey : Type 0
ClusterKey = (String × String) × ℕ

unfoldable pub prune_clusters : ℕ → Dict ClusterKey (List String) → Dict ClusterKey (List String)
prune_clusters wall d = evict (λ k ips. ltb (k.1 + 10) (wall / seconds 60)) d

-- 12. the times at which a fingerprint was given a cookie, the oldest first
unfoldable pub is_stale_fp : ℕ → ℕ → String → List ℕ → Bool
is_stale_fp window wall fp [] = true
is_stale_fp window wall fp (t ∷ []) = ltb (t + window) wall
is_stale_fp window wall fp (t ∷ u ∷ ts) = is_stale_fp window wall fp (u ∷ ts)

unfoldable pub prune_fp_sessions : ℕ → ℕ → Dict String (List ℕ) → Dict String (List ℕ)
unfolding is_stale_fp
prune_fp_sessions window wall d = evict (is_stale_fp window wall) d

-- 13. the rate limits with a window's start, and the challenge cache with its issue time
unfoldable pub prune_windows : ℕ → ℕ → Dict String (ℕ × ℕ) → Dict String (ℕ × ℕ)
prune_windows window wall d = evict (λ ip e. ltb (e.0 + window) wall) d

unfoldable pub prune_challenges : ℕ → ℕ → Dict String (String × ℕ) → Dict String (String × ℕ)
prune_challenges window wall d = evict (λ ip e. ltb (e.1 + window) wall) d

-- 13c. solved proof-of-work tokens, each with its expiry
unfoldable pub prune_pow_seen : ℕ → Dict (List ℕ) ℕ → Dict (List ℕ) ℕ
prune_pow_seen wall d = evict (λ token exp. ltb exp wall) d

-- 13d. the key is a honeypot path and a bucket of five minutes
unfoldable pub prune_honeypots :
    ℕ → Dict (String × ℕ) (List String) → Dict (String × ℕ) (List String)
prune_honeypots wall d = evict (λ k ips. ltb (k.1 + 6) (wall / seconds 300)) d

-- 13e. the login attempts, and 14. the pending second factors: `none` is a value that is no record
unfoldable pub prune_logins : ℕ → Dict String (ℕ × ℕ) → Dict String (ℕ × ℕ)
prune_logins wall d = evict (λ ip e. ltb (e.0 + seconds 600) wall) d

abbrev pub is_stale_totp : ℕ → String → Option ℕ → Bool
is_stale_totp wall user none = false
is_stale_totp wall user (some ts) = ltb (ts + seconds 600) wall

unfoldable pub prune_totp : ℕ → Dict String (Option ℕ) → Dict String (Option ℕ)
prune_totp wall d = evict (is_stale_totp wall) d
