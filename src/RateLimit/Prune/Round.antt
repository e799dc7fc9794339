-- ===== src/RateLimit/Prune/Round.antt =====
-- What a round of the prune keeps and drops, over all the tables it goes through.
use anti_bot_gw.Common.{
  ℕ, suc, ◌-◌, ◌≤◌, false, Option, none, some, List, [], ◌∷◌, ltb, if◌then◌else◌, length, String,
  ◌≡◌, refl, arith, string_eq, nat_eq, list_eq, take, length-take, ap, ◌∙◌,
}
use anti_bot_gw.Common.Dict.{Dict, get, evict, Unique}
use anti_bot_gw.Common.Dict.Laws.{get-evict, evict-Unique}
use anti_bot_gw.Common.Dict.Present.{Present-of, mem-firsts, Distinct-firsts, length-remove_all}
use anti_bot_gw.Common.Sort.{sorted, sorted_reverse, length-sorted}
use anti_bot_gw.Common.Sort.Keyed.{
  firsts, mem-firsts-sorted, Distinct-sorted, mem-firsts-take, Distinct-take, length-firsts,
}
use anti_bot_gw.State.IpState.{IpState}
use anti_bot_gw.State.Table.{Table, IsValid}
use anti_bot_gw.RateLimit.Bucket.{Bucket}
use anti_bot_gw.RateLimit.Prune.{Config, Tables, steps, round}
use anti_bot_gw.RateLimit.Prune.Identities.{reset_if_idle, reset_idle}
use anti_bot_gw.RateLimit.Prune.Identities.Safe.{without_global_ban, prune_identities-Keeps}
use anti_bot_gw.RateLimit.Prune.Caches.{
  prune_buckets, cap_buckets, prune_pow_seen, is_stale_bucket, last_of, count_of, cap_counts,
}

abbrev reset_option : ℕ → Option IpState → Option IpState
reset_option now none = none
reset_option now (some s) = some (reset_if_idle now s)

get-reset_idle :
    (now : ℕ) (j : String) (d : Dict String IpState)
    → get j (reset_idle now d) ≡ reset_option now (get j d)
unfolding get reset_idle
get-reset_idle now j [] = refl
get-reset_idle now j ((k, s) ∷ d) = ground (arith, get-reset_idle now j d)

reset-without_global_ban :
    (now : ℕ) (o : Option IpState) → without_global_ban now o ≡ false → reset_option now o ≡ o
unfolding reset_if_idle
reset-without_global_ban now none h = refl
reset-without_global_ban now (some s) h = ground arith

length-reset_idle : (now : ℕ) (d : Dict String IpState) → length (reset_idle now d) ≡ length d
unfolding reset_idle
length-reset_idle now [] = refl
length-reset_idle now ((k, s) ∷ d) = ap suc (length-reset_idle now d)

reset_idle-Unique : (now : ℕ) (d : Dict String IpState) → Unique d → Unique (reset_idle now d)
unfolding reset_idle
reset_idle-Unique now [] u = tt
reset_idle-Unique now ((k, s) ∷ d) u =
    (get-reset_idle now k d ∙ ap (reset_option now) u.0, reset_idle-Unique now d u.1)

reset-IsValid :
    (now : ℕ) (t : Table IpState)
    → IsValid t
    → IsValid (record t { entries = reset_idle now t.entries })
reset-IsValid now t valid = record {
  positive = valid.positive;
  bounded = rw (length-reset_idle now t.entries) valid.bounded;
  unique = reset_idle-Unique now t.entries valid.unique;
}

length-cap_buckets : (m : ℕ) (d : Dict String Bucket) → Unique d → length (cap_buckets m d) ≤ m
unfolding cap_buckets
length-cap_buckets m d u =
    let xs = sorted last_of d in
    let ks = firsts (take (length d - m) xs) in
    let present = Present-of d ks (λ j h. ground (
      arith,
      mem-firsts-take j (length d - m) xs,
      mem-firsts-sorted last_of j d,
      mem-firsts j d,
    )) in
    let distinct =
      Distinct-take (length d - m) xs (Distinct-sorted last_of d (Distinct-firsts d u)) in
    ground (
      arith,
      length-remove_all ks d u distinct present,
      length-firsts (take (length d - m) xs),
      length-take (length d - m) xs,
      length-sorted last_of d,
    )

-- What a round guarantees, at the monotonic time `now` and the time of day `wall`.
pub record Guarantee (cfg : Config) (now wall : ℕ) (s s' : Tables) : Type 0 where
  pub valid : IsValid s'.identities.ip_state
  -- an identity whose `banned_until` is not over keeps its record; a ban on a virtual host alone does
  -- not count
  pub bans :
      (j : String)
      → without_global_ban now (get j s.identities.ip_state.entries) ≡ false
      → get j s'.identities.ip_state.entries ≡ get j s.identities.ip_state.entries
  -- a solved token is remembered exactly as long as it has not expired
  pub solved :
      (token : List ℕ)
      → get token s'.pow_seen ≡ elim (get token s.pow_seen) [
        | none ↦ none
        | some exp ↦ if ltb exp wall then none else some exp
      ]
  -- the buckets are at most `MAX_IDENTITIES`
  pub buckets : length s'.ip_buckets ≤ cfg.identities.max_identities
  -- the counters of paths and of fingerprints are at most 5000
  pub paths : length s'.by_path ≤ 5000
  pub prints : length s'.by_ja4 ≤ 5000

length-cap_counts : (d : Dict String ℕ) → length (cap_counts 5000 2500 d) ≤ 5000
unfolding cap_counts
length-cap_counts d = ground (arith, length-take 2500 (sorted_reverse count_of d))

-- From valid tables a round of the prune ends without an error, and what it leaves satisfies
-- `Guarantee`: the records whose `banned_until` is not over are kept, the solved tokens are
-- remembered as long as they have not expired, and the identity table is valid and the buckets and
-- the two counters are within their caps. Nothing is said of a ban that only `banned_until_by_vhost`
-- has.
pub round-Guarantee :
    (cfg : Config) (fresh : IpState) (now wall : ℕ) (s : Tables)
    → IsValid s.identities.ip_state
    → Unique s.ip_buckets
    → Unique s.pow_seen
    → (s' : Tables) × (round cfg fresh now wall s ≡ some s') × Guarantee cfg now wall s s'
unfolding round prune_buckets prune_pow_seen
round-Guarantee cfg fresh now wall s valid ub us =
    let (ids, e, ok, kept) = prune_identities-Keeps cfg.identities fresh now s.identities valid in
    (
      steps cfg now wall s ids,
      rw e,
      record {
        valid = reset-IsValid now ids.ip_state ok;
        bans = λ j h. ground (
          arith,
          h,
          kept.bans j,
          get-reset_idle now j ids.ip_state.entries,
          reset-without_global_ban now (get j s.identities.ip_state.entries) h,
        );
        solved = λ token. get-evict (λ t exp. ltb exp wall) token s.pow_seen us;
        buckets =
            length-cap_buckets cfg.identities.max_identities
              (evict (is_stale_bucket now) s.ip_buckets)
              (evict-Unique (is_stale_bucket now) s.ip_buckets ub);
        paths = length-cap_counts s.by_path;
        prints = length-cap_counts s.by_ja4;
      },
    )
