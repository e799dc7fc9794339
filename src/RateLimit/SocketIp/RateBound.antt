-- ===== src/RateLimit/SocketIp/RateBound.antt =====
-- How many requests one address gets through in a stretch of time.
use native.Mathlib.Nat.{add-mul}
use mathlib.Core.Path.{subst}
use anti_bot_gw.Common.{
  Bool, ltb, suc, length, ◌⊎◌, ◌&&◌, if◌then◌else◌, refl, ℕ, ◌+◌, ◌*◌, ◌-◌, ◌≤◌, false, ◌≡◌, ◌≢◌,
  arith, String, string_eq, none, List, [], ◌∷◌, Bool-cases, inl, inr, ◌==◌, beq_refl, ◌∙◌, sym,
  eq_of_beq,
}
use anti_bot_gw.Common.Dict.{Dict, get, mem, evict, keys_where, remove_all}
use anti_bot_gw.Common.Dict.Laws.{get-remove_all}
use anti_bot_gw.State.IpState.{one_token}
use anti_bot_gw.RateLimit.SocketIp.Credit.{
  UsedBy, credit, span, take-credit, credit-later, cost-allow, credit-le-burst,
}
use anti_bot_gw.RateLimit.Bucket.{Bucket, is_allow}
use anti_bot_gw.RateLimit.SocketIp.{Config, take_socket_ip_token, get-take_ne}
use anti_bot_gw.RateLimit.Prune.Caches.{prune_buckets, cap_buckets, is_stale_bucket}

-- a call of `take_socket_ip_token`, or a round of the prune
pub data Event : Type 0 where
  request : ℕ → String → Event
  prune : ℕ → Event

abbrev time_of : Event → ℕ
time_of (request n ip) = n
time_of (prune n) = n

abbrev after_event : Config → Event → Dict String Bucket → Dict String Bucket
after_event cfg (request n ip) d = (take_socket_ip_token cfg n ip d).0
after_event cfg (prune n) d = prune_buckets cfg.max_identities n d

-- whether the event is a request of `ip` that is let through
abbrev lets_in : Config → String → Event → Dict String Bucket → Bool
lets_in cfg ip (request n j) d = (j == ip) && is_allow (take_socket_ip_token cfg n j d).1
lets_in cfg ip (prune n) d = false

-- how many requests of `ip` are let through
unfoldable pub granted : Config → String → List Event → Dict String Bucket → ℕ
granted cfg ip [] d = 0
granted cfg ip (e ∷ events) d =
    let rest = granted cfg ip events (after_event cfg e d) in
    if lets_in cfg ip e d then suc rest else rest

-- how often the prune runs
abbrev pub rounds : List Event → ℕ
rounds [] = 0
rounds (request n ip ∷ events) = rounds events
rounds (prune n ∷ events) = suc (rounds events)

-- The events come in the order of their times, from `start` to `stop`.
abbrev pub Within : ℕ → ℕ → List Event → Type 0
Within start stop [] = start ≤ stop
Within start stop (e ∷ events) = (start ≤ time_of e) × Within (time_of e) stop events

Within-le : (start stop : ℕ) (events : List Event) → Within start stop events → start ≤ stop
Within-le start stop [] w = w
Within-le start stop (e ∷ events) w = omega (arith, Within-le (time_of e) stop events w.1)

get-remove_all_or :
    (ks : List String) (ip : String) (d : Dict String Bucket)
    → (get ip (remove_all ks d) ≡ get ip d) ⊎ (get ip (remove_all ks d) ≡ none)
get-remove_all_or ks ip d = elim (Bool-cases (mem ip ks)) [
  | inl gone ↦ inr (get-remove_all ks ip d ∙ rw gone refl)
  | inr kept ↦ inl (get-remove_all ks ip d ∙ rw kept refl)
]

get-cap_buckets :
    (m : ℕ) (ip : String) (d : Dict String Bucket)
    → (get ip (cap_buckets m d) ≡ get ip d) ⊎ (get ip (cap_buckets m d) ≡ none)
unfolding cap_buckets
get-cap_buckets m ip d = elim (Bool-cases (ltb m (length d))) [
  | inr fits ↦ inl (rw fits refl)
  | inl over ↦ rw over (get-remove_all_or _ ip d)
]

-- A round of the prune keeps a bucket or drops it.
get-prune_buckets :
    (m n : ℕ) (ip : String) (d : Dict String Bucket)
    → (get ip (prune_buckets m n d) ≡ get ip d) ⊎ (get ip (prune_buckets m n d) ≡ none)
unfolding prune_buckets evict
get-prune_buckets m n ip d = elim (get-cap_buckets m ip (evict (is_stale_bucket n) d)) [
  | inr gone ↦ inr gone
  | inl kept ↦ elim (get-remove_all_or (keys_where (is_stale_bucket n) d) ip d) [
    | inl same ↦ inl (kept ∙ same)
    | inr gone ↦ inr (kept ∙ gone)
  ]
]

-- what an event costs the address, and what the prune can give it
abbrev event_cost : Config → String → Event → Dict String Bucket → ℕ
event_cost cfg ip e d = if lets_in cfg ip e d then one_token else 0

abbrev event_gift : Config → Event → ℕ
event_gift cfg (request n ip) = 0
event_gift cfg (prune n) = cfg.ip_burst * one_token

request-credit :
    (cfg : Config) (ip j : String) (n : ℕ) (d : Dict String Bucket)
    → UsedBy n (get ip d)
    → (event_cost cfg ip (request n j) d + credit cfg n (get ip (take_socket_ip_token cfg n j d).0)
        ≤ credit cfg n (get ip d))
      × UsedBy n (get ip (take_socket_ip_token cfg n j d).0)
request-credit cfg ip j n d used = elim (Bool-cases (j == ip)) [
  | inl same ↦
      subst
        (λ x.
          (event_cost cfg ip (request n x) d
              + credit cfg n (get ip (take_socket_ip_token cfg n x d).0)
            ≤ credit cfg n (get ip d))
          × UsedBy n (get ip (take_socket_ip_token cfg n x d).0))
        (sym (eq_of_beq j ip same))
        (rw (beq_refl ip, cost-allow (take_socket_ip_token cfg n ip d).1)
          (take-credit cfg n ip d used))
  | inr other ↦
      let ne : j ≢ ip = λ p. ground (arith, string_eq.beq_iff j ip) in
      let e = get-take_ne cfg n j ip d ne in rw (e, other) (omega arith, used)
]

-- What one event spends comes out of the credit, and the rest is the credit afterwards.
event-credit :
    (cfg : Config) (ip : String) (e : Event) (d : Dict String Bucket)
    → UsedBy (time_of e) (get ip d)
    → (event_cost cfg ip e d + credit cfg (time_of e) (get ip (after_event cfg e d))
        ≤ credit cfg (time_of e) (get ip d) + event_gift cfg e)
      × UsedBy (time_of e) (get ip (after_event cfg e d))
event-credit cfg ip (request n j) d used =
    let (spent, used') = request-credit cfg ip j n d used in (omega (arith, spent), used')
event-credit cfg ip (prune n) d used = elim (get-prune_buckets cfg.max_identities n ip d) [
  | inl same ↦ rw same (omega arith, used)
  | inr gone ↦ rw gone (omega arith, tt)
]

gifts :
    (cfg : Config) (e : Event) (events : List Event)
    → rounds (e ∷ events) * (cfg.ip_burst * one_token)
      ≡ event_gift cfg e + rounds events * (cfg.ip_burst * one_token)
gifts cfg (request n ip) events = omega arith
gifts cfg (prune n) events = omega (arith, add-mul 1 (rounds events) (cfg.ip_burst * one_token))

granted-cons :
    (cfg : Config) (ip : String) (e : Event) (events : List Event) (d : Dict String Bucket)
    → granted cfg ip (e ∷ events) d * one_token
      ≡ event_cost cfg ip e d + granted cfg ip events (after_event cfg e d) * one_token
unfolding granted
granted-cons cfg ip e events d = ground arith

granted-credit :
    (cfg : Config) (ip : String) (start stop : ℕ) (events : List Event) (d : Dict String Bucket)
    → Within start stop events
    → UsedBy start (get ip d)
    → granted cfg ip events d * one_token
      ≤ credit cfg start (get ip d)
        + (stop - start) * cfg.ip_refill
        + rounds events * (cfg.ip_burst * one_token)
unfolding granted
granted-credit cfg ip start stop [] d w used = omega arith
granted-credit cfg ip start stop (e ∷ events) d (h, w) used =
    let n = time_of e in
    let (less, used_n) = credit-later cfg start n (get ip d) h used in
    let (spent, used') = event-credit cfg ip e d used_n in
    omega (
      arith,
      less,
      span start n stop cfg.ip_refill h (Within-le n stop events w),
      spent,
      gifts cfg e events,
      granted-cons cfg ip e events d,
      granted-credit cfg ip n stop events (after_event cfg e d) w used',
    )

-- Between two times, one address is let through at most as often as its burst size, once more for
-- each round of the prune in between, plus what the refill rate brings in that stretch, whatever
-- other addresses send, if its bucket, where it has one, was not used after the start. (Counts are in
-- millionths of a token.)
pub granted-bounded :
    (cfg : Config) (ip : String) (start stop : ℕ) (events : List Event) (d : Dict String Bucket)
    → Within start stop events
    → UsedBy start (get ip d)
    → granted cfg ip events d * one_token
      ≤ suc (rounds events) * (cfg.ip_burst * one_token) + (stop - start) * cfg.ip_refill
granted-bounded cfg ip start stop events d w used = omega (
  arith,
  add-mul 1 (rounds events) (cfg.ip_burst * one_token),
  granted-credit cfg ip start stop events d w used,
  credit-le-burst cfg start (get ip d),
)
