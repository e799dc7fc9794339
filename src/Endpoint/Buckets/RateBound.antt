-- ===== src/Endpoint/Buckets/RateBound.antt =====
-- integrations/endpoint_policy.py: how many calls of one identity a rule lets through in a stretch of
-- time.
use anti_bot_gw.Common.{
  ℕ, suc, ◌+◌, ◌*◌, ◌-◌, ◌≤◌, min, Bool, true, false, ltb, leb, ◌=ℕ=◌, if◌then◌else◌, ◌&&◌, ◌≡◌,
  ◌≢◌, ◌⊎◌, refl, sym, ap, ◌∙◌, arith, String, string_eq, pair_eq, some, List, [], ◌∷◌, length,
  ◌==◌, Bool-cases, inl, inr, beq_refl, eq_of_beq,
}
use mathlib.Core.Path.{subst}
use anti_bot_gw.Common.Dict.{Dict, get, put, Unique}
use anti_bot_gw.Common.Dict.Laws.{put-Unique, evict-Unique}
use anti_bot_gw.State.IpState.{one_token}
use anti_bot_gw.RateLimit.Bucket.{Bucket, is_allow, take, take-last}
use anti_bot_gw.RateLimit.SocketIp.Credit.{UsedBy, credit, span, credit-later, credit-le-burst}
use anti_bot_gw.Endpoint.Buckets.Credit.{settings, seen-credit, take-credit}
use anti_bot_gw.Endpoint.Policy.{Rule}
use anti_bot_gw.Endpoint.Buckets.{
  Key, bucket_max, bucket_idle, rate_of, burst_of, is_idle_bucket, pruned, or_full,
  endpoint_rate_consume, seen_at, consume-refines,
}

-- a call: its time, its rule and its identity
abbrev pub Call : Type 0
Call = ℕ × Rule × String

abbrev after_call : Call → Dict Key Bucket → Dict Key Bucket
after_call (n, r, identity) d = (endpoint_rate_consume n r identity d).0

-- whether the call is one of the key that is let through
abbrev lets_in : Key → Call → Dict Key Bucket → Bool
lets_in key (n, r, identity) d =
    ((r.path, identity) == key) && (endpoint_rate_consume n r identity d).1

unfoldable pub granted : Key → List Call → Dict Key Bucket → ℕ
granted key [] d = 0
granted key (c ∷ calls) d =
    let rest = granted key calls (after_call c d) in if lets_in key c d then suc rest else rest

-- The calls come in the order of their times, from `start` to `stop`, and no other rule has the glob
-- of `r`.
abbrev pub Within : Rule → ℕ → ℕ → List Call → Type 0
Within r start stop [] = start ≤ stop
Within r start stop ((n, r', identity) ∷ calls) =
    (start ≤ n) × ((r' ≡ r) ⊎ (r'.path ≢ r.path)) × Within r n stop calls

pruned-Unique : (n : ℕ) (d : Dict Key Bucket) → Unique d → Unique (pruned n d)
unfolding pruned
pruned-Unique n d u = elim (Bool-cases (ltb bucket_max (length d))) [
  | inl many ↦ rw many (evict-Unique (is_idle_bucket n) d u)
  | inr few ↦ rw few u
]

either-Unique :
    (b : Bool) (x y : Dict Key Bucket × Bool)
    → Unique x.0
    → Unique y.0
    → Unique (if b then x else y).0
either-Unique true x y u v = u
either-Unique false x y u v = v

call-Unique :
    (n : ℕ) (r : Rule) (identity : String) (d : Dict Key Bucket)
    → Unique d
    → Unique (endpoint_rate_consume n r identity d).0
unfolding endpoint_rate_consume
call-Unique n r identity d u =
    let key : Key = (r.path, identity) in
    let kept = pruned-Unique n d u in
    let st = or_full (burst_of r) n (get key (pruned n d)) in
    let tokens = min (burst_of r * one_token) (st.tokens + (n - st.last) * rate_of r) in
    let spent : Dict Key Bucket =
      put key (record { tokens = tokens - one_token; last = n }) (pruned n d) in
    let unspent : Dict Key Bucket = put key (record { tokens = tokens; last = n }) (pruned n d) in
    either-Unique (rate_of r =ℕ= 0) (d, true)
      (if leb one_token tokens then (spent, true) else (unspent, false)) u
      (either-Unique (leb one_token tokens) (spent, true) (unspent, false)
        (put-Unique key _ (pruned n d) kept) (put-Unique key _ (pruned n d) kept))

abbrev call_cost : Key → Call → Dict Key Bucket → ℕ
call_cost key c d = if lets_in key c d then one_token else 0

module _ (r : Rule) (who : String) (limited : 1 ≤ rate_of r)
    (enough : burst_of r * one_token ≤ bucket_idle * rate_of r) where
  abbrev credit_at : ℕ → Dict Key Bucket → ℕ
  credit_at n d = credit (settings r) n (get (r.path, who) d)

  own-credit :
      (n : ℕ) (d : Dict Key Bucket)
      → Unique d
      → UsedBy n (get (r.path, who) d)
      → (call_cost (r.path, who) (n, r, who) d + credit_at n (after_call (n, r, who) d)
          ≤ credit_at n d)
        × UsedBy n (get (r.path, who) (after_call (n, r, who) d))
  own-credit n d u used =
      let key : Key = (r.path, who) in
      let (same, used') = seen-credit r n enough key d used in
      let (b, is, answer, frame) = (consume-refines n r who d u).1 limited in
      let here : get key (after_call (n, r, who) d)
          ≡ some (take (burst_of r) (rate_of r) n (or_full (burst_of r) n (seen_at n key d))).0 =
        frame key ∙ rw (beq_refl key, is) refl in
      let lets : (endpoint_rate_consume n r who d).1
          ≡ is_allow
              (take (burst_of r) (rate_of r) n (or_full (burst_of r) n (seen_at n key d))).1 =
        answer ∙ rw is refl in
      rw (beq_refl key, lets, here)
        (
          omega (arith, same, take-credit r n (seen_at n key d) used'),
          omega (
            arith,
            take-last (burst_of r) (rate_of r) n (or_full (burst_of r) n (seen_at n key d)),
          ),
        )

  other-credit :
      (n : ℕ) (r' : Rule) (identity : String) (d : Dict Key Bucket)
      → Unique d
      → UsedBy n (get (r.path, who) d)
      → (◌==◌ {A = Key} (r'.path, identity) (r.path, who)) ≡ false
      → (credit_at n (after_call (n, r', identity) d) ≡ credit_at n d)
        × UsedBy n (get (r.path, who) (after_call (n, r', identity) d))
  other-credit n r' identity d u used apart =
      let key : Key = (r.path, who) in
      let (same, used') = seen-credit r n enough key d used in
      let refines = consume-refines n r' identity d u in
      elim (Bool-cases (rate_of r' =ℕ= 0)) [
        | inl off ↦
            let e = refines.0 (ground (arith, off)) in
            let d_same : after_call (n, r', identity) d ≡ d =
              ap (λ (x : Dict Key Bucket × Bool). x.0) e in
            rw d_same (refl, used)
        | inr on ↦
            let (b, is, answer, frame) = refines.1 (ground (arith, on)) in
            let e : get key (after_call (n, r', identity) d) ≡ seen_at n key d =
              frame key ∙ rw apart refl in
            rw e (same, used')
      ]

  granted-cons :
      (c : Call) (calls : List Call) (d : Dict Key Bucket)
      → granted (r.path, who) (c ∷ calls) d * one_token
        ≡ call_cost (r.path, who) c d + granted (r.path, who) calls (after_call c d) * one_token
  unfolding granted
  granted-cons c calls d = ground arith

  call-credit :
      (n : ℕ) (r' : Rule) (identity : String) (d : Dict Key Bucket)
      → Unique d
      → UsedBy n (get (r.path, who) d)
      → (r' ≡ r) ⊎ (r'.path ≢ r.path)
      → (call_cost (r.path, who) (n, r', identity) d + credit_at n (after_call (n, r', identity) d)
          ≤ credit_at n d)
        × UsedBy n (get (r.path, who) (after_call (n, r', identity) d))
  call-credit n r' identity d u used which =
      elim (Bool-cases (◌==◌ {A = Key} (r'.path, identity) (r.path, who))) [
        | inr apart ↦
            let (same, used') = other-credit n r' identity d u used apart in
            rw apart (omega (arith, same), used')
        | inl same ↦
            let e = eq_of_beq {A = Key} (r'.path, identity) (r.path, who) same in
            elim which [
              | inr ne ↦ absurd (ne (ap (λ (k : Key). k.0) e))
              | inl rule ↦
                  subst
                    (λ (x : Rule × String).
                      (call_cost (r.path, who) (n, x.0, x.1) d
                          + credit_at n (after_call (n, x.0, x.1) d)
                        ≤ credit_at n d)
                      × UsedBy n (get (r.path, who) (after_call (n, x.0, x.1) d)))
                    (sym (
                      let p : (r', identity) ≡ (r, who) =
                        ap (λ (x : Rule). (x, identity)) rule ∙ ap (λ (k : Key). (r, k.1)) e in
                      p))
                    (own-credit n d u used)
            ]
      ]

  Within-le : (start stop : ℕ) (calls : List Call) → Within r start stop calls → start ≤ stop
  Within-le start stop [] w = w
  Within-le start stop ((n, r', identity) ∷ calls) w = omega (arith, Within-le n stop calls w.2)

  granted-credit :
      (start stop : ℕ) (calls : List Call) (d : Dict Key Bucket)
      → Unique d
      → Within r start stop calls
      → UsedBy start (get (r.path, who) d)
      → granted (r.path, who) calls d * one_token ≤ credit_at start d + (stop - start) * rate_of r
  unfolding granted
  granted-credit start stop [] d u w used = omega arith
  granted-credit start stop ((n, r', identity) ∷ calls) d u (h, which, w) used =
      let (less, used_n) = credit-later (settings r) start n (get (r.path, who) d) h used in
      let (spent, used') = call-credit n r' identity d u used_n which in
      omega (
        arith,
        less,
        span start n stop (rate_of r) h (Within-le n stop calls w),
        spent,
        granted-cons (n, r', identity) calls d,
        granted-credit n stop calls (after_call (n, r', identity) d) (call-Unique n r' identity d u)
            w used',
      )

  -- Between two times, a rule with a rate lets one identity through at most as often as its burst size
  -- plus what its rate brings in that stretch, whatever other identities and rules with other globs
  -- are asked for, if an hour brings at least a burst and the bucket of the rule and the identity,
  -- where there is one, was not used after the start. (Counts are in millionths of a token.)
  pub granted_by_rule :
      (start stop : ℕ) (calls : List Call) (d : Dict Key Bucket)
      → Unique d
      → Within r start stop calls
      → UsedBy start (get (r.path, who) d)
      → granted (r.path, who) calls d * one_token
        ≤ burst_of r * one_token + (stop - start) * rate_of r
  granted_by_rule start stop calls d u w used = omega (
    arith,
    granted-credit start stop calls d u w used,
    credit-le-burst (settings r) start (get (r.path, who) d),
  )
