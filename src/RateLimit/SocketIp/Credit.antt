-- ===== src/RateLimit/SocketIp/Credit.antt =====
-- rate_limit.py: what the bucket of an address can still spend.
use native.Mathlib.Nat.{add-mul}
use anti_bot_gw.Common.{
  if◌then◌else◌, refl, ℕ, ◌+◌, ◌*◌, ◌-◌, ◌≤◌, min, ◌≡◌, arith, String, string_eq, Option, none,
  some, Option-cases, inl, inr, beq_refl, ap, ◌∙◌,
}
use anti_bot_gw.Common.Dict.{Dict, get}
use anti_bot_gw.Common.Dict.Laws.{get-put}
use anti_bot_gw.State.IpState.{one_token}
use anti_bot_gw.RateLimit.Bucket.{
  Bucket, Verdict, allow, deny, zero_division, is_allow, take, take-cost, take-capped, take-last,
  cost,
}
use anti_bot_gw.RateLimit.SocketIp.{Config, take_socket_ip_token}

-- The bucket of the address was last used at `start` at the latest.
abbrev pub UsedBy : ℕ → Option Bucket → Type 0
UsedBy start none = Unit
UsedBy start (some b) = b.last ≤ start

-- what the address can spend at `start`
abbrev pub credit : Config → ℕ → Option Bucket → ℕ
credit cfg start none = cfg.ip_burst * one_token
credit cfg start (some b) =
    min (cfg.ip_burst * one_token) (b.tokens + (start - b.last) * cfg.ip_refill)

pub span : (a b c r : ℕ) → a ≤ b → b ≤ c → (c - a) * r ≡ (c - b) * r + (b - a) * r
span a b c r h k =
    ap (λ (t : ℕ). t * r) (let e : c - a ≡ (c - b) + (b - a) = omega arith in e)
    ∙ add-mul (c - b) (b - a) r

-- What one call spends comes out of the credit, and the rest is the credit afterwards.
pub take-credit :
    (cfg : Config) (n : ℕ) (ip : String) (d : Dict String Bucket)
    → UsedBy n (get ip d)
    → (cost (take_socket_ip_token cfg n ip d).1
          + credit cfg n (get ip (take_socket_ip_token cfg n ip d).0)
        ≤ credit cfg n (get ip d))
      × UsedBy n (get ip (take_socket_ip_token cfg n ip d).0)
unfolding take_socket_ip_token
take-credit cfg n ip d used = elim (Option-cases (get ip d)) [
  | inl h ↦
      let b : Bucket = record { tokens = cfg.ip_burst * one_token; last = n } in
      ground (
        arith,
        h,
        beq_refl ip,
        get-put ip ip (take cfg.ip_burst cfg.ip_refill n b).0 d,
        take-cost cfg.ip_burst cfg.ip_refill n b,
        take-capped cfg.ip_burst cfg.ip_refill n b,
        take-last cfg.ip_burst cfg.ip_refill n b,
      )
  | inr (b, h) ↦ ground (
    arith,
    h,
    beq_refl ip,
    get-put ip ip (take cfg.ip_burst cfg.ip_refill n b).0 d,
    take-cost cfg.ip_burst cfg.ip_refill n b,
    take-capped cfg.ip_burst cfg.ip_refill n b,
    take-last cfg.ip_burst cfg.ip_refill n b,
  )
]

pub credit-later :
    (cfg : Config) (start n : ℕ) (o : Option Bucket)
    → start ≤ n
    → UsedBy start o
    → (credit cfg n o ≤ credit cfg start o + (n - start) * cfg.ip_refill) × UsedBy n o
credit-later cfg start n none h used = (omega arith, tt)
credit-later cfg start n (some b) h used =
    (omega (arith, span b.last start n cfg.ip_refill used h), omega arith)

pub cost-allow : (v : Verdict) → (if is_allow v then one_token else 0) ≡ cost v
cost-allow allow = refl
cost-allow zero_division = refl
cost-allow (deny w) = refl

pub credit-le-burst :
    (cfg : Config) (start : ℕ) (o : Option Bucket) → credit cfg start o ≤ cfg.ip_burst * one_token
credit-le-burst cfg start none = omega arith
credit-le-burst cfg start (some b) = omega arith
