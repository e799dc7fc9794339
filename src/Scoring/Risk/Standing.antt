-- ===== src/Scoring/Risk/Standing.antt =====
-- scoring.py: a ban over what comes after it. Hits of any identity (update_risk_and_maybe_ban), looks
-- for bans (is_banned) and takes of tokens (rate_limit.py, take_token) run in any order.
use anti_bot_gw.Common.{ℕ, ◌+◌, ◌<◌, Bool, true, String, string_eq, some, ◌≡◌, arith}
use anti_bot_gw.State.IpState.{IpState}
use anti_bot_gw.State.Table.{Table, IsValid}
use anti_bot_gw.RateLimit.Identity.{Taken, charge, take_token}
use anti_bot_gw.Scoring.Ban.{Store, is_banned}
use anti_bot_gw.Scoring.Risk.{Config, Request, ban_secs, update_risk_and_maybe_ban}
use anti_bot_gw.Scoring.Risk.Decision.{is_banned-local}
use anti_bot_gw.Scoring.Risk.Lasts.{
  Spares, Lasts, with_state-Lasts, asks-Lasts, hits-Lasts, imposed, charge-bans,
}

-- What happens between a hit and a look for the ban of `key`.
pub data Step (key : String) : Store → Store → Type 0 where
  hits :
      (cfg : Config) (req : Request) (fresh : IpState) (other reason ip : String) (st st' : Store)
      (hit : Bool)
      → Spares key other st
      → update_risk_and_maybe_ban cfg req fresh other reason ip st ≡ some (st', hit)
      → Step key st st'
  asks :
      (fresh : IpState) (scope : String × String) (now wall shared : ℕ) (other : String)
      (st st' : Store) (banned : Bool) (left : ℕ)
      → Spares key other st
      → is_banned fresh scope now wall shared other st ≡ some (st', banned, left)
      → Step key st st'
  takes :
      (burst rate n : ℕ) (fresh : IpState) (other : String) (st : Store) (t : Table IpState)
      (r : Taken)
      → Spares key other st
      → take_token burst rate fresh n other st.ip_state ≡ some (t, r)
      → Step key st (record st { ip_state = t })

pub data Reach (key : String) (st : Store) : Store → Type 0 where
  here : Reach key st st
  next : {u v : Store} → Reach key st u → Step key u v → Reach key st v

Step-Lasts :
    {key : String} {st st' : Store}
    → (scope : String × String) (until : ℕ) → Step key st st'
    → Lasts scope until key st.ip_state
    → Lasts scope until key st'.ip_state
unfolding take_token
Step-Lasts {key = key} scope until (hits cfg req fresh other reason ip st st' hit spares e) lasts =
    hits-Lasts scope until key other reason ip cfg req fresh st st' hit spares e lasts
Step-Lasts {key = key} scope until (asks fresh own now wall shared other st st' b left spares e)
      lasts =
    asks-Lasts scope own until now wall shared left key other fresh st st' b spares e lasts
Step-Lasts {key = key} scope until (takes burst rate n fresh other st t r spares e) lasts =
    with_state-Lasts scope until key other fresh (charge burst rate n) st.ip_state t r
      (λ s. omega (arith, charge-bans burst rate n s scope)) spares e lasts

Reach-Lasts :
    {key : String} {st st' : Store}
    → (scope : String × String) (until : ℕ) → Reach key st st'
    → Lasts scope until key st.ip_state
    → Lasts scope until key st'.ip_state
Reach-Lasts scope until here lasts = lasts
Reach-Lasts scope until (next r step) lasts =
    Step-Lasts scope until step (Reach-Lasts scope until r lasts)

-- A ban that a hit imposes, on a valid table, stands until its duration, which the reason decides, is
-- over: after any further hits, looks for bans and takes of tokens, of this identity or others, in
-- any scopes, in which a full table does not give up the identity's record, a look for a ban in the
-- scope of the hit finds the identity banned, whatever the shared store says. (The prune and the
-- eviction of idle records, which may drop the record, are not among these operations.)
pub banned_after_hit :
    (cfg : Config) (req : Request) (fresh newer : IpState) (key reason ip : String)
    (st st₁ st₂ : Store) (now wall shared : ℕ)
    → IsValid st.ip_state
    → update_risk_and_maybe_ban cfg req fresh key reason ip st ≡ some (st₁, true)
    → Reach key st₁ st₂
    → now < req.now + ban_secs cfg reason
    → (st₃ : Store) × (left : ℕ) × (is_banned newer req.scope now wall shared key st₂
        ≡ some (st₃, true, left))
      × (0 < left)
banned_after_hit cfg req fresh newer key reason ip st st₁ st₂ now wall shared valid e r soon =
    let until = req.now + ban_secs cfg reason in
    let (v, s, there, ends) =
      Reach-Lasts req.scope until r (imposed cfg req fresh key reason ip st st₁ valid e) in
    is_banned-local newer req.scope now wall shared key st₂ s v there (omega (arith, ends, soon))
