-- ===== src/RateLimit/Prune/Identities.antt =====
-- Steps 1, 2, 2b and 4c: idle identities, the cap on identities, and the index from addresses to
-- identities. A `KeyError` is `none`.
pub mod Drop
pub mod Safe
pub mod Cap
use anti_bot_gw.Common.{
  ℕ, ◌+◌, ◌-◌, Bool, true, false, ltb, leb, if◌then◌else◌, not, ◌&&◌, Option, none, some, List, [],
  ◌∷◌, length, take, String, string_eq, ◌==◌, map,
}
use anti_bot_gw.Common.Dict.{Dict, get, put, keys_where, evict}
use anti_bot_gw.Common.Sort.{sorted}
use anti_bot_gw.Common.Sort.Keyed.{firsts}
use anti_bot_gw.State.IpState.{IpState}
use anti_bot_gw.State.Table.{Table, getitem, delitem, ◌>>=◌}

pub record Config : Type 0 where
  pub max_identities : ℕ
  pub prune_idle : ℕ

pub record Identities : Type 0 where
  pub ip_state : Table IpState
  pub ip_to_identities : Dict String (List String)

-- `set.discard`
unfoldable pub discard : String → List String → List String
discard k [] = []
discard k (j ∷ ks) = let rest = discard k ks in if j == k then rest else j ∷ rest

-- a lookup in a `defaultdict(set)`
abbrev pub members_of : String → Dict String (List String) → List String
members_of ip index = elim (get ip index) [ none ↦ [] | some ks ↦ ks ]

-- `if old_ip: ip_to_identities[old_ip].discard(k)`
unfoldable pub unlist : String → String → Dict String (List String) → Dict String (List String)
unlist k old_ip index =
    if old_ip == "" then index else put old_ip (discard k (members_of old_ip index)) index

-- the body of the two deletion loops
unfoldable pub drop_identity : IpState → String → Identities → Option Identities
drop_identity fresh k st = do
  (t, s) ← getitem k fresh st.ip_state
  t' ← delitem k t
  some (record { ip_state = t'; ip_to_identities = unlist k s.last_ip st.ip_to_identities })

unfoldable pub drop_identities : IpState → List String → Identities → Option Identities
drop_identities fresh [] st = some st
drop_identities fresh (k ∷ ks) st = do st' ← drop_identity fresh k st; drop_identities fresh ks st'

unfoldable pub is_idle : Config → ℕ → String → IpState → Bool
is_idle cfg now k s = leb s.banned_until now && ltb (s.last_seen + cfg.prune_idle) now

-- `(k, s.last_seen)` of the identities that are not banned
unfoldable pub candidates : ℕ → Dict String IpState → List (String × ℕ)
candidates now [] = []
candidates now ((k, s) ∷ d) =
    let rest = candidates now d in if leb s.banned_until now then (k, s.last_seen) ∷ rest else rest

unfoldable pub oldest : ℕ → ℕ → Dict String IpState → List String
oldest overflow now d = firsts (take overflow (sorted (λ p. p.1) (candidates now d)))

unfoldable pub cap_identities : Config → IpState → ℕ → Identities → Option Identities
cap_identities cfg fresh now st =
    let n = length st.ip_state.entries in
    if ltb cfg.max_identities n
    then drop_identities fresh (oldest (n - cfg.max_identities) now st.ip_state.entries) st
    else some st

is_empty : String → List String → Bool
is_empty ip [] = true
is_empty ip (k ∷ ks) = false

unfoldable pub prune_identities : Config → IpState → ℕ → Identities → Option Identities
unfolding is_empty
prune_identities cfg fresh now st = do
  st₁ ← drop_identities fresh (keys_where (is_idle cfg now) st.ip_state.entries) st
  st₂ ← cap_identities cfg fresh now st₁
  some (record st₂ { ip_to_identities = evict is_empty st₂.ip_to_identities })

-- step 4c: an hour without a request, in milliseconds
unfoldable pub reset_if_idle : ℕ → IpState → IpState
reset_if_idle now s =
    if leb s.banned_until now && ltb (s.last_seen + 3_600_000) now
    then record s { cookie_ghost_misses = 0; unique_paths = [] }
    else s

unfoldable pub reset_idle : ℕ → Dict String IpState → Dict String IpState
reset_idle now [] = []
reset_idle now ((k, s) ∷ d) = (k, reset_if_idle now s) ∷ reset_idle now d
