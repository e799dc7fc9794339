-- ===== src/Detection/Travel.antt =====
-- detection/impossible_travel.py. Times are in milliseconds. The lookup of an address in the city
-- database is a parameter: its country, or `none` where there is no database, no entry, no country
-- or an error.
use mathlib.Core.Path.{subst}
use anti_bot_gw.Common.{
  ◌≢◌, ◌↔◌, ℕ, ◌+◌, ◌<◌, Bool, true, false, ltb, ◌=ℕ=◌, if◌then◌else◌, ◌≡◌, refl, arith, ◌&&◌, not,
  String, string_eq, Option, none, some, [], ◌∷◌, ◌==◌, Option-cases, inl, inr,
}
use anti_bot_gw.State.IpState.{IpState}
use anti_bot_gw.Challenge.Decimal.{Text}
use anti_bot_gw.Challenge.Pow.RoundTrip.{IsHex}
use anti_bot_gw.Identity.{Crypto, Identity, verify_session, get_identity, session_key, anon_key}
use anti_bot_gw.Identity.RoundTrip.{take-IsHex}

-- IMPOSSIBLE_TRAVEL_ENABLED and IMPOSSIBLE_TRAVEL_WINDOW_SECS
pub record Config : Type 0 where
  pub enabled : Bool
  pub window : ℕ

unfoldable pub starts_with : Text → Text → Bool
starts_with [] s = true
starts_with (c ∷ p) [] = false
starts_with (c ∷ p) (d ∷ s) = let rest = starts_with p s in c =ℕ= d && rest

-- "session:"
abbrev pub session_prefix : Text
session_prefix = b's' ∷ b'e' ∷ b's' ∷ b's' ∷ b'i' ∷ b'o' ∷ b'n' ∷ b':' ∷ []

-- the locked part and the test after it, on the identity's record
unfoldable pub observe_country : Config → ℕ → String → IpState → IpState × Bool
observe_country cfg now country s = (
  record s { last_country = country; last_country_ts = now },
  not (s.last_country == "")
      && not (s.last_country == country)
      && ltb s.last_country_ts now
      && ltb now (s.last_country_ts + cfg.window),
)

-- `impossible_travel_check`: the record and whether it fires
unfoldable pub impossible_travel_check :
    Config → Text → Option String → ℕ → IpState → IpState × Bool
unfolding starts_with observe_country
impossible_travel_check cfg track_key lookup now s =
    if not cfg.enabled
    then (s, false)
    else if not (starts_with session_prefix track_key)
    then (s, false)
    else elim lookup [
      | none ↦ (s, false)
      | some country ↦ if country == "" then (s, false) else observe_country cfg now country s
    ]

hex-prefix : (s : Text) → IsHex s → starts_with session_prefix s ≡ false
unfolding starts_with
hex-prefix [] h = refl
hex-prefix (c ∷ s) (inl h, hs) = ground (arith, h)
hex-prefix (c ∷ s) (inr h, hs) = ground (arith, h)

identity-IsHex :
    (crypto : Crypto) (cookie fp ip new_sid : Text) (i : Identity)
    → ((m : Text) → IsHex (crypto.hmac m))
    → get_identity crypto cookie fp ip new_sid ≡ some i
    → IsHex i.identity
unfolding get_identity
identity-IsHex crypto cookie fp ip new_sid i hex h =
    elim (Option-cases (verify_session crypto cookie)) [
      | inl e ↦ absurd (ground (arith, e, h))
      | inr (none, e) ↦
          subst (λ (x : Text). IsHex x) (ground (arith, e, h))
            (take-IsHex 16 (crypto.hmac (anon_key fp ip)) (hex (anon_key fp ip)))
      | inr (some sid, e) ↦
          subst (λ (x : Text). IsHex x) (ground (arith, e, h))
            (take-IsHex 16 (crypto.hmac (session_key sid fp)) (hex (session_key sid fp)))
    ]

-- The detector never fires on an identity of the gateway: whatever the cookie, the countries and the
-- times, its key is a piece of a hexadecimal digest and so does not begin with "session:", and the
-- record is left as it was.
pub travel-never :
    (crypto : Crypto) (cookie fp ip new_sid : Text) (i : Identity) (cfg : Config)
    (lookup : Option String) (now : ℕ) (s : IpState)
    → ((m : Text) → IsHex (crypto.hmac m))
    → get_identity crypto cookie fp ip new_sid ≡ some i
    → impossible_travel_check cfg i.identity lookup now s ≡ (s, false)
unfolding impossible_travel_check
travel-never crypto cookie fp ip new_sid i cfg lookup now s hex h =
    ground (arith, hex-prefix i.identity (identity-IsHex crypto cookie fp ip new_sid i hex h))

-- Enabled and on a session key, the detector remembers the country and the time of each request
-- that has one, and fires exactly if the country before was another one and was seen less than the
-- window ago, at an earlier time.
pub travel_fires :
    (cfg : Config) (key : Text) (country : String) (now : ℕ) (s : IpState)
    → cfg.enabled ≡ true
    → starts_with session_prefix key ≡ true
    → country ≢ ""
    → ((impossible_travel_check cfg key (some country) now s).0.last_country ≡ country)
      × ((impossible_travel_check cfg key (some country) now s).0.last_country_ts ≡ now)
      × (((impossible_travel_check cfg key (some country) now s).1 ≡ true) ↔ (
          (s.last_country ≢ "")
          × (s.last_country ≢ country)
          × (s.last_country_ts < now)
          × (now < s.last_country_ts + cfg.window)))
unfolding impossible_travel_check
travel_fires cfg key country now s on session given = (
  ground (arith, on, session, string_eq.beq_iff country ""),
  ground (arith, on, session, string_eq.beq_iff country ""),
  (
    λ h. (
      λ p. ground (
        arith,
        on,
        session,
        h,
        p,
        string_eq.beq_iff country "",
        string_eq.beq_iff s.last_country "",
      ),
      λ p. ground (
        arith,
        on,
        session,
        h,
        p,
        string_eq.beq_iff country "",
        string_eq.beq_iff s.last_country country,
      ),
      ground (arith, on, session, h, string_eq.beq_iff country ""),
      ground (arith, on, session, h, string_eq.beq_iff country ""),
    ),
    λ (a, b, c, d). ground (
      arith,
      on,
      session,
      a,
      b,
      c,
      d,
      string_eq.beq_iff country "",
      string_eq.beq_iff s.last_country "",
      string_eq.beq_iff s.last_country country,
    ),
  ),
)
