-- ===== src/Admin/Auth/Idle.antt =====
-- A session stays signed in while it is used.
use anti_bot_gw.Common.{
  ℕ, ◌+◌, ◌<◌, true, false, ltb, if◌then◌else◌, ◌&&◌, Option, none, some, [], ◌∷◌, nat_eq, list_eq,
  ◌≡◌, refl, arith, Bool-cases, inl, inr,
}
use anti_bot_gw.Common.Dict.{get, put}
use anti_bot_gw.Challenge.Decimal.{Text}
use anti_bot_gw.Challenge.Pow.{is_nil}
use anti_bot_gw.Admin.Store.{Session, Store}
use anti_bot_gw.Admin.Token.{Crypto, Parsed, session_parse, sid_re, chomp, sid_shape, every}
use anti_bot_gw.Admin.Token.RoundTrip.{session_parse_sound}
use anti_bot_gw.Admin.Sessions.{
  cached_ok, session_verify, verify_parsed, session_touch, session_revoke, system,
}
use anti_bot_gw.Admin.Auth.{is_idle, internal_authed}

sid_nonempty : (s : Text) → sid_re s ≡ true → is_nil s ≡ false
unfolding sid_re chomp sid_shape every
sid_nonempty [] h = absurd (ground (arith, h))
sid_nonempty (c ∷ s) h = refl

-- the mark of the request that is signed in
abbrev marked : ℕ → Text → Store → Store
marked now user s = record s { active_sessions = put user now s.active_sessions }

module _ (crypto : Crypto) (idle now : ℕ) (cookie : Text) (s : Store) (p : Parsed) (c : Session)
    (reads : session_parse crypto now cookie ≡ some p) (found : get p.sid s.cache ≡ some c) where
  verified :
      session_verify crypto now s cookie
      ≡ (if cached_ok now p.username c then some p.username else none)
  unfolding session_verify
  verified = rw (reads, verify_parsed, found) refl

  has_sid : is_nil p.sid ≡ false
  has_sid =
      let (expiry, sig, e, token_is, reads_as, same, fresh, name, id, signed) =
        session_parse_sound crypto now cookie p reads in
      sid_nonempty p.sid id

  pub authed_lem :
      is_nil cookie ≡ false
      → internal_authed crypto idle now cookie s ≡ (
          if cached_ok now p.username c
          then (if is_nil p.username
              then (s, none)
              else (if ltb 0 idle && is_idle idle now c
                  then ((session_revoke now p.sid system s).0, none)
                  else (
                    session_touch now p.sid (marked now p.username s),
                    some (p.username, p.sid),
                  )))
          else (s, none))
  unfolding internal_authed
  authed_lem given = elim (Bool-cases (cached_ok now p.username c)) [
    | inl good ↦ rw (given, verified, reads, good, has_sid, found) refl
    | inr bad ↦ rw (given, verified, bad) refl
  ]

-- The entry is the same session, and was touched less than half a minute before.
abbrev Touched : ℕ → Session → Option Session → Type 0
Touched now c o = (t : ℕ) × (o ≡ some (record c { last_touch = some t })) × (now < t + 30_000)
