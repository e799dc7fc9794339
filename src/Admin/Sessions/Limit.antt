-- ===== src/Admin/Sessions/Limit.antt =====
-- How many live sessions a user can have.
use anti_bot_gw.Common.{
  ℕ, suc, ◌+◌, ◌*◌, ◌-◌, ◌≤◌, min, Bool, true, false, leb, Option, none, some, List, [], ◌∷◌,
  length, take, filter, String, nat_eq, list_eq, ◌≡◌, refl, arith, sym, ◌∙◌, Bool-cases, inl, inr,
  list_beq_iff, beq_refl, length-take, leb→le, leb-false→lt,
}
use anti_bot_gw.Common.Dict.{Dict, get, member, mem, Unique}
use anti_bot_gw.Common.Dict.Laws.{put-Unique}
use anti_bot_gw.Common.Dict.Count.{count_values, count_values-put}
use anti_bot_gw.Common.Sort.{length-sorted}
use anti_bot_gw.Common.Sort.Keyed.{
  firsts, Distinct, Distinct-sorted, Distinct-take, length-firsts, mem-firsts-sorted,
  mem-firsts-take,
}
use anti_bot_gw.Challenge.Decimal.{Text}
use anti_bot_gw.Admin.Store.{Session, Store}
use anti_bot_gw.Admin.Token.{Crypto, session_ttl}
use anti_bot_gw.Admin.Sessions.{
  session_create, revoke_at, session_revoke, revoke_all, system, enforce_session_limit, active_of,
  oldest_excess, is_live,
}
use anti_bot_gw.Admin.Sessions.Revocation.{cache-put_or_drop, get-revoke}

-- the number of a user's live sessions
unfoldable pub live_count : ℕ → Text → Dict Text Session → ℕ
live_count now username = count_values (is_live now username)

live_count-active :
    (now : ℕ) (username : Text) (d : Dict Text Session)
    → length (active_of now username d) ≡ live_count now username d
unfolding active_of live_count count_values
live_count-active now username d = length-sorted _ _

module _ (now : ℕ) (username : Text) where
  live_at : Option Session → Bool
  live_at none = false
  live_at (some c) = is_live now username c

  revoke_at-live :
      (t : ℕ) (sid by : Text) (s : Store) (o : Option Session)
      → get sid s.cache ≡ o
      → Unique s.cache
      → live_at o ≡ true
      → (suc (live_count now username (revoke_at t sid by o s).0.cache)
          ≡ live_count now username s.cache)
        × Unique (revoke_at t sid by o s).0.cache
  unfolding live_at live_count is_live
  revoke_at-live t sid by s none e u h = absurd (ground (arith, h))
  revoke_at-live t sid by s (some c) e u h = rw (cache-put_or_drop) (
    ground (
      arith,
      h,
      e,
      count_values-put (is_live now username) sid (record c { revoked = true }) s.cache,
    ),
    put-Unique sid _ s.cache u,
  )

  -- Every id of the list is of a live session.
  abbrev AllLive : List Text → Dict Text Session → Type 0
  AllLive [] d = Unit
  AllLive (sid ∷ sids) d = (live_at (get sid d) ≡ true) × AllLive sids d

  AllLive-revoke :
      (t : ℕ) (sid by : Text) (s : Store) (sids : List Text)
      → mem sid sids ≡ false
      → AllLive sids s.cache
      → AllLive sids (session_revoke t sid by s).0.cache
  unfolding mem
  AllLive-revoke t sid by s [] out a = tt
  AllLive-revoke t sid by s (j ∷ js) out a = (
    ground (arith, a.0, out, get-revoke t sid by j s, list_beq_iff sid j, list_beq_iff j sid),
    AllLive-revoke t sid by s js (ground (arith, out)) a.1,
  )

  live_count-revoke_all :
      (t : ℕ) (by : Text) (sids : List Text) (s : Store)
      → Unique s.cache
      → Distinct sids
      → AllLive sids s.cache
      → live_count now username (revoke_all t by sids s).cache + length sids
        ≡ live_count now username s.cache
  unfolding revoke_all session_revoke
  live_count-revoke_all t by [] s u d a = omega arith
  live_count-revoke_all t by (sid ∷ sids) s u d a =
      let (less, kept) = revoke_at-live t sid by s (get sid s.cache) refl u a.0 in
      omega (
        arith,
        less,
        live_count-revoke_all t by sids (session_revoke t sid by s).0 kept d.1
            (AllLive-revoke t sid by s sids d.0 a.1),
      )

  mem-firsts-filter :
      (p : Text × Session → Bool) (j : Text) (d : Dict Text Session)
      → get j d ≡ none
      → mem j (firsts (filter p d)) ≡ false
  unfolding mem filter get
  mem-firsts-filter p j [] h = refl
  mem-firsts-filter p j ((i, c) ∷ d) h = ground (arith, mem-firsts-filter p j d, h)

  Distinct-filter :
      (p : Text × Session → Bool) (d : Dict Text Session)
      → Unique d
      → Distinct (firsts (filter p d))
  unfolding filter
  Distinct-filter p [] u = tt
  Distinct-filter p ((i, c) ∷ d) u = elim (Bool-cases (p (i, c))) [
    | inl kept ↦ rw kept (mem-firsts-filter p i d u.0, Distinct-filter p d u.1)
    | inr out ↦ rw out (Distinct-filter p d u.1)
  ]

  mem_live :
      (j : Text) (d : Dict Text Session)
      → Unique d
      → mem j (firsts (filter (λ q. is_live now username q.1) d)) ≡ true
      → live_at (get j d) ≡ true
  unfolding mem filter get live_at
  mem_live j [] u h = absurd (ground (arith, h))
  mem_live j ((i, c) ∷ d) u h = ground (
    arith,
    h,
    list_beq_iff i j,
    mem_live j d u.1,
    mem-firsts-filter (λ q. is_live now username q.1) i d u.0,
  )

  all_live :
      (d : Dict Text Session) (sids : List Text)
      → ((j : Text) → mem j sids ≡ true → live_at (get j d) ≡ true)
      → AllLive sids d
  unfolding mem
  all_live d [] h = tt
  all_live d (sid ∷ sids) h = (
    h sid (ground (arith, list_beq_iff sid sid)),
    all_live d sids (λ j m. h j (ground (arith, m))),
  )

  excess_live :
      (n : ℕ) (j : Text) (d : Dict Text Session)
      → Unique d
      → mem j (firsts (take n (active_of now username d))) ≡ true
      → live_at (get j d) ≡ true
  unfolding active_of
  excess_live n j d u h = elim (Bool-cases (mem j (firsts (active_of now username d)))) [
    | inl m ↦ mem_live j d u (sym (mem-firsts-sorted _ j _) ∙ m)
    | inr m ↦ absurd (ground (arith, h, mem-firsts-take j n (active_of now username d) m))
  ]

  active-Distinct :
      (d : Dict Text Session) → Unique d → Distinct (firsts (active_of now username d))
  unfolding active_of
  active-Distinct d u = Distinct-sorted _ _ (Distinct-filter _ d u)

  revoke_excess :
      (max_sess : ℕ) (s : Store)
      → Unique s.cache
      → max_sess ≤ live_count now username s.cache
      → live_count now username
          (revoke_all now system (oldest_excess max_sess (active_of now username s.cache)) s).cache
        ≡ max_sess - 1
  revoke_excess max_sess s u h =
      let active = active_of now username s.cache in
      let n = length active - max_sess + 1 in
      let gone = oldest_excess max_sess active in
      omega (
        arith,
        h,
        live_count-active now username s.cache,
        length-firsts (take n active),
        length-take n active,
        live_count-revoke_all now system gone s u
            (Distinct-take n active (active-Distinct s.cache u))
            (all_live s.cache gone (λ j m. excess_live n j s.cache u m)),
      )

  -- After the limit is enforced, a user's live sessions are as many as before, or one less than the
  -- limit where that is less, so that the login that follows has room.
  pub enforce_session_limit_lem :
      (max_sess : ℕ) (s : Store)
      → Unique s.cache
      → live_count now username (enforce_session_limit max_sess now username s).cache
        ≡ min (live_count now username s.cache) (max_sess - 1)
  unfolding enforce_session_limit
  enforce_session_limit_lem max_sess s u =
      let count = live_count-active now username s.cache in
      elim (Bool-cases (leb max_sess (length (active_of now username s.cache)))) [
        | inl over ↦
            let h = leb→le _ _ over in
            rw over (revoke_excess max_sess s u (omega (arith, count, h)) ∙ omega (arith, count, h))
        | inr under ↦ let h = leb-false→lt _ _ under in rw under (omega (arith, count, h))
      ]

  -- a login's new session
  pub create-live_count :
      (crypto : Crypto) (sid : Text) (ip : String) (ua : Text) (s : Store)
      → member sid s.cache ≡ false
      → live_count now username (session_create crypto now sid username ip ua s).0.cache
        ≡ suc (live_count now username s.cache)
  unfolding session_create live_count is_live
  create-live_count crypto sid ip ua s fresh = rw (cache-put_or_drop) (
      ground (
        arith,
        fresh,
        beq_refl username,
        count_values-put (is_live now username) sid
            (record {
              username = username;
              expires_ts = now + 1000 * session_ttl;
              revoked = false;
              last_touch = none;
            })
            s.cache,
      ))
