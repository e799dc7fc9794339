-- ===== src/Admin/Sessions/Revocation.antt =====
-- What a revocation does to the verdicts on tokens.
use anti_bot_gw.Common.{
  ℕ, ◌<◌, Bool, true, false, if◌then◌else◌, ◌&&◌, Option, none, some, List, [], ◌∷◌, ◌==◌, nat_eq,
  list_eq, ◌≡◌, refl, arith, ◌∙◌, Option-cases, inl, inr, list_beq_iff,
}
use anti_bot_gw.Common.Dict.{Dict, get, mem, Unique}
use anti_bot_gw.Common.Dict.Laws.{get-put, mem-keys_where}
use anti_bot_gw.Challenge.Decimal.{Text}
use anti_bot_gw.Challenge.Pow.{is_nil}
use anti_bot_gw.Admin.Store.{Session, Store, Write, put_or_drop, put_nowait, push}
use anti_bot_gw.Admin.Token.{Crypto, Parsed, session_parse}
use anti_bot_gw.Admin.Sessions.{
  cached_ok, verify_at, verify_parsed, session_verify, revoke_at, session_revoke, revoke_all,
  is_live, other_than, sessions_of, revoke_user_sessions, system,
}

-- a write leaves the cache
pub cache-put_or_drop : (w : Write) (s : Store) → (put_or_drop w s).cache ≡ s.cache
unfolding put_or_drop
cache-put_or_drop w s = elim (Option-cases (push w s.queue)) [
  | inl e ↦ rw (put_or_drop, put_nowait, e) refl
  | inr (q, e) ↦ rw (put_or_drop, put_nowait, e) refl
]

pub ready-put_or_drop : (w : Write) (s : Store) → (put_or_drop w s).ready ≡ s.ready
unfolding put_or_drop
ready-put_or_drop w s = elim (Option-cases (push w s.queue)) [
  | inl e ↦ rw (put_or_drop, put_nowait, e) refl
  | inr (q, e) ↦ rw (put_or_drop, put_nowait, e) refl
]

abbrev pub revoked_entry : Option Session → Option Session
revoked_entry none = none
revoked_entry (some c) = some (record c { revoked = true })

revoke_at-get :
    (now : ℕ) (sid by j : Text) (s : Store) (o : Option Session)
    → get sid s.cache ≡ o
    → get j (revoke_at now sid by o s).0.cache
      ≡ (if sid == j then revoked_entry o else get j s.cache)
revoke_at-get now sid by j s none h = ground (arith, h, list_beq_iff sid j)
revoke_at-get now sid by j s (some c) h = rw (cache-put_or_drop) (get-put sid j _ s.cache)

pub get-revoke :
    (now : ℕ) (sid by j : Text) (s : Store)
    → get j (session_revoke now sid by s).0.cache
      ≡ (if sid == j then revoked_entry (get j s.cache) else get j s.cache)
unfolding session_revoke
get-revoke now sid by j s =
    revoke_at-get now sid by j s (get sid s.cache) refl ∙ ground (arith, list_beq_iff sid j)

revoke_at-ready :
    (now : ℕ) (sid by : Text) (s : Store) (o : Option Session)
    → (revoke_at now sid by o s).0.ready ≡ s.ready
revoke_at-ready now sid by s none = refl
revoke_at-ready now sid by s (some c) = ready-put_or_drop _ _

pub ready-revoke :
    (now : ℕ) (sid by : Text) (s : Store) → (session_revoke now sid by s).0.ready ≡ s.ready
unfolding session_revoke
ready-revoke now sid by s = revoke_at-ready now sid by s (get sid s.cache)

revoked_entry_twice : (o : Option Session) → revoked_entry (revoked_entry o) ≡ revoked_entry o
revoked_entry_twice none = refl
revoked_entry_twice (some c) = refl

pub get-revoke_all :
    (now : ℕ) (by : Text) (sids : List Text) (j : Text) (s : Store)
    → get j (revoke_all now by sids s).cache
      ≡ (if mem j sids then revoked_entry (get j s.cache) else get j s.cache)
unfolding revoke_all mem
get-revoke_all now by [] j s = refl
get-revoke_all now by (sid ∷ sids) j s = ground (
  arith,
  get-revoke_all now by sids j (session_revoke now sid by s).0,
  get-revoke now sid by j s,
  revoked_entry_twice (get j s.cache),
)

pub ready-revoke_all :
    (now : ℕ) (by : Text) (sids : List Text) (s : Store)
    → (revoke_all now by sids s).ready ≡ s.ready
unfolding revoke_all
ready-revoke_all now by [] s = refl
ready-revoke_all now by (sid ∷ sids) s = ready-revoke_all now by sids _ ∙ ready-revoke now sid by s

mem-sessions_of :
    (now : ℕ) (username : Text) (except : Option Text) (j : Text) (d : Dict Text Session)
    → Unique d
    → mem j (sessions_of now username except d)
      ≡ elim (get j d) [ none ↦ false | some c ↦ is_live now username c && other_than except j ]
unfolding sessions_of
mem-sessions_of now username except j d u = mem-keys_where _ j d u

-- the verdict on an entry, before and after its user's live sessions are revoked
verdict_after :
    (now later : ℕ) (username asked : Text) (goes : Bool) (ready : Bool) (o : Option Session)
    → now < later
    → ready ≡ true
    → verify_at later ready asked (
        if elim o [ none ↦ false | some c ↦ is_live now username c && goes ]
        then revoked_entry o
        else o)
      ≡ (if asked == username && goes then none else verify_at later ready asked o)
unfolding is_live cached_ok
verdict_after now later username asked goes ready none h r = ground (arith, r)
verdict_after now later username asked goes ready (some c) h r = ground (
  arith,
  h,
  list_beq_iff c.username username,
  list_beq_iff c.username asked,
  list_beq_iff asked username,
)

-- Once a user's sessions are revoked (and the cache has been loaded), every later request with a
-- token of that user is refused, unless its session is the excepted one; the verdict on every other
-- token is what it would have been.
pub revoke_user_sessions_lem :
    (crypto : Crypto) (now later : ℕ) (username by : Text) (except : Option Text) (s : Store)
    (token : Text) (p : Parsed)
    → Unique s.cache
    → s.ready ≡ true
    → now < later
    → session_parse crypto later token ≡ some p
    → session_verify crypto later (revoke_user_sessions now username by except s).0 token ≡ (
        if p.username == username && other_than except p.sid
        then none
        else session_verify crypto later s token)
unfolding session_verify revoke_user_sessions
revoke_user_sessions_lem crypto now later username by except s token p u r h e =
    let who = if is_nil by then system else by in
    let sids = sessions_of now username except s.cache in
    rw
      (
        e,
        verify_parsed,
        get-revoke_all now who sids p.sid s,
        ready-revoke_all now who sids s,
        mem-sessions_of now username except p.sid s.cache u,
        verdict_after now later username p.username (other_than except p.sid) s.ready
            (get p.sid s.cache) h r,
      )
      refl
