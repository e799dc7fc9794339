-- ===== src/Admin/Sessions/Final.antt =====
-- The operations on the cache as a step relation, and what no sequence of them undoes.
use anti_bot_gw.Common.{
  ℕ, ◌+◌, Bool, true, false, ltb, leb, if◌then◌else◌, Option, none, some, List, length, String,
  nat_eq, list_eq, ◌≡◌, refl, arith, ◌∙◌, Bool-cases, inl, inr, list_beq_iff,
}
use anti_bot_gw.Common.Dict.{get, member}
use anti_bot_gw.Common.Dict.Laws.{get-put}
use anti_bot_gw.Challenge.Decimal.{Text}
use anti_bot_gw.Challenge.Pow.{is_nil}
use anti_bot_gw.Admin.Store.{Session, Store, Write, put_or_drop}
use anti_bot_gw.Admin.Token.{Crypto, Parsed, session_parse}
use anti_bot_gw.Admin.Sessions.{
  cached_ok, verify_at, verify_parsed, session_verify, set_session, session_create, session_revoke,
  revoke_all, revoke_user_sessions, session_touch, touch_at, system, enforce_session_limit,
  active_of, sessions_of, oldest_excess,
}
use anti_bot_gw.Admin.Sessions.Revocation.{
  cache-put_or_drop, ready-put_or_drop, get-revoke, get-revoke_all, ready-revoke, ready-revoke_all,
  revoked_entry,
}

-- What the handlers do to the state; a new session's id is one that the cache does not have, which
-- sixteen random bytes make sure of.
pub data Step : Store → Store → Type 0 where
  creates :
      (crypto : Crypto) (now : ℕ) (sid username : Text) (ip : String) (ua : Text) (s : Store)
      → member sid s.cache ≡ false
      → Step s (session_create crypto now sid username ip ua s).0
  revokes : (now : ℕ) (sid by : Text) (s : Store) → Step s (session_revoke now sid by s).0
  revokes_user :
      (now : ℕ) (username by : Text) (except : Option Text) (s : Store)
      → Step s (revoke_user_sessions now username by except s).0
  limits :
      (max_sess now : ℕ) (username : Text) (s : Store)
      → Step s (enforce_session_limit max_sess now username s)
  touches : (now : ℕ) (sid : Text) (s : Store) → Step s (session_touch now sid s)

pub data Reach (s : Store) : Store → Type 0 where
  here : Reach s s
  next : {t u : Store} → Reach s t → Step t u → Reach s u

-- The cache is loaded and has this session as a revoked one.
abbrev pub is_revoked : Option Session → Bool
is_revoked none = false
is_revoked (some c) = c.revoked

abbrev pub IsRevoked : Text → Store → Type 0
IsRevoked sid s = (s.ready ≡ true) × (is_revoked (get sid s.cache) ≡ true)

revoked_entry-is_revoked :
    (o : Option Session) → is_revoked o ≡ true → is_revoked (revoked_entry o) ≡ true
revoked_entry-is_revoked none h = h
revoked_entry-is_revoked (some c) h = refl

revoke_all-IsRevoked :
    (now : ℕ) (by : Text) (sids : List Text) (sid : Text) (s : Store)
    → IsRevoked sid s
    → IsRevoked sid (revoke_all now by sids s)
revoke_all-IsRevoked now by sids sid s (r, h) = (
  ready-revoke_all now by sids s ∙ r,
  ground (arith, get-revoke_all now by sids sid s, h, revoked_entry-is_revoked (get sid s.cache)),
)

revoke-IsRevoked :
    (now : ℕ) (j by sid : Text) (s : Store)
    → IsRevoked sid s
    → IsRevoked sid (session_revoke now j by s).0
revoke-IsRevoked now j by sid s (r, h) = (
  ready-revoke now j by s ∙ r,
  ground (arith, get-revoke now j by sid s, h, revoked_entry-is_revoked (get sid s.cache)),
)

set-IsRevoked :
    (j sid : Text) (w : Write) (c : Session) (s : Store)
    → IsRevoked sid s
    → (j ≡ sid → c.revoked ≡ true)
    → IsRevoked sid (put_or_drop w (set_session j c s))
set-IsRevoked j sid w c s (r, h) k = (
  ready-put_or_drop w _ ∙ r,
  rw (cache-put_or_drop w (set_session j c s), get-put j sid c s.cache)
      (ground (arith, h, k, list_beq_iff j sid)),
)

touch_at-IsRevoked :
    (now : ℕ) (j sid : Text) (s : Store) (o : Option Session)
    → get j s.cache ≡ o
    → IsRevoked sid s
    → IsRevoked sid (touch_at now j o s)
touch_at-IsRevoked now j sid s none a i = i
touch_at-IsRevoked now j sid s (some d) a i =
    elim (Bool-cases (ltb now ((elim d.last_touch [ none ↦ 0 | some t ↦ t ]) + 30_000))) [
      | inl early ↦ rw early i
      | inr late ↦ rw late (set-IsRevoked j sid _ _ s i (λ e. ground (arith, e, a, i)))
    ]

limit-IsRevoked :
    (max_sess now : ℕ) (username sid : Text) (s : Store)
    → IsRevoked sid s
    → IsRevoked sid (enforce_session_limit max_sess now username s)
unfolding enforce_session_limit
limit-IsRevoked max_sess now username sid s i =
    elim (Bool-cases (leb max_sess (length (active_of now username s.cache)))) [
      | inl over ↦ rw over (
          revoke_all-IsRevoked now system (oldest_excess max_sess (active_of now username s.cache))
            sid s i)
      | inr under ↦ rw under i
    ]

create-IsRevoked :
    (crypto : Crypto) (now : ℕ) (j username : Text) (ip : String) (ua sid : Text) (s : Store)
    → member j s.cache ≡ false
    → IsRevoked sid s
    → IsRevoked sid (session_create crypto now j username ip ua s).0
unfolding session_create
create-IsRevoked crypto now j username ip ua sid s fresh (r, h) = (
  ready-put_or_drop _ s ∙ r,
  rw (cache-put_or_drop _ s, get-put j sid _ s.cache)
      (ground (arith, h, fresh, list_beq_iff j sid)),
)

touch_step :
    (now : ℕ) (j sid : Text) (s : Store) → IsRevoked sid s → IsRevoked sid (session_touch now j s)
unfolding session_touch
touch_step now j sid s i = touch_at-IsRevoked now j sid s (get j s.cache) refl i

Step-IsRevoked : {s t : Store} → Step s t → (sid : Text) → IsRevoked sid s → IsRevoked sid t
unfolding revoke_user_sessions
Step-IsRevoked (creates crypto now j username ip ua s fresh) sid i =
    create-IsRevoked crypto now j username ip ua sid s fresh i
Step-IsRevoked (revokes now j by s) sid i = revoke-IsRevoked now j by sid s i
Step-IsRevoked (revokes_user now username by except s) sid i =
    revoke_all-IsRevoked now (if is_nil by then system else by)
      (sessions_of now username except s.cache) sid s i
Step-IsRevoked (limits max_sess now username s) sid i =
    limit-IsRevoked max_sess now username sid s i
Step-IsRevoked (touches now j s) sid i = touch_step now j sid s i

Reach-IsRevoked : {s t : Store} → Reach s t → (sid : Text) → IsRevoked sid s → IsRevoked sid t
Reach-IsRevoked here sid i = i
Reach-IsRevoked (next r st) sid i = Step-IsRevoked st sid (Reach-IsRevoked r sid i)

revoked_verdict :
    (later : ℕ) (username : Text) (o : Option Session)
    → is_revoked o ≡ true
    → verify_at later true username o ≡ none
unfolding cached_ok
revoked_verdict later username none h = absurd (ground (arith, h))
revoked_verdict later username (some c) h = ground (arith, h)

-- A revoked session stays refused, at every time and whatever operations on the cache follow.
pub revoked_for_good :
    {s t : Store}
    → Reach s t
    → (crypto : Crypto) (later : ℕ) (token : Text) (p : Parsed)
    → session_parse crypto later token ≡ some p
    → s.ready ≡ true
    → is_revoked (get p.sid s.cache) ≡ true
    → session_verify crypto later t token ≡ none
unfolding session_verify
revoked_for_good {t = t} r crypto later token p e ready h =
    let (still, revoked) = Reach-IsRevoked r p.sid (ready, h) in
    rw (e, verify_parsed, still) (revoked_verdict later p.username (get p.sid t.cache) revoked)
