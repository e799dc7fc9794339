-- ===== src/Admin/Writer/Agreement.antt =====
-- Every operation keeps the cache and the tables in agreement.
use anti_bot_gw.Common.{
  ℕ, ◌+◌, ◌*◌, ◌<◌, Bool, true, false, ltb, if◌then◌else◌, Option, none, some, List, [], ◌∷◌, ◌++◌,
  length, take, ◌==◌, nat_eq, list_eq, String, string_eq, ◌≡◌, refl, arith, ap, ◌∙◌, Bool-cases,
  inl, inr, list_beq_iff,
}
use anti_bot_gw.Common.Dict.{get}
use anti_bot_gw.Common.Dict.Laws.{get-put}
use anti_bot_gw.Challenge.Decimal.{Text}
use anti_bot_gw.Admin.Store.{Write, Session, Store, put_or_drop, queue_max}
use anti_bot_gw.Admin.Store.Write.{user_session_create, user_session_revoke, user_session_touch}
use anti_bot_gw.Admin.Token.{Crypto, session_ttl}
use anti_bot_gw.Admin.Sessions.{session_create, revoke_at, touch_at, set_session}
use anti_bot_gw.Admin.Writer.{Row, Tables, apply_write, flush}
use anti_bot_gw.Admin.Sessions.Revocation.{cache-put_or_drop}
use anti_bot_gw.Admin.Writer.Restart.{
  on_users, users-sessions, get-update_row, live_entry, live_row, AgreesAt, Agrees, queue_room,
  flush_one,
}

-- the table after one more write
revoked_row :
    (n now : ℕ) (by : Text) (b : Bool) (o : Option Row)
    → live_row n (
        if b
        then elim o [
          | none ↦ none
          | some r ↦ some (record r { active = false; revoked_by = by; revoked_ts = now })
        ]
        else o)
      ≡ (if b then none else live_row n o)
revoked_row n now by true none = refl
revoked_row n now by true (some r) = refl
revoked_row n now by false o = refl

touched_row :
    (n now : ℕ) (b : Bool) (o : Option Row)
    → live_row n
        (if b then elim o [ none ↦ none | some r ↦ some (record r { last_seen_ts = now }) ] else o)
      ≡ live_row n o
touched_row n now true none = refl
touched_row n now true (some r) = refl
touched_row n now false o = refl

revoke_row :
    (n now : ℕ) (sid by j : Text) (t : Tables)
    → live_row n (get j (apply_write (user_session_revoke sid by now) t).user_sessions)
      ≡ (if sid == j then none else live_row n (get j t.user_sessions))
unfolding apply_write
revoke_row n now sid by j t =
    rw
      (get-update_row (λ (r : Row). record r { active = false; revoked_by = by; revoked_ts = now })
        sid j t.user_sessions)
      (revoked_row n now by (sid == j) (get j t.user_sessions))

touch_row :
    (n now : ℕ) (sid j : Text) (t : Tables)
    → live_row n (get j (apply_write (user_session_touch now sid) t).user_sessions)
      ≡ live_row n (get j t.user_sessions)
unfolding apply_write
touch_row n now sid j t =
    rw (get-update_row (λ (r : Row). record r { last_seen_ts = now }) sid j t.user_sessions)
      (touched_row n now (sid == j) (get j t.user_sessions))

create_row :
    (n now expires : ℕ) (sid username : Text) (ip : String) (ua j : Text) (t : Tables)
    → get sid t.user_sessions ≡ none
    → live_row n
        (get j (apply_write (user_session_create sid username ip ua now expires) t).user_sessions)
      ≡ (if sid == j
          then (if ltb n expires then some (username, expires) else none)
          else live_row n (get j t.user_sessions))
unfolding apply_write
create_row n now expires sid username ip ua j t new =
    rw (new, get-put sid j _ t.user_sessions) (ground (arith, list_beq_iff sid j))

-- agreement with a queue that is known
pub of_queue :
    (n : ℕ) (s : Store) (ws : List Write) (t : Tables)
    → s.queue ≡ some ws
    → Agrees n s t
    → AgreesAt n s.cache (flush ws t).user_sessions
of_queue n s ws t q a j = a j ∙ rw q refl

pub to_queue :
    (n : ℕ) (s : Store) (ws : List Write) (t : Tables)
    → s.queue ≡ some ws
    → AgreesAt n s.cache (flush ws t).user_sessions
    → Agrees n s t
to_queue n s ws t q a j = a j ∙ rw q refl

queue-put :
    (w : Write) (s : Store) (ws : List Write)
    → s.queue ≡ some ws
    → length ws < queue_max
    → (put_or_drop w s).queue ≡ some (ws ++ w ∷ [])
queue-put w s ws q h = ap (λ (x : Store). x.queue) (queue_room w s ws q h)

-- a write with the entry that it stands for
module _ (n : ℕ) (w : Write) (sid : Text) (c : Session) (s : Store) (ws : List Write)
    (t : Tables) where
  written :
      s.queue ≡ some ws
      → length ws < queue_max
      → ((j : Text)
          → live_entry n (if sid == j then some c else get j s.cache)
            ≡ live_row n (get j (apply_write w (flush ws t)).user_sessions))
      → (Agrees n (put_or_drop w (set_session sid c s)) t)
        × (Agrees n (set_session sid c (put_or_drop w s)) t)
  written q h a = (
    to_queue n (put_or_drop w (set_session sid c s)) (ws ++ w ∷ []) t
        (queue-put w (set_session sid c s) ws q h)
        (λ j.
          rw (cache-put_or_drop w (set_session sid c s), flush_one w ws t, get-put sid j c s.cache)
            (a j)),
    to_queue n (set_session sid c (put_or_drop w s)) (ws ++ w ∷ []) t (queue-put w s ws q h)
        (λ j. rw (cache-put_or_drop w s, flush_one w ws t, get-put sid j c s.cache) (a j)),
  )

pub notes-Agrees :
    (n : ℕ) (w : Write) (s : Store) (ws : List Write) (t : Tables)
    → on_users w ≡ true
    → s.queue ≡ some ws
    → length ws < queue_max
    → Agrees n s t
    → Agrees n (put_or_drop w s) t
notes-Agrees n w s ws t h q room a =
    to_queue n (put_or_drop w s) (ws ++ w ∷ []) t (queue-put w s ws q room) (λ j.
      rw (cache-put_or_drop w s, flush_one w ws t, users-sessions w (flush ws t) h)
        (of_queue n s ws t q a j))

module _ (n now : ℕ) (s : Store) (ws : List Write) (t : Tables) (q : s.queue ≡ some ws)
    (h : length ws < queue_max) (a : Agrees n s t) where
  pub revoke_at-Agrees :
      (sid by : Text) (o : Option Session)
      → get sid s.cache ≡ o
      → Agrees n (revoke_at now sid by o s).0 t
  revoke_at-Agrees sid by none e = a
  revoke_at-Agrees sid by (some c) e =
      (written n (user_session_revoke sid by now) sid (record c { revoked = true }) s ws t q h
        (λ j. ground (
          arith,
          e,
          list_beq_iff sid j,
          revoke_row n now sid by j (flush ws t),
          of_queue n s ws t q a j,
        ))).0

  pub touch_at-Agrees :
      (sid : Text) (o : Option Session) → get sid s.cache ≡ o → Agrees n (touch_at now sid o s) t
  touch_at-Agrees sid none e = a
  touch_at-Agrees sid (some c) e =
      elim (Bool-cases (ltb now ((elim c.last_touch [ none ↦ 0 | some x ↦ x ]) + 30_000))) [
        | inl early ↦ rw early a
        | inr late ↦
            rw late
              (written n (user_session_touch now sid) sid (record c { last_touch = some now }) s ws
                t q h
                (λ j. ground (
                  arith,
                  e,
                  list_beq_iff sid j,
                  touch_row n now sid j (flush ws t),
                  of_queue n s ws t q a j,
                ))).0
      ]

  pub create-Agrees :
      (crypto : Crypto) (sid username : Text) (ip : String) (ua : Text)
      → get sid (flush ws t).user_sessions ≡ none
      → Agrees n (session_create crypto now sid username ip ua s).0 t
  unfolding session_create
  create-Agrees crypto sid username ip ua new =
      (written n (user_session_create sid username ip (take 512 ua) now (now + 1000 * session_ttl))
        sid _ s ws t q h
        (λ j. ground (
          arith,
          list_beq_iff sid j,
          create_row n now (now + 1000 * session_ttl) sid username ip (take 512 ua) j (flush ws t)
              new,
          of_queue n s ws t q a j,
        ))).1
