-- ===== src/Admin/Writer/Restart.antt =====
-- The tables, the queue and the cache in step: what a start reads, and the operations on all three.
use anti_bot_gw.Common.{
  Bool, true, ℕ, ◌<◌, false, ltb, if◌then◌else◌, ◌&&◌, not, Option, none, some, List, [], ◌∷◌, ◌++◌,
  length, ◌==◌, nat_eq, list_eq, String, string_eq, ◌≡◌, refl, arith, Bool-cases, inl, inr,
  list_beq_iff, lt→ltb,
}
use anti_bot_gw.Common.Dict.{Dict, get, member, Unique}
use anti_bot_gw.Common.Dict.Laws.{get-put, put-Unique}
use anti_bot_gw.Challenge.Decimal.{Text}
use anti_bot_gw.Admin.Store.{Write, Session, Store, put_nowait, put_or_drop, queue_max}
use anti_bot_gw.Admin.Store.Write.{
  user_session_create, user_session_revoke, user_session_touch, user_login_recorded, user_create,
  user_update, user_delete,
}
use anti_bot_gw.Admin.Token.{Crypto}
use anti_bot_gw.Admin.Sessions.{session_create, session_revoke, session_touch}
use anti_bot_gw.Admin.Writer.{Row, Tables, update_at, update_row, apply_write, flush, loaded}

flush-append : (ws vs : List Write) (t : Tables) → flush (ws ++ vs) t ≡ flush vs (flush ws t)
unfolding flush
flush-append [] vs t = refl
flush-append (w ∷ ws) vs t = flush-append ws vs (apply_write w t)

pub get-loaded :
    (now : ℕ) (sid : Text) (rows : Dict Text Row)
    → Unique rows
    → get sid (loaded now rows) ≡ elim (get sid rows) [
      | none ↦ none
      | some r ↦
          if r.active && ltb now r.expires_ts
          then some (record {
            username = r.username;
            expires_ts = r.expires_ts;
            revoked = false;
            last_touch = none;
          })
          else none
    ]
unfolding loaded get
get-loaded now sid [] u = refl
get-loaded now sid ((j, r) ∷ rows) u =
    ground (arith, u.0, list_beq_iff j sid, get-loaded now sid rows u.1)

update_at-get :
    {V : Type 0} (f : V → V) (k j : Text) (o : Option V) (d : Dict Text V)
    → get k d ≡ o
    → get j (update_at f k o d)
      ≡ (if k == j then elim (get j d) [ none ↦ none | some v ↦ some (f v) ] else get j d)
update_at-get f k j none d h = ground (arith, h, list_beq_iff k j)
update_at-get f k j (some v) d h = ground (arith, h, list_beq_iff k j, get-put k j (f v) d)

pub get-update_row :
    {V : Type 0} (f : V → V) (k j : Text) (d : Dict Text V)
    → get j (update_row f k d)
      ≡ (if k == j then elim (get j d) [ none ↦ none | some v ↦ some (f v) ] else get j d)
unfolding update_row
get-update_row f k j d = update_at-get f k j (get k d) d refl

update_at-Unique :
    {V : Type 0} (f : V → V) (k : Text) (o : Option V) (d : Dict Text V)
    → Unique d
    → Unique (update_at f k o d)
update_at-Unique f k none d u = u
update_at-Unique f k (some v) d u = put-Unique k (f v) d u

-- No session has two rows.
pub write-Unique :
    (w : Write) (t : Tables) → Unique t.user_sessions → Unique (apply_write w t).user_sessions
unfolding apply_write update_row
write-Unique (user_session_create sid username ip ua now expires) t u =
    elim (Bool-cases (member sid t.user_sessions)) [
      | inl there ↦ rw there u
      | inr new ↦ rw new (put-Unique sid _ t.user_sessions u)
    ]
write-Unique (user_session_revoke sid by now) t u = update_at-Unique _ sid _ t.user_sessions u
write-Unique (user_session_touch now sid) t u = update_at-Unique _ sid _ t.user_sessions u
write-Unique (user_login_recorded now ip username) t u = u
write-Unique (user_create username hash role status created updated) t u = u
write-Unique (user_update username fields) t u = u
write-Unique (user_delete username) t u = u

pub flush-Unique :
    (ws : List Write) (t : Tables) → Unique t.user_sessions → Unique (flush ws t).user_sessions
unfolding flush
flush-Unique [] t u = u
flush-Unique (w ∷ ws) t u = flush-Unique ws (apply_write w t) (write-Unique w t u)

-- whom a session is of and when it ends, while it is not revoked and ends after `n`
abbrev pub live_entry : ℕ → Option Session → Option (Text × ℕ)
live_entry n none = none
live_entry n (some c) =
    if not c.revoked && ltb n c.expires_ts then some (c.username, c.expires_ts) else none

abbrev pub live_row : ℕ → Option Row → Option (Text × ℕ)
live_row n none = none
live_row n (some r) =
    if r.active && ltb n r.expires_ts then some (r.username, r.expires_ts) else none

abbrev pub pending : Option (List Write) → List Write
pending none = []
pending (some ws) = ws

-- The cache says what the table says.
abbrev pub AgreesAt : ℕ → Dict Text Session → Dict Text Row → Type 0
AgreesAt n d rows = (sid : Text) → live_entry n (get sid d) ≡ live_row n (get sid rows)

-- The cache says what the table will say once the queue is written.
abbrev pub Agrees : ℕ → Store → Tables → Type 0
Agrees n s t = AgreesAt n s.cache (flush (pending s.queue) t).user_sessions

-- The write is on the table `users`.
abbrev pub on_users : Write → Bool
on_users (user_session_create sid username ip ua now expires) = false
on_users (user_session_revoke sid by now) = false
on_users (user_session_touch now sid) = false
on_users (user_login_recorded now ip username) = true
on_users (user_create username hash role status created updated) = true
on_users (user_update username fields) = true
on_users (user_delete username) = true

pub users-sessions :
    (w : Write) (t : Tables) → on_users w ≡ true → (apply_write w t).user_sessions ≡ t.user_sessions
unfolding apply_write
users-sessions (user_session_create sid username ip ua now expires) t h = absurd (ground (arith, h))
users-sessions (user_session_revoke sid by now) t h = absurd (ground (arith, h))
users-sessions (user_session_touch now sid) t h = absurd (ground (arith, h))
users-sessions (user_login_recorded now ip username) t h = refl
users-sessions (user_create username hash role status created updated) t h = refl
users-sessions (user_update username fields) t h = refl
users-sessions (user_delete username) t h = refl

-- The state with the tables, and what changes it: each operation has room in the queue for its write,
-- and a new session's id is in neither place. The loops over sessions are runs of `revokes`; `notes`
-- is what a login and the handlers of accounts queue, and `marks` sets the marks of `_ACTIVE_SESSIONS`.
pub data Step : Store × Tables → Store × Tables → Type 0 where
  creates :
      (crypto : Crypto) (now : ℕ) (sid username : Text) (ip : String) (ua : Text) (s : Store)
      (ws : List Write) (t : Tables)
      → s.queue ≡ some ws
      → length ws < queue_max
      → get sid (flush ws t).user_sessions ≡ none
      → Step (s, t) ((session_create crypto now sid username ip ua s).0, t)
  revokes :
      (now : ℕ) (sid by : Text) (s : Store) (ws : List Write) (t : Tables)
      → s.queue ≡ some ws
      → length ws < queue_max
      → Step (s, t) ((session_revoke now sid by s).0, t)
  touches :
      (now : ℕ) (sid : Text) (s : Store) (ws : List Write) (t : Tables)
      → s.queue ≡ some ws
      → length ws < queue_max
      → Step (s, t) (session_touch now sid s, t)
  notes :
      (w : Write) (s : Store) (ws : List Write) (t : Tables)
      → on_users w ≡ true
      → s.queue ≡ some ws
      → length ws < queue_max
      → Step (s, t) (put_or_drop w s, t)
  marks :
      (active : Dict Text ℕ) (s : Store) (t : Tables)
      → Step (s, t) (record s { active_sessions = active }, t)
  writes :
      (w : Write) (ws : List Write) (s : Store) (t : Tables)
      → s.queue ≡ some (w ∷ ws)
      → Step (s, t) (record s { queue = some ws }, apply_write w t)

pub data Reach (x : Store × Tables) : Store × Tables → Type 0 where
  here : Reach x x
  next : {y z : Store × Tables} → Reach x y → Step y z → Reach x z

pub queue_room :
    (w : Write) (s : Store) (ws : List Write)
    → s.queue ≡ some ws
    → length ws < queue_max
    → put_or_drop w s ≡ record s { queue = some (ws ++ w ∷ []) }
unfolding put_or_drop
queue_room w s ws e h = rw (put_or_drop, put_nowait, e, lt→ltb _ _ h) refl

pub flush_one :
    (w : Write) (ws : List Write) (t : Tables) → flush (ws ++ w ∷ []) t ≡ apply_write w (flush ws t)
unfolding flush
flush_one w ws t = flush-append ws (w ∷ []) t
