-- ===== src/Admin/Writer.antt =====
-- db/sqlite.py, the branches of the writer for the operators' accounts and sessions, and
-- admin/users.py, `_session_cache_load`: what the queued writes do to the tables `users` and
-- `user_sessions`, and the cache that a start builds from them.
pub mod Restart
pub mod Agreement
pub mod Verdicts
use anti_bot_gw.Common.{
  ℕ, suc, ◌+◌, ◌≤◌, ◌<◌, Bool, true, false, ltb, leb, if◌then◌else◌, ◌&&◌, ◌||◌, not, Option, none,
  some, List, [], ◌∷◌, ◌++◌, nat_eq, list_eq, String,
}
use anti_bot_gw.Common.Dict.{Dict, get, put, remove, member}
use anti_bot_gw.Challenge.Decimal.{Text}
use anti_bot_gw.Admin.Store.{Role, Status, Fields, Write, User, Session, Store}
use anti_bot_gw.Admin.Store.Write.{
  user_session_create, user_session_revoke, user_session_touch, user_login_recorded, user_create,
  user_update, user_delete,
}

-- a row of `user_sessions`
pub record Row : Type 0 where
  pub username : Text
  pub ip : String
  pub user_agent : Text
  pub created_ts : ℕ
  pub last_seen_ts : ℕ
  pub expires_ts : ℕ
  pub active : Bool
  pub revoked_by : Text
  pub revoked_ts : ℕ

-- The two tables.
pub record Tables : Type 0 where
  pub users : Dict Text User
  pub user_sessions : Dict Text Row

-- `UPDATE … WHERE key = …`
abbrev pub update_at : {V : Type 0} → (V → V) → Text → Option V → Dict Text V → Dict Text V
update_at f k none d = d
update_at f k (some v) d = put k (f v) d

unfoldable pub update_row : {V : Type 0} → (V → V) → Text → Dict Text V → Dict Text V
update_row f k d = update_at f k (get k d) d

abbrev pub or_else : {A : Type 0} → Option A → A → A
or_else none a = a
or_else (some b) a = b

abbrev pub set_fields : Fields → User → User
set_fields f u = record u {
  password_hash = or_else f.password_hash u.password_hash;
  role = or_else f.role u.role;
  status = or_else f.status u.status;
  updated_ts = f.updated_ts;
}

-- one write; an `INSERT` of a session whose id is there fails and changes nothing
unfoldable pub apply_write : Write → Tables → Tables
unfolding update_row
apply_write (user_session_create sid username ip ua now expires) t =
    if member sid t.user_sessions then t else record t {
      user_sessions =
          put sid
            (record {
              username = username;
              ip = ip;
              user_agent = ua;
              created_ts = now;
              last_seen_ts = now;
              expires_ts = expires;
              active = true;
              revoked_by = [];
              revoked_ts = 0;
            })
            t.user_sessions;
    }
apply_write (user_session_revoke sid by now) t = record t {
  user_sessions =
      update_row (λ (r : Row). record r { active = false; revoked_by = by; revoked_ts = now }) sid
        t.user_sessions;
}
apply_write (user_session_touch now sid) t = record t {
  user_sessions = update_row (λ (r : Row). record r { last_seen_ts = now }) sid t.user_sessions;
}
apply_write (user_login_recorded now ip username) t = record t {
  users =
      update_row (λ (u : User). record u { last_login_ts = now; last_login_ip = ip }) username
        t.users;
}
apply_write (user_create username hash role status created updated) t = record t {
  users =
      put username
        (record {
          password_hash = hash;
          role = role;
          status = status;
          created_ts = created;
          updated_ts = updated;
          last_login_ts = 0;
          last_login_ip = "";
        })
        t.users;
}
apply_write (user_update username fields) t = record t {
  users = update_row (set_fields fields) username t.users;
}
apply_write (user_delete username) t = record t { users = remove username t.users }

-- the writes of the queue, in order
unfoldable pub flush : List Write → Tables → Tables
unfolding apply_write
flush [] t = t
flush (w ∷ ws) t = flush ws (apply_write w t)

-- the rows that `WHERE status = 'active' AND expires_ts > now` leaves, as entries of the cache
unfoldable pub loaded : ℕ → Dict Text Row → Dict Text Session
loaded now [] = []
loaded now ((sid, r) ∷ rows) =
    let rest = loaded now rows in
    let entry : Session = record {
      username = r.username;
      expires_ts = r.expires_ts;
      revoked = false;
      last_touch = none;
    } in
    if r.active && ltb now r.expires_ts then (sid, entry) ∷ rest else rest

-- `_session_cache_load`: `none` is a read that fails, after which the cache counts as loaded as it is
unfoldable pub session_cache_load : ℕ → Option (Dict Text Row) → Store → Store
unfolding loaded
session_cache_load now rows s = elim rows [
  | none ↦ record s { ready = true }
  | some rs ↦ record s { cache = loaded now rs; ready = true }
]
