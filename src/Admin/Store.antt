-- ===== src/Admin/Store.antt =====
-- The shared state of admin/users.py: the cache of sessions, the last-seen marks, and the queue of
-- writes that the database's writer takes (state.py, `db_queue`). Times are in milliseconds.
pub mod Queue
use anti_bot_gw.Common.{
  ℕ, suc, ◌+◌, ◌<◌, Bool, true, false, ltb, Option, none, some, List, [], ◌∷◌, ◌++◌, length, String,
  if◌then◌else◌,
}
use anti_bot_gw.Common.Dict.{Dict}
use anti_bot_gw.Challenge.Decimal.{Text}

-- `_USER_ROLES`
pub data Role : Type 0 where
  admin maintainer viewer : Role

-- `_USER_STATUS`, and what a single sign-on account has until it is approved
pub data Status : Type 0 where
  active disabled pending : Status

-- an entry of `_SESSION_CACHE`
pub record Session : Type 0 where
  pub username : Text
  pub expires_ts : ℕ
  pub revoked : Bool
  pub last_touch : Option ℕ

-- the columns that a `user_update` sets
pub record Fields : Type 0 where
  pub password_hash : Option Text
  pub role : Option Role
  pub status : Option Status
  pub updated_ts : ℕ

-- a row of the table `users`
pub record User : Type 0 where
  pub password_hash : Text
  pub role : Role
  pub status : Status
  pub created_ts : ℕ
  pub updated_ts : ℕ
  pub last_login_ts : ℕ
  pub last_login_ip : String

-- what the handlers queue; `user_session_create` has the sid, the user, the address, the user agent,
-- the time and the expiry
pub data Write : Type 0 where
  user_session_create : Text → Text → String → Text → ℕ → ℕ → Write
  user_session_revoke : Text → Text → ℕ → Write
  user_session_touch : ℕ → Text → Write
  user_login_recorded : ℕ → String → Text → Write
  user_create : Text → Text → Role → Status → ℕ → ℕ → Write
  user_update : Text → Fields → Write
  user_delete : Text → Write

-- `db_queue` is `None` until the gateway has started
pub record Store : Type 0 where
  pub cache : Dict Text Session
  pub ready : Bool
  pub queue : Option (List Write)
  pub active_sessions : Dict Text ℕ

-- `asyncio.Queue(maxsize=10000)`
abbrev pub queue_max : ℕ
queue_max = 10_000

-- `put_nowait` on the queue: `none` is `QueueFull`
abbrev pub push : Write → Option (List Write) → Option (Option (List Write))
push w none = some none
push w (some ws) = if ltb (length ws) queue_max then some (some (ws ++ w ∷ [])) else none

-- `if db_queue is not None: db_queue.put_nowait(…)`, `none` for `QueueFull`
unfoldable pub put_nowait : Write → Store → Option Store
put_nowait w s = elim (push w s.queue) [ none ↦ none | some q ↦ some (record s { queue = q }) ]

-- the same where `QueueFull` is caught and passed over
unfoldable pub put_or_drop : Write → Store → Store
unfolding put_nowait
put_or_drop w s = elim (put_nowait w s) [ none ↦ s | some t ↦ t ]
