-- ===== src/Admin/Users/Accounts.antt =====
-- What the handlers leave of the accounts, once the queue is written.
use anti_bot_gw.Common.{
  ℕ, Bool, true, if◌then◌else◌, ◌&&◌, Option, none, some, List, [], ◌∷◌, nat_eq, list_eq, string_eq,
  ◌≡◌, refl, arith, ◌∙◌, Option-cases, inl, inr, is_some, ◌⊎◌,
}
use anti_bot_gw.Common.Dict.{Dict, get}
use anti_bot_gw.Challenge.Decimal.{Text}
use anti_bot_gw.Admin.Store.{Fields, User, Session, Store, Write, put_nowait, put_or_drop}
use anti_bot_gw.Admin.Store.Write.{user_update, user_delete, user_session_revoke}
use anti_bot_gw.Admin.Store.Queue.{Queued, put_nowait-Queued, put_or_drop-Queued}
use anti_bot_gw.Admin.Sessions.{
  session_revoke, revoke_all, revoke_user_sessions, revoke_at, set_session, system, sessions_of,
}
use anti_bot_gw.Challenge.Pow.{is_nil}
use anti_bot_gw.Admin.Writer.{Tables, apply_write, flush}
use anti_bot_gw.Admin.Writer.Restart.{pending, flush_one}
use anti_bot_gw.Admin.Users.{Caller, request_username}
use anti_bot_gw.Admin.Users.Answer.{updated, deleted}
use anti_bot_gw.Admin.Users.Update.{commit_update}
use anti_bot_gw.Admin.Users.Manage.{commit_delete}

-- the accounts once the queue is written
abbrev pub accounts : Store → Tables → Dict Text User
accounts s t = (flush (pending s.queue) t).users

-- writes on sessions leave the accounts
revoke_write :
    (sid by : Text) (now : ℕ) (t : Tables)
    → (apply_write (user_session_revoke sid by now) t).users ≡ t.users
unfolding apply_write
revoke_write sid by now t = refl

accounts-Queued :
    (sid by : Text) (now : ℕ) (before after : Option (List Write)) (t : Tables)
    → Queued (user_session_revoke sid by now) before after
    → (flush (pending after) t).users ≡ (flush (pending before) t).users
accounts-Queued sid by now before after t (inl (b, a)) = rw (a, b) refl
accounts-Queued sid by now before after t (inr (ws, b, a)) =
    rw (a, b, flush_one (user_session_revoke sid by now) ws t)
      (revoke_write sid by now (flush ws t))

accounts-put_or_drop :
    (sid by : Text) (now : ℕ) (s : Store) (t : Tables)
    → accounts (put_or_drop (user_session_revoke sid by now) s) t ≡ accounts s t
accounts-put_or_drop sid by now s t = elim (put_or_drop-Queued (user_session_revoke sid by now) s) [
  | inl same ↦ rw same refl
  | inr queued ↦ accounts-Queued sid by now s.queue _ t queued
]

accounts-revoke_at :
    (now : ℕ) (sid by : Text) (o : Option Session) (s : Store) (t : Tables)
    → accounts (revoke_at now sid by o s).0 t ≡ accounts s t
accounts-revoke_at now sid by none s t = refl
accounts-revoke_at now sid by (some c) s t =
    accounts-put_or_drop sid by now (set_session sid (record c { revoked = true }) s) t

accounts-revoke_all :
    (now : ℕ) (by : Text) (sids : List Text) (s : Store) (t : Tables)
    → accounts (revoke_all now by sids s) t ≡ accounts s t
unfolding revoke_all session_revoke
accounts-revoke_all now by [] s t = refl
accounts-revoke_all now by (sid ∷ sids) s t =
    accounts-revoke_all now by sids (session_revoke now sid by s).0 t
    ∙ accounts-revoke_at now sid by (get sid s.cache) s t

pub accounts-revoke_user :
    (now : ℕ) (username by : Text) (except : Option Text) (s : Store) (t : Tables)
    → accounts (revoke_user_sessions now username by except s).0 t ≡ accounts s t
unfolding revoke_user_sessions
accounts-revoke_user now username by except s t =
    accounts-revoke_all now (if is_nil by then system else by)
      (sessions_of now username except s.cache) s t

-- What one of the writes may leave of the accounts: it is made, or it is not.
abbrev pub Made : Write → Dict Text User → Tables → Type 0
Made w after t = (after ≡ t.users) ⊎ (after ≡ (apply_write w t).users)

Made-Queued :
    (w : Write) (before after : Option (List Write)) (t : Tables)
    → pending before ≡ []
    → Queued w before after
    → Made w (flush (pending after) t).users t
unfolding flush
Made-Queued w before after t q (inl (b, a)) = rw a (inl refl)
Made-Queued w before after t q (inr (ws, b, a)) =
    let nothing : ws ≡ [] = ground (arith, q, b) in rw (a, nothing) (inr refl)

pub accounts-write :
    (w : Write) (s queued : Store) (t : Tables)
    → pending s.queue ≡ []
    → put_nowait w s ≡ some queued
    → Made w (accounts queued t) t
accounts-write w s queued t q h =
    Made-Queued w s.queue queued.queue t q (put_nowait-Queued w s queued h).0

pub commit_update-Made :
    (now : ℕ) (c : Caller) (username : Text) (is_self : Bool) (f : Fields) (s s' : Store) (n : ℕ)
    (t : Tables)
    → pending s.queue ≡ []
    → commit_update now c username is_self f s ≡ (s', updated n)
    → Made (user_update username f) (accounts s' t) t
unfolding commit_update
commit_update-Made now c username is_self f s s' n t q h =
    elim (Option-cases (put_nowait (user_update username f) s)) [
      | inl full ↦ absurd (ground (arith, h, full))
      | inr (queued, e) ↦
          let except : Option Text = if is_self && is_some f.password_hash then c.sid else none in
          let out = revoke_user_sessions now username (request_username c) except queued in
          let is_out : out.0 ≡ s' = ground (arith, h, e) in
          rw (← is_out, accounts-revoke_user now username (request_username c) except queued t)
            (accounts-write (user_update username f) s queued t q e)
    ]

pub commit_delete-Made :
    (now : ℕ) (c : Caller) (username : Text) (s s' : Store) (n : ℕ) (t : Tables)
    → pending s.queue ≡ []
    → commit_delete now c username s ≡ (s', deleted n)
    → Made (user_delete username) (accounts s' t) t
unfolding commit_delete
commit_delete-Made now c username s s' n t q h =
    elim (Option-cases (put_nowait (user_delete username) s)) [
      | inl full ↦ absurd (ground (arith, h, full))
      | inr (queued, e) ↦
          let out = revoke_user_sessions now username (request_username c) none queued in
          let is_out : out.0 ≡ s' = ground (arith, h, e) in
          rw (← is_out, accounts-revoke_user now username (request_username c) none queued t)
            (accounts-write (user_delete username) s queued t q e)
    ]
