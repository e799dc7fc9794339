-- ===== src/Admin/Users/Manage.antt =====
-- admin/users.py, `users_create_endpoint`, `users_delete_endpoint` and `user_session_revoke_endpoint`.
use anti_bot_gw.Common.{
  ℕ, Bool, false, if◌then◌else◌, ◌&&◌, not, Option, none, some, List, [], ◌∷◌, ◌==◌, nat_eq,
  list_eq, String, string_eq, is_some,
}
use anti_bot_gw.Common.Dict.{Dict, get}
use anti_bot_gw.Admin.Strip.{strip}
use anti_bot_gw.Challenge.Decimal.{Text}
use anti_bot_gw.Admin.Password.{Kdf, validate_password_strength, password_hash}
use anti_bot_gw.Admin.Store.{Role, User, Session, Store, put_nowait}
use anti_bot_gw.Admin.Store.Role.{admin, maintainer}
use anti_bot_gw.Admin.Store.Status.{active}
use anti_bot_gw.Admin.Store.Write.{user_create, user_delete}
use anti_bot_gw.Admin.Token.{sid_re}
use anti_bot_gw.Admin.Sessions.{session_revoke, revoke_user_sessions}
use anti_bot_gw.Admin.Auth.{request_role, role_in, role_denied}
use anti_bot_gw.Admin.Login.{user_validate_username, clean_name}
use anti_bot_gw.Admin.Users.{Caller, request_username, parse_role, is_last_admin}
use anti_bot_gw.Admin.Users.Refusal.{
  bad_name, weak, forbidden, not_found, bad_request, exists, invalid_role, last_admin, own_account,
  queue_full, invalid_sid, raised,
}
use anti_bot_gw.Admin.Users.Answer.{created, deleted, session_revoked, refused}
use anti_bot_gw.Admin.Users.{Answer}

-- the fields of a body that creates an account
pub record NewUser : Type 0 where
  pub username : Text
  pub password : Text
  pub role : String

abbrev pub or_queue_full : Store → Answer → Option Store → Store × Answer
or_queue_full s answer none = (s, refused queue_full)
or_queue_full s answer (some queued) = (queued, answer)

abbrev pub create_with : ℕ → Text → Role → Option Text → Store → Store × Answer
create_with now username role none s = (s, refused raised)
create_with now username role (some hash) s =
    or_queue_full s created (put_nowait (user_create username hash role active now now) s)

abbrev pub create_new :
    Kdf → List ℕ → ℕ → Text → Role → Text → Dict Text User → Store → Store × Answer
create_new kdf salt now username role password users s =
    elim (validate_password_strength password) [
      | some w ↦ (s, refused (weak w))
      | none ↦
          if is_some (get username users)
          then (s, refused exists)
          else create_with now username role (password_hash kdf salt password) s
    ]

abbrev pub create_role :
    Kdf → List ℕ → ℕ → Text → Option Role → Text → Dict Text User → Store → Store × Answer
create_role kdf salt now username none password users s = (s, refused invalid_role)
create_role kdf salt now username (some role) password users s =
    create_new kdf salt now username role password users s

abbrev pub create_body : Kdf → List ℕ → ℕ → Option NewUser → Dict Text User → Store → Store × Answer
create_body kdf salt now none users s = (s, refused bad_request)
create_body kdf salt now (some body) users s =
    let username = clean_name body.username in
    elim (user_validate_username username) [
      | some e ↦ (s, refused (bad_name e))
      | none ↦ create_role kdf salt now username (parse_role body.role) body.password users s
    ]

-- `users_create_endpoint`; the role of a body that names none is "admin", and is stripped
unfoldable pub users_create :
    Kdf → List ℕ → ℕ → Caller → Dict Text User → Option NewUser → Store → Store × Answer
unfolding parse_role
users_create kdf salt now c users body s =
    if role_denied users c.user (admin ∷ [])
    then (s, refused forbidden)
    else create_body kdf salt now body users s

-- the write and the sessions that it ends
unfoldable pub commit_delete : ℕ → Caller → Text → Store → Store × Answer
commit_delete now c username s = elim (put_nowait (user_delete username) s) [
  | none ↦ (s, refused queue_full)
  | some queued ↦
      let (out, n) = revoke_user_sessions now username (request_username c) none queued in
      (out, deleted n)
]

-- `users_delete_endpoint`
unfoldable pub users_delete : ℕ → Caller → Text → Dict Text User → Store → Store × Answer
unfolding is_last_admin commit_delete
users_delete now c path users s =
    let username = clean_name path in
    if role_denied users c.user (admin ∷ [])
    then (s, refused forbidden)
    else elim (user_validate_username username) [
      | some e ↦ (s, refused (bad_name e))
      | none ↦
          if not (is_some (get username users))
          then (s, refused not_found)
          else if is_last_admin username users
          then (s, refused last_admin)
          else if request_username c == username
          then (s, refused own_account)
          else commit_delete now c username s
    ]

abbrev pub sid_is : Text → Option Text → Bool
sid_is sid none = false
sid_is sid (some own) = own == sid

abbrev pub revoke_found : ℕ → Caller → Text → Text → Option Session → Store → Store × Answer
revoke_found now c username sid none s = (s, refused not_found)
revoke_found now c username sid (some entry) s =
    if not (entry.username == username)
    then (s, refused not_found)
    else ((session_revoke now sid (request_username c) s).0, session_revoked (sid_is sid c.sid))

-- `user_session_revoke_endpoint`; the path's id is stripped
unfoldable pub user_session_revoke :
    ℕ → Caller → Text → Text → Dict Text User → Store → Store × Answer
user_session_revoke now c path sid_path users s =
    let username = clean_name path in
    let sid = strip sid_path in
    elim (user_validate_username username) [
      | some e ↦ (s, refused (bad_name e))
      | none ↦
          if not (role_in (admin ∷ maintainer ∷ []) (request_role users c.user))
            && not (request_username c == username)
          then (s, refused forbidden)
          else if not (sid_re sid)
          then (s, refused invalid_sid)
          else revoke_found now c username sid (get sid s.cache) s
    ]
