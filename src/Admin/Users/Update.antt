-- ===== src/Admin/Users/Update.antt =====
-- admin/users.py, `users_update_endpoint`.
use anti_bot_gw.Common.{
  ℕ, Bool, if◌then◌else◌, ◌&&◌, ◌||◌, not, Option, none, some, List, [], ◌∷◌, ◌==◌, nat_eq, list_eq,
  String, string_eq, is_some,
}
use anti_bot_gw.Common.Dict.{Dict, get}
use anti_bot_gw.Challenge.Decimal.{Text}
use anti_bot_gw.Challenge.Pow.{is_nil}
use anti_bot_gw.Admin.Password.{
  Kdf, Weakness, validate_password_strength, password_hash, password_verify,
}
use anti_bot_gw.Admin.Store.{Role, Status, Fields, User, Store, put_nowait}
use anti_bot_gw.Admin.Store.Role.{admin, maintainer, viewer}
use anti_bot_gw.Admin.Store.Status.{active}
use anti_bot_gw.Admin.Store.Write.{user_update}
use anti_bot_gw.Admin.Sessions.{revoke_user_sessions}
use anti_bot_gw.Admin.Auth.{request_role, role_in}
use anti_bot_gw.Admin.Login.{user_validate_username, clean_name, status_eq}
use anti_bot_gw.Admin.Users.{
  Checked, pass, refuse, ◌>>=◌, Caller, request_username, parse_role, parse_status, is_last_admin,
  Patch,
}
use anti_bot_gw.Admin.Users.Refusal.{
  bad_name, weak, forbidden, not_found, bad_request, current_password_required,
  current_password_wrong, invalid_role, invalid_status, last_admin, no_updates, queue_full, raised,
}
use anti_bot_gw.Admin.Users.Answer.{updated, refused}
use anti_bot_gw.Admin.Users.{Answer}

abbrev pub hashed : Option Text → Checked (Option Text)
hashed none = refuse raised
hashed (some h) = pass (some h)

abbrev pub or_weak : Option Weakness → Checked (Option Text) → Checked (Option Text)
or_weak none next = next
or_weak (some w) next = refuse (weak w)

-- the new hash, where a password is given; `salt` is the new salt
unfoldable pub password_field :
    Kdf → List ℕ → Bool → User → Patch → Option Text → Checked (Option Text)
password_field kdf salt is_self cur body none = pass none
password_field kdf salt is_self cur body (some pw) = or_weak (validate_password_strength pw) (
    if is_self && is_nil body.current_password
    then refuse current_password_required
    else if is_self && not (password_verify kdf body.current_password cur.password_hash)
    then refuse current_password_wrong
    else hashed (password_hash kdf salt pw))

unfoldable pub role_field : Option Role → Option String → Checked (Option Role)
unfolding parse_role
role_field caller_role none = pass none
role_field caller_role (some r) =
    if not (role_in (admin ∷ []) caller_role)
    then refuse forbidden
    else elim (parse_role r) [ none ↦ refuse invalid_role | some role ↦ pass (some role) ]

abbrev pub status_guard : Bool → Status → Checked (Option Status)
status_guard last status =
    if not (status_eq status active) && last then refuse last_admin else pass (some status)

unfoldable pub status_field :
    Option Role → Text → Dict Text User → Option String → Checked (Option Status)
unfolding parse_status is_last_admin
status_field caller_role username users none = pass none
status_field caller_role username users (some s) =
    if role_in (viewer ∷ []) caller_role then refuse forbidden else elim (parse_status s) [
      | none ↦ refuse invalid_status
      | some status ↦ status_guard (is_last_admin username users) status
    ]

-- an update of no field is refused
abbrev pub some_field : Fields → Checked Fields
some_field f =
    if is_some f.password_hash || is_some f.role || is_some f.status
    then pass f
    else refuse no_updates

-- the three fields, in the order of the code
unfoldable pub collect :
    Kdf → List ℕ → ℕ → Option Role → Bool → Text → User → Dict Text User → Patch → Checked Fields
unfolding password_field role_field status_field
collect kdf salt now caller_role is_self username cur users body = do
  hash ← password_field kdf salt is_self cur body body.password
  role ← role_field caller_role body.role
  status ← status_field caller_role username users body.status
  some_field (record { password_hash = hash; role = role; status = status; updated_ts = now })

-- the write and the sessions that it ends
unfoldable pub commit_update : ℕ → Caller → Text → Bool → Fields → Store → Store × Answer
commit_update now c username is_self fields s = elim (put_nowait (user_update username fields) s) [
  | none ↦ (s, refused queue_full)
  | some queued ↦
      let except : Option Text = if is_self && is_some fields.password_hash then c.sid else none in
      let (out, n) = revoke_user_sessions now username (request_username c) except queued in
      (out, updated n)
]

-- who may change an account
unfoldable pub may_update : Option Role → Bool → Bool
may_update caller_role is_self =
    if role_in (viewer ∷ []) caller_role
    then is_self
    else is_self || role_in (admin ∷ maintainer ∷ []) caller_role

abbrev pub update_with : ℕ → Caller → Text → Bool → Checked Fields → Store → Store × Answer
update_with now c username is_self (refuse e) s = (s, refused e)
update_with now c username is_self (pass fields) s = commit_update now c username is_self fields s

abbrev pub update_body :
    Kdf
    → List ℕ
    → ℕ
    → Caller
    → Text
    → Bool
    → User
    → Dict Text User
    → Option Patch
    → Store
    → Store × Answer
update_body kdf salt now c username is_self cur users none s = (s, refused bad_request)
update_body kdf salt now c username is_self cur users (some body) s =
    update_with now c username is_self
      (collect kdf salt now (request_role users c.user) is_self username cur users body) s

abbrev pub update_found :
    Kdf
    → List ℕ
    → ℕ
    → Caller
    → Text
    → Bool
    → Option User
    → Dict Text User
    → Option Patch
    → Store
    → Store × Answer
update_found kdf salt now c username is_self none users body s = (s, refused not_found)
update_found kdf salt now c username is_self (some cur) users body s =
    update_body kdf salt now c username is_self cur users body s

-- `users_update_endpoint`
unfoldable pub users_update :
    Kdf → List ℕ → ℕ → Caller → Text → Dict Text User → Option Patch → Store → Store × Answer
unfolding collect commit_update may_update
users_update kdf salt now c path users body s =
    let username = clean_name path in
    let is_self = request_username c == username in
    elim (user_validate_username username) [
      | some e ↦ (s, refused (bad_name e))
      | none ↦
          if not (may_update (request_role users c.user) is_self)
          then (s, refused forbidden)
          else update_found kdf salt now c username is_self (get username users) users body s
    ]
