-- ===== src/Admin/Users.antt =====
-- admin/users.py, the handlers that create, change and delete an operator's account, and the one that
-- revokes a session. The table is what the database has when the request is handled; the writes go to
-- the queue. A body comes as its fields, where a missing text is empty.
pub mod Update
pub mod Manage
pub mod Rights
pub mod Accounts
pub mod LastAdmin
pub mod Demotion
use anti_bot_gw.Common.{
  ℕ, suc, ◌+◌, ◌≤◌, ◌<◌, Bool, true, false, ltb, leb, ◌=ℕ=◌, if◌then◌else◌, ◌&&◌, ◌||◌, not, Option,
  none, some, List, [], ◌∷◌, ◌++◌, length, filter, ◌==◌, nat_eq, list_eq, String, string_eq,
  is_some,
}
use anti_bot_gw.Common.Dict.{Dict, get, mem}
use anti_bot_gw.Common.Sort.Keyed.{firsts}
use anti_bot_gw.Challenge.Decimal.{Text}
use anti_bot_gw.Challenge.Pow.{is_nil}
use anti_bot_gw.Admin.Password.{
  Kdf, Weakness, validate_password_strength, password_hash, password_verify,
}
use anti_bot_gw.Admin.Store.{Role, Status, Fields, User, Session, Store, put_nowait}
use anti_bot_gw.Admin.Store.Role.{admin, maintainer, viewer}
use anti_bot_gw.Admin.Store.Status.{active, disabled}
use anti_bot_gw.Admin.Store.Write.{user_create, user_update, user_delete}
use anti_bot_gw.Admin.Token.{sid_re}
use anti_bot_gw.Admin.Sessions.{session_revoke, revoke_user_sessions}
use anti_bot_gw.Admin.Auth.{request_role, role_eq, role_in, role_denied}
use anti_bot_gw.Admin.Login.{NameError, user_validate_username, clean_name, status_eq}

-- Why a handler refuses.
pub data Refusal : Type 0 where
  bad_name : NameError → Refusal
  weak : Weakness → Refusal
  forbidden not_found bad_request exists current_password_required current_password_wrong
        invalid_role invalid_status last_admin own_account no_updates queue_full invalid_sid
        raised :
      Refusal

-- What a handler answers.
pub data Answer : Type 0 where
  refused : Refusal → Answer
  created : Answer
  updated : ℕ → Answer
  deleted : ℕ → Answer
  session_revoked : Bool → Answer

-- A check passes on a value or answers the request.
pub data Checked {ℓ} (A : Type ℓ) : Type ℓ where
  pass : A → Checked A
  refuse : Refusal → Checked A

infixl 5 ◌>>=◌
abbrev pub ◌>>=◌ {ℓ κ} : {A : Type ℓ} {B : Type κ} → Checked A → (A → Checked B) → Checked B
pass a >>= f = f a
refuse e >>= f = refuse e

-- The session of the request: its user and its id.
pub record Caller : Type 0 where
  pub user : Option Text
  pub sid : Option Text

-- `_request_username`
abbrev pub request_username : Caller → Text
request_username c = elim c.user [
  | none ↦ b'u' ∷ b'n' ∷ b'k' ∷ b'n' ∷ b'o' ∷ b'w' ∷ b'n' ∷ []
  | some u ↦ u
]

unfoldable pub parse_role : String → Option Role
parse_role r =
    if r == "admin"
    then some admin
    else if r == "maintainer"
    then some maintainer
    else if r == "viewer"
    then some viewer
    else none

unfoldable pub parse_status : String → Option Status
parse_status s =
    if s == "active" then some active else if s == "disabled" then some disabled else none

-- `[u for u in _user_load_all() if u["status"] == "active" and u.get("role") == "admin"]`
abbrev pub is_active_admin : User → Bool
is_active_admin u = status_eq u.status active && role_eq u.role admin

unfoldable pub active_admins : Dict Text User → List (Text × User)
active_admins = filter (λ p. is_active_admin p.1)

unfoldable pub is_last_admin : Text → Dict Text User → Bool
unfolding active_admins
is_last_admin username users =
    leb (length (active_admins users)) 1 && mem username (firsts (active_admins users))

-- the fields of a body that changes an account
pub record Patch : Type 0 where
  pub password : Option Text
  pub current_password : Text
  pub role : Option String
  pub status : Option String
