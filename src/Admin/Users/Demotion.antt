-- ===== src/Admin/Users/Demotion.antt =====
-- How the gateway can lose its last active admin.
use anti_bot_gw.Common.{
  any, ℕ, Bool, true, if◌then◌else◌, ◌&&◌, Option, none, some, List, [], ◌∷◌, nat_eq, list_eq,
  string_eq, ◌≡◌, refl, arith, ap, ◌∙◌, is_some, beq_refl,
}
use anti_bot_gw.Common.Dict.{Dict, get, put}
use anti_bot_gw.Common.Dict.Count.{count_values-put}
use anti_bot_gw.Challenge.Decimal.{Text}
use anti_bot_gw.Admin.Password.{Kdf}
use anti_bot_gw.Admin.Store.{Role, Fields, User, Store, Write, put_nowait}
use anti_bot_gw.Admin.Store.Role.{admin, maintainer, viewer}
use anti_bot_gw.Admin.Store.Write.{user_update}
use anti_bot_gw.Admin.Sessions.{revoke_user_sessions}
use anti_bot_gw.Admin.Writer.{Tables, apply_write, flush, update_row, set_fields}
use anti_bot_gw.Admin.Users.{pass, parse_role, Caller, Patch, is_active_admin, request_username}
use anti_bot_gw.Admin.Users.Answer.{updated}
use anti_bot_gw.Admin.Auth.{request_role, role_eq}
use anti_bot_gw.Admin.Login.{clean_name, user_validate_username}
use anti_bot_gw.Admin.Users.Update.{
  users_update, update_with, update_body, may_update, commit_update, collect, password_field,
  role_field, status_field,
}
use anti_bot_gw.Admin.Users.Accounts.{accounts, accounts-revoke_user}
use anti_bot_gw.Admin.Users.LastAdmin.{admin_count}

-- a body that only asks for the role "viewer"
abbrev pub to_viewer : Patch
to_viewer = record { password = none; current_password = []; role = some "viewer"; status = none }

demoted : ℕ → Fields
demoted now = record { password_hash = none; role = some viewer; status = none; updated_ts = now }

collect-demoted :
    (kdf : Kdf) (salt : List ℕ) (now : ℕ) (is_self : Bool) (username : Text) (cur : User)
    (users : Dict Text User)
    → collect kdf salt now (some admin) is_self username cur users to_viewer ≡ pass (demoted now)
unfolding collect password_field role_field status_field demoted parse_role any
collect-demoted kdf salt now is_self username cur users = refl

put-demoted :
    (now : ℕ) (username : Text) (users : Dict Text User) (cur : User)
    → get username users ≡ some cur
    → is_active_admin cur ≡ true
    → admin_count users ≡ 1
    → admin_count (put username (set_fields (demoted now) cur) users) ≡ 0
unfolding admin_count demoted
put-demoted now username users cur found is one = ground (
  arith,
  found,
  is,
  one,
  count_values-put is_active_admin username (set_fields (demoted now) cur) users,
)

role_eq-eq : (r : Role) → role_eq r admin ≡ true → r ≡ admin
role_eq-eq admin h = refl
role_eq-eq maintainer h = absurd (ground (arith, h))
role_eq-eq viewer h = absurd (ground (arith, h))

admin_role : (u : User) → is_active_admin u ≡ true → u.role ≡ admin
admin_role u h = role_eq-eq u.role (ground (arith, h))

push_first :
    (w : Write) (s : Store)
    → s.queue ≡ some []
    → put_nowait w s ≡ some (record s { queue = some (w ∷ []) })
unfolding put_nowait
push_first w s q = rw (q, put_nowait) refl

flush-demoted :
    (now : ℕ) (name : Text) (t : Tables) (cur : User)
    → get name t.users ≡ some cur
    → (flush (user_update name (demoted now) ∷ []) t).users
      ≡ put name (set_fields (demoted now) cur) t.users
unfolding flush apply_write update_row
flush-demoted now name t cur found = rw found refl

-- the write and what it leaves
commit_demoted :
    (now : ℕ) (c : Caller) (name : Text) (is_self : Bool) (s : Store) (t : Tables) (cur : User)
    → s.queue ≡ some []
    → get name t.users ≡ some cur
    → is_active_admin cur ≡ true
    → admin_count t.users ≡ 1
    → (s' : Store) × (n : ℕ) × (commit_update now c name is_self (demoted now) s ≡ (s', updated n))
      × (admin_count (accounts s' t) ≡ 0)
unfolding commit_update
commit_demoted now c name is_self s t cur q found is one =
    let w = user_update name (demoted now) in
    let queued : Store = record s { queue = some (w ∷ []) } in
    let except : Option Text =
      if is_self && is_some (demoted now).password_hash then c.sid else none in
    let out = revoke_user_sessions now name (request_username c) except queued in
    (
      out.0,
      out.1,
      rw (commit_update, push_first w s q) refl,
      rw (accounts-revoke_user now name (request_username c) except queued t)
          (rw (flush-demoted now name t cur found) (put-demoted now name t.users cur found is one)),
    )

body_is_commit :
    (kdf : Kdf) (salt : List ℕ) (now : ℕ) (c : Caller) (name : Text) (cur : User)
    (users : Dict Text User) (s : Store)
    → request_role users c.user ≡ some admin
    → update_body kdf salt now c name true cur users (some to_viewer) s
      ≡ commit_update now c name true (demoted now) s
body_is_commit kdf salt now c name cur users s role =
    ap (λ r. update_with now c name true (collect kdf salt now r true name cur users to_viewer) s)
      role
    ∙ ap (λ x. update_with now c name true x s) (collect-demoted kdf salt now true name cur users)

update_is_commit :
    (kdf : Kdf) (salt : List ℕ) (now : ℕ) (sid : Option Text) (path : Text) (cur : User)
    (users : Dict Text User) (s : Store)
    → user_validate_username (clean_name path) ≡ none
    → get (clean_name path) users ≡ some cur
    → request_role users (some (clean_name path)) ≡ some admin
    → users_update kdf salt now
        (record { user = some (clean_name path); sid = sid })
        path
        users
        (some to_viewer)
        s
      ≡ commit_update now
          (record { user = some (clean_name path); sid = sid })
          (clean_name path)
          true
          (demoted now)
          s
unfolding users_update may_update any
update_is_commit kdf salt now sid path cur users s fine found role =
    rw (users_update, fine, beq_refl (clean_name path), role, found)
      (body_is_commit kdf salt now (record { user = some (clean_name path); sid = sid })
        (clean_name path) cur users s role)

-- The only active admin can take the role of a viewer: the handler accepts the change, and when it is
-- written no active admin is left. (The name has the shape of one, and the queue is empty.)
pub demotion_leaves_none :
    (kdf : Kdf) (salt : List ℕ) (now : ℕ) (sid : Option Text) (path : Text) (cur : User) (s : Store)
    (t : Tables)
    → user_validate_username (clean_name path) ≡ none
    → get (clean_name path) t.users ≡ some cur
    → is_active_admin cur ≡ true
    → admin_count t.users ≡ 1
    → s.queue ≡ some []
    → (s' : Store) × (n : ℕ) × (users_update kdf salt now
          (record { user = some (clean_name path); sid = sid })
          path
          t.users
          (some to_viewer)
          s
        ≡ (s', updated n))
      × (admin_count (accounts s' t) ≡ 0)
demotion_leaves_none kdf salt now sid path cur s t fine found is one q =
    let c : Caller = record { user = some (clean_name path); sid = sid } in
    let (s', n, done, none_left) =
      commit_demoted now c (clean_name path) true s t cur q found is one in
    let role : request_role t.users (some (clean_name path)) ≡ some admin =
      rw (request_role, found) (ap some (admin_role cur is)) in
    (s', n, update_is_commit kdf salt now sid path cur t.users s fine found role ∙ done, none_left)
