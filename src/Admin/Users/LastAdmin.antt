-- ===== src/Admin/Users/LastAdmin.antt =====
-- The gateway keeps an active admin, and how it can lose the last one.
use anti_bot_gw.Common.{
  ℕ, ◌≤◌, ◌<◌, Bool, false, Option, none, some, List, [], ◌∷◌, ◌==◌, nat_eq, list_eq, String,
  string_eq, ◌≡◌, arith, ap, Bool-cases, Option-cases, inl, inr, ◌⊎◌,
}
use anti_bot_gw.Common.Dict.{Dict, get, put, remove, Unique}
use anti_bot_gw.Common.Dict.Count.{
  count_values, weight, count_values-put, count_values-remove, mem-filter_values,
}
use anti_bot_gw.Challenge.Decimal.{Text}
use anti_bot_gw.Admin.Password.{Kdf}
use anti_bot_gw.Admin.Store.{Role, Status, Fields, User, Store}
use anti_bot_gw.Admin.Store.Role.{admin}
use anti_bot_gw.Admin.Store.Status.{active, disabled, pending as pending_status}
use anti_bot_gw.Admin.Store.Write.{user_update, user_delete}
use anti_bot_gw.Admin.Writer.{Tables, apply_write, update_row, set_fields}
use anti_bot_gw.Admin.Writer.Restart.{pending}
use anti_bot_gw.Admin.Users.{
  pass, parse_status, Caller, Patch, is_active_admin, active_admins, is_last_admin,
  request_username,
}
use anti_bot_gw.Admin.Users.Answer.{updated, deleted}
use anti_bot_gw.Admin.Auth.{request_role, role_denied}
use anti_bot_gw.Admin.Login.{clean_name, user_validate_username}
use anti_bot_gw.Admin.Users.Update.{users_update, role_field, status_field, status_guard}
use anti_bot_gw.Admin.Users.Manage.{users_delete, commit_delete}
use anti_bot_gw.Admin.Users.Rights.{update_sound}
use anti_bot_gw.Admin.Users.Accounts.{accounts, Made, commit_update-Made, commit_delete-Made}

-- the number of active admins
unfoldable pub admin_count : Dict Text User → ℕ
admin_count = count_values is_active_admin

-- The account may lose its place among the active admins.
not_last :
    (username : Text) (users : Dict Text User) (cur : User)
    → get username users ≡ some cur
    → is_last_admin username users ≡ false
    → 1 ≤ admin_count users
    → weight is_active_admin (some cur) < admin_count users
unfolding is_last_admin active_admins admin_count count_values
not_last username users cur found spare h = elim (Bool-cases (is_active_admin cur)) [
  | inl is ↦
      ground (arith, is, spare, h, mem-filter_values is_active_admin username cur users found is)
  | inr no_admin ↦ ground (arith, no_admin, h)
]

remove-admin_count :
    (username : Text) (users : Dict Text User) (cur : User)
    → Unique users
    → get username users ≡ some cur
    → is_last_admin username users ≡ false
    → 1 ≤ admin_count users
    → 1 ≤ admin_count (remove username users)
unfolding admin_count
remove-admin_count username users cur u found spare h = ground (
  arith,
  found,
  count_values-remove is_active_admin username users u,
  not_last username users cur found spare h,
)

put-admin_count :
    (username : Text) (users : Dict Text User) (cur new : User)
    → get username users ≡ some cur
    → (is_last_admin username users ≡ false)
      ⊎ (weight is_active_admin (some cur) ≤ weight is_active_admin (some new))
    → 1 ≤ admin_count users
    → 1 ≤ admin_count (put username new users)
unfolding admin_count
put-admin_count username users cur new found (inl spare) h = omega (
  arith,
  ap (weight is_active_admin) found,
  count_values-put is_active_admin username new users,
  not_last username users cur found spare h,
)
put-admin_count username users cur new found (inr more) h = omega (
  arith,
  h,
  more,
  ap (weight is_active_admin) found,
  count_values-put is_active_admin username new users,
)

-- an update that names no role
same_role :
    (caller_role : Option Role) (f : Fields)
    → role_field caller_role none ≡ pass f.role
    → f.role ≡ none
unfolding role_field
same_role caller_role f h = ground (arith, h)

no_status :
    (f : Fields) (cur : User)
    → f.role ≡ none
    → f.status ≡ none
    → weight is_active_admin (some cur) ≤ weight is_active_admin (some (set_fields f cur))
no_status f cur r h = rw (r, h) (omega arith)

switched_on :
    (f : Fields) (cur : User)
    → f.role ≡ none
    → f.status ≡ some active
    → weight is_active_admin (some cur) ≤ weight is_active_admin (some (set_fields f cur))
switched_on f cur r h = rw (r, h) (ground arith)

guarded :
    (last : Bool) (status : Status) (f : Fields) (cur : User)
    → f.role ≡ none
    → status_guard last status ≡ pass f.status
    → (last ≡ false)
      ⊎ (weight is_active_admin (some cur) ≤ weight is_active_admin (some (set_fields f cur)))
guarded last active f cur r h = inr (switched_on f cur r (ground (arith, h)))
guarded last disabled f cur r h = inl (ground (arith, h))
guarded last pending_status f cur r h = inl (ground (arith, h))

status_kept :
    (caller_role : Option Role) (username : Text) (users : Dict Text User) (s : Option String)
    (f : Fields) (cur : User)
    → f.role ≡ none
    → status_field caller_role username users s ≡ pass f.status
    → (is_last_admin username users ≡ false)
      ⊎ (weight is_active_admin (some cur) ≤ weight is_active_admin (some (set_fields f cur)))
unfolding status_field
status_kept caller_role username users none f cur r h = inr (no_status f cur r (ground (arith, h)))
status_kept caller_role username users (some s) f cur r h = elim (Option-cases (parse_status s)) [
  | inl bad ↦ absurd (ground (arith, h, bad))
  | inr (status, e) ↦ guarded (is_last_admin username users) status f cur r (ground (arith, h, e))
]

update-admin_count :
    (username : Text) (f : Fields) (cur : User) (after : Dict Text User) (t : Tables)
    → get username t.users ≡ some cur
    → (is_last_admin username t.users ≡ false)
      ⊎ (weight is_active_admin (some cur) ≤ weight is_active_admin (some (set_fields f cur)))
    → 1 ≤ admin_count t.users
    → Made (user_update username f) after t
    → 1 ≤ admin_count after
unfolding apply_write update_row
update-admin_count username f cur after t found kept h (inl same) = rw same h
update-admin_count username f cur after t found kept h (inr made) =
    rw (made, found) (put-admin_count username t.users cur (set_fields f cur) found kept h)

delete-admin_count :
    (username : Text) (cur : User) (after : Dict Text User) (t : Tables)
    → Unique t.users
    → get username t.users ≡ some cur
    → is_last_admin username t.users ≡ false
    → 1 ≤ admin_count t.users
    → Made (user_delete username) after t
    → 1 ≤ admin_count after
unfolding apply_write
delete-admin_count username cur after t u found spare h (inl same) = rw same h
delete-admin_count username cur after t u found spare h (inr made) =
    rw made (remove-admin_count username t.users cur u found spare h)

-- An update that names no role leaves an active admin where there was one: the check on the last
-- admin and the write agree. (Nothing else is in the queue.)
pub update_keeps_admin :
    (kdf : Kdf) (salt : List ℕ) (now : ℕ) (c : Caller) (path : Text) (body : Patch) (s s' : Store)
    (n : ℕ) (t : Tables)
    → pending s.queue ≡ []
    → body.role ≡ none
    → 1 ≤ admin_count t.users
    → users_update kdf salt now c path t.users (some body) s ≡ (s', updated n)
    → 1 ≤ admin_count (accounts s' t)
update_keeps_admin kdf salt now c path body s s' n t q plain h e =
    let (cur, given_body, f, given, found, right, (hash, role, status), done) =
      update_sound kdf salt now c t.users path (some body) s s' n e in
    let same : given_body ≡ body = ground (arith, given) in
    let is_self = request_username c == clean_name path in
    let r = same_role (request_role t.users c.user) f (ground (arith, role, same, plain)) in
    update-admin_count (clean_name path) f cur (accounts s' t) t found
      (status_kept (request_role t.users c.user) (clean_name path) t.users given_body.status f cur r
        status)
      h (commit_update-Made now c (clean_name path) is_self f s s' n t q done)

-- what a deletion that goes through has passed
pub delete_sound :
    (now : ℕ) (c : Caller) (path : Text) (users : Dict Text User) (s s' : Store) (n : ℕ)
    → users_delete now c path users s ≡ (s', deleted n)
    → (cur : User) × (get (clean_name path) users ≡ some cur)
      × (role_denied users c.user (admin ∷ []) ≡ false)
      × (is_last_admin (clean_name path) users ≡ false)
      × ((request_username c == clean_name path) ≡ false)
      × (commit_delete now c (clean_name path) s ≡ (s', deleted n))
unfolding users_delete
delete_sound now c path users s s' n h =
    elim (Option-cases (user_validate_username (clean_name path))) [
      | inr (e, bad) ↦ absurd (ground (arith, h, bad))
      | inl fine ↦ elim (Option-cases (get (clean_name path) users)) [
        | inl missing ↦ absurd (ground (arith, h, fine, missing))
        | inr (cur, found) ↦ elim (Bool-cases (is_last_admin (clean_name path) users)) [
          | inl last ↦ absurd (ground (arith, h, fine, found, last))
          | inr spare ↦ (
            cur,
            found,
            ground (arith, h, fine, found, spare),
            spare,
            ground (arith, h, fine, found, spare),
            ground (arith, h, fine, found, spare),
          )
        ]
      ]
    ]

-- A deletion that goes through was asked for by an admin, and leaves an active admin where there was
-- one. (Nothing else is in the queue.)
pub delete_keeps_admin :
    (now : ℕ) (c : Caller) (path : Text) (s s' : Store) (n : ℕ) (t : Tables)
    → Unique t.users
    → pending s.queue ≡ []
    → 1 ≤ admin_count t.users
    → users_delete now c path t.users s ≡ (s', deleted n)
    → (role_denied t.users c.user (admin ∷ []) ≡ false) × (1 ≤ admin_count (accounts s' t))
delete_keeps_admin now c path s s' n t u q h e =
    let (cur, found, right, spare, other, done) = delete_sound now c path t.users s s' n e in
    (
      right,
      delete-admin_count (clean_name path) cur (accounts s' t) t u found spare h
          (commit_delete-Made now c (clean_name path) s s' n t q done),
    )
