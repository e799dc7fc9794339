-- ===== src/Admin/Users/Rights.antt =====
-- Who may change an account.
use anti_bot_gw.Common.{
  ℕ, Bool, true, ◌&&◌, ◌||◌, not, Option, none, some, List, [], ◌∷◌, ◌==◌, nat_eq, list_eq, String,
  is_some, ◌≡◌, refl, arith, Option-cases, Bool-cases, inl, inr, ◌⊎◌,
}
use anti_bot_gw.Common.Dict.{Dict, get}
use anti_bot_gw.Challenge.Decimal.{Text}
use anti_bot_gw.Admin.Password.{Kdf, validate_password_strength, password_verify}
use anti_bot_gw.Admin.Store.{Role, Status, Fields, User, Store}
use anti_bot_gw.Admin.Store.Role.{admin, maintainer, viewer}
use anti_bot_gw.Admin.Auth.{request_role, role_in}
use anti_bot_gw.Admin.Login.{user_validate_username, clean_name}
use anti_bot_gw.Admin.Users.{Refusal, Checked, pass, refuse, Caller, request_username, Patch}
use anti_bot_gw.Admin.Users.Answer.{updated}
use anti_bot_gw.Admin.Users.Update.{
  password_field, role_field, status_field, collect, commit_update, may_update, update_body,
  users_update,
}

Checked-cases {ℓ} :
    {A : Type ℓ} (r : Checked A) → ((a : A) × (r ≡ pass a)) ⊎ ((e : Refusal) × (r ≡ refuse e))
Checked-cases (pass a) = inl (a, refl)
Checked-cases (refuse e) = inr (e, refl)

-- The fields that pass, each by its own check.
abbrev pub Collected :
    Kdf → List ℕ → ℕ → Option Role → Bool → Text → User → Dict Text User → Patch → Fields → Type 0
Collected kdf salt now caller_role is_self username cur users body f =
    (password_field kdf salt is_self cur body body.password ≡ pass f.password_hash)
    × (role_field caller_role body.role ≡ pass f.role)
    × (status_field caller_role username users body.status ≡ pass f.status)

pub collect_sound :
    (kdf : Kdf) (salt : List ℕ) (now : ℕ) (caller_role : Option Role) (is_self : Bool)
    (username : Text) (cur : User) (users : Dict Text User) (body : Patch) (f : Fields)
    → collect kdf salt now caller_role is_self username cur users body ≡ pass f
    → Collected kdf salt now caller_role is_self username cur users body f
unfolding collect
collect_sound kdf salt now caller_role is_self username cur users body f h =
    elim (Checked-cases (password_field kdf salt is_self cur body body.password)) [
      | inr (e, bad) ↦ absurd (ground (arith, h, bad))
      | inl (x, hx) ↦ elim (Checked-cases (role_field caller_role body.role)) [
        | inr (e, bad) ↦ absurd (ground (arith, h, hx, bad))
        | inl (y, hy) ↦ elim (Checked-cases (status_field caller_role username users body.status)) [
          | inr (e, bad) ↦ absurd (ground (arith, h, hx, hy, bad))
          | inl (z, hz) ↦ ground (arith, h, hx, hy, hz)
        ]
      ]
    ]

-- A password is changed by its owner only with the one before it; a role only by an admin; a status
-- only by someone who is no viewer.
pub role_right :
    (caller_role : Option Role) (r : Option String) (role : Option Role)
    → role_field caller_role r ≡ pass role
    → (not (is_some r) || role_in (admin ∷ []) caller_role) ≡ true
unfolding role_field
role_right caller_role none role h = refl
role_right caller_role (some r) role h = ground (arith, h)

status_right :
    (caller_role : Option Role) (username : Text) (users : Dict Text User) (s : Option String)
    (status : Option Status)
    → status_field caller_role username users s ≡ pass status
    → (not (is_some s) || not (role_in (viewer ∷ []) caller_role)) ≡ true
unfolding status_field
status_right caller_role username users none status h = refl
status_right caller_role username users (some s) status h = ground (arith, h)

password_right :
    (kdf : Kdf) (salt : List ℕ) (is_self : Bool) (cur : User) (body : Patch) (o : Option Text)
    (hash : Option Text)
    → password_field kdf salt is_self cur body o ≡ pass hash
    → (not (is_some o && is_self) || password_verify kdf body.current_password cur.password_hash)
      ≡ true
unfolding password_field
password_right kdf salt is_self cur body none hash h = refl
password_right kdf salt is_self cur body (some pw) hash h =
    elim (Option-cases (validate_password_strength pw)) [
      | inr (w, bad) ↦ absurd (ground (arith, h, bad))
      | inl fine ↦ ground (arith, h, fine)
    ]

module _ (kdf : Kdf) (salt : List ℕ) (now : ℕ) (c : Caller) (users : Dict Text User) where
  -- The fields that an update sets have passed their checks.
  abbrev pub Granted : Text → User → Patch → Fields → Type 0
  Granted username cur body f =
      Collected kdf salt now (request_role users c.user) (request_username c == username) username
        cur users body f

  body_sound :
      (username : Text) (cur : User) (o : Option Patch) (s s' : Store) (n : ℕ)
      → update_body kdf salt now c username (request_username c == username) cur users o s
        ≡ (s', updated n)
      → (body : Patch) × (f : Fields) × (o ≡ some body)
        × Granted username cur body f
        × (commit_update now c username (request_username c == username) f s ≡ (s', updated n))
  body_sound username cur none s s' n h = absurd (ground (arith, h))
  body_sound username cur (some body) s s' n h =
      elim (Checked-cases (
        collect kdf salt now (request_role users c.user) (request_username c == username) username
          cur users body)) [
            | inl (f, e) ↦ (
              body,
              f,
              refl,
              collect_sound kdf salt now (request_role users c.user)
                  (request_username c == username) username cur users body f e,
              ground (arith, h, e),
            )
            | inr (e, bad) ↦ absurd (ground (arith, h, bad))
          ]

  pub update_sound :
      (path : Text) (o : Option Patch) (s s' : Store) (n : ℕ)
      → users_update kdf salt now c path users o s ≡ (s', updated n)
      → (cur : User) × (body : Patch) × (f : Fields) × (o ≡ some body)
        × (get (clean_name path) users ≡ some cur)
        × (may_update (request_role users c.user) (request_username c == clean_name path) ≡ true)
        × Granted (clean_name path) cur body f
        × (commit_update now c (clean_name path) (request_username c == clean_name path) f s
            ≡ (s', updated n))
  unfolding users_update
  update_sound path o s s' n h = elim (Option-cases (user_validate_username (clean_name path))) [
    | inr (e, bad) ↦ absurd (ground (arith, h, bad))
    | inl fine ↦
        elim (Bool-cases
          (may_update (request_role users c.user) (request_username c == clean_name path))) [
            | inr no_right ↦ absurd (ground (arith, h, fine, no_right))
            | inl right ↦ elim (Option-cases (get (clean_name path) users)) [
              | inl missing ↦ absurd (ground (arith, h, fine, right, missing))
              | inr (cur, found) ↦
                  let (body, f, given, granted, done) =
                    body_sound (clean_name path) cur o s s' n
                      (ground (arith, h, fine, right, found)) in
                  (cur, body, f, given, found, right, granted, done)
            ]
          ]
  ]

  -- An update that goes through is one that the caller may make: the account is the caller's own or
  -- the caller is an admin or a maintainer; a role is changed by an admin only, a status by no viewer;
  -- and a new password of one's own is set only with the right password before it.
  pub update_rights :
      (path : Text) (o : Option Patch) (s s' : Store) (n : ℕ)
      → users_update kdf salt now c path users o s ≡ (s', updated n)
      → (cur : User) × (body : Patch) × (o ≡ some body)
        × (get (clean_name path) users ≡ some cur)
        × ((request_username c == clean_name path
              || role_in (admin ∷ maintainer ∷ []) (request_role users c.user))
            ≡ true)
        × ((not (is_some body.role) || role_in (admin ∷ []) (request_role users c.user)) ≡ true)
        × ((not (is_some body.status) || not (role_in (viewer ∷ []) (request_role users c.user)))
            ≡ true)
        × ((not (is_some body.password && request_username c == clean_name path)
              || password_verify kdf body.current_password cur.password_hash)
            ≡ true)
  unfolding may_update
  update_rights path o s s' n h =
      let (cur, body, f, given, found, right, (hash, role, status), done) =
        update_sound path o s s' n h in
      (
        cur,
        body,
        given,
        found,
        ground (arith, right),
        role_right (request_role users c.user) body.role f.role role,
        status_right (request_role users c.user) (clean_name path) users body.status f.status
            status,
        password_right kdf salt (request_username c == clean_name path) cur body body.password
            f.password_hash hash,
      )
