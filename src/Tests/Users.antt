-- ===== src/Tests/Users.antt =====
-- The accounts and single sign-on, at concrete inputs. The identity provider is a stand-in.
use anti_bot_gw.Common.{
  ℕ, suc, ◌+◌, ◌*◌, ◌/◌, ◌%◌, ◌≤◌, ◌<◌, min, Bool, true, false, ltb, leb, ◌=ℕ=◌, if◌then◌else◌,
  ◌&&◌, ◌||◌, not, Option, none, some, List, [], ◌∷◌, ◌++◌, length, any, ◌==◌, nat_eq, list_eq,
  String, string_eq, ◌≡◌, ◌≢◌, ◌↔◌, refl, arith, is_some,
}
use anti_bot_gw.Common.Dict.{Dict, get, Unique, member}
use anti_bot_gw.Admin.Store.{Session, Store, User, Role, Status, Write}
use anti_bot_gw.Admin.Store.Role.{admin, maintainer, viewer}
use anti_bot_gw.Admin.Store.Status.{active}
use anti_bot_gw.Admin.Token.{Crypto, session_ttl, session_sign, sid_re}
use anti_bot_gw.Admin.Password.{password_verify}
use anti_bot_gw.Admin.Sessions.{session_verify, session_create}
use anti_bot_gw.Admin.Auth.{request_role, role_in, role_denied}
use anti_bot_gw.Admin.Login.{clean_name, user_validate_username}
use anti_bot_gw.Admin.Writer.{Tables}
use anti_bot_gw.Admin.Users.{Caller, Patch}
use anti_bot_gw.Admin.Users.Answer.{updated, deleted}
use anti_bot_gw.Admin.Users.Update.{users_update}
use anti_bot_gw.Admin.Users.Manage.{users_delete}
use anti_bot_gw.Admin.Users.Rights.{update_rights}
use anti_bot_gw.Admin.Users.Accounts.{accounts}
use anti_bot_gw.Admin.Users.LastAdmin.{admin_count, update_keeps_admin, delete_keeps_admin}
use anti_bot_gw.Admin.Users.Demotion.{to_viewer, demotion_leaves_none}
use anti_bot_gw.Admin.Oidc.{Provider, Reply, times_out}
use anti_bot_gw.Admin.Oidc
use anti_bot_gw.Admin.Oidc.Callback.{Query, World, Request, oidc_login, oidc_callback}
use anti_bot_gw.Admin.Oidc.Nonce
use anti_bot_gw.Admin.Oidc.Nonce.{oidc_signs_nobody_in}
use anti_bot_gw.Tests.Accounts.{account, crypto, kdf, root, other, users, tables, store, sid}

abbrev caller : Caller
caller = record { user = some root; sid = none }

-- a body that disables the account
abbrev disable : Patch
disable = record { password = none; current_password = []; role = none; status = some "disabled" }

abbrev updated_store : Store
updated_store = (users_update kdf [] 9_000 caller other users (some disable) store).0

does_update :
    users_update kdf [] 9_000 caller other users (some disable) store ≡ (updated_store, updated 0)
unfolding users_update user_validate_username clean_name anti_bot_gw.Admin.Strip.lower
    anti_bot_gw.Admin.Strip.strip anti_bot_gw.Admin.Token.username_re get any
    anti_bot_gw.Common.filter anti_bot_gw.Admin.Store.put_nowait
    anti_bot_gw.Admin.Sessions.revoke_user_sessions anti_bot_gw.Common.Dict.keys_where
does_update = refl

two_admins : 1 ≤ admin_count users
unfolding admin_count anti_bot_gw.Common.Dict.Count.count_values anti_bot_gw.Common.filter
two_admins = omega arith

update_rights_example :
    (cur : User) × (body : Patch) × (some disable ≡ some body)
    × (get (clean_name other) users ≡ some cur)
    × ((root == clean_name other
          || role_in (admin ∷ maintainer ∷ []) (request_role users (some root)))
        ≡ true)
    × ((not (is_some body.role) || role_in (admin ∷ []) (request_role users (some root))) ≡ true)
    × ((not (is_some body.status) || not (role_in (viewer ∷ []) (request_role users (some root))))
        ≡ true)
    × ((not (is_some body.password && root == clean_name other)
          || password_verify kdf body.current_password cur.password_hash)
        ≡ true)
update_rights_example =
    update_rights kdf [] 9_000 caller users other (some disable) store updated_store 0 does_update

update_keeps_admin_example : 1 ≤ admin_count (accounts updated_store tables)
update_keeps_admin_example =
    update_keeps_admin kdf [] 9_000 caller other disable store updated_store 0 tables refl refl
      two_admins does_update

abbrev deleted_store : Store
deleted_store = (users_delete 9_000 caller other users store).0

does_delete : users_delete 9_000 caller other users store ≡ (deleted_store, deleted 0)
unfolding users_delete user_validate_username clean_name anti_bot_gw.Admin.Strip.lower
    anti_bot_gw.Admin.Strip.strip anti_bot_gw.Admin.Token.username_re get any
    anti_bot_gw.Common.filter anti_bot_gw.Admin.Store.put_nowait role_denied
    anti_bot_gw.Admin.Sessions.revoke_user_sessions anti_bot_gw.Common.Dict.keys_where
does_delete = refl

two_users : Unique users
unfolding get
two_users = (refl, (refl, tt))

delete_keeps_admin_example :
    (role_denied users (some root) (admin ∷ []) ≡ false)
    × (1 ≤ admin_count (accounts deleted_store tables))
delete_keeps_admin_example =
    delete_keeps_admin 9_000 caller other store deleted_store 0 tables two_users refl two_admins
      does_delete

abbrev alone : Tables
alone = record { users = (root, account admin) ∷ []; user_sessions = [] }

root_is : get (clean_name root) alone.users ≡ some (account admin)
unfolding get clean_name anti_bot_gw.Admin.Strip.lower anti_bot_gw.Admin.Strip.strip
root_is = refl

root_name : user_validate_username (clean_name root) ≡ none
unfolding user_validate_username clean_name anti_bot_gw.Admin.Strip.lower
    anti_bot_gw.Admin.Strip.strip anti_bot_gw.Admin.Token.username_re
root_name = refl

one_admin : admin_count alone.users ≡ 1
unfolding admin_count anti_bot_gw.Common.Dict.Count.count_values anti_bot_gw.Common.filter
one_admin = refl

demotion_leaves_none_example :
    (s' : Store) × (n : ℕ) × (users_update kdf [] 9_000
        (record { user = some (clean_name root); sid = none })
        root
        alone.users
        (some to_viewer)
        store
      ≡ (s', updated n))
    × (admin_count (accounts s' alone) ≡ 0)
demotion_leaves_none_example =
    demotion_leaves_none kdf [] 9_000 none root (account admin) store alone root_name root_is refl
      one_admin refl

abbrev provider : Provider
provider = record {
  exchange = λ code. Oidc.ok (record { access_token = code; id_token = code });
  userinfo_of = λ token. Oidc.ok (record { sub = token; preferred_username = root; email = [] });
  jwks = λ forced. some (record { kid = some root; key = root } ∷ []);
  header = λ token. some (record { alg = root; kid = root });
  decode = λ token key. some (record { sub = token; nonce = token });
}

abbrev sso : Oidc.Config
sso = record {
  crypto = crypto;
  default_role = viewer;
  post_login = b'/' ∷ [];
  allowed_algs = root ∷ [];
}

abbrev world : World
world = record { states = []; store = store; users = users }

abbrev asked : World
asked = record world { states = oidc_login sso 1_000 sid [] [] }

abbrev request : Request
request = record { now = 2_000; ip = "192.0.2.1"; ua = []; new_sid = sid }

abbrev query : Query
query = record { error = []; code = root; state = sid }

oidc_signs_nobody_in_example :
    ((oidc_callback sso provider request query asked).0.store ≡ store)
    × ((oidc_callback sso provider request query asked).0.users ≡ users)
oidc_signs_nobody_in_example =
    oidc_signs_nobody_in (Nonce.next Nonce.here (Nonce.logs_in sso 1_000 sid [] world)) sso provider
      request query refl
