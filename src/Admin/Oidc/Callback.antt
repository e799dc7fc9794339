-- ===== src/Admin/Oidc/Callback.antt =====
-- admin/oidc.py, `oidc_login_endpoint` and `oidc_callback_endpoint`. The two requests to the provider
-- are answered at once, and a write of a new account to the table does not fail.
use anti_bot_gw.Common.{
  ℕ, ◌+◌, ltb, if◌then◌else◌, ◌&&◌, ◌||◌, not, Option, none, some, [], take, ◌==◌, nat_eq, list_eq,
  String,
}
use anti_bot_gw.Common.Dict.{Dict, get, put, remove}
use anti_bot_gw.Admin.Strip.{strip}
use anti_bot_gw.Challenge.Decimal.{Text}
use anti_bot_gw.Challenge.Pow.{is_nil}
use anti_bot_gw.Admin.Store.{User, Store, put_or_drop}
use anti_bot_gw.Admin.Store.Status.{active, pending}
use anti_bot_gw.Admin.Store.Write.{user_login_recorded}
use anti_bot_gw.Admin.Sessions.{session_create}
use anti_bot_gw.Admin.Login.{safe_next, status_eq}
use anti_bot_gw.Admin.Oidc.{
  Problem, Reply, ok, bad_status, times_out, unreachable, Tokens, Claims, Userinfo, Provider,
  Config, Entry, States, state_ttl, safe_username, purge_expired_states, verify_id_token,
}
use anti_bot_gw.Admin.Oidc.Problem.{
  idp_error, missing_params, invalid_state, token_exchange, no_access_token, token_replay, idtoken,
  userinfo, timeout, network, identity_mismatch, unmappable, disabled,
}

-- `oidc_login_endpoint`: the states with the new one
unfoldable pub oidc_login : Config → ℕ → Text → Text → States → States
oidc_login cfg now state next_url states =
    put state
      (record {
        next_url = safe_next cfg.post_login next_url;
        expires_ts = now + state_ttl;
        nonce = none;
      })
      (purge_expired_states now states)

-- the query of a callback; a missing parameter is empty
pub record Query : Type 0 where
  pub error : Text
  pub code : Text
  pub state : Text

-- What a callback ends in: `signed_in` has the session's token and the place to go to.
pub data Outcome : Type 0 where
  problem : Problem → Outcome
  pending_approval : Outcome
  signed_in : Text → Text → Outcome

-- What the callback changes: the states, the sessions and the table of accounts.
pub record World : Type 0 where
  pub states : States
  pub store : Store
  pub users : Dict Text User

-- The request: its time, its address and user agent, and the id that a new session would have.
pub record Request : Type 0 where
  pub now : ℕ
  pub ip : String
  pub ua : Text
  pub new_sid : Text

-- the row of a new account
abbrev pub pending_user : Config → ℕ → User
pending_user cfg now = record {
  password_hash = [];
  role = cfg.default_role;
  status = pending;
  created_ts = now;
  updated_ts = now;
  last_login_ts = 0;
  last_login_ip = "";
}

-- the account of the name: a new one waits for approval, and an active one gets a session
abbrev pub enter : Config → Request → Text → Text → Option User → World → World × Outcome
enter cfg req next_url username none w =
    (record w { users = put username (pending_user cfg req.now) w.users }, pending_approval)
enter cfg req next_url username (some u) w =
    if status_eq u.status pending
    then (w, pending_approval)
    else if not (status_eq u.status active)
    then (w, problem disabled)
    else (let (made, token) =
          session_create cfg.crypto req.now req.new_sid username req.ip (take 512 req.ua) w.store in
        let marked : Store = record made {
          active_sessions = put username req.now made.active_sessions;
        } in
        (
          record w { store = put_or_drop (user_login_recorded req.now req.ip username) marked },
          signed_in token next_url,
        ))

-- `userinfo.get("preferred_username") or userinfo.get("email") or ""`
abbrev pub preferred_of : Userinfo → Text
preferred_of u = if is_nil u.preferred_username then u.email else u.preferred_username

abbrev pub with_username : Config → Request → Text → Option Text → World → World × Outcome
with_username cfg req next_url none w = (w, problem unmappable)
with_username cfg req next_url (some username) w =
    enter cfg req next_url username (get username w.users) w

abbrev pub with_userinfo :
    Config → Request → Text → Claims → Reply Userinfo → World → World × Outcome
with_userinfo cfg req next_url claims times_out w = (w, problem timeout)
with_userinfo cfg req next_url claims unreachable w = (w, problem network)
with_userinfo cfg req next_url claims bad_status w = (w, problem userinfo)
with_userinfo cfg req next_url claims (ok u) w =
    if not (is_nil claims.sub) && (not (is_nil u.sub) && not (claims.sub == u.sub))
    then (w, problem identity_mismatch)
    else with_username cfg req next_url (safe_username (strip (preferred_of u))) w

abbrev pub with_claims :
    Config → Provider → Request → Text → Text → Option Claims → World → World × Outcome
with_claims cfg idp req next_url access none w = (w, problem idtoken)
with_claims cfg idp req next_url access (some claims) w =
    with_userinfo cfg req next_url claims (idp.userinfo_of access) w

abbrev pub with_tokens :
    Config → Provider → Request → Entry → Reply Tokens → World → World × Outcome
with_tokens cfg idp req e times_out w = (w, problem timeout)
with_tokens cfg idp req e unreachable w = (w, problem network)
with_tokens cfg idp req e bad_status w = (w, problem token_exchange)
with_tokens cfg idp req e (ok t) w =
    if is_nil t.access_token
    then (w, problem no_access_token)
    else if is_nil t.id_token
    then (w, problem token_replay)
    else with_claims cfg idp req e.next_url t.access_token
        (verify_id_token cfg idp t.id_token e.nonce) w

abbrev pub with_state : Config → Provider → Request → Text → Option Entry → World → World × Outcome
with_state cfg idp req code none w = (w, problem invalid_state)
with_state cfg idp req code (some e) w =
    if ltb e.expires_ts req.now
    then (w, problem invalid_state)
    else with_tokens cfg idp req e (idp.exchange code) w

-- `oidc_callback_endpoint`
unfoldable pub oidc_callback : Config → Provider → Request → Query → World → World × Outcome
oidc_callback cfg idp req q w =
    let purged : World = record w { states = purge_expired_states req.now w.states } in
    if not (is_nil q.error)
    then (purged, problem idp_error)
    else if is_nil q.code || is_nil q.state
    then (purged, problem missing_params)
    else with_state cfg idp req q.code (get q.state purged.states)
        (record purged { states = remove q.state purged.states })
