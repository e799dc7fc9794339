-- ===== src/Admin/Login.antt =====
-- admin/users.py, `login_submit_endpoint` and `logout_endpoint`. Times are in milliseconds; the
-- session's random id is an argument, and a form comes as its fields.
pub mod Sound
pub mod Cookies
pub mod Limit
use anti_bot_gw.Common.{
  ℕ, suc, ◌+◌, ◌*◌, ◌≤◌, ◌<◌, Bool, true, false, ltb, leb, ◌=ℕ=◌, if◌then◌else◌, ◌&&◌, ◌||◌, not,
  Option, none, some, List, [], ◌∷◌, ◌++◌, length, take, ◌==◌, nat_eq, list_eq, String, string_eq,
}
use anti_bot_gw.Common.Dict.{Dict, get, put, remove}
use anti_bot_gw.Admin.Strip.{strip, lower}
use anti_bot_gw.Challenge.Decimal.{Text}
use anti_bot_gw.Challenge.Pow.{is_nil, split}
use anti_bot_gw.Pipeline.Windows.{login_rate_limit}
use anti_bot_gw.Admin.Password.{Kdf, password_verify}
use anti_bot_gw.Admin.Store.{Status, User, Store, put_or_drop}
use anti_bot_gw.Admin.Store.Status.{active}
use anti_bot_gw.Admin.Store.Write.{user_login_recorded}
use anti_bot_gw.Admin.Token.{Crypto, Parsed, username_re, session_parse}
use anti_bot_gw.Admin.Sessions.{enforce_session_limit, session_create, session_revoke}
use anti_bot_gw.Admin.Auth.{csrf_token}

-- what is wrong with a username
pub data NameError : Type 0 where
  required too_long bad_characters : NameError

-- `_user_validate_username`: `none` where the name is fine
unfoldable pub user_validate_username : Text → Option NameError
user_validate_username u =
    if is_nil u
    then some required
    else if ltb 64 (length u)
    then some too_long
    else if not (username_re u)
    then some bad_characters
    else none

-- the fields of the form, as `parse_qs` gives them
pub record Form : Type 0 where
  pub username : Text
  pub password : Text
  pub next_url : Text

-- The parameters of the gateway that a login uses.
pub record Config : Type 0 where
  pub crypto : Crypto
  pub kdf : Kdf
  pub max_sessions : ℕ
  pub control_center : Text

-- The state that a login changes.
pub record State : Type 0 where
  pub store : Store
  pub windows : Dict String (ℕ × ℕ)

-- What a login answers: `signed_in` has the two cookies and the place to go to.
pub data Answer : Type 0 where
  too_many_attempts timeout invalid_credentials : Answer
  signed_in : Text → Text → Text → Answer

-- `not next_url.startswith("/") or next_url.startswith("//")`
unfoldable pub is_outside : Text → Bool
is_outside [] = true
is_outside (c ∷ []) = not (c =ℕ= b'/')
is_outside (c ∷ d ∷ s) = not (c =ℕ= b'/') || d =ℕ= b'/'

unfoldable pub safe_next : Text → Text → Text
unfolding is_outside
safe_next control_center next_url = if is_outside next_url then control_center else next_url

-- `token.split("|")[1]`
abbrev pub second_part : List Text → Text
second_part (p ∷ q ∷ ps) = q
second_part _ = []

abbrev pub status_eq : Status → Status → Bool
status_eq Status.active Status.active = true
status_eq Status.disabled Status.disabled = true
status_eq Status.pending Status.pending = true
status_eq _ _ = false

-- the state after the credentials are found right, and the session's token
unfoldable pub start_session : Config → ℕ → Text → String → Text → Text → Store → Store × Text
start_session cfg now sid ip ua username s =
    let noted = put_or_drop (user_login_recorded now ip username) s in
    let marked : Store = record noted {
      active_sessions = put username now noted.active_sessions;
    } in
    session_create cfg.crypto now sid username ip (take 512 ua)
      (enforce_session_limit cfg.max_sessions now username marked)

abbrev pub answer_of : Config → Text → Store × Text → Store × Answer
answer_of cfg next_url r = (
  r.0,
  signed_in r.1 (csrf_token cfg.crypto (second_part (split r.1)))
      (safe_next cfg.control_center next_url),
)

abbrev pub login_user :
    Config → ℕ → Text → String → Text → Text → Form → Option User → Store → Store × Answer
login_user cfg now sid ip ua username form none s = (s, invalid_credentials)
login_user cfg now sid ip ua username form (some u) s =
    if not (status_eq u.status active)
    then (s, invalid_credentials)
    else if not (password_verify cfg.kdf form.password u.password_hash)
    then (s, invalid_credentials)
    else answer_of cfg form.next_url (start_session cfg now sid ip ua username s)

-- `(… or "").strip().lower()`
unfoldable pub clean_name : Text → Text
clean_name name = lower (strip name)

abbrev pub login_form :
    Config → ℕ → Text → String → Text → Dict Text User → Option Form → Store → Store × Answer
login_form cfg now sid ip ua users none s = (s, timeout)
login_form cfg now sid ip ua users (some form) s =
    let username = clean_name form.username in
    elim (user_validate_username username) [
      | some e ↦ (s, invalid_credentials)
      | none ↦
          if is_nil form.password
          then (s, invalid_credentials)
          else login_user cfg now sid ip ua username form (get username users) s
    ]

-- `login_submit_endpoint`: `users` is the table, and the form is missing where reading it times out
unfoldable pub login_submit :
    Config → ℕ → Text → String → Text → Dict Text User → Option Form → State → State × Answer
unfolding user_validate_username start_session safe_next clean_name
login_submit cfg now sid ip ua users form st =
    let (windows, allowed) = login_rate_limit now ip st.windows in
    let limited : State = record st { windows = windows } in
    let (store, answer) = login_form cfg now sid ip ua users form st.store in
    if allowed then (record limited { store = store }, answer) else (limited, too_many_attempts)

abbrev pub logout_at : ℕ → Option Parsed → Store → Store
logout_at now none s = s
logout_at now (some p) s =
    if is_nil p.username
    then s
    else (let out : Store = record s { active_sessions = remove p.username s.active_sessions } in
        if is_nil p.sid then out else (session_revoke now p.sid p.username out).0)

-- `logout_endpoint`, after the check of the anti-forgery token
unfoldable pub logout : Crypto → ℕ → Text → Store → Store
logout crypto now cookie s =
    if is_nil cookie then s else logout_at now (session_parse crypto now cookie) s
