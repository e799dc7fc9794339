-- ===== src/Tests/Accounts.antt =====
-- The logins, the accounts and single sign-on, at concrete inputs. The digests, scrypt and the
-- identity provider are stand-ins.
use anti_bot_gw.Common.{
  max, ℕ, suc, ◌+◌, ◌*◌, ◌/◌, ◌%◌, ◌≤◌, ◌<◌, min, Bool, true, false, ltb, leb, ◌=ℕ=◌, if◌then◌else◌,
  ◌&&◌, ◌||◌, not, Option, some, List, [], ◌∷◌, ◌++◌, length, any, ◌==◌, nat_eq, list_eq, String,
  string_eq, ◌≡◌, ◌≢◌, ◌↔◌, refl, is_some,
}
use anti_bot_gw.Common.Dict.{Dict, get, Unique, member}
use anti_bot_gw.Challenge.Decimal.{Text}
use anti_bot_gw.Pipeline.Windows.{login_rate_limit}
use anti_bot_gw.Admin.Store.{Store, User, Role}
use anti_bot_gw.Admin.Store.Role.{admin}
use anti_bot_gw.Admin.Store.Status.{active}
use anti_bot_gw.Admin.Token.{Crypto, session_ttl, session_sign}
use anti_bot_gw.Admin.Password.{Kdf, stored, password_verify}
use anti_bot_gw.Admin.Sessions.{session_create}
use anti_bot_gw.Admin.Sessions.Limit.{live_count}
use anti_bot_gw.Admin.Auth.{csrf_token}
use anti_bot_gw.Admin.Login.{Form, Config, State, start_session, login_submit}
use anti_bot_gw.Admin.Login.Answer.{signed_in}
use anti_bot_gw.Admin.Login.Sound.{login_sound, Accepted}
use anti_bot_gw.Admin.Login.Limit.{start_session-live_count}
use anti_bot_gw.Admin.Store.{put_or_drop}
use anti_bot_gw.Admin.Store.Write.{user_login_recorded}
use anti_bot_gw.Admin.Writer.{Tables, session_cache_load}
use anti_bot_gw.Admin.Writer.Restart

abbrev pub crypto : Crypto
crypto = record { hmac = λ m. length m % 256 ∷ 200 ∷ 7 ∷ 9 ∷ [] }

abbrev pub kdf : Kdf
kdf = record { scrypt = λ pw salt n r p. some (length pw % 256 ∷ 3 ∷ []) }

abbrev pub root : Text
root = b'r' ∷ b't' ∷ []

abbrev pub other : Text
other = b'o' ∷ b'p' ∷ []

abbrev secret : Text
secret = b'x' ∷ b'y' ∷ b'z' ∷ []

abbrev pub sid : Text
sid =
    b'S' ∷ b'-' ∷ b'_' ∷ b'4' ∷ b'5' ∷ b'6' ∷ b'7' ∷ b'8' ∷ b'a' ∷ b'b' ∷ b'c' ∷ b'd' ∷ b'e' ∷ b'f'
    ∷ b'g' ∷ b'h' ∷ []

abbrev pub account : Role → User
account role = record {
  password_hash = stored (1 ∷ 2 ∷ 3 ∷ []) (3 ∷ 3 ∷ []);
  role = role;
  status = active;
  created_ts = 0;
  updated_ts = 0;
  last_login_ts = 0;
  last_login_ip = "";
}

abbrev pub users : Dict Text User
users = (root, account admin) ∷ (other, account admin) ∷ []

abbrev pub tables : Tables
tables = record { users = users; user_sessions = [] }

abbrev pub store : Store
store = record { cache = []; ready = true; queue = some []; active_sessions = [] }

abbrev config : Config
config = record { crypto = crypto; kdf = kdf; max_sessions = 5; control_center = b'/' ∷ b'c' ∷ [] }

abbrev form : Form
form = record {
  username = b' ' ∷ b'R' ∷ b't' ∷ [];
  password = secret;
  next_url = b'/' ∷ b'/' ∷ b'e' ∷ [];
}

abbrev before : State
before = record { store = store; windows = [] }

abbrev started : Store × Text
started = start_session config 5_000 sid "192.0.2.1" [] root store

abbrev after : State
after = record { store = started.0; windows = ("192.0.2.1", (5_000, 1)) ∷ [] }

abbrev csrf : Text
csrf = csrf_token crypto sid

logged_in :
    login_submit config 5_000 sid "192.0.2.1" [] users (some form) before
    ≡ (after, signed_in started.1 csrf config.control_center)
unfolding login_submit login_rate_limit get anti_bot_gw.Common.Dict.evict
    anti_bot_gw.Common.Dict.remove_all anti_bot_gw.Common.Dict.keys_where
    anti_bot_gw.Admin.Strip.lower anti_bot_gw.Common.Dict.put anti_bot_gw.Admin.Strip.strip
    anti_bot_gw.Admin.Token.username_re password_verify anti_bot_gw.Challenge.Decimal.str
    anti_bot_gw.Base64.rstrip_pad anti_bot_gw.Base64.urlsafe_b64encode
    anti_bot_gw.Challenge.Decimal.int anti_bot_gw.Base64.decode_padded any
    anti_bot_gw.Challenge.Pow.split session_create session_sign
logged_in = refl

login_sound_example :
    (f : Form) × (u : User) × (some form ≡ some f)
    × ((login_rate_limit 5_000 "192.0.2.1" []).1 ≡ true)
    × Accepted config 5_000 sid "192.0.2.1" [] users f u store started.0
        (signed_in started.1 csrf config.control_center)
login_sound_example =
    login_sound config 5_000 sid "192.0.2.1" [] users (some form) before after started.1 csrf
      config.control_center logged_in

new_sid : member sid store.cache ≡ false
unfolding get
new_sid = refl

start_session-live_count_example :
    live_count 5_000 root (start_session config 5_000 sid "192.0.2.1" [] root store).0.cache
    ≡ min (suc (live_count 5_000 root [])) 5
start_session-live_count_example =
    start_session-live_count config 5_000 sid "192.0.2.1" [] root store tt new_sid

abbrev running : Store
running = record (session_cache_load 1_000 (some []) store) { queue = some [] }

-- a login, write by write
abbrev noted : Store
noted = put_or_drop (user_login_recorded 5_000 "192.0.2.1" root) running

abbrev marked : Store
marked = record noted { active_sessions = (root, 5_000) ∷ [] }

abbrev restarted : Store
restarted = (session_create crypto 5_000 sid root "192.0.2.1" [] marked).0
