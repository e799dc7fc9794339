-- ===== src/Tests/Detectors.antt =====
-- The sessions and the detectors, at concrete inputs. The digests are stand-ins.
use anti_bot_gw.Common.{
  ℕ, suc, zero, ◌+◌, ◌%◌, ◌≤◌, ◌<◌, Bool, true, false, leb, ◌≡◌, refl, arith, ◌&&◌, String,
  string_eq, nat_eq, list_eq, some, List, [], ◌∷◌, ◌++◌, length, take, any, replicate, inl, inr,
}
use anti_bot_gw.Common.Dict.{mem}
use anti_bot_gw.State.IpState.{IpState, fresh}
use anti_bot_gw.Challenge.Decimal.{Text, str, int}
use anti_bot_gw.Challenge.Pow.{is_nil, compare_digest}
use anti_bot_gw.Challenge.Pow.RoundTrip.{IsHex}
use anti_bot_gw.Identity.{Crypto, Identity, is_clean, sign_session, verify_session, get_identity}
use anti_bot_gw.Identity.RoundTrip.{verify-sign, verify_sound}
use anti_bot_gw.Detection.Cookies.{Config, Request}
use anti_bot_gw.Detection.Sliding.{ChurnConfig, SweepConfig, Visits}
use anti_bot_gw.Detection.Maze.{
  Step, Signed, sign_maze_token, verify_maze_token, split_dots, maze_sound,
}
use anti_bot_gw.Detection.Referer.{
  served_max, own_page, record_html_served, referer_ghost_check, served_page,
}
use anti_bot_gw.Detection.Heuristic.{Entry, Log, check, last_fired, is_suspect, check_lem}

abbrev digest : Text → Text
digest m = (b'0' + length m % 10) ∷ replicate 63 b'a'

replicate-IsHex : (n : ℕ) → IsHex (replicate n b'a')
replicate-IsHex zero = tt
replicate-IsHex (suc n) = (inr (omega arith, omega arith), replicate-IsHex n)

digest-IsHex : (m : Text) → IsHex (digest m)
digest-IsHex m = (inl (omega arith, omega arith), replicate-IsHex 63)

digest-length : (m : Text) → length (digest m) ≡ 64
digest-length m = refl

abbrev crypto : Crypto
crypto = record { hmac = digest; isalnum = λ c. leb b'a' c && leb c b'z' }

abbrev sid : Text
sid = b'a' ∷ b'-' ∷ b'b' ∷ []

abbrev signed_identity : Identity
signed_identity = record {
  identity = take 16 (digest (b's' ∷ b'e' ∷ b's' ∷ b's' ∷ b'|' ∷ (sid ++ b'|' ∷ b'f' ∷ [])));
  session_id = sid;
  is_new = false;
}

signed_is_verified : verify_session crypto (sign_session crypto sid) ≡ some (some sid)
unfolding is_clean
signed_is_verified = verify-sign crypto sid digest-IsHex digest-length refl (omega arith) refl

signed-identity :
    get_identity crypto (sign_session crypto sid) (b'f' ∷ []) [] [] ≡ some signed_identity
unfolding get_identity
signed-identity = rw (get_identity, signed_is_verified) refl

verify_sound_example :
    (sign_session crypto sid ≡ sign_session crypto sid)
    × (is_nil sid ≡ false)
    × (length sid ≤ 64)
    × (is_clean crypto sid ≡ true)
verify_sound_example = verify_sound crypto (sign_session crypto sid) sid signed_is_verified

abbrev query : Text
query = b'{' ∷ b'a' ∷ b'{' ∷ b'}' ∷ b'}' ∷ []

digest-ascii : (m : Text) → any (λ c. leb 128 c) (take 16 (digest m)) ≡ false
unfolding any
digest-ascii m = ground arith

abbrev ghost_settings : Config
ghost_settings = record {
  ghost_enabled = true;
  lifecycle_enabled = true;
  min_requests = 3;
  miss_threshold = 2;
}

abbrev ghost : IpState
ghost = record (fresh 20 1 1000) { gateway_cookies_set = 1; request_count = 9 }

abbrev asked : Bool → Request
asked b = record { has_any = b; lc_valid = b; accepts_html = false }

abbrev asks : List Request
asks = asked false ∷ asked true ∷ asked false ∷ asked true ∷ asked false ∷ []

abbrev churn : ChurnConfig
churn = record { enabled = true; window = 60_000; max_mints = 2 }

abbrev visits : Visits
visits = (1000, b'a' ∷ []) ∷ (80_000, b'b' ∷ []) ∷ (81_000, b'c' ∷ []) ∷ []

abbrev sweep : SweepConfig
sweep = record { window = 30_000; threshold = 2 }

abbrev heuristic : anti_bot_gw.Detection.Heuristic.Config
heuristic = record { enabled = true; html_min = 2; ratio_threshold = 0; window = 120_000 }

abbrev client : String
client = "client"

abbrev request_log : Log
request_log = ("client", (200_000, false) ∷ (201_000, false) ∷ []) ∷ []

abbrev maze_crypto : anti_bot_gw.Challenge.Pow.Crypto
maze_crypto = record { hmac = digest; sha256 = digest }

abbrev first_step : Step
first_step = record {
  step = record { negative = false; magnitude = 0 };
  ts = record { negative = false; magnitude = 7 };
}

maze_sound_example :
    Signed maze_crypto 9
      (b'i' ∷ [])
      (b'/' ∷ [])
      (split_dots
        (sign_maze_token maze_crypto (b'i' ∷ []) (first_step.step) (first_step.ts) (b'/' ∷ [])))
      first_step
unfolding verify_maze_token sign_maze_token str int compare_digest any
maze_sound_example =
    maze_sound maze_crypto 9
      (sign_maze_token maze_crypto (b'i' ∷ []) (first_step.step) (first_step.ts) (b'/' ∷ []))
      (b'i' ∷ []) (b'/' ∷ []) first_step refl

abbrev link : anti_bot_gw.Detection.Referer.Request
link = record {
  referer = "https://a.example/page";
  parsed = some ("/page", "a.example");
  own_host = "a.example";
  is_static = false;
  referer_is_static = false;
}

abbrev reader : IpState
reader = record (fresh 20 1 1000) { html_loads = 2; served_html_paths = "/" ∷ [] }

served_page_example :
    (length reader.served_html_paths < served_max
      → referer_ghost_check true link (record_html_served "/page" reader) ≡ false)
    × (served_max ≤ length reader.served_html_paths
        → mem "/page" reader.served_html_paths ≡ false
        → referer_ghost_check true link (record_html_served "/page" reader) ≡ true)
unfolding own_page
served_page_example = served_page link "/page" reader refl (omega arith)
