-- ===== src/State/IpState.antt =====
-- state.py, `IpState`: what the gateway keeps for each identity.
-- Times are in milliseconds, token counts in millionths of a token and risk scores in thousandths
-- of a point, so that a rate in thousandths of a token a second times milliseconds is exact. A
-- deque and a set are lists, the deque with its oldest item first.
use anti_bot_gw.Common.{
  ℕ, ◌*◌, Bool, false, List, [], ◌∷◌, ◌++◌, length, drop, ◌-◌, String, string_eq,
}
use anti_bot_gw.Common.Dict.{Dict}

abbrev pub one_token : ℕ
one_token = 1_000_000

abbrev pub one_point : ℕ
one_point = 1000

-- `deque(maxlen=n).append(x)`
unfoldable pub push {ℓ} : {A : Type ℓ} → ℕ → A → List A → List A
push n x xs = let ys = xs ++ x ∷ [] in drop (length ys - n) ys

pub record IpState : Type 0 where
  pub tokens : ℕ
  pub last_refill : ℕ
  pub banned_until : ℕ
  pub banned_until_by_vhost : Dict String ℕ
  pub request_times : List ℕ
  pub request_count : ℕ
  pub first_seen : ℕ
  pub allowed_count : ℕ
  pub blocked_count : ℕ
  pub blocks_by_reason : Dict String ℕ
  pub last_seen : ℕ
  pub last_user_agent : String
  pub last_path : String
  pub unique_paths : List String
  pub html_loads : ℕ
  pub static_loads : ℕ
  pub suspicion_score : ℕ
  pub last_ip : String
  pub last_session : String
  pub last_fingerprint : String
  pub last_ja4 : String
  pub risk_score : ℕ
  pub last_risk_update : ℕ
  pub risk_by_reason : Dict String ℕ
  pub risk_by_vhost : Dict String ℕ
  pub header_scores : List ℕ
  pub upstream_404_count : ℕ
  pub last_allowed_paths : List String
  pub path_sequence : List String
  pub gateway_cookies_set : ℕ
  pub cookie_ghost_misses : ℕ
  pub cookie_ghost_threshold_jitter : ℕ
  pub served_html_paths : List String
  pub last_country : String
  pub last_country_ts : ℕ
  pub sw_seen : Bool
  pub path_sweep_times : List (ℕ × String)
  pub last_vhost : String
  pub bypass_until : ℕ
  pub last_ja4h : String
  pub auth_failures : ℕ
  pub auth_failure_window_start : ℕ

-- `IpState()`, at the time `now`; the burst size is the configured one and the jitter is random.
unfoldable pub fresh : ℕ → ℕ → ℕ → IpState
fresh burst jitter now = record {
  tokens = burst * one_token;
  last_refill = now;
  banned_until = 0;
  banned_until_by_vhost = [];
  request_times = [];
  request_count = 0;
  first_seen = now;
  allowed_count = 0;
  blocked_count = 0;
  blocks_by_reason = [];
  last_seen = now;
  last_user_agent = "";
  last_path = "";
  unique_paths = [];
  html_loads = 0;
  static_loads = 0;
  suspicion_score = 0;
  last_ip = "";
  last_session = "";
  last_fingerprint = "";
  last_ja4 = "";
  risk_score = 0;
  last_risk_update = now;
  risk_by_reason = [];
  risk_by_vhost = [];
  header_scores = [];
  upstream_404_count = 0;
  last_allowed_paths = [];
  path_sequence = [];
  gateway_cookies_set = 0;
  cookie_ghost_misses = 0;
  cookie_ghost_threshold_jitter = jitter;
  served_html_paths = [];
  last_country = "";
  last_country_ts = 0;
  sw_seen = false;
  path_sweep_times = [];
  last_vhost = "";
  bypass_until = 0;
  last_ja4h = "";
  auth_failures = 0;
  auth_failure_window_start = now;
}
