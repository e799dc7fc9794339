-- ===== src/Tests/Gateway.antt =====
-- The limits of the pipeline, the endpoint policies and the custom rules, at concrete inputs.
use anti_bot_gw.Common.{
  ◌+◌, ◌-◌, ◌*◌, inl, ℕ, ◌≤◌, Bool, true, ◌=ℕ=◌, if◌then◌else◌, ◌≡◌, refl, arith, ◌||◌, String,
  string_eq, pair_eq, nat_eq, none, some, List, [], ◌∷◌, length, ◌==◌, ◌⊎◌,
}
use anti_bot_gw.Common.Dict.{Dict, get}
use anti_bot_gw.RateLimit.Bucket.{Bucket}
use anti_bot_gw.Pipeline.Windows.{login_limits, login_rate_limit, passed, login-bounded}
use anti_bot_gw.Pipeline.Circuit.{
  failure, success, closed, circuit_is_open, run, trailing, last_failure, is_open_iff,
}
use anti_bot_gw.Endpoint.Policy.{Rule}
use anti_bot_gw.Endpoint.Buckets.{Key, burst_of}
use anti_bot_gw.State.IpState.{one_token}
use anti_bot_gw.Endpoint.Buckets.RateBound.{Call, granted, granted_by_rule}
use anti_bot_gw.Endpoint.Rules.First.{NoneMeets, Decided, eval-Decided}
use anti_bot_gw.Endpoint.Rules.{
  Addresses, Conditions, Request, eval_custom_rules, nets_of, rule_matches, headers_hold,
  queries_hold, address_in, lower, contains,
}
use anti_bot_gw.Challenge.Decimal.{Text}
use anti_bot_gw.Challenge.Pow.{is_nil}

abbrev calls : List (ℕ × String)
calls = (1000, "a") ∷ (2000, "b") ∷ (61_000, "a") ∷ []

abbrev windows : Dict String (ℕ × ℕ)
windows = ("a", (500, 4)) ∷ []

login-bounded_example : passed login_limits login_rate_limit "a" calls windows ≤ 10
unfolding get
login-bounded_example =
    login-bounded 1000 "a" calls windows
      (omega arith, omega arith, (omega arith, omega arith, (omega arith, omega arith, tt)))
      (refl, tt)

abbrev breaker : anti_bot_gw.Pipeline.Circuit.Config
breaker = record { fail_threshold = 2; open_time = 30_000 }

-- a stand-in for the glob matcher
abbrev matches_glob : String → String → Bool
matches_glob path glob = glob == "*" || glob == path

abbrev api_rule : Rule
api_rule = record { path = "/api"; policy = "strict"; rps = some 500; burst = some 2 }

abbrev endpoint_buckets : Dict Key Bucket
endpoint_buckets = (("/api", "client"), record { tokens = 1_500_000; last = 1000 }) ∷ []

abbrev api_calls : List Call
api_calls =
    (2000, api_rule, "client") ∷ (2500, api_rule, "other") ∷ (60_000, api_rule, "client") ∷ []

granted_by_rule_example :
    granted ("/api", "client") api_calls endpoint_buckets * one_token
    ≤ 2 * one_token + (70_000 - 1000) * 500
unfolding get burst_of
granted_by_rule_example =
    granted_by_rule api_rule "client" (omega arith) (omega arith) 1000 70_000 api_calls
      endpoint_buckets (refl, tt)
      (omega arith, inl refl, (omega arith, inl refl, (omega arith, inl refl, omega arith)))
      (omega arith)

-- stand-ins: an address is the length of its text, and a network is one address
abbrev addresses : Addresses
addresses = record {
  Address = ℕ;
  Network = ℕ;
  ip_address = λ (s : Text). if is_nil s then none else some (length s);
  ip_network = λ (s : Text). if is_nil s then none else some (length s);
  within = λ a n. a =ℕ= n;
}

abbrev globs : Text → Text → Bool
globs path glob = true

abbrev block_rule : anti_bot_gw.Endpoint.Rules.Rule ℕ
block_rule = record {
  conditions = record {
    path = b'*' ∷ [];
    methods = (b'g' ∷ b'e' ∷ b't' ∷ []) ∷ [];
    ua_contains = b'b' ∷ b'o' ∷ b't' ∷ [];
    headers = [];
    queries = [];
    nets = some (3 ∷ []);
    cidrs = (b'1' ∷ b'.' ∷ b'2' ∷ []) ∷ [];
    countries = [];
  };
  action = b'b' ∷ [];
  tag = [];
}

abbrev bot_request : Request
bot_request = record {
  path = b'/' ∷ [];
  method = b'G' ∷ b'E' ∷ b'T' ∷ [];
  header = λ (name : Text). b'B' ∷ b'o' ∷ b't' ∷ [];
  query = λ (name : Text). [];
  ip = b'1' ∷ b'.' ∷ b'2' ∷ [];
  country = none;
}

eval-Decided_example :
    ((eval_custom_rules addresses globs bot_request (block_rule ∷ []) ≡ none)
      × NoneMeets addresses globs bot_request (block_rule ∷ []))
    ⊎ ((v : Text × Text) × (eval_custom_rules addresses globs bot_request (block_rule ∷ [])
          ≡ some v)
        × Decided addresses globs bot_request (block_rule ∷ []) v)
eval-Decided_example = eval-Decided addresses globs bot_request (block_rule ∷ [])
