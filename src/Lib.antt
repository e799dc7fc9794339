-- ===== src/Lib.antt =====
-- AntiBot/WAF GW: the state, the rate limits, the risk scores and the proof of work of the gateway.
--
-- The gateway keeps a record for each identity in a bounded table (state.py). A request first takes a
-- token of its socket address and then one of its identity (rate_limit.py). A detector's hit adds
-- risk to the identity and may ban it (scoring.py). A client without a valid cookie is given a proof
-- of work (challenge/pow.py), whose used tokens the table of state.py remembers. A background loop
-- prunes all these tables (rate_limit.py). Policies and custom rules of single endpoints
-- (integrations/endpoint_policy.py) and detectors (detection/) decide what a request's hits are.
-- A route may ask for a bearer token (integrations/jwt.py). The operators sign in with a password or
-- by single sign-on, from the addresses that may (admin/); what they change is queued for the writer
-- (db/sqlite.py).
--
--   Common      shared names, Boolean tests, ordered dictionaries and sorting
--   State       state.py: IpState (IpState), _BoundedIpStateDict (Table)
--   RateLimit   rate_limit.py: the bucket (Bucket), take_socket_ip_token (SocketIp), take_token
--               (Identity), the locked part of _prune_state_loop (Prune)
--   Scoring     scoring.py: signal orders (Signals), _decay_risk (Decay), is_banned and ban (Ban),
--               update_risk_and_maybe_ban (Risk)
--   Challenge   challenge/pow.py: make_pow_challenge and verify_pow (Pow), Python's int and str
--               (Decimal)
--   Base64      what the tokens use of Python's base64
--   Admin       admin/users.py: the operators' session tokens (Token), the cache of sessions
--               (Sessions), passwords (Password), login and logout (Login), accounts (Users), and
--               admin/auth.py: signed-in requests and roles (Auth), the addresses that may reach
--               the operators' pages (Addresses); admin/oidc.py: single sign-on
--               (Oidc); db/sqlite.py: what the writer does with their writes (Writer); the queue of
--               writes is in Store, the splitting of texts in Split, strip() and lower() in Strip
--   Jwt         integrations/jwt.py: the check of a bearer token, with its place in the request handler
--   Pipeline    core/proxy_handler.py: the probe limit and admin/users.py: the login limit (Windows),
--               the circuit breaker (Circuit)
--   Endpoint    integrations/endpoint_policy.py: _endpoint_policy (Policy), _endpoint_rate_consume
--               (Buckets), _eval_custom_rules (Rules)
--   Identity    identity.py: _sign_session, _verify_session and get_identity
--   Detection   detection/: honey_cred.py (HoneyCred), impossible_travel.py (Travel), graphql.py
--               (Graphql), cookie_lifecycle.py (Cookies), path_sweep.py and _record_chal_mint of
--               identity.py (Sliding), llm_heuristic.py (Heuristic), redirect_maze.py (Maze),
--               referer_chain.py (Referer), what is put into a page (Inject) and what the detectors
--               read off a path (Content)
--   Tests       the theorems at concrete inputs
--
-- State is passed explicitly; a KeyError or an error that leaves the function is none or raise,
-- and a division by zero in a bucket is a verdict. Each
-- function that the code runs under its lock is one step, so an interleaving of requests is a list
-- of steps. Times are natural numbers in milliseconds, token counts in millionths of a token, rates
-- in thousandths of a token a second, and risk in thousandths of a point; the code's floating point
-- is exact there, except for the decay, whose product is a parameter that does not raise a score.
-- now is the monotonic clock and wall the time of day.
--
-- The only fuel is that of the decimal digits (one round for each unit, more than the digits). HMAC,
-- SHA-256, the database, the shared store and the resolved settings of a virtual host are
-- parameters. Not modelled: the HTTP layer, the dashboards, the database's statements, the feeds,
-- logging, webhooks, and the floating-point rounding.
pub mod Base64
pub mod Common
pub mod Admin
pub mod State
pub mod RateLimit
pub mod Scoring
pub mod Challenge
pub mod Pipeline
pub mod Detection
pub mod Endpoint
pub mod Identity
pub mod Jwt
pub mod Tests
