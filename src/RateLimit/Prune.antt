-- ===== src/RateLimit/Prune.antt =====
-- rate_limit.py, the locked part of one round of `_prune_state_loop`. Times are in milliseconds;
-- `now` is the monotonic clock and `wall` the time of day. A difference that the code takes is
-- written as a sum on the other side, so that nothing is cut off at zero. The deletions in the
-- database that follow the locked part are not modelled.
pub mod Identities
pub mod Caches
pub mod Round
use anti_bot_gw.Common.{ℕ, ◌*◌, Option, none, some, List, String}
use anti_bot_gw.Common.Dict.{Dict}
use anti_bot_gw.State.IpState.{IpState}
use anti_bot_gw.State.Table.{Table, ◌>>=◌}
use anti_bot_gw.RateLimit.Bucket.{Bucket}
use Identities.{prune_identities, reset_idle}
use Caches.{
  seconds, ClusterKey, prune_new_sessions, prune_buckets, prune_canary, prune_canvas, cap_counts,
  cap_categories, prune_crowdsec, prune_active_sessions, prune_signal_orders, prune_clusters,
  prune_fp_sessions, prune_windows, prune_challenges, prune_pow_seen, prune_honeypots, prune_logins,
  prune_totp,
}

pub record Config : Type 0 where
  pub identities : Identities.Config
  pub churn_window : ℕ
  pub probe_window : ℕ
  pub pow_window : ℕ

-- The tables of state.py, identity.py, reputation/crowdsec.py and core/proxy_handler.py that the
-- round goes through.
pub record Tables : Type 0 where
  pub identities : Identities.Identities
  pub ip_new_sessions : Dict String (Dict String ℕ)
  pub ip_buckets : Dict String Bucket
  pub canary_tokens : Dict String ℕ
  pub fp_canvas_store : Dict String ℕ
  pub by_path : Dict String ℕ
  pub by_ja4 : Dict String ℕ
  pub by_path_by_cat : Dict String (Dict String ℕ)
  pub crowdsec_cache : Dict String (Option String × ℕ)
  pub active_bans : ℕ
  pub active_sessions : Dict String ℕ
  pub signal_order_cache : Dict String ℕ
  pub asn_path_clusters : Dict ClusterKey (List String)
  pub fp_session_creations : Dict String (List ℕ)
  pub probe_rl : Dict String (ℕ × ℕ)
  pub pow_rl : Dict String (ℕ × ℕ)
  pub pow_chal_cache : Dict String (String × ℕ)
  pub pow_seen : Dict (List ℕ) ℕ
  pub honeypot_ip_clusters : Dict (String × ℕ) (List String)
  pub login_bucket : Dict String (ℕ × ℕ)
  pub totp_pending : Dict String (Option ℕ)

-- step 4c
reset_table : ℕ → Table IpState → Table IpState
reset_table now t = record t { entries = reset_idle now t.entries }

-- the steps after 2b
unfoldable pub steps : Config → ℕ → ℕ → Tables → Identities.Identities → Tables
unfolding reset_table
steps cfg now wall s ids = record {
  identities = record ids { ip_state = reset_table now ids.ip_state };
  ip_new_sessions = prune_new_sessions now s.ip_new_sessions;
  ip_buckets = prune_buckets cfg.identities.max_identities now s.ip_buckets;
  canary_tokens = prune_canary now s.canary_tokens;
  fp_canvas_store = prune_canvas now s.fp_canvas_store;
  by_path = cap_counts 5000 2500 s.by_path;
  by_ja4 = cap_counts 5000 2500 s.by_ja4;
  by_path_by_cat = cap_categories s.by_path_by_cat;
  crowdsec_cache = (prune_crowdsec wall s.crowdsec_cache).0;
  active_bans = (prune_crowdsec wall s.crowdsec_cache).1;
  active_sessions = prune_active_sessions wall s.active_sessions;
  signal_order_cache = prune_signal_orders s.signal_order_cache;
  asn_path_clusters = prune_clusters wall s.asn_path_clusters;
  fp_session_creations = prune_fp_sessions cfg.churn_window wall s.fp_session_creations;
  probe_rl = prune_windows cfg.probe_window wall s.probe_rl;
  pow_rl = prune_windows cfg.pow_window wall s.pow_rl;
  pow_chal_cache = prune_challenges cfg.pow_window wall s.pow_chal_cache;
  pow_seen = prune_pow_seen wall s.pow_seen;
  honeypot_ip_clusters = prune_honeypots wall s.honeypot_ip_clusters;
  login_bucket = prune_logins wall s.login_bucket;
  totp_pending = prune_totp wall s.totp_pending;
}

unfoldable pub round : Config → IpState → ℕ → ℕ → Tables → Option Tables
unfolding steps
round cfg fresh now wall s = do
  ids ← prune_identities cfg.identities fresh now s.identities
  some (steps cfg now wall s ids)
