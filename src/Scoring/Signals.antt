-- ===== src/Scoring/Signals.antt =====
-- scoring.py, the signal-order helpers: which detectors run at which escalation score.
use anti_bot_gw.Common.{
  ℕ, ◌≤◌, Bool, true, leb, ◌=ℕ=◌, if◌then◌else◌, ◌≡◌, arith, ◌||◌, inl, inr, Option, none, some,
  Option-cases, List, [], ◌∷◌, String, string_eq,
}
use anti_bot_gw.Common.Dict.{Dict, get, put, mem}
use anti_bot_gw.Common.Dict.Laws.{get-put}

-- `ESCALATE_ONLY_REASONS`, `SECOND_ORDER_REASONS` and the two thresholds, 0 for none
pub record Config : Type 0 where
  pub escalate_only : List String
  pub second_order : List String
  pub escalation_threshold : ℕ
  pub second_order_threshold : ℕ

default_order : Config → String → ℕ
default_order cfg sig =
    if mem sig cfg.escalate_only then 3 else if mem sig cfg.second_order then 2 else 1

unfoldable pub signal_runtime_order : Config → Dict String ℕ → String → ℕ
unfolding default_order
signal_runtime_order cfg cache sig = elim (get sig cache) [
  | none ↦ default_order cfg sig
  | some o ↦ if o =ℕ= 0 then default_order cfg sig else o
]

unfoldable pub should_run_signal : Config → Dict String ℕ → String → ℕ → Bool
unfolding signal_runtime_order
should_run_signal cfg cache sig esc_score =
    let o = signal_runtime_order cfg cache sig in
    if o =ℕ= 3
    then (cfg.escalation_threshold =ℕ= 0) || leb cfg.escalation_threshold esc_score
    else if o =ℕ= 2
    then (cfg.second_order_threshold =ℕ= 0) || leb cfg.second_order_threshold esc_score
    else true

is_order : ℕ → Bool
is_order n = n =ℕ= 1 || n =ℕ= 2 || n =ℕ= 3

-- `_load_signal_order_cache`: the rows that the database returned, or `none` on an error
load_rows : List (String × ℕ) → Dict String ℕ → Dict String ℕ
load_rows [] cache = cache
load_rows ((sig, n) ∷ rows) cache = load_rows rows (if is_order n then put sig n cache else cache)

unfoldable pub load_signal_order_cache : Option (List (String × ℕ)) → Dict String ℕ → Dict String ℕ
unfolding load_rows is_order
load_signal_order_cache none cache = cache
load_signal_order_cache (some rows) cache = load_rows rows cache

-- `_save_signal_order`: the cache changes only where the row was `stored`
unfoldable pub save_signal_order : Bool → String → ℕ → Dict String ℕ → Dict String ℕ
save_signal_order stored sig order cache = if stored then put sig order cache else cache

-- A signal that runs at some escalation score runs at every higher one.
pub should_run_signal_mono :
    (cfg : Config) (cache : Dict String ℕ) (sig : String) (low high : ℕ)
    → low ≤ high
    → should_run_signal cfg cache sig low ≡ true
    → should_run_signal cfg cache sig high ≡ true
unfolding should_run_signal
should_run_signal_mono cfg cache sig low high h runs = ground arith

abbrev pub IsOrder : ℕ → Type 0
IsOrder o = (1 ≤ o) × (o ≤ 3)

abbrev pub Orders : Dict String ℕ → Type 0
Orders cache = (sig : String) (o : ℕ) → get sig cache ≡ some o → IsOrder o

load_rows-Orders :
    (rows : List (String × ℕ)) (cache : Dict String ℕ)
    → Orders cache
    → Orders (load_rows rows cache)
unfolding load_rows is_order
load_rows-Orders [] cache ok = ok
load_rows-Orders ((sig, n) ∷ rows) cache ok =
    load_rows-Orders rows _ (λ j o e. ground (arith, ok j o, get-put sig j n cache))

-- Whatever rows the database holds, the order that a signal has after a load into an empty cache
-- is 1, 2 or 3.
pub load-runtime-IsOrder :
    (cfg : Config) (rows : Option (List (String × ℕ))) (sig : String)
    → IsOrder (signal_runtime_order cfg (load_signal_order_cache rows []) sig)
unfolding load_signal_order_cache signal_runtime_order get
load-runtime-IsOrder cfg none sig = ground arith
load-runtime-IsOrder cfg (some rows) sig = elim (Option-cases (get sig (load_rows rows []))) [
  | inl e ↦ ground (arith, e)
  | inr (o, e) ↦ ground (arith, e, load_rows-Orders rows [] (λ j x p. cc) sig o e)
]
