-- ===== src/Detection/Heuristic.antt =====
-- detection/llm_heuristic.py: many pages without their subresources. Times are in milliseconds, the
-- ratio is in thousandths. An entry of the log is its time and whether it is a subresource.
use anti_bot_gw.Common.{
  ℕ, suc, ◌+◌, ◌*◌, ◌/◌, ◌≤◌, ◌<◌, Bool, true, false, ltb, leb, if◌then◌else◌, ◌≡◌, refl, arith,
  ◌&&◌, ◌||◌, not, none, some, List, [], ◌∷◌, length, drop, count, ◌==◌, ◌≢◌, nat_eq, list_eq,
  string_eq, String, ◌↔◌, length-drop, ltb-false→le,
}
use anti_bot_gw.Common.Dict.{Dict, get, put, evict, keys_where}
use anti_bot_gw.Common.Dict.Laws.{get-put_self, length-put, length-remove_all-le}
use anti_bot_gw.State.IpState.{push}
use anti_bot_gw.Challenge.Decimal.{Text}
use anti_bot_gw.Detection.Content.{is_subresource, is_html_request}

pub record Config : Type 0 where
  pub enabled : Bool
  -- positive: with 0 the code may divide by zero
  pub html_min : ℕ
  pub ratio_threshold : ℕ
  pub window : ℕ

abbrev pub Entry : Type 0
Entry = ℕ × Bool

abbrev pub Log : Type 0
Log = Dict String (List Entry)

-- `_REQ_LOG_MAX` and `_FIRED_MAX`
abbrev pub req_log_max : ℕ
req_log_max = 16384

abbrev pub fired_max : ℕ
fired_max = 8192

-- `for k in list(d.keys())[:q]: d.pop(k, None)`, the first keys of the order
unfoldable pub pop_first {ℓ} : {A : Type ℓ} → ℕ → List A → List A
pop_first q d = drop q d

-- `not dq or dq[-1][0] < cutoff`
unfoldable pub is_stale_log : ℕ → ℕ → String → List Entry → Bool
is_stale_log ttl now k [] = true
is_stale_log ttl now k (e ∷ []) = ltb (e.0 + ttl) now
is_stale_log ttl now k (e ∷ f ∷ q) = is_stale_log ttl now k (f ∷ q)

abbrev pub entries_of : String → Log → List Entry
entries_of k log = elim (get k log) [ none ↦ [] | some q ↦ q ]

-- the eviction that follows an entry
unfoldable pub trim_log : ℕ → ℕ → ℕ → Log → Log
unfolding pop_first is_stale_log
trim_log top ttl now log =
    let kept = evict (is_stale_log ttl now) log in
    if ltb top (length log)
    then (if ltb top (length kept) then pop_first (top / 4) kept else kept)
    else log

unfoldable pub observe : Config → ℕ → String → Text → Text → Text → Log → Log
unfolding trim_log
observe cfg now identity method path accept log =
    let is_sub = is_subresource path accept in
    if not cfg.enabled || identity == ""
    then log
    else if is_sub || is_html_request method accept path
    then trim_log req_log_max (2 * cfg.window) now
        (put identity (push 256 (now, is_sub) (entries_of identity log)) log)
    else log

-- the counts of the two kinds of requests within the window
abbrev pub in_window : Config → ℕ → Bool → Entry → Bool
in_window cfg now sub e = leb now (e.0 + cfg.window) && (if sub then e.1 else not e.1)

-- the room for one more identity that fired
unfoldable pub trim_fired : ℕ → ℕ → ℕ → Dict String ℕ → Dict String ℕ
unfolding pop_first
trim_fired top ttl now fired =
    let kept = evict (λ k t. ltb (t + ttl) now) fired in
    if leb top (length fired)
    then (if leb top (length kept) then pop_first (top / 4) kept else kept)
    else fired

-- the tests of `check` after the one of the cooldown
unfoldable pub is_suspect : Config → ℕ → String → Log → Bool
is_suspect cfg now identity log =
    let q = entries_of identity log in
    let html = count (in_window cfg now false) q in
    let sub = count (in_window cfg now true) q in
    leb 1 (length q) && leb cfg.html_min html && leb (sub * 1000) (cfg.ratio_threshold * html)

-- `_fired.get(identity, 0)`
abbrev pub last_fired : String → Dict String ℕ → ℕ
last_fired identity fired = elim (get identity fired) [ none ↦ 0 | some t ↦ t ]

-- `check`: the table of the identities that fired, and whether this one does
unfoldable pub check : Config → ℕ → String → Log → Dict String ℕ → Dict String ℕ × Bool
unfolding trim_fired is_suspect
check cfg now identity log fired =
    if not cfg.enabled || identity == ""
    then (fired, false)
    else if ltb now (last_fired identity fired + cfg.window)
    then (fired, false)
    else if is_suspect cfg now identity log
    then (put identity now (trim_fired fired_max (2 * cfg.window) now fired), true)
    else (fired, false)

pub length-if :
    {A : Type 0} (b : Bool) (m : ℕ) (x y : List A)
    → (b ≡ true → length x ≤ m)
    → (b ≡ false → length y ≤ m)
    → length (if b then x else y) ≤ m
length-if true m x y f g = f refl
length-if false m x y f g = g refl

length-trim_log :
    (top ttl now : ℕ) (log : Log)
    → 4 ≤ top
    → length log ≤ suc top
    → length (trim_log top ttl now log) ≤ top
unfolding trim_log pop_first evict
length-trim_log top ttl now log four h =
    let kept = evict (is_stale_log ttl now) log in
    let small : length kept ≤ suc top =
      omega (arith, h, length-remove_all-le (keys_where (is_stale_log ttl now) log) log) in
    length-if (ltb top (length log)) top _ log
      (λ b.
        length-if (ltb top (length kept)) top (drop (top / 4) kept) kept
          (λ c. omega (arith, small, four, length-drop (top / 4) kept)) (λ c. ltb-false→le _ _ c))
      (λ b. ltb-false→le _ _ b)

-- An observation keeps the log within its maximum number of identities.
pub observe-bounded :
    (cfg : Config) (now : ℕ) (identity : String) (method path accept : Text) (log : Log)
    → length log ≤ req_log_max
    → length (observe cfg now identity method path accept log) ≤ req_log_max
unfolding observe
observe-bounded cfg now identity method path accept log h =
    let q = push 256 (now, is_subresource path accept) (entries_of identity log) in
    let log' = put identity q log in
    let grown : length log' ≤ suc req_log_max = ground (arith, h, length-put identity q log) in
    length-if (not cfg.enabled || identity == "") req_log_max log _ (λ b. h)
      (λ b.
        length-if (is_subresource path accept || is_html_request method accept path) req_log_max
          (trim_log req_log_max (2 * cfg.window) now log') log
          (λ c. length-trim_log req_log_max (2 * cfg.window) now log' (omega arith) grown) (λ c. h))

-- A check fires exactly if the detector is on, the identity has not fired within the window, and the
-- requests within the window hold enough pages and, against these, few enough subresources. An
-- identity that fired does not fire again within the window, whatever it requests.
pub check_lem :
    (cfg : Config) (now : ℕ) (identity : String) (log : Log) (fired : Dict String ℕ)
    → ((check cfg now identity log fired).1 ≡ true ↔ (
        (cfg.enabled ≡ true)
        × (identity ≢ "")
        × (last_fired identity fired + cfg.window ≤ now)
        × (is_suspect cfg now identity log ≡ true)))
      × ((later : ℕ) (log' : Log)
          → (check cfg now identity log fired).1 ≡ true
          → later < now + cfg.window
          → check cfg later identity log' (check cfg now identity log fired).0
            ≡ ((check cfg now identity log fired).0, false))
unfolding check
check_lem cfg now identity log fired =
    let rest = trim_fired fired_max (2 * cfg.window) now fired in
    (
      (
        λ h. (
          ground (arith, h),
          λ p. ground (arith, h, p, string_eq.beq_iff identity ""),
          ground (arith, h),
          ground (arith, h),
        ),
        λ (a, b, c, d). ground (arith, a, b, c, d, string_eq.beq_iff identity ""),
      ),
      λ later log' h g. ground (arith, h, g, get-put_self identity now rest),
    )
