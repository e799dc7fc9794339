-- ===== src/Detection/Sliding.antt =====
-- Sliding windows of time stamps: detection/path_sweep.py, and `_record_chal_mint` of identity.py.
-- Times are in milliseconds; the window of one identity or fingerprint is a deque, oldest first.
use anti_bot_gw.Common.{
  ℕ, zero, suc, ◌+◌, ◌-◌, ◌≤◌, ◌<◌, Bool, true, ltb, leb, if◌then◌else◌, ◌≡◌, refl, arith, ◌&&◌,
  ◌||◌, Option, none, some, List, [], ◌∷◌, ◌++◌, length, drop, filter, map, ◌==◌, nat_eq, list_eq,
  string_eq, ◌↔◌, inl, inr, Bool-cases, ap, ltb-false→le,
}
use anti_bot_gw.Common.Dict.{mem}
use anti_bot_gw.State.IpState.{push}
use anti_bot_gw.Challenge.Decimal.{Text}
use anti_bot_gw.Detection.Content.{is_static_path}
use anti_bot_gw.Endpoint.Rules.{starts_with}

-- What carries a time stamp.
module _ {A : Type 0} (time : A → ℕ) where
  -- `while q and time(q[0]) < n - window: q.popleft()`
  unfoldable pub drop_old : ℕ → ℕ → List A → List A
  drop_old window n [] = []
  drop_old window n (x ∷ q) =
      let rest = drop_old window n q in if ltb (time x + window) n then rest else x ∷ q

  -- The time stamps do not decrease from `low` on.
  abbrev pub Ordered : ℕ → List A → Type 0
  Ordered low [] = Unit
  Ordered low (x ∷ q) = (low ≤ time x) × Ordered (time x) q

  abbrev pub is_recent : ℕ → ℕ → A → Bool
  is_recent window n x = leb n (time x + window)

  filter-recent :
      (window n low : ℕ) (q : List A)
      → Ordered low q
      → n ≤ low + window
      → filter (is_recent window n) q ≡ q
  unfolding filter
  filter-recent window n low [] o h = refl
  filter-recent window n low (x ∷ q) o h =
      ground (arith, o.0, h, filter-recent window n (time x) q o.1 (omega (arith, o.0, h)))

  -- On a window whose time stamps do not decrease, the removal from the front leaves exactly the
  -- items that are recent.
  pub drop_old-filter :
      (window n low : ℕ) (q : List A)
      → Ordered low q
      → drop_old window n q ≡ filter (is_recent window n) q
  unfolding drop_old filter
  drop_old-filter window n low [] o = refl
  drop_old-filter window n low (x ∷ q) o = elim (Bool-cases (ltb (time x + window) n)) [
    | inl h ↦ ground (arith, h, drop_old-filter window n (time x) q o.1)
    | inr h ↦ ground (arith, h, filter-recent window n (time x) q o.1 (ltb-false→le _ _ h))
  ]

  Ordered-weaken : (low x : ℕ) (q : List A) → low ≤ x → Ordered x q → Ordered low q
  Ordered-weaken low x [] h o = tt
  Ordered-weaken low x (y ∷ q) h o = (omega (arith, h, o.0), o.1)

  Ordered-drop : (k low : ℕ) (q : List A) → Ordered low q → Ordered low (drop k q)
  Ordered-drop zero low q o = o
  Ordered-drop (suc k) low [] o = tt
  Ordered-drop (suc k) low (x ∷ q) o = Ordered-drop k low q (Ordered-weaken low (time x) q o.0 o.1)

-- `SESSION_CHURN_ENABLED`, `SESSION_CHURN_WINDOW_S` and `SESSION_CHURN_MAX`
pub record ChurnConfig : Type 0 where
  pub enabled : Bool
  pub window : ℕ
  pub max_mints : ℕ

abbrev pub stamp : ℕ → ℕ
stamp t = t

-- `_record_chal_mint`, on the deque of the fingerprint: what it leaves, and the verdict
unfoldable pub record_chal_mint : ChurnConfig → ℕ → List ℕ → List ℕ × Bool
record_chal_mint cfg n q =
    let q' = drop_old stamp cfg.window n (push 64 n q) in
    (q', cfg.enabled && ltb cfg.max_mints (length q'))

-- PATH_SWEEP_WINDOW_SECS and PATH_SWEEP_THRESHOLD
pub record SweepConfig : Type 0 where
  pub window : ℕ
  pub threshold : ℕ

abbrev pub Visits : Type 0
Visits = List (ℕ × Text)

abbrev pub visit_time : ℕ × Text → ℕ
visit_time v = v.0

-- `path_sweep_record`: static assets and the admin namespace are not recorded
unfoldable pub path_sweep_record : Text → ℕ → Text → Visits → Visits
path_sweep_record admin_ns n path visits =
    if is_static_path path || path == admin_ns || starts_with (admin_ns ++ b'/' ∷ []) path
    then visits
    else push 500 (n, path) visits

-- the size of a set of paths
unfoldable pub distinct : List Text → ℕ
distinct [] = 0
distinct (p ∷ paths) = let rest = distinct paths in if mem p paths then rest else suc rest

abbrev pub paths_of : Visits → List Text
paths_of = map (λ v. v.1)

-- `path_sweep_check`: the visits that it leaves, and the number of paths where it fires
unfoldable pub path_sweep_check : SweepConfig → ℕ → Visits → Visits × Option ℕ
unfolding distinct
path_sweep_check cfg n visits =
    let kept = drop_old visit_time cfg.window n visits in
    let found = distinct (paths_of kept) in
    (kept, if leb cfg.threshold found then some found else none)

-- The detector fires exactly if the visits within the window, of a deque in the order of time, have
-- at least the threshold's number of distinct paths; it reports that number and keeps those visits.
pub sweep_check_lem :
    (cfg : SweepConfig) (n low : ℕ) (visits : Visits)
    → Ordered visit_time low visits
    → let recent = filter (is_recent visit_time cfg.window n) visits in
      path_sweep_check cfg n visits ≡ (
        recent,
        if leb cfg.threshold (distinct (paths_of recent))
            then some (distinct (paths_of recent))
            else none,
      )
unfolding path_sweep_check
sweep_check_lem cfg n low visits o =
    ap
      (λ (kept : Visits). (
        kept,
        if leb cfg.threshold (distinct (paths_of kept))
            then some (distinct (paths_of kept))
            else none,
      ))
      (drop_old-filter visit_time cfg.window n low visits o)

-- A mint that comes no earlier than the ones before leaves the mints of the window, of the last 64
-- with it, and is a churn exactly if the check is on and these are more than the maximum.
pub chal_mint_lem :
    (cfg : ChurnConfig) (n low : ℕ) (q : List ℕ)
    → Ordered stamp low (q ++ n ∷ [])
    → let recent = filter (is_recent stamp cfg.window n) (push 64 n q) in
      ((record_chal_mint cfg n q).0 ≡ recent)
      × (((record_chal_mint cfg n q).1 ≡ true)
          ↔ ((cfg.enabled ≡ true) × (cfg.max_mints < length recent)))
unfolding record_chal_mint push
chal_mint_lem cfg n low q o =
    let all = q ++ n ∷ [] in
    let e =
      drop_old-filter stamp cfg.window n low (drop (length all - 64) all)
        (Ordered-drop stamp (length all - 64) low all o) in
    (e, (λ h. (ground (arith, h), ground (arith, h, e)), λ h. ground (arith, h.0, h.1, e)))
