-- ===== src/Detection/HoneyCred.antt =====
-- detection/honey_cred.py, the store of the fake keys. Times are in milliseconds. That a key is
-- derived from the identity by HMAC is left to the caller.
use anti_bot_gw.Common.{
  ℕ, ◌+◌, ◌/◌, ◌≤◌, ◌<◌, Bool, true, false, ltb, leb, if◌then◌else◌, ◌≡◌, ◌≢◌, refl, arith, String,
  string_eq, none, some, List, [], ◌∷◌, length, drop, length-drop, Option-cases, inl, inr, ◌==◌,
  ◌∙◌, leb-false→lt,
}
use anti_bot_gw.Common.Dict.{Dict, get, put, remove, evict}
use anti_bot_gw.Common.Dict.Laws.{get-put_self, length-put, length-remove_all-le, get-remove}

-- the identity and the expiry of each key
abbrev pub Keys : Type 0
Keys = Dict String (String × ℕ)

abbrev pub store_max : ℕ
store_max = 4096

-- `_KEY_TTL`, two hours
abbrev pub key_ttl : ℕ
key_ttl = 7_200_000

is_expired : ℕ → String → String × ℕ → Bool
is_expired now k e = ltb e.1 now

-- `for k in list(d.keys())[:q]: d.pop(k, None)`, where the store has `m` keys or more
unfoldable pub cut : ℕ → ℕ → Keys → Keys
cut m q d = if leb m (length d) then drop q d else d

-- the eviction: the expired keys, and where that is not enough the oldest quarter
unfoldable pub make_room : ℕ → Keys → Keys
unfolding is_expired
make_room now d =
    if leb store_max (length d) then cut store_max (store_max / 4) (evict (is_expired now) d) else d

unfoldable pub store_honey_key : ℕ → String → String → Keys → Keys
unfolding make_room
store_honey_key now key identity d = put key (identity, now + key_ttl) (make_room now d)

-- the identity of a key, "" if it is unknown or expired
unfoldable pub lookup_honey_key : ℕ → String → Keys → Keys × String
lookup_honey_key now key d = if key == "" then (d, "") else elim (get key d) [
  | none ↦ (d, "")
  | some e ↦ if ltb e.1 now then (remove key d, "") else (d, e.0)
]

length-evict-le : (now : ℕ) (d : Keys) → length (evict (is_expired now) d) ≤ length d
unfolding evict
length-evict-le now d = length-remove_all-le _ d

length-cut : (m q : ℕ) (d : Keys) → 0 < m → 0 < q → length d ≤ m → length (cut m q d) < m
unfolding cut
length-cut m q d pm pq h = ground (arith, h, length-drop q d)

room-if :
    (b : Bool) (m : ℕ) (d e : Keys)
    → (b ≡ false → length d < m)
    → length e < m
    → length (if b then e else d) < m
room-if true m d e f g = g
room-if false m d e f g = f refl

length-make_room :
    (now : ℕ) (d : Keys) → length d ≤ store_max → length (make_room now d) < store_max
unfolding make_room
length-make_room now d h =
    room-if (leb store_max (length d)) store_max d
      (cut store_max (store_max / 4) (evict (is_expired now) d)) (λ f. leb-false→lt _ _ f)
      (length-cut store_max (store_max / 4) (evict (is_expired now) d) (omega arith) (omega arith)
        (omega (arith, h, length-evict-le now d)))

-- what a client does with the store
pub data Use : Type 0 where
  inject : ℕ → String → String → Use
  probe : ℕ → String → Use

unfoldable pub after : List Use → Keys → Keys
after [] d = d
after (inject now key identity ∷ uses) d = after uses (store_honey_key now key identity d)
after (probe now key ∷ uses) d = after uses (lookup_honey_key now key d).0

length-remove-le : (k : String) (d : Keys) → length (remove k d) ≤ length d
unfolding remove
length-remove-le k [] = omega arith
length-remove-le k ((j, e) ∷ d) = ground (arith, length-remove-le k d)

length-lookup :
    (now : ℕ) (key : String) (d : Keys) → length (lookup_honey_key now key d).0 ≤ length d
unfolding lookup_honey_key
length-lookup now key d = elim (Option-cases (get key d)) [
  | inl e ↦ ground (arith, e)
  | inr (x, e) ↦ ground (arith, e, length-remove-le key d)
]

-- Whatever pages are served and whatever keys are probed, a store within its size stays within it.
pub after-bounded :
    (uses : List Use) (d : Keys) → length d ≤ store_max → length (after uses d) ≤ store_max
unfolding after store_honey_key
after-bounded [] d h = h
after-bounded (inject now key identity ∷ uses) d h = after-bounded uses _ (
    ground
      (arith, length-put key (identity, now + key_ttl) (make_room now d), length-make_room now d h))
after-bounded (probe now key ∷ uses) d h =
    after-bounded uses _ (omega (arith, h, length-lookup now key d))

-- the probes of other keys, at any times
abbrev pub Probes : String → List Use → Type 0
Probes key [] = Unit
Probes key (inject now k identity ∷ uses) = ⊥
Probes key (probe now k ∷ uses) = (k ≢ key) × Probes key uses

get-lookup_ne :
    (now : ℕ) (k key : String) (d : Keys)
    → k ≢ key
    → get key (lookup_honey_key now k d).0 ≡ get key d
unfolding lookup_honey_key
get-lookup_ne now k key d ne = elim (Option-cases (get k d)) [
  | inl e ↦ ground (arith, e)
  | inr (x, e) ↦ ground (arith, e, get-remove k key d, string_eq.beq_iff k key)
]

get-after :
    (key : String) (uses : List Use) (d : Keys)
    → Probes key uses
    → get key (after uses d) ≡ get key d
unfolding after
get-after key [] d p = refl
get-after key (inject now k identity ∷ uses) d p = absurd p
get-after key (probe now k ∷ uses) d p =
    get-after key uses (lookup_honey_key now k d).0 p.1 ∙ get-lookup_ne now k key d p.0

-- A key that a page carries betrays the identity the page was served to: for two hours, whatever
-- other keys are probed in between, its lookup gives that identity, and after that it gives "".
pub lookup-store :
    (now later : ℕ) (key identity : String) (uses : List Use) (d : Keys)
    → key ≢ ""
    → Probes key uses
    → (lookup_honey_key later key (after uses (store_honey_key now key identity d))).1
      ≡ (if leb later (now + key_ttl) then identity else "")
unfolding lookup_honey_key store_honey_key
lookup-store now later key identity uses d ne p = ground (
  arith,
  string_eq.beq_iff key "",
  get-after key uses (store_honey_key now key identity d) p,
  get-put_self key (identity, now + key_ttl) (make_room now d),
)
