-- ===== src/Detection/Inject.antt =====
-- What is put into a page: `_inject_lifecycle_cookie_script` of detection/cookie_lifecycle.py,
-- `inject_honey_creds` of detection/honey_cred.py, and `_inject_canary` of detection/canary.py. A body
-- is its bytes.
use anti_bot_gw.Common.{
  ℕ, Bool, true, false, if◌then◌else◌, ◌≡◌, refl, arith, ◌||◌, not, String, string_eq, Option, none,
  some, List, [], ◌∷◌, ◌++◌, ◌==◌, ap, Option-cases, inl, inr,
}
use anti_bot_gw.Challenge.Decimal.{Text}
use anti_bot_gw.Challenge.Pow.{is_nil}
use anti_bot_gw.Endpoint.Rules.{lower, starts_with}
use anti_bot_gw.Detection.HoneyCred.{Keys, store_honey_key}

abbrev head_end : Text
head_end = b'<' ∷ b'/' ∷ b'h' ∷ b'e' ∷ b'a' ∷ b'd' ∷ b'>' ∷ []

abbrev body_end : Text
body_end = b'<' ∷ b'/' ∷ b'b' ∷ b'o' ∷ b'd' ∷ b'y' ∷ b'>' ∷ []

abbrev html_end : Text
html_end = b'<' ∷ b'/' ∷ b'h' ∷ b't' ∷ b'm' ∷ b'l' ∷ b'>' ∷ []

-- A body in two parts: `body[:idx]` and `body[idx:]`.
abbrev pub Parts : Type 0
Parts = Text × Text

abbrev cons_part : ℕ → Parts → Parts
cons_part c p = (c ∷ p.0, p.1)

-- at the first place where the lower-cased body has the needle
unfoldable pub find : Text → Text → Option Parts
unfolding lower starts_with
find needle [] = none
find needle (c ∷ body) =
    let rest = find needle body in
    if starts_with needle (lower (c ∷ body))
    then some ([], c ∷ body)
    else elim rest [ none ↦ none | some p ↦ some (cons_part c p) ]

-- at the last such place
unfoldable pub rfind : Text → Text → Option Parts
unfolding lower starts_with
rfind needle [] = none
rfind needle (c ∷ body) = elim (rfind needle body) [
  | some p ↦ some (cons_part c p)
  | none ↦ if starts_with needle (lower (c ∷ body)) then some ([], c ∷ body) else none
]

-- `for needle in needles: …`
unfoldable pub find_first : List Text → Text → Option Parts
unfolding find
find_first [] body = none
find_first (needle ∷ needles) body =
    let rest = find_first needles body in elim (find needle body) [ none ↦ rest | some p ↦ some p ]

abbrev pub insert : Text → Parts → Text
insert blob p = p.0 ++ (blob ++ p.1)

abbrev pub script_start : Text
script_start =
    b'<' ∷ b's' ∷ b'c' ∷ b'r' ∷ b'i' ∷ b'p' ∷ b't' ∷ b'>' ∷ b'(' ∷ b'f' ∷ b'u' ∷ b'n' ∷ b'c' ∷ b't'
    ∷ b'i' ∷ b'o' ∷ b'n' ∷ b'(' ∷ b')' ∷ b'{' ∷ b't' ∷ b'r' ∷ b'y' ∷ b'{' ∷ b'd' ∷ b'o' ∷ b'c'
    ∷ b'u' ∷ b'm' ∷ b'e' ∷ b'n' ∷ b't' ∷ b'.' ∷ b'c' ∷ b'o' ∷ b'o' ∷ b'k' ∷ b'i' ∷ b'e' ∷ b'='
    ∷ b'"' ∷ b'a' ∷ b'g' ∷ b'w' ∷ b'_' ∷ b'l' ∷ b'c' ∷ b'=' ∷ []

abbrev pub script_end : Text
script_end =
    b';' ∷ b'p' ∷ b'a' ∷ b't' ∷ b'h' ∷ b'=' ∷ b'/' ∷ b';' ∷ b'S' ∷ b'a' ∷ b'm' ∷ b'e' ∷ b'S' ∷ b'i'
    ∷ b't' ∷ b'e' ∷ b'=' ∷ b'L' ∷ b'a' ∷ b'x' ∷ b'"' ∷ b';' ∷ b'}' ∷ b'c' ∷ b'a' ∷ b't' ∷ b'c'
    ∷ b'h' ∷ b'(' ∷ b'e' ∷ b')' ∷ b'{' ∷ b'}' ∷ b'}' ∷ b')' ∷ b'(' ∷ b')' ∷ b'<' ∷ b'/' ∷ b's'
    ∷ b'c' ∷ b'r' ∷ b'i' ∷ b'p' ∷ b't' ∷ b'>' ∷ []

unfoldable pub inject_lifecycle : Bool → Text → Text → Text
unfolding find_first
inject_lifecycle enabled lc_token body =
    let snippet = script_start ++ (lc_token ++ script_end) in
    if not enabled || is_nil body then body else elim (find_first (body_end ∷ html_end ∷ []) body) [
      | none ↦ body ++ snippet
      | some p ↦ insert snippet p
    ]

abbrev comment_open : Text
comment_open = b'<' ∷ b'!' ∷ b'-' ∷ b'-' ∷ b' ' ∷ []

abbrev comment_close : Text
comment_close = b' ' ∷ b'-' ∷ b'-' ∷ b'>' ∷ []

unfoldable pub inject_canary : Text → Text → Text
unfolding find_first
inject_canary token body =
    let blob = comment_open ++ (token ++ comment_close) in
    if is_nil body then blob else elim (find_first (head_end ∷ body_end ∷ html_end ∷ []) body) [
      | none ↦ blob ++ body
      | some p ↦ insert blob p
    ]

abbrev todo : Text
todo =
    10 ∷ b'<' ∷ b'!' ∷ b'-' ∷ b'-' ∷ b' ' ∷ b'T' ∷ b'O' ∷ b'D' ∷ b'O' ∷ b':' ∷ b' ' ∷ b'r' ∷ b'e'
    ∷ b'm' ∷ b'o' ∷ b'v' ∷ b'e' ∷ b' ' ∷ b'd' ∷ b'e' ∷ b'b' ∷ b'u' ∷ b'g' ∷ b' ' ∷ b'c' ∷ b'o'
    ∷ b'n' ∷ b'f' ∷ b'i' ∷ b'g' ∷ b' ' ∷ b'b' ∷ b'e' ∷ b'f' ∷ b'o' ∷ b'r' ∷ b'e' ∷ b' ' ∷ b'n'
    ∷ b'e' ∷ b'x' ∷ b't' ∷ b' ' ∷ b'r' ∷ b'e' ∷ b'l' ∷ b'e' ∷ b'a' ∷ b's' ∷ b'e' ∷ 10 ∷ b' ' ∷ b' '
    ∷ b' ' ∷ b' ' ∷ b' ' ∷ b'i' ∷ b'n' ∷ b't' ∷ b'e' ∷ b'r' ∷ b'n' ∷ b'a' ∷ b'l' ∷ b'_' ∷ b'a'
    ∷ b'p' ∷ b'i' ∷ b'_' ∷ b'k' ∷ b'e' ∷ b'y' ∷ b' ' ∷ b'=' ∷ b' ' ∷ []

abbrev endpoint : Text
endpoint =
    10 ∷ b' ' ∷ b' ' ∷ b' ' ∷ b' ' ∷ b' ' ∷ b'd' ∷ b'e' ∷ b'b' ∷ b'u' ∷ b'g' ∷ b'_' ∷ b'e' ∷ b'n'
    ∷ b'd' ∷ b'p' ∷ b'o' ∷ b'i' ∷ b'n' ∷ b't' ∷ b' ' ∷ b' ' ∷ b' ' ∷ b'=' ∷ b' ' ∷ []

abbrev probe_query : Text
probe_query = b'/' ∷ b'p' ∷ b'r' ∷ b'o' ∷ b'b' ∷ b'e' ∷ b'?' ∷ b'k' ∷ b'=' ∷ []

abbrev staging : Text
staging =
    10 ∷ b' ' ∷ b' ' ∷ b' ' ∷ b' ' ∷ b' ' ∷ b'e' ∷ b'n' ∷ b'v' ∷ b' ' ∷ b' ' ∷ b' ' ∷ b' ' ∷ b' '
    ∷ b' ' ∷ b' ' ∷ b' ' ∷ b' ' ∷ b' ' ∷ b' ' ∷ b' ' ∷ b' ' ∷ b' ' ∷ b'=' ∷ b' ' ∷ b's' ∷ b't'
    ∷ b'a' ∷ b'g' ∷ b'i' ∷ b'n' ∷ b'g' ∷ 10 ∷ b'-' ∷ b'-' ∷ b'>' ∷ []

-- `inject_honey_creds`, where `key` and `key_text` are the key that `_make_honey_key` gives
unfoldable pub inject_honey_creds :
    Bool → ℕ → String → String → Text → Text → Text → Keys → Keys × Text
unfolding rfind
inject_honey_creds enabled now identity key key_text admin_ns body store =
    let comment =
      todo ++ (key_text ++ (endpoint ++ (admin_ns ++ (probe_query ++ (key_text ++ staging))))) in
    if not enabled || is_nil body || identity == "" then (store, body) else (
      store_honey_key now key identity store,
      elim (rfind body_end body) [ none ↦ body ++ comment | some p ↦ insert comment p ],
    )

find-parts : (needle body : Text) (p : Parts) → find needle body ≡ some p → body ≡ p.0 ++ p.1
unfolding find
find-parts needle [] p h = cc
find-parts needle (c ∷ body) p h = elim (Option-cases (find needle body)) [
  | inl e ↦ ground (arith, e, h)
  | inr (q, e) ↦ ground (arith, e, h, find-parts needle body q e)
]

rfind-parts : (needle body : Text) (p : Parts) → rfind needle body ≡ some p → body ≡ p.0 ++ p.1
unfolding rfind
rfind-parts needle [] p h = cc
rfind-parts needle (c ∷ body) p h = elim (Option-cases (rfind needle body)) [
  | inl e ↦ ground (arith, e, h)
  | inr (q, e) ↦ ground (arith, e, h, rfind-parts needle body q e)
]

find_first-parts :
    (needles : List Text) (body : Text) (p : Parts)
    → find_first needles body ≡ some p
    → body ≡ p.0 ++ p.1
unfolding find_first
find_first-parts [] body p h = cc
find_first-parts (needle ∷ needles) body p h = elim (Option-cases (find needle body)) [
  | inl e ↦ ground (arith, e, h, find_first-parts needles body p)
  | inr (q, e) ↦ ground (arith, e, h, find-parts needle body q e)
]

last-part : (body : Text) → body ≡ body ++ []
last-part [] = refl
last-part (c ∷ body) = ap (λ (s : Text). c ∷ s) (last-part body)

-- The lifecycle script is put into a page at one place, and the page is otherwise kept: whatever the
-- body, if it is not empty and the detector is on, it splits in two parts, the result is the first
-- part, the script with the token, and the second part.
pub lifecycle_inserted :
    (lc_token body : Text)
    → is_nil body ≡ false
    → (p q : Text) × (body ≡ p ++ q)
      × (inject_lifecycle true lc_token body
          ≡ p ++ ((script_start ++ (lc_token ++ script_end)) ++ q))
unfolding inject_lifecycle
lifecycle_inserted lc_token body full =
    let snippet = script_start ++ (lc_token ++ script_end) in
    let needles : List Text = body_end ∷ html_end ∷ [] in
    elim (Option-cases (find_first needles body)) [
      | inl e ↦ (
        body,
        [],
        last-part body,
        rw (e, full) (ap (λ (x : Text). body ++ x) (last-part snippet)),
      )
      | inr (p, e) ↦ (p.0, p.1, find_first-parts needles body p e, rw (e, full) refl)
    ]
