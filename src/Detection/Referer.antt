-- ===== src/Detection/Referer.antt =====
-- detection/referer_chain.py, with the recorders of detection/cookie_lifecycle.py that it depends on.
-- The parsing of the Referer header is a parameter of the request: its path and its host, or `none`
-- where it fails.
use anti_bot_gw.Common.{
  ℕ, suc, ◌≤◌, ◌<◌, Bool, true, false, ltb, leb, if◌then◌else◌, ◌≡◌, arith, ◌&&◌, ◌||◌, not, String,
  string_eq, Option, none, some, List, [], ◌∷◌, ◌++◌, length, ◌==◌, Bool-cases, inl, inr, beq_refl,
}
use anti_bot_gw.Common.Dict.{mem}
use anti_bot_gw.State.IpState.{IpState}

-- `_SERVED_HTML_PATHS_MAX`
abbrev pub served_max : ℕ
served_max = 50

unfoldable pub record_gateway_cookie_set : IpState → IpState
record_gateway_cookie_set s = record s { gateway_cookies_set = suc s.gateway_cookies_set }

-- `set.add`
abbrev pub add : String → List String → List String
add path paths = if mem path paths then paths else paths ++ path ∷ []

unfoldable pub record_html_served : String → IpState → IpState
record_html_served path s =
    if ltb (length s.served_html_paths) served_max
    then record s { served_html_paths = add path s.served_html_paths }
    else s

-- What the check reads of a request: the header without white space at its ends, its path and host,
-- the request's own host, and whether the two paths end like static assets.
pub record Request : Type 0 where
  pub referer : String
  pub parsed : Option (String × String)
  pub own_host : String
  pub is_static : Bool
  pub referer_is_static : Bool

-- the tests on the request, before the identity's record: the referer's path
unfoldable pub own_page : Bool → Request → Option String
own_page enabled req =
    if not enabled || req.referer == "" || req.is_static then none else elim req.parsed [
      | none ↦ none
      | some p ↦
          if p.1 == "" || not (p.1 == req.own_host) || req.referer_is_static
          then none
          else some (if p.0 == "" then "/" else p.0)
    ]

-- `referer_ghost_check` on the identity's record
unfoldable pub referer_ghost_check : Bool → Request → IpState → Bool
unfolding own_page
referer_ghost_check enabled req s = elim (own_page enabled req) [
  | none ↦ false
  | some path ↦ leb 1 s.html_loads && not (mem path s.served_html_paths)
]

mem-append_last : (p : String) (ps : List String) → mem p (ps ++ p ∷ []) ≡ true
unfolding mem
mem-append_last p [] = ground (arith, beq_refl p)
mem-append_last p (q ∷ ps) = ground (arith, mem-append_last p ps)

mem-add : (p : String) (ps : List String) → mem p (add p ps) ≡ true
mem-add p ps = elim (Bool-cases (mem p ps)) [
  | inl e ↦ rw (e, add) e
  | inr e ↦ rw (e, add) (mem-append_last p ps)
]

-- A page that was served is a good referer only while the record of served pages has room: below
-- its maximum the check does not fire on the page just recorded, but once the record is full it
-- fires on a page that is served then and was not before.
pub served_page :
    (req : Request) (path : String) (s : IpState)
    → own_page true req ≡ some path
    → 1 ≤ s.html_loads
    → (length s.served_html_paths < served_max
        → referer_ghost_check true req (record_html_served path s) ≡ false)
      × (served_max ≤ length s.served_html_paths
          → mem path s.served_html_paths ≡ false
          → referer_ghost_check true req (record_html_served path s) ≡ true)
unfolding referer_ghost_check record_html_served
served_page req path s own loads = (
  λ room. ground (arith, own, loads, room, mem-add path s.served_html_paths),
  λ full new. ground (arith, own, loads, full, new),
)
