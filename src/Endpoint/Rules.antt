-- ===== src/Endpoint/Rules.antt =====
-- integrations/endpoint_policy.py, `_eval_custom_rules`. A text is its code points, and the tests
-- that ignore case do so on ASCII letters. The conditions `header.<name>` and `query.<name>` of a
-- rule are lists in the order of the dictionary. The glob matcher and Python's ipaddress are
-- parameters, and so are the request's headers and query, and the country of the address.
pub mod First
use mathlib.Core.Path.{subst}
use anti_bot_gw.Common.{
  list_beq_iff, ◌↔◌, ◌+◌, Bool, true, false, leb, if◌then◌else◌, ◌≡◌, refl, arith, ◌&&◌, ◌||◌,
  Option, none, some, List, [], ◌∷◌, ◌++◌, map, any, ◌==◌, nat_eq, list_eq, Option-cases,
  Bool-cases, inl, inr, ap, ◌⊎◌,
}
use anti_bot_gw.Common.Dict.{mem}
use anti_bot_gw.Challenge.Decimal.{Text}
use anti_bot_gw.Challenge.Pow.{upper, is_nil}

-- `s.lower()`
unfoldable pub lower : Text → Text
lower = map (λ c. if leb b'A' c && leb c b'Z' then c + 32 else c)

unfoldable pub starts_with : Text → Text → Bool
starts_with [] s = true
starts_with (c ∷ p) [] = false
starts_with (c ∷ p) (d ∷ s) = let rest = starts_with p s in (c == d) && rest

-- `p in s`
unfoldable pub contains : Text → Text → Bool
unfolding starts_with
contains p [] = is_nil p
contains p (c ∷ s) = let rest = contains p s in starts_with p (c ∷ s) || rest

-- Python's ipaddress: an error is `none`.
pub record Addresses : Type 1 where
  pub Address : Type 0
  pub Network : Type 0
  pub ip_address : Text → Option Address
  pub ip_network : Text → Option Network
  pub within : Address → Network → Bool

-- The conditions; an empty one is missing. `nets` are the networks that were compiled when the rule
-- was read, `cidrs` their texts.
pub record Conditions (Network : Type 0) : Type 0 where
  pub path : Text
  pub methods : List Text
  pub ua_contains : Text
  pub headers : List (Text × Text)
  pub queries : List (Text × Text)
  pub nets : Option (List Network)
  pub cidrs : List Text
  pub countries : List Text

pub record Rule (Network : Type 0) : Type 0 where
  pub conditions : Conditions Network
  pub action : Text
  pub tag : Text

pub record Request : Type 0 where
  pub path : Text
  pub method : Text
  pub header : Text → Text
  pub query : Text → Text
  pub ip : Text
  pub country : Option Text

abbrev pub user_agent : Text
user_agent = b'U' ∷ b's' ∷ b'e' ∷ b'r' ∷ b'-' ∷ b'A' ∷ b'g' ∷ b'e' ∷ b'n' ∷ b't' ∷ []

-- every wanted value is in its header, whatever the case
unfoldable pub headers_hold : Request → List (Text × Text) → Bool
headers_hold req [] = true
headers_hold req ((name, want) ∷ rest) =
    let others = headers_hold req rest in contains (lower want) (lower (req.header name)) && others

unfoldable pub queries_hold : Request → List (Text × Text) → Bool
queries_hold req [] = true
queries_hold req ((name, want) ∷ rest) =
    let others = queries_hold req rest in (req.query name == want) && others

module _ (lib : Addresses) (fnmatch : Text → Text → Bool) where
  open lib use {Address, Network, ip_address, ip_network, within}

  -- `[ip_network(c) for c in raw]`, and `[]` on an error
  unfoldable pub compile : List Text → Option (List Network)
  compile [] = some []
  compile (c ∷ raw) = elim (compile raw) [
    | none ↦ none
    | some nets ↦ elim (ip_network c) [ none ↦ none | some net ↦ some (net ∷ nets) ]
  ]

  abbrev or_empty : Option (List Network) → List Network
  or_empty none = []
  or_empty (some nets) = nets

  unfoldable pub nets_of : Conditions Network → List Network
  unfolding compile
  nets_of c = elim c.nets [ none ↦ or_empty (compile c.cidrs) | some nets ↦ nets ]

  -- the address is in one of the networks, where there are any
  unfoldable pub address_in : Text → List Network → Bool
  address_in ip [] = true
  address_in ip (net ∷ nets) = elim (ip_address ip) [
    | none ↦ false
    | some a ↦ any (within a) (net ∷ nets)
  ]

  abbrev pub empty_list : List Text → Bool
  empty_list [] = true
  empty_list (x ∷ xs) = false

  abbrev pub text_of : Option Text → Text
  text_of none = []
  text_of (some s) = s

  unfoldable pub rule_matches : Request → Rule Network → Bool
  unfolding upper lower contains headers_hold queries_hold nets_of address_in
  rule_matches req r =
      let c = r.conditions in
      (is_nil c.path || fnmatch req.path c.path)
      && (empty_list c.methods || mem (upper req.method) (map upper c.methods))
      && (is_nil c.ua_contains || contains (lower c.ua_contains) (lower (req.header user_agent)))
      && headers_hold req c.headers
      && queries_hold req c.queries
      && address_in req.ip (nets_of c)
      && (empty_list c.countries || mem (upper (text_of req.country)) (map upper c.countries))

  unfoldable pub eval_custom_rules : Request → List (Rule Network) → Option (Text × Text)
  unfolding rule_matches
  eval_custom_rules req [] = none
  eval_custom_rules req (r ∷ rules) =
      let rest = eval_custom_rules req rules in
      if rule_matches req r then some (r.action, r.tag) else rest
