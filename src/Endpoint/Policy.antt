-- ===== src/Endpoint/Policy.antt =====
-- integrations/endpoint_policy.py, `_endpoint_rule` and `_endpoint_policy`. `fnmatch.fnmatchcase` is
-- a parameter: the path and the pattern.
use anti_bot_gw.Common.{
  ℕ, Bool, true, false, if◌then◌else◌, ◌≡◌, refl, arith, String, Option, none, some, List, [], ◌∷◌,
  ◌++◌,
}

-- A rule; `rps` in thousandths of a request a second, `burst` in requests.
pub record Rule : Type 0 where
  pub path : String
  pub policy : String
  pub rps : Option ℕ
  pub burst : Option ℕ

-- an entry of ENDPOINT_POLICIES: a dictionary, or a pair of the old form
pub data Entry : Type 0 where
  rule : Rule → Entry
  pair : String → String → Entry

abbrev pub pattern_of : Entry → String
pattern_of (rule r) = r.path
pattern_of (pair path policy) = path

abbrev pub rule_of : Entry → Rule
rule_of (rule r) = r
rule_of (pair path policy) = record { path = path; policy = policy; rps = none; burst = none }

module _ (fnmatch : String → String → Bool) where
  unfoldable pub endpoint_rule : String → List Entry → Option Rule
  endpoint_rule path [] = none
  endpoint_rule path (item ∷ items) =
      let rest = endpoint_rule path items in
      if fnmatch path (pattern_of item) then some (rule_of item) else rest

  unfoldable pub endpoint_policy : String → List Entry → String
  unfolding endpoint_rule
  endpoint_policy path items = elim (endpoint_rule path items) [
    | none ↦ "default"
    | some r ↦ r.policy
  ]

  -- No entry's pattern matches the path.
  abbrev pub NoMatch : String → List Entry → Type 0
  NoMatch path [] = Unit
  NoMatch path (item ∷ items) = (fnmatch path (pattern_of item) ≡ false) × NoMatch path items

  endpoint_rule-skip :
      (path : String) (before after : List Entry)
      → NoMatch path before
      → endpoint_rule path (before ++ after) ≡ endpoint_rule path after
  unfolding endpoint_rule
  endpoint_rule-skip path [] after n = refl
  endpoint_rule-skip path (item ∷ before) after n =
      ground (arith, n.0, endpoint_rule-skip path before after n.1)

  policy-NoMatch :
      (path : String) (items : List Entry)
      → NoMatch path items
      → endpoint_policy path items ≡ "default"
  unfolding endpoint_policy
  policy-NoMatch path [] m = refl
  policy-NoMatch path (item ∷ items) m = ground (arith, m.0, policy-NoMatch path items m.1)

  -- The first match wins: a path has the policy of the first entry whose pattern matches it,
  -- whatever entries follow, and "default" if none matches.
  first_match :
      (path : String) (before after : List Entry) (item : Entry)
      → NoMatch path before
      → (fnmatch path (pattern_of item) ≡ true
          → endpoint_policy path (before ++ item ∷ after) ≡ (rule_of item).policy)
        × (endpoint_policy path before ≡ "default")
  unfolding endpoint_policy
  first_match path before after item n = (
    λ h. ground (arith, h, endpoint_rule-skip path before (item ∷ after) n),
    policy-NoMatch path before n,
  )
