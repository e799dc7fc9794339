-- ===== src/Endpoint/Rules/First.antt =====
-- integrations/endpoint_policy.py: the rule that decides, with what a rule asks for written out.
use anti_bot_gw.Common.{
  Bool, true, ◌||◌, ◌&&◌, none, some, List, [], ◌∷◌, ◌++◌, map, any, nat_eq, list_eq, list_beq_iff,
  ◌≡◌, ◌↔◌, ◌⊎◌, refl, arith, ap, Bool-cases, Option-cases, inl, inr,
}
use anti_bot_gw.Common.Dict.{mem}
use anti_bot_gw.Challenge.Decimal.{Text}
use anti_bot_gw.Challenge.Pow.{is_nil}
use anti_bot_gw.Endpoint.Rules.{
  Addresses, Rule, Request, user_agent, upper, lower, contains, headers_hold, queries_hold, nets_of,
  address_in, empty_list, text_of, rule_matches, eval_custom_rules,
}

module _ (lib : Addresses) (fnmatch : Text → Text → Bool) where
  open lib use {Address, Network, ip_address, within}

  -- Every wanted header is there: its value contains the wanted one, whatever the case.
  abbrev pub HeadersHold : Request → List (Text × Text) → Type 0
  HeadersHold req [] = Unit
  HeadersHold req ((name, want) ∷ rest) =
      (contains (lower want) (lower (req.header name)) ≡ true) × HeadersHold req rest

  abbrev pub QueriesHold : Request → List (Text × Text) → Type 0
  QueriesHold req [] = Unit
  QueriesHold req ((name, want) ∷ rest) = (req.query name ≡ want) × QueriesHold req rest

  -- The request meets every condition that the rule has.
  pub record Meets (req : Request) (r : Rule Network) : Type 0 where
    pub path : (r.conditions.path ≡ []) ⊎ (fnmatch req.path r.conditions.path ≡ true)
    pub methods :
        (r.conditions.methods ≡ [])
        ⊎ (mem (upper req.method) (map upper r.conditions.methods) ≡ true)
    pub user_agent :
        (r.conditions.ua_contains ≡ [])
        ⊎ (contains (lower r.conditions.ua_contains) (lower (req.header user_agent)) ≡ true)
    pub headers : HeadersHold req r.conditions.headers
    pub queries : QueriesHold req r.conditions.queries
    pub network :
        (nets_of lib fnmatch r.conditions ≡ [])
        ⊎ ((a : Address) × (ip_address req.ip ≡ some a)
            × (any (within a) (nets_of lib fnmatch r.conditions) ≡ true))
    pub countries :
        (r.conditions.countries ≡ [])
        ⊎ (mem (upper (text_of lib fnmatch req.country)) (map upper r.conditions.countries) ≡ true)

  nil_or : (s : Text) (b : Bool) → ((is_nil s || b) ≡ true) ↔ ((s ≡ []) ⊎ (b ≡ true))
  nil_or [] b = (λ h. inl refl, λ h. refl)
  nil_or (c ∷ s) b = (λ h. inr h, λ h. elim h [ inl e ↦ absurd (ground (arith, e)) | inr t ↦ t ])

  empty_or :
      (ts : List Text) (b : Bool)
      → ((empty_list lib fnmatch ts || b) ≡ true) ↔ ((ts ≡ []) ⊎ (b ≡ true))
  empty_or [] b = (λ h. inl refl, λ h. refl)
  empty_or (t ∷ ts) b = (λ h. inr h, λ h. elim h [ inl e ↦ absurd (ground (arith, e)) | inr u ↦ u ])

  headers_hold-HeadersHold :
      (req : Request) (hs : List (Text × Text)) → (headers_hold req hs ≡ true) ↔ HeadersHold req hs
  unfolding headers_hold
  headers_hold-HeadersHold req [] = (λ h. tt, λ h. refl)
  headers_hold-HeadersHold req ((name, want) ∷ rest) =
      let ih = headers_hold-HeadersHold req rest in
      (λ h. (ground (arith, h), ih.0 (ground (arith, h))), λ h. ground (arith, h.0, ih.1 h.1))

  queries_hold-QueriesHold :
      (req : Request) (qs : List (Text × Text)) → (queries_hold req qs ≡ true) ↔ QueriesHold req qs
  unfolding queries_hold
  queries_hold-QueriesHold req [] = (λ h. tt, λ h. refl)
  queries_hold-QueriesHold req ((name, want) ∷ rest) =
      let ih = queries_hold-QueriesHold req rest in
      let same = list_beq_iff (req.query name) want in
      (
        λ h. (same.0 (ground (arith, h)), ih.0 (ground (arith, h))),
        λ h. ground (arith, same.1 h.0, ih.1 h.1),
      )

  address_in_iff :
      (ip : Text) (nets : List Network)
      → (address_in lib fnmatch ip nets ≡ true)
        ↔ ((nets ≡ []) ⊎ ((a : Address) × (ip_address ip ≡ some a) × (any (within a) nets ≡ true)))
  unfolding address_in
  address_in_iff ip [] = (λ h. inl refl, λ h. refl)
  address_in_iff ip (net ∷ nets) = (
    λ h. elim (Option-cases (ip_address ip)) [
      | inl e ↦ absurd (ground (arith, e, h))
      | inr (a, e) ↦ inr (a, e, ground (arith, e, h))
    ],
    λ h. elim h [
      | inl e ↦ absurd (ground (arith, e))
      | inr (a, e, there) ↦ rw (address_in, e) there
    ],
  )

  both : (a b : Bool) → ((a && b) ≡ true) ↔ ((a ≡ true) × (b ≡ true))
  both a b = (λ h. (ground (arith, h), ground (arith, h)), λ h. ground (arith, h.0, h.1))

  rule_matches_iff :
      (req : Request) (r : Rule Network) → (rule_matches lib fnmatch req r ≡ true) ↔ Meets req r
  unfolding rule_matches
  rule_matches_iff req r =
      let c = r.conditions in
      let on_path = nil_or c.path (fnmatch req.path c.path) in
      let on_method = empty_or c.methods (mem (upper req.method) (map upper c.methods)) in
      let on_agent =
        nil_or c.ua_contains (contains (lower c.ua_contains) (lower (req.header user_agent))) in
      let on_headers = headers_hold-HeadersHold req c.headers in
      let on_queries = queries_hold-QueriesHold req c.queries in
      let on_network = address_in_iff req.ip (nets_of lib fnmatch c) in
      let on_country =
        empty_or c.countries
          (mem (upper (text_of lib fnmatch req.country)) (map upper c.countries)) in
      (
        λ h. record {
          path = on_path.0 (ground (arith, h));
          methods = on_method.0 (ground (arith, h));
          user_agent = on_agent.0 (ground (arith, h));
          headers = on_headers.0 (ground (arith, h));
          queries = on_queries.0 (ground (arith, h));
          network = on_network.0 (ground (arith, h));
          countries = on_country.0 (ground (arith, h));
        },
        λ m. ground (
          arith,
          on_path.1 m.path,
          on_method.1 m.methods,
          on_agent.1 m.user_agent,
          on_headers.1 m.headers,
          on_queries.1 m.queries,
          on_network.1 m.network,
          on_country.1 m.countries,
        ),
      )

  -- The request does not meet the conditions of any of the rules.
  abbrev pub NoneMeets : Request → List (Rule Network) → Type 0
  NoneMeets req [] = Unit
  NoneMeets req (r ∷ rules) = (Meets req r → ⊥) × NoneMeets req rules

  -- The decision comes from a rule whose conditions the request meets, before which there is none.
  pub record Decided (req : Request) (rules : List (Rule Network)) (v : Text × Text) : Type 0 where
    pub before : List (Rule Network)
    pub rule : Rule Network
    pub after : List (Rule Network)
    pub parts : rules ≡ before ++ rule ∷ after
    pub first : NoneMeets req before
    pub meets : Meets req rule
    pub value : v ≡ (rule.action, rule.tag)

  -- The evaluation of the rules returns nothing exactly if the request meets the conditions of none
  -- of them, and what it returns is the action and the tag of the first rule whose conditions it
  -- meets: the glob of the path, the methods, the user agent, all headers and query parameters, the
  -- networks and the countries, each where the rule has it.
  pub eval-Decided :
      (req : Request) (rules : List (Rule Network))
      → ((eval_custom_rules lib fnmatch req rules ≡ none) × NoneMeets req rules)
        ⊎ ((v : Text × Text) × (eval_custom_rules lib fnmatch req rules ≡ some v)
            × Decided req rules v)
  unfolding eval_custom_rules
  eval-Decided req [] = inl (refl, tt)
  eval-Decided req (r ∷ rules) = elim (Bool-cases (rule_matches lib fnmatch req r)) [
    | inl m ↦ inr (
      (r.action, r.tag),
      rw m refl,
      record {
        before = [];
        rule = r;
        after = rules;
        parts = refl;
        first = tt;
        meets = (rule_matches_iff req r).0 m;
        value = refl;
      },
    )
    | inr n ↦
        let fails : Meets req r → ⊥ =
          λ m. absurd (ground (arith, n, (rule_matches_iff req r).1 m)) in
        elim (eval-Decided req rules) [
          | inl (e, none_meets) ↦ inl (rw n e, (fails, none_meets))
          | inr (v, e, d) ↦ inr (
            v,
            rw n e,
            record {
              before = r ∷ d.before;
              rule = d.rule;
              after = d.after;
              parts = ap (λ (x : List (Rule Network)). r ∷ x) d.parts;
              first = (fails, d.first);
              meets = d.meets;
              value = d.value;
            },
          )
        ]
  ]
