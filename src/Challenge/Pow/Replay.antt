-- ===== src/Challenge/Pow/Replay.antt =====
-- A token is good for one use, until its entry among the used tokens expires.
use mathlib.Core.Path.{subst}
use anti_bot_gw.Common.{
  ℕ, ◌+◌, ◌*◌, ◌<◌, true, false, ltb, leb, if◌then◌else◌, ◌≡◌, ◌||◌, none, some, List, [], ◌∷◌,
  ◌++◌, length, nat_eq, list_eq, refl, sym, ap, ◌∙◌, arith, ◌⊎◌, inl, inr, Bool-cases, Option-cases,
  list_beq_iff, ◌≢◌,
}
use anti_bot_gw.Common.Dict.{Dict, get, put, evict, Unique}
use anti_bot_gw.Common.Dict.Laws.{get-put, get-put_self, get-evict, put-Unique, evict-Unique}
use anti_bot_gw.Challenge.Decimal.{Text, Integer, int}
use anti_bot_gw.Challenge.Pow.{
  Crypto, Config, Verdict, ok, payload, pow_bind, compare_digest, split, is_expired, is_too_quick,
  starts_with_zeros, zeros_of, use_token, check_work, check_parts, by_parts, is_nil, verify_pow,
}
use anti_bot_gw.Challenge.Pow.Accept.{kept, accept-Accepted}
use anti_bot_gw.RateLimit.Prune.Caches.{prune_pow_seen}

-- What happens to the used tokens: a verification of any token, or a round of the prune.
pub data Event : Type 0 where
  attempt : ℕ → Text → Text → Text → Text → Event
  prune : ℕ → Event

abbrev pub time : Event → ℕ
time (attempt now token solution method path) = now
time (prune now) = now

module _ (crypto : Crypto) (cfg : Config) where
  step : Event → Dict Text ℕ → Dict Text ℕ
  step (attempt now token solution method path) seen =
      (verify_pow crypto cfg now token solution method path seen).0
  step (prune now) seen = prune_pow_seen now seen

  unfoldable pub steps : List Event → Dict Text ℕ → Dict Text ℕ
  unfolding step
  steps [] seen = seen
  steps (e ∷ es) seen = steps es (step e seen)

  -- All events come before the time.
  abbrev pub Before : ℕ → List Event → Type 0
  Before t [] = Unit
  Before t (e ∷ es) = (time e < t) × Before t es

  -- The token is among the used ones until the time.
  pub record Used (token : Text) (exp : ℕ) (seen : Dict Text ℕ) : Type 0 where
    pub unique : Unique seen
    pub entry : get token seen ≡ some exp

  -- the pruning of a table that is too long
  kept-Used :
      (now : ℕ) (token : Text) (exp : ℕ) (seen : Dict Text ℕ)
      → now < exp
      → Used token exp seen
      → Used token exp (if ltb 10000 (length seen) then evict (λ k x. leb x now) seen else seen)
  kept-Used now token exp seen soon u = elim (Bool-cases (ltb 10000 (length seen))) [
    | inl long ↦ rw long (record {
      unique = evict-Unique (λ k x. leb x now) seen u.unique;
      entry = get-evict (λ k x. leb x now) token seen u.unique ∙ (ground (arith, u.entry, soon));
    })
    | inr short ↦ rw short u
  ]

  put-Used :
      (token token' : Text) (exp exp' : ℕ) (seen : Dict Text ℕ)
      → Used token exp seen
      → get token' seen ≡ none
      → Used token exp (put token' exp' seen)
  put-Used token token' exp exp' seen u absent = record {
    unique = put-Unique token' exp' seen u.unique;
    entry = ground (arith, get-put token' token exp' seen, u.entry, list_beq_iff token' token);
  }

  use_token-Used :
      (now : ℕ) (token token' : Text) (exp : ℕ) (seen : Dict Text ℕ)
      → now < exp
      → Used token exp seen
      → Used token exp (use_token cfg now token' seen).0
  unfolding use_token
  use_token-Used now token token' exp seen soon u =
      let rest = if ltb 10000 (length seen) then evict (λ k x. leb x now) seen else seen in
      let u' = kept-Used now token exp seen soon u in
      elim (Option-cases (get token' rest)) [
        | inl new ↦ rw new (put-Used token token' exp _ rest u' new)
        | inr (x, old) ↦ rw old u'
      ]

  -- A verification either leaves the used tokens alone or goes as far as using the token.
  abbrev OrUse : ℕ → Text → Dict Text ℕ → Dict Text ℕ × Verdict → Type 0
  OrUse now token seen r = ((r.0 ≡ seen) × (r.1 ≢ ok)) ⊎ (r ≡ use_token cfg now token seen)

  work-OrUse :
      (now : ℕ) (token solution nonce diff : Text) (i : Integer) (seen : Dict Text ℕ)
      → OrUse now token seen (check_work crypto cfg now token solution nonce diff i seen)
  unfolding check_work
  work-OrUse now token solution nonce diff i seen = elim (Bool-cases (is_expired cfg now i)) [
    | inl late ↦ rw late (inl (refl, λ p. cc))
    | inr timely ↦ rw timely (elim (Bool-cases (is_too_quick cfg now i)) [
      | inl quick ↦ rw quick (inl (refl, λ p. cc))
      | inr slow ↦ rw slow (elim (Option-cases (int diff)) [
        | inl bad ↦ rw bad (inl (refl, λ p. cc))
        | inr (d, good) ↦
            rw good
              (elim (Bool-cases
                (starts_with_zeros (zeros_of d) (crypto.sha256 (nonce ++ solution)))) [
                  | inl solved ↦ rw solved (inr refl)
                  | inr wrong ↦ rw wrong (inl (refl, λ p. cc))
                ])
      ])
    ])
  ]

  parts-OrUse :
      (now : ℕ) (token solution method path n i d b s : Text) (seen : Dict Text ℕ)
      → OrUse now token seen (check_parts crypto cfg now token solution method path n i d b s seen)
  unfolding check_parts
  parts-OrUse now token solution method path n i d b s seen =
      elim (Option-cases (compare_digest s (crypto.hmac (payload n i d b)))) [
        | inl e ↦ rw (e, check_parts) (inl (refl, λ p. cc))
        | inr (false, e) ↦ rw (e, check_parts) (inl (refl, λ p. cc))
        | inr (true, e) ↦
            rw (e, check_parts)
              (elim (Option-cases (compare_digest b (pow_bind method path))) [
                | inl f ↦ rw (f, check_parts) (inl (refl, λ p. cc))
                | inr (false, f) ↦ rw (f, check_parts) (inl (refl, λ p. cc))
                | inr (true, f) ↦
                    rw (f, check_parts)
                      (elim (Option-cases (int i)) [
                        | inl g ↦ rw (g, check_parts) (inl (refl, λ p. cc))
                        | inr (z, g) ↦
                            rw (g, check_parts) (work-OrUse now token solution n d z seen)
                      ])
              ])
      ]

  split-OrUse :
      (now : ℕ) (token solution method path : Text) (parts : List Text) (seen : Dict Text ℕ)
      → OrUse now token seen (by_parts crypto cfg now token solution method path parts seen)
  unfolding by_parts
  split-OrUse now token solution method path [] seen = inl (refl, λ p. cc)
  split-OrUse now token solution method path (_ ∷ []) seen = inl (refl, λ p. cc)
  split-OrUse now token solution method path (_ ∷ _ ∷ []) seen = inl (refl, λ p. cc)
  split-OrUse now token solution method path (_ ∷ _ ∷ _ ∷ []) seen = inl (refl, λ p. cc)
  split-OrUse now token solution method path (_ ∷ _ ∷ _ ∷ _ ∷ []) seen = inl (refl, λ p. cc)
  split-OrUse now token solution method path (n ∷ i ∷ d ∷ b ∷ s ∷ []) seen =
      parts-OrUse now token solution method path n i d b s seen
  split-OrUse now token solution method path (_ ∷ _ ∷ _ ∷ _ ∷ _ ∷ _ ∷ _) seen = inl (refl, λ p. cc)

  verify-OrUse :
      (now : ℕ) (token solution method path : Text) (seen : Dict Text ℕ)
      → OrUse now token seen (verify_pow crypto cfg now token solution method path seen)
  unfolding verify_pow
  verify-OrUse now token solution method path seen =
      elim (Bool-cases (is_nil token || is_nil solution)) [
        | inl nothing ↦ rw nothing (inl (refl, λ p. cc))
        | inr some_token ↦
            rw some_token (split-OrUse now token solution method path (split token) seen)
      ]

  verify-Used :
      (now : ℕ) (token token' solution method path : Text) (exp : ℕ) (seen : Dict Text ℕ)
      → now < exp
      → Used token exp seen
      → Used token exp (verify_pow crypto cfg now token' solution method path seen).0
  verify-Used now token token' solution method path exp seen soon u =
      elim (verify-OrUse now token' solution method path seen) [
        | inl (e, _) ↦ subst (Used token exp) (sym e) u
        | inr e ↦
            subst (λ (r : Dict Text ℕ × Verdict). Used token exp r.0) (sym e)
              (use_token-Used now token token' exp seen soon u)
      ]

  use_token-refused :
      (now : ℕ) (token : Text) (exp : ℕ) (seen : Dict Text ℕ)
      → now < exp
      → Used token exp seen
      → (use_token cfg now token seen).1 ≢ ok
  unfolding use_token
  use_token-refused now token exp seen soon u =
      let e = (kept-Used now token exp seen soon u).entry in rw e (λ p. cc)

  verify-refused :
      (now : ℕ) (token solution method path : Text) (exp : ℕ) (seen : Dict Text ℕ)
      → now < exp
      → Used token exp seen
      → (verify_pow crypto cfg now token solution method path seen).1 ≢ ok
  verify-refused now token solution method path exp seen soon u =
      elim (verify-OrUse now token solution method path seen) [
        | inl (_, ne) ↦ ne
        | inr e ↦
            subst (λ (r : Dict Text ℕ × Verdict). r.1 ≢ ok) (sym e)
              (use_token-refused now token exp seen soon u)
      ]

  steps-Used :
      (token : Text) (exp : ℕ) (events : List Event) (seen : Dict Text ℕ)
      → Before exp events
      → Used token exp seen
      → Used token exp (steps events seen)
  unfolding steps prune_pow_seen
  steps-Used token exp [] seen b u = u
  steps-Used token exp (attempt now token' solution method path ∷ events) seen b u =
      steps-Used token exp events _ b.1
        (verify-Used now token token' solution method path exp seen b.0 u)
  steps-Used token exp (prune now ∷ events) seen b u = steps-Used token exp events _ b.1 (record {
    unique = evict-Unique (λ k x. ltb x now) seen u.unique;
    entry = get-evict (λ k x. ltb x now) token seen u.unique ∙ (ground (arith, u.entry, b.0));
  })

  kept-Unique :
      (now : ℕ) (token solution method path : Text) (seen : Dict Text ℕ)
      → Unique seen
      → Unique (kept crypto cfg now token solution method path seen)
  kept-Unique now token solution method path seen u =
      ground (arith, evict-Unique (λ k x. leb x now) seen u)

  -- A token is good for one use. Once it is accepted, no verification of it is accepted again
  -- before its validity has passed from that time on, whatever solution, method and path come
  -- with it, and whatever verifications and rounds of the prune happened in between.
  pub single_use :
      (now later : ℕ) (token solution solution' method method' path path' : Text)
      (seen seen' : Dict Text ℕ) (events : List Event)
      → Unique seen
      → verify_pow crypto cfg now token solution method path seen ≡ (seen', ok)
      → Before (now + 1000 * cfg.valid_secs) events
      → later < now + 1000 * cfg.valid_secs
      → (verify_pow crypto cfg later token solution' method' path' (steps events seen')).1 ≢ ok
  single_use now later token solution solution' method method' path path' seen seen' events u h b
        soon =
      let exp = now + 1000 * cfg.valid_secs in
      let a = accept-Accepted crypto cfg now token solution method path seen seen' h in
      let rest = kept crypto cfg now token solution method path seen in
      let first : Used token exp seen' = record {
        unique =
            subst Unique (sym a.remembered)
              (put-Unique token exp rest (kept-Unique now token solution method path seen u));
        entry = ap (get token) a.remembered ∙ get-put_self token exp rest;
      } in
      verify-refused later token solution' method' path' exp (steps events seen') soon
        (steps-Used token exp events seen' b first)
