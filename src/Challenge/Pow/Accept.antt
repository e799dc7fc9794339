-- ===== src/Challenge/Pow/Accept.antt =====
-- What an accepted token is: the checks of `verify_pow` that it has passed.
use mathlib.Core.List.{append_assoc}
use anti_bot_gw.Common.{
  ℕ, ◌+◌, ◌*◌, true, false, ltb, leb, if◌then◌else◌, ◌≡◌, none, some, List, [], ◌∷◌, ◌++◌, length,
  nat_eq, list_eq, refl, sym, ap, ◌∙◌, arith, inl, inr, Option-cases, list_beq_iff,
}
use anti_bot_gw.Common.Dict.{Dict, get, put, evict}
use anti_bot_gw.Challenge.Decimal.{Text, Integer, int}
use anti_bot_gw.Challenge.Pow.Split.{join, join-split}
use anti_bot_gw.Challenge.Pow.{
  Crypto, Config, ok, payload, pow_bind, compare_digest, split, is_expired, is_too_quick,
  starts_with_zeros, zeros_of, use_token, check_work, check_parts, by_parts, verify_pow,
}

module _ (crypto : Crypto) (cfg : Config) (now : ℕ) (token solution method path : Text)
    (seen : Dict Text ℕ) where
  -- The used tokens that are looked at, after the pruning of a table that is too long.
  abbrev pub kept : Dict Text ℕ
  kept = if ltb 10000 (length seen) then evict (λ k exp. leb exp now) seen else seen

  pub record Accepted (seen' : Dict Text ℕ) : Type 0 where
    pub nonce : Text
    pub issued : Text
    pub diff : Text
    pub at : Integer
    pub zeros : Integer
    pub signed_by_server :
        token
        ≡ payload nonce issued diff (pow_bind method path)
          ++ b'|' ∷ crypto.hmac (payload nonce issued diff (pow_bind method path))
    pub five_parts :
        split token
        ≡ nonce
          ∷ issued
          ∷ diff
          ∷ pow_bind method path
          ∷ crypto.hmac (payload nonce issued diff (pow_bind method path))
          ∷ []
    pub is_issued : int issued ≡ some at
    pub in_time : is_expired cfg now at ≡ false
    pub not_too_quick : is_too_quick cfg now at ≡ false
    pub has_difficulty : int diff ≡ some zeros
    pub solved : starts_with_zeros (zeros_of zeros) (crypto.sha256 (nonce ++ solution)) ≡ true
    pub unused : get token kept ≡ none
    pub remembered : seen' ≡ put token (now + 1000 * cfg.valid_secs) kept

  compare-true : (a b : Text) → compare_digest a b ≡ some true → a ≡ b
  unfolding compare_digest
  compare-true a b h = ground (arith, list_beq_iff a b)

  join-payload : (n i d b s : Text) → join (n ∷ i ∷ d ∷ b ∷ s ∷ []) ≡ payload n i d b ++ b'|' ∷ s
  unfolding payload
  join-payload n i d b s = sym (simp append_assoc)

  Accepted-work :
      (nonce issued diff bind sig : Text) (i : Integer) (seen' : Dict Text ℕ)
      → split token ≡ nonce ∷ issued ∷ diff ∷ bind ∷ sig ∷ []
      → sig ≡ crypto.hmac (payload nonce issued diff bind)
      → bind ≡ pow_bind method path
      → int issued ≡ some i
      → check_work crypto cfg now token solution nonce diff i seen ≡ (seen', ok)
      → Accepted seen'
  unfolding check_work use_token
  Accepted-work nonce issued diff bind sig i seen' parts s b is h =
      let five =
        parts
        ∙ ap (λ (x : Text). nonce ∷ issued ∷ diff ∷ bind ∷ x ∷ []) s
        ∙ ap
            (λ (y : Text).
              nonce ∷ issued ∷ diff ∷ y ∷ crypto.hmac (payload nonce issued diff y) ∷ [])
            b in
      elim (Option-cases (int diff)) [
        | inl no_number ↦ absurd (ground arith)
        | inr (d, number) ↦ record {
          nonce = nonce;
          issued = issued;
          diff = diff;
          at = i;
          zeros = d;
          signed_by_server =
              sym (join-split token)
              ∙ ap join five
              ∙ join-payload nonce issued diff (pow_bind method path)
                  (crypto.hmac (payload nonce issued diff (pow_bind method path)));
          five_parts = five;
          is_issued = is;
          in_time = ground arith;
          not_too_quick = ground arith;
          has_difficulty = number;
          solved = ground arith;
          unused = ground arith;
          remembered = ground arith;
        }
      ]

  Accepted-five :
      (nonce issued diff bind sig : Text) (seen' : Dict Text ℕ)
      → split token ≡ nonce ∷ issued ∷ diff ∷ bind ∷ sig ∷ []
      → check_parts crypto cfg now token solution method path nonce issued diff bind sig seen
        ≡ (seen', ok)
      → Accepted seen'
  unfolding check_parts
  Accepted-five nonce issued diff bind sig seen' e h =
      let cs = compare-true sig (crypto.hmac (payload nonce issued diff bind)) in
      let cb = compare-true bind (pow_bind method path) in
      elim (Option-cases (int issued)) [
        | inl no_number ↦ absurd (ground arith)
        | inr (i, number) ↦
            Accepted-work nonce issued diff bind sig i seen' e (ground (arith, cs))
              (ground (arith, cb)) number (ground (arith))
      ]

  Accepted-parts :
      (parts : List Text) (seen' : Dict Text ℕ)
      → split token ≡ parts
      → by_parts crypto cfg now token solution method path parts seen ≡ (seen', ok)
      → Accepted seen'
  unfolding by_parts
  Accepted-parts [] seen' e h = absurd (ground arith)
  Accepted-parts (_ ∷ []) seen' e h = absurd (ground arith)
  Accepted-parts (_ ∷ _ ∷ []) seen' e h = absurd (ground arith)
  Accepted-parts (_ ∷ _ ∷ _ ∷ []) seen' e h = absurd (ground arith)
  Accepted-parts (_ ∷ _ ∷ _ ∷ _ ∷ []) seen' e h = absurd (ground arith)
  Accepted-parts (n ∷ i ∷ d ∷ b ∷ s ∷ []) seen' e h = Accepted-five n i d b s seen' e h
  Accepted-parts (_ ∷ _ ∷ _ ∷ _ ∷ _ ∷ _ ∷ _) seen' e h = absurd (ground arith)

  -- An accepted token is exactly a payload of the server for this method and path, with its
  -- signature. It is within its time and not too quick, the solution meets its difficulty, the
  -- token was not among the used ones, and it is remembered with an expiry.
  pub accept-Accepted :
      (seen' : Dict Text ℕ)
      → verify_pow crypto cfg now token solution method path seen ≡ (seen', ok)
      → Accepted seen'
  unfolding verify_pow
  accept-Accepted seen' h = Accepted-parts (split token) seen' refl (ground arith)
