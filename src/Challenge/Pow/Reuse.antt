-- ===== src/Challenge/Pow/Reuse.antt =====
-- The end of a token's single use: its entry among the used tokens counts the validity from the
-- first use, while the token's age counts it in whole seconds from the issue.
use anti_bot_gw.Common.{
  ℕ, ◌+◌, ◌*◌, ◌/◌, ◌≤◌, ◌<◌, true, false, ltb, leb, ◌≡◌, none, ◌++◌, nat_eq, list_eq, ◌∙◌, arith,
}
use anti_bot_gw.Common.Dict.{Dict, get, put, evict, Unique}
use anti_bot_gw.Common.Dict.Laws.{get-put_self, get-evict, put-Unique, evict-Unique}
use anti_bot_gw.Challenge.Decimal.{Text}
use anti_bot_gw.Challenge.Pow.Split.{NoBar}
use anti_bot_gw.Challenge.Pow.{
  Crypto, Config, ok, challenge_difficulty, floor_4, starts_with_zeros, is_nil, verify_pow,
}
use anti_bot_gw.Challenge.Pow.Accept.{kept}
use anti_bot_gw.Challenge.Pow.RoundTrip.{IsHex, IsAscii, token, accepted, verify-make}
use anti_bot_gw.RateLimit.Prune.Caches.{prune_pow_seen}

module _ (crypto : Crypto) (cfg : Config) (nonce method path : Text) (made risk_score : ℕ) where
  abbrev challenge : Text
  challenge = token crypto cfg nonce method path made risk_score

  unused_after_prune :
      (now later : ℕ) (solution : Text) (seen : Dict Text ℕ)
      → Unique seen
      → now + 1000 * cfg.valid_secs < later
      → get challenge (
          kept crypto cfg later challenge solution method path
            (prune_pow_seen later (put challenge (now + 1000 * cfg.valid_secs) seen)))
        ≡ none
  unfolding prune_pow_seen
  unused_after_prune now later solution seen u past =
      let exp = now + 1000 * cfg.valid_secs in
      let all = put challenge exp seen in
      let ua = put-Unique challenge exp seen u in
      let rest = evict (λ (k : Text) (x : ℕ). ltb x later) all in
      let ur = evict-Unique (λ (k : Text) (x : ℕ). ltb x later) all ua in
      let gone : get challenge rest ≡ none =
        get-evict (λ k x. ltb x later) challenge all ua
        ∙ (ground (arith, get-put_self challenge exp seen, past)) in
      ground (arith, gone, get-evict (λ k x. leb x later) challenge rest ur)

  -- A challenge can be used twice. If it is accepted at one time, and a round of the prune and a
  -- second verification come after the validity has passed from that time on but within the last
  -- whole second of the validity that counts from its issue, the same solution is accepted again.
  -- (The hypotheses on the challenge are those under which it is accepted at all.)
  pub second_use :
      (now later : ℕ) (solution : Text) (seen : Dict Text ℕ)
      → ((m : Text) → IsHex (crypto.hmac m))
      → IsHex nonce
      → NoBar method
      → IsAscii method
      → NoBar path
      → IsAscii path
      → is_nil solution ≡ false
      → 4000 * (made / 1000) + floor_4 cfg ≤ 4 * now
      → now + 1000 * cfg.valid_secs < later
      → later / 1000 ≤ made / 1000 + cfg.valid_secs
      → starts_with_zeros (challenge_difficulty cfg risk_score) (crypto.sha256 (nonce ++ solution))
        ≡ true
      → Unique seen
      → get challenge (kept crypto cfg now challenge solution method path seen) ≡ none
      → (seen₁ seen₂ : Dict Text ℕ) × (verify_pow crypto cfg now challenge solution method path seen
          ≡ (seen₁, ok))
        × (verify_pow crypto cfg later challenge solution method path (prune_pow_seen later seen₁)
            ≡ (seen₂, ok))
  second_use now later solution seen hex hn nm am np ap' filled late past early solved u unused =
      let first = accepted crypto cfg nonce method path made risk_score now solution seen in
      let rest = kept crypto cfg now challenge solution method path seen in
      let ur : Unique rest = ground (arith, evict-Unique (λ k x. leb x now) seen u) in
      let again = prune_pow_seen later first.0 in
      let second = accepted crypto cfg nonce method path made risk_score later solution again in
      (
        first.0,
        second.0,
        verify-make crypto cfg nonce method path made risk_score now solution seen hex hn nm am np
            ap' filled (omega arith) late solved unused,
        verify-make crypto cfg nonce method path made risk_score later solution again hex hn nm am
            np ap' filled early (omega arith) solved
            (unused_after_prune now later solution rest ur past),
      )
