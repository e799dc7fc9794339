-- ===== src/Tests/Challenges.antt =====
-- The proof of work of challenge/pow.py, at concrete inputs. The digests are stand-ins.
use anti_bot_gw.Common.{
  ℕ, ◌+◌, ◌%◌, ◌≢◌, false, [], ◌∷◌, ◌≡◌, refl, arith, length, nat_eq, list_eq, inl, inr,
}
use anti_bot_gw.Common.Dict.{Dict, get}
use anti_bot_gw.Challenge.Decimal.{Text}
use anti_bot_gw.Challenge.Pow.{
  Crypto, Config, ok, make_pow_challenge, verify_pow, challenge_difficulty, starts_with_zeros,
}
use anti_bot_gw.Challenge.Pow.Accept.{Accepted, accept-Accepted}
use anti_bot_gw.Challenge.Pow.RoundTrip.{IsHex, accepted, verify-make}
use anti_bot_gw.Challenge.Pow.Replay.{attempt, prune, steps, single_use}
use anti_bot_gw.Challenge.Pow.Reuse.{second_use}
use anti_bot_gw.RateLimit.Prune.Caches.{prune_pow_seen}

abbrev crypto : Crypto
crypto = record {
  hmac = λ m. b'a' ∷ (b'0' + length m % 10) ∷ [];
  sha256 = λ m. b'0' ∷ b'0' ∷ b'0' ∷ b'0' ∷ b'0' ∷ m;
}

hmac-IsHex : (m : Text) → IsHex (crypto.hmac m)
hmac-IsHex m = (inr (omega arith, omega arith), (inl (omega arith, omega arith), tt))

abbrev settings : Config
settings = record {
  difficulty = 4;
  anubis_enabled = false;
  anubis_boost = 2;
  valid_secs = 300;
  min_solve_ms = 200;
}

abbrev nonce : Text
nonce = b'a' ∷ b'1' ∷ []

abbrev method : Text
method = b'G' ∷ b'e' ∷ b't' ∷ []

abbrev path : Text
path = b'/' ∷ b'x' ∷ []

abbrev solution : Text
solution = b'4' ∷ b'2' ∷ []

abbrev challenge : Text
challenge = make_pow_challenge crypto settings nonce 1000 method path 10

abbrev after_use : Dict Text ℕ
after_use = (accepted crypto settings nonce method path 1000 10 1500 solution []).0

nonce-IsHex : IsHex nonce
nonce-IsHex = (inr (omega arith, omega arith), (inl (omega arith, omega arith), tt))

verify-make_example :
    verify_pow crypto settings 1500 challenge solution method path [] ≡ (after_use, ok)
unfolding challenge_difficulty starts_with_zeros get
verify-make_example =
    verify-make crypto settings nonce method path 1000 10 1500 solution [] hmac-IsHex nonce-IsHex
      (omega arith, (omega arith, (omega arith, tt)))
      (omega arith, (omega arith, (omega arith, tt))) (omega arith, (omega arith, tt))
      (omega arith, (omega arith, tt)) refl (omega arith) (omega arith) refl refl

challenge-accepted :
    verify_pow crypto settings 1500 challenge solution method path [] ≡ (after_use, ok)
unfolding challenge_difficulty starts_with_zeros get
challenge-accepted =
    verify-make crypto settings nonce method path 1000 10 1500 solution [] hmac-IsHex nonce-IsHex
      (omega arith, (omega arith, (omega arith, tt)))
      (omega arith, (omega arith, (omega arith, tt))) (omega arith, (omega arith, tt))
      (omega arith, (omega arith, tt)) refl (omega arith) (omega arith) refl refl

accept-Accepted_example : Accepted crypto settings 1500 challenge solution method path [] after_use
accept-Accepted_example =
    accept-Accepted crypto settings 1500 challenge solution method path [] after_use
      challenge-accepted

single_use_example :
    (verify_pow crypto settings 4000 challenge solution method path (
      steps crypto settings
        (attempt 2000 challenge solution method path ∷ prune 3000 ∷ [])
        after_use)).1
    ≢ ok
single_use_example =
    single_use crypto settings 1500 4000 challenge solution solution method method path path []
      after_use (attempt 2000 challenge solution method path ∷ prune 3000 ∷ []) tt
      challenge-accepted (omega arith, (omega arith, tt)) (omega arith)

second_use_example :
    (seen₁ seen₂ : Dict Text ℕ) × (verify_pow crypto settings 1500 challenge solution method path []
      ≡ (seen₁, ok))
    × (verify_pow crypto settings 301_800 challenge solution method path
          (prune_pow_seen 301_800 seen₁)
        ≡ (seen₂, ok))
unfolding challenge_difficulty starts_with_zeros get
second_use_example =
    second_use crypto settings nonce method path 1000 10 1500 301_800 solution [] hmac-IsHex
      nonce-IsHex (omega arith, (omega arith, (omega arith, tt)))
      (omega arith, (omega arith, (omega arith, tt))) (omega arith, (omega arith, tt))
      (omega arith, (omega arith, tt)) refl (omega arith) (omega arith) (omega arith) refl tt refl
