-- ===== src/Challenge/Pow/RoundTrip.antt =====
-- A challenge that the server makes can be met, unless its path holds a bar.
use mathlib.Core.List.{append_assoc}
use anti_bot_gw.Common.{
  ℕ, ◌+◌, ◌*◌, ◌/◌, ◌≤◌, ◌<◌, true, false, leb, ◌≡◌, none, some, List, [], ◌∷◌, ◌++◌, length, any,
  nat_eq, list_eq, refl, ap, ◌∙◌, arith, ◌⊎◌, inl, inr, list_beq_iff,
}
use anti_bot_gw.Common.Dict.{Dict, get, put}
use anti_bot_gw.Challenge.Decimal.{Text, str, natural, int-str, AllDigits, str-AllDigits}
use anti_bot_gw.Challenge.Pow.Split.{
  NoBar, bars, bars-append, split-append, split-NoBar, length-split,
}
use anti_bot_gw.Challenge.Pow.{
  Crypto, Config, Verdict, ok, reject, malformed, payload, pow_bind, upper, challenge_difficulty,
  make_pow_challenge, compare_digest, split, floor_4, starts_with_zeros, check_work, check_parts,
  by_parts, is_nil, verify_pow,
}
use anti_bot_gw.Challenge.Pow.Accept.{kept}

-- The lower-case hexadecimal digits, of which digests and nonces are made.
abbrev pub IsHex : Text → Type 0
IsHex [] = Unit
IsHex (c ∷ s) = (((b'0' ≤ c) × (c ≤ b'9')) ⊎ ((b'a' ≤ c) × (c ≤ b'f'))) × IsHex s

abbrev pub IsAscii : Text → Type 0
IsAscii [] = Unit
IsAscii (c ∷ s) = (c < 128) × IsAscii s

IsHex-NoBar : (s : Text) → IsHex s → NoBar s
IsHex-NoBar [] h = tt
IsHex-NoBar (c ∷ s) (inl h, hs) = (omega arith, IsHex-NoBar s hs)
IsHex-NoBar (c ∷ s) (inr h, hs) = (omega arith, IsHex-NoBar s hs)

IsHex-IsAscii : (s : Text) → IsHex s → IsAscii s
IsHex-IsAscii [] h = tt
IsHex-IsAscii (c ∷ s) (inl h, hs) = (omega arith, IsHex-IsAscii s hs)
IsHex-IsAscii (c ∷ s) (inr h, hs) = (omega arith, IsHex-IsAscii s hs)

pub AllDigits-NoBar : (s : Text) → AllDigits s → NoBar s
AllDigits-NoBar [] h = tt
AllDigits-NoBar (c ∷ s) h = (omega arith, AllDigits-NoBar s h.2)

upper-NoBar : (s : Text) → NoBar s → NoBar (upper s)
unfolding upper
upper-NoBar [] h = tt
upper-NoBar (c ∷ s) h = (ground (arith, h.0), upper-NoBar s h.1)

upper-IsAscii : (s : Text) → IsAscii s → IsAscii (upper s)
unfolding upper
upper-IsAscii [] h = tt
upper-IsAscii (c ∷ s) h = (ground (arith, h.0), upper-IsAscii s h.1)

NoBar-append : (s t : Text) → NoBar s → NoBar t → NoBar (s ++ t)
NoBar-append [] t a b = b
NoBar-append (c ∷ s) t a b = (a.0, NoBar-append s t a.1 b)

IsAscii-append : (s t : Text) → IsAscii s → IsAscii t → IsAscii (s ++ t)
IsAscii-append [] t a b = b
IsAscii-append (c ∷ s) t a b = (a.0, IsAscii-append s t a.1 b)

any_ascii : (s : Text) → IsAscii s → any (λ c. leb 128 c) s ≡ false
unfolding any
any_ascii [] h = refl
any_ascii (c ∷ s) h = ground (arith, any_ascii s h.1)

compare_digest_self : (s : Text) → IsAscii s → compare_digest s s ≡ some true
unfolding compare_digest
compare_digest_self s h = ground (arith, any_ascii s h, list_beq_iff s s)

bind-NoBar : (method path : Text) → NoBar method → NoBar path → NoBar (pow_bind method path)
unfolding pow_bind
bind-NoBar method path m p =
    NoBar-append (upper method) (b':' ∷ path) (upper-NoBar method m) (omega arith, p)

bind-IsAscii : (method path : Text) → IsAscii method → IsAscii path → IsAscii (pow_bind method path)
unfolding pow_bind
bind-IsAscii method path m p =
    IsAscii-append (upper method) (b':' ∷ path) (upper-IsAscii method m) (omega arith, p)

split_five :
    (n i d b s : Text)
    → NoBar n
    → NoBar i
    → NoBar d
    → NoBar b
    → NoBar s
    → split (payload n i d b ++ b'|' ∷ s) ≡ n ∷ i ∷ d ∷ b ∷ s ∷ []
unfolding payload
split_five n i d b s hn hi hd hb hs =
    ap split (simp append_assoc)
    ∙ split-append n _ hn
    ∙ ap (λ x. n ∷ x) (split-append i _ hi)
    ∙ ap (λ x. n ∷ i ∷ x) (split-append d _ hd)
    ∙ ap (λ x. n ∷ i ∷ d ∷ x) (split-append b s hb)
    ∙ ap (λ x. n ∷ i ∷ d ∷ b ∷ x) (split-NoBar s hs)

bars-payload : (n i d b : Text) → bars (payload n i d b) ≡ bars n + bars i + bars d + bars b + 3
unfolding payload
bars-payload n i d b = omega (
  arith,
  bars-append n (b'|' ∷ (i ++ b'|' ∷ (d ++ b'|' ∷ b))),
  bars-append i (b'|' ∷ (d ++ b'|' ∷ b)),
  bars-append d (b'|' ∷ b),
)

bars-bind : (method path : Text) → bars path ≤ bars (pow_bind method path)
unfolding pow_bind
bars-bind method path = omega (arith, bars-append (upper method) (b':' ∷ path))

pub is_nil_append : (s t : Text) (c : ℕ) → is_nil (s ++ c ∷ t) ≡ false
is_nil_append [] t c = refl
is_nil_append (x ∷ s) t c = refl

module _ (crypto : Crypto) (cfg : Config) (nonce method path : Text) (made risk_score : ℕ) where
  abbrev pub token : Text
  token = make_pow_challenge crypto cfg nonce made method path risk_score

  issued : Text
  issued = str (made / 1000)

  diff : Text
  diff = str (challenge_difficulty cfg risk_score)

  bind : Text
  bind = pow_bind method path

  abbrev signed_payload : Text
  signed_payload = payload nonce issued diff bind

  make-payload : token ≡ signed_payload ++ b'|' ∷ crypto.hmac signed_payload
  unfolding make_pow_challenge issued diff bind
  make-payload = refl

  module _ (now : ℕ) (solution : Text) (seen : Dict Text ℕ) where
    -- the used tokens and the verdict after an acceptance
    abbrev pub accepted : Dict Text ℕ × Verdict
    accepted = (
      put token (now + 1000 * cfg.valid_secs) (kept crypto cfg now token solution method path seen),
      ok,
    )

    make_work :
        now / 1000 ≤ made / 1000 + cfg.valid_secs
        → 4000 * (made / 1000) + floor_4 cfg ≤ 4 * now
        → starts_with_zeros
            (challenge_difficulty cfg risk_score)
            (crypto.sha256 (nonce ++ solution))
          ≡ true
        → get token (kept crypto cfg now token solution method path seen) ≡ none
        → check_work crypto cfg now token solution nonce diff (natural (made / 1000)) seen
          ≡ accepted
    unfolding check_work diff
    make_work early late solved unused =
        ground (arith, int-str (challenge_difficulty cfg risk_score), solved, unused)

    make_parts :
        ((m : Text) → IsHex (crypto.hmac m))
        → IsAscii method
        → IsAscii path
        → check_work crypto cfg now token solution nonce diff (natural (made / 1000)) seen
          ≡ accepted
        → check_parts crypto cfg now token solution method path nonce issued diff bind
            (crypto.hmac signed_payload)
            seen
          ≡ accepted
    unfolding check_parts issued bind
    make_parts hex am ap' work = ground (
      arith,
      compare_digest_self (crypto.hmac signed_payload) (IsHex-IsAscii _ (hex signed_payload)),
      compare_digest_self (pow_bind method path) (bind-IsAscii method path am ap'),
      int-str (made / 1000),
      work,
    )

    make-split :
        ((m : Text) → IsHex (crypto.hmac m))
        → IsHex nonce
        → NoBar method
        → NoBar path
        → split token ≡ nonce ∷ issued ∷ diff ∷ bind ∷ crypto.hmac signed_payload ∷ []
    unfolding issued diff bind
    make-split hex hn nm np =
        ap split make-payload
        ∙ split_five nonce issued diff bind (crypto.hmac signed_payload) (IsHex-NoBar nonce hn)
            (AllDigits-NoBar _ (str-AllDigits (made / 1000)))
            (AllDigits-NoBar _ (str-AllDigits (challenge_difficulty cfg risk_score)))
            (bind-NoBar method path nm np) (IsHex-NoBar _ (hex signed_payload))

    -- A challenge made at one time is accepted at another with a solution that meets its
    -- difficulty, if the time is within the validity and past the floor on solving, the token was
    -- not used, its nonce is hexadecimal, and the method and the path are ASCII and hold no bar.
    -- The token is then remembered. (A digest is hexadecimal.)
    pub verify-make :
        ((m : Text) → IsHex (crypto.hmac m))
        → IsHex nonce
        → NoBar method
        → IsAscii method
        → NoBar path
        → IsAscii path
        → is_nil solution ≡ false
        → now / 1000 ≤ made / 1000 + cfg.valid_secs
        → 4000 * (made / 1000) + floor_4 cfg ≤ 4 * now
        → starts_with_zeros
            (challenge_difficulty cfg risk_score)
            (crypto.sha256 (nonce ++ solution))
          ≡ true
        → get token (kept crypto cfg now token solution method path seen) ≡ none
        → verify_pow crypto cfg now token solution method path seen ≡ accepted
    unfolding verify_pow
    verify-make hex hn nm am np ap' some_solution early late solved unused =
        let parts = make-split hex hn nm np in
        let work = make_parts hex am ap' (make_work early late solved unused) in
        let filled =
          ap is_nil make-payload ∙ is_nil_append signed_payload (crypto.hmac signed_payload) b'|' in
        ground (arith, parts, work, filled, some_solution)

    by_parts_long :
        (parts : List Text)
        → 6 ≤ length parts
        → by_parts crypto cfg now token solution method path parts seen ≡ (seen, reject malformed)
    unfolding by_parts
    by_parts_long [] h = absurd (omega arith)
    by_parts_long (_ ∷ []) h = absurd (omega arith)
    by_parts_long (_ ∷ _ ∷ []) h = absurd (omega arith)
    by_parts_long (_ ∷ _ ∷ _ ∷ []) h = absurd (omega arith)
    by_parts_long (_ ∷ _ ∷ _ ∷ _ ∷ []) h = absurd (omega arith)
    by_parts_long (_ ∷ _ ∷ _ ∷ _ ∷ _ ∷ []) h = absurd (omega arith)
    by_parts_long (_ ∷ _ ∷ _ ∷ _ ∷ _ ∷ _ ∷ _) h = refl

    bars-token : 0 < bars path → 5 ≤ bars token
    unfolding bind
    bars-token h = omega (
      arith,
      ap bars make-payload,
      bars-append signed_payload (b'|' ∷ crypto.hmac signed_payload),
      bars-payload nonce issued diff bind,
      bars-bind method path,
    )

    -- A challenge for a path that holds a bar is never accepted: whatever the solution and the
    -- time, it is rejected as malformed.
    verify-make_bar :
        0 < bars path
        → is_nil solution ≡ false
        → verify_pow crypto cfg now token solution method path seen ≡ (seen, reject malformed)
    unfolding verify_pow
    verify-make_bar h some_solution =
        let filled =
          ap is_nil make-payload ∙ is_nil_append signed_payload (crypto.hmac signed_payload) b'|' in
        ground (
          arith,
          filled,
          some_solution,
          by_parts_long (split token) (omega (arith, length-split token, bars-token h)),
        )
