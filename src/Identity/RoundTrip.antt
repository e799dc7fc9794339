-- ===== src/Identity/RoundTrip.antt =====
-- Signed sessions are accepted, and nothing else is.
use anti_bot_gw.Common.{
  ℕ, zero, suc, ◌≤◌, true, false, leb, ◌≡◌, ◌≢◌, refl, sym, ap, ◌∙◌, arith, none, some, [], ◌∷◌,
  ◌++◌, length, take, any, nat_eq, list_eq, list_beq_iff, Option-cases, inl, inr,
}
use anti_bot_gw.Challenge.Decimal.{Text}
use anti_bot_gw.Challenge.Pow.{is_nil, compare_digest}
use anti_bot_gw.Challenge.Pow.RoundTrip.{IsHex}
use anti_bot_gw.Identity.{
  Crypto, session_payload, sign_session, rsplit, is_clean, check_session, verify_session,
}

-- No character of the text is a dot.
abbrev NoDot : Text → Type 0
NoDot [] = Unit
NoDot (c ∷ s) = (c ≢ b'.') × NoDot s

IsHex-NoDot : (s : Text) → IsHex s → NoDot s
IsHex-NoDot [] h = tt
IsHex-NoDot (c ∷ s) (inl h, hs) = (omega arith, IsHex-NoDot s hs)
IsHex-NoDot (c ∷ s) (inr h, hs) = (omega arith, IsHex-NoDot s hs)

IsHex-ascii : (s : Text) → IsHex s → any (λ c. leb 128 c) s ≡ false
unfolding any
IsHex-ascii [] h = refl
IsHex-ascii (c ∷ s) (inl h, hs) = ground (arith, h, IsHex-ascii s hs)
IsHex-ascii (c ∷ s) (inr h, hs) = ground (arith, h, IsHex-ascii s hs)

rsplit-NoDot : (s : Text) → NoDot s → rsplit s ≡ none
unfolding rsplit
rsplit-NoDot [] n = refl
rsplit-NoDot (c ∷ s) n = ground (arith, n.0, rsplit-NoDot s n.1)

rsplit-dot : (a b : Text) → NoDot b → rsplit (a ++ b'.' ∷ b) ≡ some (a, b)
unfolding rsplit
rsplit-dot [] b n = ground (arith, rsplit-NoDot b n)
rsplit-dot (c ∷ a) b n = ground (arith, rsplit-dot a b n)

rsplit-parts : (s a b : Text) → rsplit s ≡ some (a, b) → s ≡ a ++ b'.' ∷ b
unfolding rsplit
rsplit-parts [] a b h = cc
rsplit-parts (c ∷ s) a b h = elim (Option-cases (rsplit s)) [
  | inl e ↦ ground (arith, e, h)
  | inr ((x, y), e) ↦ ground (arith, e, h, rsplit-parts s x y e)
]

-- A session id that the gateway issues is accepted when it comes back with its signature: it is not
-- empty, of at most 64 clean characters. (A digest is 64 hexadecimal digits.)
pub verify-sign :
    (crypto : Crypto) (sid : Text)
    → ((m : Text) → IsHex (crypto.hmac m))
    → ((m : Text) → length (crypto.hmac m) ≡ 64)
    → is_nil sid ≡ false
    → length sid ≤ 64
    → is_clean crypto sid ≡ true
    → verify_session crypto (sign_session crypto sid) ≡ some (some sid)
unfolding verify_session sign_session compare_digest
verify-sign crypto sid hex len nonempty short clean =
    let m = crypto.hmac (session_payload sid) in
    ground (
      arith,
      nonempty,
      short,
      clean,
      len (session_payload sid),
      rsplit-dot sid m (IsHex-NoDot m (hex (session_payload sid))),
      IsHex-ascii m (hex (session_payload sid)),
      list_beq_iff m m,
    )

check_sound :
    (crypto : Crypto) (sid sig got : Text)
    → check_session crypto sid sig ≡ some (some got)
    → (got ≡ sid)
      × (sig ≡ crypto.hmac (session_payload sid))
      × (is_nil sid ≡ false)
      × (length sid ≤ 64)
      × (is_clean crypto sid ≡ true)
unfolding check_session compare_digest
check_sound crypto sid sig got h =
    ground (arith, h, list_beq_iff sig (crypto.hmac (session_payload sid)))

-- A session that is accepted was signed by the gateway: the token is the id with its signature, and
-- the id is not empty, of at most 64 clean characters.
pub verify_sound :
    (crypto : Crypto) (token sid : Text)
    → verify_session crypto token ≡ some (some sid)
    → (token ≡ sign_session crypto sid)
      × (is_nil sid ≡ false)
      × (length sid ≤ 64)
      × (is_clean crypto sid ≡ true)
unfolding verify_session sign_session
verify_sound crypto token sid h = elim (Option-cases (rsplit token)) [
  | inl e ↦ absurd (ground (arith, e, h))
  | inr ((a, b), e) ↦
      let (got, sig, n, l, c) = check_sound crypto a b sid (ground (arith, e, h)) in
      (
        rsplit-parts token a b e
            ∙ ap (λ (x : Text). a ++ b'.' ∷ x) sig
            ∙ ap (λ (x : Text). x ++ b'.' ∷ crypto.hmac (session_payload x)) (sym got),
        ground (arith, n, got),
        ground (arith, l, got),
        ground (arith, c, got),
      )
]

pub take-IsHex : (n : ℕ) (s : Text) → IsHex s → IsHex (take n s)
take-IsHex zero s h = tt
take-IsHex (suc n) [] h = tt
take-IsHex (suc n) (c ∷ s) (x, h) = (x, take-IsHex n s h)
