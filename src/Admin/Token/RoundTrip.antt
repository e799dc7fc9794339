-- ===== src/Admin/Token/RoundTrip.antt =====
-- A token that the gateway signed is read back, and no other is.
use anti_bot_gw.Common.{
  ℕ, ◌+◌, ◌/◌, ◌≤◌, Bool, true, false, ltb, ◌=ℕ=◌, if◌then◌else◌, none, some, List, [], ◌∷◌, ◌++◌,
  length, any, nat_eq, list_eq, ◌≡◌, refl, arith, sym, ap, ◌∙◌, Option-cases, inl, inr,
  list_beq_iff, beq_refl,
}
use mathlib.Core.List.{append_assoc}
use anti_bot_gw.Base64.{urlsafe_b64encode, rstrip_pad, decode_padded}
use anti_bot_gw.Base64.RoundTrip.{IsBytes, decode-encode, encode_no_bar}
use anti_bot_gw.Challenge.Decimal.{Text, Integer, str, int, int-str, str-AllDigits}
use anti_bot_gw.Challenge.Pow.{split}
use anti_bot_gw.Challenge.Pow.Split.{
  bars, NoBar, join, join-split, split-append, split-NoBar, length-split,
}
use anti_bot_gw.Challenge.Pow.RoundTrip.{AllDigits-NoBar, is_nil_append}
use anti_bot_gw.Admin.Token.{
  Crypto, chomp, every, name_char, sid_char, name_shape, sid_shape, username_re, sid_re, payload,
  session_sign, Parsed, check_sig, check_parts, check_fields, session_parse,
}

any-NoBar : (s : Text) → any (λ c. c =ℕ= b'|') s ≡ false → NoBar s
unfolding any
any-NoBar [] h = tt
any-NoBar (c ∷ s) h = (ground (arith, h), any-NoBar s (ground (arith, h)))

every-NoBar : (p : ℕ → Bool) → p b'|' ≡ false → (s : Text) → every p s ≡ true → NoBar s
unfolding every
every-NoBar p n [] h = tt
every-NoBar p n (c ∷ s) h =
    (λ e. ground (arith, n, h, e, ap p e), every-NoBar p n s (ground (arith, h)))

NoBar-chomp : (s : Text) → NoBar (chomp s) → NoBar s
unfolding chomp
NoBar-chomp [] h = tt
NoBar-chomp (c ∷ []) h = ground (arith, h)
NoBar-chomp (c ∷ d ∷ s) h = (h.0, NoBar-chomp (d ∷ s) h.1)

name_shape-NoBar : (s : Text) → name_shape s ≡ true → NoBar s
unfolding name_shape
name_shape-NoBar [] h = tt
name_shape-NoBar (c ∷ s) h = (ground (arith, h), every-NoBar name_char refl s (ground (arith, h)))

sid_shape-NoBar : (s : Text) → sid_shape s ≡ true → NoBar s
unfolding sid_shape
sid_shape-NoBar s h = every-NoBar sid_char refl s (ground (arith, h))

pub username_re-NoBar : (u : Text) → username_re u ≡ true → NoBar u
unfolding username_re
username_re-NoBar u h = NoBar-chomp u (name_shape-NoBar (chomp u) h)

pub sid_re-NoBar : (s : Text) → sid_re s ≡ true → NoBar s
unfolding sid_re
sid_re-NoBar s h = NoBar-chomp s (sid_shape-NoBar (chomp s) h)

NoBar-bars : (s : Text) → NoBar s → bars s ≡ 0
NoBar-bars [] h = refl
NoBar-bars (c ∷ s) h = ground (arith, h.0, NoBar-bars s h.1)

pub split_four :
    (u s e g : Text)
    → NoBar u
    → NoBar s
    → NoBar e
    → NoBar g
    → split (payload u s e ++ b'|' ∷ g) ≡ u ∷ s ∷ e ∷ g ∷ []
split_four u s e g hu hs he hg =
    ap split (simp append_assoc)
    ∙ split-append u _ hu
    ∙ ap (λ x. u ∷ x) (split-append s _ hs)
    ∙ ap (λ x. u ∷ s ∷ x) (split-append e g he)
    ∙ ap (λ x. u ∷ s ∷ e ∷ x) (split-NoBar g hg)

-- a token of four parts is its fields
session_parse-fields :
    (crypto : Crypto) (now : ℕ) (u s e g : Text)
    → NoBar u
    → NoBar s
    → NoBar e
    → NoBar g
    → session_parse crypto now (payload u s e ++ b'|' ∷ g)
      ≡ check_fields crypto now (u ∷ s ∷ e ∷ g ∷ [])
unfolding session_parse
session_parse-fields crypto now u s e g hu hs he hg =
    let parts = split_four u s e g hu hs he hg in
    let three : bars (payload u s e ++ b'|' ∷ g) ≡ 3 =
      omega (arith, length-split (payload u s e ++ b'|' ∷ g), ap length parts) in
    rw (three, is_nil_append (payload u s e) g b'|', parts) refl

check_sig_own :
    (crypto : Crypto) (u s : Text) (e : ℕ)
    → ((m : Text) → IsBytes (crypto.hmac m))
    → check_sig crypto u s e (rstrip_pad (urlsafe_b64encode (crypto.hmac (payload u s (str e)))))
      ≡ some (record { username = u; sid = s; expiry = e })
unfolding check_sig
check_sig_own crypto u s e bytes =
    let m = crypto.hmac (payload u s (str e)) in
    rw (check_sig, decode-encode m (bytes (payload u s (str e))), beq_refl m) refl

-- the parts of a signed token
pub split-sign :
    (crypto : Crypto) (now : ℕ) (username sid : Text) (ttl : ℕ)
    → ((m : Text) → IsBytes (crypto.hmac m))
    → username_re username ≡ true
    → sid_re sid ≡ true
    → (e g : Text) × (split (session_sign crypto now username sid ttl)
        ≡ username ∷ sid ∷ e ∷ g ∷ [])
unfolding session_sign
split-sign crypto now username sid ttl bytes hu hs =
    let e = str (now / 1000 + ttl) in
    let sig = rstrip_pad (urlsafe_b64encode (crypto.hmac (payload username sid e))) in
    (
      e,
      sig,
      split_four username sid e sig (username_re-NoBar username hu) (sid_re-NoBar sid hs)
          (AllDigits-NoBar e (str-AllDigits (now / 1000 + ttl)))
          (any-NoBar sig (encode_no_bar _ (bytes (payload username sid e)))),
    )

-- A token that the gateway signed for a user's name and a session id of the right shapes is read
-- back as that user, that session and its expiry until the expiry has passed, and is refused after.
-- (An HMAC is a list of bytes.)
pub session_parse-sign :
    (crypto : Crypto) (now later : ℕ) (username sid : Text) (ttl : ℕ)
    → ((m : Text) → IsBytes (crypto.hmac m))
    → username_re username ≡ true
    → sid_re sid ≡ true
    → session_parse crypto later (session_sign crypto now username sid ttl) ≡ (
        if ltb (now / 1000 + ttl) (later / 1000)
        then none
        else some (record { username = username; sid = sid; expiry = now / 1000 + ttl }))
unfolding session_sign check_fields
session_parse-sign crypto now later username sid ttl bytes hu hs =
    let e = now / 1000 + ttl in
    let sig = rstrip_pad (urlsafe_b64encode (crypto.hmac (payload username sid (str e)))) in
    session_parse-fields crypto later username sid (str e) sig (username_re-NoBar username hu)
      (sid_re-NoBar sid hs) (AllDigits-NoBar (str e) (str-AllDigits e))
      (any-NoBar sig (encode_no_bar _ (bytes (payload username sid (str e)))))
    ∙ rw (check_fields, int-str e, check_parts, hu, hs, check_sig_own crypto username sid e bytes)
        refl

check_parts_sound :
    (crypto : Crypto) (now : ℕ) (u s : Text) (e : Integer) (sig : Text) (p : Parsed)
    → check_parts crypto now u s e sig ≡ some p
    → (p.username ≡ u)
      × (p.sid ≡ s)
      × (p.expiry ≡ e.magnitude)
      × (now / 1000 ≤ e.magnitude)
      × (username_re u ≡ true)
      × (sid_re s ≡ true)
      × (decode_padded sig ≡ some (crypto.hmac (payload u s (str e.magnitude))))
unfolding check_parts check_sig
check_parts_sound crypto now u s e sig p h = elim (Option-cases (decode_padded sig)) [
  | inl d ↦ absurd (ground (arith, h, d))
  | inr (got, d) ↦
      ground (arith, h, d, list_beq_iff (crypto.hmac (payload u s (str e.magnitude))) got)
]

fields_cases :
    (crypto : Crypto) (now : ℕ) (parts : List Text) (p : Parsed)
    → check_fields crypto now parts ≡ some p
    → (u s e sig : Text) × (n : Integer) × (parts ≡ u ∷ s ∷ e ∷ sig ∷ [])
      × (int e ≡ some n)
      × (check_parts crypto now u s n sig ≡ some p)
unfolding check_fields
fields_cases crypto now [] p h = absurd (ground (arith, h))
fields_cases crypto now (u ∷ []) p h = absurd (ground (arith, h))
fields_cases crypto now (u ∷ s ∷ []) p h = absurd (ground (arith, h))
fields_cases crypto now (u ∷ s ∷ e ∷ []) p h = absurd (ground (arith, h))
fields_cases crypto now (u ∷ s ∷ e ∷ sig ∷ x ∷ xs) p h = absurd (ground (arith, h))
fields_cases crypto now (u ∷ s ∷ e ∷ sig ∷ []) p h = elim (Option-cases (int e)) [
  | inl none_of ↦ absurd (ground (arith, h, none_of))
  | inr (n, some_of) ↦ (u, s, e, sig, n, refl, some_of, ground (arith, h, some_of))
]

parse-fields :
    (crypto : Crypto) (now : ℕ) (token : Text) (p : Parsed)
    → session_parse crypto now token ≡ some p
    → check_fields crypto now (split token) ≡ some p
unfolding session_parse
parse-fields crypto now token p h = ground (arith, h)

join_four :
    (token u s e sig : Text)
    → split token ≡ u ∷ s ∷ e ∷ sig ∷ []
    → token ≡ payload u s e ++ b'|' ∷ sig
join_four token u s e sig h = sym (join-split token) ∙ ap join h ∙ (simp append_assoc)

-- A token that is accepted carries the server's signature: it is the user, the session's id, a text
-- that reads as the expiry, and a text that decodes to the HMAC of the three; the expiry has not
-- passed, and the name and the id have their shapes.
pub session_parse_sound :
    (crypto : Crypto) (now : ℕ) (token : Text) (p : Parsed)
    → session_parse crypto now token ≡ some p
    → (expiry sig : Text) × (e : Integer) × (token ≡ payload p.username p.sid expiry ++ b'|' ∷ sig)
      × (int expiry ≡ some e)
      × (e.magnitude ≡ p.expiry)
      × (now / 1000 ≤ p.expiry)
      × (username_re p.username ≡ true)
      × (sid_re p.sid ≡ true)
      × (decode_padded sig ≡ some (crypto.hmac (payload p.username p.sid (str p.expiry))))
session_parse_sound crypto now token p h =
    let (u, s, e, sig, n, parts, reads, good) =
      fields_cases crypto now (split token) p (parse-fields crypto now token p h) in
    let (of_user, of_sid, of_expiry, fresh, name, id, signed) =
      check_parts_sound crypto now u s n sig p good in
    (
      e,
      sig,
      n,
      rw (of_user, of_sid) (join_four token u s e sig parts),
      reads,
      sym of_expiry,
      rw of_expiry fresh,
      rw of_user name,
      rw of_sid id,
      rw (of_user, of_sid, of_expiry) signed,
    )
