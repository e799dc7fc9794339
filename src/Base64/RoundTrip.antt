-- ===== src/Base64/RoundTrip.antt =====
-- Bytes come back from their text.
use anti_bot_gw.Common.{
  ℕ, ◌+◌, ◌*◌, ◌/◌, ◌%◌, ◌<◌, Bool, false, leb, ◌=ℕ=◌, some, List, [], ◌∷◌, ◌++◌, length, replicate,
  any, ◌≡◌, refl, arith, All,
}
use anti_bot_gw.Base64.{
  symbol, value, prepend, urlsafe_b64encode, rstrip_pad, decode_from, padding, decode_padded,
}

abbrev pub IsBytes : List ℕ → Type 0
IsBytes = All (λ b. b < 256)

value-symbol : (n : ℕ) → n < 64 → value (symbol n) ≡ some n
unfolding value symbol
value-symbol n h = ground arith

symbol_not_pad : (n : ℕ) → n < 64 → (symbol n =ℕ= b'=') ≡ false
unfolding symbol
symbol_not_pad n h = ground arith

symbol_text :
    (n : ℕ)
    → n < 64
    → (leb 128 (symbol n) ≡ false)
      × ((symbol n =ℕ= b'|') ≡ false)
      × ((symbol n =ℕ= b'$') ≡ false)
      × ((symbol n =ℕ= b'.') ≡ false)
unfolding symbol
symbol_text n h = ground arith

-- the text without its padding
core : List ℕ → List ℕ
core [] = []
core (a ∷ []) = symbol (a / 4) ∷ symbol (a % 4 * 16) ∷ []
core (a ∷ b ∷ []) = symbol (a / 4) ∷ symbol (a % 4 * 16 + b / 16) ∷ symbol (b % 16 * 4) ∷ []
core (a ∷ b ∷ c ∷ rest) =
    symbol (a / 4)
    ∷ symbol (a % 4 * 16 + b / 16)
    ∷ symbol (b % 16 * 4 + c / 64)
    ∷ symbol (c % 64)
    ∷ core rest

rstrip-cons : (c : ℕ) (s : List ℕ) → (c =ℕ= b'=') ≡ false → rstrip_pad (c ∷ s) ≡ c ∷ rstrip_pad s
unfolding rstrip_pad
rstrip-cons c s h = ground (arith, h)

rstrip-core : (l : List ℕ) → IsBytes l → rstrip_pad (urlsafe_b64encode l) ≡ core l
unfolding rstrip_pad urlsafe_b64encode core
rstrip-core [] h = refl
rstrip-core (a ∷ []) h = ground (arith, symbol_not_pad (a / 4), symbol_not_pad (a % 4 * 16), h.0)
rstrip-core (a ∷ b ∷ []) h = ground (
  arith,
  symbol_not_pad (a / 4),
  symbol_not_pad (a % 4 * 16 + b / 16),
  symbol_not_pad (b % 16 * 4),
)
rstrip-core (a ∷ b ∷ c ∷ rest) h = ground (
  arith,
  symbol_not_pad (a / 4),
  symbol_not_pad (a % 4 * 16 + b / 16),
  symbol_not_pad (b % 16 * 4 + c / 64),
  symbol_not_pad (c % 64),
  rstrip-core rest h.1.1.1,
)

module _ (v : ℕ) (s : List ℕ) (h : v < 64) where
  step_0 : decode_from 0 0 0 (symbol v ∷ s) ≡ decode_from 1 v 0 s
  unfolding decode_from
  step_0 = ground (arith, symbol_not_pad v h, value-symbol v h)

  step_1 :
      (l : ℕ)
      → decode_from 1 l 0 (symbol v ∷ s) ≡ prepend (l * 4 + v / 16) (decode_from 2 (v % 16) 0 s)
  unfolding decode_from
  step_1 l = ground (arith, symbol_not_pad v h, value-symbol v h)

  step_2 :
      (l : ℕ)
      → decode_from 2 l 0 (symbol v ∷ s) ≡ prepend (l * 16 + v / 4) (decode_from 3 (v % 4) 0 s)
  unfolding decode_from
  step_2 l = ground (arith, symbol_not_pad v h, value-symbol v h)

  step_3 : (l : ℕ) → decode_from 3 l 0 (symbol v ∷ s) ≡ prepend (l * 64 + v) (decode_from 0 0 0 s)
  unfolding decode_from
  step_3 l = ground (arith, symbol_not_pad v h, value-symbol v h)

ends_2 : (l : ℕ) → decode_from 2 l 0 (b'=' ∷ b'=' ∷ []) ≡ some []
unfolding decode_from
ends_2 l = refl

ends_3 : (l : ℕ) → decode_from 3 l 0 (b'=' ∷ []) ≡ some []
unfolding decode_from
ends_3 l = refl

-- the padding that the text of `l` needs
missing : List ℕ → List ℕ
unfolding core
missing l = replicate (padding (length (core l))) b'='

missing-cons : (a b c : ℕ) (rest : List ℕ) → missing (a ∷ b ∷ c ∷ rest) ≡ missing rest
unfolding missing
missing-cons a b c rest =
    let same : padding (length (core (a ∷ b ∷ c ∷ rest))) ≡ padding (length (core rest)) =
      omega arith in
    rw (missing, same) refl

-- the bytes of a group, from the numbers of its characters
first_byte : (a b : ℕ) → a < 256 → b < 256 → a / 4 * 4 + (a % 4 * 16 + b / 16) / 16 ≡ a
first_byte a b h k = omega arith

second_byte :
    (a b c : ℕ)
    → b < 256
    → c < 256
    → (a % 4 * 16 + b / 16) % 16 * 16 + (b % 16 * 4 + c / 64) / 4 ≡ b
second_byte a b c h k = omega arith

third_byte : (b c : ℕ) → c < 256 → (b % 16 * 4 + c / 64) % 4 * 64 + c % 64 ≡ c
third_byte b c h = omega arith

decode_group :
    (a b c : ℕ) (s : List ℕ)
    → a < 256
    → b < 256
    → c < 256
    → decode_from 0 0 0 (
        symbol (a / 4)
        ∷ symbol (a % 4 * 16 + b / 16)
        ∷ symbol (b % 16 * 4 + c / 64)
        ∷ symbol (c % 64)
        ∷ s)
      ≡ prepend a (prepend b (prepend c (decode_from 0 0 0 s)))
decode_group a b c s h k m =
    rw
      (
        step_0 (a / 4) _ (omega arith),
        step_1 (a % 4 * 16 + b / 16) _ (omega arith),
        step_2 (b % 16 * 4 + c / 64) _ (omega arith),
        step_3 (c % 64) s (omega arith),
        first_byte a b h k,
        second_byte a b c k m,
        third_byte b c m,
      )
      refl

decode_nil : decode_from 0 0 0 [] ≡ some []
unfolding decode_from
decode_nil = refl

missing_one : (a : ℕ) → missing (a ∷ []) ≡ b'=' ∷ b'=' ∷ []
unfolding missing core
missing_one a = refl

missing_two : (a b : ℕ) → missing (a ∷ b ∷ []) ≡ b'=' ∷ []
unfolding missing core
missing_two a b = refl

missing_nil : missing [] ≡ []
unfolding missing core
missing_nil = refl

decode-core : (l : List ℕ) → IsBytes l → decode_from 0 0 0 (core l ++ missing l) ≡ some l
unfolding core
decode-core [] h = rw missing_nil decode_nil
decode-core (a ∷ []) h =
    let e : a / 4 * 4 + (a % 4 * 16) / 16 ≡ a = omega (arith, h.0) in
    rw
      (
        missing_one a,
        step_0 (a / 4) _ (omega (arith, h.0)),
        step_1 (a % 4 * 16) _ (omega arith),
        ends_2 _,
        e,
      )
      refl
decode-core (a ∷ b ∷ []) h =
    let e : (a % 4 * 16 + b / 16) % 16 * 16 + (b % 16 * 4) / 4 ≡ b = omega (arith, h.1.0) in
    rw
      (
        missing_two a b,
        step_0 (a / 4) _ (omega (arith, h.0)),
        step_1 (a % 4 * 16 + b / 16) _ (omega (arith, h.1.0)),
        step_2 (b % 16 * 4) _ (omega arith),
        ends_3 _,
        first_byte a b h.0 h.1.0,
        e,
      )
      refl
decode-core (a ∷ b ∷ c ∷ rest) h =
    rw
      (
        missing-cons a b c rest,
        decode_group a b c (core rest ++ missing rest) h.0 h.1.0 h.1.1.0,
        decode-core rest h.1.1.1,
      )
      refl

-- What holds of no character of the alphabet holds of none of the text.
module _ (p : ℕ → Bool) (none_of : (n : ℕ) → n < 64 → p (symbol n) ≡ false) where
  any-core : (l : List ℕ) → IsBytes l → any p (core l) ≡ false
  unfolding core any
  any-core [] h = refl
  any-core (a ∷ []) h = ground (arith, h.0, none_of (a / 4), none_of (a % 4 * 16))
  any-core (a ∷ b ∷ []) h =
      ground (arith, none_of (a / 4), none_of (a % 4 * 16 + b / 16), none_of (b % 16 * 4))
  any-core (a ∷ b ∷ c ∷ rest) h = ground (
    arith,
    none_of (a / 4),
    none_of (a % 4 * 16 + b / 16),
    none_of (b % 16 * 4 + c / 64),
    none_of (c % 64),
    any-core rest h.1.1.1,
  )

-- Bytes that are encoded in the URL-safe alphabet, with the padding stripped, come back when the
-- padding is added again and the text is decoded.
pub decode-encode :
    (l : List ℕ) → IsBytes l → decode_padded (rstrip_pad (urlsafe_b64encode l)) ≡ some l
unfolding decode_padded core missing
decode-encode l h =
    rw (rstrip-core l h, any-core _ (λ n k. (symbol_text n k).0) l h) (decode-core l h)

-- What is no character of the alphabet does not occur in the text.
encode_without :
    (sep : ℕ)
    → ((n : ℕ) → n < 64 → (symbol n =ℕ= sep) ≡ false)
    → (l : List ℕ) → IsBytes l
    → any (λ c. c =ℕ= sep) (rstrip_pad (urlsafe_b64encode l)) ≡ false
encode_without sep none_of l h = rw (rstrip-core l h) (any-core _ none_of l h)

pub encode_no_bar :
    (l : List ℕ) → IsBytes l → any (λ c. c =ℕ= b'|') (rstrip_pad (urlsafe_b64encode l)) ≡ false
encode_no_bar = encode_without b'|' (λ n k. (symbol_text n k).1)

pub encode_no_dollar :
    (l : List ℕ) → IsBytes l → any (λ c. c =ℕ= b'$') (rstrip_pad (urlsafe_b64encode l)) ≡ false
encode_no_dollar = encode_without b'$' (λ n k. (symbol_text n k).2)

pub encode_no_dot :
    (l : List ℕ) → IsBytes l → any (λ c. c =ℕ= b'.') (rstrip_pad (urlsafe_b64encode l)) ≡ false
encode_no_dot = encode_without b'.' (λ n k. (symbol_text n k).3)
