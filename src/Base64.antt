-- ===== src/Base64.antt =====
-- What admin/users.py and integrations/jwt.py use of Python's `base64`: the URL-safe alphabet, the
-- padding stripped and added again, and the decoder that skips what is not in the alphabet. Bytes and
-- characters are their numbers.
pub mod RoundTrip
use anti_bot_gw.Common.{
  ℕ, zero, suc, ◌+◌, ◌*◌, ◌-◌, ◌/◌, ◌%◌, Bool, true, false, ltb, leb, ◌=ℕ=◌, if◌then◌else◌, ◌&&◌,
  ◌||◌, Option, none, some, List, [], ◌∷◌, ◌++◌, length, replicate, any,
}

-- the character of a number below 64
unfoldable pub symbol : ℕ → ℕ
symbol n =
    if ltb n 26
    then b'A' + n
    else if ltb n 52
    then b'a' + (n - 26)
    else if ltb n 62
    then b'0' + (n - 52)
    else if n =ℕ= 62
    then b'-'
    else b'_'

-- the number of a character: both alphabets are read
unfoldable pub value : ℕ → Option ℕ
value c =
    if leb b'A' c && leb c b'Z'
    then some (c - b'A')
    else if leb b'a' c && leb c b'z'
    then some (c - b'a' + 26)
    else if leb b'0' c && leb c b'9'
    then some (c - b'0' + 52)
    else if c =ℕ= b'-' || c =ℕ= b'+'
    then some 62
    else if c =ℕ= b'_' || c =ℕ= b'/'
    then some 63
    else none

-- `base64.urlsafe_b64encode`
unfoldable pub urlsafe_b64encode : List ℕ → List ℕ
unfolding symbol
urlsafe_b64encode [] = []
urlsafe_b64encode (a ∷ []) = symbol (a / 4) ∷ symbol (a % 4 * 16) ∷ b'=' ∷ b'=' ∷ []
urlsafe_b64encode (a ∷ b ∷ []) =
    symbol (a / 4) ∷ symbol (a % 4 * 16 + b / 16) ∷ symbol (b % 16 * 4) ∷ b'=' ∷ []
urlsafe_b64encode (a ∷ b ∷ c ∷ rest) =
    symbol (a / 4)
    ∷ symbol (a % 4 * 16 + b / 16)
    ∷ symbol (b % 16 * 4 + c / 64)
    ∷ symbol (c % 64)
    ∷ urlsafe_b64encode rest

-- `.rstrip(b"=")`
unfoldable pub rstrip_pad : List ℕ → List ℕ
rstrip_pad [] = []
rstrip_pad (c ∷ s) = elim (rstrip_pad s) [
  | [] ↦ if c =ℕ= b'=' then [] else c ∷ []
  | d ∷ t ↦ c ∷ d ∷ t
]

abbrev pub prepend : ℕ → Option (List ℕ) → Option (List ℕ)
prepend b none = none
prepend b (some bytes) = some (b ∷ bytes)

-- the decoder's loop: the place in the group of four, the bits left over, the padding just read; an
-- incomplete group at the end raises `binascii.Error`
unfoldable pub decode_from : ℕ → ℕ → ℕ → List ℕ → Option (List ℕ)
unfolding value
decode_from quad left pads [] = if quad =ℕ= 0 then some [] else none
decode_from quad left pads (c ∷ s) = elim (c =ℕ= b'=') [
  | true ↦ elim (leb 2 quad) [
    | true ↦ elim (leb 4 (quad + suc pads)) [
      | true ↦ some []
      | false ↦ decode_from quad left (suc pads) s
    ]
    | false ↦ decode_from quad left pads s
  ]
  | false ↦ elim (value c) [
    | none ↦ decode_from quad left pads s
    | some v ↦ elim (quad =ℕ= 0) [
      | true ↦ decode_from 1 v 0 s
      | false ↦ elim (quad =ℕ= 1) [
        | true ↦ prepend (left * 4 + v / 16) (decode_from 2 (v % 16) 0 s)
        | false ↦ elim (quad =ℕ= 2) [
          | true ↦ prepend (left * 16 + v / 4) (decode_from 3 (v % 4) 0 s)
          | false ↦ prepend (left * 64 + v) (decode_from 0 0 0 s)
        ]
      ]
    ]
  ]
]

-- `-n % 4`
abbrev pub padding : ℕ → ℕ
padding n = (4 - n % 4) % 4

-- `base64.urlsafe_b64decode(s + "=" * (-len(s) % 4))`, `none` for a `ValueError`: a text that is not
-- ASCII raises it too
unfoldable pub decode_padded : List ℕ → Option (List ℕ)
unfolding decode_from
decode_padded s =
    if any (λ c. leb 128 c) s
    then none
    else decode_from 0 0 0 (s ++ replicate (padding (length s)) b'=')
