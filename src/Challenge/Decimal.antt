-- ===== src/Challenge/Decimal.antt =====
-- Python's `str(n)` of a number that is not negative and `int(s)` of a text of ASCII characters,
-- over code points. `int` strips white space, takes a sign, and allows single underscores between
-- digits; a text that is no number raises `ValueError`, which is `none`.
use anti_bot_gw.Common.{
  ℕ, zero, suc, ◌+◌, ◌*◌, ◌-◌, ◌/◌, ◌%◌, ◌≤◌, ◌<◌, Bool, true, false, ltb, leb, ◌=ℕ=◌,
  if◌then◌else◌, ◌≡◌, refl, arith, ◌&&◌, ◌||◌, Option, none, some, List, [], ◌∷◌, ◌++◌, ◌∙◌, ap,
  Bool-cases, ltb→lt, inl, inr,
}

-- a text, as its code points
abbrev pub Text : Type 0
Text = List ℕ

-- an integer: its sign and its magnitude
pub record Integer : Type 0 where
  pub negative : Bool
  pub magnitude : ℕ

-- the decimal digits of `n`; each round leaves a tenth, so `n + 1` rounds are enough
digits : ℕ → ℕ → Text
digits zero n = []
digits (suc fuel) n =
    let rest = digits fuel (n / 10) in
    if ltb n 10 then (b'0' + n) ∷ [] else rest ++ (b'0' + n % 10) ∷ []

unfoldable pub str : ℕ → Text
unfolding digits
str n = digits (suc n) n

is_digit : ℕ → Bool
is_digit c = leb b'0' c && leb c b'9'

unfoldable pub is_space : ℕ → Bool
is_space c = c =ℕ= 32 || leb 9 c && leb c 13

unfoldable pub lstrip : Text → Text
lstrip [] = []
lstrip (c ∷ s) = let rest = lstrip s in if is_space c then rest else c ∷ s

unfoldable pub rstrip : Text → Text
rstrip [] = []
rstrip (c ∷ s) = elim (rstrip s) [ [] ↦ if is_space c then [] else c ∷ [] | d ∷ t ↦ c ∷ d ∷ t ]

-- `after` says that a digit stands before: an underscore and the end need one
scan : Bool → ℕ → Text → Option ℕ
scan after n [] = if after then some n else none
scan after n (c ∷ s) =
    let digit = scan true (n * 10 + (c - b'0')) s in
    let bar = scan false n s in
    if is_digit c then digit else if c =ℕ= b'_' && after then bar else none

signed : Text → Option Integer
signed [] = none
signed (c ∷ s) = elim (c =ℕ= b'-') [
  | true ↦ elim (scan false 0 s) [
    | none ↦ none
    | some n ↦ some (record { negative = true; magnitude = n })
  ]
  | false ↦ elim (scan false 0 (if c =ℕ= b'+' then s else c ∷ s)) [
    | none ↦ none
    | some n ↦ some (record { negative = false; magnitude = n })
  ]
]

unfoldable pub int : Text → Option Integer
unfolding is_digit is_space lstrip rstrip scan signed
int s = signed (lstrip (rstrip s))

abbrev pub natural : ℕ → Integer
natural n = record { negative = false; magnitude = n }

scan-append :
    (after : Bool) (n v d : ℕ) (s : Text)
    → scan after n s ≡ some v
    → is_digit d ≡ true
    → scan after n (s ++ d ∷ []) ≡ some (v * 10 + (d - b'0'))
unfolding scan
scan-append after n v d [] h g = ground arith
scan-append after n v d (c ∷ s) h g =
    ground (arith, scan-append true (n * 10 + (c - b'0')) v d s, scan-append false n v d s)

digit_is : (n : ℕ) → n < 10 → is_digit (b'0' + n) ≡ true
unfolding is_digit
digit_is n h = ground arith

scan_one : (n : ℕ) → n < 10 → scan false 0 ((b'0' + n) ∷ []) ≡ some n
unfolding scan
scan_one n h = ground (arith, digit_is n h)

scan-digits : (fuel n : ℕ) → n < fuel → scan false 0 (digits fuel n) ≡ some n
unfolding digits
scan-digits zero n h = elim h [ ]
scan-digits (suc fuel) n h = elim (Bool-cases (ltb n 10)) [
  | inl one ↦ rw (one) (scan_one n (ltb→lt _ _ one))
  | inr more ↦ rw (more) (
      scan-append false 0 (n / 10) (b'0' + n % 10) (digits fuel (n / 10))
        (scan-digits fuel (n / 10) (ground arith)) (digit_is (n % 10) (omega arith))
      ∙ (ap some (omega arith)))
]

-- The code points are digits.
abbrev pub AllDigits : Text → Type 0
AllDigits [] = Unit
AllDigits (c ∷ s) = (b'0' ≤ c) × (c ≤ b'9') × AllDigits s

AllDigits-append : (s t : Text) → AllDigits s → AllDigits t → AllDigits (s ++ t)
AllDigits-append [] t a b = b
AllDigits-append (c ∷ s) t a b = (a.0, a.1, AllDigits-append s t a.2 b)

digits-AllDigits : (fuel n : ℕ) → AllDigits (digits fuel n)
unfolding digits
digits-AllDigits zero n = tt
digits-AllDigits (suc fuel) n = elim (Bool-cases (ltb n 10)) [
  | inl one ↦ rw one (let h = ltb→lt _ _ one in (omega arith, omega arith, tt))
  | inr more ↦ rw more (
      AllDigits-append (digits fuel (n / 10)) _ (digits-AllDigits fuel (n / 10))
        (omega arith, omega arith, tt))
]

pub str-AllDigits : (n : ℕ) → AllDigits (str n)
unfolding str
str-AllDigits n = digits-AllDigits (suc n) n

lstrip_digits : (s : Text) → AllDigits s → lstrip s ≡ s
unfolding lstrip is_space
lstrip_digits [] a = refl
lstrip_digits (c ∷ s) a = ground arith

rstrip_digits : (s : Text) → AllDigits s → rstrip s ≡ s
unfolding rstrip is_space
rstrip_digits [] a = refl
rstrip_digits (c ∷ []) a = ground arith
rstrip_digits (c ∷ d ∷ s) a = rw (rstrip_digits (d ∷ s) a.2)

signed_digits :
    (s : Text) (n : ℕ) → AllDigits s → scan false 0 s ≡ some n → signed s ≡ some (natural n)
unfolding signed scan
signed_digits [] n a h = cc
signed_digits (c ∷ s) n a h = ground (arith, h)

-- Printing a number and reading it gives the number.
pub int-str : (n : ℕ) → int (str n) ≡ some (natural n)
unfolding int str
int-str n =
    let s = digits (suc n) n in
    let a = digits-AllDigits (suc n) n in
    ap signed (ap lstrip (rstrip_digits s a) ∙ lstrip_digits s a)
    ∙ signed_digits s n a (scan-digits (suc n) n (omega arith))
