-- ===== src/Admin/Strip.antt =====
-- Python's `s.strip()` and `s.lower()` on a text of any code points. Of `lower` the model has the
-- characters whose lower case has an ASCII character in it: A to Z, U+0130 and U+212A. What the
-- callers do next treats all other characters beyond ASCII alike.
use anti_bot_gw.Common.{ℕ, ◌+◌, Bool, leb, ◌=ℕ=◌, if◌then◌else◌, ◌&&◌, ◌||◌, [], ◌∷◌, ◌++◌}
use anti_bot_gw.Challenge.Decimal.{Text}

-- `c.isspace()`
unfoldable pub is_white : ℕ → Bool
is_white c =
    (leb 9 c && leb c 13)
    || (leb 28 c && leb c 32)
    || c =ℕ= 133
    || c =ℕ= 160
    || c =ℕ= 5_760
    || (leb 8_192 c && leb c 8_202)
    || c =ℕ= 8_232
    || c =ℕ= 8_233
    || c =ℕ= 8_239
    || c =ℕ= 8_287
    || c =ℕ= 12_288

unfoldable pub strip_left : Text → Text
unfolding is_white
strip_left [] = []
strip_left (c ∷ s) = let rest = strip_left s in if is_white c then rest else c ∷ s

unfoldable pub strip_right : Text → Text
unfolding is_white
strip_right [] = []
strip_right (c ∷ s) = elim (strip_right s) [
  | [] ↦ if is_white c then [] else c ∷ []
  | d ∷ t ↦ c ∷ d ∷ t
]

unfoldable pub strip : Text → Text
unfolding strip_left strip_right
strip s = strip_left (strip_right s)

-- U+0130 becomes an i with a dot above, and U+212A a k.
unfoldable pub lower_char : ℕ → Text
lower_char c =
    if leb b'A' c && leb c b'Z'
    then (c + 32) ∷ []
    else if c =ℕ= 304
    then b'i' ∷ 775 ∷ []
    else if c =ℕ= 8_490
    then b'k' ∷ []
    else c ∷ []

unfoldable pub lower : Text → Text
unfolding lower_char
lower [] = []
lower (c ∷ s) = lower_char c ++ lower s
