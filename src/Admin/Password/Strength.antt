-- ===== src/Admin/Password/Strength.antt =====
-- What a password that is accepted has.
use anti_bot_gw.Common.{
  length-append, ◌≤◌, ◌<◌, true, false, ◌||◌, not, none, some, List, [], ◌∷◌, length, any, nat_eq,
  list_eq, list_beq_iff, ◌≡◌, ◌≢◌, ◌↔◌, arith, Bool-cases, inl, inr, All,
}
use anti_bot_gw.Common.Dict.{mem}
use anti_bot_gw.Challenge.Decimal.{Text}
use anti_bot_gw.Admin.Strip.{lower, lower_char}
use anti_bot_gw.Admin.Token.{is_upper, is_lower, is_digit}
use anti_bot_gw.Admin.Password.{validate_password_strength, breached_passwords}
use anti_bot_gw.Admin.Password.Weakness.{too_common}

length-lower : (p : Text) → length p ≤ length (lower p)
unfolding lower lower_char
length-lower [] = omega arith
length-lower (c ∷ p) = ground (arith, length-lower p, length-append (lower_char c) (lower p))

breached_short : All (λ w. length w < 12) breached_passwords
breached_short = ground arith

mem_short :
    (w : Text) (ws : List Text) → All (λ x. length x < 12) ws → mem w ws ≡ true → length w < 12
unfolding mem
mem_short w [] a h = absurd (ground (arith, h))
mem_short w (v ∷ ws) a h = ground (arith, list_beq_iff v w, mem_short w ws a.1, a.0, h)

long_not_breached : (p : Text) → 12 ≤ length p → mem (lower p) breached_passwords ≡ false
long_not_breached p h = elim (Bool-cases (mem (lower p) breached_passwords)) [
  | inl in_list ↦ absurd (
      omega
        (arith, h, length-lower p, mem_short (lower p) breached_passwords breached_short in_list))
  | inr out ↦ out
]

-- A password is accepted exactly where it has twelve characters or more, with a capital letter, a
-- small letter, a digit and another character among them; the list of breached passwords refuses
-- none, since each of them is shorter than that.
pub validate_password_strength_iff :
    (p : Text)
    → ((validate_password_strength p ≡ none) ↔ (
        (12 ≤ length p)
        × (any is_upper p ≡ true)
        × (any is_lower p ≡ true)
        × (any is_digit p ≡ true)
        × (any (λ c. not (is_upper c || is_lower c || is_digit c)) p ≡ true)))
      × (validate_password_strength p ≢ some too_common)
unfolding validate_password_strength
validate_password_strength_iff p =
    let fine = long_not_breached p in
    ((λ h. ground (arith, h, fine), λ h. ground (arith, h, fine)), λ h. ground (arith, h, fine))
