-- ===== src/Admin/Password.antt =====
-- admin/users.py: the strength of a password, its hash and the check of it. A text is its code
-- points. scrypt is a parameter, on the password, the salt and the three costs; `none` is the
-- `ValueError` of parameters that it refuses.
pub mod Strength
pub mod RoundTrip
use anti_bot_gw.Common.{
  ℕ, suc, ◌+◌, ◌≤◌, ◌<◌, Bool, true, false, ltb, leb, ◌=ℕ=◌, if◌then◌else◌, ◌&&◌, ◌||◌, not, Option,
  none, some, List, [], ◌∷◌, ◌++◌, length, any, map, ◌==◌, nat_eq, list_eq,
}
use anti_bot_gw.Common.Dict.{mem}
use anti_bot_gw.Base64.{urlsafe_b64encode, rstrip_pad, decode_padded}
use anti_bot_gw.Challenge.Decimal.{Text, Integer, natural, str, int}
use anti_bot_gw.Admin.Strip.{lower}
use anti_bot_gw.Admin.Split.{split_on}
use anti_bot_gw.Admin.Token.{is_upper, is_lower, is_digit}

-- the messages of `_validate_password_strength`
pub data Weakness : Type 0 where
  too_short no_uppercase no_lowercase no_digit no_special too_common : Weakness

-- `_BREACHED_PASSWORDS`
abbrev pub breached_passwords : List Text
breached_passwords =
    (b'p' ∷ b'a' ∷ b's' ∷ b's' ∷ b'w' ∷ b'o' ∷ b'r' ∷ b'd' ∷ [])
    ∷ (b'p' ∷ b'a' ∷ b's' ∷ b's' ∷ b'w' ∷ b'o' ∷ b'r' ∷ b'd' ∷ b'1' ∷ [])
    ∷ (b'a' ∷ b'd' ∷ b'm' ∷ b'i' ∷ b'n' ∷ [])
    ∷ (b'a' ∷ b'd' ∷ b'm' ∷ b'i' ∷ b'n' ∷ b'1' ∷ b'2' ∷ b'3' ∷ [])
    ∷ (b'1' ∷ b'2' ∷ b'3' ∷ b'4' ∷ b'5' ∷ b'6' ∷ [])
    ∷ (b'q' ∷ b'w' ∷ b'e' ∷ b'r' ∷ b't' ∷ b'y' ∷ [])
    ∷ (b'l' ∷ b'e' ∷ b't' ∷ b'm' ∷ b'e' ∷ b'i' ∷ b'n' ∷ [])
    ∷ (b'w' ∷ b'e' ∷ b'l' ∷ b'c' ∷ b'o' ∷ b'm' ∷ b'e' ∷ [])
    ∷ (b'm' ∷ b'o' ∷ b'n' ∷ b'k' ∷ b'e' ∷ b'y' ∷ [])
    ∷ (b'd' ∷ b'r' ∷ b'a' ∷ b'g' ∷ b'o' ∷ b'n' ∷ [])
    ∷ (b'i' ∷ b'l' ∷ b'o' ∷ b'v' ∷ b'e' ∷ b'y' ∷ b'o' ∷ b'u' ∷ [])
    ∷ (b's' ∷ b'u' ∷ b'n' ∷ b's' ∷ b'h' ∷ b'i' ∷ b'n' ∷ b'e' ∷ [])
    ∷ (b'p' ∷ b'r' ∷ b'i' ∷ b'n' ∷ b'c' ∷ b'e' ∷ b's' ∷ b's' ∷ [])
    ∷ (b'f' ∷ b'o' ∷ b'o' ∷ b't' ∷ b'b' ∷ b'a' ∷ b'l' ∷ b'l' ∷ [])
    ∷ (b's' ∷ b'h' ∷ b'a' ∷ b'd' ∷ b'o' ∷ b'w' ∷ [])
    ∷ (b'm' ∷ b'a' ∷ b's' ∷ b't' ∷ b'e' ∷ b'r' ∷ [])
    ∷ (b's' ∷ b'u' ∷ b'p' ∷ b'e' ∷ b'r' ∷ b'm' ∷ b'a' ∷ b'n' ∷ [])
    ∷ (b'b' ∷ b'a' ∷ b't' ∷ b'm' ∷ b'a' ∷ b'n' ∷ [])
    ∷ (b't' ∷ b'r' ∷ b'u' ∷ b's' ∷ b't' ∷ b'n' ∷ b'o' ∷ b'1' ∷ [])
    ∷ (b'p' ∷ b'a' ∷ b's' ∷ b's' ∷ b'1' ∷ b'2' ∷ b'3' ∷ [])
    ∷ []

-- `_validate_password_strength`: `none` where the password is strong enough
unfoldable pub validate_password_strength : Text → Option Weakness
validate_password_strength p =
    if ltb (length p) 12
    then some too_short
    else if not (any is_upper p)
    then some no_uppercase
    else if not (any is_lower p)
    then some no_lowercase
    else if not (any is_digit p)
    then some no_digit
    else if not (any (λ c. not (is_upper c || is_lower c || is_digit c)) p)
    then some no_special
    else if mem (lower p) breached_passwords
    then some too_common
    else none

-- the password, the salt, N, r and p
pub record Kdf : Type 0 where
  pub scrypt : Text → List ℕ → Integer → Integer → Integer → Option (List ℕ)

-- "scrypt"
abbrev pub algorithm : Text
algorithm = b's' ∷ b'c' ∷ b'r' ∷ b'y' ∷ b'p' ∷ b't' ∷ []

-- `_SCRYPT_N`, `_SCRYPT_R` and `_SCRYPT_P`
abbrev pub scrypt_n : ℕ
scrypt_n = 131_072

abbrev pub scrypt_r : ℕ
scrypt_r = 8

abbrev pub scrypt_p : ℕ
scrypt_p = 1

abbrev pub b64 : List ℕ → Text
b64 bytes = rstrip_pad (urlsafe_b64encode bytes)

-- `f"scrypt${n}${r}${p}${salt}${hash}"`
abbrev pub stored : List ℕ → List ℕ → Text
stored salt h =
    algorithm
    ++ b'$'
      ∷ (str scrypt_n
          ++ b'$' ∷ (str scrypt_r ++ b'$' ∷ (str scrypt_p ++ b'$' ∷ (b64 salt ++ b'$' ∷ b64 h))))

-- `_password_hash`; the salt is 16 random bytes
unfoldable pub password_hash : Kdf → List ℕ → Text → Option Text
password_hash kdf salt pw =
    elim (kdf.scrypt pw salt (natural scrypt_n) (natural scrypt_r) (natural scrypt_p)) [
      | none ↦ none
      | some h ↦ some (stored salt h)
    ]

-- the two decoded texts and the hash; a `ValueError` at any of them is `false`
abbrev pub compare_hash : Option (List ℕ) → Option (List ℕ) → Bool
compare_hash (some want) (some got) = want == got
compare_hash _ _ = false

abbrev pub check_salt :
    Kdf → Text → Integer → Integer → Integer → Option (List ℕ) → Option (List ℕ) → Bool
check_salt kdf pw n r p (some salt) want = compare_hash want (kdf.scrypt pw salt n r p)
check_salt kdf pw n r p none want = false

abbrev pub check_costs :
    Kdf → Text → Option Integer → Option Integer → Option Integer → Text → Text → Bool
check_costs kdf pw (some n) (some r) (some p) salt hash =
    check_salt kdf pw n r p (decode_padded salt) (decode_padded hash)
check_costs kdf pw _ _ _ salt hash = false

abbrev pub check_stored : Kdf → Text → List Text → Bool
check_stored kdf pw (algo ∷ n ∷ r ∷ p ∷ salt ∷ hash ∷ []) =
    if algo == algorithm then check_costs kdf pw (int n) (int r) (int p) salt hash else false
check_stored kdf pw _ = false

-- `_password_verify`
unfoldable pub password_verify : Kdf → Text → Text → Bool
unfolding split_on
password_verify kdf pw saved = check_stored kdf pw (split_on b'$' saved)
