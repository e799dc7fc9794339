-- ===== src/Admin/Password/RoundTrip.antt =====
-- A password is accepted against its own hash.
use anti_bot_gw.Common.{ℕ, some, List, [], ◌∷◌, nat_eq, list_eq, ◌≡◌, refl, arith, ap, ◌∙◌}
use anti_bot_gw.Base64.RoundTrip.{IsBytes, decode-encode, encode_no_dollar}
use anti_bot_gw.Challenge.Decimal.{Text, natural, str, int-str, AllDigits, str-AllDigits}
use anti_bot_gw.Admin.Split.{split_on, Without, split_on-append, split_on-Without, any-Without}
use anti_bot_gw.Admin.Password.{
  Kdf, algorithm, scrypt_n, scrypt_r, scrypt_p, b64, stored, password_hash, check_stored,
  compare_hash, password_verify,
}

AllDigits-Without : (s : Text) → AllDigits s → Without b'$' s
AllDigits-Without [] h = tt
AllDigits-Without (c ∷ s) h = (omega (arith, h.0), AllDigits-Without s h.2)

number_Without : (n : ℕ) → Without b'$' (str n)
number_Without n = AllDigits-Without (str n) (str-AllDigits n)

b64-Without : (l : List ℕ) → IsBytes l → Without b'$' (b64 l)
b64-Without l h = any-Without b'$' (b64 l) (encode_no_dollar l h)

split-stored :
    (salt h : List ℕ)
    → IsBytes salt
    → IsBytes h
    → split_on b'$' (stored salt h)
      ≡ algorithm ∷ str scrypt_n ∷ str scrypt_r ∷ str scrypt_p ∷ b64 salt ∷ b64 h ∷ []
split-stored salt h bs bh =
    split_on-append b'$' algorithm _ (ground arith)
    ∙ ap (λ x. algorithm ∷ x) (split_on-append b'$' (str scrypt_n) _ (number_Without scrypt_n))
    ∙ ap (λ x. algorithm ∷ str scrypt_n ∷ x)
        (split_on-append b'$' (str scrypt_r) _ (number_Without scrypt_r))
    ∙ ap (λ x. algorithm ∷ str scrypt_n ∷ str scrypt_r ∷ x)
        (split_on-append b'$' (str scrypt_p) _ (number_Without scrypt_p))
    ∙ ap (λ x. algorithm ∷ str scrypt_n ∷ str scrypt_r ∷ str scrypt_p ∷ x)
        (split_on-append b'$' (b64 salt) _ (b64-Without salt bs)
          ∙ ap (λ x. b64 salt ∷ x) (split_on-Without b'$' (b64 h) (b64-Without h bh)))

hash_is :
    (kdf : Kdf) (salt key : List ℕ) (pw saved : Text)
    → kdf.scrypt pw salt (natural scrypt_n) (natural scrypt_r) (natural scrypt_p) ≡ some key
    → password_hash kdf salt pw ≡ some saved
    → saved ≡ stored salt key
unfolding password_hash
hash_is kdf salt key pw saved derived e = ground (arith, derived, e)

-- The hash that a password is stored as, under any salt, accepts a password exactly where scrypt
-- gives the two the same key. (A salt and a key are bytes.)
pub password_verify-hash :
    (kdf : Kdf) (salt key : List ℕ) (pw other saved : Text)
    → IsBytes salt
    → IsBytes key
    → kdf.scrypt pw salt (natural scrypt_n) (natural scrypt_r) (natural scrypt_p) ≡ some key
    → password_hash kdf salt pw ≡ some saved
    → password_verify kdf other saved
      ≡ compare_hash
          (some key)
          (kdf.scrypt other salt (natural scrypt_n) (natural scrypt_r) (natural scrypt_p))
unfolding password_verify
password_verify-hash kdf salt key pw other saved bs bk derived e =
    ap (λ x. check_stored kdf other (split_on b'$' x)) (hash_is kdf salt key pw saved derived e)
    ∙ ap (check_stored kdf other) (split-stored salt key bs bk)
    ∙ rw
        (
          int-str scrypt_n,
          int-str scrypt_r,
          int-str scrypt_p,
          decode-encode salt bs,
          decode-encode key bk,
        )
        refl
