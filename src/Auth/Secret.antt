-- ===== src/Auth/Secret.antt =====
-- hashSecret and verifySecret of internal/auth/token.go, with encoding/hex; SHA-256 is a parameter.
use fbs_core.Base.{
  ℕ, ◌+◌, ◌-◌, ◌*◌, ◌/◌, ◌%◌, ◌<◌, ltb, leb, Bool, true, false, ◌&&◌, Bytes, [], ◌∷◌, Option, none,
  some, str_eq, str_eq_iff, if◌then◌else◌, All, ◌≡◌, ◌↔◌, refl, ap, arith,
}

unfoldable pub hex_digit : ℕ → ℕ
hex_digit n = if ltb n 10 then b'0' + n else b'a' + (n - 10)

unfoldable pub hex_encode : Bytes → Bytes
unfolding hex_digit
hex_encode [] = []
hex_encode (c ∷ s) = hex_digit (c / 16) ∷ hex_digit (c % 16) ∷ hex_encode s

unfoldable pub hex_value : ℕ → Option ℕ
hex_value c =
    if leb b'0' c && leb c b'9'
    then some (c - b'0')
    else if leb b'a' c && leb c b'f'
    then some (c - b'a' + 10)
    else if leb b'A' c && leb c b'F'
    then some (c - b'A' + 10)
    else none

abbrev pub pair : Option ℕ → Option ℕ → Option Bytes → Option Bytes
pair (some a) (some b) (some s) = some ((a * 16 + b) ∷ s)
pair _ _ _ = none

unfoldable pub hex_decode : Bytes → Option Bytes
unfolding hex_value
hex_decode [] = some []
hex_decode (c ∷ []) = none
hex_decode (c ∷ d ∷ s) = pair (hex_value c) (hex_value d) (hex_decode s)

module _ (sha256 : Bytes → Bytes) where
  unfoldable pub hash_secret : Bytes → Bytes
  unfolding hex_encode
  hash_secret secret = hex_encode (sha256 secret)

  abbrev pub same_sum : Bytes → Option Bytes → Bool
  same_sum sum none = false
  same_sum sum (some expected) = str_eq sum expected

  unfoldable pub verify_secret : Bytes → Bytes → Bool
  unfolding hex_decode
  verify_secret secret stored_hex = same_sum (sha256 secret) (hex_decode stored_hex)

abbrev pub IsByte : ℕ → Type 0
IsByte c = c < 256

digit_value : (n : ℕ) → n < 16 → hex_value (hex_digit n) ≡ some n
unfolding hex_value hex_digit
digit_value n h = ground arith

pub hex_decode-hex_encode : (s : Bytes) → All IsByte s → hex_decode (hex_encode s) ≡ some s
unfolding hex_decode hex_encode
hex_decode-hex_encode [] h = refl
hex_decode-hex_encode (c ∷ s) (small, h) =
    let high : hex_value (hex_digit (c / 16)) ≡ some (c / 16) =
      digit_value (c / 16) (omega arith) in
    let low : hex_value (hex_digit (c % 16)) ≡ some (c % 16) = digit_value (c % 16) (omega arith) in
    let whole : c / 16 * 16 + c % 16 ≡ c = omega arith in
    rw (high, low, hex_decode-hex_encode s h) (ap (λ (x : ℕ). some (x ∷ s)) whole)

-- A secret passes against the stored hash of another exactly when the two have the same sum.
pub verify_secret-hash_secret :
    (sha256 : Bytes → Bytes)
    → ((s : Bytes) → All IsByte (sha256 s))
    → (secret issued : Bytes)
    → (verify_secret sha256 secret (hash_secret sha256 issued) ≡ true)
      ↔ (sha256 secret ≡ sha256 issued)
unfolding verify_secret hash_secret
verify_secret-hash_secret sha256 bytes secret issued =
    rw (hex_decode-hex_encode (sha256 issued) (bytes issued))
      (str_eq_iff (sha256 secret) (sha256 issued))
