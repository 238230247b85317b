-- ===== src/Auth/SigV4/Uri.antt =====
-- uriEncode of internal/auth/sigv4.go.
use fbs_core.Base.{
  ℕ, ◌+◌, ◌-◌, ◌*◌, ◌/◌, ◌%◌, ◌<◌, ltb, leb, ◌==◌, Bool, false, not, ◌&&◌, ◌||◌, Bytes, [], ◌∷◌,
  length, Option, none, some, if◌then◌else◌, All, ◌≡◌, refl, ap, arith, Bool-cases, inl, inr,
}
use fbs_core.Auth.Secret.{hex_value, IsByte}

unfoldable pub should_escape : ℕ → Bool
should_escape c =
    if (leb b'A' c && leb c b'Z') || (leb b'a' c && leb c b'z') || (leb b'0' c && leb c b'9')
    then false
    else not (c == b'-' || c == b'_' || c == b'.' || c == b'~')

abbrev pub upper_digit : ℕ → ℕ
upper_digit n = if ltb n 10 then b'0' + n else b'A' + (n - 10)

-- The number of bytes to escape: spaceCount.
unfoldable pub escape_count : Bytes → ℕ
unfolding should_escape
escape_count [] = 0
escape_count (c ∷ s) = (if should_escape c then 1 else 0) + escape_count s

unfoldable pub encode_bytes : Bytes → Bytes
unfolding should_escape
encode_bytes [] = []
encode_bytes (c ∷ s) =
    let rest = encode_bytes s in
    if should_escape c then b'%' ∷ upper_digit (c / 16) ∷ upper_digit (c % 16) ∷ rest else c ∷ rest

unfoldable pub uri_encode : Bytes → Bytes
unfolding escape_count encode_bytes
uri_encode s = if escape_count s == 0 then s else encode_bytes s

-- What a percent-encoded text stands for, if it is well formed.
abbrev pub with_byte : ℕ → Option Bytes → Option Bytes
with_byte c none = none
with_byte c (some s) = some (c ∷ s)

abbrev escaped_byte : Option ℕ → Option ℕ → Option Bytes → Option Bytes
escaped_byte (some a) (some b) (some s) = some ((a * 16 + b) ∷ s)
escaped_byte _ _ _ = none

unfoldable pub unescape : Bytes → Option Bytes
unfolding hex_value
unescape [] = some []
unescape (c ∷ []) = if c == b'%' then none else some (c ∷ [])
unescape (c ∷ d ∷ []) = if c == b'%' then none else with_byte c (unescape (d ∷ []))
unescape (c ∷ d ∷ e ∷ s) =
    let coded = unescape s in
    let rest = unescape (d ∷ e ∷ s) in
    if c == b'%' then escaped_byte (hex_value d) (hex_value e) coded else with_byte c rest

encode_plain : (s : Bytes) → escape_count s ≡ 0 → encode_bytes s ≡ s
unfolding escape_count encode_bytes
encode_plain [] h = refl
encode_plain (c ∷ s) h = ground (arith, encode_plain s)

pub uri_encode-encode_bytes : (s : Bytes) → uri_encode s ≡ encode_bytes s
unfolding uri_encode
uri_encode-encode_bytes s = ground (arith, encode_plain s)

unescape_plain :
    (c : ℕ) (s : Bytes) → (c == b'%') ≡ false → unescape (c ∷ s) ≡ with_byte c (unescape s)
unfolding unescape
unescape_plain c [] h = rw h refl
unescape_plain c (d ∷ []) h = rw h refl
unescape_plain c (d ∷ e ∷ s) h = rw h refl

upper_value : (n : ℕ) → n < 16 → hex_value (upper_digit n) ≡ some n
unfolding hex_value
upper_value n h = ground arith

unescape_escaped :
    (c : ℕ) (s r : Bytes)
    → c < 256
    → unescape s ≡ some r
    → unescape (b'%' ∷ upper_digit (c / 16) ∷ upper_digit (c % 16) ∷ s) ≡ some (c ∷ r)
unfolding unescape
unescape_escaped c s r small h =
    let whole : c / 16 * 16 + c % 16 ≡ c = omega arith in
    rw (upper_value (c / 16) (omega arith), upper_value (c % 16) (omega arith), h)
      (ap (λ (x : ℕ). some (x ∷ r)) whole)

unescape-encode_bytes : (s : Bytes) → All IsByte s → unescape (encode_bytes s) ≡ some s
unfolding encode_bytes
unescape-encode_bytes [] h = unfold unescape in refl
unescape-encode_bytes (c ∷ s) (small, h) = elim (Bool-cases (should_escape c)) [
  | inl escaped ↦
      rw escaped (unescape_escaped c (encode_bytes s) s small (unescape-encode_bytes s h))
  | inr plain ↦
      let other : (c == b'%') ≡ false = unfold should_escape in ground (arith, plain) in
      rw (plain, unescape_plain c (encode_bytes s) other, unescape-encode_bytes s h) refl
]

length-encode_bytes : (s : Bytes) → length (encode_bytes s) ≡ length s + 2 * escape_count s
unfolding encode_bytes escape_count
length-encode_bytes [] = refl
length-encode_bytes (c ∷ s) = ground (arith, length-encode_bytes s)

-- For a list of bytes, the encoded text stands for those bytes, and each byte that is escaped makes
-- it longer by two.
pub unescape-uri_encode :
    (s : Bytes)
    → All IsByte s
    → (unescape (uri_encode s) ≡ some s) × (length (uri_encode s) ≡ length s + 2 * escape_count s)
unescape-uri_encode s h =
    rw (uri_encode-encode_bytes s) (unescape-encode_bytes s h, length-encode_bytes s)
