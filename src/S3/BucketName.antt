-- ===== src/S3/BucketName.antt =====
-- validateBucketName of internal/s3/bucket_create.go. Its errors are answered alike, so it is a test.
pub mod Plain
mod Tests
use fbs_core.Base.{
  ℕ, ◌+◌, ◌-◌, ◌*◌, ltb, leb, ◌==◌, Bool, true, false, not, ◌&&◌, ◌||◌, Bytes, List, [], ◌∷◌, codes,
  length, str_eq, contains, split, to_lower, if◌then◌else◌,
}

abbrev is_digit : ℕ → Bool
is_digit c = leb b'0' c && leb c b'9'

unfoldable pub is_bucket_label_char : ℕ → Bool
is_bucket_label_char c = (leb b'a' c && leb c b'z') || is_digit c

abbrev pub is_name_char : ℕ → Bool
is_name_char c = is_bucket_label_char c || c == b'-' || c == b'.'

unfoldable pub name_chars : Bytes → Bool
unfolding is_bucket_label_char
name_chars [] = true
name_chars (c ∷ s) = is_name_char c && name_chars s

-- A field of a dotted address: one to three digits, at most 255, without a leading zero.
unfoldable pub octet_value : ℕ → Bytes → ℕ
octet_value n [] = n
octet_value n (c ∷ s) = octet_value (n * 10 + (c - b'0')) s

unfoldable pub digits : Bytes → Bool
digits [] = true
digits (c ∷ s) = is_digit c && digits s

abbrev no_leading_zero : Bytes → Bool
no_leading_zero [] = false
no_leading_zero (c ∷ []) = true
no_leading_zero (c ∷ d ∷ s) = not (c == b'0')

unfoldable pub is_octet : Bytes → Bool
unfolding octet_value digits
is_octet s = no_leading_zero s && digits s && leb (length s) 3 && leb (octet_value 0 s) 255

abbrev four_octets : List Bytes → Bool
four_octets (a ∷ b ∷ c ∷ d ∷ []) = is_octet a && is_octet b && is_octet c && is_octet d
four_octets _ = false

-- `net.ParseIP(name) != nil` for an address with dots; one with colons is refused by its characters.
unfoldable pub is_ip : Bytes → Bool
unfolding is_octet
is_ip name = four_octets (split b'.' name)

abbrev first_label : Bytes → Bool
first_label [] = false
first_label (c ∷ s) = is_bucket_label_char c

abbrev last_label : Bytes → Bool
last_label [] = false
last_label (c ∷ []) = is_bucket_label_char c
last_label (c ∷ d ∷ s) = last_label (d ∷ s)

unfoldable pub validate_bucket_name : Bytes → Bool
unfolding name_chars is_ip is_bucket_label_char
validate_bucket_name name =
    if ltb (length name) 3 || ltb 63 (length name)
    then false
    else if str_eq name (codes "public")
    then false
    else if not (str_eq (to_lower name) name)
    then false
    else if is_ip name
    then false
    else if not (name_chars name)
    then false
    else if not (first_label name) || not (last_label name)
    then false
    else if contains name (codes "..") || contains name (codes ".-") || contains name (codes "-.")
    then false
    else true
