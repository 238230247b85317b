-- ===== src/PublicRead.antt =====
-- internal/publicread/signer.go: signed paths of objects. HMAC-SHA-256 is a parameter. A time is a
-- number of nanoseconds since 1970, an expiry a number of seconds.
pub mod Verify
mod Tests
use fbs_core.Base.{
  ℕ, ◌+◌, ◌*◌, ◌/◌, ◌%◌, ltb, leb, ◌==◌, Bool, true, false, not, ◌&&◌, ◌||◌, ℤ, pos, negsuc, Bytes,
  List, [], ◌∷◌, ◌++◌, map, length, codes, Option, none, some, str_eq, split, join, trim_space,
  atoi, decimal, has_byte, if◌then◌else◌, Result, ok, err, ◌>>=◌,
}
use fbs_core.Auth.Secret.{hex_encode, hex_decode}
use fbs_core.Auth.SigV4.Uri.{should_escape, upper_digit}

pub data SignerError : Type 0 where
  signing_disabled secret_too_short malformed_signature expired_signature invalid_signature :
      SignerError

unfoldable pub new_signer : Bytes → Result SignerError Bytes
new_signer secret =
    if str_eq (trim_space secret) []
    then err signing_disabled
    else if ltb (length (trim_space secret)) 32
    then err secret_too_short
    else ok (trim_space secret)

abbrev pub escaped : ℕ → Bytes → Bytes
escaped c rest = b'%' ∷ upper_digit (c / 16) ∷ upper_digit (c % 16) ∷ rest

-- url.QueryEscape
unfoldable pub query_escape : Bytes → Bytes
query_escape [] = []
query_escape (c ∷ s) =
    let rest = query_escape s in
    if c == b' ' then b'+' ∷ rest else if should_escape c then escaped c rest else c ∷ rest

-- url.PathEscape
unfoldable pub path_escape : Bytes → Bytes
path_escape [] = []
path_escape (c ∷ s) =
    let rest = path_escape s in
    if should_escape c && not (has_byte c (codes "$&+=:@")) then escaped c rest else c ∷ rest

-- ObjectPath
unfoldable pub object_path : Bytes → Bytes → Bytes
object_path bucket_name key =
    codes "/public/"
    ++ (path_escape bucket_name ++ (b'/' ∷ join (codes "/") (map path_escape (split b'/' key))))

-- strconv.FormatInt
abbrev pub format_int : ℤ → Bytes
format_int (pos n) = decimal n
format_int (negsuc n) = b'-' ∷ decimal (n + 1)

unfoldable pub canonical_string : Bytes → ℤ → Bytes → Bytes
canonical_string path expires_unix disposition =
    let canonical = codes "GET\n" ++ (path ++ (10 ∷ format_int expires_unix)) in
    if str_eq disposition []
    then canonical
    else canonical ++ (10 ∷ (codes "response-content-disposition=" ++ query_escape disposition))

-- `s.now().Before(time.Unix(expires, 0))`. A time counts its seconds from the year 1 in an int64,
-- whose overflow makes it a time long past.
abbrev pub before : ℕ → ℤ → Bool
before now (pos e) = ltb (e + 62135596800) 9223372036854775808 && ltb now (e * 1000000000)
before now (negsuc e) = false

abbrev pub expiry : Option ℤ → Result SignerError ℤ
expiry none = err malformed_signature
expiry (some e) = ok e

abbrev pub signature_bytes : Option Bytes → Result SignerError Bytes
signature_bytes none = err malformed_signature
signature_bytes (some got) = if not (length got == 32) then err malformed_signature else ok got

abbrev pub same_mac : Bytes → Option Bytes → Result {0} SignerError Unit
same_mac got none = err invalid_signature
same_mac got (some want) = if not (str_eq got want) then err invalid_signature else ok tt

module _ (hmac_sha256 : Bytes → Bytes → Bytes) (secret : Bytes) where
  unfoldable pub sign_path : Bytes → ℤ → Bytes → Bytes
  sign_path path expires_at disposition =
      hex_encode (hmac_sha256 secret (canonical_string path expires_at disposition))

  abbrev pub compared : Bytes → ℤ → Bytes → Bytes → Result {0} SignerError Unit
  compared path e disposition signature_hex = do
    got ← signature_bytes (hex_decode (trim_space signature_hex))
    same_mac got (hex_decode (sign_path path e disposition))

  unfoldable pub verify : ℕ → Bytes → Bytes → Bytes → Bytes → Result {0} SignerError Unit
  verify now path expires_unix disposition signature_hex = do
    e ← expiry (atoi (trim_space expires_unix))
    if not (before now e) then err expired_signature else compared path e disposition signature_hex
