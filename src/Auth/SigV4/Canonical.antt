-- ===== src/Auth/SigV4/Canonical.antt =====
-- The canonical request of internal/auth/sigv4.go, the string to sign, and the signature. SHA-256 and
-- its HMAC are parameters.
use fbs_core.Base.{
  ℕ, zero, suc, ◌==◌, Bool, false, ◌||◌, not, Bytes, List, [], ◌∷◌, ◌++◌, map, length, codes, split,
  join, cut, trim_space, sort, str_eq, Option, none, some, if◌then◌else◌, select,
}
use fbs_core.Storage.Utf8.{Expect, start, next, refused, step, first_byte}
use fbs_core.Auth.Secret.{hex_encode}
use fbs_core.Auth.SigV4.Uri.{uri_encode}
use fbs_core.Auth.SigV4.Request.{Values, Request, header_get, find_values}

abbrev pub newline : Bytes
newline = 10 ∷ []

-- A rune that the text starts with, and what is left. A byte that starts no rune is taken alone and
-- stands for U+FFFD.
abbrev replacement : Bytes
replacement = 0xEF ∷ 0xBF ∷ 0xBD ∷ []

abbrev longer : ℕ → Option (Bytes × Bytes) → Option (Bytes × Bytes)
longer c none = none
longer c (some (rune, rest)) = some (c ∷ rune, rest)

rune_from : Expect → Bytes → Option (Bytes × Bytes)
unfolding step
rune_from start s = some ([], s)
rune_from (next low high more) [] = none
rune_from (next low high more) (c ∷ s) = longer c (rune_from (step (next low high more) c) s)
rune_from refused s = none

rune_or_replacement : Bytes → Option (Bytes × Bytes) → Bytes × Bytes
rune_or_replacement rest none = (replacement, rest)
rune_or_replacement rest (some found) = found

next_rune : ℕ → Bytes → Bytes × Bytes
unfolding rune_from rune_or_replacement first_byte
next_rune c s = rune_or_replacement s (longer c (rune_from (first_byte c) s))

-- Each round takes a rune, so the length is enough fuel.
runes_from : ℕ → Bytes → List Bytes
unfolding next_rune
runes_from zero s = []
runes_from (suc f) [] = []
runes_from (suc f) (c ∷ s) = let rune = next_rune c s in rune.0 ∷ runes_from f rune.1

abbrev is_space_rune : Bytes → Bool
is_space_rune (c ∷ []) = c == 32 || c == 9 || c == 10 || c == 13
is_space_rune _ = false

collapse_runes : Bool → List Bytes → Bytes
collapse_runes in_space [] = []
collapse_runes in_space (rune ∷ rest) =
    let after = collapse_runes (is_space_rune rune) rest in
    if is_space_rune rune then (if in_space then after else 32 ∷ after) else rune ++ after

unfoldable pub collapse_whitespace : Bytes → Bytes
unfolding runes_from collapse_runes trim_space
collapse_whitespace s = trim_space (collapse_runes false (runes_from (length s) s))

abbrev pub header_value : Request → Bytes → Bytes
header_value r h = if str_eq h (codes "host") then r.host else header_get h r

abbrev pub header_line : Request → Bytes → Bytes
header_line r h = h ++ (b':' ∷ collapse_whitespace (trim_space (header_value r h))) ++ newline

unfoldable pub build_canonical_headers : Request → List Bytes → Bytes
build_canonical_headers r signed_headers = join [] (map (header_line r) signed_headers)

-- The parameters of one name, with its values in order.
abbrev pub parameters_of : Bytes → List Bytes → List Bytes
parameters_of k [] = []
parameters_of k (v ∷ rest) = (uri_encode k ++ b'=' ∷ uri_encode v) ∷ parameters_of k rest

unfoldable pub parameters : (Bytes → List Bytes) → List Bytes → List Bytes
parameters values [] = []
parameters values (k ∷ keys) = parameters_of k (sort (values k)) ++ parameters values keys

-- The loop over the map: the keys come in any order, and those to exclude are left out.
unfoldable pub build_canonical_query_string :
    (Bytes → Bool) → List Bytes → (Bytes → List Bytes) → Bytes
build_canonical_query_string exclude keys values =
    join (codes "&") (parameters values (sort (select (λ k. not (exclude k)) keys)))

abbrev pub names : Values → List Bytes
names [] = []
names ((name, _) ∷ rest) = name ∷ names rest

abbrev pub canonical_query : (Bytes → Bool) → Request → Bytes
canonical_query exclude r =
    build_canonical_query_string exclude (names r.query) (λ k. find_values k r.query)

abbrev pub canonical_uri : Bytes → Bytes
canonical_uri path = if str_eq path [] then codes "/" else path

abbrev pub canonical_request : (Bytes → Bool) → Request → Bytes → Bytes → Bytes
canonical_request exclude r signed_headers payload_hash = join newline (
    r.method
    ∷ canonical_uri r.escaped_path
    ∷ canonical_query exclude r
    ∷ build_canonical_headers r (split b';' signed_headers)
    ∷ signed_headers
    ∷ payload_hash
    ∷ [])

unfoldable pub build_canonical_request : Request → Bytes → Bytes → Bytes
build_canonical_request = canonical_request (λ k. false)

unfoldable pub build_canonical_request_for_query : Request → Bytes → Bytes → Bytes
build_canonical_request_for_query = canonical_request (λ k. str_eq k (codes "X-Amz-Signature"))

abbrev pub algorithm : Bytes
algorithm = codes "AWS4-HMAC-SHA256"

abbrev pub terminator : Bytes
terminator = codes "aws4_request"

abbrev pub unsigned_payload : Bytes
unsigned_payload = codes "UNSIGNED-PAYLOAD"

abbrev pub or_unsigned : Bytes → Bytes
or_unsigned hash = if str_eq hash [] then unsigned_payload else hash

abbrev pub get_payload_hash : Request → Bytes
get_payload_hash r = or_unsigned (header_get (codes "X-Amz-Content-SHA256") r)

abbrev pub after_cut : Bytes → Option (Bytes × Bytes) → Bytes
after_cut whole none = whole
after_cut whole (some (before, after)) = after

module _ (sha256 : Bytes → Bytes) where
  unfoldable pub build_string_to_sign : Bytes → Bytes → Bytes → Bytes
  build_string_to_sign timestamp credential_scope request = join newline (
      algorithm
      ∷ timestamp
      ∷ after_cut credential_scope (cut b'/' credential_scope)
      ∷ hex_encode (sha256 request)
      ∷ [])

module _ (hmac_sha256 : Bytes → Bytes → Bytes) where
  unfoldable pub compute_signature : Bytes → Bytes → Bytes → Bytes → Bytes → Bytes
  compute_signature secret_key date region service string_to_sign =
      let k_secret = codes "AWS4" ++ secret_key in
      let k_date = hmac_sha256 k_secret date in
      let k_region = hmac_sha256 k_date region in
      let k_service = hmac_sha256 k_region service in
      let k_signing = hmac_sha256 k_service terminator in
      hex_encode (hmac_sha256 k_signing string_to_sign)
