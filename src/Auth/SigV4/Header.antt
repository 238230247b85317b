-- ===== src/Auth/SigV4/Header.antt =====
-- What internal/auth/sigv4.go reads of the Authorization header and of a credential.
use fbs_core.Base.{
  Bool, true, false, not, ◌&&◌, ◌||◌, ◌==◌, Bytes, List, [], ◌∷◌, length, codes, split, cut,
  trim_space, has_prefix, drop, str_eq, Option, none, some, if◌then◌else◌, Result, ok, err, ◌>>=◌,
  is_digit,
}
use fbs_core.Auth.SigV4.Canonical.{terminator}

pub record Authorization : Type 0 where
  pub credential : Bytes
  pub signed_headers : Bytes
  pub signature : Bytes

abbrev pub no_params : Authorization
no_params = record { credential = []; signed_headers = []; signature = [] }

abbrev pub set_param : Bytes → Bytes → Authorization → Authorization
set_param key value a =
    if str_eq key (codes "Credential")
    then record a { credential = value }
    else if str_eq key (codes "SignedHeaders")
    then record a { signed_headers = value }
    else if str_eq key (codes "Signature")
    then record a { signature = value }
    else a

abbrev pub key_value : Authorization → Option (Bytes × Bytes) → Result Unit Authorization
key_value a none = err tt
key_value a (some (key, value)) = ok (set_param key value a)

abbrev pub read_param : Authorization → Bytes → Result Unit Authorization
read_param a part = if str_eq part [] then ok a else key_value a (cut b'=' part)

unfoldable pub read_params : Authorization → List Bytes → Result Unit Authorization
read_params a [] = ok a
read_params a (part ∷ rest) = do b ← read_param a (trim_space part); read_params b rest

abbrev pub complete : Authorization → Result Unit Authorization
complete a =
    if str_eq a.credential [] || str_eq a.signed_headers [] || str_eq a.signature []
    then err tt
    else ok a

abbrev pub prefix : Bytes
prefix = codes "AWS4-HMAC-SHA256 "

unfoldable pub parse_authorization_header : Bytes → Result Unit Authorization
parse_authorization_header header =
    if not (has_prefix header prefix)
    then err tt
    else do a ← read_params no_params (split b',' (drop (length prefix) header)); complete a

abbrev pub names_host : List Bytes → Bool
names_host [] = false
names_host (h ∷ rest) = str_eq h (codes "host") || names_host rest

unfoldable pub validate_signed_headers : Bytes → Result {0} Unit Unit
validate_signed_headers s = if names_host (split b';' s) then ok tt else err tt

pub record Credential : Type 0 where
  pub access_key_id : Bytes
  pub date : Bytes
  pub region : Bytes
  pub service : Bytes

abbrev pub all_digits : Bytes → Bool
all_digits [] = true
all_digits (c ∷ s) = is_digit c && all_digits s

abbrev pub five_parts : List Bytes → Result Unit Credential
five_parts (id ∷ date ∷ region ∷ service ∷ last ∷ []) =
    if not (str_eq last terminator)
    then err tt
    else if str_eq id []
    then err tt
    else if not (length date == 8)
    then err tt
    else if not (all_digits date)
    then err tt
    else if str_eq region []
    then err tt
    else if not (str_eq service (codes "s3"))
    then err tt
    else ok (record { access_key_id = id; date = date; region = region; service = service })
five_parts _ = err tt

unfoldable pub parse_credential : Bytes → Result Unit Credential
parse_credential credential = five_parts (split b'/' credential)
