-- ===== src/Auth/SigV4/Verify.antt =====
-- SigV4Authenticator of internal/auth/sigv4.go. The repository, the clock (by the number of the
-- reading), the hash functions and the parser of the Date header are parameters.
use fbs_core.Base.{
  ℕ, ◌+◌, ltb, ◌==◌, Bool, false, not, ◌||◌, ℤ, pos, negsuc, Bytes, [], codes, str_eq, has_prefix,
  atoi, Option, none, some, if◌then◌else◌, Result, ok, err, ◌>>=◌,
}
use fbs_core.Metadata.Model.{User}
use fbs_core.Auth.Principal.{
  Principal, Error, not_applicable, malformed_token, invalid_credentials, inactive_user,
}
use fbs_core.Auth.Bearer.{UserError, found_user}
use fbs_core.Auth.SigV4.Clock.{
  Instant, date_text, stamp_text, parse_timestamp, validate_timestamp, seconds, max_clock_skew,
}
use fbs_core.Auth.SigV4.Request.{Request, header_get, values_get}
use fbs_core.Auth.SigV4.Canonical.{
  algorithm, get_payload_hash, or_unsigned, build_canonical_request,
  build_canonical_request_for_query, build_string_to_sign, compute_signature,
}
use fbs_core.Auth.SigV4.Header.{
  Credential, parse_authorization_header, validate_signed_headers, parse_credential,
}

-- The services that the authenticator is given.
pub record Services (E : Type 0) : Type 0 where
  pub rfc1123 : Bytes → Result Unit Instant
  pub sha256 : Bytes → Bytes
  pub hmac_sha256 : Bytes → Bytes → Bytes
  pub get_by_sigv4_access_key_id : Bytes → Result (UserError E) User
  pub clock : ℕ → Instant

abbrev pub or_error : {A : Type 0} → Error → Result Unit A → Result Error A
or_error e (ok a) = ok a
or_error e (err _) = err e

abbrev pub signed_principal : User → Bytes → Bytes → Principal
signed_principal u signed_headers payload_hash = record {
  user_id = u.id;
  display_name = u.display_name;
  access_key_id = u.sigv4_access_key_id;
  role = u.role;
  dev_mode = false;
  signed_headers = signed_headers;
  signed_payload_hash = payload_hash;
}

-- The date of the request: X-Amz-Date, or Date where that is empty.
abbrev pub raw_date : Request → Bytes
raw_date r =
    let amz = header_get (codes "X-Amz-Date") r in
    if str_eq amz [] then header_get (codes "Date") r else amz

abbrev pub valid_expiry : Option ℤ → Result Error ℕ
valid_expiry (some (pos n)) = if n == 0 || ltb 604800 n then err malformed_token else ok n
valid_expiry (some (negsuc n)) = err malformed_token
valid_expiry none = err malformed_token

-- The parameters of a query that is signed.
pub record Presigned : Type 0 where
  pub credential : Bytes
  pub signed_headers : Bytes
  pub signature : Bytes
  pub amz_date : Bytes
  pub expires : Bytes

abbrev pub presigned : Request → Presigned
presigned r = record {
  credential = values_get (codes "X-Amz-Credential") r.query;
  signed_headers = values_get (codes "X-Amz-SignedHeaders") r.query;
  signature = values_get (codes "X-Amz-Signature") r.query;
  amz_date = values_get (codes "X-Amz-Date") r.query;
  expires = values_get (codes "X-Amz-Expires") r.query;
}

abbrev pub all_present : Presigned → Bool
all_present p = not (
    str_eq p.credential []
    || str_eq p.signed_headers []
    || str_eq p.signature []
    || str_eq p.amz_date []
    || str_eq p.expires [])

abbrev pub query_payload_hash : Request → Bytes
query_payload_hash r = or_unsigned (values_get (codes "X-Amz-Content-SHA256") r.query)

module _ {E : Type 0} (services : Services E) where
  abbrev pub expected_signature : User → Credential → Bytes → Bytes → Bytes → Bytes
  expected_signature user c credential amz_date request =
      compute_signature services.hmac_sha256 user.sigv4_secret_key c.date c.region c.service
        (build_string_to_sign services.sha256 amz_date credential request)

  -- The account is active, and the signature is the one its secret gives.
  abbrev pub checked : User → Bool → Principal → Result Error Principal
  checked user same p =
      if not user.is_active
      then err inactive_user
      else if not same
      then err invalid_credentials
      else ok p

  unfoldable pub authenticate_header : Request → Result Error Principal
  authenticate_header r = do
    a ← or_error malformed_token (parse_authorization_header (header_get (codes "Authorization") r))
    named ← or_error malformed_token (validate_signed_headers a.signed_headers)
    c ← or_error malformed_token (parse_credential a.credential)
    t ← or_error malformed_token (parse_timestamp services.rfc1123 (raw_date r))
    fresh ←
        or_error invalid_credentials
          (validate_timestamp services.rfc1123 (stamp_text t.civil) c.date (services.clock 0))
    user ← found_user (services.get_by_sigv4_access_key_id c.access_key_id)
    checked user
        (str_eq a.signature (
          expected_signature user c a.credential (stamp_text t.civil)
            (build_canonical_request r a.signed_headers (get_payload_hash r))))
        (signed_principal user a.signed_headers (get_payload_hash r))

  -- The time of a signed query: of the credential's date, at most seven days old, at most fifteen
  -- minutes in the future, and not yet expired.
  abbrev pub timely : Credential → Instant → Option ℤ → Result Error ℕ
  timely c t expires =
      if not (str_eq (date_text t.civil) c.date)
      then err invalid_credentials
      else if ltb (t.nanos + seconds 604800) (services.clock 0).nanos
      then err invalid_credentials
      else if ltb ((services.clock 1).nanos + max_clock_skew) t.nanos
      then err invalid_credentials
      else do
        n ← valid_expiry expires
        if ltb (t.nanos + seconds n) (services.clock 2).nanos then err invalid_credentials else ok n

  unfoldable pub authenticate_query : Request → Result Error Principal
  authenticate_query r =
      let q = presigned r in
      if not (str_eq (values_get (codes "X-Amz-Algorithm") r.query) algorithm)
      then err malformed_token
      else if not (all_present q)
      then err malformed_token
      else do
        named ← or_error malformed_token (validate_signed_headers q.signed_headers)
        c ← or_error malformed_token (parse_credential q.credential)
        t ← or_error malformed_token (parse_timestamp services.rfc1123 q.amz_date)
        n ← timely c t (atoi q.expires)
        user ← found_user (services.get_by_sigv4_access_key_id c.access_key_id)
        checked user
            (str_eq q.signature (
              expected_signature user c q.credential q.amz_date
                (build_canonical_request_for_query r q.signed_headers (query_payload_hash r))))
            (signed_principal user q.signed_headers (query_payload_hash r))

  unfoldable pub sigv4_authenticate : Request → Result Error Principal
  sigv4_authenticate r =
      let header = header_get (codes "Authorization") r in
      if not (str_eq header [])
      then (if has_prefix header algorithm then authenticate_header r else err not_applicable)
      else if not (str_eq (values_get (codes "X-Amz-Algorithm") r.query) [])
      then authenticate_query r
      else err not_applicable
