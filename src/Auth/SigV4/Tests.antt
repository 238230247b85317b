-- ===== src/Auth/SigV4/Tests.antt =====
-- A request that is signed and sent two minutes later; the sums stand for hash functions.
use mathlib.Core.List.{Permᴰ}
use fbs_core.Base.{
  Bool-cases, ℕ, ◌+◌, ◌*◌, ◌%◌, Bytes, List, [], ◌∷◌, length, codes, str_eq, if◌then◌else◌, ok, err,
  pos, ◌≡◌, ◌≢◌, refl, arith, inl, inr, atoi, some, ◌↔◌, true, false, split, cut, join, has_prefix,
  trim_space, sort, decimal,
}
use fbs_core.Iam.{role_member}
use fbs_core.Metadata.Model.{User}
use fbs_core.Auth.Principal.{Principal}
use fbs_core.Auth.Bearer.{user_not_found}
use fbs_core.Auth.Secret.{hex_encode}
use fbs_core.Auth.SigV4.Clock.{
  Civil, Instant, at_utc, utc_nanos, days_in, valid_civil, parse_timestamp, date_text, stamp_text,
  validate_timestamp, sub_time, absolute,
}
use fbs_core.Auth.SigV4.Window.{IsNear, validate_timestamp_iff}
use fbs_core.Auth.SigV4.Request.{
  Request, canonical_key, find_values, set_value, header_get, values_get,
}
use fbs_core.Auth.SigV4.Uri.{uri_encode, unescape, escape_count, unescape-uri_encode}
use fbs_core.Auth.SigV4.Canonical.{
  algorithm, or_unsigned, build_canonical_request, parameters, build_canonical_request_for_query,
  build_canonical_headers, build_string_to_sign, compute_signature, collapse_whitespace,
  build_canonical_query_string, get_payload_hash,
}
use fbs_core.Auth.SigV4.Header.{
  Authorization, Credential, parse_authorization_header, parse_credential, validate_signed_headers,
}
use fbs_core.Auth.SigV4.Verify.{
  raw_date, presigned, query_payload_hash, expected_signature, Services, signed_principal,
  authenticate_header, authenticate_query,
}
use fbs_core.Auth.SigV4.Sound.{SignsHost, authenticate_header-ok}
use fbs_core.Auth.SigV4.Query.{InForce, authenticate_query-ok}
use fbs_core.Auth.SigV4.AnyOrder.{SameValues, build_canonical_query_string-Perm}
use fbs_core.Auth.SigV4.Sign.{Keys, sign_request_at, presign_request}
use fbs_core.Auth.SigV4.Signed.{Signable}
use fbs_core.Auth.SigV4.Accepted.{Agreed, authenticate_header-sign_request_at}

abbrev user : User
user = record {
  id = codes "u1";
  display_name = codes "Ada";
  access_key_id = codes "fbsa_1";
  secret_hash = [];
  sigv4_access_key_id = codes "AKIA1";
  sigv4_secret_key = codes "secret";
  role = role_member;
  is_active = true;
  created_at = 1;
  updated_at = 1;
}

abbrev clock_at : ℕ → Civil
clock_at m = record {
  year = 2024;
  month = 2;
  day = 29;
  hour = 23;
  minute = m;
  second = 59;
  nanosecond = 5;
}

abbrev hmac : Bytes → Bytes → Bytes
hmac key text = (length key * 7 + length text) % 256 ∷ []

abbrev services : Services Bytes
services = record {
  rfc1123 = λ s. err tt;
  sha256 = λ s. length s % 256 ∷ [];
  hmac_sha256 = hmac;
  get_by_sigv4_access_key_id =
      λ id. if str_eq id (codes "AKIA1") then ok user else err user_not_found;
  clock = λ n. at_utc (clock_at 57);
}

abbrev request : Request
request = record {
  method = codes "GET";
  host = codes "fbs.local";
  escaped_path = codes "/b/a%20b";
  query = (codes "prefix", codes "x y" ∷ []) ∷ (codes "list-type", codes "2" ∷ []) ∷ [];
  headers = (codes "Range", codes "bytes=0-1" ∷ []) ∷ [];
}

abbrev keys : Keys
keys = record {
  access_key_id = codes "AKIA1";
  secret_key = codes "secret";
  region = codes "eu-1";
  service = codes "s3";
}

agreed : Agreed services keys (clock_at 55) user
unfolding str_eq valid_civil days_in utc_nanos
agreed = record {
  id = (refl, refl, refl);
  region = (refl, refl, refl);
  service = refl;
  found = refl;
  active = refl;
  secret = refl;
  clock = (refl, omega arith, omega arith);
  near = inl (omega arith, omega arith);
  bytes = λ key text. (omega arith, tt);
  some_bytes = λ key text e. cc e;
}

abbrev signed_names : List Bytes
signed_names = codes "host" ∷ codes "x-amz-date" ∷ codes "range" ∷ []

signable : Signable signed_names
unfolding str_eq canonical_key
signable = record { text = refl; apart = refl; host = refl; before = refl }

abbrev signed : Request
signed = sign_request_at services.sha256 hmac request keys signed_names [] (clock_at 55)

absent : get_payload_hash request ≡ codes "UNSIGNED-PAYLOAD"
unfolding find_values canonical_key str_eq
absent = refl

no_hash : header_get (codes "X-Amz-Content-SHA256") request ≡ []
unfolding find_values canonical_key str_eq
no_hash = refl

abbrev caller : Principal
caller = signed_principal user (join (codes ";") signed_names) (codes "UNSIGNED-PAYLOAD")

authenticate_header-sign_request_at_example :
    authenticate_header services signed
    ≡ ok (signed_principal user (join (codes ";") signed_names) (or_unsigned []))
authenticate_header-sign_request_at_example =
    authenticate_header-sign_request_at services keys (clock_at 55) user agreed request
      (codes "host") (codes "x-amz-date" ∷ codes "range" ∷ []) [] signable (inr no_hash)

abbrev presigned_request : Request
presigned_request = presign_request services.sha256 hmac request keys (pos 600) (clock_at 55)

abbrev query_caller : Principal
query_caller = signed_principal user (codes "host") (codes "UNSIGNED-PAYLOAD")

presigned_accepted : authenticate_query services presigned_request ≡ ok query_caller
unfolding authenticate_query presign_request set_value find_values canonical_key str_eq has_prefix
    split cut join trim_space sort collapse_whitespace build_canonical_query_string uri_encode
    parse_timestamp valid_civil days_in utc_nanos atoi parse_credential validate_signed_headers
    build_canonical_request_for_query build_canonical_headers build_string_to_sign compute_signature
    hex_encode decimal parameters
presigned_accepted = refl

header_accepted :
    authenticate_header services signed
    ≡ ok (signed_principal user (join (codes ";") signed_names) (or_unsigned []))
header_accepted =
    authenticate_header-sign_request_at services keys (clock_at 55) user agreed request
      (codes "host") (codes "x-amz-date" ∷ codes "range" ∷ []) [] signable (inr no_hash)

authenticate_header-ok_example :
    (a : Authorization) × (c : Credential) × (t : Instant) × (u : User)
    × (parse_authorization_header (header_get (codes "Authorization") signed) ≡ ok a)
    × SignsHost a.signed_headers
    × (parse_credential a.credential ≡ ok c)
    × (parse_timestamp services.rfc1123 (raw_date signed) ≡ ok t)
    × (validate_timestamp services.rfc1123 (stamp_text t.civil) c.date (services.clock 0) ≡ ok tt)
    × (services.get_by_sigv4_access_key_id c.access_key_id ≡ ok u)
    × (u.is_active ≡ true)
    × (a.signature
        ≡ expected_signature services u c a.credential
            (stamp_text t.civil)
            (build_canonical_request signed a.signed_headers (get_payload_hash signed)))
    × (signed_principal user (join (codes ";") signed_names) (or_unsigned [])
        ≡ signed_principal u a.signed_headers (get_payload_hash signed))
authenticate_header-ok_example =
    authenticate_header-ok services signed
      (signed_principal user (join (codes ";") signed_names) (or_unsigned [])) header_accepted

authenticate_query-ok_example :
    let q = presigned presigned_request in
    (c : Credential) × (t : Instant) × (n : ℕ) × (u : User) × (values_get
        (codes "X-Amz-Algorithm")
        presigned_request.query
      ≡ algorithm)
    × SignsHost q.signed_headers
    × (parse_credential q.credential ≡ ok c)
    × (parse_timestamp services.rfc1123 q.amz_date ≡ ok t)
    × (atoi q.expires ≡ some (pos n))
    × InForce services c t n
    × (services.get_by_sigv4_access_key_id c.access_key_id ≡ ok u)
    × (u.is_active ≡ true)
    × (q.signature
        ≡ expected_signature services u c q.credential q.amz_date (
            build_canonical_request_for_query presigned_request q.signed_headers
              (query_payload_hash presigned_request)))
    × (query_caller ≡ signed_principal u q.signed_headers (query_payload_hash presigned_request))
authenticate_query-ok_example =
    authenticate_query-ok services presigned_request query_caller presigned_accepted

-- A timestamp three centuries after the clock.
abbrev far_clock : Civil
far_clock = record {
  year = 2324;
  month = 2;
  day = 28;
  hour = 0;
  minute = 0;
  second = 0;
  nanosecond = 0;
}

far_accepted :
    validate_timestamp services.rfc1123
      (stamp_text far_clock)
      (date_text far_clock)
      (at_utc (clock_at 57))
    ≡ ok tt
unfolding validate_timestamp str_eq parse_timestamp valid_civil days_in utc_nanos sub_time absolute
far_accepted = refl

validate_timestamp_iff_example :
    (validate_timestamp services.rfc1123
        (stamp_text far_clock)
        (date_text far_clock)
        (at_utc (clock_at 57))
      ≡ ok tt)
    ↔ ((stamp_text far_clock ≢ [])
        × (t : Instant) × (parse_timestamp services.rfc1123 (stamp_text far_clock) ≡ ok t)
        × (date_text t.civil ≡ date_text far_clock)
        × IsNear (at_utc (clock_at 57)).nanos t.nanos)
validate_timestamp_iff_example =
    validate_timestamp_iff services.rfc1123 (stamp_text far_clock) (date_text far_clock)
      (at_utc (clock_at 57))

unescape-uri_encode_example :
    (unescape (uri_encode (codes "a b/%")) ≡ some (codes "a b/%"))
    × (length (uri_encode (codes "a b/%"))
        ≡ length (codes "a b/%") + 2 * escape_count (codes "a b/%"))
unescape-uri_encode_example =
    unescape-uri_encode (codes "a b/%")
      (omega arith, (omega arith, (omega arith, (omega arith, (omega arith, tt)))))

abbrev some_values : Bytes → List Bytes
some_values k = if str_eq k (codes "tag") then codes "b" ∷ codes "a" ∷ [] else codes "1" ∷ []

abbrev other_values : Bytes → List Bytes
other_values k = if str_eq k (codes "tag") then codes "a" ∷ codes "b" ∷ [] else codes "1" ∷ []

same_values : SameValues some_values other_values
same_values k = elim (Bool-cases (str_eq k (codes "tag"))) [
  | inl here ↦ rw here (∣ Permᴰ.swap refl refl ∣₁)
  | inr other ↦ rw other (∣ Permᴰ.cons refl Permᴰ.nil ∣₁)
]

build_canonical_query_string-Perm_example :
    build_canonical_query_string (λ k. false) (codes "tag" ∷ codes "id" ∷ []) some_values
    ≡ build_canonical_query_string (λ k. false) (codes "id" ∷ codes "tag" ∷ []) other_values
build_canonical_query_string-Perm_example =
    build_canonical_query_string-Perm some_values other_values same_values (λ k. false)
      (codes "tag" ∷ codes "id" ∷ []) (codes "id" ∷ codes "tag" ∷ []) (∣ Permᴰ.swap refl refl ∣₁)
