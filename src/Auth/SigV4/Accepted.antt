-- ===== src/Auth/SigV4/Accepted.antt =====
-- The header that SignRequestAt writes is accepted.
use fbs_core.Base.{
  true, false, Bytes, List, [], ◌∷◌, codes, join, str_eq, split-join, All, ok, ◌≡◌, ◌≢◌, refl, ap,
  ◌∙◌, arith, ltb,
}
use fbs_core.Metadata.Model.{User}
use fbs_core.Auth.Secret.{IsByte}
use fbs_core.Auth.SigV4.Clock.{
  Civil, date_text, stamp_text, parse_timestamp, validate_timestamp, utc_nanos, at_utc,
}
use fbs_core.Auth.SigV4.Window.{IsNear, validate_timestamp_iff}
use fbs_core.Auth.SigV4.Stamp.{IsClock, whole_seconds, parse_timestamp-stamp_text}
use fbs_core.Auth.SigV4.Request.{Request, canonical_key, header_get, header_set}
use fbs_core.Auth.SigV4.Canonical.{
  or_unsigned, get_payload_hash, compute_signature, build_canonical_request,
}
use fbs_core.Auth.SigV4.Header.{
  Authorization, parse_credential, validate_signed_headers, parse_authorization_header,
}
use fbs_core.Auth.SigV4.Sound.{ok-authenticate_header}
use fbs_core.Auth.SigV4.Verify.{Services, raw_date, signed_principal, authenticate_header}
use fbs_core.Auth.SigV4.Sign.{
  Keys, dated_request, sign_request_at, signature_of, credential_of, authorization_text,
}
use fbs_core.Auth.SigV4.Printed.{
  IsValue, IsPart, parse_authorization_header-text, parse_credential-text, credential_text-IsValue,
}
use fbs_core.Auth.SigV4.Signed.{
  PayloadAgrees, Signable, header_get-header_set, header_get_other, header_get-date,
  get_payload_hash-dated, build_canonical_request-signed, all_values-join, names_host-join,
  hex_encode-IsValue,
}

-- What the signer and the authenticator share: the keys of an active user, and a clock.
pub record Agreed {E : Type 0} (services : Services E) (k : Keys) (now : Civil) (user : User)
    : Type 0 where
  pub id : IsPart k.access_key_id
  pub region : IsPart k.region
  pub service : k.service ≡ codes "s3"
  pub found : services.get_by_sigv4_access_key_id k.access_key_id ≡ ok user
  pub active : user.is_active ≡ true
  pub secret : user.sigv4_secret_key ≡ k.secret_key
  pub clock : IsClock now
  pub near : IsNear (services.clock 0).nanos (utc_nanos (whole_seconds now))
  pub bytes : (key text : Bytes) → All IsByte (services.hmac_sha256 key text)
  pub some_bytes : (key text : Bytes) → services.hmac_sha256 key text ≢ []

validate_signed_headers-join :
    (h : Bytes) (hs : List Bytes)
    → Signable (h ∷ hs)
    → validate_signed_headers (join (codes ";") (h ∷ hs)) ≡ ok tt
unfolding validate_signed_headers
validate_signed_headers-join h hs s = rw (split-join b';' h hs s.apart, s.host) refl

module _ {E : Type 0} (services : Services E) (k : Keys) (now : Civil) (user : User)
    (agreed : Agreed services k now user) where
  validate_timestamp-now :
      validate_timestamp services.rfc1123 (stamp_text now) (date_text now) (services.clock 0)
      ≡ ok tt
  validate_timestamp-now =
      let early : ltb now.year 10000 ≡ true = ground (arith, agreed.clock.1) in
      let same = parse_timestamp-stamp_text services.rfc1123 now agreed.clock in
      (validate_timestamp_iff services.rfc1123 (stamp_text now) (date_text now)
          (services.clock 0)).1
        ((λ e. cc (early, e)), at_utc (whole_seconds now), same, refl, agreed.near)

  signature-IsValue :
      (request : Bytes) → IsValue (signature_of services.sha256 services.hmac_sha256 k now request)
  unfolding compute_signature
  signature-IsValue request = hex_encode-IsValue _ (agreed.bytes _ _) (agreed.some_bytes _ _)

  module _ (r : Request) (h : Bytes) (hs : List Bytes) (payload_hash : Bytes)
      (s : Signable (h ∷ hs)) (agrees : PayloadAgrees payload_hash r) where
    abbrev joined : Bytes
    joined = join (codes ";") (h ∷ hs)

    abbrev dated : Request
    dated = dated_request r payload_hash now

    abbrev signed : Request
    signed = sign_request_at services.sha256 services.hmac_sha256 r k (h ∷ hs) payload_hash now

    abbrev request : Bytes
    request = build_canonical_request dated joined (or_unsigned payload_hash)

    abbrev signature : Bytes
    signature = signature_of services.sha256 services.hmac_sha256 k now request

    abbrev text : Bytes
    text = authorization_text (credential_of k now) joined signature

    abbrev with_text : Request
    with_text = header_set (codes "Authorization") text dated

    abbrev authorization : Authorization
    authorization = record {
      credential = credential_of k now;
      signed_headers = joined;
      signature = signature;
    }

    parsed :
        parse_authorization_header (header_get (codes "Authorization") with_text) ≡ ok authorization
    parsed =
        ap parse_authorization_header (header_get-header_set (codes "Authorization") text dated)
        ∙ parse_authorization_header-text (credential_of k now) joined signature
            (rw agreed.service (
              credential_text-IsValue k.access_key_id k.region now agreed.id agreed.region
                agreed.clock.1))
            (all_values-join (h ∷ hs) s.text, names_host-join h hs s.host)
            (signature-IsValue request)

    raw_date-with_text : raw_date with_text ≡ stamp_text now
    raw_date-with_text =
        let early = agreed.clock.1 in
        let apart : str_eq (canonical_key (codes "Authorization"))
              (canonical_key (codes "X-Amz-Date"))
            ≡ false =
          unfold str_eq canonical_key in refl in
        let date : header_get (codes "X-Amz-Date") with_text ≡ stamp_text now =
          header_get_other (codes "Authorization") (codes "X-Amz-Date") text dated apart
          ∙ header_get-date r payload_hash now in
        let four : ltb now.year 10000 ≡ true = ground arith in
        let some_date : str_eq (stamp_text now) [] ≡ false = rw four (unfold str_eq in refl) in
        rw (date, some_date) refl

    get_payload_hash-with_text : get_payload_hash with_text ≡ or_unsigned payload_hash
    get_payload_hash-with_text =
        let name = codes "X-Amz-Content-SHA256" in
        let apart : str_eq (canonical_key (codes "Authorization")) (canonical_key name) ≡ false =
          unfold str_eq canonical_key in refl in
        ap or_unsigned (header_get_other (codes "Authorization") name text dated apart)
        ∙ get_payload_hash-dated r payload_hash now agrees

    credential_now :
        parse_credential (credential_of k now)
        ≡ ok (record {
          access_key_id = k.access_key_id;
          date = date_text now;
          region = k.region;
          service = k.service;
        })
    credential_now =
        rw agreed.service (
          parse_credential-text k.access_key_id k.region now agreed.id agreed.region agreed.clock.1)

    request-with_text :
        build_canonical_request with_text joined (get_payload_hash with_text) ≡ request
    request-with_text = rw get_payload_hash-with_text (
        build_canonical_request-signed text dated (h ∷ hs) joined (or_unsigned payload_hash)
          (split-join b';' h hs s.apart) s.before)

    accepted :
        authenticate_header services with_text
        ≡ ok (signed_principal user joined (get_payload_hash with_text))
    accepted =
        ok-authenticate_header services with_text authorization
          (record {
            access_key_id = k.access_key_id;
            date = date_text now;
            region = k.region;
            service = k.service;
          })
          (at_utc (whole_seconds now)) user parsed (validate_signed_headers-join h hs s)
          credential_now
          (ap (parse_timestamp services.rfc1123) raw_date-with_text
            ∙ parse_timestamp-stamp_text services.rfc1123 now agreed.clock)
          validate_timestamp-now agreed.found agreed.active
          (rw (agreed.secret, request-with_text) refl)

    -- A request that SignRequestAt signs is accepted, as the user whose keys it was signed with: for a
    -- service "s3", keys and header names that are text without separators, signed headers that name
    -- the host and not Authorization, a clock that shows UTC and passes as a timestamp, and a
    -- payload hash that is named unless the request has no header for it.
    pub authenticate_header-sign_request_at :
        authenticate_header services signed
        ≡ ok (signed_principal user joined (or_unsigned payload_hash))
    unfolding sign_request_at
    authenticate_header-sign_request_at =
        accepted
        ∙ ap (λ (x : Bytes). ok (signed_principal user joined x)) get_payload_hash-with_text
