-- ===== src/Auth/SigV4/Sign.antt =====
-- SignRequestAt and PresignRequest of internal/auth/sigv4.go, and the texts they write.
use fbs_core.Base.{
  ℤ, pos, negsuc, ℕ, ◌==◌, not, ◌&&◌, Bytes, List, ◌∷◌, [], ◌++◌, codes, join, str_eq, decimal,
  if◌then◌else◌,
}
use fbs_core.Auth.SigV4.Clock.{Civil, date_text, stamp_text}
use fbs_core.Auth.SigV4.Request.{Values, Request, header_get, header_set, values_get, set_value}
use fbs_core.Auth.SigV4.Canonical.{
  algorithm, terminator, unsigned_payload, or_unsigned, build_canonical_request,
  build_canonical_request_for_query, build_string_to_sign, compute_signature,
}

abbrev pub credential_text : Bytes → Bytes → Bytes → Bytes → Bytes
credential_text id date region service =
    id ++ (b'/' ∷ (date ++ (b'/' ∷ (region ++ (b'/' ∷ (service ++ (b'/' ∷ terminator)))))))

abbrev pub authorization_text : Bytes → Bytes → Bytes → Bytes
authorization_text credential signed_headers signature =
    algorithm
    ++ (codes " Credential="
        ++ (credential
            ++ (codes ", SignedHeaders="
                ++ (signed_headers ++ (codes ", Signature=" ++ signature)))))

-- The keys of an account, the region and the service.
pub record Keys : Type 0 where
  pub access_key_id : Bytes
  pub secret_key : Bytes
  pub region : Bytes
  pub service : Bytes

abbrev pub credential_of : Keys → Civil → Bytes
credential_of k now = credential_text k.access_key_id (date_text now) k.region k.service

abbrev pub with_host : Request → Request
with_host r =
    if str_eq (header_get (codes "Host") r) [] && not (str_eq r.host [])
    then header_set (codes "Host") r.host r
    else r

abbrev pub with_payload : Bytes → Request → Request
with_payload hash r =
    if not (str_eq hash unsigned_payload)
    then header_set (codes "X-Amz-Content-SHA256") hash r
    else r

-- The request as it is when the signature is taken.
abbrev pub dated_request : Request → Bytes → Civil → Request
dated_request r payload_hash now =
    with_payload (or_unsigned payload_hash)
      (with_host (header_set (codes "X-Amz-Date") (stamp_text now) r))

module _ (sha256 : Bytes → Bytes) (hmac_sha256 : Bytes → Bytes → Bytes) where
  abbrev pub signature_of : Keys → Civil → Bytes → Bytes
  signature_of k now request =
      compute_signature hmac_sha256 k.secret_key (date_text now) k.region k.service
        (build_string_to_sign sha256 (stamp_text now) (credential_of k now) request)

  unfoldable pub sign_request_at : Request → Keys → List Bytes → Bytes → Civil → Request
  sign_request_at r k signed_headers payload_hash now =
      let dated = dated_request r payload_hash now in
      let signed_headers_str = join (codes ";") signed_headers in
      header_set (codes "Authorization")
        (authorization_text (credential_of k now) signed_headers_str (
          signature_of k now
            (build_canonical_request dated signed_headers_str (or_unsigned payload_hash))))
        dated

  abbrev pub expires_or_default : ℤ → ℕ
  expires_or_default (pos n) = if n == 0 then 900 else n
  expires_or_default (negsuc n) = 900

  -- The query before it is signed. The number of seconds is the duration in whole seconds.
  abbrev pub unsigned_query : Request → Keys → ℤ → Civil → Values
  unsigned_query r k expires_seconds now =
      let q = set_value (codes "X-Amz-SignedHeaders") (codes "host") (
        set_value (codes "X-Amz-Expires") (decimal (expires_or_default expires_seconds)) (
          set_value (codes "X-Amz-Date") (stamp_text now) (
            set_value (codes "X-Amz-Credential") (credential_of k now)
              (set_value (codes "X-Amz-Algorithm") algorithm r.query)))) in
      if str_eq r.method (codes "PUT") && str_eq (values_get (codes "X-Amz-Content-SHA256") q) []
      then set_value (codes "X-Amz-Content-SHA256") unsigned_payload q
      else q

  unfoldable pub presign_request : Request → Keys → ℤ → Civil → Request
  presign_request r k expires_seconds now =
      let hosted = with_host r in
      let query = unsigned_query hosted k expires_seconds now in
      let unsigned = record hosted { query = query } in
      let payload_hash = or_unsigned (values_get (codes "X-Amz-Content-SHA256") query) in
      let signature =
        signature_of k now
          (build_canonical_request_for_query unsigned (codes "host") payload_hash) in
      record hosted { query = set_value (codes "X-Amz-Signature") signature query }
