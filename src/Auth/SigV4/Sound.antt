-- ===== src/Auth/SigV4/Sound.antt =====
-- What a request that is accepted has shown.
use fbs_core.Base.{
  Bool, true, not, Bytes, List, [], ◌∷◌, codes, str_eq, str_eq_iff, split, Any, Result, ok, err,
  >>=-ok, checked-ok, ◌≡◌, inl, inr, refl, arith, Bool-cases,
}
use fbs_core.Metadata.Model.{User}
use fbs_core.Auth.Principal.{Principal, Error, malformed_token, invalid_credentials, inactive_user}
use fbs_core.Auth.Bearer.{found_user, found_user-ok}
use fbs_core.Auth.SigV4.Clock.{Instant, stamp_text, parse_timestamp, validate_timestamp}
use fbs_core.Auth.SigV4.Request.{Request, header_get}
use fbs_core.Auth.SigV4.Canonical.{get_payload_hash, build_canonical_request}
use fbs_core.Auth.SigV4.Header.{
  Authorization, Credential, parse_authorization_header, validate_signed_headers, parse_credential,
  names_host,
}
use fbs_core.Auth.SigV4.Verify.{
  Services, or_error, signed_principal, raw_date, expected_signature, checked, authenticate_header,
}

pub or_error-ok :
    {A : Type 0} (e : Error) (r : Result Unit A) (a : A) → or_error e r ≡ ok a → r ≡ ok a
or_error-ok e (ok x) a h = ground arith
or_error-ok e (err _) a h = cc

names_host-Any : (l : List Bytes) → names_host l ≡ true → Any (λ h. h ≡ codes "host") l
names_host-Any [] h = cc
names_host-Any (x ∷ l) h = elim (Bool-cases (str_eq x (codes "host"))) [
  | inl here ↦ inl ((str_eq_iff x (codes "host")).0 here)
  | inr other ↦ inr (names_host-Any l (ground (arith, other)))
]

-- The list of signed headers names the host.
abbrev pub SignsHost : Bytes → Type 0
SignsHost s = Any (λ h. h ≡ codes "host") (split b';' s)

pub validate_signed_headers-ok : (s : Bytes) → validate_signed_headers s ≡ ok tt → SignsHost s
unfolding validate_signed_headers
validate_signed_headers-ok s h = names_host-Any (split b';' s) (ground (arith, h))

module _ {E : Type 0} (services : Services E) where
  pub checked-ok_lem :
      (user : User) (same : Bool) (p q : Principal)
      → checked services user same p ≡ ok q
      → (user.is_active ≡ true) × (same ≡ true) × (q ≡ p)
  checked-ok_lem user same p q h =
      let (live, rest) = checked-ok (not user.is_active) inactive_user _ h in
      let (right, end) = checked-ok (not same) invalid_credentials (ok p) rest in
      (ground (arith, live), ground (arith, right), ground (arith, end))

  -- A request accepted by its header carries a well-formed Authorization whose signed headers name
  -- the host, and a date that passes validate_timestamp; the access key id is that of an active
  -- user, the signature is the one that the user's secret gives for this request, and the principal
  -- is that user, with the headers and the payload hash that were signed.
  pub authenticate_header-ok :
      (r : Request) (p : Principal)
      → authenticate_header services r ≡ ok p
      → (a : Authorization) × (c : Credential) × (t : Instant) × (user : User)
        × (parse_authorization_header (header_get (codes "Authorization") r) ≡ ok a)
        × SignsHost a.signed_headers
        × (parse_credential a.credential ≡ ok c)
        × (parse_timestamp services.rfc1123 (raw_date r) ≡ ok t)
        × (validate_timestamp services.rfc1123 (stamp_text t.civil) c.date (services.clock 0)
            ≡ ok tt)
        × (services.get_by_sigv4_access_key_id c.access_key_id ≡ ok user)
        × (user.is_active ≡ true)
        × (a.signature
            ≡ expected_signature services user c a.credential
                (stamp_text t.civil)
                (build_canonical_request r a.signed_headers (get_payload_hash r)))
        × (p ≡ signed_principal user a.signed_headers (get_payload_hash r))
  unfolding authenticate_header
  authenticate_header-ok r p h =
      let (a, parsed, h) = >>=-ok (or_error malformed_token (parse_authorization_header _)) _ h in
      let (_, named, h) =
        >>=-ok (or_error malformed_token (validate_signed_headers a.signed_headers)) _ h in
      let (c, credential, h) =
        >>=-ok (or_error malformed_token (parse_credential a.credential)) _ h in
      let (t, read, h) =
        >>=-ok (or_error malformed_token (parse_timestamp services.rfc1123 (raw_date r))) _ h in
      let (_, fresh, h) =
        >>=-ok
          (or_error invalid_credentials
            (validate_timestamp services.rfc1123 (stamp_text t.civil) c.date (services.clock 0)))
          _ h in
      let (user, found, h) =
        >>=-ok (found_user (services.get_by_sigv4_access_key_id c.access_key_id)) _ h in
      let (live, right, same) = checked-ok_lem user _ _ p h in
      (
        a,
        c,
        t,
        user,
        or_error-ok _ _ a parsed,
        validate_signed_headers-ok a.signed_headers (or_error-ok _ _ tt named),
        or_error-ok _ _ c credential,
        or_error-ok _ _ t read,
        or_error-ok _ _ tt fresh,
        found_user-ok _ user found,
        live,
        (str_eq_iff _ _).0 right,
        same,
      )

  -- The converse: a request that shows all this is accepted.
  pub ok-authenticate_header :
      (r : Request) (a : Authorization) (c : Credential) (t : Instant) (user : User)
      → parse_authorization_header (header_get (codes "Authorization") r) ≡ ok a
      → validate_signed_headers a.signed_headers ≡ ok tt
      → parse_credential a.credential ≡ ok c
      → parse_timestamp services.rfc1123 (raw_date r) ≡ ok t
      → validate_timestamp services.rfc1123 (stamp_text t.civil) c.date (services.clock 0) ≡ ok tt
      → services.get_by_sigv4_access_key_id c.access_key_id ≡ ok user
      → user.is_active ≡ true
      → a.signature
        ≡ expected_signature services user c a.credential
            (stamp_text t.civil)
            (build_canonical_request r a.signed_headers (get_payload_hash r))
      → authenticate_header services r
        ≡ ok (signed_principal user a.signed_headers (get_payload_hash r))
  unfolding authenticate_header
  ok-authenticate_header r a c t user parsed named credential read fresh found live same =
      rw (parsed, named, credential, read, fresh, found, live, (str_eq_iff _ _).1 same) refl
