-- ===== src/Auth/SigV4/Query.antt =====
-- What a signed query that is accepted has shown.
use fbs_core.Base.{
  ℕ, ◌+◌, ◌≤◌, ltb, ◌==◌, true, not, ◌||◌, pos, negsuc, ℤ, codes, str_eq, str_eq_iff, atoi, Option,
  none, some, ok, >>=-ok, checked-ok, ◌≡◌, arith,
}
use fbs_core.Metadata.Model.{User}
use fbs_core.Auth.Principal.{Principal, malformed_token, invalid_credentials}
use fbs_core.Auth.Bearer.{found_user, found_user-ok}
use fbs_core.Auth.SigV4.Clock.{Instant, date_text, parse_timestamp, seconds, max_clock_skew}
use fbs_core.Auth.SigV4.Request.{Request, values_get}
use fbs_core.Auth.SigV4.Canonical.{algorithm, build_canonical_request_for_query}
use fbs_core.Auth.SigV4.Header.{Credential, validate_signed_headers, parse_credential}
use fbs_core.Auth.SigV4.Verify.{
  Services, or_error, signed_principal, valid_expiry, presigned, all_present, query_payload_hash,
  expected_signature, timely, authenticate_query,
}
use fbs_core.Auth.SigV4.Sound.{SignsHost, or_error-ok, validate_signed_headers-ok, checked-ok_lem}

module _ {E : Type 0} (services : Services E) where
  -- An expiry that is in force: within a week, and the bounds that it sets on the clock.
  abbrev pub InForce : Credential → Instant → ℕ → Type 0
  InForce c t n =
      (date_text t.civil ≡ c.date)
      × (1 ≤ n)
      × (n ≤ 604800)
      × ((services.clock 0).nanos ≤ t.nanos + seconds 604800)
      × (t.nanos ≤ (services.clock 1).nanos + max_clock_skew)
      × ((services.clock 2).nanos ≤ t.nanos + seconds n)

  valid_expiry-ok :
      (o : Option ℤ) (n : ℕ) → valid_expiry o ≡ ok n → (o ≡ some (pos n)) × (1 ≤ n) × (n ≤ 604800)
  valid_expiry-ok none n h = cc
  valid_expiry-ok (some (negsuc m)) n h = cc
  valid_expiry-ok (some (pos m)) n h =
      let (bad, same) = checked-ok (m == 0 || ltb 604800 m) malformed_token (ok m) h in
      let here : m ≡ n = ground (arith, same) in
      (ground (arith, here), ground (arith, bad, here), ground (arith, bad, here))

  timely-ok :
      (c : Credential) (t : Instant) (expires : Option ℤ) (n : ℕ)
      → timely services c t expires ≡ ok n
      → (expires ≡ some (pos n)) × InForce c t n
  timely-ok c t expires n h =
      let (dated, h) = checked-ok (not (str_eq (date_text t.civil) c.date)) _ _ h in
      let (old, h) = checked-ok (ltb (t.nanos + seconds 604800) (services.clock 0).nanos) _ _ h in
      let (early, h) = checked-ok (ltb ((services.clock 1).nanos + max_clock_skew) t.nanos) _ _ h in
      let (m, read, h) = >>=-ok (valid_expiry expires) _ h in
      let (late, same) =
        checked-ok (ltb (t.nanos + seconds m) (services.clock 2).nanos) invalid_credentials (ok m)
          h in
      let here : m ≡ n = ground (arith, same) in
      let (given, least, most) = valid_expiry-ok expires n (rw (← here) read) in
      (
        given,
        (
          (str_eq_iff _ _).0 (ground (arith, dated)),
          least,
          most,
          ground (arith, old),
          ground (arith, early),
          ground (arith, late, here),
        ),
      )

  -- A signed query that is accepted names the algorithm, signs the host, and has an expiry of 1 to
  -- 604800 seconds; its date is that of the credential, at most fifteen minutes after the clock,
  -- and the clock has passed neither the expiry nor seven days after the date. The access key id is
  -- that of an active user and the signature the one that the user's secret gives for this request.
  pub authenticate_query-ok :
      (r : Request) (p : Principal)
      → authenticate_query services r ≡ ok p
      → let q = presigned r in
        (c : Credential) × (t : Instant) × (n : ℕ) × (user : User) × (values_get
            (codes "X-Amz-Algorithm")
            r.query
          ≡ algorithm)
        × SignsHost q.signed_headers
        × (parse_credential q.credential ≡ ok c)
        × (parse_timestamp services.rfc1123 q.amz_date ≡ ok t)
        × (atoi q.expires ≡ some (pos n))
        × InForce c t n
        × (services.get_by_sigv4_access_key_id c.access_key_id ≡ ok user)
        × (user.is_active ≡ true)
        × (q.signature
            ≡ expected_signature services user c q.credential q.amz_date
                (build_canonical_request_for_query r q.signed_headers (query_payload_hash r)))
        × (p ≡ signed_principal user q.signed_headers (query_payload_hash r))
  unfolding authenticate_query
  authenticate_query-ok r p h =
      let q = presigned r in
      let (named, h) =
        checked-ok (not (str_eq (values_get (codes "X-Amz-Algorithm") r.query) algorithm)) _ _ h in
      let (full, h) = checked-ok (not (all_present q)) _ _ h in
      let (_, host, h) =
        >>=-ok (or_error malformed_token (validate_signed_headers q.signed_headers)) _ h in
      let (c, credential, h) =
        >>=-ok (or_error malformed_token (parse_credential q.credential)) _ h in
      let (t, read, h) =
        >>=-ok (or_error malformed_token (parse_timestamp services.rfc1123 q.amz_date)) _ h in
      let (n, timed, h) = >>=-ok (timely services c t (atoi q.expires)) _ h in
      let (user, found, h) =
        >>=-ok (found_user (services.get_by_sigv4_access_key_id c.access_key_id)) _ h in
      let (live, right, same) = checked-ok_lem services user _ _ p h in
      let (given, force) = timely-ok c t (atoi q.expires) n timed in
      (
        c,
        t,
        n,
        user,
        (str_eq_iff _ _).0 (ground (arith, named)),
        validate_signed_headers-ok q.signed_headers (or_error-ok _ _ tt host),
        or_error-ok _ _ c credential,
        or_error-ok _ _ t read,
        given,
        force,
        found_user-ok _ user found,
        live,
        (str_eq_iff _ _).0 right,
        same,
      )
