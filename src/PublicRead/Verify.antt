-- ===== src/PublicRead/Verify.antt =====
-- Which signed paths pass.
use fbs_core.Base.{
  ℕ, ◌==◌, true, not, ℤ, Bytes, length, Option, none, some, str_eq, str_eq_iff, trim_space, atoi,
  All, if◌then◌else◌, ok, err, >>=-ok, checked-ok, ◌≡◌, ◌↔◌, refl, arith,
}
use fbs_core.Auth.Secret.{IsByte, hex_decode, hex_decode-hex_encode}
use fbs_core.PublicRead.{
  malformed_signature, expired_signature, invalid_signature, canonical_string, before, expiry,
  signature_bytes, sign_path, verify,
}

expiry-ok : (o : Option ℤ) (e : ℤ) → expiry o ≡ ok e → o ≡ some e
expiry-ok none e h = cc
expiry-ok (some x) e h = ground (arith, h)

signature_bytes-ok :
    (o : Option Bytes) (got : Bytes)
    → signature_bytes o ≡ ok got
    → (o ≡ some got) × ((length got == 32) ≡ true)
signature_bytes-ok none got h = cc
signature_bytes-ok (some x) got h =
    let (long, same) = checked-ok (not (length x == 32)) malformed_signature (ok x) h in
    let here : x ≡ got = ground (arith, same) in rw (← here) (refl, ground (arith, long))

module _ (hmac_sha256 : Bytes → Bytes → Bytes) (secret : Bytes)
    (bytes : (key text : Bytes) → All IsByte (hmac_sha256 key text))
    (sized : (key text : Bytes) → (length (hmac_sha256 key text) == 32) ≡ true) where
  own_mac :
      (path : Bytes) (e : ℤ) (disposition : Bytes)
      → hex_decode (sign_path hmac_sha256 secret path e disposition)
        ≡ some (hmac_sha256 secret (canonical_string path e disposition))
  unfolding sign_path
  own_mac path e disposition =
      hex_decode-hex_encode (hmac_sha256 secret (canonical_string path e disposition)) (bytes _ _)

  -- If the MAC has 32 bytes, a signed path passes exactly when its expiry is a number of seconds whose
  -- time the clock has not reached, and its signature is the MAC, in hexadecimal, of the path, that expiry
  -- and the content disposition.
  pub verify_iff :
      (now : ℕ) (path expires_unix disposition signature_hex : Bytes)
      → (verify hmac_sha256 secret now path expires_unix disposition signature_hex ≡ ok tt) ↔ (
          (e : ℤ) × (atoi (trim_space expires_unix) ≡ some e)
          × (before now e ≡ true)
          × (hex_decode (trim_space signature_hex)
              ≡ some (hmac_sha256 secret (canonical_string path e disposition))))
  unfolding verify
  verify_iff now path expires_unix disposition signature_hex = (
    λ h.
        let (e, read, h) = >>=-ok (expiry (atoi (trim_space expires_unix))) _ h in
        let (early, h) = checked-ok (not (before now e)) expired_signature _ h in
        let (got, decoded, h) =
          >>=-ok (signature_bytes (hex_decode (trim_space signature_hex))) _ h in
        let mac = hmac_sha256 secret (canonical_string path e disposition) in
        let matched : (if not (str_eq got mac) then err invalid_signature else ok tt) ≡ ok tt =
          rw (own_mac path e disposition) at h in
        let (same, _) = checked-ok (not (str_eq got mac)) invalid_signature (ok tt) matched in
        let here : got ≡ mac = (str_eq_iff got mac).0 (ground (arith, same)) in
        let (there, _) = signature_bytes-ok (hex_decode (trim_space signature_hex)) got decoded in
        (e, expiry-ok _ e read, ground (arith, early), rw (← here) there),
    λ (e, read, early, given).
        let mac = hmac_sha256 secret (canonical_string path e disposition) in
        rw
          (
            read,
            early,
            given,
            sized secret (canonical_string path e disposition),
            own_mac path e disposition,
            (str_eq_iff mac mac).1 refl,
          )
          refl,
  )
