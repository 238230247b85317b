-- ===== src/Auth/SigV4/Window.antt =====
-- Which timestamps the header of a signed request may carry.
use fbs_core.Base.{
  ℕ, ◌+◌, ◌^◌, ◌≤◌, false, not, pos, int_ltb, Bytes, [], str_eq, str_eq_iff, Result, ok, >>=-ok,
  checked-ok, ◌≡◌, ◌≢◌, ◌↔◌, ◌⊎◌, refl, arith,
}
use fbs_core.Auth.SigV4.Clock.{
  Instant, date_text, in_window, parse_timestamp, validate_timestamp, sub_time, absolute,
  max_clock_skew,
}

-- The two instants are at most fifteen minutes apart, or the second is 2^63 nanoseconds or more,
-- some 292 years, after the first.
abbrev pub IsNear : ℕ → ℕ → Type 0
IsNear now t = ((t ≤ now + max_clock_skew) × (now ≤ t + max_clock_skew)) ⊎ (now + 2 ^ 63 ≤ t)

absolute-sub_time_iff :
    (now t : ℕ) → (int_ltb (pos max_clock_skew) (absolute (sub_time now t)) ≡ false) ↔ IsNear now t
unfolding absolute sub_time
absolute-sub_time_iff now t = ground arith

in_window_iff :
    (cred_date : Bytes) (now t : Instant)
    → (in_window cred_date now t ≡ ok tt)
      ↔ ((date_text t.civil ≡ cred_date) × IsNear now.nanos t.nanos)
in_window_iff cred_date now t =
    let days = str_eq_iff (date_text t.civil) cred_date in
    let near = absolute-sub_time_iff now.nanos t.nanos in
    (
      λ h.
          let (same, rest) = checked-ok (not (str_eq (date_text t.civil) cred_date)) tt _ h in
          let (close, _) =
            checked-ok (int_ltb (pos max_clock_skew) (absolute (sub_time now.nanos t.nanos))) tt _
              rest in
          (days.0 (ground (arith, same)), near.0 close),
      λ (same, close). rw (days.1 same, near.1 close) refl,
    )

module _ (rfc1123 : Bytes → Result Unit Instant) where
  -- A timestamp passes exactly when it is there and is read as an instant of the credential's date
  -- that is at most fifteen minutes from now, or 2^63 nanoseconds (some 292 years) or more after now.
  pub validate_timestamp_iff :
      (amz_date cred_date : Bytes) (now : Instant)
      → (validate_timestamp rfc1123 amz_date cred_date now ≡ ok tt) ↔ (
          (amz_date ≢ [])
          × (t : Instant) × (parse_timestamp rfc1123 amz_date ≡ ok t)
          × (date_text t.civil ≡ cred_date)
          × IsNear now.nanos t.nanos)
  unfolding validate_timestamp
  validate_timestamp_iff amz_date cred_date now =
      let empty = str_eq_iff amz_date [] in
      (
        λ h.
            let (present, chain) = checked-ok (str_eq amz_date []) tt _ h in
            let (t, parsed, inside) = >>=-ok (parse_timestamp rfc1123 amz_date) _ chain in
            let (same, near) = (in_window_iff cred_date now t).0 inside in
            (λ e. ground (arith, present, empty.1 e), t, parsed, same, near),
        λ (present, t, parsed, same, near).
            let full : str_eq amz_date [] ≡ false = ground (arith, empty, present) in
            rw (full, parsed) ((in_window_iff cred_date now t).1 (same, near)),
      )
