-- ===== src/Auth/SigV4/Clock.antt =====
-- The times of internal/auth/sigv4.go: parseTimestamp and validateTimestamp, with the functions of
-- package time they call. The parser of the Date header (RFC 1123) is a parameter.
use fbs_core.Base.{
  ℕ, zero, suc, ◌+◌, ◌-◌, ◌*◌, ◌/◌, ◌%◌, ◌^◌, ltb, leb, ◌==◌, Bool, true, false, not, ◌&&◌, ◌||◌, ℤ,
  pos, negsuc, int_ltb, Bytes, [], ◌∷◌, length, str_eq, if◌then◌else◌, Result, ok, err, ◌>>=◌,
  take_digits, two_digits, four_digits, decimal, ◌++◌,
}

-- The date and the time of day that a clock shows.
pub record Civil : Type 0 where
  pub year : ℕ
  pub month : ℕ
  pub day : ℕ
  pub hour : ℕ
  pub minute : ℕ
  pub second : ℕ
  pub nanosecond : ℕ

-- time.Time: what it shows in its own zone, and the instant, in nanoseconds since the start of the
-- year -400.
pub record Instant : Type 0 where
  pub civil : Civil
  pub nanos : ℕ

unfoldable pub is_leap : ℕ → Bool
is_leap y = y % 4 == 0 && (not (y % 100 == 0) || y % 400 == 0)

unfoldable pub days_in : ℕ → ℕ → ℕ
unfolding is_leap
days_in y m =
    if m == 2
    then (if is_leap y then 29 else 28)
    else if m == 4 || m == 6 || m == 9 || m == 11
    then 30
    else 31

-- The days of the first m months.
months_days : ℕ → ℕ → ℕ
unfolding days_in
months_days y zero = 0
months_days y (suc m) = months_days y m + days_in y (suc m)

-- The days from the start of the year -400.
days_of : Civil → ℕ
unfolding months_days
days_of c =
    let y = c.year + 400 in
    y * 365
    + (y + 3) / 4
    - (y + 99) / 100
    + (y + 399) / 400
    + months_days c.year (c.month - 1)
    + (c.day - 1)

-- The instant of a clock that shows UTC.
unfoldable pub utc_nanos : Civil → ℕ
unfolding days_of
utc_nanos c =
    (((days_of c * 24 + c.hour) * 60 + c.minute) * 60 + c.second) * 1000000000 + c.nanosecond

abbrev pub at_utc : Civil → Instant
at_utc c = record { civil = c; nanos = utc_nanos c }

unfoldable pub valid_civil : Civil → Bool
unfolding days_in
valid_civil c =
    leb 1 c.month
    && leb c.month 12
    && leb 1 c.day
    && leb c.day (days_in c.year c.month)
    && ltb c.hour 24
    && ltb c.minute 60
    && ltb c.second 60

abbrev pub literal : ℕ → Bytes → Result Unit Bytes
literal c [] = err tt
literal c (x ∷ s) = if x == c then ok s else err tt

-- A fraction of three places; its digits may have a sign in front, as time.Parse reads them.
abbrev signed_millis : Bytes → Result Unit (ℕ × Bytes)
signed_millis [] = err tt
signed_millis (c ∷ s) =
    if c == b'+'
    then take_digits 2 0 s
    else if c == b'-'
    then (do ms ← take_digits 2 0 s; if ms.0 == 0 then ok ms else err tt)
    else take_digits 3 0 (c ∷ s)

abbrev millis : Bytes → Result Unit (ℕ × Bytes)
millis [] = err tt
millis (c ∷ s) = if c == b'.' || c == b',' then signed_millis s else err tt

abbrev pub fraction : Bool → Bytes → Result Unit (ℕ × Bytes)
fraction false s = ok (0, s)
fraction true s = millis s

abbrev pub ended : Civil → Bytes → Result Unit Instant
ended c [] = if valid_civil c then ok (at_utc c) else err tt
ended c (x ∷ s) = err tt

-- time.Parse with "20060102T150405Z", or with "20060102T150405.000Z".
unfoldable pub parse_layout : Bool → Bytes → Result Unit Instant
parse_layout with_fraction s = do
  y ← take_digits 4 0 s
  m ← take_digits 2 0 y.1
  d ← take_digits 2 0 m.1
  t ← literal b'T' d.1
  h ← take_digits 2 0 t
  mi ← take_digits 2 0 h.1
  sec ← take_digits 2 0 mi.1
  ms ← fraction with_fraction sec.1
  rest ← literal b'Z' ms.1
  ended
      (record {
        year = y.0;
        month = m.0;
        day = d.0;
        hour = h.0;
        minute = mi.0;
        second = sec.0;
        nanosecond = ms.0 * 1000000;
      })
      rest

-- Format("20060102")
abbrev pub year_text : ℕ → Bytes → Bytes
year_text y s = if ltb y 10000 then four_digits y s else decimal y ++ s

abbrev pub date_text : Civil → Bytes
date_text c = year_text c.year (two_digits c.month (two_digits c.day []))

-- Format("20060102T150405Z")
abbrev pub stamp_text : Civil → Bytes
stamp_text c = year_text c.year (
    two_digits c.month (
      two_digits c.day
        (b'T' ∷ two_digits c.hour (two_digits c.minute (two_digits c.second (b'Z' ∷ []))))))

-- An int64 number of nanoseconds; now.Sub(t) stops at its bounds.
unfoldable pub sub_time : ℕ → ℕ → ℤ
sub_time now t =
    if leb t now
    then (if ltb (now - t) (2 ^ 63) then pos (now - t) else pos (2 ^ 63 - 1))
    else if leb (t - now) (2 ^ 63)
    then negsuc (t - now - 1)
    else negsuc (2 ^ 63 - 1)

-- `if diff < 0 { diff = -diff }`: the least int64 is its own negative.
unfoldable pub absolute : ℤ → ℤ
absolute (pos n) = pos n
absolute (negsuc n) = if n == 2 ^ 63 - 1 then negsuc n else pos (n + 1)

abbrev pub minutes : ℕ → ℕ
minutes n = n * 60000000000

abbrev pub seconds : ℕ → ℕ
seconds n = n * 1000000000

abbrev pub max_clock_skew : ℕ
max_clock_skew = minutes 15

-- What is asked of the time that was read: the date of the credential, and a small distance.
abbrev pub in_window : Bytes → Instant → Instant → Result {0} Unit Unit
in_window cred_date now t =
    if not (str_eq (date_text t.civil) cred_date)
    then err tt
    else if int_ltb (pos max_clock_skew) (absolute (sub_time now.nanos t.nanos))
    then err tt
    else ok tt

module _ (rfc1123 : Bytes → Result Unit Instant) where
  unfoldable pub parse_timestamp : Bytes → Result Unit Instant
  unfolding parse_layout
  parse_timestamp s =
      if length s == 16
      then parse_layout false s
      else if length s == 20
      then parse_layout true s
      else rfc1123 s

  unfoldable pub validate_timestamp : Bytes → Bytes → Instant → Result {0} Unit Unit
  validate_timestamp amz_date cred_date now =
      if str_eq amz_date []
      then err tt
      else do t ← parse_timestamp amz_date; in_window cred_date now t
