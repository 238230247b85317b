-- ===== src/Auth/SigV4/Stamp.antt =====
-- A clock's text, read back.
use fbs_core.Base.{
  ℕ, ◌<◌, ltb, true, false, Bytes, length, Result, ok, take_digits-two_digits,
  take_digits-four_digits, ◌≡◌, refl, arith,
}
use fbs_core.Auth.SigV4.Clock.{
  Civil, Instant, stamp_text, valid_civil, parse_layout, parse_timestamp, at_utc, days_in,
}

-- A clock that shows whole seconds.
abbrev pub whole_seconds : Civil → Civil
whole_seconds c = record {
  year = c.year;
  month = c.month;
  day = c.day;
  hour = c.hour;
  minute = c.minute;
  second = c.second;
  nanosecond = 0;
}

-- What a clock may show.
abbrev pub IsClock : Civil → Type 0
IsClock c = (valid_civil c ≡ true) × (c.year < 10000) × (c.nanosecond < 1000000000)

days_in_small : (y m : ℕ) → days_in y m < 32
unfolding days_in
days_in_small y m = ground arith

clock_bounds :
    (c : Civil)
    → valid_civil c ≡ true
    → (c.month < 100) × (c.day < 100) × (c.hour < 100) × (c.minute < 100) × (c.second < 100)
unfolding valid_civil
clock_bounds c h = let small = days_in_small c.year c.month in ground arith

whole_seconds_valid : (c : Civil) → valid_civil c ≡ true → valid_civil (whole_seconds c) ≡ true
unfolding valid_civil
whole_seconds_valid c h = h

pub parse_layout-stamp_text :
    (c : Civil) → IsClock c → parse_layout false (stamp_text c) ≡ ok (at_utc (whole_seconds c))
unfolding parse_layout
parse_layout-stamp_text c (valid, early, _) =
    let (month, day, hour, minute, second) = clock_bounds c valid in
    let four : ltb c.year 10000 ≡ true = ground arith in
    rw
      (
        four,
        take_digits-four_digits c.year _ early,
        take_digits-two_digits c.month _ month,
        take_digits-two_digits c.day _ day,
        take_digits-two_digits c.hour _ hour,
        take_digits-two_digits c.minute _ minute,
        take_digits-two_digits c.second _ second,
        whole_seconds_valid c valid,
      )
      refl

module _ (rfc1123 : Bytes → Result Unit Instant) where
  -- The text of a clock that shows a year of four digits is read back as the same instant in UTC, to
  -- the second.
  pub parse_timestamp-stamp_text :
      (c : Civil)
      → IsClock c
      → parse_timestamp rfc1123 (stamp_text c) ≡ ok (at_utc (whole_seconds c))
  unfolding parse_timestamp
  parse_timestamp-stamp_text c (valid, early, nanos) =
      let four : ltb c.year 10000 ≡ true = ground arith in
      let same = parse_layout-stamp_text c (valid, early, nanos) in
      let long : length (stamp_text c) ≡ 16 = rw four refl in rw long same
