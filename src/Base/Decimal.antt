-- ===== src/Base/Decimal.antt =====
-- Decimal text: digits of a fixed width, as package time reads and writes them, and strconv.Atoi.
use Prim.Native.Nat.{ℕ, zero, suc, ◌+◌, ◌-◌, ◌*◌, ◌/◌, ◌%◌, ◌^◌, ◌<◌}
use mathlib.Core.Path.{◌≡◌}
use mathlib.Core.Bool.{Bool, ◌&&◌}
use mathlib.Core.List.{[], ◌∷◌}
use mathlib.Core.Option.{Option, none, some}
use native.Mathlib.Omega.{arith}
use fbs_core.Base.Bools.{ltb, leb, ◌==◌, if◌then◌else◌}
use fbs_core.Base.Text.{Bytes}
use fbs_core.Base.Ints.{ℤ, pos, negsuc}
use fbs_core.Base.Outcome.{Result, ok, err}

abbrev pub is_digit : ℕ → Bool
is_digit c = leb b'0' c && leb c b'9'

-- The next n bytes as digits after the ones read so far, and what is left.
abbrev pub take_digits : ℕ → ℕ → Bytes → Result Unit (ℕ × Bytes)
take_digits zero acc s = ok (acc, s)
take_digits (suc n) acc [] = err tt
take_digits (suc n) acc (c ∷ s) =
    if is_digit c then take_digits n (acc * 10 + (c - b'0')) s else err tt

abbrev pub digit : ℕ → ℕ
digit n = b'0' + n % 10

-- Two and four digits, with leading zeros.
abbrev pub two_digits : ℕ → Bytes → Bytes
two_digits n s = digit (n / 10) ∷ digit n ∷ s

abbrev pub four_digits : ℕ → Bytes → Bytes
four_digits n s = digit (n / 1000) ∷ digit (n / 100) ∷ digit (n / 10) ∷ digit n ∷ s

pub take_digits-two_digits :
    (n : ℕ) (s : Bytes) → n < 100 → take_digits 2 0 (two_digits n s) ≡ ok (n, s)
take_digits-two_digits n s h = ground arith

pub take_digits-four_digits :
    (n : ℕ) (s : Bytes) → n < 10000 → take_digits 4 0 (four_digits n s) ≡ ok (n, s)
take_digits-four_digits n s h = ground arith

-- The text of a number: each round drops a digit, so the number is enough fuel.
decimal_from : ℕ → ℕ → Bytes → Bytes
decimal_from zero n s = digit n ∷ s
decimal_from (suc f) n s =
    let rest = decimal_from f (n / 10) (digit n ∷ s) in if ltb n 10 then digit n ∷ s else rest

unfoldable pub decimal : ℕ → Bytes
unfolding decimal_from
decimal n = decimal_from n n []

-- A text of digits only.
unfoldable pub number_from : ℕ → Bytes → Option ℕ
number_from acc [] = some acc
number_from acc (c ∷ s) = if is_digit c then number_from (acc * 10 + (c - b'0')) s else none

number : Bytes → Option ℕ
unfolding number_from
number [] = none
number (c ∷ s) = number_from 0 (c ∷ s)

positive : Option ℕ → Option ℤ
positive none = none
positive (some n) = if ltb n (2 ^ 63) then some (pos n) else none

negative : Option ℕ → Option ℤ
negative none = none
negative (some zero) = some (pos 0)
negative (some (suc n)) = if ltb n (2 ^ 63) then some (negsuc n) else none

-- strconv.Atoi on 64 bits: a sign, and then digits whose number fits.
unfoldable pub atoi : Bytes → Option ℤ
unfolding number positive negative
atoi [] = none
atoi (c ∷ s) =
    if c == b'-'
    then negative (number s)
    else if c == b'+'
    then positive (number s)
    else positive (number (c ∷ s))
