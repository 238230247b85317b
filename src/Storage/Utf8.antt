-- ===== src/Storage/Utf8.antt =====
-- utf8.ValidString: the well-formed sequences of the Unicode standard (table 3-7).
use fbs_core.Base.{
  ℕ, zero, suc, ◌==◌, leb, Bool, true, false, ◌&&◌, ◌||◌, Bytes, [], ◌∷◌, if◌then◌else◌,
}

-- What may follow a first byte: the range of the next byte, and how many come after that one.
pub data Expect : Type 0 where
  start : Expect
  next : ℕ → ℕ → ℕ → Expect
  refused : Expect

abbrev within : ℕ → ℕ → ℕ → Bool
within low high c = leb low c && leb c high

unfoldable pub first_byte : ℕ → Expect
first_byte c =
    if leb c 127
    then start
    else if within 194 223 c
    then next 128 191 0
    else if c == 224
    then next 160 191 1
    else if within 225 236 c || within 238 239 c
    then next 128 191 1
    else if c == 237
    then next 128 159 1
    else if c == 240
    then next 144 191 2
    else if within 241 243 c
    then next 128 191 2
    else if c == 244
    then next 128 143 2
    else refused

abbrev pub after_byte : ℕ → Expect
after_byte zero = start
after_byte (suc more) = next 128 191 more

unfoldable pub step : Expect → ℕ → Expect
unfolding first_byte
step start c = first_byte c
step (next low high more) c = if within low high c then after_byte more else refused
step refused c = refused

abbrev is_start : Expect → Bool
is_start start = true
is_start (next low high more) = false
is_start refused = false

unfoldable pub valid_from : Expect → Bytes → Bool
unfolding step
valid_from state [] = is_start state
valid_from state (c ∷ s) = valid_from (step state c) s

unfoldable pub valid_string : Bytes → Bool
unfolding valid_from
valid_string s = valid_from start s
