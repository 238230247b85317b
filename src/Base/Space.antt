-- ===== src/Base/Space.antt =====
-- strings.TrimSpace: white space is that of unicode.IsSpace, read from its UTF-8 bytes.
use Prim.Native.Nat.{ℕ, zero, suc}
use mathlib.Core.Bool.{Bool, true, false, ◌&&◌, ◌||◌}
use mathlib.Core.Path.{◌≡◌, refl}
use mathlib.Core.List.{List, [], ◌∷◌, ◌++◌, reverse, reverse_aux, reverse-reverse}
use native.Mathlib.Omega.{arith}
use fbs_core.Base.Bools.{leb, ◌==◌, if◌then◌else◌}
use fbs_core.Base.Lists.{length, drop}
use fbs_core.Base.Text.{Bytes, str_eq}

ascii_space : ℕ → Bool
ascii_space c = (leb 9 c && leb c 13) || c == 32

-- U+0085 and U+00A0
space_2 : ℕ → ℕ → Bool
space_2 a b = a == 0xC2 && (b == 0x85 || b == 0xA0)

-- U+1680, U+2000 to U+200A, U+2028, U+2029, U+202F, U+205F and U+3000
space_3 : ℕ → ℕ → ℕ → Bool
space_3 a b c =
    (a == 0xE1 && b == 0x9A && c == 0x80)
    || (a == 0xE2
        && b == 0x80
        && ((leb 0x80 c && leb c 0x8A) || c == 0xA8 || c == 0xA9 || c == 0xAF))
    || (a == 0xE2 && b == 0x81 && c == 0x9F)
    || (a == 0xE3 && b == 0x80 && c == 0x80)

-- The number of bytes of the white space character at the front, 0 if there is none. The flag
-- says that the text is read from its end.
leading_space : Bool → Bytes → ℕ
unfolding ascii_space space_2 space_3
leading_space back [] = 0
leading_space back (a ∷ []) = if ascii_space a then 1 else 0
leading_space back (a ∷ b ∷ []) =
    if ascii_space a then 1 else if (if back then space_2 b a else space_2 a b) then 2 else 0
leading_space back (a ∷ b ∷ c ∷ s) =
    if ascii_space a
    then 1
    else if (if back then space_2 b a else space_2 a b)
    then 2
    else if (if back then space_3 c b a else space_3 a b c)
    then 3
    else 0

-- Each round drops a character, so the length is enough fuel.
trim_front : ℕ → Bool → Bytes → Bytes
trim_front zero back s = s
trim_front (suc f) back s =
    let n = leading_space back s in
    let rest = trim_front f back (drop n s) in if n == 0 then s else rest

unfoldable pub trim_space : Bytes → Bytes
unfolding trim_front leading_space
trim_space s =
    let t = trim_front (length s) false s in reverse (trim_front (length t) true (reverse t))

-- `strings.TrimSpace(s) == ""`
unfoldable pub is_blank : Bytes → Bool
unfolding trim_space str_eq
is_blank s = str_eq (trim_space s) []

-- The text up to the next white space, and what is left.
take_field : Bytes → Bytes × Bytes
unfolding leading_space
take_field [] = ([], [])
take_field (c ∷ s) =
    let rest = take_field s in
    if leading_space false (c ∷ s) == 0 then (c ∷ rest.0, rest.1) else ([], c ∷ s)

-- Each round drops a character, so the length is enough fuel.
fields_from : ℕ → Bytes → List Bytes
unfolding trim_front take_field
fields_from zero s = []
fields_from (suc f) s =
    let field = take_field (trim_front (length s) false s) in
    let rest = fields_from f field.1 in if str_eq field.0 [] then [] else field.0 ∷ rest

-- strings.Fields(s)
unfoldable pub fields : Bytes → List Bytes
unfolding fields_from
fields s = fields_from (length s) s

-- Every byte passes a test.
abbrev pub every : (ℕ → Bool) → Bytes → Bool
every p [] = true
every p (c ∷ s) = p c && every p s

pub every-append :
    (p : ℕ → Bool) (s t : Bytes) → every p s ≡ true → every p t ≡ true → every p (s ++ t) ≡ true
every-append p [] t h k = k
every-append p (c ∷ s) t h k = ground (arith, every-append p s t)

every-reverse_aux :
    (p : ℕ → Bool) (s t : Bytes)
    → every p s ≡ true
    → every p t ≡ true
    → every p (reverse_aux s t) ≡ true
every-reverse_aux p [] t h k = k
every-reverse_aux p (c ∷ s) t h k =
    every-reverse_aux p s (c ∷ t) (ground (arith, h)) (ground (arith, h, k))

-- The printable ASCII characters but the blank.
abbrev pub is_graphic : ℕ → Bool
is_graphic c = leb 33 c && leb c 126

leading_space-every :
    (back : Bool) (s : Bytes) → every is_graphic s ≡ true → leading_space back s ≡ 0
unfolding leading_space ascii_space space_2 space_3
leading_space-every back [] h = refl
leading_space-every back (a ∷ []) h = ground (arith, h)
leading_space-every back (a ∷ b ∷ []) h = ground (arith, h)
leading_space-every back (a ∷ b ∷ c ∷ s) h = ground (arith, h)

trim_front-every :
    (f : ℕ) (back : Bool) (s : Bytes) → every is_graphic s ≡ true → trim_front f back s ≡ s
unfolding trim_front
trim_front-every zero back s h = refl
trim_front-every (suc f) back s h = rw (leading_space-every back s h) refl

-- A text without blanks is trimmed already, and a blank in front of it is trimmed off.
pub trim_space-every : (s : Bytes) → every is_graphic s ≡ true → trim_space s ≡ s
unfolding trim_space
trim_space-every s h =
    let back = every-reverse_aux is_graphic s [] h refl in
    rw (trim_front-every (length s) false s h, trim_front-every (length s) true (reverse s) back)
      (reverse-reverse s)

leading_space-blank : (s : Bytes) → leading_space false (32 ∷ s) ≡ 1
unfolding leading_space ascii_space
leading_space-blank [] = refl
leading_space-blank (b ∷ []) = refl
leading_space-blank (b ∷ c ∷ s) = refl

pub trim_space-blank : (s : Bytes) → every is_graphic s ≡ true → trim_space (32 ∷ s) ≡ s
unfolding trim_space trim_front
trim_space-blank s h =
    let back = every-reverse_aux is_graphic s [] h refl in
    rw
      (
        leading_space-blank s,
        trim_front-every (length s) false s h,
        trim_front-every (length s) true (reverse s) back,
      )
      (reverse-reverse s)
