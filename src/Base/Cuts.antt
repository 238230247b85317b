-- ===== src/Base/Cuts.antt =====
-- Splitting a text that was put together with a separator.
use Prim.Native.Nat.{ℕ}
use mathlib.Core.Path.{◌≡◌, refl, ap}
use mathlib.Core.Bool.{Bool, true, not, ◌&&◌}
use mathlib.Core.List.{List, [], ◌∷◌, ◌++◌}
use mathlib.Core.Option.{some}
use native.Mathlib.Omega.{arith}
use fbs_core.Base.Bools.{◌==◌}
use fbs_core.Base.Text.{Bytes, split, join, cut}
use fbs_core.Base.Space.{every}

abbrev pub is_not : ℕ → ℕ → Bool
is_not sep c = not (c == sep)

pub split-append :
    (sep : ℕ) (a b : Bytes)
    → every (is_not sep) a ≡ true
    → split sep (a ++ sep ∷ b) ≡ a ∷ split sep b
unfolding split
split-append sep [] b h = ground arith
split-append sep (c ∷ a) b h = ground (arith, h, split-append sep a b)

pub split-every : (sep : ℕ) (a : Bytes) → every (is_not sep) a ≡ true → split sep a ≡ a ∷ []
unfolding split
split-every sep [] h = refl
split-every sep (c ∷ a) h = ground (arith, h, split-every sep a)

pub cut-append :
    (sep : ℕ) (a b : Bytes) → every (is_not sep) a ≡ true → cut sep (a ++ sep ∷ b) ≡ some (a, b)
unfolding cut
cut-append sep [] b h = ground arith
cut-append sep (c ∷ a) b h = ground (arith, h, cut-append sep a b)

-- No part has the separator.
abbrev pub all_without : ℕ → List Bytes → Bool
all_without sep [] = true
all_without sep (p ∷ ps) = every (is_not sep) p && all_without sep ps

pub split-join :
    (sep : ℕ) (p : Bytes) (ps : List Bytes)
    → all_without sep (p ∷ ps) ≡ true
    → split sep (join (sep ∷ []) (p ∷ ps)) ≡ p ∷ ps
unfolding join
split-join sep p [] h = split-every sep p (ground arith)
split-join sep p (q ∷ ps) h =
    rw (split-append sep p (join (sep ∷ []) (q ∷ ps)) (ground arith))
      (ap (◌∷◌ p) (split-join sep q ps (ground arith)))
