-- ===== src/Base/Sort.antt =====
-- slices.Sort on strings, and what makes its result independent of the order that it is given.
use mathlib.Core.Path.{◌≡◌, refl, ◌∙◌, sym}
use mathlib.Core.Logic.{∥∥₁_elim}
use mathlib.Core.Bool.{true, false}
use mathlib.Core.List.{List, [], ◌∷◌, Perm, Permᴰ}
use native.Mathlib.Omega.{arith}
use fbs_core.Base.Bools.{if◌then◌else◌}
use fbs_core.Base.Text.{Bytes, str_ltb}

unfoldable pub insert : Bytes → List Bytes → List Bytes
unfolding str_ltb
insert a [] = a ∷ []
insert a (x ∷ l) = let after = insert a l in if str_ltb x a then x ∷ after else a ∷ x ∷ l

unfoldable pub sort : List Bytes → List Bytes
unfolding insert
sort [] = []
sort (a ∷ l) = insert a (sort l)

pub str_ltb_asymm : (a b : Bytes) → str_ltb a b ≡ true → str_ltb b a ≡ false
unfolding str_ltb
str_ltb_asymm [] [] h = refl
str_ltb_asymm [] (y ∷ b) h = refl
str_ltb_asymm (x ∷ a) [] h = cc
str_ltb_asymm (x ∷ a) (y ∷ b) h = ground (arith, str_ltb_asymm a b)

str_ltb_antisym : (a b : Bytes) → str_ltb a b ≡ false → str_ltb b a ≡ false → a ≡ b
unfolding str_ltb
str_ltb_antisym [] [] h k = refl
str_ltb_antisym [] (y ∷ b) h k = cc
str_ltb_antisym (x ∷ a) [] h k = cc
str_ltb_antisym (x ∷ a) (y ∷ b) h k = ground (arith, str_ltb_antisym a b)

pub str_ltb_trans : (a b c : Bytes) → str_ltb a b ≡ true → str_ltb b c ≡ true → str_ltb a c ≡ true
unfolding str_ltb
str_ltb_trans [] [] c h k = k
str_ltb_trans [] (y ∷ b) [] h k = cc
str_ltb_trans [] (y ∷ b) (z ∷ c) h k = refl
str_ltb_trans (x ∷ a) [] c h k = cc
str_ltb_trans (x ∷ a) (y ∷ b) [] h k = cc
str_ltb_trans (x ∷ a) (y ∷ b) (z ∷ c) h k = ground (arith, str_ltb_trans a b c)

insert_comm : (a b : Bytes) (l : List Bytes) → insert a (insert b l) ≡ insert b (insert a l)
unfolding insert
insert_comm a b [] = ground (arith, str_ltb_asymm a b, str_ltb_asymm b a, str_ltb_antisym a b)
insert_comm a b (x ∷ l) = ground (
  arith,
  insert_comm a b l,
  str_ltb_asymm a b,
  str_ltb_asymm b a,
  str_ltb_antisym a b,
  str_ltb_antisym a x,
  str_ltb_antisym b x,
  str_ltb_trans x a b,
  str_ltb_trans x b a,
)

sort-Permᴰ : {l m : List Bytes} → Permᴰ l m → sort l ≡ sort m
unfolding sort
sort-Permᴰ Permᴰ.nil = refl
sort-Permᴰ (Permᴰ.cons {l₂ = m} e d) = rw (e, sort-Permᴰ d) refl
sort-Permᴰ (Permᴰ.swap {a = a} {b = b} {l = l} e f) = rw (sym e, sym f) (insert_comm a b (sort l))
sort-Permᴰ (Permᴰ.trans d e) = sort-Permᴰ d ∙ sort-Permᴰ e

-- Whatever the order of the texts, sorting them gives the same list.
pub sort-Perm : (l m : List Bytes) → Perm l m → sort l ≡ sort m
sort-Perm l m h = ∥∥₁_elim h (hlevel) (λ d. sort-Permᴰ d)
