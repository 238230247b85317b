-- ===== src/Auth/SigV4/AnyOrder.antt =====
-- The canonical query does not depend on the order in which the map of parameters is walked.
use mathlib.Core.Logic.{∥∥₁_elim}
use mathlib.Core.List.{Perm, Permᴰ}
use fbs_core.Base.{
  Bool, true, false, not, Bytes, List, [], ◌∷◌, select, sort, sort-Perm, Bool-cases, inl, inr, ◌≡◌,
  refl, sym,
}
use fbs_core.Auth.SigV4.Canonical.{build_canonical_query_string, parameters}

unmoved : (l : List Bytes) → Permᴰ l l
unmoved [] = Permᴰ.nil
unmoved (x ∷ l) = Permᴰ.cons refl (unmoved l)

swapped :
    (p : Bytes → Bool) (a b : Bytes) (l : List Bytes)
    → Permᴰ (select p (a ∷ b ∷ l)) (select p (b ∷ a ∷ l))
swapped p a b l = elim (Bool-cases (p a)) [
  | inl x ↦ elim (Bool-cases (p b)) [
    | inl y ↦ rw (x, y) (Permᴰ.swap refl refl)
    | inr y ↦ rw (x, y) (unmoved (a ∷ select p l))
  ]
  | inr x ↦ elim (Bool-cases (p b)) [
    | inl y ↦ rw (x, y) (unmoved (b ∷ select p l))
    | inr y ↦ rw (x, y) (unmoved (select p l))
  ]
]

select-Permᴰ : (p : Bytes → Bool) {l m : List Bytes} → Permᴰ l m → Permᴰ (select p l) (select p m)
select-Permᴰ p Permᴰ.nil = Permᴰ.nil
select-Permᴰ p (Permᴰ.cons {a = a} {b = b} e d) = elim (Bool-cases (p a)) [
  | inl here ↦
      let there : p b ≡ true = rw (← e) here in rw (here, there) (Permᴰ.cons e (select-Permᴰ p d))
  | inr other ↦ let there : p b ≡ false = rw (← e) other in rw (other, there) (select-Permᴰ p d)
]
select-Permᴰ p (Permᴰ.swap {a = a} {b = b} {a' = a2} {b' = b2} {l = l} e f) =
    rw (sym e, sym f) (swapped p a b l)
select-Permᴰ p (Permᴰ.trans d e) = Permᴰ.trans (select-Permᴰ p d) (select-Permᴰ p e)

select-Perm : (p : Bytes → Bool) (l m : List Bytes) → Perm l m → Perm (select p l) (select p m)
select-Perm p l m h = ∥∥₁_elim h (hlevel) (λ d. ∣ select-Permᴰ p d ∣₁)

-- The values of each parameter, in any order.
abbrev pub SameValues : (Bytes → List Bytes) → (Bytes → List Bytes) → Type 0
SameValues values others = (k : Bytes) → Perm (values k) (others k)

module _ (values others : Bytes → List Bytes) (same : SameValues values others) where
  parameters-SameValues : (keys : List Bytes) → parameters values keys ≡ parameters others keys
  unfolding parameters
  parameters-SameValues [] = refl
  parameters-SameValues (k ∷ keys) =
      rw (sort-Perm (values k) (others k) (same k), parameters-SameValues keys) refl

  -- However the map of parameters is walked, and in whatever order the values of a parameter come,
  -- the canonical query is the same.
  pub build_canonical_query_string-Perm :
      (exclude : Bytes → Bool) (keys others_keys : List Bytes)
      → Perm keys others_keys
      → build_canonical_query_string exclude keys values
        ≡ build_canonical_query_string exclude others_keys others
  unfolding build_canonical_query_string
  build_canonical_query_string-Perm exclude keys others_keys h =
      rw
        (
          sort-Perm (select (λ k. not (exclude k)) keys) (select (λ k. not (exclude k)) others_keys)
              (select-Perm (λ k. not (exclude k)) keys others_keys h),
          parameters-SameValues (sort (select (λ k. not (exclude k)) others_keys)),
        )
        refl
