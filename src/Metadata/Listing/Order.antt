-- ===== src/Metadata/Listing/Order.antt =====
-- The order of keys, and what sorting by it does.
use fbs_core.Base.{
  ◌==◌, Bool, true, false, Bytes, List, [], ◌∷◌, select, str_ltb, str_ltb_trans, All, if◌then◌else◌,
  ◌≡◌, ◌≢◌, refl, arith, Bool-cases, inl, inr,
}
use fbs_core.Metadata.Model.{Object}
use fbs_core.Metadata.Listing.{insert_by_key, order_by_key}

pub str_ltb_irrefl : (a : Bytes) → str_ltb a a ≡ false
unfolding str_ltb
str_ltb_irrefl [] = refl
str_ltb_irrefl (x ∷ a) = ground (arith, str_ltb_irrefl a)

pub str_ltb_connex : (a b : Bytes) → str_ltb a b ≡ false → a ≢ b → str_ltb b a ≡ true
unfolding str_ltb
str_ltb_connex [] [] h d = absurd (d refl)
str_ltb_connex [] (y ∷ b) h d = cc
str_ltb_connex (x ∷ a) [] h d = refl
str_ltb_connex (x ∷ a) (y ∷ b) h d = elim (Bool-cases (x == y)) [
  | inl e ↦
      let same : x ≡ y = ground (arith, e) in
      ground (arith, e, str_ltb_connex a b (ground arith) (λ q. d (cc (same, q))))
  | inr e ↦ ground (arith, e)
]

-- Every key is smaller than those after it.
abbrev pub Above : Bytes → List Object → Type 0
Above k l = All (λ o. str_ltb k o.key ≡ true) l

abbrev pub IsSorted : List Object → Type 0
IsSorted [] = Unit
IsSorted (x ∷ rest) = Above x.key rest × IsSorted rest

abbrev pub Apart : Bytes → List Object → Type 0
Apart k l = All (λ o. k ≢ o.key) l

abbrev pub DistinctKeys : List Object → Type 0
DistinctKeys [] = Unit
DistinctKeys (x ∷ rest) = Apart x.key rest × DistinctKeys rest

module _ {κ} (P : Object → Type κ) where
  insert-All : (o : Object) (l : List Object) → P o → All P l → All P (insert_by_key o l)
  unfolding insert_by_key
  insert-All o [] p h = (p, tt)
  insert-All o (x ∷ l) p (here, h) = elim (Bool-cases (str_ltb o.key x.key)) [
    | inl e ↦ rw e (p, (here, h))
    | inr e ↦ rw e (here, insert-All o l p h)
  ]

  pub order-All : (l : List Object) → All P l → All P (order_by_key l)
  unfolding order_by_key
  order-All [] h = tt
  order-All (o ∷ l) (here, h) = insert-All o (order_by_key l) here (order-All l h)

pub Above-trans : (a b : Bytes) (l : List Object) → str_ltb a b ≡ true → Above b l → Above a l
Above-trans a b [] h up = tt
Above-trans a b (x ∷ l) h (here, up) = (str_ltb_trans a b x.key h here, Above-trans a b l h up)

insert-IsSorted :
    (o : Object) (l : List Object) → Apart o.key l → IsSorted l → IsSorted (insert_by_key o l)
unfolding insert_by_key
insert-IsSorted o [] d h = (tt, tt)
insert-IsSorted o (x ∷ l) (differs, d) (up, h) = elim (Bool-cases (str_ltb o.key x.key)) [
  | inl e ↦ rw e ((e, Above-trans o.key x.key l e up), (up, h))
  | inr e ↦ rw e (
    insert-All (λ y. str_ltb x.key y.key ≡ true) o l (str_ltb_connex o.key x.key e differs) up,
    insert-IsSorted o l d h,
  )
]

pub order-IsSorted : (l : List Object) → DistinctKeys l → IsSorted (order_by_key l)
unfolding order_by_key
order-IsSorted [] d = tt
order-IsSorted (o ∷ l) (apart, d) =
    insert-IsSorted o (order_by_key l) (order-All (λ y. o.key ≢ y.key) l apart) (order-IsSorted l d)

insert_below : (o : Object) (l : List Object) → Above o.key l → insert_by_key o l ≡ o ∷ l
unfolding insert_by_key
insert_below o [] up = refl
insert_below o (x ∷ l) (here, up) = rw here refl

module _ (p : Object → Bool) where
  select-All {κ} : (P : Object → Type κ) (l : List Object) → All P l → All P (select p l)
  select-All P [] h = tt
  select-All P (x ∷ l) (here, h) = elim (Bool-cases (p x)) [
    | inl e ↦ rw e (here, select-All P l h)
    | inr e ↦ rw e (select-All P l h)
  ]

  select-insert :
      (o : Object) (l : List Object)
      → IsSorted l
      → select p (insert_by_key o l) ≡ (if p o then insert_by_key o (select p l) else select p l)
  unfolding insert_by_key
  select-insert o [] h = ground arith
  select-insert o (x ∷ l) (up, h) = elim (Bool-cases (str_ltb o.key x.key)) [
    | inl e ↦
        let above : Above o.key (x ∷ l) = (e, Above-trans o.key x.key l e up) in
        let first =
          insert_below o (select p (x ∷ l))
            (select-All (λ y. str_ltb o.key y.key ≡ true) (x ∷ l) above) in
        ground (arith, e, first)
    | inr e ↦ ground (arith, e, select-insert o l h)
  ]

  -- A test may be applied before or after the rows are sorted.
  pub order-select :
      (l : List Object) → DistinctKeys l → order_by_key (select p l) ≡ select p (order_by_key l)
  unfolding order_by_key
  order-select [] d = refl
  order-select (o ∷ l) (apart, d) =
      let after = order-select l d in
      let inserted = select-insert o (order_by_key l) (order-IsSorted l d) in
      ground (arith, after, inserted)
