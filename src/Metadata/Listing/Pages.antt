-- ===== src/Metadata/Listing/Pages.antt =====
-- Paging through the objects of a bucket.
use fbs_core.Base.{
  str_ltb_asymm, str_ltb_trans, ℕ, zero, suc, ◌+◌, ◌==◌, ◌<◌, ltb, Bool, true, false, Bytes, List,
  [], ◌∷◌, length, take, drop, select, str_eq_iff, str_ltb, All, none, ◌≡◌, refl, sym, ap, ◌∙◌,
  arith, Bool-cases, inl, inr,
}
use fbs_core.Metadata.Model.{Object, Tables}
use fbs_core.Metadata.Objects.{find_object}
use fbs_core.Metadata.Objects.Unique.{IsUnique}
use fbs_core.Metadata.Listing.{wanted, order_by_key, matching, list, page}
use fbs_core.Metadata.Listing.Order.{
  str_ltb_irrefl, Above, IsSorted, Apart, DistinctKeys, order-All, order-IsSorted, order-select,
}

abbrev pub last_key : List Object → Bytes
last_key [] = []
last_key (x ∷ []) = x.key
last_key (x ∷ y ∷ l) = last_key (y ∷ l)

last-Above :
    (k : Bytes) (y : Object) (l : List Object)
    → Above k (y ∷ l)
    → str_ltb k (last_key (y ∷ l)) ≡ true
last-Above k y [] (here, up) = here
last-Above k y (z ∷ l) (here, up) = last-Above k z l up

Above-take : (k : Bytes) (n : ℕ) (l : List Object) → Above k l → Above k (take n l)
Above-take k zero l up = tt
Above-take k (suc n) [] up = tt
Above-take k (suc n) (x ∷ l) (here, up) = (here, Above-take k n l up)

select_every : (p : Object → Bool) (l : List Object) → All (λ o. p o ≡ true) l → select p l ≡ l
select_every p [] h = refl
select_every p (x ∷ l) (here, h) = rw here (ap (◌∷◌ x) (select_every p l h))

-- What comes after the last key of a page of a sorted list is the rest of the list.
after-take :
    (j : ℕ) (l : List Object)
    → IsSorted l
    → j < length l
    → select (λ o. str_ltb (last_key (take (suc j) l)) o.key) l ≡ drop (suc j) l
after-take j [] h long = absurd (omega (arith, long))
after-take zero (x ∷ l) (up, h) long =
    rw (str_ltb_irrefl x.key) (select_every (λ o. str_ltb x.key o.key) l up)
after-take (suc j) (x ∷ []) h long = absurd (omega (arith, long))
after-take (suc j) (x ∷ y ∷ l) (up, h) long =
    let later = last-Above x.key y (take j l) (Above-take x.key (suc j) (y ∷ l) up) in
    rw (str_ltb_asymm x.key (last_key (y ∷ take j l)) later)
      (after-take j (y ∷ l) h (omega (arith, long)))

take-take : (n : ℕ) (l : List Object) → take n (take (suc n) l) ≡ take n l
take-take zero l = refl
take-take (suc n) [] = refl
take-take (suc n) (x ∷ l) = ap (◌∷◌ x) (take-take n l)

take_whole : (n : ℕ) (l : List Object) → ltb n (length l) ≡ false → take n l ≡ l
take_whole zero [] h = refl
take_whole zero (x ∷ l) h = absurd (ground arith)
take_whole (suc n) [] h = refl
take_whole (suc n) (x ∷ l) h = ap (◌∷◌ x) (take_whole n l (ground arith))

ltb-length-take : (n : ℕ) (l : List Object) → ltb n (length (take (suc n) l)) ≡ ltb n (length l)
ltb-length-take n [] = refl
ltb-length-take zero (x ∷ l) = ground arith
ltb-length-take (suc n) (x ∷ l) = ground (arith, ltb-length-take n l)

page-suc : (n : ℕ) (l : List Object) → page n (take (suc n) l) ≡ (take n l, ltb n (length l))
page-suc n l = elim (Bool-cases (ltb n (length l))) [
  | inl e ↦
      let more : ltb n (length (take (suc n) l)) ≡ true = ltb-length-take n l ∙ e in
      rw (more, e, take-take n l) refl
  | inr e ↦
      let last : ltb n (length (take (suc n) l)) ≡ false = ltb-length-take n l ∙ e in
      rw (last, e, take_whole n l e, take_whole (suc n) l (ground (arith, e))) refl
]

page-take : (n : ℕ) (l : List Object) → page n (take (n + 1) l) ≡ (take n l, ltb n (length l))
page-take n l =
    let next : n + 1 ≡ suc n = omega arith in ap (λ (k : ℕ). page n (take k l)) next ∙ page-suc n l

module _ (bucket prefix start : Bytes) where
  wanted-true :
      (o : Object)
      → wanted bucket prefix start o ≡ true
      → (o.bucket_name ≡ bucket) × (str_ltb start o.key ≡ true)
  unfolding wanted
  wanted-true o h = ground (arith, str_eq_iff o.bucket_name bucket)

  absent-Apart :
      (k : Bytes) (l : List Object)
      → find_object bucket k l ≡ none
      → Apart k (select (wanted bucket prefix start) l)
  unfolding find_object
  absent-Apart k [] h = tt
  absent-Apart k (x ∷ l) h =
      let rest : find_object bucket k l ≡ none = ground arith in
      elim (Bool-cases (wanted bucket prefix start x)) [
        | inl e ↦
            let here = (wanted-true x e).0 in
            rw e (
              λ same.
                  ground
                    (arith, h, here, same, str_eq_iff x.bucket_name bucket, str_eq_iff x.key k),
              absent-Apart k l rest,
            )
        | inr e ↦ rw e (absent-Apart k l rest)
      ]

  unique-DistinctKeys :
      (l : List Object) → IsUnique l → DistinctKeys (select (wanted bucket prefix start) l)
  unique-DistinctKeys [] u = tt
  unique-DistinctKeys (x ∷ l) (fresh, u) = elim (Bool-cases (wanted bucket prefix start x)) [
    | inl e ↦
        let here = (wanted-true x e).0 in
        let absent : find_object bucket x.key l ≡ none =
          ap (λ (b : Bytes). find_object b x.key l) (sym here) ∙ fresh in
        rw e (absent-Apart x.key l absent, unique-DistinctKeys l u)
    | inr e ↦ rw e (unique-DistinctKeys l u)
  ]

  select-Above : (l : List Object) → Above start (select (wanted bucket prefix start) l)
  select-Above [] = tt
  select-Above (x ∷ l) = elim (Bool-cases (wanted bucket prefix start x)) [
    | inl e ↦ rw e ((wanted-true x e).1, select-Above l)
    | inr e ↦ rw e (select-Above l)
  ]

  narrower :
      (next : Bytes) (l : List Object)
      → str_ltb start next ≡ true
      → select (wanted bucket prefix next) l
        ≡ select (λ o. str_ltb next o.key) (select (wanted bucket prefix start) l)
  unfolding wanted
  narrower next [] h = refl
  narrower next (x ∷ l) h = ground (arith, narrower next l h, str_ltb_trans start next x.key h)

module _ (t : Tables) (unique : IsUnique t.objects) (bucket prefix start : Bytes) where
  abbrev rows : List Object
  rows = select (wanted bucket prefix start) t.objects

  abbrev full : List Object
  full = matching t bucket prefix start

  full-IsSorted : IsSorted full
  unfolding matching
  full-IsSorted = order-IsSorted rows (unique-DistinctKeys bucket prefix start t.objects unique)

  full-Above : Above start full
  unfolding matching
  full-Above =
      order-All (λ o. str_ltb start o.key ≡ true) rows (select-Above bucket prefix start t.objects)

  matching-next :
      (next : Bytes)
      → str_ltb start next ≡ true
      → matching t bucket prefix next ≡ select (λ o. str_ltb next o.key) full
  unfolding matching
  matching-next next h =
      ap order_by_key (narrower bucket prefix start next t.objects h)
      ∙ order-select (λ o. str_ltb next o.key) rows
          (unique-DistinctKeys bucket prefix start t.objects unique)

  page-Above :
      (j : ℕ) (l : List Object)
      → Above start l
      → j < length l
      → str_ltb start (last_key (take (suc j) l)) ≡ true
  page-Above j [] up long = absurd (omega (arith, long))
  page-Above j (x ∷ l) (here, up) long =
      last-Above start x (take j l) (here, Above-take start j l up)

  -- With unique keys, a page of positive size has the first rows of the listing in order of key, says
  -- whether there are more, and if there are, what is listed after its last key is the rest.
  pub list-pages :
      (j : ℕ)
      → (list t bucket prefix start (suc j) ≡ (take (suc j) full, ltb (suc j) (length full)))
        × (ltb (suc j) (length full) ≡ true
            → matching t bucket prefix (last_key (take (suc j) full)) ≡ drop (suc j) full)
  unfolding list
  list-pages j =
      let asked : (suc j == 0) ≡ false = ground arith in
      (
        rw asked (page-take (suc j) full),
        λ more.
            let long : j < length full = ground (arith, more) in
            matching-next (last_key (take (suc j) full)) (page-Above j full full-Above long)
            ∙ after-take j full full-IsSorted long,
      )
