-- ===== src/S3/Complete/Order.antt =====
-- normalizeCompletedParts: the order of the parts, and which entry of a number is kept.
use fbs_core.Base.{
  ℤ, int_eq, int_ltb, int_eq_iff, int_ltb_of_not, int_ltb_asymm, int_ltb_irrefl, int_ltb_trans,
  Bool, true, false, List, [], ◌∷◌, ◌++◌, Option, none, some, if◌then◌else◌, ok, ◌≡◌, inl, inr,
  refl, sym, ap, ◌∙◌, arith, Bool-cases, append-nil, append_assoc,
}
use fbs_core.S3.Complete.{
  CompletePart, put_unique, put_all, ascends_from, ascends, normalize_completed_parts,
}

-- The first entry of a number, and the last.
abbrev pub first_of : ℤ → List CompletePart → Option CompletePart
first_of n [] = none
first_of n (x ∷ rest) =
    let after = first_of n rest in if int_eq x.part_number n then some x else after

abbrev pub or_else : Option CompletePart → Option CompletePart → Option CompletePart
or_else none b = b
or_else (some a) b = some a

abbrev pub only : Bool → CompletePart → Option CompletePart
only true x = some x
only false x = none

abbrev pub last_of : ℤ → List CompletePart → Option CompletePart
last_of n [] = none
last_of n (x ∷ rest) = or_else (last_of n rest) (only (int_eq x.part_number n) x)

-- Each number is greater than the one before.
abbrev pub AscendingFrom : ℤ → List CompletePart → Type 0
AscendingFrom n [] = Unit
AscendingFrom n (x ∷ rest) = (int_ltb n x.part_number ≡ true) × AscendingFrom x.part_number rest

abbrev pub StrictlyAscending : List CompletePart → Type 0
StrictlyAscending [] = Unit
StrictlyAscending (x ∷ rest) = AscendingFrom x.part_number rest

abbrev Distinct : List CompletePart → Type 0
Distinct [] = Unit
Distinct (x ∷ rest) = (first_of x.part_number rest ≡ none) × Distinct rest

first-put_unique :
    (n : ℤ) (p : CompletePart) (l : List CompletePart)
    → first_of n (put_unique p l) ≡ (if int_eq p.part_number n then some p else first_of n l)
unfolding put_unique
first-put_unique n p [] = refl
first-put_unique n p (x ∷ l) = ground (
  arith,
  first-put_unique n p l,
  int_eq_iff x.part_number p.part_number,
  int_eq_iff x.part_number n,
  int_eq_iff p.part_number n,
)

put_unique-Distinct :
    (p : CompletePart) (l : List CompletePart) → Distinct l → Distinct (put_unique p l)
unfolding put_unique
put_unique-Distinct p [] h = (refl, h)
put_unique-Distinct p (x ∷ l) (fresh, rest) =
    elim (Bool-cases (int_eq x.part_number p.part_number)) [
      | inl e ↦
          let new : first_of p.part_number l ≡ none =
            ap (λ (n : ℤ). first_of n l) (sym ((int_eq_iff x.part_number p.part_number).0 e))
            ∙ fresh in
          rw e (new, rest)
      | inr e ↦
          let new : first_of x.part_number (put_unique p l) ≡ none = ground (
            arith,
            first-put_unique x.part_number p l,
            fresh,
            int_eq_iff x.part_number p.part_number,
            int_eq_iff p.part_number x.part_number,
          ) in
          rw e (new, put_unique-Distinct p l rest)
    ]

put_all-Distinct : (parts u : List CompletePart) → Distinct u → Distinct (put_all u parts)
unfolding put_all
put_all-Distinct [] u h = h
put_all-Distinct (p ∷ parts) u h =
    put_all-Distinct parts (put_unique p u) (put_unique-Distinct p u h)

or_else-only :
    (a r : Option CompletePart) (b : Bool) (p : CompletePart)
    → or_else a (if b then some p else r) ≡ or_else (or_else a (only b p)) r
or_else-only none r true p = refl
or_else-only none r false p = refl
or_else-only (some a) r b p = refl

first-put_all :
    (n : ℤ) (parts u : List CompletePart)
    → first_of n (put_all u parts) ≡ or_else (last_of n parts) (first_of n u)
unfolding put_all
first-put_all n [] u = refl
first-put_all n (p ∷ parts) u =
    first-put_all n parts (put_unique p u)
    ∙ ap (or_else (last_of n parts)) (first-put_unique n p u)
    ∙ or_else-only (last_of n parts) (first_of n u) (int_eq p.part_number n) p

or_else-none : (a : Option CompletePart) → or_else a none ≡ a
or_else-none none = refl
or_else-none (some a) = refl

ascends-AscendingFrom :
    (n : ℤ) (l : List CompletePart)
    → first_of n l ≡ none
    → Distinct l
    → ascends_from n l ≡ true
    → AscendingFrom n l
unfolding ascends_from
ascends-AscendingFrom n [] fresh d h = tt
ascends-AscendingFrom n (x ∷ l) fresh (new, d) h = (
  int_ltb_of_not n x.part_number (ground arith)
      (ground (arith, int_eq_iff n x.part_number, int_eq_iff x.part_number n)),
  ascends-AscendingFrom x.part_number l new d (ground arith),
)

ascends-StrictlyAscending :
    (l : List CompletePart) → Distinct l → ascends l ≡ true → StrictlyAscending l
unfolding ascends
ascends-StrictlyAscending [] d h = tt
ascends-StrictlyAscending (x ∷ l) (new, d) h = ascends-AscendingFrom x.part_number l new d h

normalized :
    (parts : List CompletePart) {unique : List CompletePart}
    → normalize_completed_parts parts ≡ ok unique
    → (ascends unique ≡ true) × (put_all [] parts ≡ unique)
unfolding normalize_completed_parts
normalized [] h = cc
normalized (p ∷ parts) h = ground arith

module _ (parts unique : List CompletePart) where
  -- A list of parts that is accepted is put in strictly ascending order of part number, and has for
  -- each number the last entry that the request has for it, and for no other number.
  pub normalize-ok :
      normalize_completed_parts parts ≡ ok unique
      → StrictlyAscending unique × ((n : ℤ) → first_of n unique ≡ last_of n parts)
  normalize-ok h =
      let (up, same) = normalized parts h in
      (
        ascends-StrictlyAscending unique (rw (← same) (put_all-Distinct parts [] tt)) up,
        λ n. ap (first_of n) (sym same) ∙ first-put_all n parts [] ∙ or_else-none (last_of n parts),
      )

-- The numbers of a strictly ascending list are all greater than what it starts from.
above :
    (n m : ℤ) (l : List CompletePart) → int_ltb n m ≡ true → AscendingFrom m l → first_of n l ≡ none
above n m [] h up = refl
above n m (x ∷ l) h (step, up) =
    let less = int_ltb_trans n m x.part_number h step in
    ground (
      arith,
      above n x.part_number l less up,
      int_ltb_irrefl n x.part_number less,
      int_eq_iff n x.part_number,
      int_eq_iff x.part_number n,
    )

above_start : (n : ℤ) (l : List CompletePart) → AscendingFrom n l → first_of n l ≡ none
above_start n [] up = refl
above_start n (x ∷ l) (step, up) = ground (
  arith,
  above n x.part_number l step up,
  int_ltb_irrefl n x.part_number step,
  int_eq_iff n x.part_number,
  int_eq_iff x.part_number n,
)

AscendingFrom-Distinct : (n : ℤ) (l : List CompletePart) → AscendingFrom n l → Distinct l
AscendingFrom-Distinct n [] up = tt
AscendingFrom-Distinct n (x ∷ l) (step, up) =
    (above_start x.part_number l up, AscendingFrom-Distinct x.part_number l up)

AscendingFrom-ascends :
    (n : ℤ) (l : List CompletePart) → AscendingFrom n l → ascends_from n l ≡ true
unfolding ascends_from
AscendingFrom-ascends n [] up = refl
AscendingFrom-ascends n (x ∷ l) (step, up) =
    ground (arith, AscendingFrom-ascends x.part_number l up, int_ltb_asymm n x.part_number step)

append-put_unique :
    (p : CompletePart) (l : List CompletePart)
    → first_of p.part_number l ≡ none
    → put_unique p l ≡ l ++ (p ∷ [])
unfolding put_unique
append-put_unique p [] h = refl
append-put_unique p (x ∷ l) h = ground (arith, append-put_unique p l)

-- In a list without repetition, an entry's number is not among those before it.
fresh_before :
    (u : List CompletePart) (p : CompletePart) (rest : List CompletePart)
    → Distinct (u ++ (p ∷ rest))
    → first_of p.part_number u ≡ none
fresh_before [] p rest d = refl
fresh_before (x ∷ u) p rest (new, d) = ground (
  arith,
  fresh_before u p rest d,
  found_after x.part_number u p rest,
  int_eq_iff x.part_number p.part_number,
  int_eq_iff p.part_number x.part_number,
)
  where
    found_after :
        (n : ℤ) (u : List CompletePart) (p : CompletePart) (rest : List CompletePart)
        → first_of n (u ++ (p ∷ rest)) ≡ none
        → int_eq p.part_number n ≡ false
    found_after n [] p rest h = ground arith
    found_after n (x ∷ u) p rest h = found_after n u p rest (ground arith)

put_all-Distinct_id :
    (u parts : List CompletePart) → Distinct (u ++ parts) → put_all u parts ≡ u ++ parts
unfolding put_all
put_all-Distinct_id u [] d = sym (append-nil u)
put_all-Distinct_id u (p ∷ parts) d =
    let step : put_unique p u ≡ u ++ (p ∷ []) = append-put_unique p u (fresh_before u p parts d) in
    let moved : (u ++ (p ∷ [])) ++ parts ≡ u ++ (p ∷ parts) = append_assoc u (p ∷ []) parts in
    ap (λ (l : List CompletePart). put_all l parts) step
    ∙ put_all-Distinct_id (u ++ (p ∷ [])) parts (rw moved d)
    ∙ moved

-- A request that names at least one part, in strictly ascending order, is taken as it is.
pub normalize_ascending :
    (p : CompletePart) (parts : List CompletePart)
    → StrictlyAscending (p ∷ parts)
    → normalize_completed_parts (p ∷ parts) ≡ ok (p ∷ parts)
unfolding normalize_completed_parts ascends
normalize_ascending p parts up =
    let distinct : Distinct (p ∷ parts) =
      (above_start p.part_number parts up, AscendingFrom-Distinct p.part_number parts up) in
    let all : put_all [] (p ∷ parts) ≡ p ∷ parts = put_all-Distinct_id [] (p ∷ parts) distinct in
    rw all (ground (arith, AscendingFrom-ascends p.part_number parts up))
