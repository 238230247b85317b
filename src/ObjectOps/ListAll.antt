-- ===== src/ObjectOps/ListAll.antt =====
-- ListAllObjects ends, and lists every object of the bucket once, in the order of the keys.
use fbs_core.Base.{
  ℕ, zero, suc, ◌-◌, ◌≤◌, ◌<◌, ◌==◌, ltb, ltb→lt, Bool, true, false, Bytes, List, [], ◌∷◌, ◌++◌,
  append_assoc, some, length, take, drop, select, Bool-cases, inl, inr, ◌≡◌, refl, ap, arith,
}
use fbs_core.Metadata.Model.{Object, Tables}
use fbs_core.Metadata.Objects.Unique.{IsUnique}
use fbs_core.Metadata.Listing.{matching, wanted, order_by_key, insert_by_key}
use fbs_core.Metadata.Listing.Pages.{last_key, list-pages}
use fbs_core.ObjectOps.{list_all_from, list_all_objects}

take-drop : (n : ℕ) (l : List Object) → take n l ++ drop n l ≡ l
take-drop zero l = refl
take-drop (suc n) [] = refl
take-drop (suc n) (x ∷ l) = ap (◌∷◌ x) (take-drop n l)

length-drop : (n : ℕ) (l : List Object) → length (drop n l) ≡ length l - n
length-drop zero l = omega arith
length-drop (suc n) [] = omega arith
length-drop (suc n) (x ∷ l) = omega (arith, length-drop n l)

take_all : (n : ℕ) (l : List Object) → ltb n (length l) ≡ false → take n l ≡ l
take_all zero [] h = refl
take_all zero (x ∷ l) h = absurd (ground arith)
take_all (suc n) [] h = refl
take_all (suc n) (x ∷ l) h = ap (◌∷◌ x) (take_all n l (ground arith))

length-take_full : (n : ℕ) (l : List Object) → ltb n (length l) ≡ true → length (take n l) ≡ n
length-take_full zero l h = refl
length-take_full (suc n) [] h = absurd (ground arith)
length-take_full (suc n) (x ∷ l) h = ap suc (length-take_full n l (ground arith))

module _ (j : ℕ) (t : Tables) (unique : IsUnique t.objects) (bucket_name : Bytes) where
  -- Each round takes a page off what is left.
  list_all_from-matching :
      (f : ℕ) (start : Bytes) (acc : List Object)
      → length (matching t bucket_name [] start) < f
      → list_all_from (suc j) f t bucket_name start acc
        ≡ some (acc ++ matching t bucket_name [] start)
  unfolding list_all_from
  list_all_from-matching zero start acc h = absurd (omega (arith, h))
  list_all_from-matching (suc f) start acc h =
      let full = matching t bucket_name [] start in
      let (listed, later) = list-pages t unique bucket_name [] start j in
      elim (Bool-cases (ltb (suc j) (length full))) [
        | inr last ↦ rw (listed, last, take_all (suc j) full last) refl
        | inl more ↦
            let size = length-take_full (suc j) full more in
            let some_rows : (length (take (suc j) full) == 0) ≡ false = ground (arith, size) in
            let rest = later more in
            let left : length (drop (suc j) full) < f =
              omega (arith, h, length-drop (suc j) full, ltb→lt (suc j) (length full) more) in
            let next =
              list_all_from-matching f (last_key (take (suc j) full)) (acc ++ take (suc j) full)
                (rw rest left) in
            rw (listed, more, some_rows, next, rest, append_assoc, take-drop (suc j) full) refl
      ]

length-insert : (o : Object) (l : List Object) → length (insert_by_key o l) ≡ suc (length l)
unfolding insert_by_key
length-insert o [] = refl
length-insert o (x ∷ l) = ground (arith, length-insert o l)

length-order : (l : List Object) → length (order_by_key l) ≡ length l
unfolding order_by_key
length-order [] = refl
length-order (o ∷ l) = omega (arith, length-order l, length-insert o (order_by_key l))

length-select : (p : Object → Bool) (l : List Object) → length (select p l) ≤ length l
length-select p [] = omega arith
length-select p (x ∷ l) = ground (arith, length-select p l)

-- With unique keys, the loop over the pages ends within a round for each object and one more, and
-- gives all objects of the bucket that have a key, in the order of their keys.
pub list_all_objects-matching :
    (t : Tables) (bucket_name : Bytes)
    → IsUnique t.objects
    → list_all_objects t bucket_name ≡ some (matching t bucket_name [] [])
unfolding list_all_objects
list_all_objects-matching t bucket_name unique =
    let few : length (matching t bucket_name [] []) < suc (length t.objects) =
      unfold matching in
      omega (
        arith,
        length-order (select (wanted bucket_name [] []) t.objects),
        length-select (wanted bucket_name [] []) t.objects,
      ) in
    list_all_from-matching 999 t unique bucket_name (suc (length t.objects)) [] [] few
