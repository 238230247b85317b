-- ===== src/Metadata/Objects/Unique.antt =====
-- The unique index on bucket and key of the objects.
use fbs_core.Base.{
  List, [], ◌∷◌, none, str_eq_iff, ◌≡◌, refl, arith, ap, sym, ◌∙◌, Bool-cases, inl, inr, Bytes,
}
use fbs_core.Metadata.Model.{Time, Object, Tables}
use fbs_core.Metadata.Objects.{is_at, find_object, upsert_row, upsert_object, with_times}
use fbs_core.Metadata.Objects.Conditional.{find-upsert_row}

-- No two rows have the same bucket and key.
abbrev pub IsUnique : List Object → Type 0
IsUnique [] = Unit
IsUnique (o ∷ rest) = (find_object o.bucket_name o.key rest ≡ none) × IsUnique rest

upsert_row-IsUnique : (o : Object) (l : List Object) → IsUnique l → IsUnique (upsert_row o l)
unfolding upsert_row
upsert_row-IsUnique o [] u = (unfold find_object in refl, tt)
upsert_row-IsUnique o (x ∷ l) (fresh, u) = elim (Bool-cases (is_at o.bucket_name o.key x)) [
  | inl e ↦
      let same : (x.bucket_name ≡ o.bucket_name) × (x.key ≡ o.key) =
        ground (arith, e, str_eq_iff x.bucket_name o.bucket_name, str_eq_iff x.key o.key) in
      let free : find_object o.bucket_name o.key l ≡ none =
        ap (λ (b : Bytes). find_object b o.key l) (sym same.0)
        ∙ ap (λ (k : Bytes). find_object x.bucket_name k l) (sym same.1)
        ∙ fresh in
      rw e (free, u)
  | inr e ↦
      let free : find_object x.bucket_name x.key (upsert_row o l) ≡ none = ground (
        arith,
        e,
        fresh,
        find-upsert_row o x.bucket_name x.key l,
        str_eq_iff x.bucket_name o.bucket_name,
        str_eq_iff o.bucket_name x.bucket_name,
        str_eq_iff x.key o.key,
        str_eq_iff o.key x.key,
      ) in
      rw e (free, upsert_row-IsUnique o l u)
]

-- A write keeps the bucket and key of the rows unique.
pub upsert_object-IsUnique :
    (t : Tables) (now : Time) (o : Object)
    → IsUnique t.objects
    → IsUnique (upsert_object t now o).objects
unfolding upsert_object
upsert_object-IsUnique t now o u = upsert_row-IsUnique (with_times now o) t.objects u
