-- ===== src/Metadata/Objects/Conditional.antt =====
-- Conditional writes of objects.
use fbs_core.Base.{
  true, Bytes, List, [], ◌∷◌, Option, none, some, str_eq, str_eq_iff, codes, if◌then◌else◌, ok, err,
  ◌≡◌, ◌↔◌, ◌⊎◌, inl, inr, refl, sym, ap, ◌∙◌, arith, Bool-cases, false_of_not,
}
use fbs_core.Metadata.Model.{Time, Object, Tables, Error, precondition_failed}
use fbs_core.Metadata.Objects.{
  etags_equal, is_at, find_object, load_object_version, check_write_preconditions, with_times,
  version_of, guarded, upsert_row, upsert_object, replace,
}

pub find-upsert_row :
    (o : Object) (b k : Bytes) (l : List Object)
    → find_object b k (upsert_row o l) ≡ (if is_at b k o then some o else find_object b k l)
unfolding find_object upsert_row
find-upsert_row o b k [] = refl
find-upsert_row o b k (x ∷ l) = ground (
  arith,
  find-upsert_row o b k l,
  str_eq_iff x.bucket_name o.bucket_name,
  str_eq_iff x.key o.key,
  str_eq_iff x.bucket_name b,
  str_eq_iff x.key k,
  str_eq_iff o.bucket_name b,
  str_eq_iff o.key k,
)

-- What a write replaces: the row of its key.
abbrev pub current : Tables → Object → Option Object
current t o = find_object o.bucket_name o.key t.objects

-- When the headers let a write through: with no row there may be no If-Match; a row must match an
-- If-Match, and must not match an If-None-Match. `*` matches every row.
abbrev pub Matches : Bytes → Bytes → Type 0
Matches condition etag = (condition ≡ codes "*") ⊎ (etags_equal condition etag ≡ true)

abbrev pub MayWrite : Option Object → Bytes → Bytes → Type 0
MayWrite none if_match if_none_match = if_match ≡ []
MayWrite (some o) if_match if_none_match =
    ((if_match ≡ []) ⊎ Matches if_match o.etag)
    × ((if_none_match ≡ []) ⊎ (¬ Matches if_none_match o.etag))

module _ (m n : Bytes) where
  check_absent : check_write_preconditions (version_of none) m n ≡ none → m ≡ []
  unfolding check_write_preconditions
  check_absent h = ground (arith, str_eq_iff m [])

  check_absent_passes : m ≡ [] → check_write_preconditions (version_of none) m n ≡ none
  unfolding check_write_preconditions
  check_absent_passes h = ground (arith, str_eq_iff m [])

  module _ (o : Object) where
    check_present_match :
        check_write_preconditions (version_of (some o)) m n ≡ none → (m ≡ []) ⊎ Matches m o.etag
    unfolding check_write_preconditions
    check_present_match h = ground (arith, str_eq_iff m [], str_eq_iff m (codes "*"))

    check_present_none_match :
        check_write_preconditions (version_of (some o)) m n ≡ none → (n ≡ []) ⊎ (¬ Matches n o.etag)
    unfolding check_write_preconditions
    check_present_none_match h = elim (Bool-cases (str_eq n [])) [
      | inl e ↦ inl ((str_eq_iff n []).0 e)
      | inr e ↦ inr (λ x. ground (arith, x, str_eq_iff n (codes "*")))
    ]

    check_present_passes :
        MayWrite (some o) m n → check_write_preconditions (version_of (some o)) m n ≡ none
    unfolding check_write_preconditions
    check_present_passes (a, inl e) =
        unfold str_eq in
        ground (
          arith,
          a,
          str_eq_iff m [],
          str_eq_iff m (codes "*"),
          str_eq_iff n [],
          str_eq_iff n (codes "*"),
        )
    check_present_passes (a, inr x) = ground (
      arith,
      a,
      str_eq_iff m [],
      str_eq_iff m (codes "*"),
      false_of_not (str_eq n (codes "*")) (λ e. x (inl ((str_eq_iff n (codes "*")).0 e))),
      false_of_not (etags_equal n o.etag) (λ e. x (inr e)),
    )

  pub check_iff :
      (row : Option Object)
      → (check_write_preconditions (version_of row) m n ≡ none) ↔ MayWrite row m n
  check_iff none = (check_absent, check_absent_passes)
  check_iff (some o) =
      (λ h. (check_present_match o h, check_present_none_match o h), check_present_passes o)

guarded-eq-ok {ℓ} :
    {E A : Type ℓ} (x : Option E) (a b : A) → guarded x a ≡ ok b → (x ≡ none) × (a ≡ b)
guarded-eq-ok none a b h = (refl, ground arith)
guarded-eq-ok (some e) a b h = cc

module _ (t : Tables) (now : Time) (o : Object) (if_match if_none_match : Bytes) where
  -- A conditional write that succeeds met its headers; it stores the object, and returns the path
  -- of the version replaced, empty if there was none.
  pub replace-ok :
      (path : Bytes) (t' : Tables)
      → replace t now o if_match if_none_match ≡ ok (path, t')
      → MayWrite (current t o) if_match if_none_match
        × ((b k : Bytes)
            → find_object b k t'.objects
              ≡ (if is_at b k o then some (with_times now o) else find_object b k t.objects))
        × (path ≡ (version_of (current t o)).storage_path)
  unfolding replace upsert_object
  replace-ok path t' h =
      let (passed, result) = guarded-eq-ok _ _ (path, t') h in
      (
        (check_iff if_match if_none_match (current t o)).0 passed,
        λ b k.
            ap (λ (r : Bytes × Tables). find_object b k r.1.objects) (sym result)
            ∙ find-upsert_row (with_times now o) b k t.objects,
        ap (λ (r : Bytes × Tables). r.0) (sym result),
      )

  -- And every write that meets its headers succeeds.
  pub MayWrite-replace :
      MayWrite (current t o) if_match if_none_match
      → (path : Bytes) × (t' : Tables) × (replace t now o if_match if_none_match ≡ ok (path, t'))
  unfolding replace load_object_version
  MayWrite-replace h =
      let result : Bytes × Tables =
        ((version_of (current t o)).storage_path, upsert_object t now o) in
      (
        result.0,
        result.1,
        ap (λ (x : Option Error). guarded x result)
            ((check_iff if_match if_none_match (current t o)).1 h),
      )

-- Of the writes of one key that ask for a key not yet there (If-None-Match: *), only one succeeds.
pub replace_once :
    (t t' : Tables) (now now' : Time) (o o' : Object) (path : Bytes)
    → o.bucket_name ≡ o'.bucket_name
    → o.key ≡ o'.key
    → replace t now o [] (codes "*") ≡ ok (path, t')
    → replace t' now' o' [] (codes "*") ≡ err precondition_failed
unfolding replace check_write_preconditions load_object_version
replace_once t t' now now' o o' path eb ek h =
    let stored = (replace-ok t now o [] (codes "*") path t' h).1 o'.bucket_name o'.key in
    let found : find_object o'.bucket_name o'.key t'.objects ≡ some (with_times now o) =
      ground (arith, stored, str_eq_iff o.bucket_name o'.bucket_name, str_eq_iff o.key o'.key) in
    rw found (unfold str_eq in refl)

-- Of two writes that ask for the same version (If-Match), the second fails once the first has
-- stored an object whose ETag does not match.
pub replace_stale :
    (t t' : Tables) (now now' : Time) (o o' : Object) (tag path : Bytes)
    → o.bucket_name ≡ o'.bucket_name
    → o.key ≡ o'.key
    → ¬ ((tag ≡ []) ⊎ Matches tag o.etag)
    → replace t now o [] [] ≡ ok (path, t')
    → replace t' now' o' tag [] ≡ err precondition_failed
unfolding replace check_write_preconditions load_object_version
replace_stale t t' now now' o o' tag path eb ek differs h =
    let stored = (replace-ok t now o [] [] path t' h).1 o'.bucket_name o'.key in
    let found : find_object o'.bucket_name o'.key t'.objects ≡ some (with_times now o) =
      ground (arith, stored, str_eq_iff o.bucket_name o'.bucket_name, str_eq_iff o.key o'.key) in
    let not_empty = false_of_not (str_eq tag []) (λ e. differs (inl ((str_eq_iff tag []).0 e))) in
    let not_star =
      false_of_not (str_eq tag (codes "*"))
        (λ e. differs (inr (inl ((str_eq_iff tag (codes "*")).0 e)))) in
    let not_tag = false_of_not (etags_equal tag o.etag) (λ e. differs (inr (inr e))) in
    rw found (ground (arith, not_empty, not_star, not_tag))
