-- ===== src/ObjectOps/Sound.antt =====
-- Puts, deletes and the emptying of a bucket leave every object its file.
use fbs_core.Base.{
  Option, Bool, true, false, Bytes, List, [], ◌∷◌, none, some, select, str_eq, str_eq_iff, All,
  Result, ok, ◌≡◌, refl, arith, Bool-cases, Option-cases, inl, inr,
}
use fbs_core.Metadata.Model.{Object}
use fbs_core.Metadata.Objects.{
  is_at, find_object, get_by_key, delete, delete_rows, delete_bucket_rows, delete_all_in_bucket,
}
use fbs_core.Metadata.Objects.Unique.{IsUnique}
use fbs_core.Metadata.Listing.{matching, wanted}
use fbs_core.Metadata.Listing.Order.{order-All}
use fbs_core.ObjectOps.{
  Failure, World, remove_file, delete_files, delete_all_files, delete_stored, delete_object,
  emptied, empty_bucket,
}
use fbs_core.ObjectOps.ListAll.{list_all_objects-matching}
use fbs_core.ObjectOps.Backed.{
  has_file, OtherFile, DistinctFiles, Backed, Backed-remove_file, delete_rows-All,
  delete_bucket_rows-All, delete_rows-DistinctFiles, delete_bucket_rows-DistinctFiles,
  delete_rows-OtherFile,
}

-- The rows have unique keys, each has a file, and no two the same.
abbrev pub IsSound : World → Type 0
IsSound w =
    Backed w.files w.tables.objects × DistinctFiles w.tables.objects × IsUnique w.tables.objects

absent-delete_rows :
    (b k c j : Bytes) (l : List Object)
    → find_object c j l ≡ none
    → find_object c j (delete_rows b k l) ≡ none
unfolding find_object delete_rows
absent-delete_rows b k c j [] h = refl
absent-delete_rows b k c j (x ∷ l) h = ground (arith, h, absent-delete_rows b k c j l)

absent-delete_bucket_rows :
    (b c j : Bytes) (l : List Object)
    → find_object c j l ≡ none
    → find_object c j (delete_bucket_rows b l) ≡ none
unfolding find_object delete_bucket_rows
absent-delete_bucket_rows b c j [] h = refl
absent-delete_bucket_rows b c j (x ∷ l) h = ground (arith, h, absent-delete_bucket_rows b c j l)

delete_rows-IsUnique : (b k : Bytes) (l : List Object) → IsUnique l → IsUnique (delete_rows b k l)
unfolding delete_rows
delete_rows-IsUnique b k [] u = tt
delete_rows-IsUnique b k (x ∷ l) (fresh, u) = elim (Bool-cases (is_at b k x)) [
  | inl e ↦ rw e (delete_rows-IsUnique b k l u)
  | inr e ↦ rw e (absent-delete_rows b k x.bucket_name x.key l fresh, delete_rows-IsUnique b k l u)
]

delete_bucket_rows-IsUnique :
    (b : Bytes) (l : List Object) → IsUnique l → IsUnique (delete_bucket_rows b l)
unfolding delete_bucket_rows
delete_bucket_rows-IsUnique b [] u = tt
delete_bucket_rows-IsUnique b (x ∷ l) (fresh, u) = elim (Bool-cases (str_eq x.bucket_name b)) [
  | inl e ↦ rw e (delete_bucket_rows-IsUnique b l u)
  | inr e ↦
      rw e
        (absent-delete_bucket_rows b x.bucket_name x.key l fresh, delete_bucket_rows-IsUnique b l u)
]

-- Deleting the file of an object that has no row any more.
delete_stored-IsSound :
    (engine : Option (Bytes → Bool)) (w : World) (o : Object)
    → IsSound w
    → All (OtherFile o.storage_path) w.tables.objects
    → IsSound (delete_stored engine w o).0
delete_stored-IsSound none w o sound others = sound
delete_stored-IsSound (some fails) w o (backed, distinct, unique) others =
    elim (Bool-cases (fails o.storage_path)) [
      | inl e ↦ rw e (backed, distinct, unique)
      | inr e ↦ rw e (
        Backed-remove_file o.storage_path w.files w.tables.objects backed others,
        distinct,
        unique,
      )
    ]

module _ (engine : Option (Bytes → Bool)) (w : World) (b : Bytes) where
  abbrev without : Bytes → World
  without k = record w { tables = record w.tables { objects = delete_rows b k w.tables.objects } }

  delete_object_found :
      (k : Bytes) (o : Object)
      → find_object b k w.tables.objects ≡ some o
      → delete_object engine w b k ≡ delete_stored engine (without k) o
  unfolding delete_object get_by_key delete
  delete_object_found k o found = rw (found, found) refl

  delete_object_absent :
      (k : Bytes)
      → find_object b k w.tables.objects ≡ none
      → delete_object engine w b k ≡ (w, ok none)
  unfolding delete_object get_by_key
  delete_object_absent k gone = rw gone refl

  pub delete_object-IsSound : (k : Bytes) → IsSound w → IsSound (delete_object engine w b k).0
  delete_object-IsSound k (backed, distinct, unique) =
      elim (Option-cases (find_object b k w.tables.objects)) [
        | inl gone ↦ rw (delete_object_absent k gone) (backed, distinct, unique)
        | inr (o, found) ↦
            let rest =
              delete_rows-All (λ x. has_file x.storage_path w.files ≡ true) b k w.tables.objects
                backed in
            rw (delete_object_found k o found) (
              delete_stored-IsSound engine (without k) o
                (
                  rest,
                  delete_rows-DistinctFiles b k w.tables.objects distinct,
                  delete_rows-IsUnique b k w.tables.objects unique,
                )
                (delete_rows-OtherFile b k w.tables.objects o found distinct))
      ]

-- What is left when the files of a list of objects are deleted.
delete_files-Backed :
    (fails : Bytes → Bool) (gone : List Object) (files : List Bytes) (l : List Object)
    → Backed files l
    → All (λ o. All (OtherFile o.storage_path) l) gone
    → Backed (delete_files fails gone files).0 l
delete_files-Backed fails [] files l b h = b
delete_files-Backed fails (o ∷ gone) files l b (here, h) =
    elim (Bool-cases (fails o.storage_path)) [
      | inl e ↦ rw e b
      | inr e ↦ rw e (
          delete_files-Backed fails gone (remove_file o.storage_path files) l
            (Backed-remove_file o.storage_path files l b here) h)
    ]

delete_all_files-Backed :
    (engine : Option (Bytes → Bool)) (gone : List Object) (files : List Bytes) (l : List Object)
    → Backed files l
    → All (λ o. All (OtherFile o.storage_path) l) gone
    → Backed (delete_all_files engine gone files).0 l
delete_all_files-Backed none gone files l b h = b
delete_all_files-Backed (some fails) gone files l b h = delete_files-Backed fails gone files l b h

-- The files of the objects of a bucket are not those of the rows that stay.
module _ (b : Bytes) where
  in_bucket-OtherFile :
      (path : Bytes) (l : List Object)
      → All (OtherFile path) l
      → All (λ o. str_eq path o.storage_path ≡ false) (select (wanted b [] []) l)
  in_bucket-OtherFile path [] h = tt
  in_bucket-OtherFile path (x ∷ l) (here, h) =
      let other : str_eq path x.storage_path ≡ false =
        ground (arith, here, str_eq_iff path x.storage_path, str_eq_iff x.storage_path path) in
      elim (Bool-cases (wanted b [] [] x)) [
        | inl e ↦ rw e (other, in_bucket-OtherFile path l h)
        | inr e ↦ rw e (in_bucket-OtherFile path l h)
      ]

  both :
      (x : Object) (kept l : List Object)
      → All (λ o. str_eq x.storage_path o.storage_path ≡ false) l
      → All (λ o. All (OtherFile o.storage_path) kept) l
      → All (λ o. All (OtherFile o.storage_path) (x ∷ kept)) l
  both x kept [] h k = tt
  both x kept (o ∷ l) (differs, h) (here, k) = ((differs, here), both x kept l h k)

  wanted_bucket : (x : Object) → wanted b [] [] x ≡ true → str_eq x.bucket_name b ≡ true
  unfolding wanted
  wanted_bucket x h = ground (arith, h)

  emptied-OtherFile :
      (l : List Object)
      → DistinctFiles l
      → All
          (λ o. All (OtherFile o.storage_path) (delete_bucket_rows b l))
          (select (wanted b [] []) l)
  unfolding delete_bucket_rows
  emptied-OtherFile [] d = tt
  emptied-OtherFile (x ∷ l) (here, d) =
      let rest = emptied-OtherFile l d in
      elim (Bool-cases (str_eq x.bucket_name b)) [
        | inl e ↦ elim (Bool-cases (wanted b [] [] x)) [
          | inl n ↦ rw (e, n) (delete_bucket_rows-All (OtherFile x.storage_path) b l here, rest)
          | inr n ↦ rw (e, n) rest
        ]
        | inr e ↦
            let out : wanted b [] [] x ≡ false = ground (arith, e, wanted_bucket x) in
            rw (e, out)
              (both x (delete_bucket_rows b l) (select (wanted b [] []) l)
                (in_bucket-OtherFile x.storage_path l here) rest)
      ]

module _ (engine : Option (Bytes → Bool)) (w : World) (b : Bytes) where
  -- EmptyBucket always gives a result on sound tables, and leaves the other objects their files.
  pub empty_bucket-IsSound :
      IsSound w
      → (after : World) × (answer : Result Failure (List Object)) × (empty_bucket engine w b
          ≡ some (after, answer))
        × IsSound after
        × (after.tables ≡ delete_all_in_bucket w.tables b)
  unfolding empty_bucket delete_all_in_bucket
  empty_bucket-IsSound (backed, distinct, unique) =
      let objects = matching w.tables b [] [] in
      let kept = delete_bucket_rows b w.tables.objects in
      let rest =
        delete_bucket_rows-All (λ x. has_file x.storage_path w.files ≡ true) b w.tables.objects
          backed in
      let apart : All (λ o. All (OtherFile o.storage_path) kept) objects =
        unfold matching in
        order-All (λ o. All (OtherFile o.storage_path) kept)
          (select (wanted b [] []) w.tables.objects)
          (emptied-OtherFile b w.tables.objects distinct) in
      (
        (emptied engine w b objects).0,
        (emptied engine w b objects).1,
        rw (list_all_objects-matching w.tables b unique) refl,
        (
          delete_all_files-Backed engine objects w.files kept rest apart,
          delete_bucket_rows-DistinctFiles b w.tables.objects distinct,
          delete_bucket_rows-IsUnique b w.tables.objects unique,
        ),
        refl,
      )
