-- ===== src/Metadata/Buckets/Deletion.antt =====
-- What is left when a bucket is deleted, and what is returned.
use fbs_core.Base.{
  true, false, not, Bytes, List, [], ◌∷◌, none, select, str_eq, str_eq_iff, if◌then◌else◌, ok, err,
  checked-ok, ◌≡◌, refl, sym, ap, arith,
}
use fbs_core.Metadata.Model.{Bucket, Object, Tables, bucket_not_found, bucket_has_multipart_uploads}
use fbs_core.Metadata.Objects.{find_object, delete_bucket_rows}
use fbs_core.Metadata.Multipart.{has_bucket}
use fbs_core.Metadata.Buckets.Rows.{find_bucket}
use fbs_core.Metadata.Buckets.{has_upload, in_bucket, delete_bucket_row, delete_with_objects}

find-delete_bucket_rows :
    (name b k : Bytes) (l : List Object)
    → find_object b k (delete_bucket_rows name l)
      ≡ (if str_eq b name then none else find_object b k l)
unfolding find_object delete_bucket_rows
find-delete_bucket_rows name b k [] = ground arith
find-delete_bucket_rows name b k (o ∷ l) = ground (
  arith,
  find-delete_bucket_rows name b k l,
  str_eq_iff o.bucket_name name,
  str_eq_iff o.bucket_name b,
  str_eq_iff b name,
)

find_bucket-delete_bucket_row :
    (name b : Bytes) (l : List Bucket)
    → find_bucket b (delete_bucket_row name l) ≡ (if str_eq b name then none else find_bucket b l)
unfolding find_bucket delete_bucket_row
find_bucket-delete_bucket_row name b [] = ground arith
find_bucket-delete_bucket_row name b (x ∷ l) = ground (
  arith,
  find_bucket-delete_bucket_row name b l,
  str_eq_iff x.name name,
  str_eq_iff x.name b,
  str_eq_iff b name,
)

-- The tables after the deletion of a bucket: it and its objects are gone, and every other row is as
-- it was.
pub record Deleted (t t' : Tables) (name : Bytes) : Type 0 where
  pub objects_gone :
      (b k : Bytes)
      → find_object b k t'.objects ≡ (if str_eq b name then none else find_object b k t.objects)
  pub bucket_gone :
      (b : Bytes)
      → find_bucket b t'.buckets ≡ (if str_eq b name then none else find_bucket b t.buckets)
  pub uploads_kept : t'.uploads ≡ t.uploads
  pub parts_kept : t'.parts ≡ t.parts

remaining : Tables → Bytes → Tables
remaining t name = record t {
  objects = delete_bucket_rows name t.objects;
  buckets = delete_bucket_row name t.buckets;
}

remaining-Deleted : (t : Tables) (name : Bytes) → Deleted t (remaining t name) name
unfolding remaining
remaining-Deleted t name = record {
  objects_gone = λ b k. find-delete_bucket_rows name b k t.objects;
  bucket_gone = λ b. find_bucket-delete_bucket_row name b t.buckets;
  uploads_kept = refl;
  parts_kept = refl;
}

-- A bucket that is deleted was there and had no multipart upload; exactly its objects are returned,
-- and it and they are gone, and nothing else.
pub delete_with_objects-ok :
    (t t' : Tables) (name : Bytes) (objects : List Object)
    → delete_with_objects t name ≡ ok (objects, t')
    → (has_upload name t.uploads ≡ false)
      × (has_bucket name t.buckets ≡ true)
      × (objects ≡ select (in_bucket name) t.objects)
      × Deleted t t' name
unfolding delete_with_objects remaining
delete_with_objects-ok t t' name objects h =
    let answer : List Object × Tables = (select (in_bucket name) t.objects, remaining t name) in
    let (free, rest) =
      checked-ok (has_upload name t.uploads) bucket_has_multipart_uploads
        (if not (has_bucket name t.buckets) then err bucket_not_found else ok answer) h in
    let (there, same) =
      checked-ok (not (has_bucket name t.buckets)) bucket_not_found (ok answer) rest in
    let result : answer ≡ (objects, t') = ground (arith, same) in
    let after : remaining t name ≡ t' = ap (λ (r : List Object × Tables). r.1) result in
    (
      free,
      ground (arith, there),
      ap (λ (r : List Object × Tables). r.0) (sym result),
      rw (← after) (remaining-Deleted t name),
    )
