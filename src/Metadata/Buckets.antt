-- ===== src/Metadata/Buckets.antt =====
-- internal/metadata/bucket_cleanup.go: a bucket is deleted with its objects in one transaction. The
-- rows of other tables that refer to the bucket are not part of the model.
pub mod Deletion
pub mod Rows
pub mod Owner
mod Tests
use fbs_core.Base.{
  Bool, true, false, not, Bytes, List, [], ◌∷◌, select, str_eq, if◌then◌else◌, Result, ok, err,
}
use fbs_core.Metadata.Model.{
  Bucket, Object, MultipartUpload, Tables, Error, bucket_not_found, bucket_has_multipart_uploads,
}
use fbs_core.Metadata.Objects.{delete_bucket_rows}
use fbs_core.Metadata.Multipart.{has_bucket}

-- `SELECT EXISTS(SELECT 1 FROM multipart_uploads WHERE bucket_name = ?)`
unfoldable pub has_upload : Bytes → List MultipartUpload → Bool
has_upload name [] = false
has_upload name (u ∷ rest) = if str_eq u.bucket_name name then true else has_upload name rest

abbrev pub in_bucket : Bytes → Object → Bool
in_bucket name o = str_eq o.bucket_name name

-- `DELETE FROM buckets WHERE name = ?`
unfoldable pub delete_bucket_row : Bytes → List Bucket → List Bucket
delete_bucket_row name [] = []
delete_bucket_row name (b ∷ rest) =
    let kept = delete_bucket_row name rest in if str_eq b.name name then kept else b ∷ kept

-- The objects that deleteBucketObjects returns are those that it removes.
unfoldable pub delete_with_objects : Tables → Bytes → Result Error (List Object × Tables)
delete_with_objects t name =
    if has_upload name t.uploads
    then err bucket_has_multipart_uploads
    else if not (has_bucket name t.buckets)
    then err bucket_not_found
    else ok (
      select (in_bucket name) t.objects,
      record t {
        objects = delete_bucket_rows name t.objects;
        buckets = delete_bucket_row name t.buckets;
      },
    )
