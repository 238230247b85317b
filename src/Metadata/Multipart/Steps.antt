-- ===== src/Metadata/Multipart/Steps.antt =====
-- The transactions that requests run on uploads, objects and buckets, beside a claim on an upload.
use fbs_core.Base.{false, Bytes, List, some, ok, ◌≡◌, ◌≢◌}
use fbs_core.Metadata.Model.{
  Bucket, Time, Object, MultipartUploadStatus, active, MultipartUpload, MultipartPart, Tables,
}
use fbs_core.Metadata.Objects.{upsert_object, replace, delete, delete_all_in_bucket}
use fbs_core.Metadata.Buckets.{delete_with_objects}
use fbs_core.Metadata.Multipart.{
  is_active, delete_rows, claim_upload, add_part, complete_upload, create, set_upload_status,
}
use fbs_core.Metadata.Multipart.Claims.{status_at}

-- The upload is claimed, or is no longer there.
abbrev pub Held : Tables → Bytes → Type 0
Held t id = status_at t id ≢ some active

-- A transaction of any request on objects, buckets and uploads that neither releases the claim on `id`
-- nor creates the upload anew. `buckets` stands for those that write only rows of buckets.
pub data Step (id : Bytes) : Tables → Tables → Type 0 where
  claims :
      (t t' : Tables) (now : Time) (other : Bytes) (status : MultipartUploadStatus)
      → claim_upload t now other status ≡ ok t'
      → Step id t t'
  adds :
      (t t' : Tables) (now : Time) (part : MultipartPart) (path : Bytes)
      → add_part t now part ≡ ok (path, t')
      → Step id t t'
  completes :
      (t t' : Tables) (now : Time) (obj : Object) (other m n path : Bytes)
      → complete_upload t now obj other m n ≡ ok (path, t')
      → Step id t t'
  deletes : (t : Tables) (other : Bytes) → Step id t (delete_rows t other)
  creates :
      (t t' : Tables) (now : Time) (u : MultipartUpload)
      → create t now u ≡ ok t'
      → u.id ≢ id
      → Step id t t'
  sets :
      (t t' : Tables) (now : Time) (other : Bytes) (status : MultipartUploadStatus)
      → set_upload_status t now other status ≡ ok t'
      → (other ≡ id → is_active status ≡ false)
      → Step id t t'
  writes : (t : Tables) (now : Time) (obj : Object) → Step id t (upsert_object t now obj)
  replaces :
      (t t' : Tables) (now : Time) (obj : Object) (m n path : Bytes)
      → replace t now obj m n ≡ ok (path, t')
      → Step id t t'
  removes :
      (t t' : Tables) (bucket_name key : Bytes) → delete t bucket_name key ≡ ok t' → Step id t t'
  empties : (t : Tables) (bucket_name : Bytes) → Step id t (delete_all_in_bucket t bucket_name)
  drops :
      (t t' : Tables) (name : Bytes) (objects : List Object)
      → delete_with_objects t name ≡ ok (objects, t')
      → Step id t t'
  buckets : (t : Tables) (l : List Bucket) → Step id t (record t { buckets = l })

pub data Steps (id : Bytes) : Tables → Tables → Type 0 where
  done : (t : Tables) → Steps id t t
  next : (t t' t'' : Tables) → Steps id t t' → Step id t' t'' → Steps id t t''
