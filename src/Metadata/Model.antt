-- ===== src/Metadata/Model.antt =====
-- The rows of internal/metadata: bucket.go, objects.go, multipart.go, user.go. A time is a number, 0
-- is the zero time.
-- An int64 that counts bytes is a number; a map is an association list, and `none` a nil map.
use fbs_core.Iam.{Role}
use fbs_core.Base.{ℕ, Bool, Bytes, List, Option}

abbrev pub Time : Type 0
Time = ℕ

pub record Bucket : Type 0 where
  pub name : Bytes
  pub owner_id : Bytes
  pub created_at : Time

pub record Object : Type 0 where
  pub id : Bytes
  pub bucket_name : Bytes
  pub key : Bytes
  pub size : ℕ
  pub etag : Bytes
  pub content_type : Bytes
  pub storage_path : Bytes
  pub created_at : Time
  pub updated_at : Time
  pub is_multipart : Bool
  pub parts_count : ℕ
  pub checksum_crc32 : Bytes
  pub checksum_crc32c : Bytes
  pub checksum_crc64nvme : Bytes
  pub checksum_sha1 : Bytes
  pub checksum_sha256 : Bytes
  pub user_metadata : Option (List (Bytes × Bytes))

-- multipart.go: a status is a string; `unknown` is any other than the three that are declared.
pub data MultipartUploadStatus : Type 0 where
  active completing aborted : MultipartUploadStatus
  unknown : Bytes → MultipartUploadStatus

pub record MultipartUpload : Type 0 where
  pub id : Bytes
  pub bucket_name : Bytes
  pub key : Bytes
  pub content_type : Bytes
  pub checksum_algorithm : Bytes
  pub status : MultipartUploadStatus
  pub created_at : Time
  pub status_updated_at : Time
  pub user_metadata : Option (List (Bytes × Bytes))

pub record MultipartPart : Type 0 where
  pub upload_id : Bytes
  pub part_number : ℕ
  pub size : ℕ
  pub etag : Bytes
  pub storage_path : Bytes
  pub created_at : Time
  pub checksum_crc32 : Bytes
  pub checksum_crc32c : Bytes
  pub checksum_crc64nvme : Bytes
  pub checksum_sha1 : Bytes
  pub checksum_sha256 : Bytes

-- user.go; the secrets are empty where the repository leaves them out.
pub record User : Type 0 where
  pub id : Bytes
  pub display_name : Bytes
  pub access_key_id : Bytes
  pub secret_hash : Bytes
  pub sigv4_access_key_id : Bytes
  pub sigv4_secret_key : Bytes
  pub role : Role
  pub is_active : Bool
  pub created_at : Time
  pub updated_at : Time

-- The tables that the writes of objects and uploads touch.
pub record Tables : Type 0 where
  pub buckets : List Bucket
  pub objects : List Object
  pub uploads : List MultipartUpload
  pub parts : List MultipartPart

-- The errors that the repositories name, and a broken constraint of the schema.
pub data Error : Type 0 where
  object_not_found bucket_not_found precondition_failed : Error
  multipart_upload_not_found upload_already_claimed invalid_status : Error
  bucket_has_multipart_uploads constraint_failed : Error
