-- ===== src/Metadata/Buckets/Tests.antt =====
-- The deletion and the transfer of a concrete bucket.
use fbs_core.Base.{
  Bool, List, ◌||◌, some, true, false, [], ◌∷◌, codes, Bytes, str_eq, none, select, ok, err, ◌≡◌,
  refl,
}
use fbs_core.Metadata.Model.{Bucket, Object, Tables, bucket_not_found}
use fbs_core.Metadata.Objects.{delete_bucket_rows}
use fbs_core.Metadata.Multipart.{has_bucket}
use fbs_core.Metadata.Buckets.{has_upload, in_bucket, delete_bucket_row, delete_with_objects}
use fbs_core.Metadata.Buckets.Rows.{find_bucket, set_owner, update_owner}
use fbs_core.Metadata.Buckets.Owner.{update_owner-ok}
use fbs_core.Metadata.Buckets.Deletion.{Deleted, delete_with_objects-ok}

abbrev object_in : Bytes → Object
object_in bucket = record {
  id = bucket;
  bucket_name = bucket;
  key = codes "k";
  size = 1;
  etag = [];
  content_type = [];
  storage_path = [];
  created_at = 1;
  updated_at = 1;
  is_multipart = false;
  parts_count = 0;
  checksum_crc32 = [];
  checksum_crc32c = [];
  checksum_crc64nvme = [];
  checksum_sha1 = [];
  checksum_sha256 = [];
  user_metadata = none;
}

abbrev media : Bucket
media = record { name = codes "media"; owner_id = codes "u1"; created_at = 1 }

abbrev docs : Bucket
docs = record media { name = codes "docs" }

abbrev before : Tables
before = record {
  buckets = media ∷ docs ∷ [];
  objects = object_in (codes "media") ∷ object_in (codes "docs") ∷ [];
  uploads = [];
  parts = [];
}

abbrev after : Tables
after = record before { buckets = docs ∷ []; objects = object_in (codes "docs") ∷ [] }

media_deleted :
    delete_with_objects before (codes "media") ≡ ok (object_in (codes "media") ∷ [], after)
unfolding delete_with_objects has_upload has_bucket delete_bucket_rows delete_bucket_row str_eq
media_deleted = refl

unknown_bucket : delete_with_objects before (codes "tmp") ≡ err bucket_not_found
unfolding delete_with_objects has_upload has_bucket str_eq
unknown_bucket = refl

delete_with_objects-ok_example :
    (has_upload (codes "media") before.uploads ≡ false)
    × (has_bucket (codes "media") before.buckets ≡ true)
    × (object_in (codes "media") ∷ [] ≡ select (in_bucket (codes "media")) before.objects)
    × Deleted before after (codes "media")
delete_with_objects-ok_example =
    delete_with_objects-ok before after (codes "media") (object_in (codes "media") ∷ [])
      media_deleted

abbrev known : Bytes → Bool
known id = str_eq id (codes "u1") || str_eq id (codes "u2")

abbrev given_away : List Bucket
given_away = record media { owner_id = codes "u2" } ∷ docs ∷ []

transfer :
    update_owner known (codes "media") (codes "u2") (codes "u1") before.buckets ≡ ok given_away
unfolding update_owner find_bucket set_owner str_eq
transfer = refl

update_owner-ok_example :
    ((b : Bucket) × (find_bucket (codes "media") before.buckets ≡ some b)
      × (str_eq b.owner_id (codes "u1") ≡ true)
      × (find_bucket (codes "media") given_away ≡ some (record b { owner_id = codes "u2" })))
    × ((other : Bytes)
        → str_eq other (codes "media") ≡ false
        → find_bucket other given_away ≡ find_bucket other before.buckets)
    × ((next : Bytes)
        → update_owner known (codes "media") next (codes "u1") given_away ≡ err bucket_not_found)
unfolding str_eq
update_owner-ok_example =
    update_owner-ok known (codes "media") (codes "u2") (codes "u1") before.buckets given_away
      transfer refl
