-- ===== src/Metadata/Multipart/Tests.antt =====
-- The transactions on uploads at concrete rows.
use fbs_core.Base.{
  ℕ, true, false, Bytes, codes, str_eq, if◌then◌else◌, [], ◌∷◌, none, some, ok, ◌≡◌, ◌≢◌, refl,
}
use fbs_core.Metadata.Model.{Object, active, completing, MultipartUpload, MultipartPart, Tables}
use fbs_core.Metadata.Objects.{
  find_object, load_object_version, check_write_preconditions, upsert_row, upsert_object,
  version_of,
}
use fbs_core.Metadata.Objects.Conditional.{MayWrite, current}
use fbs_core.Metadata.Multipart.{
  is_active, find_upload, set_status, claim_upload, is_part, find_part, path_of, upsert_part,
  with_part_time, add_part, delete_rows, delete_upload_rows, delete_part_rows,
  require_completing_upload, complete_upload,
}
use fbs_core.Metadata.Multipart.Claims.{status_at, claim_upload-ok}
use fbs_core.Metadata.Multipart.Parts.{names, Completed, add_part-ok, complete_upload-ok}

abbrev upload : MultipartUpload
upload = record {
  id = codes "u1";
  bucket_name = codes "media";
  key = codes "big";
  content_type = codes "text/plain";
  checksum_algorithm = [];
  status = active;
  created_at = 5;
  status_updated_at = 5;
  user_metadata = none;
}

abbrev part : MultipartPart
part = record {
  upload_id = codes "u1";
  part_number = 2;
  size = 10;
  etag = codes "e2";
  storage_path = codes "media/u1.2";
  created_at = 6;
  checksum_crc32 = [];
  checksum_crc32c = [];
  checksum_crc64nvme = [];
  checksum_sha1 = [];
  checksum_sha256 = [];
}

abbrev object : Object
object = record {
  id = codes "o1";
  bucket_name = codes "media";
  key = codes "big";
  size = 10;
  etag = codes "aa-1";
  content_type = codes "text/plain";
  storage_path = codes "media/big.1";
  created_at = 9;
  updated_at = 9;
  is_multipart = true;
  parts_count = 1;
  checksum_crc32 = [];
  checksum_crc32c = [];
  checksum_crc64nvme = [];
  checksum_sha1 = [];
  checksum_sha256 = [];
  user_metadata = none;
}

abbrev other_upload : MultipartUpload
other_upload = record upload { id = codes "u2" }

abbrev base : Tables
base = record { buckets = []; objects = []; uploads = upload ∷ other_upload ∷ []; parts = [] }

abbrev with_part : Tables
with_part = record base { parts = part ∷ [] }

abbrev claimed : Tables
claimed = record with_part {
  uploads = record upload { status = completing; status_updated_at = 8 } ∷ other_upload ∷ [];
}

abbrev part_of_other : MultipartPart
part_of_other = record part { upload_id = codes "u2" }

abbrev claimed_later : Tables
claimed_later = record claimed { parts = part ∷ part_of_other ∷ [] }

abbrev completed : Tables
completed = record base { uploads = other_upload ∷ []; objects = object ∷ [] }

part_added : add_part base 9 part ≡ ok ([], with_part)
unfolding add_part find_upload find_part upsert_part str_eq is_part
part_added = refl

upload_claimed : claim_upload with_part 8 (codes "u1") completing ≡ ok claimed
unfolding claim_upload find_upload set_status str_eq
upload_claimed = refl

upload_completed : complete_upload claimed 9 object (codes "u1") [] (codes "*") ≡ ok ([], completed)
unfolding complete_upload require_completing_upload find_upload load_object_version find_object
    check_write_preconditions upsert_object upsert_row delete_rows delete_upload_rows
    delete_part_rows str_eq
upload_completed = refl

claim_upload-ok_example :
    (status_at with_part (codes "u1") ≡ some active)
    × (status_at claimed (codes "u1") ≡ some completing)
    × (is_active completing ≡ false)
    × ((other : Bytes)
        → other ≢ codes "u1"
        → find_upload other claimed.uploads ≡ find_upload other with_part.uploads)
    × (claimed.parts ≡ with_part.parts)
claim_upload-ok_example = claim_upload-ok with_part claimed 8 (codes "u1") completing upload_claimed

add_part-ok_example :
    (status_at base (codes "u1") ≡ some active)
    × ([] ≡ path_of (find_part (codes "u1") 2 base.parts))
    × (with_part.uploads ≡ base.uploads)
    × ((id : Bytes) (n : ℕ)
        → find_part id n with_part.parts
          ≡ (if names id n part then some (with_part_time 9 part) else find_part id n base.parts))
add_part-ok_example = add_part-ok base with_part 9 part [] part_added

complete_upload-ok_example :
    (status_at claimed (codes "u1") ≡ some completing)
    × MayWrite (current claimed object) [] (codes "*")
    × ([] ≡ (version_of (current claimed object)).storage_path)
    × Completed claimed completed 9 object (codes "u1")
complete_upload-ok_example =
    complete_upload-ok claimed 9 object (codes "u1") [] (codes "*") [] completed upload_completed
