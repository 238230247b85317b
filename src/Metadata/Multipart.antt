-- ===== src/Metadata/Multipart.antt =====
-- internal/metadata/multipart.go: the uploads, their parts and the claims on them. `now` is the
-- clock; each transaction is one function, which leaves the tables alone when it fails. Deleting an
-- upload deletes its parts (`ON DELETE CASCADE`, migrations/migration.go).
pub mod Claims
pub mod Parts
pub mod Steps
pub mod Frozen
mod Tests
use fbs_core.Base.{
  ℕ, ◌+◌, Bool, true, false, not, ◌&&◌, ◌||◌, Bytes, List, [], ◌∷◌, Option, none, some, length,
  take, ltb, leb, ◌==◌, str_eq, str_ltb, has_prefix, codes, if◌then◌else◌, Result, ok, err, ◌>>=◌,
}
use fbs_core.Metadata.Model.{
  Time, Bucket, Object, MultipartUploadStatus, active, completing, aborted, unknown,
  MultipartUpload, MultipartPart, Tables, Error, multipart_upload_not_found, upload_already_claimed,
  invalid_status, constraint_failed,
}
use fbs_core.Metadata.Objects.{
  load_object_version, check_write_preconditions, upsert_object, guarded,
}

abbrev pub valid_multipart_upload_status : MultipartUploadStatus → Bool
valid_multipart_upload_status active = true
valid_multipart_upload_status completing = true
valid_multipart_upload_status aborted = true
valid_multipart_upload_status (unknown s) = false

abbrev pub is_active : MultipartUploadStatus → Bool
is_active active = true
is_active completing = false
is_active aborted = false
is_active (unknown s) = false

abbrev pub is_completing : MultipartUploadStatus → Bool
is_completing active = false
is_completing completing = true
is_completing aborted = false
is_completing (unknown s) = false

-- `SELECT … FROM multipart_uploads WHERE id = ?`
unfoldable pub find_upload : Bytes → List MultipartUpload → Option MultipartUpload
find_upload id [] = none
find_upload id (u ∷ rest) = if str_eq u.id id then some u else find_upload id rest

abbrev pub found : Option MultipartUpload → Result Error MultipartUpload
found none = err multipart_upload_not_found
found (some u) = ok u

unfoldable pub get_by_id : Tables → Bytes → Result Error MultipartUpload
get_by_id t id = found (find_upload id t.uploads)

unfoldable pub has_bucket : Bytes → List Bucket → Bool
has_bucket name [] = false
has_bucket name (b ∷ rest) = if str_eq b.name name then true else has_bucket name rest

abbrev default_status : MultipartUploadStatus → MultipartUploadStatus
default_status active = active
default_status completing = completing
default_status aborted = aborted
default_status (unknown []) = active
default_status (unknown (c ∷ s)) = unknown (c ∷ s)

-- The defaults that Create fills in.
abbrev pub with_defaults : Time → MultipartUpload → MultipartUpload
with_defaults now u =
    let created = if u.created_at == 0 then now else u.created_at in
    record u {
      content_type =
          if str_eq u.content_type [] then codes "application/octet-stream" else u.content_type;
      status = default_status u.status;
      created_at = created;
      status_updated_at = if u.status_updated_at == 0 then created else u.status_updated_at;
    }

abbrev is_some : Option MultipartUpload → Bool
is_some none = false
is_some (some u) = true

-- The id is the primary key, and the bucket a foreign one.
unfoldable pub create : Tables → Time → MultipartUpload → Result Error Tables
unfolding find_upload has_bucket
create t now upload =
    let u = with_defaults now upload in
    if not (valid_multipart_upload_status u.status)
    then err invalid_status
    else if is_some (find_upload u.id t.uploads) || not (has_bucket u.bucket_name t.buckets)
    then err constraint_failed
    else ok (record t { uploads = u ∷ t.uploads })

unfoldable pub delete_upload_rows : Bytes → List MultipartUpload → List MultipartUpload
delete_upload_rows id [] = []
delete_upload_rows id (u ∷ rest) =
    let kept = delete_upload_rows id rest in if str_eq u.id id then kept else u ∷ kept

unfoldable pub delete_part_rows : Bytes → List MultipartPart → List MultipartPart
delete_part_rows upload_id [] = []
delete_part_rows upload_id (p ∷ rest) =
    let kept = delete_part_rows upload_id rest in
    if str_eq p.upload_id upload_id then kept else p ∷ kept

-- `DELETE FROM multipart_uploads WHERE id = ?`
unfoldable pub delete_rows : Tables → Bytes → Tables
unfolding delete_upload_rows delete_part_rows
delete_rows t id = record t {
  uploads = delete_upload_rows id t.uploads;
  parts = delete_part_rows id t.parts;
}

unfoldable pub delete : Tables → Bytes → Result Error Tables
unfolding find_upload delete_rows
delete t id = do u ← found (find_upload id t.uploads); ok (delete_rows t id)

-- `UPDATE multipart_uploads SET status = ?, status_updated_at = ? WHERE id = ?`
unfoldable pub set_status :
    Bytes → MultipartUploadStatus → Time → List MultipartUpload → List MultipartUpload
set_status id status now [] = []
set_status id status now (u ∷ rest) =
    let rows = set_status id status now rest in
    if str_eq u.id id
    then record u { status = status; status_updated_at = now } ∷ rows
    else u ∷ rows

-- A selected row must be active, or completing.
abbrev pub required : (MultipartUploadStatus → Bool) → Option MultipartUpload → Option Error
required test none = some multipart_upload_not_found
required test (some u) = if test u.status then none else some upload_already_claimed

unfoldable pub claim_upload : Tables → Time → Bytes → MultipartUploadStatus → Result Error Tables
unfolding find_upload set_status
claim_upload t now upload_id status =
    if not (valid_multipart_upload_status status) || is_active status
    then err invalid_status
    else guarded (required is_active (find_upload upload_id t.uploads))
        (record t { uploads = set_status upload_id status now t.uploads })

unfoldable pub set_upload_status :
    Tables → Time → Bytes → MultipartUploadStatus → Result Error Tables
unfolding find_upload set_status
set_upload_status t now upload_id status =
    if not (valid_multipart_upload_status status) then err invalid_status else do
      u ← found (find_upload upload_id t.uploads)
      ok (record t { uploads = set_status upload_id status now t.uploads })

unfoldable pub is_part : Bytes → ℕ → MultipartPart → Bool
is_part upload_id number p = str_eq p.upload_id upload_id && p.part_number == number

unfoldable pub find_part : Bytes → ℕ → List MultipartPart → Option MultipartPart
unfolding is_part
find_part upload_id number [] = none
find_part upload_id number (p ∷ rest) =
    if is_part upload_id number p then some p else find_part upload_id number rest

abbrev pub path_of : Option MultipartPart → Bytes
path_of none = []
path_of (some p) = p.storage_path

-- `INSERT … ON CONFLICT(upload_id, part_number) DO UPDATE`
unfoldable pub upsert_part : MultipartPart → List MultipartPart → List MultipartPart
unfolding is_part
upsert_part p [] = p ∷ []
upsert_part p (x ∷ rest) =
    if is_part p.upload_id p.part_number x then p ∷ rest else x ∷ upsert_part p rest

abbrev pub with_part_time : Time → MultipartPart → MultipartPart
with_part_time now p = record p { created_at = if p.created_at == 0 then now else p.created_at }

unfoldable pub add_part : Tables → Time → MultipartPart → Result Error (Bytes × Tables)
unfolding find_upload find_part upsert_part
add_part t now part =
    let old = path_of (find_part part.upload_id part.part_number t.parts) in
    guarded (required is_active (find_upload part.upload_id t.uploads))
      (old, record t { parts = upsert_part (with_part_time now part) t.parts })

-- requireCompletingUpload
unfoldable pub require_completing_upload : Tables → Bytes → Option Error
unfolding find_upload
require_completing_upload t upload_id = required is_completing (find_upload upload_id t.uploads)

unfoldable pub complete_upload :
    Tables → Time → Object → Bytes → Bytes → Bytes → Result Error (Bytes × Tables)
unfolding require_completing_upload load_object_version delete_rows upsert_object
complete_upload t now obj upload_id if_match if_none_match =
    let existing = load_object_version t obj.bucket_name obj.key in
    do
      held ← guarded (require_completing_upload t upload_id) t
      guarded (check_write_preconditions existing if_match if_none_match)
          (existing.storage_path, delete_rows (upsert_object held now obj) upload_id)
