-- ===== src/Metadata/Multipart/Parts.antt =====
-- What adding a part and completing an upload do to the tables.
use fbs_core.Base.{
  ℕ, Bool, ◌&&◌, ◌==◌, ==_iff, Bytes, List, [], ◌∷◌, none, some, str_eq, str_eq_iff, if◌then◌else◌,
  ok, >>=-ok, ◌≡◌, refl, sym, ap, ◌∙◌, arith,
}
use fbs_core.Metadata.Model.{
  Time, Object, active, completing, MultipartUpload, MultipartPart, Tables,
}
use fbs_core.Metadata.Objects.{
  is_at, find_object, with_times, version_of, upsert_object, load_object_version,
}
use fbs_core.Metadata.Objects.Conditional.{MayWrite, current, check_iff, find-upsert_row}
use fbs_core.Metadata.Multipart.{
  find_upload, delete_upload_rows, delete_part_rows, delete_rows, is_part, find_part, path_of,
  upsert_part, with_part_time, add_part, require_completing_upload, complete_upload,
}
use fbs_core.Metadata.Multipart.Claims.{status_at, guarded-ok, required-active, required-completing}

pub find-delete_upload_rows :
    (id other : Bytes) (l : List MultipartUpload)
    → find_upload other (delete_upload_rows id l)
      ≡ (if str_eq other id then none else find_upload other l)
unfolding find_upload delete_upload_rows
find-delete_upload_rows id other [] = ground arith
find-delete_upload_rows id other (u ∷ l) = ground (
  arith,
  find-delete_upload_rows id other l,
  str_eq_iff u.id id,
  str_eq_iff u.id other,
  str_eq_iff other id,
)

pub find-delete_part_rows :
    (id other : Bytes) (n : ℕ) (l : List MultipartPart)
    → find_part other n (delete_part_rows id l)
      ≡ (if str_eq other id then none else find_part other n l)
unfolding find_part delete_part_rows is_part
find-delete_part_rows id other n [] = ground arith
find-delete_part_rows id other n (p ∷ l) = ground (
  arith,
  find-delete_part_rows id other n l,
  str_eq_iff p.upload_id id,
  str_eq_iff p.upload_id other,
  str_eq_iff other id,
)

abbrev pub names : Bytes → ℕ → MultipartPart → Bool
names id n p = str_eq id p.upload_id && n == p.part_number

pub find-upsert_part :
    (p : MultipartPart) (id : Bytes) (n : ℕ) (l : List MultipartPart)
    → find_part id n (upsert_part p l) ≡ (if names id n p then some p else find_part id n l)
unfolding find_part upsert_part is_part
find-upsert_part p id n [] = ground (
  arith,
  str_eq_iff p.upload_id id,
  str_eq_iff id p.upload_id,
  ==_iff p.part_number n,
  ==_iff n p.part_number,
)
find-upsert_part p id n (x ∷ l) = ground (
  arith,
  find-upsert_part p id n l,
  str_eq_iff p.upload_id id,
  str_eq_iff id p.upload_id,
  str_eq_iff x.upload_id id,
  str_eq_iff x.upload_id p.upload_id,
  ==_iff p.part_number n,
  ==_iff n p.part_number,
  ==_iff x.part_number n,
  ==_iff x.part_number p.part_number,
)

-- A part that is added went to an active upload; it is now the part of its number, the path of the
-- one it replaced is returned, and no other part and no upload is changed.
pub add_part-ok :
    (t t' : Tables) (now : Time) (part : MultipartPart) (path : Bytes)
    → add_part t now part ≡ ok (path, t')
    → (status_at t part.upload_id ≡ some active)
      × (path ≡ path_of (find_part part.upload_id part.part_number t.parts))
      × (t'.uploads ≡ t.uploads)
      × ((id : Bytes) (n : ℕ)
          → find_part id n t'.parts
            ≡ (if names id n part then some (with_part_time now part) else find_part id n t.parts))
unfolding add_part
add_part-ok t t' now part path h =
    let (free, result) = guarded-ok _ _ (path, t') h in
    (
      required-active (find_upload part.upload_id t.uploads) free,
      ap (λ (r : Bytes × Tables). r.0) (sym result),
      ap (λ (r : Bytes × Tables). r.1.uploads) (sym result),
      λ id n.
          ap (λ (r : Bytes × Tables). find_part id n r.1.parts) (sym result)
          ∙ find-upsert_part (with_part_time now part) id n t.parts,
    )

-- The tables after a completed upload: the object is stored, the upload and its parts are gone, and
-- every other row, those of the buckets included, is as it was.
pub record Completed (t t' : Tables) (now : Time) (obj : Object) (id : Bytes) : Type 0 where
  pub stored :
      (b k : Bytes)
      → find_object b k t'.objects
        ≡ (if is_at b k obj then some (with_times now obj) else find_object b k t.objects)
  pub removed :
      (other : Bytes)
      → find_upload other t'.uploads
        ≡ (if str_eq other id then none else find_upload other t.uploads)
  pub cascaded :
      (other : Bytes) (n : ℕ)
      → find_part other n t'.parts ≡ (if str_eq other id then none else find_part other n t.parts)
  pub buckets_kept : t'.buckets ≡ t.buckets

finish : Tables → Time → Object → Bytes → Tables
finish t now obj id = delete_rows (upsert_object t now obj) id

finish-Completed :
    (t : Tables) (now : Time) (obj : Object) (id : Bytes)
    → Completed t (finish t now obj id) now obj id
unfolding finish delete_rows upsert_object
finish-Completed t now obj id = record {
  stored = λ b k. find-upsert_row (with_times now obj) b k t.objects;
  removed = λ other. find-delete_upload_rows id other t.uploads;
  cascaded = λ other n. find-delete_part_rows id other n t.parts;
  buckets_kept = refl;
}

module _ (t : Tables) (now : Time) (obj : Object) (id m n : Bytes) where
  -- A completion that succeeds held the claim and met its headers; it returns the path of the object
  -- it replaces, stores the new one, and removes the upload with its parts, and nothing else.
  pub complete_upload-ok :
      (path : Bytes) (t' : Tables)
      → complete_upload t now obj id m n ≡ ok (path, t')
      → (status_at t id ≡ some completing)
        × MayWrite (current t obj) m n
        × (path ≡ (version_of (current t obj)).storage_path)
        × Completed t t' now obj id
  unfolding complete_upload require_completing_upload load_object_version finish
  complete_upload-ok path t' h =
      let (held, claimed, rest) = >>=-ok _ _ h in
      let (mine, same) = guarded-ok _ _ held claimed in
      let (passed, result) = guarded-ok _ _ (path, t') rest in
      let after : finish t now obj id ≡ t' =
        ap (λ (x : Tables). finish x now obj id) same ∙ ap (λ (r : Bytes × Tables). r.1) result in
      (
        required-completing (find_upload id t.uploads) mine,
        (check_iff m n (current t obj)).0 passed,
        ap (λ (r : Bytes × Tables). r.0) (sym result),
        rw (← after) (finish-Completed t now obj id),
      )
