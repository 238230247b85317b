-- ===== src/ObjectOps/Put.antt =====
-- PutObject of internal/s3/object_handlers.go, from the checks to the answer. What the checksum
-- pipeline, the engine's Write and the guard of the bucket answer are arguments.
use fbs_core.Base.{
  ℕ, Bool, false, not, ◌&&◌, Bytes, List, [], ◌∷◌, Option, none, some, has_prefix, to_lower, drop,
  length, codes, trim_space, str_eq, if◌then◌else◌, Result, ok, err,
}
use fbs_core.Metadata.Model.{Time, Object, Tables, Error}
use fbs_core.Metadata.Objects.{replace}
use fbs_core.Auth.SigV4.Request.{Values, values_get}
use fbs_core.ObjectOps.{World, remove_file}

pub data DigestError : Type 0 where
  invalid_digest other_digest_error : DigestError

pub data WriteError : Type 0 where
  invalid_key path_traversal other_write_error : WriteError

-- The answer, with the ETag of what was stored.
pub data PutAnswer : Type 0 where
  invalid_request denied bad_digest_header bad_digest internal_error : PutAnswer
  replace_failed : Error → PutAnswer
  stored : Bytes → PutAnswer

pub record Checksums : Type 0 where
  pub crc32 : Bytes
  pub crc32c : Bytes
  pub crc64nvme : Bytes
  pub sha1 : Bytes
  pub sha256 : Bytes

pub record PutRequest : Type 0 where
  pub bucket_name : Bytes
  pub key : Bytes
  pub headers : Values

-- parseMetadataHeaders: the first value of each x-amz-meta- header, under its name in lower case.
abbrev meta_prefix : Bytes
meta_prefix = codes "x-amz-meta-"

abbrev with_value : Bytes → List Bytes → List (Bytes × Bytes) → List (Bytes × Bytes)
with_value lower [] rest = rest
with_value lower (v ∷ _) rest =
    if has_prefix lower meta_prefix then (drop (length meta_prefix) lower, v) ∷ rest else rest

unfoldable pub meta_values : Values → List (Bytes × Bytes)
unfolding to_lower has_prefix
meta_values [] = []
meta_values ((key, values) ∷ rest) = with_value (to_lower key) values (meta_values rest)

abbrev nil_if_empty : List (Bytes × Bytes) → Option (List (Bytes × Bytes))
nil_if_empty [] = none
nil_if_empty (x ∷ rest) = some (x ∷ rest)

unfoldable pub parse_metadata_headers : Values → Option (List (Bytes × Bytes))
unfolding meta_values
parse_metadata_headers headers = nil_if_empty (meta_values headers)

-- What the handler is told: whether the guard lets the request pass, how the pipeline starts and what
-- it says of the body, the path and size of the file that Write makes, the clock and the new id.
pub record Told : Type 0 where
  pub allowed : Bool
  pub pipeline : Result DigestError Unit
  pub written : Result WriteError (Bytes × ℕ)
  pub body_valid : Bool
  pub etag : Bytes
  pub checksums : Checksums
  pub now : Time
  pub id : Bytes

abbrev pub content_type_or_default : Bytes → Bytes
content_type_or_default given =
    let trimmed = trim_space given in
    if str_eq trimmed [] then codes "application/octet-stream" else trimmed

abbrev pub new_object : PutRequest → Told → Bytes → ℕ → Object
new_object r told path size = record {
  id = told.id;
  bucket_name = r.bucket_name;
  key = r.key;
  size = size;
  etag = told.etag;
  content_type = content_type_or_default (values_get (codes "Content-Type") r.headers);
  storage_path = path;
  created_at = told.now;
  updated_at = told.now;
  is_multipart = false;
  parts_count = 0;
  checksum_crc32 = told.checksums.crc32;
  checksum_crc32c = told.checksums.crc32c;
  checksum_crc64nvme = told.checksums.crc64nvme;
  checksum_sha1 = told.checksums.sha1;
  checksum_sha256 = told.checksums.sha256;
  user_metadata = parse_metadata_headers r.headers;
}

abbrev pub write_failed : WriteError → PutAnswer
write_failed invalid_key = invalid_request
write_failed path_traversal = invalid_request
write_failed other_write_error = internal_error

abbrev pub digest_failed : DigestError → PutAnswer
digest_failed invalid_digest = bad_digest_header
digest_failed other_digest_error = invalid_request

module _ (fails : Bytes → Bool) where
  -- deleteStoredFile: a failure is logged and the file stays.
  abbrev pub discard : Bytes → List Bytes → List Bytes
  discard path files = if fails path then files else remove_file path files

  abbrev pub after_replace :
      World → Bytes → Object → Result Error (Bytes × Tables) → World × PutAnswer
  after_replace w path o (err e) = (record w { files = discard path w.files }, replace_failed e)
  after_replace w path o (ok (replaced_path, t)) = (
    record {
      tables = t;
      files =
          if not (str_eq replaced_path []) && not (str_eq replaced_path path)
          then discard replaced_path w.files
          else w.files;
    },
    stored o.etag,
  )

  abbrev pub after_write :
      World → PutRequest → Told → Result WriteError (Bytes × ℕ) → World × PutAnswer
  after_write w r told (err e) = (w, write_failed e)
  after_write w r told (ok (path, size)) =
      let held = record w { files = path ∷ w.files } in
      let o = new_object r told path size in
      if not told.body_valid
      then (record held { files = discard path held.files }, bad_digest)
      else after_replace held path o (
          replace held.tables told.now o (values_get (codes "If-Match") r.headers)
            (values_get (codes "If-None-Match") r.headers))

  abbrev pub after_pipeline :
      World → PutRequest → Told → Result DigestError Unit → World × PutAnswer
  after_pipeline w r told (err e) = (w, digest_failed e)
  after_pipeline w r told (ok _) = after_write w r told told.written

  unfoldable pub put_object : World → PutRequest → Told → World × PutAnswer
  put_object w r told =
      if str_eq r.key []
      then (w, invalid_request)
      else if not told.allowed
      then (w, denied)
      else after_pipeline w r told told.pipeline
