-- ===== src/S3/Dispatch/Tests.antt =====
-- The dispatch of concrete requests.
use fbs_core.Base.{[], ◌∷◌, codes, Bytes, str_eq, ◌≡◌, refl}
use fbs_core.S3.Dispatch.{
  Query, has, get, upload_part, abort_multipart_upload, invalid_request, dispatch_put,
  dispatch_object_put, dispatch_object_delete, dispatch_delete,
}

abbrev part_query : Query
part_query = (codes "partNumber", codes "3") ∷ (codes "uploadId", codes "u1") ∷ []

abbrev no_source : Bytes
no_source = []

put_part : dispatch_object_put part_query [] ≡ upload_part
unfolding dispatch_object_put dispatch_put has get str_eq
put_part = refl

put_part_unnamed : dispatch_object_put ((codes "uploadId", []) ∷ []) [] ≡ invalid_request
unfolding dispatch_object_put dispatch_put has get str_eq
put_part_unnamed = refl

abort_upload : dispatch_object_delete part_query ≡ abort_multipart_upload
unfolding dispatch_object_delete dispatch_delete has get str_eq
abort_upload = refl
