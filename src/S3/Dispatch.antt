-- ===== src/S3/Dispatch.antt =====
-- internal/s3/dispatch.go: the handler that a request reaches. A query is the list of its names and
-- values, in order; a handler is named, what it does is not part of the dispatch.
pub mod Routes
mod Tests
use fbs_core.Base.{
  Bool, true, false, not, ◌&&◌, ◌||◌, Bytes, List, [], ◌∷◌, str_eq, codes, if◌then◌else◌,
}

abbrev pub Query : Type 0
Query = List (Bytes × Bytes)

-- url.Values.Has and Get.
unfoldable pub has : Query → Bytes → Bool
has [] name = false
has ((n, v) ∷ q) name = str_eq n name || has q name

unfoldable pub get : Query → Bytes → Bytes
get [] name = []
get ((n, v) ∷ q) name = let other = get q name in if str_eq n name then v else other

pub data Handler : Type 0 where
  not_implemented invalid_request : Handler
  list_object_versions list_multipart_uploads get_bucket_location : Handler
  list_objects_v1 list_objects_v2 create_bucket delete_bucket delete_objects : Handler
  list_parts get_object_attributes get_object put_object copy_object delete_object : Handler
  upload_part upload_part_copy create_multipart_upload : Handler
  complete_multipart_upload abort_multipart_upload : Handler

-- `query.Has(…) || query.Has(…)`
abbrev pub has_any : Query → List Bytes → Bool
has_any q [] = false
has_any q (name ∷ names) = has q name || has_any q names

unfoldable pub dispatch_bucket_get : Query → Handler
dispatch_bucket_get q =
    if has_any q (codes "acl" ∷ codes "cors" ∷ codes "policy" ∷ [])
    then not_implemented
    else if has q (codes "versions")
    then list_object_versions
    else if has q (codes "uploads")
    then list_multipart_uploads
    else if has q (codes "location")
    then get_bucket_location
    else if str_eq (get q (codes "list-type")) (codes "2")
    then list_objects_v2
    else if str_eq (get q (codes "list-type")) [] || str_eq (get q (codes "list-type")) (codes "1")
    then list_objects_v1
    else invalid_request

unfoldable pub dispatch_bucket_put : Query → Handler
dispatch_bucket_put q =
    if has_any q
      (codes "acl" ∷ codes "cors" ∷ codes "policy" ∷ codes "uploads" ∷ codes "uploadId" ∷ [])
    then not_implemented
    else create_bucket

unfoldable pub dispatch_bucket_post : Query → Handler
dispatch_bucket_post q =
    if has q (codes "delete")
    then delete_objects
    else if has_any q (
        codes "acl"
        ∷ codes "cors"
        ∷ codes "policy"
        ∷ codes "uploads"
        ∷ codes "uploadId"
        ∷ codes "lifecycle"
        ∷ codes "versioning"
        ∷ [])
    then not_implemented
    else invalid_request

unfoldable pub dispatch_bucket_delete : Query → Handler
dispatch_bucket_delete q =
    if has_any q (codes "cors" ∷ codes "policy" ∷ codes "uploads" ∷ codes "uploadId" ∷ [])
    then not_implemented
    else if has q (codes "delete")
    then delete_objects
    else delete_bucket

unfoldable pub dispatch_object_get : Query → Handler
dispatch_object_get q =
    if has q (codes "uploadId")
    then list_parts
    else if has q (codes "attributes")
    then get_object_attributes
    else if has q (codes "acl") || has q (codes "uploads")
    then not_implemented
    else get_object

abbrev copy_or : Handler → Handler → Bytes → Handler
copy_or copy plain copy_source = if not (str_eq copy_source []) then copy else plain

-- `copy_source` is the header x-amz-copy-source.
unfoldable pub dispatch_put : Query → Bytes → Handler
dispatch_put q copy_source =
    let has_upload_id = has q (codes "uploadId") in
    let has_part_number = has q (codes "partNumber") in
    if has_upload_id
      && has_part_number
      && not (str_eq (get q (codes "uploadId")) [])
      && not (str_eq (get q (codes "partNumber")) [])
    then copy_or upload_part_copy upload_part copy_source
    else if has_upload_id || has_part_number
    then invalid_request
    else copy_or copy_object put_object copy_source

unfoldable pub dispatch_object_put : Query → Bytes → Handler
unfolding dispatch_put
dispatch_object_put q copy_source =
    if has q (codes "acl") || has q (codes "uploads")
    then not_implemented
    else if has q (codes "uploadId") || has q (codes "partNumber")
    then dispatch_put q copy_source
    else copy_or copy_object put_object copy_source

unfoldable pub dispatch_post : Query → Handler
dispatch_post q =
    if has q (codes "uploads")
    then create_multipart_upload
    else if not (str_eq (get q (codes "uploadId")) [])
    then complete_multipart_upload
    else invalid_request

unfoldable pub dispatch_delete : Query → Handler
dispatch_delete q =
    if has q (codes "uploadId")
    then (if str_eq (get q (codes "uploadId")) [] then invalid_request else abort_multipart_upload)
    else delete_object

unfoldable pub dispatch_object_delete : Query → Handler
unfolding dispatch_delete
dispatch_object_delete q =
    if has q (codes "uploads")
    then not_implemented
    else if has q (codes "uploadId")
    then dispatch_delete q
    else delete_object
