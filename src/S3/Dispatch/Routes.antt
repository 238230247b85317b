-- ===== src/S3/Dispatch/Routes.antt =====
-- Which requests reach the handlers that write or delete.
use fbs_core.Base.{
  true, false, Bytes, [], str_eq, str_eq_iff, codes, ◌≡◌, ◌≢◌, ◌↔◌, arith, false_of_not,
}
use fbs_core.S3.Dispatch.{
  Query, has, get, put_object, upload_part, delete_object, dispatch_put, dispatch_object_put,
  dispatch_object_delete,
}

-- The parameters of a multipart upload, and the subresources that are not served.
abbrev pub Plain : Query → Type 0
Plain q = (has q (codes "uploadId") ≡ false) × (has q (codes "partNumber") ≡ false)

abbrev pub Served : Query → Type 0
Served q = (has q (codes "acl") ≡ false) × (has q (codes "uploads") ≡ false)

abbrev pub NamesPart : Query → Type 0
NamesPart q =
    (has q (codes "uploadId") ≡ true)
    × (has q (codes "partNumber") ≡ true)
    × (get q (codes "uploadId") ≢ [])
    × (get q (codes "partNumber") ≢ [])

-- A PUT goes to the handler of PutObject exactly when no multipart parameter, unserved subresource or
-- copy source is given.
pub put_object_iff :
    (q : Query) (copy_source : Bytes)
    → (dispatch_object_put q copy_source ≡ put_object) ↔ (Served q × Plain q × (copy_source ≡ []))
unfolding dispatch_object_put dispatch_put
put_object_iff q copy_source =
    (λ h. ground (arith, str_eq_iff copy_source []), λ h. ground (arith, str_eq_iff copy_source []))

set_iff : (b : Bytes) → (str_eq b [] ≡ false) ↔ (b ≢ [])
set_iff b = (
  λ e h. ground (arith, e, h, str_eq_iff b []),
  λ h. false_of_not (str_eq b []) (λ e. h ((str_eq_iff b []).0 e)),
)

abbrev PartTests : Query → Bytes → Type 0
PartTests q copy_source =
    Served q
    × (has q (codes "uploadId") ≡ true)
    × (has q (codes "partNumber") ≡ true)
    × (str_eq (get q (codes "uploadId")) [] ≡ false)
    × (str_eq (get q (codes "partNumber")) [] ≡ false)
    × (str_eq copy_source [] ≡ true)

upload_part-tests :
    (q : Query) (copy_source : Bytes)
    → (dispatch_object_put q copy_source ≡ upload_part) ↔ PartTests q copy_source
unfolding dispatch_object_put dispatch_put
upload_part-tests q copy_source = (λ h. ground arith, λ h. ground arith)

-- And to that of UploadPart exactly when both parameters have a value and there is no copy source.
pub upload_part_iff :
    (q : Query) (copy_source : Bytes)
    → (dispatch_object_put q copy_source ≡ upload_part)
      ↔ (Served q × NamesPart q × (copy_source ≡ []))
upload_part_iff q copy_source =
    let tests = upload_part-tests q copy_source in
    let id = set_iff (get q (codes "uploadId")) in
    let number = set_iff (get q (codes "partNumber")) in
    (
      λ h.
          let (served, i, n, iv, nv, c) = tests.0 h in
          (served, (i, n, id.0 iv, number.0 nv), (str_eq_iff copy_source []).0 c),
      λ h.
          let (served, (i, n, iv, nv), c) = h in
          tests.1 (served, i, n, id.1 iv, number.1 nv, (str_eq_iff copy_source []).1 c),
    )

-- A DELETE goes to the handler of DeleteObject exactly when it names no upload.
pub delete_object_iff :
    (q : Query)
    → (dispatch_object_delete q ≡ delete_object)
      ↔ ((has q (codes "uploads") ≡ false) × (has q (codes "uploadId") ≡ false))
unfolding dispatch_object_delete
delete_object_iff q = (λ h. ground arith, λ h. ground arith)
