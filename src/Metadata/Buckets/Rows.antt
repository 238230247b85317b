-- ===== src/Metadata/Buckets/Rows.antt =====
-- internal/metadata/bucket.go. The table is the list of its rows, whose name is the primary key. The
-- users that there are, and the buckets that rows of other tables refer to, are parameters.
use fbs_core.Base.{
  ltb, Bool, false, not, ◌&&◌, ◌||◌, Bytes, List, [], ◌∷◌, ◌++◌, Option, none, some, select, str_eq,
  if◌then◌else◌, Result, ok, err,
}
use fbs_core.Metadata.Model.{Bucket, Error, bucket_not_found, constraint_failed}
use fbs_core.Metadata.Multipart.{has_bucket}
use fbs_core.Metadata.Buckets.{delete_bucket_row}

unfoldable pub find_bucket : Bytes → List Bucket → Option Bucket
find_bucket name [] = none
find_bucket name (b ∷ rest) = if str_eq b.name name then some b else find_bucket name rest

abbrev bucket_or_not_found : Option Bucket → Result Error Bucket
bucket_or_not_found none = err bucket_not_found
bucket_or_not_found (some b) = ok b

unfoldable get_by_name : Bytes → List Bucket → Result Error Bucket
get_by_name name l = bucket_or_not_found (find_bucket name l)

-- `ORDER BY created_at ASC`
unfoldable insert_by_creation : Bucket → List Bucket → List Bucket
insert_by_creation b [] = b ∷ []
insert_by_creation b (x ∷ rest) =
    let after = insert_by_creation b rest in
    if ltb x.created_at b.created_at then x ∷ after else b ∷ x ∷ rest

unfoldable list : List Bucket → List Bucket
list [] = []
list (b ∷ rest) = insert_by_creation b (list rest)

unfoldable list_by_owner : Bytes → List Bucket → List Bucket
list_by_owner owner_id l = list (select (λ (b : Bucket). str_eq b.owner_id owner_id) l)

unfoldable name_in : List Bytes → Bytes → Bool
name_in [] name = false
name_in (x ∷ rest) name = str_eq name x || name_in rest name

unfoldable list_by_names : List Bytes → List Bucket → List Bucket
list_by_names [] l = []
list_by_names (x ∷ rest) l = list (select (λ (b : Bucket). name_in (x ∷ rest) b.name) l)

-- `UPDATE buckets SET owner_id = ? WHERE name = ? AND owner_id = ?`
unfoldable pub set_owner : Bytes → Bytes → Bytes → List Bucket → List Bucket
set_owner name owner_id expected [] = []
set_owner name owner_id expected (b ∷ rest) =
    let after = set_owner name owner_id expected rest in
    if str_eq b.name name && str_eq b.owner_id expected
    then record b { owner_id = owner_id } ∷ after
    else b ∷ after

module _ (known_user : Bytes → Bool) where
  unfoldable create : Bucket → List Bucket → Result Error (List Bucket)
  create b l =
      if has_bucket b.name l || not (known_user b.owner_id)
      then err constraint_failed
      else ok (l ++ (b ∷ []))

  abbrev pub update_found :
      Bytes → Bytes → Bytes → List Bucket → Option Bucket → Result Error (List Bucket)
  update_found name owner_id expected l none = err bucket_not_found
  update_found name owner_id expected l (some b) =
      if not (str_eq b.owner_id expected)
      then err bucket_not_found
      else if not (known_user owner_id)
      then err constraint_failed
      else ok (set_owner name owner_id expected l)

  unfoldable pub update_owner : Bytes → Bytes → Bytes → List Bucket → Result Error (List Bucket)
  update_owner name owner_id expected l = update_found name owner_id expected l (find_bucket name l)

unfoldable delete : (Bytes → Bool) → Bytes → List Bucket → Result Error (List Bucket)
delete referenced name l =
    if not (has_bucket name l)
    then err bucket_not_found
    else if referenced name
    then err constraint_failed
    else ok (delete_bucket_row name l)
