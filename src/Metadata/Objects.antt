-- ===== src/Metadata/Objects.antt =====
-- internal/metadata/objects.go, object_replace.go and the conditional writes of multipart.go. A
-- statement runs on the table as a list of rows; a transaction that fails leaves it as it was.
pub mod Conditional
pub mod Unique
mod Tests
use fbs_core.Base.{
  ℕ, ◌+◌, ◌-◌, Bool, true, false, not, ◌&&◌, ◌||◌, Bytes, List, [], ◌∷◌, Option, none, some, length,
  take, drop, leb, ◌==◌, str_eq, equal_fold, codes, if◌then◌else◌, Result, ok, err, ◌>>=◌,
}
use mathlib.Core.List.{reverse}
use fbs_core.Metadata.Model.{Time, Object, Tables, Error, object_not_found, precondition_failed}

abbrev first_byte : Bytes → ℕ
first_byte [] = 0
first_byte (c ∷ s) = c

-- unquoteETag; the last byte is the first of the reversed text.
unfoldable pub unquote_etag : Bytes → Bytes
unquote_etag etag =
    if leb 2 (length etag) && first_byte etag == b'"' && first_byte (reverse etag) == b'"'
    then take (length etag - 2) (drop 1 etag)
    else etag

unfoldable pub etags_equal : Bytes → Bytes → Bool
unfolding unquote_etag
etags_equal a b = equal_fold (unquote_etag a) (unquote_etag b)

pub record ObjectVersion : Type 0 where
  pub exists : Bool
  pub storage_path : Bytes
  pub etag : Bytes

abbrev pub is_at : Bytes → Bytes → Object → Bool
is_at bucket_name key o = str_eq o.bucket_name bucket_name && str_eq o.key key

-- `SELECT … FROM objects WHERE bucket_name = ? AND key = ?`
unfoldable pub find_object : Bytes → Bytes → List Object → Option Object
find_object bucket_name key [] = none
find_object bucket_name key (o ∷ rest) =
    if is_at bucket_name key o then some o else find_object bucket_name key rest

abbrev pub row_or_not_found : Option Object → Result Error Object
row_or_not_found none = err object_not_found
row_or_not_found (some o) = ok o

unfoldable pub get_by_key : Tables → Bytes → Bytes → Result Error Object
get_by_key t bucket_name key = row_or_not_found (find_object bucket_name key t.objects)

abbrev pub version_of : Option Object → ObjectVersion
version_of none = record { exists = false; storage_path = []; etag = [] }
version_of (some o) = record { exists = true; storage_path = o.storage_path; etag = o.etag }

unfoldable pub load_object_version : Tables → Bytes → Bytes → ObjectVersion
load_object_version t bucket_name key = version_of (find_object bucket_name key t.objects)

-- `none` is the nil error.
unfoldable pub check_write_preconditions : ObjectVersion → Bytes → Bytes → Option Error
check_write_preconditions existing if_match if_none_match =
    if not existing.exists
    then (if not (str_eq if_match []) then some object_not_found else none)
    else if not (str_eq if_match [])
        && (not (str_eq if_match (codes "*")) && not (etags_equal if_match existing.etag))
    then some precondition_failed
    else if str_eq if_none_match (codes "*")
        || (not (str_eq if_none_match []) && etags_equal if_none_match existing.etag)
    then some precondition_failed
    else none

-- An empty map is stored as NULL.
abbrev pub stored_metadata : Option (List (Bytes × Bytes)) → Option (List (Bytes × Bytes))
stored_metadata none = none
stored_metadata (some []) = none
stored_metadata (some (x ∷ m)) = some (x ∷ m)

-- The row that upsertObject writes, with the defaults filled in, `now` being the clock.
abbrev pub with_times : Time → Object → Object
with_times now o =
    let created = if o.created_at == 0 then now else o.created_at in
    record o {
      created_at = created;
      updated_at = if o.updated_at == 0 then created else o.updated_at;
      user_metadata = stored_metadata o.user_metadata;
    }

-- `INSERT … ON CONFLICT(bucket_name, key) DO UPDATE`. An insert that the primary key or the reference to
-- the bucket refuses is not modelled.
unfoldable pub upsert_row : Object → List Object → List Object
upsert_row o [] = o ∷ []
upsert_row o (x ∷ rest) = if is_at o.bucket_name o.key x then o ∷ rest else x ∷ upsert_row o rest

unfoldable pub upsert_object : Tables → Time → Object → Tables
unfolding upsert_row
upsert_object t now o = record t { objects = upsert_row (with_times now o) t.objects }

-- The repository's Create.
unfoldable pub create : Tables → Time → Object → Tables
create t now o = upsert_object t now o

-- `if err != nil { return "", err }`
abbrev pub guarded {ℓ} : {E A : Type ℓ} → Option E → A → Result E A
guarded none a = ok a
guarded (some e) a = err e

unfoldable pub replace : Tables → Time → Object → Bytes → Bytes → Result Error (Bytes × Tables)
unfolding load_object_version
replace t now o if_match if_none_match =
    let existing = load_object_version t o.bucket_name o.key in
    guarded (check_write_preconditions existing if_match if_none_match)
      (existing.storage_path, upsert_object t now o)

-- `DELETE FROM objects WHERE bucket_name = ? AND key = ?`
unfoldable pub delete_rows : Bytes → Bytes → List Object → List Object
delete_rows bucket_name key [] = []
delete_rows bucket_name key (o ∷ rest) =
    let kept = delete_rows bucket_name key rest in
    if is_at bucket_name key o then kept else o ∷ kept

-- No row affected is an error.
abbrev pub affected : Option Object → Tables → Result Error Tables
affected none t = err object_not_found
affected (some o) t = ok t

unfoldable pub delete : Tables → Bytes → Bytes → Result Error Tables
unfolding delete_rows
delete t bucket_name key =
    affected (find_object bucket_name key t.objects)
      (record t { objects = delete_rows bucket_name key t.objects })

unfoldable pub delete_bucket_rows : Bytes → List Object → List Object
delete_bucket_rows bucket_name [] = []
delete_bucket_rows bucket_name (o ∷ rest) =
    let kept = delete_bucket_rows bucket_name rest in
    if str_eq o.bucket_name bucket_name then kept else o ∷ kept

unfoldable pub delete_all_in_bucket : Tables → Bytes → Tables
unfolding delete_bucket_rows
delete_all_in_bucket t bucket_name = record t { objects = delete_bucket_rows bucket_name t.objects }
