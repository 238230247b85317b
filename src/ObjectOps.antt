-- ===== src/ObjectOps.antt =====
-- internal/objectops/cleanup.go: objects are deleted from the tables first and from the disk after
-- that. The disk is the list of the paths that have a file; an engine is there or nil, and says for
-- which paths its Delete fails. No other request runs in between.
pub mod ListAll
pub mod Put
pub mod Backed
pub mod Sound
pub mod PutSound
pub mod Runs
mod Tests
use fbs_core.Base.{
  ℕ, zero, suc, ◌==◌, Bool, true, false, not, ◌||◌, Bytes, List, [], ◌∷◌, ◌++◌, Option, none, some,
  length, select, str_eq, if◌then◌else◌, Result, ok, err,
}
use fbs_core.Metadata.Model.{Object, Tables, Error, object_not_found}
use fbs_core.Metadata.Objects.{get_by_key, delete, delete_all_in_bucket}
use fbs_core.Metadata.Listing.{list}
use fbs_core.Metadata.Listing.Pages.{last_key}

pub record World : Type 0 where
  pub tables : Tables
  pub files : List Bytes

pub data Failure : Type 0 where
  metadata : Error → Failure
  disk : Failure

abbrev pub page_limit : ℕ
page_limit = 1000

-- ListAllObjects; `none` is a run that is out of fuel. The limit is that of a page.
unfoldable pub list_all_from : ℕ → ℕ → Tables → Bytes → Bytes → List Object → Option (List Object)
list_all_from limit zero t bucket_name start_after all_objects = none
list_all_from limit (suc f) t bucket_name start_after all_objects =
    let found = list t bucket_name [] start_after limit in
    let next = list_all_from limit f t bucket_name (last_key found.0) (all_objects ++ found.0) in
    if not found.1 || length found.0 == 0 then some (all_objects ++ found.0) else next

-- A round for each object is enough.
unfoldable pub list_all_objects : Tables → Bytes → Option (List Object)
list_all_objects t bucket_name =
    list_all_from page_limit (suc (length t.objects)) t bucket_name [] []

-- The engine's Delete: a file that is not there is no error.
abbrev pub remove_file : Bytes → List Bytes → List Bytes
remove_file path files = select (λ f. not (str_eq f path)) files

-- The file of an object whose row is gone.
abbrev pub delete_stored :
    Option (Bytes → Bool) → World → Object → World × Result Failure (Option Object)
delete_stored none w o = (w, ok (some o))
delete_stored (some fails) w o =
    if fails o.storage_path
    then (w, err disk)
    else (record w { files = remove_file o.storage_path w.files }, ok (some o))

-- The loop of EmptyBucket over the files: it stops at the first that cannot be deleted.
abbrev pub delete_files : (Bytes → Bool) → List Object → List Bytes → List Bytes × Bool
delete_files fails [] files = (files, true)
delete_files fails (o ∷ rest) files =
    let after = delete_files fails rest (remove_file o.storage_path files) in
    if fails o.storage_path then (files, false) else after

abbrev pub delete_all_files : Option (Bytes → Bool) → List Object → List Bytes → List Bytes × Bool
delete_all_files none objects files = (files, true)
delete_all_files (some fails) objects files = delete_files fails objects files

module _ (engine : Option (Bytes → Bool)) where
  abbrev pub delete_row :
      World → Object → Result Error Tables → World × Result Failure (Option Object)
  delete_row w o (err e) = (w, err (metadata e))
  delete_row w o (ok t) = delete_stored engine (record w { tables = t }) o

  abbrev pub delete_found :
      World → Bytes → Bytes → Result Error Object → World × Result Failure (Option Object)
  delete_found w bucket_name key (ok o) = delete_row w o (delete w.tables bucket_name key)
  delete_found w bucket_name key (err object_not_found) = (w, ok none)
  delete_found w bucket_name key (err e) = (w, err (metadata e))

  -- DeleteObject; the object that there was, or none.
  unfoldable pub delete_object : World → Bytes → Bytes → World × Result Failure (Option Object)
  delete_object w bucket_name key =
      delete_found w bucket_name key (get_by_key w.tables bucket_name key)

  abbrev pub emptied : World → Bytes → List Object → World × Result Failure (List Object)
  emptied w bucket_name objects =
      let gone = delete_all_files engine objects w.files in
      (
        record { tables = delete_all_in_bucket w.tables bucket_name; files = gone.0 },
        if gone.1 then ok objects else err disk,
      )

  abbrev pub emptied_listed :
      World → Bytes → Option (List Object) → Option (World × Result Failure (List Object))
  emptied_listed w bucket_name none = none
  emptied_listed w bucket_name (some objects) = some (emptied w bucket_name objects)

  -- EmptyBucket; `none` is a listing that is out of fuel.
  unfoldable pub empty_bucket : World → Bytes → Option (World × Result Failure (List Object))
  empty_bucket w bucket_name = emptied_listed w bucket_name (list_all_objects w.tables bucket_name)
