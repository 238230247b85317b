-- ===== src/Metadata/Objects/Tests.antt =====
-- The conditional writes at concrete rows.
use fbs_core.Base.{
  true, false, Bytes, codes, str_eq, equal_fold, if◌then◌else◌, [], ◌∷◌, none, some, ok, ◌≡◌, inl,
  inr, ◌⊎◌, refl,
}
use fbs_core.Metadata.Model.{Object, Tables}
use fbs_core.Metadata.Objects.{
  unquote_etag, etags_equal, is_at, find_object, with_times, version_of, check_write_preconditions,
  load_object_version, upsert_row, upsert_object, replace,
}
use fbs_core.Metadata.Objects.Unique.{IsUnique}
use fbs_core.Metadata.Objects.Conditional.{MayWrite, Matches, current, replace-ok}

abbrev first : Object
first = record {
  id = codes "o1";
  bucket_name = codes "media";
  key = codes "a.txt";
  size = 3;
  etag = codes "aa";
  content_type = codes "text/plain";
  storage_path = codes "media/a.1";
  created_at = 0;
  updated_at = 0;
  is_multipart = false;
  parts_count = 0;
  checksum_crc32 = [];
  checksum_crc32c = [];
  checksum_crc64nvme = [];
  checksum_sha1 = [];
  checksum_sha256 = [];
  user_metadata = none;
}

abbrev second : Object
second = record first { id = codes "o2"; etag = codes "bb"; storage_path = codes "media/a.2" }

abbrev empty : Tables
empty = record { buckets = []; objects = []; uploads = []; parts = [] }

abbrev written : Tables
written = record empty { objects = with_times 7 first ∷ [] }

abbrev rewritten : Tables
rewritten = record empty { objects = with_times 8 second ∷ [] }

quoted_etag : etags_equal (codes "\"AA\"") (codes "aa") ≡ true
unfolding etags_equal unquote_etag str_eq equal_fold
quoted_etag = refl

first_write : replace empty 7 first [] (codes "*") ≡ ok ([], written)
unfolding replace load_object_version find_object check_write_preconditions str_eq upsert_object
    upsert_row
first_write = refl

second_write : replace written 8 second (codes "AA") [] ≡ ok (codes "media/a.1", rewritten)
unfolding replace load_object_version find_object check_write_preconditions str_eq upsert_object
    upsert_row etags_equal unquote_etag equal_fold
second_write = refl

replace-ok_example :
    MayWrite (current written second) (codes "AA") []
    × ((b k : Bytes)
        → find_object b k rewritten.objects ≡ (
            if is_at b k second
            then some (with_times 8 second)
            else find_object b k written.objects))
    × (codes "media/a.1" ≡ (version_of (current written second)).storage_path)
replace-ok_example =
    replace-ok written 8 second (codes "AA") [] (codes "media/a.1") rewritten second_write

first_allowed : MayWrite (current empty first) [] (codes "*")
unfolding find_object
first_allowed = refl

plain_write : replace written 8 second [] [] ≡ ok (codes "media/a.1", rewritten)
unfolding replace load_object_version find_object check_write_preconditions str_eq upsert_object
    upsert_row
plain_write = refl

aa_is_not_bb : etags_equal (codes "aa") (codes "bb") ≡ false
unfolding etags_equal unquote_etag str_eq equal_fold
aa_is_not_bb = refl

aa_differs : ¬ ((codes "aa" ≡ []) ⊎ Matches (codes "aa") (codes "bb"))
aa_differs (inl e) = cc
aa_differs (inr (inl e)) = cc
aa_differs (inr (inr e)) = cc (aa_is_not_bb)

written-IsUnique : IsUnique written.objects
unfolding find_object
written-IsUnique = (refl, tt)
