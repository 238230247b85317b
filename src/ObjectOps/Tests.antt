-- ===== src/ObjectOps/Tests.antt =====
-- Two objects in one bucket; the second file cannot be deleted.
use fbs_core.Base.{
  Bool, true, false, Bytes, List, [], ◌∷◌, some, codes, str_eq, Result, ok, ◌≡◌, refl, arith,
  trim_space,
}
use fbs_core.Metadata.Model.{Object}
use fbs_core.Metadata.Objects.{
  find_object, delete_all_in_bucket, replace, check_write_preconditions, upsert_object,
  load_object_version,
}
use fbs_core.Metadata.Objects.Unique.{IsUnique}
use fbs_core.Metadata.Listing.{matching}
use fbs_core.Auth.SigV4.Request.{find_values}
use fbs_core.ObjectOps.{Failure, World, list_all_objects, empty_bucket}
use fbs_core.ObjectOps.ListAll.{list_all_objects-matching}
use fbs_core.ObjectOps.Put.{PutRequest, Told, put_object, meta_values}
use fbs_core.ObjectOps.Sound.{IsSound, empty_bucket-IsSound}
use fbs_core.ObjectOps.Runs.{Run, done, then, put, Run-IsSound, IsFresh}

abbrev request : Bytes → PutRequest
request key = record {
  bucket_name = codes "b";
  key = key;
  headers = (codes "X-Amz-Meta-Owner", codes "Ada" ∷ []) ∷ [];
}

abbrev told : Bytes → Told
told path = record {
  allowed = true;
  pipeline = ok tt;
  written = ok (path, 3);
  body_valid = true;
  etag = codes "e1";
  checksums = record { crc32 = []; crc32c = []; crc64nvme = []; sha1 = []; sha256 = [] };
  now = 5;
  id = codes "o1";
}

abbrev never : Bytes → Bool
never path = false

abbrev nothing : World
nothing = record {
  tables = record { buckets = []; objects = []; uploads = []; parts = [] };
  files = [];
}

abbrev one : World
one = (put_object never nothing (request (codes "k")) (told (codes "b/1"))).0

abbrev two : World
two = (put_object never one (request (codes "k")) (told (codes "b/2"))).0

two_files : two.files ≡ codes "b/2" ∷ []
unfolding put_object replace load_object_version find_object check_write_preconditions upsert_object
    str_eq trim_space find_values meta_values
two_files = refl

IsFresh-first : IsFresh nothing (told (codes "b/1"))
unfolding str_eq
IsFresh-first path size h = refl

IsFresh-second : IsFresh one (told (codes "b/2"))
unfolding put_object replace load_object_version find_object check_write_preconditions upsert_object
    str_eq trim_space find_values meta_values
IsFresh-second path size h = let here : codes "b/2" ≡ path = ground (arith, h) in rw (← here) refl

Run-two : Run nothing two
Run-two =
    then nothing one two
      (then nothing nothing one (done nothing)
        (put never nothing (request (codes "k")) (told (codes "b/1")) IsFresh-first))
      (put never one (request (codes "k")) (told (codes "b/2")) IsFresh-second)

Run-IsSound_example : IsSound two
Run-IsSound_example = Run-IsSound nothing two Run-two (tt, tt, tt)

two_IsUnique : IsUnique two.tables.objects
unfolding put_object replace load_object_version find_object check_write_preconditions upsert_object
    str_eq trim_space find_values meta_values
two_IsUnique = (refl, tt)

list_all_objects-matching_example :
    list_all_objects two.tables (codes "b") ≡ some (matching two.tables (codes "b") [] [])
list_all_objects-matching_example = list_all_objects-matching two.tables (codes "b") two_IsUnique

empty_bucket-IsSound_example :
    (after : World) × (answer : Result Failure (List Object)) × (empty_bucket
        (some (str_eq (codes "b/2")))
        two
        (codes "b")
      ≡ some (after, answer))
    × IsSound after
    × (after.tables ≡ delete_all_in_bucket two.tables (codes "b"))
empty_bucket-IsSound_example =
    empty_bucket-IsSound (some (str_eq (codes "b/2"))) two (codes "b")
      (Run-IsSound nothing two Run-two (tt, tt, tt))
