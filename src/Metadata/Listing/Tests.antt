-- ===== src/Metadata/Listing/Tests.antt =====
-- A page of concrete objects.
use fbs_core.Base.{
  true, false, [], ◌∷◌, suc, drop, take, length, ltb, codes, Bytes, List, none, str_eq, str_ltb,
  has_prefix, ◌≡◌, refl,
}
use fbs_core.Metadata.Model.{Object, Tables}
use fbs_core.Metadata.Objects.{find_object}
use fbs_core.Metadata.Objects.Unique.{IsUnique}
use fbs_core.Metadata.Listing.{wanted, insert_by_key, order_by_key, matching, list}
use fbs_core.Metadata.Listing.Pages.{last_key, list-pages}

abbrev object_at : Bytes → Object
object_at name = record {
  id = name;
  bucket_name = codes "m";
  key = name;
  size = 1;
  etag = [];
  content_type = [];
  storage_path = [];
  created_at = 1;
  updated_at = 1;
  is_multipart = false;
  parts_count = 0;
  checksum_crc32 = [];
  checksum_crc32c = [];
  checksum_crc64nvme = [];
  checksum_sha1 = [];
  checksum_sha256 = [];
  user_metadata = none;
}

abbrev tables : Tables
tables = record {
  buckets = [];
  objects = object_at (codes "b") ∷ object_at (codes "a") ∷ object_at (codes "c") ∷ [];
  uploads = [];
  parts = [];
}

first_page :
    list tables (codes "m") [] [] 2 ≡ (object_at (codes "a") ∷ object_at (codes "b") ∷ [], true)
unfolding list matching wanted order_by_key insert_by_key str_ltb str_eq has_prefix
first_page = refl

second_page : list tables (codes "m") [] (codes "b") 2 ≡ (object_at (codes "c") ∷ [], false)
unfolding list matching wanted order_by_key insert_by_key str_ltb str_eq has_prefix
second_page = refl

tables-IsUnique : IsUnique tables.objects
unfolding find_object str_eq
tables-IsUnique = (refl, (refl, (refl, tt)))

abbrev all_rows : List Object
all_rows = matching tables (codes "m") [] []

list-pages_example :
    (list tables (codes "m") [] [] (suc 1) ≡ (take (suc 1) all_rows, ltb (suc 1) (length all_rows)))
    × (ltb (suc 1) (length all_rows) ≡ true
        → matching tables (codes "m") [] (last_key (take (suc 1) all_rows)) ≡ drop (suc 1) all_rows)
list-pages_example = list-pages tables tables-IsUnique (codes "m") [] [] 1
