-- ===== src/Metadata/Listing.antt =====
-- The repository's List of internal/metadata/objects.go: one page of the objects of a bucket. Keys
-- are compared byte by byte, as SQLite does; the test of the prefix counts characters there, which for
-- valid UTF-8 is the same as counting bytes.
pub mod Order
pub mod Pages
mod Tests
use fbs_core.Base.{
  ℕ, ◌+◌, ◌==◌, ltb, Bool, true, false, ◌&&◌, ◌||◌, Bytes, List, [], ◌∷◌, length, take, select,
  str_eq, str_ltb, has_prefix, if◌then◌else◌,
}
use fbs_core.Metadata.Model.{Object, Tables}

-- The WHERE clause.
unfoldable pub wanted : Bytes → Bytes → Bytes → Object → Bool
wanted bucket_name prefix start_after o =
    str_eq o.bucket_name bucket_name
    && str_ltb start_after o.key
    && (str_eq prefix [] || has_prefix o.key prefix)

-- `ORDER BY key ASC`
unfoldable pub insert_by_key : Object → List Object → List Object
insert_by_key o [] = o ∷ []
insert_by_key o (x ∷ rest) =
    let after = insert_by_key o rest in if str_ltb o.key x.key then o ∷ x ∷ rest else x ∷ after

unfoldable pub order_by_key : List Object → List Object
unfolding insert_by_key
order_by_key [] = []
order_by_key (o ∷ rest) = insert_by_key o (order_by_key rest)

unfoldable pub matching : Tables → Bytes → Bytes → Bytes → List Object
matching t bucket_name prefix start_after =
    order_by_key (select (wanted bucket_name prefix start_after) t.objects)

-- The page, and whether there is more.
abbrev pub page : ℕ → List Object → List Object × Bool
page max_keys objects =
    if ltb max_keys (length objects) then (take max_keys objects, true) else (objects, false)

-- A limit that is not positive is 0.
unfoldable pub list : Tables → Bytes → Bytes → Bytes → ℕ → List Object × Bool
list t bucket_name prefix start_after max_keys =
    if max_keys == 0
    then ([], false)
    else page max_keys (take (max_keys + 1) (matching t bucket_name prefix start_after))
