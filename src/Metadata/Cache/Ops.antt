-- ===== src/Metadata/Cache/Ops.antt =====
-- internal/metadata/cache.go and cache_publication.go: a least-recently-used cache of rows, bounded
-- by an estimate of their bytes. Each method runs under the mutex, so it is one step here.
-- The map `entries` holds, for each key, the list element whose entry has that key: it is
-- read off the list, front first. A limit that is not positive, and a nil cache, is the limit 0.
use fbs_core.Base.{
  ℕ, zero, suc, ◌+◌, ◌-◌, ◌%◌, ◌^◌, Bool, true, false, ◌&&◌, Bytes, List, [], ◌∷◌, Option, none,
  some, length, ltb, ◌==◌, str_eq, if◌then◌else◌, not,
}
use fbs_core.Metadata.Model.{Bucket, Object}

pub data CacheKind : Type 0 where
  bucket object : CacheKind

abbrev pub is_object : CacheKind → Bool
is_object bucket = false
is_object object = true

pub record CacheKey : Type 0 where
  pub kind : CacheKind
  pub bucket_name : Bytes
  pub object_key : Bytes

abbrev same_kind : CacheKind → CacheKind → Bool
same_kind bucket k = not (is_object k)
same_kind object k = is_object k

-- `==` of the struct cacheKey
unfoldable pub key_eq : CacheKey → CacheKey → Bool
key_eq a b =
    same_kind a.kind b.kind
    && (str_eq a.bucket_name b.bucket_name && str_eq a.object_key b.object_key)

pub record CacheValue : Type 0 where
  pub bucket : Option Bucket
  pub object : Option Object

pub record CacheEntry : Type 0 where
  pub key : CacheKey
  pub value : CacheValue
  pub size : ℕ

pub record MetadataCache : Type 0 where
  pub revision : ℕ
  pub max_bytes : ℕ
  pub used : ℕ
  pub lru : List CacheEntry

unfoldable pub new_metadata_cache : ℕ → MetadataCache
new_metadata_cache max_bytes = record { revision = 0; max_bytes = max_bytes; used = 0; lru = [] }

abbrev pub bucket_key : Bytes → CacheKey
bucket_key name = record { kind = bucket; bucket_name = name; object_key = [] }

abbrev pub object_key : Bytes → Bytes → CacheKey
object_key bucket_name key = record { kind = object; bucket_name = bucket_name; object_key = key }

unfoldable pub estimate_bucket_size : Bucket → ℕ
estimate_bucket_size b = 128 + (length b.name + length b.owner_id)

metadata_size : List (Bytes × Bytes) → ℕ
metadata_size [] = 0
metadata_size ((k, v) ∷ rest) = 64 + (length k + length v) + metadata_size rest

unfoldable pub estimate_object_size : Object → ℕ
unfolding metadata_size
estimate_object_size o =
    256
    + (length o.id
        + length o.bucket_name
        + length o.key
        + length o.etag
        + length o.content_type
        + length o.storage_path
        + length o.checksum_crc32
        + length o.checksum_crc32c
        + length o.checksum_crc64nvme
        + length o.checksum_sha1
        + length o.checksum_sha256)
    + (elim o.user_metadata [ none ↦ 0 | some m ↦ 64 + metadata_size m ])

-- `c.entries[key]`
unfoldable pub find : CacheKey → List CacheEntry → Option CacheEntry
find k [] = none
find k (e ∷ rest) = if key_eq e.key k then some e else find k rest

-- The list without the element of a key.
unfoldable pub without : CacheKey → List CacheEntry → List CacheEntry
without k [] = []
without k (e ∷ rest) = if key_eq e.key k then rest else e ∷ without k rest

unfoldable pub remove_element : MetadataCache → CacheEntry → MetadataCache
remove_element c entry = record c { used = c.used - entry.size; lru = without entry.key c.lru }

unfoldable pub remove : MetadataCache → CacheKey → MetadataCache
unfolding remove_element
remove c key = elim (find key c.lru) [ none ↦ c | some entry ↦ remove_element c entry ]

abbrev pub back : List CacheEntry → Option CacheEntry
back [] = none
back (e ∷ []) = some e
back (e ∷ f ∷ rest) = back (f ∷ rest)

-- The loop drops an element in each round, so the length of the list is enough fuel.
unfoldable pub evict_rounds : ℕ → MetadataCache → MetadataCache
unfolding remove_element
evict_rounds zero c = c
evict_rounds (suc rounds) c = elim (ltb c.max_bytes c.used) [
  | false ↦ c
  | true ↦ elim (back c.lru) [
    | none ↦ c
    | some entry ↦ evict_rounds rounds (remove_element c entry)
  ]
]

unfoldable pub evict_over_budget : MetadataCache → MetadataCache
unfolding evict_rounds
evict_over_budget c = evict_rounds (length c.lru) c

unfoldable pub put : MetadataCache → CacheEntry → MetadataCache
unfolding remove evict_over_budget
put c entry =
    let c1 = remove c entry.key in
    evict_over_budget (record c1 { used = c1.used + entry.size; lru = entry ∷ c1.lru })

abbrev pub disabled : MetadataCache → Bool
disabled c = c.max_bytes == 0

-- `getBucket` and `getObject`, on the key that they look up: a hit moves to the front.
unfoldable pub get : MetadataCache → CacheKey → Option CacheValue × MetadataCache
get c key = if disabled c then (none, c) else elim (find key c.lru) [
  | none ↦ (none, c)
  | some entry ↦ (some entry.value, record c { lru = entry ∷ without key c.lru })
]

abbrev pub bucket_entry : Bucket → CacheEntry
bucket_entry b = record {
  key = bucket_key b.name;
  value = record { bucket = some b; object = none };
  size = estimate_bucket_size b;
}

abbrev pub object_entry : Object → CacheEntry
object_entry o = record {
  key = object_key o.bucket_name o.key;
  value = record { bucket = none; object = some o };
  size = estimate_object_size o;
}

unfoldable pub put_bucket : MetadataCache → Option Bucket → MetadataCache
put_bucket c none = c
put_bucket c (some b) = if disabled c then c else put c (bucket_entry b)

unfoldable pub put_object : MetadataCache → Option Object → MetadataCache
put_object c none = c
put_object c (some o) = if disabled c then c else put c (object_entry o)

-- `c.revision++` on a uint64
abbrev pub bump : MetadataCache → MetadataCache
bump c = record c { revision = (c.revision + 1) % 2 ^ 64 }

abbrev pub in_bucket : Bytes → CacheKey → Bool
in_bucket name key = is_object key.kind && str_eq key.bucket_name name

-- The loop over the keys of the map, which removes the objects of a bucket.
unfoldable pub remove_objects : Bytes → List CacheEntry → MetadataCache → MetadataCache
unfolding remove
remove_objects name [] c = c
remove_objects name (e ∷ rest) c =
    remove_objects name rest (if in_bucket name e.key then remove c e.key else c)

unfoldable pub evict_bucket : MetadataCache → Bytes → MetadataCache
unfolding remove_objects
evict_bucket c name =
    if disabled c
    then c
    else let c1 = remove (bump c) (bucket_key name) in remove_objects name c1.lru c1

unfoldable pub evict_object : MetadataCache → Bytes → Bytes → MetadataCache
unfolding remove
evict_object c bucket_name key =
    if disabled c then c else remove (bump c) (object_key bucket_name key)

unfoldable pub evict_objects_in_bucket : MetadataCache → Bytes → MetadataCache
unfolding remove_objects
evict_objects_in_bucket c name = if disabled c then c else remove_objects name c.lru (bump c)

-- `publishBucket` and `publishObject`: the answer says whether a read may return what it loaded.
unfoldable pub publish : MetadataCache → CacheEntry → ℕ → Bool × MetadataCache
unfolding put
publish c entry revision =
    if disabled c
    then (true, c)
    else if not (c.revision == revision)
    then (false, c)
    else (true, put c entry)
