-- ===== src/Metadata/Cache/World.antt =====
-- The cached repositories of internal/metadata/cache.go, any number of requests at once. A write
-- commits to the table and evicts afterwards (`defer r.cache.evict…`); a read takes the revision,
-- loads the row from the table and publishes it. The steps of different requests interleave freely.
use fbs_core.Base.{ℕ, suc, Bool, false, ◌||◌, Bytes, List, [], ◌∷◌, ◌++◌, Option, some, ◌≡◌, Any}
use fbs_core.Metadata.Cache.Ops.{
  CacheKey, CacheEntry, CacheValue, MetadataCache, key_eq, get, publish, evict_object, evict_bucket,
  evict_objects_in_bucket, in_bucket, bucket_key, object_key, new_metadata_cache,
}

-- The rows that a write may change, and the eviction that follows it: Create, Replace and Delete
-- of an object; the writes of a bucket; DeleteAllInBucket.
pub data Scope : Type 0 where
  one_object : Bytes → Bytes → Scope
  whole_bucket : Bytes → Scope
  all_objects : Bytes → Scope

abbrev pub covers : Scope → CacheKey → Bool
covers (one_object name key) k = key_eq (object_key name key) k
covers (whole_bucket name) k = key_eq (bucket_key name) k || in_bucket name k
covers (all_objects name) k = in_bucket name k

abbrev pub any_covers : List Scope → CacheKey → Bool
any_covers [] k = false
any_covers (s ∷ rest) k = covers s k || any_covers rest k

unfoldable pub evict : MetadataCache → Scope → MetadataCache
evict c (one_object name key) = evict_object c name key
evict c (whole_bucket name) = evict_bucket c name
evict c (all_objects name) = evict_objects_in_bucket c name

-- `pending` holds the writes that have committed and not yet evicted, `started` the revisions that
-- reads have taken, `loaded` the rows that they hold with the revision taken before. The reads
-- are never forgotten, so a read may go on later, or more than once.
pub record World : Type 0 where
  pub table : CacheKey → Option CacheValue
  pub cache : MetadataCache
  pub pending : List Scope
  pub started : List ℕ
  pub loaded : List (ℕ × CacheEntry)

pub data Step (w : World) : World → Type 0 where
  -- A read is answered from the cache, or misses.
  look : (k : CacheKey) → Step w (record w { cache = (get w.cache k).1 })
  start : Step w (record w { started = w.cache.revision ∷ w.started })
  load :
      (r : ℕ) (e : CacheEntry)
      → Any (λ s. s ≡ r) w.started
      → w.table e.key ≡ some e.value
      → Step w (record w { loaded = (r, e) ∷ w.loaded })
  publish_loaded :
      (r : ℕ) (e : CacheEntry)
      → Any (λ l. l ≡ (r, e)) w.loaded
      → Step w (record w { cache = (publish w.cache e r).1 })
  commit :
      (s : Scope) (t : CacheKey → Option CacheValue)
      → ((k : CacheKey) → covers s k ≡ false → t k ≡ w.table k)
      → Step w (record w { table = t; pending = s ∷ w.pending })
  evict_pending :
      (before : List Scope) (s : Scope) (after : List Scope)
      → w.pending ≡ before ++ (s ∷ after)
      → Step w (record w { cache = evict w.cache s; pending = before ++ after })

abbrev pub initial : ℕ → (CacheKey → Option CacheValue) → World
initial max_bytes table = record {
  table = table;
  cache = new_metadata_cache max_bytes;
  pending = [];
  started = [];
  loaded = [];
}

-- Reached from a new cache in so many steps.
pub data Reach (max_bytes : ℕ) (table : CacheKey → Option CacheValue) : ℕ → World → Type 0 where
  here : (n : ℕ) → n ≡ 0 → Reach max_bytes table n (initial max_bytes table)
  next :
      {n : ℕ} {v w : World} → Reach max_bytes table n v → Step v w → Reach max_bytes table (suc n) w
