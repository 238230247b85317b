-- ===== src/Metadata/Cache/Tests.antt =====
-- The theorems about the cache at concrete entries.
use fbs_core.Base.{
  true, [], ◌∷◌, codes, Option, none, some, ◌≡◌, ◌⊎◌, refl, arith, inl, str_eq, if◌then◌else◌,
}
use fbs_core.Metadata.Model.{Bucket}
use fbs_core.Metadata.Cache.Ops.{
  CacheKey, CacheEntry, CacheValue, MetadataCache, new_metadata_cache, bucket_entry, find, key_eq,
  get, put, publish, estimate_bucket_size, bucket_key,
}
use fbs_core.Metadata.Cache.Budget.{IsExact, IsValid, Evicted}
use fbs_core.Metadata.Cache.Invariant.{
  read, store, run_calls, run_calls_new-IsValid, filled, put-Evicted,
}
use fbs_core.Metadata.Cache.World.{
  World, Reach, here, next, start, load, publish_loaded, any_covers,
}
use fbs_core.Metadata.Cache.Coherence.{get-Current}

abbrev media : Bucket
media = record { name = codes "media"; owner_id = codes "u1"; created_at = 5 }

abbrev media_entry : CacheEntry
media_entry = record {
  key = bucket_key (codes "media");
  value = record { bucket = some media; object = none };
  size = 135;
}

media_size : bucket_entry media ≡ media_entry
unfolding estimate_bucket_size
media_size = refl

abbrev empty : MetadataCache
empty = record { revision = 0; max_bytes = 200; used = 0; lru = [] }

abbrev held : MetadataCache
held = record empty { used = 135; lru = media_entry ∷ [] }

put_media : put empty media_entry ≡ held
unfolding put find
put_media = refl

empty-IsExact : IsExact empty
empty-IsExact = record { distinct = tt; account = refl }

held-IsValid : IsValid held
unfolding find
held-IsValid = record {
  exact = record { distinct = (refl, tt); account = refl };
  bounded = omega arith;
}

run_calls_new-IsValid_example :
    IsValid (run_calls (new_metadata_cache 200) (store media_entry ∷ read media_entry.key ∷ []))
run_calls_new-IsValid_example =
    run_calls_new-IsValid 200 (store media_entry ∷ read media_entry.key ∷ [])

put-Evicted_example : Evicted (filled empty media_entry) (put empty media_entry)
put-Evicted_example = put-Evicted empty media_entry empty-IsExact

abbrev table : CacheKey → Option CacheValue
table k = if key_eq k media_entry.key then some media_entry.value else none

abbrev published : World
published = record {
  table = table;
  cache = (publish (new_metadata_cache 200) media_entry 0).1;
  pending = [];
  started = 0 ∷ [];
  loaded = (0, media_entry) ∷ [];
}

published-Reach : Reach 200 table 3 published
unfolding new_metadata_cache key_eq str_eq
published-Reach =
    next (next (next (here 0 refl) start) (load 0 media_entry (inl refl) refl))
      (publish_loaded 0 media_entry (inl refl))

published_hit : (get published.cache media_entry.key).0 ≡ some media_entry.value
unfolding get publish find key_eq str_eq new_metadata_cache
published_hit = refl

get-Current_example :
    (published.table media_entry.key ≡ some media_entry.value)
    ⊎ (any_covers published.pending media_entry.key ≡ true)
get-Current_example =
    get-Current {table = table} (omega arith) media_entry.key media_entry.value published-Reach
      (omega arith) published_hit
