-- ===== src/Metadata/Cache/Reads.antt =====
-- What a read finds after the operations.
use fbs_core.Base.{
  ◌≤◌, ◌<◌, true, false, ◌&&◌, ◌||◌, Bytes, List, [], ◌∷◌, ◌++◌, none, some, if◌then◌else◌, ◌≡◌,
  ◌≢◌, ◌⊎◌, refl, arith, ap, Bool-cases, Option-cases, inl, inr, ◌∙◌,
}
use fbs_core.Metadata.Cache.Ops.{
  CacheKey, CacheEntry, MetadataCache, find, key_eq, remove, put, get, evict_object, evict_bucket,
  evict_objects_in_bucket, remove_objects, in_bucket, bump, bucket_key, object_key,
}
use fbs_core.Metadata.Cache.Lookup.{key_eq_iff, key_eq_refl, total, find-append}
use fbs_core.Metadata.Cache.Budget.{IsExact, IsValid}
use fbs_core.Metadata.Cache.Invariant.{
  find-remove, remove-IsValid, filled, put-Evicted, round, round-IsValid, bump-IsValid,
}

find-filled :
    (c : MetadataCache) (e : CacheEntry) (k : CacheKey)
    → IsExact c
    → find k (filled c e).lru ≡ (if key_eq e.key k then some e else find k c.lru)
unfolding find
find-filled c e k v = ground (arith, find-remove c e.key k v)

-- What a `put` leaves under a key is the new entry, or what was there.
pub find-put :
    (c : MetadataCache) (e x : CacheEntry) (k : CacheKey)
    → IsExact c
    → find k (put c e).lru ≡ some x
    → ((x ≡ e) × (e.key ≡ k)) ⊎ ((find k c.lru ≡ some x) × (key_eq e.key k ≡ false))
find-put c e x k v h =
    let s = put-Evicted c e v in
    let front : find k (filled c e).lru ≡ some x =
      rw s.splits (find-append k (put c e).lru s.dropped x h) in
    elim (Bool-cases (key_eq e.key k)) [
      | inl same ↦ inl (ground (arith, front, find-filled c e k v), (key_eq_iff e.key k).0 same)
      | inr other ↦ inr (ground (arith, front, find-filled c e k v), other)
    ]

front-found :
    (e : CacheEntry) (m l d : List CacheEntry) → e ∷ m ≡ l ++ d → l ≢ [] → find e.key l ≡ some e
unfolding find
front-found e m [] d h n = absurd (n refl)
front-found e m (y ∷ l) d h n = ground (arith, key_eq_refl e.key)

get-found :
    (c : MetadataCache) (k : CacheKey) (e : CacheEntry)
    → 0 < c.max_bytes
    → find k c.lru ≡ some e
    → (get c k).0 ≡ some e.value
unfolding get
get-found c k e p h = ground arith

put-keeps_front :
    (c : MetadataCache) (e : CacheEntry) → IsExact c → e.size ≤ c.max_bytes → (put c e).lru ≢ []
put-keeps_front c e v fits empty =
    let s = put-Evicted c e v in
    let all_dropped : filled_list ≡ s.dropped = rw empty at s.splits in
    elim s.needed [
      | inl n ↦ cc (all_dropped, n)
      | inr (x, rest, same, need) ↦
          let first : e ≡ x = cc (all_dropped, same) in
          omega
            (arith, need, s.exact.account, ap total empty, ap (λ (y : CacheEntry). y.size) first)
    ]
  where
    filled_list : List CacheEntry
    filled_list = (filled c e).lru

-- An entry that fits under the limit is read back after it is put.
pub get-put :
    (c : MetadataCache) (e : CacheEntry)
    → IsExact c
    → 0 < c.max_bytes
    → e.size ≤ c.max_bytes
    → (get (put c e) e.key).0 ≡ some e.value
get-put c e v positive fits =
    let s = put-Evicted c e v in
    get-found (put c e) e.key e (omega (arith, s.limit)) (
      front-found e (remove c e.key).lru (put c e).lru s.dropped s.splits
        (put-keeps_front c e v fits))

module _ (name : Bytes) (j : CacheKey) where
  find-round :
      (e : CacheEntry) (c : MetadataCache)
      → IsExact c
      → find j (round name e c).lru
        ≡ (if in_bucket name e.key && key_eq e.key j then none else find j c.lru)
  find-round e c v = elim (Bool-cases (in_bucket name e.key)) [
    | inl inside ↦ rw inside (find-remove c e.key j v)
    | inr outside ↦ rw outside
  ]

  remove_objects_outside :
      (l : List CacheEntry) (c : MetadataCache)
      → IsValid c
      → in_bucket name j ≡ false
      → find j (remove_objects name l c).lru ≡ find j c.lru
  unfolding remove_objects
  remove_objects_outside [] c v h = refl
  remove_objects_outside (e ∷ l) c v h =
      remove_objects_outside l (round name e c) (round-IsValid name e c v) h
      ∙ ground (arith, key_eq_iff e.key j, find-round e c v.exact)

  remove_objects_absent :
      (l : List CacheEntry) (c : MetadataCache)
      → IsValid c
      → find j c.lru ≡ none
      → find j (remove_objects name l c).lru ≡ none
  unfolding remove_objects
  remove_objects_absent [] c v h = h
  remove_objects_absent (e ∷ l) c v h =
      remove_objects_absent l (round name e c) (round-IsValid name e c v)
        (ground (arith, find-round e c v.exact))

  remove_objects_listed :
      (l : List CacheEntry) (c : MetadataCache)
      → IsValid c
      → in_bucket name j ≡ true
      → find j l ≢ none
      → find j (remove_objects name l c).lru ≡ none
  unfolding remove_objects find
  remove_objects_listed [] c v h n = absurd (n refl)
  remove_objects_listed (e ∷ l) c v h n = elim (Bool-cases (key_eq e.key j)) [
    | inl same ↦
        remove_objects_absent l (round name e c) (round-IsValid name e c v)
          (ground (arith, key_eq_iff e.key j, find-round e c v.exact))
    | inr other ↦
        remove_objects_listed l (round name e c) (round-IsValid name e c v) h
          (λ absent. n (rw other absent))
  ]

  -- The loop removes exactly the objects of the bucket.
  pub find-remove_objects :
      (c : MetadataCache)
      → IsValid c
      → find j (remove_objects name c.lru c).lru ≡ (if in_bucket name j then none else find j c.lru)
  find-remove_objects c v = elim (Bool-cases (in_bucket name j)) [
    | inl inside ↦ rw inside (elim (Option-cases (find j c.lru)) [
      | inl absent ↦ remove_objects_absent c.lru c v absent
      | inr (x, found) ↦ remove_objects_listed c.lru c v inside (λ absent. cc (found, absent))
    ])
    | inr outside ↦ rw outside (remove_objects_outside c.lru c v outside)
  ]

  -- `evictBucket` forgets the bucket and every object in it, and nothing else.
  pub find-evict_bucket :
      (c : MetadataCache)
      → IsValid c
      → 0 < c.max_bytes
      → find j (evict_bucket c name).lru
        ≡ (if key_eq (bucket_key name) j || in_bucket name j then none else find j c.lru)
  unfolding evict_bucket
  find-evict_bucket c v p =
      let c1 = remove (bump c) (bucket_key name) in
      ground (
        arith,
        find-remove_objects c1 (remove-IsValid (bump c) (bucket_key name) (bump-IsValid c v)),
        find-remove (bump c) (bucket_key name) j (bump-IsValid c v).exact,
      )

  pub find-evict_objects_in_bucket :
      (c : MetadataCache)
      → IsValid c
      → 0 < c.max_bytes
      → find j (evict_objects_in_bucket c name).lru
        ≡ (if in_bucket name j then none else find j c.lru)
  unfolding evict_objects_in_bucket
  find-evict_objects_in_bucket c v p =
      ground (arith, find-remove_objects (bump c) (bump-IsValid c v))

pub find-evict_object :
    (c : MetadataCache) (name key : Bytes) (j : CacheKey)
    → IsValid c
    → 0 < c.max_bytes
    → find j (evict_object c name key).lru
      ≡ (if key_eq (object_key name key) j then none else find j c.lru)
unfolding evict_object
find-evict_object c name key j v p =
    ground (arith, find-remove (bump c) (object_key name key) j (bump-IsValid c v).exact)
