-- ===== src/Metadata/Cache/Invariant.antt =====
-- Every operation of the cache keeps its account exact and within the limit.
use fbs_core.Base.{
  ℕ, ◌+◌, ◌≤◌, Bytes, List, [], ◌∷◌, none, some, if◌then◌else◌, ◌≡◌, ◌⊎◌, refl, arith, ap,
  Bool-cases, Option-cases, inl, inr, ◌∙◌,
}
use fbs_core.Metadata.Cache.Ops.{
  CacheKey, CacheEntry, MetadataCache, find, without, key_eq, remove_element, remove,
  evict_over_budget, put, new_metadata_cache, get, publish, evict_object, evict_bucket,
  evict_objects_in_bucket, remove_objects, in_bucket, bump, disabled, bucket_key, object_key,
}
use fbs_core.Metadata.Cache.Lookup.{
  key_eq_iff, key_eq_refl, key-find, total-without, find-without, Distinct-without,
}
use fbs_core.Metadata.Cache.Budget.{
  IsExact, IsValid, Evicted, remove-cases, remove-IsExact, used-remove_element,
  evict_over_budget-Evicted,
}

-- A lookup after `removeLocked`.
pub find-remove :
    (c : MetadataCache) (k j : CacheKey)
    → IsExact c
    → find j (remove c k).lru ≡ (if key_eq k j then none else find j c.lru)
find-remove c k j v = elim (remove-cases c k) [
  | inl (absent, e) ↦ rw e (find-absent j absent)
  | inr (x, same, _, e) ↦
      rw (e, ← same) (unfold remove_element in find-without x.key j c.lru v.distinct)
]
  where
    find-absent :
        (j : CacheKey)
        → find k c.lru ≡ none
        → find j c.lru ≡ (if key_eq k j then none else find j c.lru)
    find-absent j absent = ground (arith, key_eq_iff k j)

pub remove-same :
    (c : MetadataCache) (k : CacheKey)
    → ((remove c k).max_bytes ≡ c.max_bytes) × ((remove c k).revision ≡ c.revision)
unfolding remove remove_element
remove-same c k = ground arith

pub used-remove-le : (c : MetadataCache) (k : CacheKey) → IsExact c → (remove c k).used ≤ c.used
used-remove-le c k v = elim (remove-cases c k) [
  | inl (_, e) ↦ rw e (omega arith)
  | inr (x, _, found, e) ↦ rw e (omega (arith, used-remove_element c x v found))
]

pub remove-IsValid : (c : MetadataCache) (k : CacheKey) → IsValid c → IsValid (remove c k)
remove-IsValid c k v = record {
  exact = remove-IsExact c k v.exact;
  bounded = omega (arith, v.bounded, used-remove-le c k v.exact, (remove-same c k).0);
}

-- The cache just before the eviction loop of `putLocked`.
abbrev pub filled : MetadataCache → CacheEntry → MetadataCache
filled c e = record c { used = (remove c e.key).used + e.size; lru = e ∷ (remove c e.key).lru }

filled-IsExact : (c : MetadataCache) (e : CacheEntry) → IsExact c → IsExact (filled c e)
filled-IsExact c e v = record {
  distinct =
      (find-remove c e.key e.key v ∙ rw (key_eq_refl e.key), (remove-IsExact c e.key v).distinct);
  account = omega (arith, (remove-IsExact c e.key v).account);
}

put-filled : (c : MetadataCache) (e : CacheEntry) → put c e ≡ evict_over_budget (filled c e)
unfolding put
put-filled c e = ground (arith, remove-same c e.key)

-- A `put` adds its entry at the front and then drops entries from the back, the least recently
-- used first, no more than the limit demands; the account stays exact.
pub put-Evicted : (c : MetadataCache) (e : CacheEntry) → IsExact c → Evicted (filled c e) (put c e)
put-Evicted c e v = rw put-filled (evict_over_budget-Evicted (filled c e) (filled-IsExact c e v))

pub put-IsValid : (c : MetadataCache) (e : CacheEntry) → IsValid c → IsValid (put c e)
put-IsValid c e v =
    let s = put-Evicted c e v.exact in
    record { exact = s.exact; bounded = omega (arith, s.bounded, s.limit) }

abbrev pub touched : MetadataCache → CacheEntry → MetadataCache
touched c e = record c { lru = e ∷ without e.key c.lru }

-- A read misses and changes nothing, or returns the entry of its key and moves it to the front.
pub get-cases :
    (c : MetadataCache) (k : CacheKey)
    → (get c k ≡ (none, c))
      ⊎ ((e : CacheEntry) × (e.key ≡ k)
          × (find k c.lru ≡ some e)
          × (get c k ≡ (some e.value, touched c e)))
unfolding get
get-cases c k = elim (Option-cases (find k c.lru)) [
  | inl h ↦ inl (ground arith)
  | inr (e, h) ↦ elim (Bool-cases (disabled c)) [
    | inl off ↦ inl (ground arith)
    | inr on ↦ inr (e, key-find k c.lru e h, h, ground (arith, key-find k c.lru e h))
  ]
]

touched-IsValid :
    (c : MetadataCache) (e : CacheEntry)
    → find e.key c.lru ≡ some e
    → IsValid c
    → IsValid (touched c e)
touched-IsValid c e h v = record {
  exact = record {
    distinct = (
      find-without e.key e.key c.lru v.exact.distinct ∙ rw (key_eq_refl e.key),
      Distinct-without e.key c.lru v.exact.distinct,
    );
    account = omega (arith, v.exact.account, total-without e.key c.lru e h);
  };
  bounded = v.bounded;
}

pub get-IsValid : (c : MetadataCache) (k : CacheKey) → IsValid c → IsValid (get c k).1
get-IsValid c k v = elim (get-cases c k) [
  | inl e ↦ rw e v
  | inr (x, same, found, e) ↦ rw e (touched-IsValid c x (ap (λ q. find q c.lru) same ∙ found) v)
]

pub publish-IsValid :
    (c : MetadataCache) (e : CacheEntry) (revision : ℕ)
    → IsValid c
    → IsValid (publish c e revision).1
unfolding publish
publish-IsValid c e revision v = ground (arith, put-IsValid c e v)

pub bump-IsValid : (c : MetadataCache) → IsValid c → IsValid (bump c)
bump-IsValid c v = record {
  exact = record { distinct = v.exact.distinct; account = v.exact.account };
  bounded = v.bounded;
}

-- One round of the loop over the keys of the map.
abbrev pub round : Bytes → CacheEntry → MetadataCache → MetadataCache
round name e c = if in_bucket name e.key then remove c e.key else c

pub round-IsValid :
    (name : Bytes) (e : CacheEntry) (c : MetadataCache) → IsValid c → IsValid (round name e c)
round-IsValid name e c v = elim (Bool-cases (in_bucket name e.key)) [
  | inl inside ↦ rw inside (remove-IsValid c e.key v)
  | inr outside ↦ rw outside v
]

pub remove_objects-IsValid :
    (name : Bytes) (l : List CacheEntry) (c : MetadataCache)
    → IsValid c
    → IsValid (remove_objects name l c)
unfolding remove_objects
remove_objects-IsValid name [] c v = v
remove_objects-IsValid name (e ∷ l) c v =
    remove_objects-IsValid name l (round name e c) (round-IsValid name e c v)

pub remove_objects-same :
    (name : Bytes) (l : List CacheEntry) (c : MetadataCache)
    → ((remove_objects name l c).max_bytes ≡ c.max_bytes)
      × ((remove_objects name l c).revision ≡ c.revision)
unfolding remove_objects
remove_objects-same name [] c = (refl, refl)
remove_objects-same name (e ∷ l) c =
    ground (arith, remove_objects-same name l (round name e c), remove-same c e.key)

-- The methods of the cache that change it.
pub data Call : Type 0 where
  read : CacheKey → Call
  store : CacheEntry → Call
  publish_at : CacheEntry → ℕ → Call
  drop_object : Bytes → Bytes → Call
  drop_bucket : Bytes → Call
  drop_objects : Bytes → Call

pub run_call : MetadataCache → Call → MetadataCache
run_call c (read k) = (get c k).1
run_call c (store e) = if disabled c then c else put c e
run_call c (publish_at e revision) = (publish c e revision).1
run_call c (drop_object name key) = evict_object c name key
run_call c (drop_bucket name) = evict_bucket c name
run_call c (drop_objects name) = evict_objects_in_bucket c name

pub run_calls : MetadataCache → List Call → MetadataCache
run_calls c [] = c
run_calls c (call ∷ rest) = run_calls (run_call c call) rest

pub evict_bucket-IsValid :
    (c : MetadataCache) (name : Bytes) → IsValid c → IsValid (evict_bucket c name)
unfolding evict_bucket
evict_bucket-IsValid c name v = ground (
  arith,
  v,
  remove_objects-IsValid name (remove (bump c) (bucket_key name)).lru
      (remove (bump c) (bucket_key name))
      (remove-IsValid (bump c) (bucket_key name) (bump-IsValid c v)),
)

pub evict_objects_in_bucket-IsValid :
    (c : MetadataCache) (name : Bytes) → IsValid c → IsValid (evict_objects_in_bucket c name)
unfolding evict_objects_in_bucket
evict_objects_in_bucket-IsValid c name v =
    ground (arith, v, remove_objects-IsValid name c.lru (bump c) (bump-IsValid c v))

pub evict_object-IsValid :
    (c : MetadataCache) (name key : Bytes) → IsValid c → IsValid (evict_object c name key)
unfolding evict_object
evict_object-IsValid c name key v =
    ground (arith, v, remove-IsValid (bump c) (object_key name key) (bump-IsValid c v))

run_call-IsValid : (c : MetadataCache) (call : Call) → IsValid c → IsValid (run_call c call)
unfolding run_call
run_call-IsValid c (read k) v = get-IsValid c k v
run_call-IsValid c (store e) v = ground (arith, v, put-IsValid c e v)
run_call-IsValid c (publish_at e revision) v = publish-IsValid c e revision v
run_call-IsValid c (drop_object name key) v = evict_object-IsValid c name key v
run_call-IsValid c (drop_bucket name) v = evict_bucket-IsValid c name v
run_call-IsValid c (drop_objects name) v = evict_objects_in_bucket-IsValid c name v

run_calls-IsValid :
    (calls : List Call) (c : MetadataCache) → IsValid c → IsValid (run_calls c calls)
unfolding run_calls
run_calls-IsValid [] c v = v
run_calls-IsValid (call ∷ rest) c v =
    run_calls-IsValid rest (run_call c call) (run_call-IsValid c call v)

-- Whatever calls a new cache takes, no key is held twice, the account is the sum of the sizes of
-- the entries held, and that sum never exceeds the limit.
pub run_calls_new-IsValid :
    (max_bytes : ℕ) (calls : List Call) → IsValid (run_calls (new_metadata_cache max_bytes) calls)
unfolding new_metadata_cache
run_calls_new-IsValid max_bytes calls =
    run_calls-IsValid calls (new_metadata_cache max_bytes)
      (record { exact = record { distinct = tt; account = refl }; bounded = omega arith })
