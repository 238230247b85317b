-- ===== src/Metadata/Cache/Coherent.antt =====
-- The invariant of the interleaved steps, and what each operation keeps of the cache.
use fbs_core.Base.{
  ℕ, ◌+◌, ◌≤◌, ◌<◌, ◌%◌, ◌^◌, true, ◌||◌, List, [], ◌∷◌, ◌++◌, none, some, ◌≡◌, ◌⊎◌, inl, inr, refl,
  arith, ap, sym, ◌∙◌, Any, Bool-cases, if◌then◌else◌,
}
use fbs_core.Metadata.Cache.Ops.{
  CacheKey, CacheEntry, CacheValue, MetadataCache, key_eq, find, get, put, publish, evict_object,
  evict_bucket, evict_objects_in_bucket, remove, bump, bucket_key, object_key,
}
use fbs_core.Metadata.Cache.Lookup.{find-without, key_eq_iff}
use fbs_core.Metadata.Cache.Budget.{IsValid}
use fbs_core.Metadata.Cache.Invariant.{
  get-cases, touched, remove-same, remove_objects-same, evict_object-IsValid, evict_bucket-IsValid,
  evict_objects_in_bucket-IsValid,
}
use fbs_core.Metadata.Cache.Reads.{
  find-evict_bucket, find-evict_object, find-evict_objects_in_bucket,
}
use fbs_core.Metadata.Cache.World.{
  Scope, one_object, whole_bucket, all_objects, covers, any_covers, evict, World,
}

-- A value is what the table holds, or a write of its key has yet to evict.
abbrev pub Current : World → CacheKey → CacheValue → Type 0
Current w k v = (any_covers w.pending k ≡ true) ⊎ (w.table k ≡ some v)

pub record IsCoherent (n : ℕ) (w : World) : Type 0 where
  pub valid : IsValid w.cache
  pub enabled : 0 < w.cache.max_bytes
  pub revision : w.cache.revision ≤ n
  pub cached : (k : CacheKey) (e : CacheEntry) → find k w.cache.lru ≡ some e → Current w k e.value
  pub started : (r : ℕ) → Any (λ s. s ≡ r) w.started → r ≤ w.cache.revision
  pub loaded :
      (r : ℕ) (e : CacheEntry)
      → Any (λ l. l ≡ (r, e)) w.loaded
      → (r ≤ w.cache.revision) × (r ≡ w.cache.revision → Current w e.key e.value)

pub any_covers-middle :
    (before : List Scope) (s : Scope) (after : List Scope) (k : CacheKey)
    → any_covers (before ++ (s ∷ after)) k ≡ (covers s k || any_covers (before ++ after) k)
any_covers-middle [] s after k = refl
any_covers-middle (b ∷ before) s after k = ground (arith, any_covers-middle before s after k)

find-touched :
    (c : MetadataCache) (e : CacheEntry) (j : CacheKey)
    → IsValid c
    → find e.key c.lru ≡ some e
    → find j (touched c e).lru ≡ find j c.lru
find-touched c e j v h = elim (Bool-cases (key_eq e.key j)) [
  | inl same ↦
      unfold find in rw same (sym (ap (λ q. find q c.lru) (sym ((key_eq_iff e.key j).0 same)) ∙ h))
  | inr other ↦ unfold find in rw other (find-without e.key j c.lru v.exact.distinct ∙ rw other)
]

pub look-find :
    (c : MetadataCache) (k j : CacheKey) → IsValid c → find j (get c k).1.lru ≡ find j c.lru
look-find c k j v = elim (get-cases c k) [
  | inl e ↦ rw e
  | inr (x, same, found, e) ↦ rw e (find-touched c x j v (ap (λ q. find q c.lru) same ∙ found))
]

pub find-evict :
    (c : MetadataCache) (s : Scope) (j : CacheKey)
    → IsValid c
    → 0 < c.max_bytes
    → find j (evict c s).lru ≡ (if covers s j then none else find j c.lru)
unfolding evict
find-evict c (one_object name key) j v p = find-evict_object c name key j v p
find-evict c (whole_bucket name) j v p = find-evict_bucket name j c v p
find-evict c (all_objects name) j v p = find-evict_objects_in_bucket name j c v p

-- An eviction raises the revision, which is counted in 64 bits.
pub evict-same :
    (c : MetadataCache) (s : Scope)
    → 0 < c.max_bytes
    → ((evict c s).max_bytes ≡ c.max_bytes) × ((evict c s).revision ≡ (c.revision + 1) % 2 ^ 64)
unfolding evict evict_object evict_bucket evict_objects_in_bucket
evict-same c (one_object name key) p = ground (arith, remove-same (bump c) (object_key name key))
evict-same c (whole_bucket name) p =
    let c1 = remove (bump c) (bucket_key name) in
    ground (arith, remove_objects-same name c1.lru c1, remove-same (bump c) (bucket_key name))
evict-same c (all_objects name) p = ground (arith, remove_objects-same name c.lru (bump c))

pub evict-IsValid : (c : MetadataCache) (s : Scope) → IsValid c → IsValid (evict c s)
unfolding evict
evict-IsValid c (one_object name key) v = evict_object-IsValid c name key v
evict-IsValid c (whole_bucket name) v = evict_bucket-IsValid c name v
evict-IsValid c (all_objects name) v = evict_objects_in_bucket-IsValid c name v

pub get-same :
    (c : MetadataCache) (k : CacheKey)
    → ((get c k).1.max_bytes ≡ c.max_bytes) × ((get c k).1.revision ≡ c.revision)
get-same c k = elim (get-cases c k) [ inl e ↦ (rw e, rw e) | inr (x, _, _, e) ↦ (rw e, rw e) ]

pub publish-cases :
    (c : MetadataCache) (e : CacheEntry) (r : ℕ)
    → ((publish c e r).1 ≡ c) ⊎ ((r ≡ c.revision) × ((publish c e r).1 ≡ put c e))
unfolding publish
publish-cases c e r = ground arith
