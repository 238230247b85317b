-- ===== src/Metadata/Cache/Coherence.antt =====
-- What the cache serves agrees with the table, but for rows whose eviction is under way.
use fbs_core.Base.{
  ℕ, suc, ◌<◌, ◌^◌, true, false, List, ◌∷◌, ◌++◌, Option, none, some, ◌≡◌, ◌⊎◌, inl, inr, refl,
  arith, ap, sym, ◌∙◌, Any,
}
use fbs_core.Metadata.Cache.Ops.{
  CacheKey, CacheEntry, CacheValue, MetadataCache, find, get, put, publish, new_metadata_cache,
}
use fbs_core.Metadata.Cache.Invariant.{get-cases, get-IsValid, put-IsValid, put-Evicted, touched}
use fbs_core.Metadata.Cache.Reads.{find-put}
use fbs_core.Metadata.Cache.World.{
  Scope, covers, any_covers, evict, World, Step, look, start, load, publish_loaded, commit,
  evict_pending, initial, Reach, here, next,
}
use fbs_core.Metadata.Cache.Coherent.{
  Current, IsCoherent, look-find, find-evict, evict-same, evict-IsValid, get-same, publish-cases,
  any_covers-middle,
}

module _ {n : ℕ} {w : World} (i : IsCoherent n w) where
  look-IsCoherent : (k : CacheKey) → IsCoherent (suc n) (record w { cache = (get w.cache k).1 })
  look-IsCoherent k =
      let (limit, revision) = get-same w.cache k in
      record {
        valid = get-IsValid w.cache k i.valid;
        enabled = omega (arith, limit, i.enabled);
        revision = omega (arith, revision, i.revision);
        cached = λ j e h. i.cached j e (sym (look-find w.cache k j i.valid) ∙ h);
        started = λ r m. omega (arith, i.started r m, revision);
        loaded = λ r e m.
            let (le, now) = i.loaded r e m in
            (omega (arith, le, revision), λ q. now (q ∙ revision));
      }

  start-IsCoherent : IsCoherent (suc n) (record w { started = w.cache.revision ∷ w.started })
  start-IsCoherent = record {
    valid = i.valid;
    enabled = i.enabled;
    revision = omega (arith, i.revision);
    cached = i.cached;
    started = λ r m. elim m [ inl e ↦ omega (arith, e) | inr t ↦ i.started r t ];
    loaded = i.loaded;
  }

  load-IsCoherent :
      (r : ℕ) (e : CacheEntry)
      → Any (λ s. s ≡ r) w.started
      → w.table e.key ≡ some e.value
      → IsCoherent (suc n) (record w { loaded = (r, e) ∷ w.loaded })
  load-IsCoherent r e m h = record {
    valid = i.valid;
    enabled = i.enabled;
    revision = omega (arith, i.revision);
    cached = i.cached;
    started = i.started;
    loaded = λ q x l. elim l [
      | inl same ↦
          (let xe : e ≡ x = ap (λ (p : ℕ × CacheEntry). p.1) same in
            (
              omega (arith, i.started r m, ap (λ (p : ℕ × CacheEntry). p.0) same),
              λ _. inr (rw (← xe) h),
            ))
      | inr t ↦ i.loaded q x t
    ];
  }

  later : IsCoherent n w → IsCoherent (suc n) w
  later j = record {
    valid = j.valid;
    enabled = j.enabled;
    revision = omega (arith, j.revision);
    cached = j.cached;
    started = j.started;
    loaded = j.loaded;
  }

  put-IsCoherent :
      (e : CacheEntry)
      → Current w e.key e.value
      → IsCoherent (suc n) (record w { cache = put w.cache e })
  put-IsCoherent e fresh =
      let s = put-Evicted w.cache e i.valid.exact in
      record {
        valid = put-IsValid w.cache e i.valid;
        enabled = omega (arith, s.limit, i.enabled);
        revision = omega (arith, s.revision, i.revision);
        cached = λ k x h. elim (find-put w.cache e x k i.valid.exact h) [
          | inl (xe, ek) ↦ rw (xe, ← ek) fresh
          | inr (old, _) ↦ i.cached k x old
        ];
        started = λ r m. omega (arith, i.started r m, s.revision);
        loaded = λ r x m.
            let (le, now) = i.loaded r x m in
            (omega (arith, le, s.revision), λ q. now (q ∙ s.revision));
      }

  publish-IsCoherent :
      (r : ℕ) (e : CacheEntry)
      → Any (λ l. l ≡ (r, e)) w.loaded
      → IsCoherent (suc n) (record w { cache = (publish w.cache e r).1 })
  publish-IsCoherent r e m = elim (publish-cases w.cache e r) [
    | inl same ↦ rw same (later i)
    | inr (now, done) ↦ rw done (put-IsCoherent e ((i.loaded r e m).1 now))
  ]

  commit-IsCoherent :
      (s : Scope) (t : CacheKey → Option CacheValue)
      → ((k : CacheKey) → covers s k ≡ false → t k ≡ w.table k)
      → IsCoherent (suc n) (record w { table = t; pending = s ∷ w.pending })
  commit-IsCoherent s t frame = record {
    valid = i.valid;
    enabled = i.enabled;
    revision = omega (arith, i.revision);
    cached = λ k e h. committed k e.value (i.cached k e h);
    started = i.started;
    loaded = λ r e m. let (le, now) = i.loaded r e m in (le, λ q. committed e.key e.value (now q));
  }
    where
      committed :
          (k : CacheKey) (v : CacheValue)
          → Current w k v
          → Current (record w { table = t; pending = s ∷ w.pending }) k v
      committed k v h = ground (arith, frame k)

  evict-IsCoherent :
      (before : List Scope) (s : Scope) (after : List Scope)
      → suc n < 2 ^ 64
      → w.pending ≡ before ++ (s ∷ after)
      → IsCoherent (suc n) (record w { cache = evict w.cache s; pending = before ++ after })
  evict-IsCoherent before s after small e =
      let (limit, revision) = evict-same w.cache s i.enabled in
      record {
        valid = evict-IsValid w.cache s i.valid;
        enabled = omega (arith, limit, i.enabled);
        revision = omega (arith, revision, i.revision, small);
        cached = λ k x h. kept k x h;
        started = λ r m. omega (arith, i.started r m, revision, i.revision, small);
        loaded = λ r x m.
            let (le, now) = i.loaded r x m in
            (
              omega (arith, le, revision, i.revision, small),
              λ q. absurd (omega (arith, le, q, revision, i.revision, small)),
            );
      }
    where
      kept :
          (k : CacheKey) (x : CacheEntry)
          → find k (evict w.cache s).lru ≡ some x
          → Current (record w { cache = evict w.cache s; pending = before ++ after }) k x.value
      kept k x h = ground (
        arith,
        find-evict w.cache s k i.valid i.enabled,
        i.cached k x,
        any_covers-middle before s after k,
        ap (λ (l : List Scope). any_covers l k) e,
      )

Step-IsCoherent :
    {n : ℕ} {v w : World} → Step v w → suc n < 2 ^ 64 → IsCoherent n v → IsCoherent (suc n) w
Step-IsCoherent (look k) small i = look-IsCoherent i k
Step-IsCoherent start small i = start-IsCoherent i
Step-IsCoherent (load r e m h) small i = load-IsCoherent i r e m h
Step-IsCoherent (publish_loaded r e m) small i = publish-IsCoherent i r e m
Step-IsCoherent (commit s t frame) small i = commit-IsCoherent i s t frame
Step-IsCoherent (evict_pending before s after e) small i = evict-IsCoherent i before s after small e

initial-IsCoherent :
    (max_bytes : ℕ) (table : CacheKey → Option CacheValue) (n : ℕ)
    → 0 < max_bytes
    → IsCoherent n (initial max_bytes table)
unfolding new_metadata_cache find
initial-IsCoherent max_bytes table n p = record {
  valid = record { exact = record { distinct = tt; account = refl }; bounded = omega arith };
  enabled = p;
  revision = omega arith;
  cached = λ k e h. cc;
  started = λ r m. absurd m;
  loaded = λ r e m. absurd m;
}

module _ {max_bytes : ℕ} {table : CacheKey → Option CacheValue} (enabled : 0 < max_bytes) where
  Reach-IsCoherent : {n : ℕ} {w : World} → Reach max_bytes table n w → n < 2 ^ 64 → IsCoherent n w
  Reach-IsCoherent (here n e) small = initial-IsCoherent max_bytes table n enabled
  Reach-IsCoherent (next {n} r s) small = Step-IsCoherent s small (Reach-IsCoherent r (omega arith))

  -- However reads and writes interleave, a value that the cache serves is the row of the table as
  -- it is now, unless a write that covers the key has committed and not yet evicted. The number
  -- of steps is below 2^64, since the revision is counted in 64 bits.
  pub get-Current :
      {n : ℕ} {w : World} (k : CacheKey) (v : CacheValue)
      → Reach max_bytes table n w
      → n < 2 ^ 64
      → (get w.cache k).0 ≡ some v
      → (w.table k ≡ some v) ⊎ (any_covers w.pending k ≡ true)
  get-Current {n} {w} k v r small h = elim (get-cases w.cache k) [
    | inl e ↦ absurd (missed e)
    | inr (x, same, found, e) ↦ hit x found e ((Reach-IsCoherent r small).cached k x found)
  ]
    where
      missed : get w.cache k ≡ (none, w.cache) → ⊥
      missed e = cc (ap (λ (p : Option CacheValue × MetadataCache). p.0) e)

      hit :
          (x : CacheEntry)
          → find k w.cache.lru ≡ some x
          → get w.cache k ≡ (some x.value, touched w.cache x)
          → Current w k x.value
          → (w.table k ≡ some v) ⊎ (any_covers w.pending k ≡ true)
      hit x found e now =
          let same : some x.value ≡ some v =
            sym (ap (λ (p : Option CacheValue × MetadataCache). p.0) e) ∙ h in
          elim now [ inl p ↦ inr p | inr t ↦ inl (t ∙ same) ]
