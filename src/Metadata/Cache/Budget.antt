-- ===== src/Metadata/Cache/Budget.antt =====
-- The invariant of the cache, kept by every operation: the account is exact and within the limit.
use fbs_core.Base.{
  ℕ, zero, suc, ◌+◌, ◌≤◌, ◌<◌, true, false, List, [], ◌∷◌, ◌++◌, none, some, length, ltb, ltb→lt,
  ◌≡◌, ◌⊎◌, refl, arith, ap, sym, Bool-cases, Option-cases, inl, inr, ◌∙◌, append_assoc, append-nil,
  length-append,
}
use fbs_core.Metadata.Cache.Ops.{
  CacheKey, CacheEntry, MetadataCache, find, without, remove_element, remove, back, evict_rounds,
  evict_over_budget,
}
use fbs_core.Metadata.Cache.Lookup.{
  Distinct, total, key-find, total-without, Distinct-without, find-back,
}

-- The list has no key twice, and `used` is the sum of its sizes.
pub record IsExact (c : MetadataCache) : Type 0 where
  pub distinct : Distinct c.lru
  pub account : c.used ≡ total c.lru

-- Besides, the sum is within the limit.
pub record IsValid (c : MetadataCache) : Type 0 where
  pub exact : IsExact c
  pub bounded : c.used ≤ c.max_bytes

module _ (c : MetadataCache) (e : CacheEntry) (v : IsExact c) (h : find e.key c.lru ≡ some e) where
  pub used-remove_element : (remove_element c e).used + e.size ≡ c.used
  unfolding remove_element
  used-remove_element = omega (arith, total-without e.key c.lru e h, v.account)

  pub remove_element-IsExact : IsExact (remove_element c e)
  unfolding remove_element
  remove_element-IsExact = record {
    distinct = Distinct-without e.key c.lru v.distinct;
    account = omega (arith, total-without e.key c.lru e h, v.account);
  }

-- `removeLocked` takes out at most the element of its key.
pub remove-cases :
    (c : MetadataCache) (k : CacheKey)
    → ((find k c.lru ≡ none) × (remove c k ≡ c))
      ⊎ ((e : CacheEntry) × (e.key ≡ k)
          × (find e.key c.lru ≡ some e)
          × (remove c k ≡ remove_element c e))
unfolding remove
remove-cases c k = elim (Option-cases (find k c.lru)) [
  | inl e ↦ inl (e, rw (e, remove))
  | inr (x, e) ↦
      let same = key-find k c.lru x e in
      inr (x, same, ap (λ q. find q c.lru) same ∙ e, rw (e, remove))
]

pub remove-IsExact : (c : MetadataCache) (k : CacheKey) → IsExact c → IsExact (remove c k)
remove-IsExact c k v = elim (remove-cases c k) [
  | inl (_, e) ↦ rw e v
  | inr (x, _, found, e) ↦ rw e (remove_element-IsExact c x v found)
]

-- What the eviction loop does: it cuts elements off the back, no more than needed.
pub record Evicted (c r : MetadataCache) : Type 0 where
  pub exact : IsExact r
  pub bounded : r.used ≤ c.max_bytes
  pub limit : r.max_bytes ≡ c.max_bytes
  pub revision : r.revision ≡ c.revision
  pub dropped : List CacheEntry
  pub splits : c.lru ≡ r.lru ++ dropped
  pub needed :
      (dropped ≡ [])
      ⊎ ((x : CacheEntry) × (rest : List CacheEntry) × (dropped ≡ x ∷ rest)
          × (c.max_bytes < r.used + x.size))

Evicted-none : (c : MetadataCache) → IsExact c → c.used ≤ c.max_bytes → Evicted c c
Evicted-none c v h = record {
  exact = v;
  bounded = h;
  limit = refl;
  revision = refl;
  dropped = [];
  splits = sym (append-nil c.lru);
  needed = inl refl;
}

evict_rounds-fits :
    (n : ℕ) (c : MetadataCache) → ltb c.max_bytes c.used ≡ false → evict_rounds (suc n) c ≡ c
unfolding evict_rounds
evict_rounds-fits n c h = rw (h, evict_rounds)

evict_rounds-over :
    (n : ℕ) (c : MetadataCache) (e : CacheEntry)
    → ltb c.max_bytes c.used ≡ true
    → back c.lru ≡ some e
    → evict_rounds (suc n) c ≡ evict_rounds n (remove_element c e)
unfolding evict_rounds
evict_rounds-over n c e h b = ground arith

back-none : (l : List CacheEntry) → back l ≡ none → l ≡ []
back-none [] h = refl
back-none (x ∷ []) h = cc
back-none (x ∷ y ∷ l) h = cc (back-none (y ∷ l) h)

length-remove_element :
    (c : MetadataCache) (e : CacheEntry)
    → c.lru ≡ without e.key c.lru ++ (e ∷ [])
    → length (remove_element c e).lru + 1 ≡ length c.lru
unfolding remove_element
length-remove_element c e h =
    omega (arith, ap length h, length-append (without e.key c.lru) (e ∷ []))

length-zero : (l : List CacheEntry) → length l ≤ 0 → l ≡ []
length-zero [] h = refl
length-zero (x ∷ l) h = absurd (omega arith)

Evicted-step :
    (c r : MetadataCache) (e : CacheEntry)
    → IsExact c
    → c.max_bytes < c.used
    → find e.key c.lru ≡ some e
    → c.lru ≡ without e.key c.lru ++ (e ∷ [])
    → Evicted (remove_element c e) r
    → Evicted c r
unfolding remove_element
Evicted-step c r e v over found cuts s = record {
  exact = s.exact;
  bounded = s.bounded;
  limit = s.limit;
  revision = s.revision;
  dropped = s.dropped ++ (e ∷ []);
  splits = cuts ∙ ap (λ l. l ++ (e ∷ [])) s.splits ∙ append_assoc r.lru s.dropped (e ∷ []);
  needed = elim s.needed [
    | inl none_dropped ↦
        let same : without e.key c.lru ≡ r.lru = s.splits ∙ rw none_dropped (append-nil r.lru) in
        inr (
          e,
          [],
          rw none_dropped,
          omega
              (arith, v.account, s.exact.account, total-without e.key c.lru e found, ap total same),
        )
    | inr (x, rest, same, need) ↦ inr (x, rest ++ (e ∷ []), rw same, need)
  ];
}

evict_rounds-Evicted :
    (n : ℕ) (c : MetadataCache) → IsExact c → length c.lru ≤ n → Evicted c (evict_rounds n c)
evict_rounds-Evicted zero c v h =
    unfold evict_rounds in Evicted-none c v (rw v.account (rw (length-zero c.lru h) (omega arith)))
evict_rounds-Evicted (suc n) c v h = elim (Bool-cases (ltb c.max_bytes c.used)) [
  | inl over ↦ elim (Option-cases (back c.lru)) [
    | inl b ↦
        absurd
          (omega (arith, v.account, ap total (back-none c.lru b), ltb→lt c.max_bytes c.used over))
    | inr (e, b) ↦
        let (found, cuts) = find-back c.lru e v.distinct b in
        rw (evict_rounds-over n c e over b) (
          Evicted-step c _ e v (ltb→lt _ _ over) found cuts (
            evict_rounds-Evicted n (remove_element c e) (remove_element-IsExact c e v found)
              (omega (arith, length-remove_element c e cuts))))
  ]
  | inr fits ↦ rw (evict_rounds-fits n c fits) (Evicted-none c v (ground arith))
]

pub evict_over_budget-Evicted : (c : MetadataCache) → IsExact c → Evicted c (evict_over_budget c)
unfolding evict_over_budget
evict_over_budget-Evicted c v = evict_rounds-Evicted (length c.lru) c v (omega arith)
