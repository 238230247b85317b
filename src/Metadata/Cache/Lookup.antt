-- ===== src/Metadata/Cache/Lookup.antt =====
-- What the operations on the list do to a lookup.
use fbs_core.Base.{
  ℕ, ◌+◌, true, List, [], ◌∷◌, ◌++◌, none, some, str_eq_iff, if◌then◌else◌, ◌≡◌, ◌↔◌, refl, arith,
  ap, sym, Bool-cases, inl, inr, ◌∙◌,
}
use fbs_core.Metadata.Cache.Ops.{CacheKey, key_eq, CacheEntry, find, without, back}

pub key_eq_iff : (a b : CacheKey) → (key_eq a b ≡ true) ↔ (a ≡ b)
unfolding key_eq
key_eq_iff a b =
    ground (arith, str_eq_iff a.bucket_name b.bucket_name, str_eq_iff a.object_key b.object_key)

pub key_eq_refl : (k : CacheKey) → key_eq k k ≡ true
key_eq_refl k = (key_eq_iff k k).1 refl

-- Every key stands once in the list.
abbrev pub Distinct : List CacheEntry → Type 0
Distinct [] = Unit
Distinct (e ∷ rest) = (find e.key rest ≡ none) × Distinct rest

abbrev pub total : List CacheEntry → ℕ
total [] = 0
total (e ∷ rest) = e.size + total rest

module _ (k : CacheKey) where
  pub key-find : (l : List CacheEntry) (e : CacheEntry) → find k l ≡ some e → e.key ≡ k
  unfolding find
  key-find [] e h = cc
  key-find (x ∷ l) e h = ground (arith, key_eq_iff x.key k, key-find l e)

  pub total-without :
      (l : List CacheEntry) (e : CacheEntry)
      → find k l ≡ some e
      → total (without k l) + e.size ≡ total l
  unfolding find without
  total-without [] e h = cc
  total-without (x ∷ l) e h = ground (arith, total-without l e)

  pub without_absent : (l : List CacheEntry) → find k l ≡ none → without k l ≡ l
  unfolding find without
  without_absent [] h = refl
  without_absent (x ∷ l) h = ground (arith, without_absent l)

pub find-without :
    (k j : CacheKey) (l : List CacheEntry)
    → Distinct l
    → find j (without k l) ≡ (if key_eq k j then none else find j l)
unfolding find without
find-without k j [] d = ground arith
find-without k j (x ∷ l) d =
    ground
      (arith, key_eq_iff x.key k, key_eq_iff x.key j, key_eq_iff k j, find-without k j l d.1, d.0)

pub Distinct-without : (k : CacheKey) (l : List CacheEntry) → Distinct l → Distinct (without k l)
unfolding without
Distinct-without k [] d = tt
Distinct-without k (x ∷ l) d =
    ground (arith, Distinct-without k l d.1, find-without k x.key l d.1, key_eq_iff k x.key)

find-same : (j k : CacheKey) (l : List CacheEntry) → key_eq j k ≡ true → find k l ≡ find j l
find-same j k l h = ap (λ q. find q l) (sym ((key_eq_iff j k).0 h))

-- The last element is found by its key, and to remove it is to cut it off.
pub find-back :
    (l : List CacheEntry) (e : CacheEntry)
    → Distinct l
    → back l ≡ some e
    → (find e.key l ≡ some e) × (l ≡ without e.key l ++ (e ∷ []))
unfolding find without
find-back [] e d h = cc
find-back (x ∷ []) e d h = ground (arith, key_eq_iff x.key e.key)
find-back (x ∷ y ∷ l) e d h =
    let (found, cuts) = find-back (y ∷ l) e d.1 h in
    elim (Bool-cases (key_eq x.key e.key)) [
      | inl same ↦
          let clash = sym (find-same x.key e.key (y ∷ l) same) ∙ found in absurd (cc (clash, d.0))
      | inr other ↦ (rw other found, rw other (ap (◌∷◌ x) cuts))
    ]

pub find-append-none :
    (k : CacheKey) (l : List CacheEntry) (m : List CacheEntry)
    → find k (l ++ m) ≡ none
    → find k l ≡ none
unfolding find
find-append-none k [] m h = refl
find-append-none k (x ∷ l) m h = ground (arith, find-append-none k l m)

-- What is found in a front part is found in the whole.
pub find-append :
    (k : CacheKey) (l m : List CacheEntry) (e : CacheEntry)
    → find k l ≡ some e
    → find k (l ++ m) ≡ some e
unfolding find
find-append k [] m e h = cc
find-append k (x ∷ l) m e h = ground (arith, find-append k l m e)
