-- ===== src/Metadata/Buckets/Owner.antt =====
-- The transfer of a bucket to another owner.
use fbs_core.Base.{
  Bool, true, false, not, Bytes, List, [], ◌∷◌, some, str_eq, str_eq_iff, ok, err, checked-ok, ◌≡◌,
  refl, arith, Option-cases, Bool-cases, inl, inr,
}
use fbs_core.Metadata.Model.{Bucket, bucket_not_found, constraint_failed}
use fbs_core.Metadata.Buckets.Rows.{find_bucket, set_owner, update_owner}

find-set_owner :
    (name owner_id expected : Bytes) (l : List Bucket) (b : Bucket)
    → find_bucket name l ≡ some b
    → str_eq b.owner_id expected ≡ true
    → find_bucket name (set_owner name owner_id expected l)
      ≡ some (record b { owner_id = owner_id })
unfolding find_bucket set_owner
find-set_owner name owner_id expected [] b found owned = cc
find-set_owner name owner_id expected (x ∷ l) b found owned =
    elim (Bool-cases (str_eq x.name name)) [
      | inl e ↦
          let same : x ≡ b = ground (arith, e, found) in
          let owned_by : str_eq x.owner_id expected ≡ true = rw same owned in
          rw (← same) (rw (e, owned_by) (rw e refl))
      | inr e ↦
          rw e (rw e (find-set_owner name owner_id expected l b (ground (arith, e, found)) owned))
    ]

find_other-set_owner :
    (name owner_id expected other : Bytes) (l : List Bucket)
    → str_eq other name ≡ false
    → find_bucket other (set_owner name owner_id expected l) ≡ find_bucket other l
unfolding find_bucket set_owner
find_other-set_owner name owner_id expected other [] h = refl
find_other-set_owner name owner_id expected other (x ∷ l) h = ground (
  arith,
  h,
  find_other-set_owner name owner_id expected other l h,
  str_eq_iff x.name name,
  str_eq_iff x.name other,
  str_eq_iff other name,
)

module _ (known_user : Bytes → Bool) where
  -- If a transfer of a bucket from one owner to another one succeeds, the bucket had the former, has the
  -- latter and keeps the rest of its row; every other bucket is as it was; and any further transfer from
  -- the former owner fails with the error of a bucket that is not there.
  pub update_owner-ok :
      (name owner_id expected : Bytes) (l after : List Bucket)
      → update_owner known_user name owner_id expected l ≡ ok after
      → str_eq owner_id expected ≡ false
      → ((b : Bucket) × (find_bucket name l ≡ some b)
          × (str_eq b.owner_id expected ≡ true)
          × (find_bucket name after ≡ some (record b { owner_id = owner_id })))
        × ((other : Bytes)
            → str_eq other name ≡ false
            → find_bucket other after ≡ find_bucket other l)
        × ((next : Bytes) → update_owner known_user name next expected after ≡ err bucket_not_found)
  unfolding update_owner
  update_owner-ok name owner_id expected l after h differ =
      elim (Option-cases (find_bucket name l)) [
        | inl gone ↦ cc (rw gone at h)
        | inr (b, found) ↦
            let (owned, h) =
              checked-ok (not (str_eq b.owner_id expected)) bucket_not_found _ (rw found at h) in
            let (_, step) =
              checked-ok (not (known_user owner_id)) constraint_failed
                (ok (set_owner name owner_id expected l)) h in
            let here : set_owner name owner_id expected l ≡ after = ground (arith, step) in
            let now = find-set_owner name owner_id expected l b found (ground (arith, owned)) in
            rw (← here) (
              (b, found, ground (arith, owned), now),
              λ other apart. find_other-set_owner name owner_id expected other l apart,
              λ next. rw (now, differ) refl,
            )
      ]
