-- ===== src/Metadata/Grants/Changes.antt =====
-- Every write of the grants keeps the primary key and the partial unique index.
use fbs_core.Base.{
  Bool, true, false, not, ◌&&◌, ◌||◌, Bytes, List, [], ◌∷◌, ◌++◌, some, str_eq, is_blank,
  if◌then◌else◌, ok, err, >>=-ok, checked-ok, ◌≡◌, arith, Bool-cases, Option-cases, inl, inr,
}
use fbs_core.Iam.{is_grantable}
use fbs_core.Metadata.Model.{Time}
use fbs_core.Metadata.Grants.{
  GrantRow, GrantCreateResult, is_some, indexed_duplicate, admissible, create,
  insert_unless_duplicate, insert_all, create_idempotent_batch, all_valid, without_id, delete,
  set_row, updated, update, grant_constraint, duplicate_grant, find_grant, batch_result,
  validate_grant_write, invalid_grant_action, grant_not_found,
}
use fbs_core.Metadata.Grants.Active.{
  IsValid, append-IsValid, without_id-IsActiveUnique, without_id-unique_ids, set_row-IsActiveUnique,
  set_row-unique_ids,
}

module _ (known : GrantRow → Bool) where
  create-IsValid :
      (g : GrantRow) (l after : List GrantRow)
      → create known g l ≡ ok after
      → IsValid l
      → IsValid after
  unfolding create
  create-IsValid g l after h v =
      let (_, checked, h) = >>=-ok (validate_grant_write g) _ h in
      let (free, same) =
        checked-ok (is_some (indexed_duplicate g l) || not (admissible known g l)) grant_constraint
          (ok (l ++ (g ∷ []))) h in
      let here : l ++ (g ∷ []) ≡ after = ground (arith, same) in
      rw (← here) (append-IsValid g l v (ground (arith, free)) (ground (arith, free)))

  insert_unless-IsValid :
      (g : GrantRow) (l : List GrantRow) (inserted : Bool) (after : List GrantRow)
      → insert_unless_duplicate known g l ≡ ok (inserted, after)
      → IsValid l
      → IsValid after
  insert_unless-IsValid g l inserted after h v =
      elim (Bool-cases (is_some (indexed_duplicate g l))) [
        | inl e ↦
            let step : ok (false, l) ≡ ok (inserted, after) = rw e at h in
            let here : l ≡ after = ground (arith, step) in rw (← here) v
        | inr e ↦
            let rest : (if not (admissible known g l)
                  then err grant_constraint
                  else ok (true, l ++ (g ∷ [])))
                ≡ ok (inserted, after) =
              rw e at h in
            let (free, step) =
              checked-ok (not (admissible known g l)) grant_constraint (ok (true, l ++ (g ∷ [])))
                rest in
            let here : l ++ (g ∷ []) ≡ after = ground (arith, step) in
            rw (← here) (append-IsValid g l v e (ground (arith, free)))
      ]

  insert_all-IsValid :
      (grants l : List GrantRow) (rs : List GrantCreateResult) (after : List GrantRow)
      → insert_all known grants l ≡ ok (rs, after)
      → IsValid l
      → IsValid after
  unfolding insert_all
  insert_all-IsValid [] l rs after h v = let here : l ≡ after = ground (arith, h) in rw (← here) v
  insert_all-IsValid (g ∷ grants) l rs after h v =
      let ((inserted, mid), first, h) = >>=-ok (insert_unless_duplicate known g l) _ h in
      let (r, second, h) = >>=-ok (batch_result known g (inserted, mid)) _ h in
      let ((rest, last), third, h) = >>=-ok (insert_all known grants mid) _ h in
      let here : last ≡ after = ground (arith, h) in
      rw (← here) (
        insert_all-IsValid grants mid rest last third
          (insert_unless-IsValid g l inserted mid first v))

  batch-IsValid :
      (grants l : List GrantRow) (rs : List GrantCreateResult) (after : List GrantRow)
      → create_idempotent_batch known grants l ≡ ok (rs, after)
      → IsValid l
      → IsValid after
  unfolding create_idempotent_batch
  batch-IsValid grants l rs after h v =
      let (_, checked, h) = >>=-ok (all_valid grants) _ h in
      insert_all-IsValid grants l rs after h v

delete-IsValid :
    (id : Bytes) (l after : List GrantRow) → delete id l ≡ ok after → IsValid l → IsValid after
unfolding delete
delete-IsValid id l after h (u, v) = elim (Option-cases (find_grant id l)) [
  | inl gone ↦ cc (rw gone at h)
  | inr (x, found) ↦
      let step : ok (without_id id l) ≡ ok after = rw found at h in
      let here : without_id id l ≡ after = ground (arith, step) in
      rw (← here) (without_id-IsActiveUnique id l u, without_id-unique_ids id l v)
]

find_grant-id :
    (id : Bytes) (l : List GrantRow) (x : GrantRow)
    → find_grant id l ≡ some x
    → str_eq x.id id ≡ true
unfolding find_grant
find_grant-id id [] x h = cc
find_grant-id id (y ∷ l) x h = ground (arith, h, find_grant-id id l x)

update-IsValid :
    (now : Time) (g : GrantRow) (l after : List GrantRow)
    → update now g l ≡ ok after
    → IsValid l
    → IsValid after
unfolding update
update-IsValid now g l after h (u, v) =
    let (named, h) = checked-ok (is_blank g.id) grant_not_found _ h in
    let (allowed, h) =
      checked-ok (g.is_active && not (is_grantable g.action)) invalid_grant_action _ h in
    elim (Option-cases (find_grant g.id l)) [
      | inl gone ↦ cc (rw gone at h)
      | inr (x, found) ↦
          let rest = rw found at h in
          let (free, step) =
            checked-ok (is_some (indexed_duplicate (updated now g x) (without_id g.id l)))
              duplicate_grant (ok (set_row g.id (updated now g x) l)) rest in
          let here : set_row g.id (updated now g x) l ≡ after = ground (arith, step) in
          rw (← here) (
            set_row-IsActiveUnique g.id (updated now g x) l u v free,
            set_row-unique_ids g.id (updated now g x) l v (find_grant-id g.id l x found),
          )
    ]

-- A write that succeeds.
pub data Change (known : GrantRow → Bool) : List GrantRow → List GrantRow → Type 0 where
  created :
      (g : GrantRow) (l after : List GrantRow) → create known g l ≡ ok after → Change known l after
  batched :
      (grants l : List GrantRow) (rs : List GrantCreateResult) (after : List GrantRow)
      → create_idempotent_batch known grants l ≡ ok (rs, after)
      → Change known l after
  changed :
      (now : Time) (g : GrantRow) (l after : List GrantRow)
      → update now g l ≡ ok after
      → Change known l after
  deleted : (id : Bytes) (l after : List GrantRow) → delete id l ≡ ok after → Change known l after

-- Every write that succeeds keeps the ids unique, and no two active rows with the same bucket,
-- grantee, action and prefix.
pub Change-IsValid :
    (known : GrantRow → Bool) (l after : List GrantRow)
    → Change known l after
    → IsValid l
    → IsValid after
Change-IsValid known l after (created g m x h) v = create-IsValid known g m x h v
Change-IsValid known l after (batched grants m rs x h) v = batch-IsValid known grants m rs x h v
Change-IsValid known l after (changed now g m x h) v = update-IsValid now g m x h v
Change-IsValid known l after (deleted id m x h) v = delete-IsValid id m x h v
