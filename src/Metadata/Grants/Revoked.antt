-- ===== src/Metadata/Grants/Revoked.antt =====
-- What an update and a deletion of a grant leave, for those who look grants up.
use fbs_core.Base.{
  Bool, true, false, not, ◌&&◌, Bytes, List, [], ◌∷◌, some, select, str_eq, str_eq_iff, is_blank,
  if◌then◌else◌, ok, checked-ok, ◌≡◌, refl, arith, Bool-cases, Option-cases, inl, inr,
}
use fbs_core.Iam.{is_grantable}
use fbs_core.Metadata.Model.{Time}
use fbs_core.Metadata.Grants.{
  GrantRow, is_some, find_grant, without_id, delete, set_row, updated, update, indexed_duplicate,
  grant_not_found, invalid_grant_action, duplicate_grant, list_active_for_grantee_bucket,
}
use fbs_core.Metadata.Grants.Active.{unique_ids}

find_grant-id :
    (id : Bytes) (l : List GrantRow) (x : GrantRow)
    → find_grant id l ≡ some x
    → str_eq x.id id ≡ true
unfolding find_grant
find_grant-id id [] x h = cc
find_grant-id id (y ∷ l) x h = ground (arith, h, find_grant-id id l x)

find_grant-set_row :
    (id j : Bytes) (new x : GrantRow) (l : List GrantRow)
    → find_grant id l ≡ some x
    → str_eq new.id id ≡ true
    → find_grant j (set_row id new l) ≡ (if str_eq j id then some new else find_grant j l)
unfolding find_grant set_row
find_grant-set_row id j new x [] found same = cc
find_grant-set_row id j new x (y ∷ l) found same = elim (Bool-cases (str_eq y.id id)) [
  | inl e ↦ rw e (
      ground (
        arith,
        e,
        same,
        str_eq_iff y.id id,
        str_eq_iff new.id id,
        str_eq_iff y.id j,
        str_eq_iff new.id j,
        str_eq_iff j id,
      ))
  | inr e ↦
      let later : find_grant id l ≡ some x = rw e at found in
      rw e (
        ground (
          arith,
          e,
          find_grant-set_row id j new x l later same,
          str_eq_iff y.id id,
          str_eq_iff y.id j,
          str_eq_iff j id,
        ))
]

-- What an update that succeeds has found, and the table that it leaves.
update_row :
    (now : Time) (g : GrantRow) (l after : List GrantRow)
    → update now g l ≡ ok after
    → (x : GrantRow) × (find_grant g.id l ≡ some x)
      × (is_blank g.id ≡ false)
      × ((g.is_active && not (is_grantable g.action)) ≡ false)
      × (set_row g.id (updated now g x) l ≡ after)
unfolding update
update_row now g l after h =
    let (named, h) = checked-ok (is_blank g.id) grant_not_found _ h in
    let (allowed, h) =
      checked-ok (g.is_active && not (is_grantable g.action)) invalid_grant_action _ h in
    elim (Option-cases (find_grant g.id l)) [
      | inl gone ↦ cc (rw gone at h)
      | inr (x, found) ↦
          let (_, step) =
            checked-ok (is_some (indexed_duplicate (updated now g x) (without_id g.id l)))
              duplicate_grant (ok (set_row g.id (updated now g x) l)) (rw found at h) in
          (x, found, named, allowed, ground (arith, step))
    ]

-- An update that succeeds is of a grant that is there and, if it is to be active, names an action that
-- can be granted. The row then has the prefix, the flag and the note that were given, and the time of
-- the update, and keeps its bucket, grantee, action, creator and time of creation; no other row changes.
pub update-ok :
    (now : Time) (g : GrantRow) (l after : List GrantRow)
    → update now g l ≡ ok after
    → (x : GrantRow) × (find_grant g.id l ≡ some x)
      × (is_blank g.id ≡ false)
      × (g.is_active ≡ true → is_grantable g.action ≡ true)
      × ((id : Bytes)
          → find_grant id after ≡ (
              if str_eq id g.id
              then some (record {
                id = x.id;
                bucket_name = x.bucket_name;
                grantee_user_id = x.grantee_user_id;
                action = x.action;
                key_prefix = g.key_prefix;
                is_active = g.is_active;
                created_by = x.created_by;
                note = g.note;
                created_at = x.created_at;
                updated_at = now;
              })
              else find_grant id l))
update-ok now g l after h =
    let (x, found, named, allowed, here) = update_row now g l after h in
    (
      x,
      found,
      named,
      λ live. ground (arith, allowed, live),
      λ id.
          rw (← here)
            (find_grant-set_row g.id id (updated now g x) x l found (find_grant-id g.id l x found)),
    )

abbrev others : Bytes → GrantRow → Bool
others id g = not (str_eq g.id id)

abbrev live : Bytes → Bytes → GrantRow → Bool
live user_id bucket_name g =
    str_eq g.grantee_user_id user_id && (str_eq g.bucket_name bucket_name && g.is_active)

-- A write that takes the grant `id` back: its deletion, or an update that makes it inactive.
pub data Revokes (id : Bytes) (l after : List GrantRow) : Type 0 where
  by_delete : delete id l ≡ ok after → Revokes id l after
  by_update :
      (now : Time) (g : GrantRow)
      → g.id ≡ id
      → g.is_active ≡ false
      → update now g l ≡ ok after
      → Revokes id l after

module _ (user_id bucket_name id : Bytes) where
  select-without_id :
      (l : List GrantRow)
      → select (live user_id bucket_name) (without_id id l)
        ≡ select (others id) (select (live user_id bucket_name) l)
  unfolding without_id
  select-without_id [] = refl
  select-without_id (x ∷ l) = ground (arith, select-without_id l)

  select-absent :
      (l : List GrantRow)
      → is_some (find_grant id l) ≡ false
      → select (live user_id bucket_name) l
        ≡ select (others id) (select (live user_id bucket_name) l)
  unfolding find_grant
  select-absent [] h = refl
  select-absent (x ∷ l) h = ground (arith, h, select-absent l)

  select-set_row :
      (new : GrantRow) (l : List GrantRow)
      → unique_ids l ≡ true
      → new.is_active ≡ false
      → select (live user_id bucket_name) (set_row id new l)
        ≡ select (others id) (select (live user_id bucket_name) l)
  unfolding set_row
  select-set_row new [] u h = refl
  select-set_row new (x ∷ l) u h = elim (Bool-cases (str_eq x.id id)) [
    | inl e ↦
        let here : x.id ≡ id = (str_eq_iff x.id id).0 e in
        let gone : is_some (find_grant id l) ≡ false = rw (← here) (ground (arith, u)) in
        rw e (ground (arith, e, h, select-absent l gone))
    | inr e ↦ rw e (ground (arith, e, u, h, select-set_row new l))
  ]

-- If the ids are unique and a grant is deleted, or updated to be inactive, then what is listed of the
-- active grants of any user on any bucket is what was listed before less that grant, in the order that
-- it had.
pub list_active-Revokes :
    (id : Bytes) (l after : List GrantRow)
    → unique_ids l ≡ true
    → Revokes id l after
    → (user_id bucket_name : Bytes)
    → list_active_for_grantee_bucket user_id bucket_name after
      ≡ select (λ g. not (str_eq g.id id)) (list_active_for_grantee_bucket user_id bucket_name l)
unfolding list_active_for_grantee_bucket delete
list_active-Revokes id l after u (by_delete h) user_id bucket_name =
    elim (Option-cases (find_grant id l)) [
      | inl gone ↦ cc (rw gone at h)
      | inr (x, found) ↦
          let step : ok (without_id id l) ≡ ok after = rw found at h in
          let here : without_id id l ≡ after = ground (arith, step) in
          rw (← here) (select-without_id user_id bucket_name id l)
    ]
list_active-Revokes id l after u (by_update now g same off h) user_id bucket_name =
    let (x, _, _, _, here) = update_row now g l after h in
    rw (← here, ← same) (select-set_row user_id bucket_name g.id (updated now g x) l u off)
