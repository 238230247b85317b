-- ===== src/Metadata/Grants.antt =====
-- internal/metadata/grant.go. The table is the list of its rows, in the order of insertion; `known`
-- says whether the bucket and the users that a row refers to exist. A transaction that fails leaves
-- the table as it was.
pub mod Batch
pub mod Active
pub mod Changes
pub mod Revoked
mod Tests
use fbs_core.Iam.{Action, is_grantable}
use fbs_core.Base.{
  ℕ, ltb, ◌==◌, Bool, true, false, not, ◌&&◌, ◌||◌, Bytes, List, [], ◌∷◌, ◌++◌, Option, none, some,
  select, str_eq, str_ltb, is_blank, if◌then◌else◌, Result, ok, err, ◌>>=◌, insert, sort,
}
use fbs_core.Metadata.Model.{Time}

pub record GrantRow : Type 0 where
  pub id : Bytes
  pub bucket_name : Bytes
  pub grantee_user_id : Bytes
  pub action : Action
  pub key_prefix : Bytes
  pub is_active : Bool
  pub created_by : Bytes
  pub note : Bytes
  pub created_at : Time
  pub updated_at : Time

pub record GrantCreateResult : Type 0 where
  pub grant : GrantRow
  pub existed : Bool

-- `insert_skipped` is an insert that is skipped although there is no duplicate; `grant_constraint` is
-- any other broken constraint.
pub data GrantError : Type 0 where
  grant_not_found invalid_grant_action duplicate_grant insert_skipped grant_constraint : GrantError

abbrev pub validate_grant_write : GrantRow → Result {0} GrantError Unit
validate_grant_write g = if not (is_grantable g.action) then err invalid_grant_action else ok tt

-- The columns of idx_grants_unique_active.
abbrev pub same_grant : GrantRow → GrantRow → Bool
same_grant a b =
    str_eq a.bucket_name b.bucket_name
    && str_eq a.grantee_user_id b.grantee_user_id
    && str_eq a.action b.action
    && str_eq a.key_prefix b.key_prefix

unfoldable pub find_active_duplicate : GrantRow → List GrantRow → Option GrantRow
find_active_duplicate g [] = none
find_active_duplicate g (x ∷ rest) =
    if same_grant g x && x.is_active then some x else find_active_duplicate g rest

unfoldable pub find_grant : Bytes → List GrantRow → Option GrantRow
find_grant id [] = none
find_grant id (x ∷ rest) = if str_eq x.id id then some x else find_grant id rest

abbrev pub is_some {ℓ} : {A : Type ℓ} → Option A → Bool
is_some none = false
is_some (some _) = true

-- The duplicates that idx_grants_unique_active (migrations/migration.go) sees.
unfoldable pub indexed_duplicate : GrantRow → List GrantRow → Option GrantRow
indexed_duplicate g l = if g.is_active then find_active_duplicate g l else none

abbrev pub all_valid : List GrantRow → Result {0} GrantError Unit
all_valid [] = ok tt
all_valid (g ∷ rest) = do valid ← validate_grant_write g; all_valid rest

module _ (known : GrantRow → Bool) where
  -- The constraints of the table (migrations/migration.go) other than the partial index.
  abbrev pub admissible : GrantRow → List GrantRow → Bool
  admissible g l = known g && not (is_some (find_grant g.id l))

  unfoldable pub create : GrantRow → List GrantRow → Result GrantError (List GrantRow)
  create g l = do
    valid ← validate_grant_write g
    if is_some (indexed_duplicate g l) || not (admissible g l)
        then err grant_constraint
        else ok (l ++ (g ∷ []))

  -- insertGrantUnlessActiveDuplicate: the conflict that is to be skipped is looked for first. The flag
  -- says whether a row was inserted.
  abbrev pub insert_unless_duplicate :
      GrantRow → List GrantRow → Result GrantError (Bool × List GrantRow)
  insert_unless_duplicate g l =
      if is_some (indexed_duplicate g l)
      then ok (false, l)
      else if not (admissible g l)
      then err grant_constraint
      else ok (true, l ++ (g ∷ []))

  abbrev pub existing_result : Option GrantRow → Result GrantError GrantCreateResult
  existing_result none = err insert_skipped
  existing_result (some x) = ok (record { grant = x; existed = true })

  abbrev pub batch_result : GrantRow → Bool × List GrantRow → Result GrantError GrantCreateResult
  batch_result g (inserted, l) =
      if inserted
      then ok (record { grant = g; existed = false })
      else existing_result (find_active_duplicate g l)

  unfoldable pub insert_all :
      List GrantRow → List GrantRow → Result GrantError (List GrantCreateResult × List GrantRow)
  insert_all [] l = ok ([], l)
  insert_all (g ∷ rest) l = do
    now ← insert_unless_duplicate g l
    result ← batch_result g now
    later ← insert_all rest now.1
    ok (result ∷ later.0, later.1)

  unfoldable pub create_idempotent_batch :
      List GrantRow → List GrantRow → Result GrantError (List GrantCreateResult × List GrantRow)
  create_idempotent_batch grants l = do valid ← all_valid grants; insert_all grants l

abbrev pub row_or_grant_not_found : Option GrantRow → Result GrantError GrantRow
row_or_grant_not_found none = err grant_not_found
row_or_grant_not_found (some g) = ok g

unfoldable pub get_by_id : Bytes → List GrantRow → Result GrantError GrantRow
get_by_id id l = row_or_grant_not_found (find_grant id l)

-- `DELETE FROM grants WHERE id = ?`
unfoldable pub without_id : Bytes → List GrantRow → List GrantRow
without_id id [] = []
without_id id (x ∷ rest) =
    let kept = without_id id rest in if str_eq x.id id then kept else x ∷ kept

abbrev pub when_found : Option GrantRow → List GrantRow → Result GrantError (List GrantRow)
when_found none l = err grant_not_found
when_found (some g) l = ok l

unfoldable pub delete : Bytes → List GrantRow → Result GrantError (List GrantRow)
delete id l = when_found (find_grant id l) (without_id id l)

-- The row after `UPDATE grants SET …`.
abbrev pub updated : Time → GrantRow → GrantRow → GrantRow
updated now g x = record x {
  key_prefix = g.key_prefix;
  is_active = g.is_active;
  note = g.note;
  updated_at = now;
}

unfoldable pub set_row : Bytes → GrantRow → List GrantRow → List GrantRow
set_row id new [] = []
set_row id new (x ∷ rest) = if str_eq x.id id then new ∷ rest else x ∷ set_row id new rest

-- The unique index is checked against the other rows.
abbrev pub update_found :
    Time → GrantRow → List GrantRow → Option GrantRow → Result GrantError (List GrantRow)
update_found now g l none = err grant_not_found
update_found now g l (some x) =
    if is_some (indexed_duplicate (updated now g x) (without_id g.id l))
    then err duplicate_grant
    else ok (set_row g.id (updated now g x) l)

unfoldable pub update : Time → GrantRow → List GrantRow → Result GrantError (List GrantRow)
update now g l =
    if is_blank g.id
    then err grant_not_found
    else if g.is_active && not (is_grantable g.action)
    then err invalid_grant_action
    else update_found now g l (find_grant g.id l)

-- `ORDER BY created_at ASC, id ASC`
unfoldable pub insert_by_age : GrantRow → List GrantRow → List GrantRow
insert_by_age g [] = g ∷ []
insert_by_age g (x ∷ rest) =
    let after = insert_by_age g rest in
    if ltb g.created_at x.created_at || (g.created_at == x.created_at && str_ltb g.id x.id)
    then g ∷ x ∷ rest
    else x ∷ after

unfoldable pub order_by_age : List GrantRow → List GrantRow
order_by_age [] = []
order_by_age (g ∷ rest) = insert_by_age g (order_by_age rest)

unfoldable pub list_by_bucket : Bytes → List GrantRow → List GrantRow
list_by_bucket bucket_name l = order_by_age (select (λ g. str_eq g.bucket_name bucket_name) l)

unfoldable pub list_by_grantee : Bytes → List GrantRow → List GrantRow
list_by_grantee user_id l = order_by_age (select (λ g. str_eq g.grantee_user_id user_id) l)

-- Without an order of its own.
unfoldable pub list_active_for_grantee_bucket : Bytes → Bytes → List GrantRow → List GrantRow
list_active_for_grantee_bucket user_id bucket_name l =
    select
      (λ g. str_eq g.grantee_user_id user_id && (str_eq g.bucket_name bucket_name && g.is_active)) l

-- `SELECT DISTINCT bucket_name … ORDER BY bucket_name ASC`
abbrev pub add_name : Bytes → List Bytes → List Bytes
add_name n [] = n ∷ []
add_name n (m ∷ rest) = if str_eq m n then m ∷ rest else m ∷ add_name n rest

abbrev pub bucket_names : List GrantRow → List Bytes
bucket_names [] = []
bucket_names (g ∷ rest) = add_name g.bucket_name (bucket_names rest)

unfoldable pub list_bucket_names_with_active_grants : Bytes → List GrantRow → List Bytes
list_bucket_names_with_active_grants user_id l =
    sort (bucket_names (select (λ g. str_eq g.grantee_user_id user_id && g.is_active) l))
