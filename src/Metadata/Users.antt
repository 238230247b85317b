-- ===== src/Metadata/Users.antt =====
-- internal/metadata/user.go. The table is the list of its rows; a sigv4 key that is empty is stored as
-- NULL, which the unique index does not see. A transaction that fails leaves the table as it was.
pub mod Keys
mod Tests
use fbs_core.Base.{
  ℕ, ltb, ◌==◌, Bool, true, false, not, ◌&&◌, ◌||◌, Bytes, List, [], ◌∷◌, ◌++◌, map, length, Option,
  none, some, str_eq, if◌then◌else◌, Result, ok, err, ◌>>=◌,
}
use fbs_core.Iam.{role_admin, role_member}
use fbs_core.Metadata.Model.{Time, User}

-- `user_constraint` is a broken constraint of the schema.
pub data UserWriteError : Type 0 where
  user_not_found users_already_exist user_constraint : UserWriteError

abbrev pub hide_secret : User → User
hide_secret u = record u { sigv4_secret_key = [] }

unfoldable pub find_user : (User → Bool) → List User → Option User
find_user test [] = none
find_user test (u ∷ rest) = if test u then some u else find_user test rest

abbrev pub has_id : Bytes → User → Bool
has_id id u = str_eq u.id id

abbrev pub has_access_key : Bytes → User → Bool
has_access_key key u = str_eq u.access_key_id key

-- `sigv4_access_key_id = ?`, which NULL is not.
abbrev pub has_sigv4_key : Bytes → User → Bool
has_sigv4_key key u = not (str_eq u.sigv4_access_key_id []) && str_eq u.sigv4_access_key_id key

abbrev pub absent : Option User → Bool
absent none = true
absent (some _) = false

-- The primary key, the unique keys and the CHECK on the role.
abbrev pub admissible : User → List User → Bool
admissible u l =
    (str_eq u.role role_admin || str_eq u.role role_member)
    && (absent (find_user (has_id u.id) l)
        && (absent (find_user (has_access_key u.access_key_id) l)
            && absent (find_user (has_sigv4_key u.sigv4_access_key_id) l)))

-- insertUser
unfoldable pub insert_user : User → List User → Result UserWriteError (List User)
insert_user u l = if not (admissible u l) then err user_constraint else ok (l ++ (u ∷ []))

unfoldable pub create : User → List User → Result UserWriteError (List User)
create u l = insert_user u l

abbrev pub user_count : List User → ℕ
user_count = length

-- CreateFirstUser: the count and the insert are one transaction that excludes other writers.
unfoldable pub create_first_user : User → List User → Result UserWriteError (List User)
create_first_user u l = if ltb 0 (user_count l) then err users_already_exist else insert_user u l

abbrev pub user_or_not_found : Option User → Result UserWriteError User
user_or_not_found none = err user_not_found
user_or_not_found (some u) = ok u

abbrev pub hidden : Result UserWriteError User → Result UserWriteError User
hidden (ok u) = ok (hide_secret u)
hidden (err e) = err e

unfoldable pub get_by_id : Bytes → List User → Result UserWriteError User
get_by_id id l = hidden (user_or_not_found (find_user (has_id id) l))

unfoldable pub get_by_access_key_id : Bytes → List User → Result UserWriteError User
get_by_access_key_id key l = hidden (user_or_not_found (find_user (has_access_key key) l))

-- The secret is kept.
unfoldable pub get_by_sigv4_access_key_id : Bytes → List User → Result UserWriteError User
get_by_sigv4_access_key_id key l = user_or_not_found (find_user (has_sigv4_key key) l)

-- `ORDER BY created_at ASC`
unfoldable pub insert_by_creation : User → List User → List User
insert_by_creation u [] = u ∷ []
insert_by_creation u (x ∷ rest) =
    let after = insert_by_creation u rest in
    if ltb x.created_at u.created_at then x ∷ after else u ∷ x ∷ rest

unfoldable pub list : List User → List User
list [] = []
list (u ∷ rest) = insert_by_creation (hide_secret u) (list rest)

-- The row after `UPDATE users SET …`, which leaves the sigv4 keys out.
abbrev pub updated : Time → User → User → User
updated now u x = record x {
  display_name = u.display_name;
  access_key_id = u.access_key_id;
  secret_hash = u.secret_hash;
  role = u.role;
  is_active = u.is_active;
  updated_at = now;
}

unfoldable pub without_id : Bytes → List User → List User
without_id id [] = []
without_id id (x ∷ rest) =
    let kept = without_id id rest in if str_eq x.id id then kept else x ∷ kept

unfoldable pub set_row : Bytes → User → List User → List User
set_row id new [] = []
set_row id new (x ∷ rest) = if str_eq x.id id then new ∷ rest else x ∷ set_row id new rest

abbrev pub update_found : Time → User → List User → Option User → Result UserWriteError (List User)
update_found now u l none = err user_not_found
update_found now u l (some x) =
    if not (str_eq u.role role_admin || str_eq u.role role_member)
      || not (absent (find_user (has_access_key u.access_key_id) (without_id u.id l)))
    then err user_constraint
    else ok (set_row u.id (updated now u x) l)

unfoldable pub update : Time → User → List User → Result UserWriteError (List User)
update now u l = update_found now u l (find_user (has_id u.id) l)

abbrev pub when_found : Option User → List User → Result UserWriteError (List User)
when_found none l = err user_not_found
when_found (some u) l = ok l

unfoldable pub delete : Bytes → List User → Result UserWriteError (List User)
delete id l = when_found (find_user (has_id id) l) (without_id id l)
