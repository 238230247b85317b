-- ===== src/Metadata/Users/Tests.antt =====
-- Two users.
use fbs_core.Base.{true, Bytes, List, [], ◌∷◌, codes, str_eq, ok, err, ◌≡◌, refl}
use fbs_core.Iam.{role_admin}
use fbs_core.Metadata.Model.{User}
use fbs_core.Metadata.Users.{
  create_first_user, insert_user, find_user, update, set_row, without_id, updated, has_sigv4_key,
  users_already_exist,
}
use fbs_core.Metadata.Users.Keys.{create_first_user-ok, sigv4_view, update-sigv4_view}

abbrev user : Bytes → Bytes → User
user id key = record {
  id = id;
  display_name = codes "Ada";
  access_key_id = key;
  secret_hash = [];
  sigv4_access_key_id = key;
  sigv4_secret_key = codes "secret";
  role = role_admin;
  is_active = true;
  created_at = 1;
  updated_at = 1;
}

abbrev ada : User
ada = user (codes "u1") (codes "k1")

abbrev bob : User
bob = user (codes "u2") (codes "k2")

abbrev no_users : List User
no_users = []

first_created : create_first_user ada no_users ≡ ok (ada ∷ [])
unfolding create_first_user insert_user find_user str_eq
first_created = refl

create_first_user-ok_example :
    (no_users ≡ [])
    × (ada ∷ [] ≡ ada ∷ [])
    × ((v : User) → create_first_user v (ada ∷ []) ≡ err users_already_exist)
create_first_user-ok_example = create_first_user-ok ada no_users (ada ∷ []) first_created

abbrev renamed : User
renamed = user (codes "u2") (codes "k3")

bob_passes : update 7 renamed (ada ∷ bob ∷ []) ≡ ok (ada ∷ updated 7 renamed bob ∷ [])
unfolding update find_user set_row without_id str_eq
bob_passes = refl

update-sigv4_view_example :
    sigv4_view (find_user (has_sigv4_key (codes "k2")) (ada ∷ updated 7 renamed bob ∷ []))
    ≡ sigv4_view (find_user (has_sigv4_key (codes "k2")) (ada ∷ bob ∷ []))
update-sigv4_view_example =
    update-sigv4_view 7 renamed (ada ∷ bob ∷ []) (ada ∷ updated 7 renamed bob ∷ []) bob_passes
      (codes "k2")
