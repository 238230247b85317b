-- ===== src/Authz/Tests.antt =====
-- The theorems about internal/authz at concrete requests.
use fbs_core.Base.{
  true, [], ◌∷◌, Bytes, codes, str_eq, is_blank, has_prefix, Option, some, ok, err, ◌≡◌, ◌↔◌, ◌⊎◌,
  refl,
}
use fbs_core.Iam.{role_admin, role_member, action_list_bucket, action_delete_bucket}
use fbs_core.Auth.Principal.{user_principal}
use fbs_core.Authz.Evaluator.{Grant, DecisionRequest, GrantStore, allow_by_grant, allow}
use fbs_core.Authz.Decision.{Identified, Permitted, granted, allow_iff}
use fbs_core.Authz.Limits.{allow-delete_bucket}

abbrev photos_grant : Grant
photos_grant = record {
  bucket_name = codes "media";
  grantee_user_id = codes "u1";
  action = action_list_bucket;
  key_prefix = codes "photos/";
  active = true;
}

abbrev photos_store : Option (GrantStore Bytes)
photos_store = some (λ user bucket. ok (photos_grant ∷ []))

abbrev broken_store : Option (GrantStore Bytes)
broken_store = some (λ user bucket. err (codes "closed"))

abbrev list_photos : DecisionRequest
list_photos = record {
  principal = user_principal (codes "u1") role_member;
  action = action_list_bucket;
  bucket = codes "media";
  object_key = [];
  list_prefix = codes "photos/";
  bucket_owner_id = codes "u2";
}

abbrev delete_media : DecisionRequest
delete_media = record list_photos { action = action_delete_bucket; bucket_owner_id = codes "u1" }

list_photos_allowed : allow photos_store list_photos ≡ ok true
unfolding allow allow_by_grant str_eq is_blank has_prefix
list_photos_allowed = refl

delete_media_allowed : allow photos_store delete_media ≡ ok true
unfolding allow allow_by_grant str_eq is_blank has_prefix
delete_media_allowed = refl

list_photos_broken : allow broken_store list_photos ≡ err (codes "closed")
unfolding allow allow_by_grant str_eq is_blank has_prefix
list_photos_broken = refl

allow_iff_example :
    (allow photos_store list_photos ≡ ok true)
    ↔ (Identified list_photos × Permitted (granted photos_store list_photos) list_photos)
allow_iff_example = allow_iff photos_store list_photos

allow-delete_bucket_example : (role_member ≡ role_admin) ⊎ (codes "u1" ≡ codes "u1")
allow-delete_bucket_example =
    allow-delete_bucket photos_store delete_media refl delete_media_allowed
