-- ===== src/S3/Access/Tests.antt =====
-- The guards on concrete requests.
use fbs_core.Base.{
  true, false, [], ◌∷◌, Bytes, Option, some, codes, str_eq, is_blank, trim_space, has_prefix,
  if◌then◌else◌, ok, err, ◌≡◌, ◌↔◌, ◌⊎◌, refl,
}
use fbs_core.Iam.{role_member, action_get_object, action_put_object}
use fbs_core.Auth.Principal.{Principal, user_principal}
use fbs_core.Authz.Evaluator.{Grant, GrantStore, allow, allow_by_grant, any_grant, grant_matches}
use fbs_core.Metadata.Model.{Bucket}
use fbs_core.S3.Access.{
  internal_error, access_denied, no_such_bucket, bucket_not_found, ObjectHandlers, request_for,
  evaluator, authorize, load_bucket, load_bucket_for_action,
}
use fbs_core.S3.Access.Guards.{Authorized, Failed, authorize_iff, load_bucket_for_action-ok}

abbrev media : Bucket
media = record { name = codes "media"; owner_id = codes "u2"; created_at = 1 }

abbrev reader : Grant
reader = record {
  bucket_name = codes "media";
  grantee_user_id = codes "u1";
  action = action_get_object;
  key_prefix = [];
  active = true;
}

abbrev store : Option (GrantStore Bytes)
store = some (λ user bucket. ok (reader ∷ []))

abbrev handlers : ObjectHandlers Bytes
handlers = record {
  authz = some store;
  grants = store;
  get_by_name = λ name. if str_eq name (codes "media") then ok media else err bucket_not_found;
}

abbrev caller : Option Principal
caller = some (user_principal (codes "u1") role_member)

read_allowed :
    load_bucket_for_action handlers caller (codes "media") action_get_object (codes "a") []
    ≡ ok media
unfolding load_bucket_for_action load_bucket authorize evaluator allow allow_by_grant any_grant
    grant_matches is_blank trim_space str_eq has_prefix
read_allowed = refl

write_denied :
    load_bucket_for_action handlers caller (codes "media") action_put_object (codes "a") []
    ≡ err access_denied
unfolding load_bucket_for_action load_bucket authorize evaluator allow allow_by_grant any_grant
    grant_matches is_blank trim_space str_eq has_prefix
write_denied = refl

unknown_bucket :
    load_bucket_for_action handlers caller (codes "docs") action_get_object (codes "a") []
    ≡ err no_such_bucket
unfolding load_bucket_for_action load_bucket is_blank trim_space str_eq
unknown_bucket = refl

authorize_iff_example :
    ((authorize handlers caller action_get_object (codes "media") (codes "a") [] (some media)
        ≡ ok tt)
      ↔ Authorized handlers caller
          (λ p. request_for p action_get_object (codes "media") (codes "a") [] (some media)))
    × ((authorize handlers caller action_get_object (codes "media") (codes "a") [] (some media)
          ≡ err internal_error)
        ↔ Failed handlers caller
            (λ p. request_for p action_get_object (codes "media") (codes "a") [] (some media)))
    × ((authorize handlers caller action_get_object (codes "media") (codes "a") [] (some media)
          ≡ ok tt)
        ⊎ ((authorize handlers caller action_get_object (codes "media") (codes "a") [] (some media)
              ≡ err internal_error)
            ⊎ (authorize handlers caller action_get_object
                  (codes "media")
                  (codes "a")
                  []
                  (some media)
                ≡ err access_denied)))
authorize_iff_example =
    authorize_iff handlers caller action_get_object (codes "media") (codes "a") [] (some media)

load_bucket_for_action-ok_example :
    (is_blank (codes "media") ≡ false)
    × (handlers.get_by_name (codes "media") ≡ ok media)
    × Authorized handlers caller
        (λ p. request_for p action_get_object (codes "media") (codes "a") [] (some media))
load_bucket_for_action-ok_example =
    load_bucket_for_action-ok handlers caller (codes "media") action_get_object (codes "a") [] media
      read_allowed
