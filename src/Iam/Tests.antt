-- ===== src/Iam/Tests.antt =====
-- Runs of internal/iam/iam.go.
use fbs_core.Base.{◌≡◌, refl, codes, ok, err, str_eq}
use fbs_core.Iam.{
  is_grantable, parse_role, invalid_role, parse_grantable_action, not_grantable,
  action_create_bucket, action_delete_bucket,
}

parse_role_runs :
    (parse_role (codes "member") ≡ ok (codes "member"))
    × (parse_role (codes "root") ≡ err invalid_role)
unfolding parse_role str_eq
parse_role_runs = (refl, refl)

-- Neither bucket creation nor bucket deletion can be granted.
bucket_actions :
    (parse_grantable_action action_create_bucket ≡ err not_grantable)
    × (parse_grantable_action action_delete_bucket ≡ err not_grantable)
unfolding parse_grantable_action is_grantable str_eq
bucket_actions = (refl, refl)
