-- ===== src/Iam.antt =====
-- internal/iam/iam.go: roles and actions. Both are strings, so a value that names no role or
-- action can be written too.
mod Tests
use fbs_core.Base.{
  Bool, true, false, List, [], ◌∷◌, Bytes, codes, str_eq, ◌||◌, ◌≡◌, refl, arith, str_eq_iff,
  if◌then◌else◌, Result, ok, err, not, Any, inl, inr, ◌↔◌, str_eq_refl, ◌⊎◌, ap, Bool-cases, sym,
}

abbrev pub Role : Type 0
Role = Bytes

abbrev pub role_admin : Role
role_admin = codes "admin"

abbrev pub role_member : Role
role_member = codes "member"

pub data Error : Type 0 where
  invalid_role not_grantable : Error

unfoldable pub parse_role : Bytes → Result Error Role
parse_role value =
    if str_eq value role_admin || str_eq value role_member then ok value else err invalid_role

abbrev pub Action : Type 0
Action = Bytes

abbrev pub action_create_bucket : Action
action_create_bucket = codes "s3:CreateBucket"

abbrev pub action_delete_bucket : Action
action_delete_bucket = codes "s3:DeleteBucket"

abbrev pub action_list_bucket : Action
action_list_bucket = codes "s3:ListBucket"

abbrev pub action_get_object : Action
action_get_object = codes "s3:GetObject"

abbrev pub action_put_object : Action
action_put_object = codes "s3:PutObject"

abbrev pub action_delete_object : Action
action_delete_object = codes "s3:DeleteObject"

abbrev pub action_list_multipart_upload_parts : Action
action_list_multipart_upload_parts = codes "s3:ListMultipartUploadParts"

abbrev pub action_abort_multipart_upload : Action
action_abort_multipart_upload = codes "s3:AbortMultipartUpload"

pub grantable_actions : List Action
grantable_actions =
    action_list_bucket ∷ action_get_object ∷ action_put_object ∷ action_delete_object
    ∷ action_list_multipart_upload_parts ∷ action_abort_multipart_upload ∷ []

-- The loop of `IsGrantable`.
grantable_in : Action → List Action → Bool
grantable_in a [] = false
grantable_in a (grantable ∷ rest) = if str_eq a grantable then true else grantable_in a rest

unfoldable pub is_grantable : Action → Bool
unfolding grantable_in grantable_actions
is_grantable a = grantable_in a grantable_actions

unfoldable pub parse_grantable_action : Bytes → Result Error Action
parse_grantable_action value = if not (is_grantable value) then err not_grantable else ok value

grantable_in_iff : (a : Action) (l : List Action) → (grantable_in a l ≡ true) ↔ Any (λ b. a ≡ b) l
unfolding grantable_in
grantable_in_iff a [] = (λ h. ground arith, λ h. absurd h)
grantable_in_iff a (b ∷ l) =
    let (to, from) = grantable_in_iff a l in
    (
      λ h. elim (Bool-cases (str_eq a b)) [
        | inl e ↦ inl ((str_eq_iff a b).0 e)
        | inr e ↦ inr (to (rw e at h))
      ],
      λ h. elim h [
        | inl e ↦ rw (e, str_eq_refl)
        | inr t ↦ elim (Bool-cases (str_eq a b)) [ inl e ↦ rw e | inr e ↦ rw e (from t) ]
      ],
    )

pub is_grantable_iff : (a : Action) → (is_grantable a ≡ true) ↔ Any (λ b. a ≡ b) grantable_actions
unfolding is_grantable
is_grantable_iff a = grantable_in_iff a grantable_actions

parse_grantable_action-eq-ok :
    (value a : Bytes)
    → parse_grantable_action value ≡ ok a
    → (value ≡ a) × (is_grantable value ≡ true)
unfolding parse_grantable_action
parse_grantable_action-eq-ok value a h = ground arith

-- A value parses exactly if it is one of the six grantable actions, and then as itself.
pub parse_grantable_action_iff :
    (value a : Bytes)
    → (parse_grantable_action value ≡ ok a) ↔ ((value ≡ a) × Any (λ b. value ≡ b) grantable_actions)
unfolding parse_grantable_action
parse_grantable_action_iff value a = (
  λ h. let (e, g) = parse_grantable_action-eq-ok value a h in (e, (is_grantable_iff value).0 g),
  λ h. rw ((is_grantable_iff value).1 h.1) (ap ok h.0),
)
