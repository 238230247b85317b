-- ===== src/Authz/Evaluator.antt =====
-- internal/authz: the decision whether a principal may perform an action.
use fbs_core.Base.{
  Bool, true, false, not, ◌&&◌, List, [], ◌∷◌, Bytes, str_eq, is_blank, has_prefix, Option, none,
  some, Result, ok, err, if◌then◌else◌,
}
use fbs_core.Iam.{
  Action, role_admin, action_create_bucket, action_delete_bucket, action_list_bucket,
}
use fbs_core.Auth.Principal.{Principal}

pub record Grant : Type 0 where
  pub bucket_name : Bytes
  pub grantee_user_id : Bytes
  pub action : Action
  pub key_prefix : Bytes
  pub active : Bool

pub record DecisionRequest : Type 0 where
  pub principal : Principal
  pub action : Action
  pub bucket : Bytes
  pub object_key : Bytes
  pub list_prefix : Bytes
  pub bucket_owner_id : Bytes

-- `ListActiveForGranteeBucket`, which may fail with an error of type `E`.
abbrev pub GrantStore : Type 0 → Type 0
GrantStore E = Bytes → Bytes → Result E (List Grant)

unfoldable pub grant_matches : Grant → DecisionRequest → Bool
grant_matches grant req =
    if str_eq req.action action_list_bucket
    then has_prefix req.list_prefix grant.key_prefix
    else has_prefix req.object_key grant.key_prefix

-- The loop over the grants of step 3.
unfoldable pub any_grant : List Grant → DecisionRequest → Bool
unfolding grant_matches
any_grant [] req = false
any_grant (grant ∷ rest) req =
    let later = any_grant rest req in
    if not grant.active
    then later
    else if not (str_eq grant.action req.action)
    then later
    else if grant_matches grant req
    then true
    else later

module _ {E : Type 0} where
  -- FuncStore: a nil function lists nothing.
  unfoldable pub func_store : Option (GrantStore E) → GrantStore E
  func_store none user bucket = ok []
  func_store (some f) user bucket = f user bucket

  -- Step 3: the store is asked, and its error is passed on.
  unfoldable pub allow_by_grant : Option (GrantStore E) → DecisionRequest → Result E Bool
  unfolding any_grant
  allow_by_grant none req = ok false
  allow_by_grant (some store) req = elim (store req.principal.user_id req.bucket) [
    | err e ↦ err e
    | ok grants ↦ ok (any_grant grants req)
  ]

  unfoldable pub allow : Option (GrantStore E) → DecisionRequest → Result E Bool
  allow store req =
      if is_blank req.principal.user_id
      then ok false
      else if str_eq req.action []
      then ok false
      else if str_eq req.principal.role role_admin
      then ok true
      else if str_eq req.action action_create_bucket
      then ok true
      else if is_blank req.bucket
      then ok false
      else if not (str_eq req.bucket_owner_id [])
          && str_eq req.bucket_owner_id req.principal.user_id
      then ok true
      else if str_eq req.action action_delete_bucket
      then ok false
      else allow_by_grant store req
