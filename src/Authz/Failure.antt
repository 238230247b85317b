-- ===== src/Authz/Failure.antt =====
-- When the evaluator fails: the request is decided by nothing but its grants, and the store cannot
-- list them.
use fbs_core.Base.{
  Bool, true, false, ◌&&◌, not, Bytes, [], str_eq, str_eq_iff, is_blank, Option, none, some, Result,
  ok, err, if◌then◌else◌, ◌≡◌, ◌≢◌, ◌↔◌, refl, arith, false_of_not, List, Bool-cases, inl, inr,
}
use fbs_core.Iam.{role_admin, action_create_bucket, action_delete_bucket}
use fbs_core.Authz.Evaluator.{DecisionRequest, GrantStore, Grant, any_grant, allow_by_grant, allow}
use fbs_core.Authz.Decision.{Identified}

-- A request that role, action and ownership leave open.
pub record IsOpen (req : DecisionRequest) : Type 0 where
  pub identified : Identified req
  pub role : req.principal.role ≢ role_admin
  pub creation : req.action ≢ action_create_bucket
  pub bucket : is_blank req.bucket ≡ false
  pub owner : req.bucket_owner_id ≢ [] → req.bucket_owner_id ≢ req.principal.user_id
  pub deletion : req.action ≢ action_delete_bucket

differs : (a b : Bytes) → str_eq a b ≡ false → a ≢ b
differs a b h same = cc ((str_eq_iff a b).1 same, h)

apart : (a b : Bytes) → a ≢ b → str_eq a b ≡ false
apart a b h = false_of_not (str_eq a b) (λ e. h ((str_eq_iff a b).0 e))

not_owner :
    (req : DecisionRequest)
    → IsOpen req
    → (not (str_eq req.bucket_owner_id []) && str_eq req.bucket_owner_id req.principal.user_id)
      ≡ false
not_owner req o = elim (Bool-cases (str_eq req.bucket_owner_id [])) [
  | inl e ↦ rw e refl
  | inr e ↦
      rw
        (
          e,
          apart req.bucket_owner_id req.principal.user_id
              (o.owner (differs req.bucket_owner_id [] e)),
        )
        refl
]

module _ {E : Type 0} where
  passed :
      (b v : Bool) (rest : Result E Bool) (x : E)
      → (if b then ok v else rest) ≡ err x
      → (b ≡ false) × (rest ≡ err x)
  passed true v rest x h = cc
  passed false v rest x h = (refl, h)

  -- The store fails on what it is asked for.
  abbrev pub Fails : Option (GrantStore E) → DecisionRequest → E → Type 0
  Fails store req x =
      (f : GrantStore E) × (store ≡ some f) × (f req.principal.user_id req.bucket ≡ err x)

  listed-err :
      (r : Result E (List Grant)) (req : DecisionRequest) (x : E)
      → elim r [ err e ↦ err e | ok grants ↦ ok (any_grant grants req) ] ≡ err x
      → r ≡ err x
  listed-err (ok grants) req x h = cc
  listed-err (err e) req x h = ground (arith, h)

  by_grant-Fails :
      (store : Option (GrantStore E)) (req : DecisionRequest) (x : E)
      → allow_by_grant store req ≡ err x
      → Fails store req x
  unfolding allow_by_grant
  by_grant-Fails none req x h = cc
  by_grant-Fails (some f) req x h =
      (f, refl, listed-err (f req.principal.user_id req.bucket) req x h)

  -- The evaluator fails with an error exactly when it is the store's, on a request that it has to ask
  -- the store for.
  pub allow-err :
      (store : Option (GrantStore E)) (req : DecisionRequest) (x : E)
      → (allow store req ≡ err x) ↔ (IsOpen req × Fails store req x)
  unfolding allow allow_by_grant
  allow-err store req x = (
    λ h.
        let (user, h) = passed _ _ _ x h in
        let (action, h) = passed _ _ _ x h in
        let (role, h) = passed _ _ _ x h in
        let (creation, h) = passed _ _ _ x h in
        let (bucket, h) = passed _ _ _ x h in
        let (owner, h) =
          passed
            (not (str_eq req.bucket_owner_id [])
              && str_eq req.bucket_owner_id req.principal.user_id)
            true _ x h in
        let (deletion, h) = passed (str_eq req.action action_delete_bucket) false _ x h in
        (
          record {
            identified = record { user = user; action = differs req.action [] action };
            role = differs req.principal.role role_admin role;
            creation = differs req.action action_create_bucket creation;
            bucket = bucket;
            owner = λ named.
                differs req.bucket_owner_id req.principal.user_id
                  (ground (arith, owner, apart req.bucket_owner_id [] named));
            deletion = differs req.action action_delete_bucket deletion;
          },
          by_grant-Fails store req x h,
        ),
    λ (o, store_fails).
        let (f, same, fails) = store_fails in
        let user = o.identified.user in
        let action = apart req.action [] o.identified.action in
        let role = apart req.principal.role role_admin o.role in
        let creation = apart req.action action_create_bucket o.creation in
        let bucket = o.bucket in
        let owner = not_owner req o in
        let deletion = apart req.action action_delete_bucket o.deletion in
        rw (user, action, role, creation, bucket, owner, deletion, same) (rw fails refl),
  )
