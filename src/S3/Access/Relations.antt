-- ===== src/S3/Access/Relations.antt =====
-- Who has a relationship to a bucket, and so may send a request that names many of its keys.
use fbs_core.Base.{
  ◌||◌, Bytes, List, [], ◌∷◌, Option, none, some, str_eq, str_eq_iff, if◌then◌else◌, Result, ok,
  err, ◌≡◌, ◌↔◌, inl, inr, refl, arith, Bool-cases,
}
use fbs_core.Iam.{role_admin}
use fbs_core.Auth.Principal.{Principal}
use fbs_core.Authz.Evaluator.{Grant, GrantStore}
use fbs_core.Metadata.Model.{Bucket}
use fbs_core.S3.Access.{
  ObjectHandlers, identified, some_grant, listed, authorize_bucket_relationship,
}
use fbs_core.S3.Access.Outcomes.{for_principal-ok}

module _ {E : Type 0} where
  -- The store lists at least one active grant on the bucket for the user.
  abbrev pub HoldsGrant : Option (GrantStore E) → Bytes → Bytes → Type 0
  HoldsGrant store user bucket_name =
      (f : GrantStore E) × (g : Grant) × (rest : List Grant) × (store ≡ some f)
      × (f user bucket_name ≡ ok (g ∷ rest))

  pub data Related (h : ObjectHandlers E) (bucket : Bucket) (p : Principal) : Type 0 where
    is_admin : p.role ≡ role_admin → Related h bucket p
    is_owner : bucket.owner_id ≡ p.user_id → Related h bucket p
    is_grantee : HoldsGrant h.grants p.user_id bucket.name → Related h bucket p

  some_grant-ok :
      (r : Result E (List Grant))
      → some_grant r ≡ ok tt
      → (g : Grant) × (rest : List Grant) × (r ≡ ok (g ∷ rest))
  some_grant-ok (ok []) e = cc
  some_grant-ok (ok (g ∷ rest)) e = (g, rest, refl)
  some_grant-ok (err x) e = cc

  listed-HoldsGrant :
      (store : Option (GrantStore E)) (user name : Bytes)
      → listed store user name ≡ ok tt
      → HoldsGrant store user name
  listed-HoldsGrant none user name e = cc
  listed-HoldsGrant (some f) user name e =
      let (g, rest, same) = some_grant-ok (f user name) e in (f, g, rest, refl, same)

  HoldsGrant-listed :
      (store : Option (GrantStore E)) (user name : Bytes)
      → HoldsGrant store user name
      → listed store user name ≡ ok tt
  HoldsGrant-listed store user name (f, g, rest, same, answer) = rw (same, answer) refl

  module _ (h : ObjectHandlers E) (bucket : Bucket) where
    passes-Related :
        (p : Principal)
        → (if str_eq p.role role_admin || str_eq bucket.owner_id p.user_id
            then ok tt
            else listed h.grants p.user_id bucket.name)
          ≡ ok tt
        → Related h bucket p
    passes-Related p e = elim (Bool-cases (str_eq p.role role_admin)) [
      | inl r ↦ is_admin ((str_eq_iff p.role role_admin).0 r)
      | inr r ↦ elim (Bool-cases (str_eq bucket.owner_id p.user_id)) [
        | inl o ↦ is_owner ((str_eq_iff bucket.owner_id p.user_id).0 o)
        | inr o ↦
            is_grantee (listed-HoldsGrant h.grants p.user_id bucket.name (ground (arith, r, o)))
      ]
    ]

    Related-passes :
        (p : Principal)
        → Related h bucket p
        → (if str_eq p.role role_admin || str_eq bucket.owner_id p.user_id
            then ok tt
            else listed h.grants p.user_id bucket.name)
          ≡ ok tt
    Related-passes p (is_admin r) = ground (arith, str_eq_iff p.role role_admin)
    Related-passes p (is_owner o) = ground (arith, str_eq_iff bucket.owner_id p.user_id)
    Related-passes p (is_grantee g) =
        ground (arith, HoldsGrant-listed h.grants p.user_id bucket.name g)

    -- A request passes exactly when its principal is an admin, owns the bucket, or holds at least one
    -- active grant on it.
    pub relationship_iff :
        (principal : Option Principal)
        → (authorize_bucket_relationship h principal (some bucket) ≡ ok tt)
          ↔ ((p : Principal) × (identified principal ≡ some p) × Related h bucket p)
    unfolding authorize_bucket_relationship
    relationship_iff principal = (
      λ e.
          let (p, named, passed) = (for_principal-ok (identified principal) _).0 e in
          (p, named, passes-Related p passed),
      λ x.
          let (p, named, related) = x in
          (for_principal-ok (identified principal) _).1 (p, named, Related-passes p related),
    )
