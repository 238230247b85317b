-- ===== src/Authz/Limits.antt =====
-- What no grant can do, and what a grant keeps when a listing is narrowed.
use fbs_core.Base.{
  true, List, [], ◌∷◌, ◌++◌, Bytes, str_eq, str_eq_iff, has_prefix-extend, Option, none, some, ok,
  err, ◌≡◌, ◌⊎◌, inl, inr, refl, arith, Any,
}
use fbs_core.Iam.{role_admin, action_create_bucket, action_delete_bucket, action_list_bucket}
use fbs_core.Authz.Evaluator.{Grant, DecisionRequest, GrantStore, allow_by_grant, allow}
use fbs_core.Authz.Decision.{
  Covers, Permitted, by_role, by_creation, by_ownership, by_grant, granted, allow_iff,
}

abbrev pub narrowed : DecisionRequest → Bytes → DecisionRequest
narrowed req q = record req { list_prefix = req.list_prefix ++ q }

Covers-narrowed :
    (req : DecisionRequest) (q : Bytes) (grants : List Grant)
    → req.action ≡ action_list_bucket
    → Any (Covers req) grants
    → Any (Covers (narrowed req q)) grants
Covers-narrowed req q [] a h = h
Covers-narrowed req q (g ∷ rest) a (inl c) = inl (record {
  active = c.active;
  action = c.action;
  below = ground (
    arith,
    c.below,
    str_eq_iff req.action action_list_bucket,
    has_prefix-extend req.list_prefix q g.key_prefix,
  );
})
Covers-narrowed req q (g ∷ rest) a (inr t) = inr (Covers-narrowed req q rest a t)

Permitted-narrowed :
    (grants : List Grant) (req : DecisionRequest) (q : Bytes)
    → req.action ≡ action_list_bucket
    → Permitted grants req
    → Permitted grants (narrowed req q)
Permitted-narrowed grants req q a (by_role r) = by_role r
Permitted-narrowed grants req q a (by_creation c) = by_creation c
Permitted-narrowed grants req q a (by_ownership b n o) = by_ownership b n o
Permitted-narrowed grants req q a (by_grant b d g) = by_grant b d (Covers-narrowed req q grants a g)

module _ {E : Type 0} where
  granted-narrowed :
      (store : Option (GrantStore E)) (req : DecisionRequest) (q : Bytes)
      → granted store (narrowed req q) ≡ granted store req
  granted-narrowed none req q = refl
  granted-narrowed (some f) req q = refl

  -- Whoever may list a bucket at a prefix may list it at every longer prefix.
  pub allow-narrowed :
      (store : Option (GrantStore E)) (req : DecisionRequest) (q : Bytes)
      → req.action ≡ action_list_bucket
      → allow store req ≡ ok true
      → allow store (narrowed req q) ≡ ok true
  allow-narrowed store req q a h =
      let (i, p) = (allow_iff store req).0 h in
      (allow_iff store (narrowed req q)).1 (
        record { user = i.user; action = i.action },
        rw granted-narrowed (Permitted-narrowed (granted store req) req q a p),
      )

  -- Deletion of a bucket is allowed only to an admin and to the owner, whatever the grants.
  pub allow-delete_bucket :
      (store : Option (GrantStore E)) (req : DecisionRequest)
      → req.action ≡ action_delete_bucket
      → allow store req ≡ ok true
      → (req.principal.role ≡ role_admin) ⊎ (req.bucket_owner_id ≡ req.principal.user_id)
  allow-delete_bucket store req a h = elim ((allow_iff store req).0 h).1 [
    | by_role r ↦ inl r
    | by_creation c ↦
        absurd
          (unfold str_eq in ground (arith, str_eq_iff action_create_bucket action_delete_bucket))
    | by_ownership b n o ↦ inr o
    | by_grant b d g ↦ absurd (d a)
  ]

  -- An error of the evaluator is the store's own error for this principal and bucket.
  pub allow-err :
      (store : Option (GrantStore E)) (req : DecisionRequest) (e : E)
      → allow store req ≡ err e
      → (f : GrantStore E) × (store ≡ some f) × (f req.principal.user_id req.bucket ≡ err e)
  unfolding allow allow_by_grant
  allow-err none req e h = absurd (ground arith)
  allow-err (some f) req e h = (f, refl, ground arith)
