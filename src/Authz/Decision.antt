-- ===== src/Authz/Decision.antt =====
-- The decisions of internal/authz/evaluator.go against a declarative account of who is permitted.
use fbs_core.Base.{
  true, false, List, [], ◌∷◌, Bytes, str_eq, str_eq_iff, is_blank, has_prefix, Option, none, some,
  ok, err, if◌then◌else◌, ◌≡◌, ◌≢◌, ◌↔◌, ◌⊎◌, inl, inr, arith, Any, Bool-cases,
}
use fbs_core.Iam.{role_admin, action_create_bucket, action_delete_bucket, action_list_bucket}
use fbs_core.Authz.Evaluator.{Grant, DecisionRequest, GrantStore, any_grant, allow_by_grant, allow}

-- The text that a grant's prefix is compared with.
abbrev pub requested_text : DecisionRequest → Bytes
requested_text req =
    if str_eq req.action action_list_bucket then req.list_prefix else req.object_key

-- An active grant of the action, on a part of the bucket that holds what is asked for.
pub record Covers (req : DecisionRequest) (grant : Grant) : Type 0 where
  pub active : grant.active ≡ true
  pub action : grant.action ≡ req.action
  pub below : has_prefix (requested_text req) grant.key_prefix ≡ true

-- Who may do what, with the grants that the store lists.
pub data Permitted (grants : List Grant) (req : DecisionRequest) : Type 0 where
  by_role : req.principal.role ≡ role_admin → Permitted grants req
  by_creation : req.action ≡ action_create_bucket → Permitted grants req
  by_ownership :
      is_blank req.bucket ≡ false
      → req.bucket_owner_id ≢ []
      → req.bucket_owner_id ≡ req.principal.user_id
      → Permitted grants req
  by_grant :
      is_blank req.bucket ≡ false
      → req.action ≢ action_delete_bucket
      → Any (Covers req) grants
      → Permitted grants req

pub record Identified (req : DecisionRequest) : Type 0 where
  pub user : is_blank req.principal.user_id ≡ false
  pub action : req.action ≢ []

-- What the evaluator can read from a store: nothing where there is none, or where it fails.
abbrev pub granted : {E : Type 0} → Option (GrantStore E) → DecisionRequest → List Grant
granted none req = []
granted (some store) req = elim (store req.principal.user_id req.bucket) [
  | ok grants ↦ grants
  | err e ↦ []
]

Covers-later_grant :
    (g : Grant) (rest : List Grant) (req : DecisionRequest)
    → any_grant (g ∷ rest) req ≡ true
    → Covers req g ⊎ (any_grant rest req ≡ true)
unfolding any_grant
Covers-later_grant g rest req h = elim (Bool-cases (any_grant rest req)) [
  | inl e ↦ inr e
  | inr e ↦ inl (record {
    active = ground arith;
    action = ground (arith, str_eq_iff g.action req.action);
    below = ground arith;
  })
]

any_grant_sound :
    (grants : List Grant) (req : DecisionRequest)
    → any_grant grants req ≡ true
    → Any (Covers req) grants
any_grant_sound [] req h = unfold any_grant in cc
any_grant_sound (g ∷ rest) req h = elim (Covers-later_grant g rest req h) [
  | inl c ↦ inl c
  | inr t ↦ inr (any_grant_sound rest req t)
]

any_grant-Covers :
    (g : Grant) (rest : List Grant) (req : DecisionRequest)
    → Covers req g
    → any_grant (g ∷ rest) req ≡ true
unfolding any_grant
any_grant-Covers g rest req c = ground (arith, str_eq_iff g.action req.action)

any_grant-later :
    (g : Grant) (rest : List Grant) (req : DecisionRequest)
    → any_grant rest req ≡ true
    → any_grant (g ∷ rest) req ≡ true
unfolding any_grant
any_grant-later g rest req h = ground arith

any_grant_complete :
    (grants : List Grant) (req : DecisionRequest)
    → Any (Covers req) grants
    → any_grant grants req ≡ true
any_grant_complete [] req h = absurd h
any_grant_complete (g ∷ rest) req (inl c) = any_grant-Covers g rest req c
any_grant_complete (g ∷ rest) req (inr t) =
    any_grant-later g rest req (any_grant_complete rest req t)

allow_by_grant_iff :
    {E : Type 0} (store : Option (GrantStore E)) (req : DecisionRequest)
    → (allow_by_grant store req ≡ ok true) ↔ (any_grant (granted store req) req ≡ true)
unfolding allow_by_grant any_grant
allow_by_grant_iff none req = unfold any_grant in (λ h. cc, λ h. cc)
allow_by_grant_iff (some store) req = (λ h. ground arith, λ h. ground arith)

module _ {E : Type 0} (store : Option (GrantStore E)) (req : DecisionRequest) where
  -- The ways through the evaluator that end in a permission.
  permissions :
      allow store req ≡ ok true
      → (is_blank req.principal.user_id ≡ false)
        × (str_eq req.action [] ≡ false)
        × ((str_eq req.principal.role role_admin ≡ true)
            ⊎ ((str_eq req.action action_create_bucket ≡ true)
                ⊎ (((is_blank req.bucket ≡ false)
                      × (str_eq req.bucket_owner_id [] ≡ false)
                      × (str_eq req.bucket_owner_id req.principal.user_id ≡ true))
                    ⊎ ((is_blank req.bucket ≡ false)
                        × (str_eq req.action action_delete_bucket ≡ false)
                        × (allow_by_grant store req ≡ ok true)))))
  unfolding allow
  permissions h = ground arith

  allow-Permitted : allow store req ≡ ok true → Identified req × Permitted (granted store req) req
  allow-Permitted h =
      let (u, a, way) = permissions h in
      (
        record { user = u; action = λ e. ground (arith, str_eq_iff req.action []) },
        elim way [
          | inl r ↦ by_role ((str_eq_iff _ _).0 r)
          | inr (inl c) ↦ by_creation ((str_eq_iff _ _).0 c)
          | inr (inr (inl (b, n, o))) ↦
              by_ownership b (λ e. ground (arith, str_eq_iff req.bucket_owner_id []))
                ((str_eq_iff _ _).0 o)
          | inr (inr (inr (b, d, g))) ↦
              by_grant b (λ e. ground (arith, str_eq_iff req.action action_delete_bucket))
                (any_grant_sound _ req ((allow_by_grant_iff store req).0 g))
        ],
      )

  Permitted-allow : Identified req → Permitted (granted store req) req → allow store req ≡ ok true
  unfolding allow
  Permitted-allow i (by_role r) =
      ground (arith, str_eq_iff req.action [], str_eq_iff req.principal.role role_admin)
  Permitted-allow i (by_creation c) =
      ground (arith, str_eq_iff req.action [], str_eq_iff req.action action_create_bucket)
  Permitted-allow i (by_ownership b n o) = ground (
    arith,
    str_eq_iff req.action [],
    str_eq_iff req.bucket_owner_id [],
    str_eq_iff req.bucket_owner_id req.principal.user_id,
  )
  Permitted-allow i (by_grant b d g) = ground (
    arith,
    str_eq_iff req.action [],
    str_eq_iff req.action action_delete_bucket,
    (allow_by_grant_iff store req).1 (any_grant_complete (granted store req) req g),
  )

  -- The evaluator allows exactly the identified principals that the account permits, whether
  -- there is a store or not, and whether it answers or fails.
  pub allow_iff : (allow store req ≡ ok true) ↔ (Identified req × Permitted (granted store req) req)
  allow_iff = (allow-Permitted, λ h. Permitted-allow h.0 h.1)
