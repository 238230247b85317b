-- ===== src/S3/Access/Guards.antt =====
-- Who passes the guards of an action.
use fbs_core.Base.{
  List, ◌⊎◌, inl, inr, ap, Option-cases, false, Bytes, [], Option, none, some, is_blank, Result, ok,
  err, >>=-ok, checked-ok, ◌≡◌, ◌↔◌, refl, arith,
}
use fbs_core.Iam.{Action}
use fbs_core.Auth.Principal.{Principal}
use fbs_core.Authz.Evaluator.{Grant, GrantStore, DecisionRequest, allow}
use fbs_core.Authz.Failure.{IsOpen, allow-err}
use fbs_core.Authz.Decision.{Identified, Permitted, granted, allow_iff}
use fbs_core.Metadata.Model.{Bucket}
use fbs_core.S3.Access.{
  invalid_request, access_denied, internal_error, LookupError, bucket_not_found, failed,
  ObjectHandlers, identified, for_principal, request_for, evaluator, decided, authorize,
  authorize_quiet, loaded, load_bucket, load_bucket_for_action,
}
use fbs_core.S3.Access.Outcomes.{
  for_principal-ok, for_principal-failed, identified-some, decided_ok, decided_failed,
  decided-cases,
}

module _ {E : Type 0} (h : ObjectHandlers E) where
  -- The grants that count: none without an evaluator.
  abbrev pub account : DecisionRequest → List Grant
  account req = elim h.authz [ none ↦ [] | some store ↦ granted store req ]

  -- The request has a principal who is named and to whom the account permits the action.
  abbrev pub Authorized : Option Principal → (Principal → DecisionRequest) → Type 0
  Authorized principal req =
      (p : Principal) × (principal ≡ some p)
      × Identified (req p)
      × Permitted (account (req p)) (req p)

  -- Nothing but its grants decides the request, and the store of the evaluator cannot list them.
  abbrev pub Failed : Option Principal → (Principal → DecisionRequest) → Type 0
  Failed principal req =
      (p : Principal) × (store : GrantStore E) × (x : E) × (principal ≡ some p)
      × IsOpen (req p)
      × (h.authz ≡ some (some store))
      × (store p.user_id (req p).bucket ≡ err x)

  granted-cases :
      (o : Option (Option (GrantStore E))) (req : DecisionRequest)
      → granted (elim o [ none ↦ none | some e ↦ e ]) req
        ≡ elim o [ none ↦ [] | some store ↦ granted store req ]
  granted-cases none req = refl
  granted-cases (some store) req = refl

  account-evaluator : (req : DecisionRequest) → granted (evaluator h) req ≡ account req
  unfolding evaluator
  account-evaluator req = granted-cases h.authz req

  store-cases :
      (o : Option (Option (GrantStore E))) (f : GrantStore E)
      → (elim o [ none ↦ none | some e ↦ e ] ≡ some f) ↔ (o ≡ some (some f))
  store-cases none f = (λ e. cc, λ e. cc)
  store-cases (some store) f = (λ e. ap some e, λ e. ground (arith, e))

  evaluator_store : (f : GrantStore E) → (evaluator h ≡ some f) ↔ (h.authz ≡ some (some f))
  unfolding evaluator
  evaluator_store f = store-cases h.authz f

  module _ (principal : Option Principal) (action : Action)
      (bucket_name object_key list_prefix : Bytes) (bucket : Option Bucket) where
    abbrev asked : Principal → DecisionRequest
    asked p = request_for p action bucket_name object_key list_prefix bucket

    authorize-Authorized :
        authorize h principal action bucket_name object_key list_prefix bucket ≡ ok tt
        → Authorized principal asked
    unfolding authorize
    authorize-Authorized e =
        let (p, named, passed) = (for_principal-ok (identified principal) _).0 e in
        let allowed = (decided_ok (allow (evaluator h) (asked p))).0 passed in
        let (i, may) = (allow_iff (evaluator h) (asked p)).0 allowed in
        (p, ((identified-some principal p).0 named).0, i, rw (← account-evaluator (asked p)) may)

    Authorized-authorize :
        Authorized principal asked
        → authorize h principal action bucket_name object_key list_prefix bucket ≡ ok tt
    unfolding authorize
    Authorized-authorize (p, same, i, may) =
        let allowed =
          (allow_iff (evaluator h) (asked p)).1 (i, rw (account-evaluator (asked p)) may) in
        (for_principal-ok (identified principal) _).1 (
          p,
          (identified-some principal p).1 (same, i.user),
          (decided_ok (allow (evaluator h) (asked p))).1 allowed,
        )

    authorize-Failed :
        (authorize h principal action bucket_name object_key list_prefix bucket
          ≡ err internal_error)
        ↔ Failed principal asked
    unfolding authorize
    authorize-Failed = (
      λ e.
          let (p, named, wrong) = (for_principal-failed (identified principal) _).0 e in
          let (x, failing) = (decided_failed (allow (evaluator h) (asked p))).0 wrong in
          let (is_open, (f, there, fails)) = (allow-err (evaluator h) (asked p) x).0 failing in
          (
            p,
            f,
            x,
            ((identified-some principal p).0 named).0,
            is_open,
            (evaluator_store f).0 there,
            fails,
          ),
      λ (p, f, x, same, is_open, there, fails).
          let failing =
            (allow-err (evaluator h) (asked p) x).1
              (is_open, (f, (evaluator_store f).1 there, fails)) in
          (for_principal-failed (identified principal) _).1 (
            p,
            (identified-some principal p).1 (same, is_open.identified.user),
            (decided_failed (allow (evaluator h) (asked p))).1 (x, failing),
          ),
    )

    authorize-cases :
        (authorize h principal action bucket_name object_key list_prefix bucket ≡ ok tt)
        ⊎ ((authorize h principal action bucket_name object_key list_prefix bucket
              ≡ err internal_error)
            ⊎ (authorize h principal action bucket_name object_key list_prefix bucket
                ≡ err access_denied))
    unfolding authorize
    authorize-cases = elim (Option-cases (identified principal)) [
      | inl gone ↦ inr (inr (rw gone refl))
      | inr (p, there) ↦ rw there (decided-cases (allow (evaluator h) (asked p)))
    ]

    -- A request passes the guard of an action exactly when its principal is named and the account
    -- permits the action, where the grants of the account are those of the evaluator's store, and none
    -- without an evaluator. It fails as an internal error exactly when neither role, action nor
    -- ownership decide it and that store cannot list the grants. Any other request is denied.
    pub authorize_iff :
        ((authorize h principal action bucket_name object_key list_prefix bucket ≡ ok tt)
          ↔ Authorized principal asked)
        × ((authorize h principal action bucket_name object_key list_prefix bucket
              ≡ err internal_error)
            ↔ Failed principal asked)
        × ((authorize h principal action bucket_name object_key list_prefix bucket ≡ ok tt)
            ⊎ ((authorize h principal action bucket_name object_key list_prefix bucket
                  ≡ err internal_error)
                ⊎ (authorize h principal action bucket_name object_key list_prefix bucket
                    ≡ err access_denied)))
    authorize_iff =
        ((authorize-Authorized, Authorized-authorize), authorize-Failed, authorize-cases)

  -- The check of each key of a request to delete many agrees with the guard of a single action.
  pub authorize-authorize_quiet :
      (principal : Option Principal) (action : Action) (bucket_name object_key : Bytes)
      (bucket : Option Bucket)
      → authorize h principal action bucket_name object_key [] bucket
        ≡ decided (authorize_quiet h principal action bucket_name object_key bucket)
  unfolding authorize authorize_quiet
  authorize-authorize_quiet principal action bucket_name object_key bucket =
      same_gate (identified principal)
    where
      same_gate :
          (o : Option Principal)
          → for_principal o (err access_denied) (λ p.
            decided (allow (evaluator h) (request_for p action bucket_name object_key [] bucket)))
            ≡ decided (
                for_principal o (ok false) (λ p.
                  allow (evaluator h) (request_for p action bucket_name object_key [] bucket)))
      same_gate none = refl
      same_gate (some p) = refl

  loaded-ok : (r : Result (LookupError E) Bucket) (b : Bucket) → loaded r ≡ ok b → r ≡ ok b
  loaded-ok (ok x) b e = ground arith
  loaded-ok (err bucket_not_found) b e = cc
  loaded-ok (err (failed x)) b e = cc

  -- A handler that goes on with a bucket has the bucket of the name, and its principal is permitted
  -- the action on it, as the owner that the bucket has.
  pub load_bucket_for_action-ok :
      (principal : Option Principal) (bucket_name : Bytes) (action : Action)
      (object_key list_prefix : Bytes) (bucket : Bucket)
      → load_bucket_for_action h principal bucket_name action object_key list_prefix ≡ ok bucket
      → (is_blank bucket_name ≡ false)
        × (h.get_by_name bucket_name ≡ ok bucket)
        × Authorized principal
            (λ p. request_for p action bucket_name object_key list_prefix (some bucket))
  unfolding load_bucket_for_action load_bucket
  load_bucket_for_action-ok principal bucket_name action object_key list_prefix bucket e =
      let (b, found, rest) = >>=-ok (load_bucket h bucket_name) _ e in
      let (allowed, passed, same) =
        >>=-ok (authorize h principal action bucket_name object_key list_prefix (some b)) _ rest in
      let (named, row) =
        checked-ok (is_blank bucket_name) invalid_request (loaded (h.get_by_name bucket_name))
          found in
      let here : b ≡ bucket = ground (arith, same) in
      (
        named,
        rw (← here) (loaded-ok (h.get_by_name bucket_name) b row),
        rw (← here) (
            authorize-Authorized principal action bucket_name object_key list_prefix (some b)
              passed),
      )
