-- ===== src/S3/Access.antt =====
-- internal/s3/access.go: whether a request may go on. A guard gives `ok`, or the error that it
-- writes; the principal is the one that the request's context holds.
pub mod Outcomes
pub mod Guards
pub mod Relations
mod Tests
use fbs_core.Base.{
  Bool, true, false, not, ◌&&◌, ◌||◌, Bytes, List, [], ◌∷◌, Option, none, some, codes, str_eq,
  to_lower, equal_fold, split, trim_space, is_blank, if◌then◌else◌, Result, ok, err, ◌>>=◌,
}
use fbs_core.Iam.{Action, role_admin}
use fbs_core.Auth.Principal.{Principal}
use fbs_core.Authz.Evaluator.{Grant, GrantStore, DecisionRequest, allow}
use fbs_core.Metadata.Model.{Bucket}

pub data S3Error : Type 0 where
  access_denied internal_error invalid_request no_such_bucket : S3Error

-- What the repository of buckets answers when it has no bucket: that there is none, or its error.
pub data LookupError (E : Type 0) : Type 0 where
  bucket_not_found : LookupError E
  failed : E → LookupError E

-- The evaluator, itself with or without a store, the grants and the buckets.
pub record ObjectHandlers (E : Type 0) : Type 0 where
  pub authz : Option (Option (GrantStore E))
  pub grants : Option (GrantStore E)
  pub get_by_name : Bytes → Result (LookupError E) Bucket

abbrev pub owner_of : Option Bucket → Bytes
owner_of none = []
owner_of (some b) = b.owner_id

-- `!ok || strings.TrimSpace(principal.UserID) == ""`
abbrev pub identified : Option Principal → Option Principal
identified none = none
identified (some p) = if is_blank p.user_id then none else some p

abbrev pub for_principal : {A : Type 0} → Option Principal → A → (Principal → A) → A
for_principal none denied go = denied
for_principal (some p) denied go = go p

abbrev pub request_for :
    Principal → Action → Bytes → Bytes → Bytes → Option Bucket → DecisionRequest
request_for p action bucket_name object_key list_prefix bucket = record {
  principal = p;
  action = action;
  bucket = bucket_name;
  object_key = object_key;
  list_prefix = list_prefix;
  bucket_owner_id = owner_of bucket;
}

module _ {E : Type 0} where
  -- Without an evaluator, one that has no store.
  unfoldable pub evaluator : ObjectHandlers E → Option (GrantStore E)
  evaluator h = elim h.authz [ none ↦ none | some e ↦ e ]

  abbrev pub decided : Result E Bool → Result S3Error Unit
  decided (err e) = err internal_error
  decided (ok true) = ok tt
  decided (ok false) = err access_denied

  unfoldable pub authorize :
      ObjectHandlers E
      → Option Principal
      → Action
      → Bytes
      → Bytes
      → Bytes
      → Option Bucket
      → Result S3Error Unit
  unfolding evaluator
  authorize h principal action bucket_name object_key list_prefix bucket =
      for_principal (identified principal) (err access_denied) (λ p.
        decided
          (allow (evaluator h) (request_for p action bucket_name object_key list_prefix bucket)))

  unfoldable pub authorize_quiet :
      ObjectHandlers E → Option Principal → Action → Bytes → Bytes → Option Bucket → Result E Bool
  unfolding evaluator
  authorize_quiet h principal action bucket_name object_key bucket =
      for_principal (identified principal) (ok false)
        (λ p. allow (evaluator h) (request_for p action bucket_name object_key [] bucket))

  abbrev pub some_grant : Result E (List Grant) → Result S3Error Unit
  some_grant (err e) = err internal_error
  some_grant (ok []) = err access_denied
  some_grant (ok (g ∷ grants)) = ok tt

  abbrev pub listed : Option (GrantStore E) → Bytes → Bytes → Result S3Error Unit
  listed none user bucket_name = err access_denied
  listed (some store) user bucket_name = some_grant (store user bucket_name)

  unfoldable pub authorize_bucket_relationship :
      ObjectHandlers E → Option Principal → Option Bucket → Result S3Error Unit
  authorize_bucket_relationship h principal none = err access_denied
  authorize_bucket_relationship h principal (some bucket) =
      for_principal (identified principal) (err access_denied) (λ p.
        if str_eq p.role role_admin || str_eq bucket.owner_id p.user_id
        then ok tt
        else listed h.grants p.user_id bucket.name)

  abbrev pub loaded : Result (LookupError E) Bucket → Result S3Error Bucket
  loaded (ok b) = ok b
  loaded (err bucket_not_found) = err no_such_bucket
  loaded (err (failed e)) = err internal_error

  unfoldable pub load_bucket : ObjectHandlers E → Bytes → Result S3Error Bucket
  load_bucket h bucket_name =
      if is_blank bucket_name then err invalid_request else loaded (h.get_by_name bucket_name)

  unfoldable pub load_bucket_for_action :
      ObjectHandlers E → Option Principal → Bytes → Action → Bytes → Bytes → Result S3Error Bucket
  load_bucket_for_action h principal bucket_name action object_key list_prefix = do
    bucket ← load_bucket h bucket_name
    allowed ← authorize h principal action bucket_name object_key list_prefix (some bucket)
    ok bucket

  -- Whether the handler goes on.
  unfoldable pub ensure_bucket_action :
      ObjectHandlers E → Option Principal → Bytes → Action → Bytes → Bytes → Result S3Error Unit
  ensure_bucket_action h principal bucket_name action object_key list_prefix = do
    bucket ← load_bucket_for_action h principal bucket_name action object_key list_prefix
    ok tt

unfoldable pub names_header : List Bytes → Bytes → Bool
names_header [] needle = false
names_header (s ∷ rest) needle = equal_fold (trim_space s) needle || names_header rest needle

-- The headers that the signature covers; without a principal or a list all are taken as signed.
unfoldable pub request_has_signed_header : Option Principal → Bytes → Bool
unfolding names_header
request_has_signed_header none header_name = true
request_has_signed_header (some p) header_name =
    if is_blank p.signed_headers
    then true
    else names_header (split b';' p.signed_headers) (to_lower header_name)

unfoldable pub require_signed_header : Option Principal → Bytes → Result S3Error Unit
require_signed_header principal header_name =
    if request_has_signed_header principal header_name then ok tt else err access_denied
