-- ===== src/ShareLinks/Read.antt =====
-- internal/s3/share_link_read.go: who may read through a link. The link names its creator, whose
-- right to read is decided when the link is used.
use fbs_core.Base.{
  Bool, true, false, not, Bytes, [], Option, none, some, str_eq, if◌then◌else◌, Result, ok, err,
  ◌>>=◌, >>=-ok, checked-ok, ◌≡◌, refl, arith, Bool-cases, inl, inr,
}
use fbs_core.Iam.{action_get_object}
use fbs_core.Metadata.Model.{Time, User, Bucket}
use fbs_core.Auth.Principal.{user_principal}
use fbs_core.Auth.Bearer.{UserError, user_not_found, failed}
use fbs_core.Authz.Evaluator.{DecisionRequest, allow}
use fbs_core.Authz.Decision.{Identified, Permitted, granted, allow_iff}
use fbs_core.S3.Access.{LookupError, bucket_not_found, ObjectHandlers, evaluator}
use fbs_core.ShareLinks.{
  share_link_code_taken, no_randomness, ShareLink, ShareLinkError, share_link_not_found, is_expired,
}

pub data ReadError : Type 0 where
  not_found internal_error : ReadError

abbrev pub found_link : Result ShareLinkError ShareLink → Result ReadError ShareLink
found_link (ok link) = ok link
found_link (err share_link_not_found) = err not_found
found_link (err e) = err internal_error

-- The repository of links is absent where share links are not served.
abbrev pub links_or_none :
    Option (Bytes → Result ShareLinkError ShareLink) → Bytes → Result ReadError ShareLink
links_or_none none code = err not_found
links_or_none (some get_by_code) code =
    if str_eq code [] then err not_found else found_link (get_by_code code)

found_link-ok :
    (r : Result ShareLinkError ShareLink) (link : ShareLink) → found_link r ≡ ok link → r ≡ ok link
found_link-ok (ok x) link h = ground (arith, h)
found_link-ok (err share_link_not_found) link h = cc
found_link-ok (err share_link_code_taken) link h = cc
found_link-ok (err no_randomness) link h = cc

-- The request of a link's creator.
abbrev pub creator_request : ShareLink → User → Bucket → DecisionRequest
creator_request link creator bucket = record {
  principal = user_principal creator.id creator.role;
  action = action_get_object;
  bucket = link.bucket_name;
  object_key = link.object_key;
  list_prefix = [];
  bucket_owner_id = bucket.owner_id;
}

module _ {E : Type 0} where
  abbrev pub bucket_allows :
      ObjectHandlers E → ShareLink → User → Result (LookupError E) Bucket → Result E Bool
  bucket_allows h link creator (err bucket_not_found) = ok false
  bucket_allows h link creator (err (LookupError.failed e)) = err e
  bucket_allows h link creator (ok bucket) =
      allow (evaluator h) (creator_request link creator bucket)

  abbrev pub creator_allows :
      ObjectHandlers E → ShareLink → Result (UserError E) User → Result E Bool
  creator_allows h link (err user_not_found) = ok false
  creator_allows h link (err (failed e)) = err e
  creator_allows h link (ok creator) =
      if not creator.is_active
      then ok false
      else bucket_allows h link creator (h.get_by_name link.bucket_name)

  unfoldable pub creator_can_read :
      ObjectHandlers E → (Bytes → Result (UserError E) User) → ShareLink → Result E Bool
  creator_can_read h get_user link = creator_allows h link (get_user link.created_by)

  abbrev pub answer : ShareLink → Result E Bool → Result ReadError ShareLink
  answer link (err e) = err internal_error
  answer link (ok false) = err not_found
  answer link (ok true) = ok link

  unfoldable pub load_active_share_link :
      ObjectHandlers E
      → (Bytes → Result (UserError E) User)
      → Option (Bytes → Result ShareLinkError ShareLink)
      → Time
      → Bytes
      → Result ReadError ShareLink
  load_active_share_link h get_user links now code = do
    link ← links_or_none links code
    if is_expired link now then err not_found else answer link (creator_can_read h get_user link)

  answer-ok :
      (link l : ShareLink) (r : Result E Bool) → answer link r ≡ ok l → (r ≡ ok true) × (link ≡ l)
  answer-ok link l (err e) h = cc
  answer-ok link l (ok true) h = (refl, ground (arith, h))
  answer-ok link l (ok false) h = cc

  creator_allows-ok :
      (h : ObjectHandlers E) (link : ShareLink) (r : Result (UserError E) User)
      → creator_allows h link r ≡ ok true
      → (creator : User) × (bucket : Bucket) × (r ≡ ok creator)
        × (creator.is_active ≡ true)
        × (h.get_by_name link.bucket_name ≡ ok bucket)
        × (allow (evaluator h) (creator_request link creator bucket) ≡ ok true)
  creator_allows-ok h link (err user_not_found) e = cc
  creator_allows-ok h link (err (failed x)) e = cc
  creator_allows-ok h link (ok creator) e = elim (Bool-cases creator.is_active) [
    | inr idle ↦ cc (rw idle at e)
    | inl live ↦
        let (bucket, found, allowed) = by_bucket (h.get_by_name link.bucket_name) (rw live at e) in
        (creator, bucket, refl, live, found, allowed)
  ]
    where
      by_bucket :
          (r : Result (LookupError E) Bucket)
          → bucket_allows h link creator r ≡ ok true
          → (bucket : Bucket) × (r ≡ ok bucket)
            × (allow (evaluator h) (creator_request link creator bucket) ≡ ok true)
      by_bucket (err bucket_not_found) k = cc
      by_bucket (err (LookupError.failed x)) k = cc
      by_bucket (ok bucket) k = (bucket, refl, k)

  -- A share link that is served was stored under the code in the request and has not expired; its
  -- creator is a user who is there and active, and whom the account permits to read the object now.
  pub load_active_share_link-ok :
      (h : ObjectHandlers E) (get_user : Bytes → Result (UserError E) User)
      (get_by_code : Bytes → Result ShareLinkError ShareLink) (now : Time) (code : Bytes)
      (link : ShareLink)
      → load_active_share_link h get_user (some get_by_code) now code ≡ ok link
      → (creator : User) × (bucket : Bucket) × (get_by_code code ≡ ok link)
        × (is_expired link now ≡ false)
        × (get_user link.created_by ≡ ok creator)
        × (creator.is_active ≡ true)
        × (h.get_by_name link.bucket_name ≡ ok bucket)
        × Identified (creator_request link creator bucket)
        × Permitted
            (granted (evaluator h) (creator_request link creator bucket))
            (creator_request link creator bucket)
  unfolding load_active_share_link creator_can_read
  load_active_share_link-ok h get_user get_by_code now code link e =
      let (x, found, e) = >>=-ok (links_or_none (some get_by_code) code) _ e in
      let (fresh, e) = checked-ok (is_expired x now) not_found _ e in
      let (allowed, same) = answer-ok x link _ e in
      let (some_code, found) = checked-ok (str_eq code []) not_found _ found in
      let (creator, bucket, there, live, held, may) =
        creator_allows-ok h link (get_user link.created_by) (rw (← same) allowed) in
      let (who, permitted) =
        (allow_iff (evaluator h) (creator_request link creator bucket)).0 may in
      (
        creator,
        bucket,
        rw (← same) (found_link-ok (get_by_code code) x found),
        rw (← same) fresh,
        there,
        live,
        held,
        who,
        permitted,
      )
