-- ===== src/ShareLinks/Tests.antt =====
-- A link of an owner to an object of the bucket.
use fbs_core.Base.{
  ℕ, true, false, Bytes, List, [], ◌∷◌, length, none, some, codes, str_eq, is_blank, if◌then◌else◌,
  Result, ok, err, ◌≡◌, ◌≢◌, ◌⊎◌, refl,
}
use fbs_core.Iam.{role_member}
use fbs_core.Metadata.Model.{User, Bucket}
use fbs_core.Auth.Bearer.{UserError, user_not_found}
use fbs_core.Authz.Evaluator.{allow}
use fbs_core.Authz.Decision.{Identified, Permitted, granted}
use fbs_core.S3.Access.{ObjectHandlers, evaluator}
use fbs_core.ShareLinks.{
  ShareLink, find_link, get_by_code, is_expired, create, insert_share_link, insert_generated,
  generate, generate_code, validate_alias,
}
use fbs_core.ShareLinks.Read.{
  creator_request, creator_can_read, load_active_share_link, load_active_share_link-ok,
}
use fbs_core.ShareLinks.Insert.{StoredNew, insert_share_link-ok}

abbrev owner : User
owner = record {
  id = codes "u1";
  display_name = codes "Ada";
  access_key_id = [];
  secret_hash = [];
  sigv4_access_key_id = [];
  sigv4_secret_key = [];
  role = role_member;
  is_active = true;
  created_at = 1;
  updated_at = 1;
}

abbrev handlers : ObjectHandlers Bytes
handlers = record {
  authz = none;
  grants = none;
  get_by_name = λ n. ok (record { name = n; owner_id = codes "u1"; created_at = 1 });
}

abbrev users : Bytes → Result (UserError Bytes) User
users id = if str_eq id (codes "u1") then ok owner else err user_not_found

abbrev link : ShareLink
link = record {
  code = codes "abc";
  bucket_name = codes "b";
  object_key = codes "k";
  response_content_disposition = [];
  created_by = codes "u1";
  expires_at = some 9;
  created_at = 1;
}

abbrev links : List ShareLink
links = link ∷ []

served :
    load_active_share_link handlers users (some (λ c. get_by_code c links)) 8 (codes "abc")
    ≡ ok link
unfolding load_active_share_link creator_can_read evaluator allow is_blank str_eq get_by_code
    find_link is_expired
served = refl

load_active_share_link-ok_example :
    (creator : User) × (bucket : Bucket) × (get_by_code (codes "abc") links ≡ ok link)
    × (is_expired link 8 ≡ false)
    × (users link.created_by ≡ ok creator)
    × (creator.is_active ≡ true)
    × (handlers.get_by_name link.bucket_name ≡ ok bucket)
    × Identified (creator_request link creator bucket)
    × Permitted
        (granted (evaluator handlers) (creator_request link creator bucket))
        (creator_request link creator bucket)
load_active_share_link-ok_example =
    load_active_share_link-ok handlers users (λ c. get_by_code c links) 8 (codes "abc") link served

-- The first attempt draws the code of no link.
abbrev random : ℕ → ℕ → Result {0} Unit ℕ
random attempt i = ok i

abbrev drawn_link : ShareLink
drawn_link = record link { code = codes "0123456789" }

link_inserted : insert_share_link random link [] links ≡ ok (drawn_link, drawn_link ∷ links)
unfolding insert_share_link insert_generated generate_code generate create find_link str_eq
link_inserted = refl

insert_share_link-ok_example :
    StoredNew link links drawn_link (drawn_link ∷ links)
    × (((codes "" ≢ []) × (drawn_link.code ≡ codes ""))
        ⊎ ((codes "" ≡ []) × (length drawn_link.code ≡ 10)))
insert_share_link-ok_example =
    insert_share_link-ok random link [] links drawn_link (drawn_link ∷ links) link_inserted

alias_taken : validate_alias (codes "my-file_1") ≡ true
unfolding validate_alias
alias_taken = refl
