-- ===== src/Auth/Bearer.antt =====
-- internal/auth/bearer.go; the repository of users is a parameter.
use fbs_core.Base.{
  Bool, true, false, not, ◌||◌, Bytes, List, [], ◌∷◌, Option, none, some, str_eq, str_eq_iff,
  equal_fold, fields, cut, codes, if◌then◌else◌, Result, ok, err, ◌>>=◌, >>=-ok, checked-ok, ◌≡◌,
  ◌≢◌, ◌∙◌, arith,
}
use fbs_core.Metadata.Model.{User}
use fbs_core.Auth.Principal.{
  Principal, Error, not_applicable, malformed_token, invalid_credentials, inactive_user, internal,
}
use fbs_core.Auth.Secret.{verify_secret}

pub data UserError (E : Type 0) : Type 0 where
  user_not_found : UserError E
  failed : E → UserError E

abbrev only_one : List Bytes → Result Error Bytes
only_one (token ∷ []) = ok token
only_one _ = err malformed_token

abbrev bearer_token : List Bytes → Result Error Bytes
bearer_token [] = err malformed_token
bearer_token (scheme ∷ rest) =
    if not (equal_fold scheme (codes "Bearer")) then err not_applicable else only_one rest

abbrev token_parts : Option (Bytes × Bytes) → Result Error (Bytes × Bytes)
token_parts none = err malformed_token
token_parts (some (id, secret)) =
    if str_eq id [] || str_eq secret [] then err malformed_token else ok (id, secret)

abbrev pub principal_of : User → Principal
principal_of u = record {
  user_id = u.id;
  display_name = u.display_name;
  access_key_id = u.access_key_id;
  role = u.role;
  dev_mode = false;
  signed_headers = [];
  signed_payload_hash = [];
}

abbrev admitted : Bool → User → Result Error Principal
admitted verified user =
    if not verified
    then err invalid_credentials
    else if not user.is_active
    then err inactive_user
    else ok (principal_of user)

-- The header is the scheme and one token, an access key id and a secret with a dot between them.
pub record Carries (header id secret : Bytes) : Type 0 where
  pub scheme : Bytes
  pub token : Bytes
  pub words : fields header ≡ scheme ∷ token ∷ []
  pub is_bearer : equal_fold scheme (codes "Bearer") ≡ true
  pub dotted : cut b'.' token ≡ some (id, secret)
  pub has_id : id ≢ []
  pub has_secret : secret ≢ []

bearer_token-ok :
    (l : List Bytes) (token : Bytes)
    → bearer_token l ≡ ok token
    → (scheme : Bytes) × (l ≡ scheme ∷ token ∷ []) × (equal_fold scheme (codes "Bearer") ≡ true)
bearer_token-ok [] token h = cc
bearer_token-ok (scheme ∷ []) token h =
    let (wrong, bad) =
      checked-ok (not (equal_fold scheme (codes "Bearer"))) not_applicable (err malformed_token)
        h in
    cc (bad)
bearer_token-ok (scheme ∷ t ∷ []) token h =
    let (right, same) =
      checked-ok (not (equal_fold scheme (codes "Bearer"))) not_applicable (ok t) h in
    (scheme, ground (arith, same), ground (arith, right))
bearer_token-ok (scheme ∷ t ∷ u ∷ l) token h =
    let (wrong, bad) =
      checked-ok (not (equal_fold scheme (codes "Bearer"))) not_applicable (err malformed_token)
        h in
    cc (bad)

token_parts-ok :
    (o : Option (Bytes × Bytes)) (id secret : Bytes)
    → token_parts o ≡ ok (id, secret)
    → (o ≡ some (id, secret)) × (id ≢ []) × (secret ≢ [])
token_parts-ok none id secret h = cc
token_parts-ok (some (i, s)) id secret h =
    let (named, same) = checked-ok (str_eq i [] || str_eq s []) malformed_token (ok (i, s)) h in
    let here : (i ≡ id) × (s ≡ secret) = ground (arith, same) in
    (
      ground (arith, same),
      λ e. ground (arith, named, here.0 ∙ e, str_eq_iff i []),
      λ e. ground (arith, named, here.1 ∙ e, str_eq_iff s []),
    )

admitted-ok :
    (verified : Bool) (user : User) (p : Principal)
    → admitted verified user ≡ ok p
    → (verified ≡ true) × (user.is_active ≡ true) × (p ≡ principal_of user)
admitted-ok verified user p h =
    let (known, rest) =
      checked-ok (not verified) invalid_credentials
        (if not user.is_active then err inactive_user else ok (principal_of user)) h in
    let (live, same) =
      checked-ok (not user.is_active) inactive_user (ok (principal_of user)) rest in
    (ground (arith, known), ground (arith, live), ground (arith, same))

module _ {E : Type 0} where
  abbrev pub found_user : Result (UserError E) User → Result Error User
  found_user (ok u) = ok u
  found_user (err user_not_found) = err invalid_credentials
  found_user (err (failed e)) = err internal

  unfoldable pub bearer_authenticate :
      (Bytes → Bytes) → (Bytes → Result (UserError E) User) → Bytes → Result Error Principal
  bearer_authenticate sha256 get_by_access_key_id header =
      if str_eq header [] then err not_applicable else do
        token ← bearer_token (fields header)
        parts ← token_parts (cut b'.' token)
        user ← found_user (get_by_access_key_id parts.0)
        admitted (verify_secret sha256 parts.1 user.secret_hash) user

  pub found_user-ok : (r : Result (UserError E) User) (u : User) → found_user r ≡ ok u → r ≡ ok u
  found_user-ok (ok x) u h = ground arith
  found_user-ok (err user_not_found) u h = cc
  found_user-ok (err (failed e)) u h = cc

  -- A bearer token that is accepted carries the access key id of a user in the repository who is
  -- active, and a secret that passes against that user's stored hash; the principal is that user.
  pub bearer-ok :
      (sha256 : Bytes → Bytes) (get_by_access_key_id : Bytes → Result (UserError E) User)
      (header : Bytes) (p : Principal)
      → bearer_authenticate sha256 get_by_access_key_id header ≡ ok p
      → (id : Bytes) × (secret : Bytes) × (user : User) × Carries header id secret
        × (get_by_access_key_id id ≡ ok user)
        × (verify_secret sha256 secret user.secret_hash ≡ true)
        × (user.is_active ≡ true)
        × (p ≡ principal_of user)
  unfolding bearer_authenticate
  bearer-ok sha256 get header p h =
      let (present, chain) = checked-ok (str_eq header []) not_applicable _ h in
      let (token, worded, chain) = >>=-ok (bearer_token (fields header)) _ chain in
      let ((id, secret), parted, chain) = >>=-ok (token_parts (cut b'.' token)) _ chain in
      let (user, found, chain) = >>=-ok (found_user (get id)) _ chain in
      let (scheme, words, is_bearer) = bearer_token-ok (fields header) token worded in
      let (dotted, has_id, has_secret) = token_parts-ok (cut b'.' token) id secret parted in
      let (verified, live, same) =
        admitted-ok (verify_secret sha256 secret user.secret_hash) user p chain in
      (
        id,
        secret,
        user,
        record {
          scheme = scheme;
          token = token;
          words = words;
          is_bearer = is_bearer;
          dotted = dotted;
          has_id = has_id;
          has_secret = has_secret;
        },
        found_user-ok (get id) user found,
        verified,
        live,
        same,
      )
