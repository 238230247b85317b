-- ===== src/Auth/Tests.antt =====
-- Concrete requests and secrets; the sum of a secret is its length here.
use fbs_core.Base.{
  ◌%◌, true, Bytes, List, [], ◌∷◌, length, codes, str_eq, equal_fold, fields, cut, All, Result, ok,
  err, ◌≡◌, ◌↔◌, refl, arith, if◌then◌else◌,
}
use fbs_core.Iam.{role_member}
use fbs_core.Metadata.Model.{User}
use fbs_core.Auth.Principal.{not_applicable, invalid_credentials, unsupported_scheme}
use fbs_core.Auth.Chain.{Authenticator, authenticate, Accepted, authenticate_iff}
use fbs_core.Auth.Chain.Refusal.{Refused, authenticate-err}
use fbs_core.Auth.Secret.{verify_secret, hex_decode, hex_value, IsByte}
use fbs_core.Auth.Bearer.{
  UserError, user_not_found, Carries, principal_of, bearer_authenticate, bearer-ok,
}

abbrev sum : Bytes → Bytes
sum s = length s % 256 ∷ []

sum_bytes : (s : Bytes) → All IsByte (sum s)
sum_bytes s = (omega arith, tt)

abbrev user : User
user = record {
  id = codes "u1";
  display_name = codes "Ada";
  access_key_id = codes "fbsa_1";
  secret_hash = codes "03";
  sigv4_access_key_id = [];
  sigv4_secret_key = [];
  role = role_member;
  is_active = true;
  created_at = 1;
  updated_at = 1;
}

abbrev users : Bytes → Result (UserError Bytes) User
users id = if str_eq id (codes "fbsa_1") then ok user else err user_not_found

abbrev header : Bytes
header = codes "bearer  fbsa_1.abc"

bearer_accepted : bearer_authenticate sum users header ≡ ok (principal_of user)
unfolding bearer_authenticate verify_secret hex_decode hex_value str_eq equal_fold fields cut
bearer_accepted = refl

bearer_wrong : bearer_authenticate sum users (codes "Bearer fbsa_1.ab") ≡ err invalid_credentials
unfolding bearer_authenticate verify_secret hex_decode hex_value str_eq equal_fold fields cut
bearer_wrong = refl

other_scheme : bearer_authenticate sum users (codes "Basic abc") ≡ err not_applicable
unfolding bearer_authenticate str_eq equal_fold fields
other_scheme = refl

bearer-ok_example :
    (id : Bytes) × (secret : Bytes) × (u : User) × Carries header id secret
    × (users id ≡ ok u)
    × (verify_secret sum secret u.secret_hash ≡ true)
    × (u.is_active ≡ true)
    × (principal_of user ≡ principal_of u)
bearer-ok_example = bearer-ok sum users header (principal_of user) bearer_accepted

abbrev silent : Authenticator
silent h = err not_applicable

abbrev chain : List Authenticator
chain = silent ∷ bearer_authenticate sum users ∷ []

authenticate_iff_example :
    (authenticate chain header ≡ ok (principal_of user)) ↔ Accepted chain header (principal_of user)
authenticate_iff_example = authenticate_iff chain header (principal_of user)

chain_unsupported : authenticate chain (codes "Basic abc") ≡ err unsupported_scheme
unfolding authenticate bearer_authenticate str_eq equal_fold fields
chain_unsupported = refl

authenticate-err_example :
    (authenticate chain (codes "Basic abc") ≡ err unsupported_scheme)
    ↔ Refused (codes "Basic abc") unsupported_scheme chain
authenticate-err_example = authenticate-err chain (codes "Basic abc") unsupported_scheme
