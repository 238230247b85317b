-- ===== src/Auth/Principal.antt =====
-- internal/auth/principal.go and the errors of internal/auth/errors.go.
use fbs_core.Base.{Bool, Bytes, false, []}
use fbs_core.Iam.{Role}

pub record Principal : Type 0 where
  pub user_id : Bytes
  pub display_name : Bytes
  pub access_key_id : Bytes
  pub role : Role
  pub dev_mode : Bool
  pub signed_headers : Bytes
  pub signed_payload_hash : Bytes

-- The zero value, with a user and a role.
abbrev pub user_principal : Bytes → Role → Principal
user_principal id r = record {
  user_id = id;
  display_name = [];
  access_key_id = [];
  role = r;
  dev_mode = false;
  signed_headers = [];
  signed_payload_hash = [];
}

-- `internal` carries the cause that internalError keeps in the chain.
pub data Error : Type 0 where
  not_applicable missing_auth unsupported_scheme malformed_token : Error
  invalid_credentials inactive_user : Error
  internal : Error
