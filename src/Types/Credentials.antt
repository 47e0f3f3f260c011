-- ===== src/Types/Credentials.antt =====
-- types.go and oauth_types.go: what a user signs in with, sessions, and the tokens that a user owns.
use credbound.Prelude.{ℕ, Bool, Option, List, String}
use credbound.Types.Accounts.{Uuid, Time}

abbrev pub Bytes : Type 0
Bytes = List ℕ

pub record PasswordCredential : Type 0 where
  pub user_id : Uuid
  pub hash : String
  pub updated_at : Time

pub record TotpFactor : Type 0 where
  pub user_id : Uuid
  pub encrypted_secret : Bytes
  pub active : Bool
  pub last_used_step : ℕ
  pub created_at : Time
  pub updated_at : Time

pub record RecoveryCode : Type 0 where
  pub user_id : Uuid
  pub digest : Bytes
  pub used_at : Option Time

pub record Passkey : Type 0 where
  pub id : Uuid
  pub user_id : Uuid
  pub name : String
  pub credential_id : Bytes
  pub credential_json : Bytes
  pub created_at : Time
  pub last_used_at : Option Time

pub record LoginThrottle : Type 0 where
  pub user_id : Uuid
  pub failed_attempts : ℕ
  pub locked_until : Option Time
  pub updated_at : Time

pub record PasswordResetCredential : Type 0 where
  pub id : Uuid
  pub user_id : Uuid
  pub digest : Bytes
  pub created_at : Time
  pub expires_at : Time
  pub used_at : Option Time

-- `AuthMethod`; `unset` is the empty string of a zero `Authentication`.
pub data AuthMethod : Type 0 where
  unset password totp passkey pat sso email : AuthMethod

pub record Session : Type 0 where
  pub id : Uuid
  pub user_id : Uuid
  pub method : AuthMethod
  pub level : ℕ
  pub authenticated_at : Time
  pub second_factor_required : Bool
  pub user_agent : String
  pub ip_address : String
  pub digest : Bytes
  pub created_at : Time
  pub last_seen_at : Time
  pub expires_at : Time
  pub revoked_at : Option Time

pub record Pat : Type 0 where
  pub id : Uuid
  pub user_id : Uuid
  pub name : String
  pub prefix : String
  pub digest : Bytes
  pub workspace_id : Uuid
  pub scopes : List String
  pub created_at : Time
  pub expires_at : Option Time
  pub last_used_at : Option Time
  pub revoked_at : Option Time

pub record OauthGrant : Type 0 where
  pub id : Uuid
  pub issuer_id : Uuid
  pub client_record_id : Uuid
  pub user_id : Uuid
  pub workspace_id : Uuid
  pub resource_id : Uuid
  pub scopes : List String
  pub metadata_hash : Bytes
  pub auth_time : Time
  pub auth_method : AuthMethod
  pub aal : ℕ
  pub created_at : Time
  pub updated_at : Time
  pub revoked_at : Option Time

pub record OauthAccessToken : Type 0 where
  pub id : Uuid
  pub prefix : String
  pub digest : Bytes
  pub grant_id : Uuid
  pub client_record_id : Uuid
  pub user_id : Uuid
  pub workspace_id : Uuid
  pub resource_id : Uuid
  pub scopes : List String
  pub created_at : Time
  pub expires_at : Time
  pub revoked_at : Option Time

pub record OauthRefreshToken : Type 0 where
  pub id : Uuid
  pub family_id : Uuid
  pub prefix : String
  pub digest : Bytes
  pub grant_id : Uuid
  pub client_record_id : Uuid
  pub user_id : Uuid
  pub workspace_id : Uuid
  pub resource_id : Uuid
  pub scopes : List String
  pub created_at : Time
  pub expires_at : Time
  pub used_at : Option Time
  pub replaced_by_id : Uuid
  pub revoked_at : Option Time
