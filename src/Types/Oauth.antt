-- ===== src/Types/Oauth.antt =====
-- oauth_types.go: issuers, resources, clients, codes and the tokens of clients. `unset` is the empty
-- text of a zero value.
use credbound.Prelude.{ℕ, Bool, Option, List, String}
use credbound.Types.Accounts.{Uuid, Time}
use credbound.Types.Credentials.{Bytes}

pub data OauthCimdMode : Type 0 where
  unset disabled allowlist public_web : OauthCimdMode

pub data OauthDcrMode : Type 0 where
  unset disabled protected open_registration : OauthDcrMode

pub data OauthClientSource : Type 0 where
  unset pre_registered cimd dcr : OauthClientSource

pub data OauthApplicationType : Type 0 where
  unset web native : OauthApplicationType

pub data OauthTokenEndpointAuthMethod : Type 0 where
  unset no_auth private_key_jwt client_secret_basic : OauthTokenEndpointAuthMethod

pub record OauthScopeDefinition : Type 0 where
  pub name : String
  pub description : String
  pub permissions : List String
  pub minimum_aal : ℕ
  pub max_auth_age : ℕ

pub record OauthIssuer : Type 0 where
  pub id : Uuid
  pub issuer : String
  pub oidc_enabled : Bool
  pub cimd_mode : OauthCimdMode
  pub cimd_allowed_origins : List String
  pub dcr_mode : OauthDcrMode
  pub dcr_allow_client_secrets : Bool
  pub dcr_open_registration_limit : ℕ
  pub code_ttl : ℕ
  pub access_token_ttl : ℕ
  pub refresh_token_ttl : ℕ
  pub created_at : Time
  pub updated_at : Time
  pub disabled_at : Option Time

pub record OauthProtectedResource : Type 0 where
  pub id : Uuid
  pub issuer_id : Uuid
  pub workspace_id : Uuid
  pub resource : String
  pub scopes : List OauthScopeDefinition
  pub created_at : Time
  pub updated_at : Time
  pub disabled_at : Option Time

pub record OauthClient : Type 0 where
  pub id : Uuid
  pub issuer_id : Uuid
  pub client_id : String
  pub source : OauthClientSource
  pub name : String
  pub application_type : OauthApplicationType
  pub redirect_uris : List String
  pub sector_identifier : String
  pub grant_types : List String
  pub response_types : List String
  pub scopes : List String
  pub client_credentials_resources : List String
  pub token_endpoint_auth_method : OauthTokenEndpointAuthMethod
  pub jwks_uri : String
  pub jwks : Bytes
  pub trusted : Bool
  pub secret_digest : Bytes
  pub metadata_hash : Bytes
  pub metadata_expires_at : Option Time
  pub created_at : Time
  pub updated_at : Time
  pub disabled_at : Option Time

pub record OauthInitialAccessToken : Type 0 where
  pub id : Uuid
  pub issuer_id : Uuid
  pub prefix : String
  pub digest : Bytes
  pub max_registrations : ℕ
  pub registration_count : ℕ
  pub created_at : Time
  pub expires_at : Time
  pub revoked_at : Option Time

pub record OauthAuthorizationCode : Type 0 where
  pub id : Uuid
  pub prefix : String
  pub digest : Bytes
  pub grant_id : Uuid
  pub client_record_id : Uuid
  pub redirect_uri : String
  pub resource_id : Uuid
  pub scopes : List String
  pub code_challenge : String
  pub nonce : String
  pub created_at : Time
  pub expires_at : Time
  pub used_at : Option Time

pub record OauthClientAccessToken : Type 0 where
  pub id : Uuid
  pub prefix : String
  pub digest : Bytes
  pub client_record_id : Uuid
  pub issuer_id : Uuid
  pub resource_id : Uuid
  pub workspace_id : Uuid
  pub scopes : List String
  pub created_at : Time
  pub expires_at : Time
  pub revoked_at : Option Time
