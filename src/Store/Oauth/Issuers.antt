-- ===== src/Store/Oauth/Issuers.antt =====
-- memory/oauth.go: issuers and protected resources.
use credbound.Prelude.{
  Bool, true, false, not, Option, none, some, [], ◌∷◌, lookup, insert, ◌==◌, String, str_eq,
  is_some,
}
use credbound.Types.{
  Uuid, Time, OauthIssuer, OauthCimdMode, OauthDcrMode, OauthProtectedResource, Crypto, Commit,
  Error,
}
use credbound.Store.State.{Store, Tx, gets, ◌>>=◌, ◌>>◌, fail_if, require, check_context}
use credbound.Store.Commits.{transact}
use credbound.Store.Pats.{lookup_prefix}
use credbound.Store.Oauth.Revocation.{revoke_grants_if, read_by_key, read_by_id}

-- The zero values, which reads of a missing key give.
abbrev pub zero_oauth_issuer : OauthIssuer
zero_oauth_issuer = record {
  id = 0;
  issuer = "";
  oidc_enabled = false;
  cimd_mode = OauthCimdMode.unset;
  cimd_allowed_origins = [];
  dcr_mode = OauthDcrMode.unset;
  dcr_allow_client_secrets = false;
  dcr_open_registration_limit = 0;
  code_ttl = 0;
  access_token_ttl = 0;
  refresh_token_ttl = 0;
  created_at = 0;
  updated_at = 0;
  disabled_at = none;
}

abbrev pub zero_oauth_resource : OauthProtectedResource
zero_oauth_resource = record {
  id = 0;
  issuer_id = 0;
  workspace_id = 0;
  resource = "";
  scopes = [];
  created_at = 0;
  updated_at = 0;
  disabled_at = none;
}

abbrev pub disabled_since : Bool → Time → Option Time
disabled_since true at = some at
disabled_since false at = none

unfoldable pub disable_issuer : Uuid → Bool → Time → OauthIssuer → Store → Store
disable_issuer issuer_id disabled at issuer s =
    revoke_grants_if disabled (λ grant. grant.issuer_id == issuer_id) at
      (record s {
        oauth_issuers =
            insert issuer_id
              (record issuer { disabled_at = disabled_since disabled at; updated_at = at })
              s.oauth_issuers;
      })

unfoldable pub disable_resource : Uuid → Bool → Time → OauthProtectedResource → Store → Store
disable_resource resource_id disabled at resource s =
    revoke_grants_if disabled (λ grant. grant.resource_id == resource_id) at
      (record s {
        oauth_resources =
            insert resource_id
              (record resource { disabled_at = disabled_since disabled at; updated_at = at })
              s.oauth_resources;
      })

module _ (crypto : Crypto) (ctx : Option Error) where
  unfoldable pub create_oauth_issuer : OauthIssuer → Commit → Tx (Unit {0})
  create_oauth_issuer issuer commit = do
    check_context ctx
    issuers ← gets (λ s. s.oauth_issuers)
    fail_if (is_some (lookup issuer.id issuers)) Error.conflict
    urls ← gets (λ s. s.oauth_issuer_urls)
    fail_if (is_some (lookup_prefix issuer.issuer urls)) Error.conflict
    transact crypto commit λ s. record s {
      oauth_issuers = insert issuer.id issuer s.oauth_issuers;
      oauth_issuer_urls = (issuer.issuer, issuer.id) ∷ s.oauth_issuer_urls;
    }

  unfoldable pub update_oauth_issuer : OauthIssuer → Commit → Tx (Unit {0})
  update_oauth_issuer issuer commit = do
    check_context ctx
    issuers ← gets (λ s. s.oauth_issuers)
    current ← require (lookup issuer.id issuers) Error.not_found
    fail_if (not (str_eq current.issuer issuer.issuer)) Error.not_found
    transact crypto commit λ s. record s { oauth_issuers = insert issuer.id issuer s.oauth_issuers }

  unfoldable pub set_oauth_issuer_disabled : Uuid → Bool → Time → Commit → Tx (Unit {0})
  set_oauth_issuer_disabled issuer_id disabled at commit = do
    check_context ctx
    issuers ← gets (λ s. s.oauth_issuers)
    issuer ← require (lookup issuer_id issuers) Error.not_found
    transact crypto commit (disable_issuer issuer_id disabled at issuer)

  unfoldable pub oauth_issuer_by_id : Uuid → Tx OauthIssuer
  oauth_issuer_by_id id = read_by_id ctx (λ s. s.oauth_issuers) id

  unfoldable pub oauth_issuer_by_url : String → Tx OauthIssuer
  oauth_issuer_by_url raw =
      read_by_key ctx zero_oauth_issuer (λ s. s.oauth_issuer_urls) (λ s. s.oauth_issuers) raw

  unfoldable pub create_oauth_protected_resource : OauthProtectedResource → Commit → Tx (Unit {0})
  create_oauth_protected_resource resource commit = do
    check_context ctx
    issuers ← gets (λ s. s.oauth_issuers)
    fail_if (not (is_some (lookup resource.issuer_id issuers))) Error.not_found
    workspaces ← gets (λ s. s.workspaces)
    fail_if (not (is_some (lookup resource.workspace_id workspaces))) Error.not_found
    resources ← gets (λ s. s.oauth_resources)
    fail_if (is_some (lookup resource.id resources)) Error.conflict
    uris ← gets (λ s. s.oauth_resource_uris)
    fail_if (is_some (lookup_prefix resource.resource uris)) Error.conflict
    transact crypto commit λ s. record s {
      oauth_resources = insert resource.id resource s.oauth_resources;
      oauth_resource_uris = (resource.resource, resource.id) ∷ s.oauth_resource_uris;
    }

  unfoldable pub set_oauth_protected_resource_disabled : Uuid → Bool → Time → Commit → Tx (Unit {0})
  set_oauth_protected_resource_disabled resource_id disabled at commit = do
    check_context ctx
    resources ← gets (λ s. s.oauth_resources)
    resource ← require (lookup resource_id resources) Error.not_found
    transact crypto commit (disable_resource resource_id disabled at resource)

  unfoldable pub oauth_protected_resource_by_id : Uuid → Tx OauthProtectedResource
  oauth_protected_resource_by_id id = read_by_id ctx (λ s. s.oauth_resources) id

  unfoldable pub oauth_protected_resource_by_uri : String → Tx OauthProtectedResource
  oauth_protected_resource_by_uri uri =
      read_by_key ctx zero_oauth_resource (λ s. s.oauth_resource_uris) (λ s. s.oauth_resources) uri
