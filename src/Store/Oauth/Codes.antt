-- ===== src/Store/Oauth/Codes.antt =====
-- memory/oauth.go: grants, authorization codes and access tokens.
use credbound.Prelude.{
  Bool, false, not, ◌||◌, Option, none, some, [], ◌∷◌, lookup, insert, ltb, String, if◌then◌else◌,
  is_some,
}
use credbound.Types.{
  Uuid, Time, OauthGrant, OauthAuthorizationCode, OauthAccessToken, OauthRefreshToken, Crypto,
  Commit, Error,
}
use credbound.Store.State.{Store, Tx, Keys, gets, ◌>>=◌, ◌>>◌, fail_if, require, check_context}
use credbound.Store.Commits.{transact}
use credbound.Store.Pats.{lookup_prefix}
use credbound.Store.Oauth.Revocation.{revoke_grant_locked, read_by_key, read_by_id}

abbrev pub zero_oauth_code : OauthAuthorizationCode
zero_oauth_code = record {
  id = 0;
  prefix = "";
  digest = [];
  grant_id = 0;
  client_record_id = 0;
  redirect_uri = "";
  resource_id = 0;
  scopes = [];
  code_challenge = "";
  nonce = "";
  created_at = 0;
  expires_at = 0;
  used_at = none;
}

abbrev pub zero_access_token : OauthAccessToken
zero_access_token = record {
  id = 0;
  prefix = "";
  digest = [];
  grant_id = 0;
  client_record_id = 0;
  user_id = 0;
  workspace_id = 0;
  resource_id = 0;
  scopes = [];
  created_at = 0;
  expires_at = 0;
  revoked_at = none;
}

unfoldable pub put_access_token : OauthAccessToken → Store → Store
put_access_token access s = record s {
  oauth_access_tokens = insert access.id access s.oauth_access_tokens;
  oauth_access_keys = (access.prefix, access.id) ∷ s.oauth_access_keys;
}

unfoldable pub put_refresh_token : OauthRefreshToken → Store → Store
put_refresh_token refresh s = record s {
  oauth_refresh_tokens = insert refresh.id refresh s.oauth_refresh_tokens;
  oauth_refresh_keys = (refresh.prefix, refresh.id) ∷ s.oauth_refresh_keys;
}

-- `if refresh != nil`
unfoldable pub put_refresh_if : Option OauthRefreshToken → Store → Store
unfolding put_refresh_token
put_refresh_if none s = s
put_refresh_if (some refresh) s = put_refresh_token refresh s

abbrev pub refresh_is_taken : Option OauthRefreshToken → Keys → Bool
refresh_is_taken none keys = false
refresh_is_taken (some refresh) keys = is_some (lookup_prefix refresh.prefix keys)

unfoldable pub redeem_code :
    Uuid
    → OauthAuthorizationCode
    → Time
    → OauthAccessToken
    → Option OauthRefreshToken
    → Store
    → Store
unfolding put_access_token put_refresh_if
redeem_code code_id code used_at access refresh s = put_refresh_if refresh (
    put_access_token access (record s {
      oauth_codes = insert code_id (record code { used_at = some used_at }) s.oauth_codes;
    }))

unfoldable pub stamp_access_token : Uuid → Time → OauthAccessToken → Store → Store
stamp_access_token id at token s = if is_some token.revoked_at then s else record s {
  oauth_access_tokens = insert id (record token { revoked_at = some at }) s.oauth_access_tokens;
}

module _ (crypto : Crypto) (ctx : Option Error) where
  unfoldable pub create_oauth_grant_and_code :
      OauthGrant → OauthAuthorizationCode → Commit → Tx (Unit {0})
  create_oauth_grant_and_code grant code commit = do
    check_context ctx
    clients ← gets (λ s. s.oauth_clients)
    fail_if (not (is_some (lookup grant.client_record_id clients))) Error.not_found
    resources ← gets (λ s. s.oauth_resources)
    fail_if (not (is_some (lookup grant.resource_id resources))) Error.not_found
    grants ← gets (λ s. s.oauth_grants)
    fail_if (is_some (lookup grant.id grants)) Error.conflict
    codes ← gets (λ s. s.oauth_codes)
    fail_if (is_some (lookup code.id codes)) Error.conflict
    keys ← gets (λ s. s.oauth_code_keys)
    fail_if (is_some (lookup_prefix code.prefix keys)) Error.conflict
    transact crypto commit λ s. record s {
      oauth_grants = insert grant.id grant s.oauth_grants;
      oauth_codes = insert code.id code s.oauth_codes;
      oauth_code_keys = (code.prefix, code.id) ∷ s.oauth_code_keys;
    }

  unfoldable pub oauth_grant : Uuid → Tx OauthGrant
  oauth_grant id = read_by_id ctx (λ s. s.oauth_grants) id

  unfoldable pub revoke_oauth_grant : Uuid → Time → Commit → Tx (Unit {0})
  revoke_oauth_grant grant_id at commit = do
    check_context ctx
    grants ← gets (λ s. s.oauth_grants)
    fail_if (not (is_some (lookup grant_id grants))) Error.not_found
    transact crypto commit (revoke_grant_locked grant_id at)

  unfoldable pub oauth_authorization_code_by_prefix : String → Tx OauthAuthorizationCode
  oauth_authorization_code_by_prefix prefix =
      read_by_key ctx zero_oauth_code (λ s. s.oauth_code_keys) (λ s. s.oauth_codes) prefix

  unfoldable pub consume_oauth_authorization_code :
      Uuid → Time → OauthAccessToken → Option OauthRefreshToken → Commit → Tx (Unit {0})
  consume_oauth_authorization_code code_id used_at access refresh commit = do
    check_context ctx
    codes ← gets (λ s. s.oauth_codes)
    code ← require (lookup code_id codes) Error.not_found
    fail_if (is_some code.used_at || not (ltb used_at code.expires_at)) Error.conflict
    access_keys ← gets (λ s. s.oauth_access_keys)
    fail_if (is_some (lookup_prefix access.prefix access_keys)) Error.conflict
    refresh_keys ← gets (λ s. s.oauth_refresh_keys)
    fail_if (refresh_is_taken refresh refresh_keys) Error.conflict
    transact crypto commit (redeem_code code_id code used_at access refresh)

  unfoldable pub oauth_access_token_by_prefix : String → Tx OauthAccessToken
  oauth_access_token_by_prefix prefix =
      read_by_key ctx zero_access_token (λ s. s.oauth_access_keys) (λ s. s.oauth_access_tokens)
        prefix

  unfoldable pub revoke_oauth_access_token : Uuid → Time → Commit → Tx (Unit {0})
  revoke_oauth_access_token id at commit = do
    check_context ctx
    tokens ← gets (λ s. s.oauth_access_tokens)
    token ← require (lookup id tokens) Error.not_found
    transact crypto commit (stamp_access_token id at token)
