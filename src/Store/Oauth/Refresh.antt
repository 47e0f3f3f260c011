-- ===== src/Store/Oauth/Refresh.antt =====
-- memory/oauth.go: rotating refresh tokens and their families.
use credbound.Prelude.{
  Bool, true, false, not, ◌&&◌, ◌||◌, Option, none, some, List, [], ◌∷◌, Map, lookup, insert,
  map_values, ltb, ◌==◌, String, if◌then◌else◌, is_some,
}
use credbound.Types.{Uuid, Time, OauthAccessToken, OauthRefreshToken, Crypto, Commit, Error}
use credbound.Store.State.{Store, Tx, gets, ◌>>=◌, ◌>>◌, fail_if, require, check_context}
use credbound.Store.Commits.{transact, contains}
use credbound.Store.Pats.{lookup_prefix}
use credbound.Store.Oauth.Revocation.{read_by_key}
use credbound.Store.Oauth.Codes.{put_access_token, put_refresh_token}

abbrev pub zero_refresh_token : OauthRefreshToken
zero_refresh_token = record {
  id = 0;
  family_id = 0;
  prefix = "";
  digest = [];
  grant_id = 0;
  client_record_id = 0;
  user_id = 0;
  workspace_id = 0;
  resource_id = 0;
  scopes = [];
  created_at = 0;
  expires_at = 0;
  used_at = none;
  replaced_by_id = 0;
  revoked_at = none;
}

unfoldable pub replace_refresh_token :
    Uuid → OauthRefreshToken → Time → OauthAccessToken → OauthRefreshToken → Store → Store
unfolding put_access_token put_refresh_token
replace_refresh_token previous_id previous used_at access refresh s = put_refresh_token refresh (
    put_access_token access (record s {
      oauth_refresh_tokens =
          insert previous_id
            (record previous { used_at = some used_at; replaced_by_id = refresh.id })
            s.oauth_refresh_tokens;
    }))

-- The grants that a family of refresh tokens descends from. The code holds their texts.
unfoldable pub family_grants : Uuid → Map OauthRefreshToken → List Uuid
family_grants family_id [] = []
family_grants family_id ((id, token) ∷ tokens) =
    let rest = family_grants family_id tokens in
    if token.family_id == family_id then token.grant_id ∷ rest else rest

abbrev pub is_empty : List Uuid → Bool
is_empty [] = true
is_empty (x ∷ xs) = false

unfoldable pub revoke_refresh_in : Uuid → Time → OauthRefreshToken → OauthRefreshToken
revoke_refresh_in family_id at token =
    if token.family_id == family_id && not (is_some token.revoked_at)
    then record token { revoked_at = some at }
    else token

unfoldable pub revoke_access_of : List Uuid → Time → OauthAccessToken → OauthAccessToken
revoke_access_of grants at token =
    if contains token.grant_id grants && not (is_some token.revoked_at)
    then record token { revoked_at = some at }
    else token

unfoldable pub revoke_family : Uuid → List Uuid → Time → Store → Store
unfolding revoke_refresh_in revoke_access_of
revoke_family family_id grants at s = record s {
  oauth_refresh_tokens = map_values (revoke_refresh_in family_id at) s.oauth_refresh_tokens;
  oauth_access_tokens = map_values (revoke_access_of grants at) s.oauth_access_tokens;
}

module _ (crypto : Crypto) (ctx : Option Error) where
  unfoldable pub oauth_refresh_token_by_prefix : String → Tx OauthRefreshToken
  oauth_refresh_token_by_prefix prefix =
      read_by_key ctx zero_refresh_token (λ s. s.oauth_refresh_keys) (λ s. s.oauth_refresh_tokens)
        prefix

  unfoldable pub rotate_oauth_refresh_token :
      Uuid → Time → OauthAccessToken → OauthRefreshToken → Commit → Tx (Unit {0})
  rotate_oauth_refresh_token previous_id used_at access refresh commit = do
    check_context ctx
    tokens ← gets (λ s. s.oauth_refresh_tokens)
    previous ← require (lookup previous_id tokens) Error.not_found
    fail_if
        (is_some previous.used_at
          || (is_some previous.revoked_at || not (ltb used_at previous.expires_at)))
        Error.conflict
    fail_if
        (not (previous.family_id == refresh.family_id)
          || not (previous.grant_id == refresh.grant_id))
        Error.conflict
    access_keys ← gets (λ s. s.oauth_access_keys)
    fail_if (is_some (lookup_prefix access.prefix access_keys)) Error.conflict
    refresh_keys ← gets (λ s. s.oauth_refresh_keys)
    fail_if (is_some (lookup_prefix refresh.prefix refresh_keys)) Error.conflict
    transact crypto commit (replace_refresh_token previous_id previous used_at access refresh)

  unfoldable pub revoke_oauth_refresh_family : Uuid → Time → Commit → Tx (Unit {0})
  revoke_oauth_refresh_family family_id at commit = do
    check_context ctx
    tokens ← gets (λ s. s.oauth_refresh_tokens)
    fail_if (is_empty (family_grants family_id tokens)) Error.not_found
    transact crypto commit (revoke_family family_id (family_grants family_id tokens) at)
