-- ===== src/Store/Oauth/Revocation.antt =====
-- memory/oauth.go: `revokeOAuthGrantLocked`, the loops that call it, and reads by a text key.
use credbound.Prelude.{
  Bool, true, false, not, ◌&&◌, Option, none, some, [], ◌∷◌, Map, lookup, insert, map_values, ◌==◌,
  String, if◌then◌else◌, is_some,
}
use credbound.Types.{Uuid, Time, OauthGrant, OauthAccessToken, OauthRefreshToken, Error}
use credbound.Store.State.{Store, Tx, Keys, gets, ◌>>=◌, ◌>>◌, require, check_context, pure}
use credbound.Store.Pats.{lookup_prefix}

unfoldable pub revoke_access_token_under : Uuid → Time → OauthAccessToken → OauthAccessToken
revoke_access_token_under grant_id at token =
    if token.grant_id == grant_id && not (is_some token.revoked_at)
    then record token { revoked_at = some at }
    else token

unfoldable pub revoke_refresh_token_under : Uuid → Time → OauthRefreshToken → OauthRefreshToken
revoke_refresh_token_under grant_id at token =
    if token.grant_id == grant_id && not (is_some token.revoked_at)
    then record token { revoked_at = some at }
    else token

-- The change once the grant is found.
unfoldable pub revoke_grant_found : Uuid → Time → Option OauthGrant → Store → Store
unfolding revoke_access_token_under revoke_refresh_token_under
revoke_grant_found grant_id at none s = s
revoke_grant_found grant_id at (some grant) s = record s {
  oauth_grants =
      insert grant_id (record grant { revoked_at = some at; updated_at = at }) s.oauth_grants;
  oauth_access_tokens = map_values (revoke_access_token_under grant_id at) s.oauth_access_tokens;
  oauth_refresh_tokens = map_values (revoke_refresh_token_under grant_id at) s.oauth_refresh_tokens;
}

unfoldable pub revoke_grant_locked : Uuid → Time → Store → Store
revoke_grant_locked grant_id at s =
    revoke_grant_found grant_id at (lookup grant_id s.oauth_grants) s

-- The loop over the grants that a test selects. A revocation changes no field that the tests read,
-- so the grants before the loop are those that it meets.
unfoldable pub revoke_grants : (OauthGrant → Bool) → Time → Map OauthGrant → Store → Store
revoke_grants test at [] s = s
revoke_grants test at ((id, grant) ∷ grants) s =
    revoke_grants test at grants (if test grant then revoke_grant_locked id at s else s)

-- The loop behind `if disabled`.
unfoldable pub revoke_grants_if : Bool → (OauthGrant → Bool) → Time → Store → Store
revoke_grants_if true test at s = revoke_grants test at s.oauth_grants s
revoke_grants_if false test at s = s

-- A record by a text: the identifier from the index, then the record, or its type's zero value.
abbrev pub value_or : {A : Type 0} → A → Option A → A
value_or zero_value none = zero_value
value_or zero_value (some a) = a

unfoldable pub read_by_key :
    {A : Type 0} → Option Error → A → (Store → Keys) → (Store → Map A) → String → Tx A
read_by_key ctx zero_value keys values key = do
  check_context ctx
  index ← gets keys
  id ← require (lookup_prefix key index) Error.not_found
  records ← gets values
  pure (value_or zero_value (lookup id records))

unfoldable pub read_by_id : {A : Type 0} → Option Error → (Store → Map A) → Uuid → Tx A
read_by_id ctx values id = do
  check_context ctx
  records ← gets values
  require (lookup id records) Error.not_found
