-- ===== src/Store/Revocation.antt =====
-- memory/store.go: `touchLastSeenLocked`, `revokeUserCredentialsLocked` and
-- `revokeUserSessionsLocked`, the helpers that run under the store's lock.
use credbound.Prelude.{
  Bool, false, not, ◌&&◌, ◌||◌, Option, none, some, lookup, insert, map_values, ◌==◌, if◌then◌else◌,
  is_some,
}
use credbound.Types.{
  Uuid, Time, User, Session, Pat, OauthGrant, OauthAccessToken, OauthRefreshToken,
}
use credbound.Store.State.{Store}

-- The zero value of `User`, which a read of a missing key gives.
abbrev pub zero_user : User
zero_user = record {
  id = 0;
  email = "";
  display_name = "";
  disabled = false;
  last_seen_at = none;
  created_at = 0;
  updated_at = 0;
}

abbrev pub or_zero_user : Option User → User
or_zero_user none = zero_user
or_zero_user (some user) = user

unfoldable pub touch_last_seen : Uuid → Time → Store → Store
touch_last_seen user_id seen_at s = record s {
  users =
      insert user_id
        (record (or_zero_user (lookup user_id s.users)) { last_seen_at = some seen_at }) s.users;
}

-- The test of the four loops: the user's, not yet revoked, and in the workspace if one is given.
unfoldable pub revocable : Uuid → Uuid → Uuid → Uuid → Option Time → Bool
revocable user_id workspace_id owner bound_to revoked_at =
    owner == user_id
    && (not (is_some revoked_at) && (workspace_id == 0 || bound_to == workspace_id))

unfoldable pub revoke_pat_of : Uuid → Uuid → Time → Pat → Pat
unfolding revocable
revoke_pat_of user_id workspace_id at pat =
    if revocable user_id workspace_id pat.user_id pat.workspace_id pat.revoked_at
    then record pat { revoked_at = some at }
    else pat

unfoldable pub revoke_grant_of : Uuid → Uuid → Time → OauthGrant → OauthGrant
unfolding revocable
revoke_grant_of user_id workspace_id at grant =
    if revocable user_id workspace_id grant.user_id grant.workspace_id grant.revoked_at
    then record grant { revoked_at = some at }
    else grant

unfoldable pub revoke_access_token_of : Uuid → Uuid → Time → OauthAccessToken → OauthAccessToken
unfolding revocable
revoke_access_token_of user_id workspace_id at token =
    if revocable user_id workspace_id token.user_id token.workspace_id token.revoked_at
    then record token { revoked_at = some at }
    else token

unfoldable pub revoke_refresh_token_of : Uuid → Uuid → Time → OauthRefreshToken → OauthRefreshToken
unfolding revocable
revoke_refresh_token_of user_id workspace_id at token =
    if revocable user_id workspace_id token.user_id token.workspace_id token.revoked_at
    then record token { revoked_at = some at }
    else token

unfoldable pub revoke_user_credentials_locked : Uuid → Uuid → Time → Store → Store
revoke_user_credentials_locked user_id workspace_id at s = record s {
  pats = map_values (revoke_pat_of user_id workspace_id at) s.pats;
  oauth_grants = map_values (revoke_grant_of user_id workspace_id at) s.oauth_grants;
  oauth_access_tokens =
      map_values (revoke_access_token_of user_id workspace_id at) s.oauth_access_tokens;
  oauth_refresh_tokens =
      map_values (revoke_refresh_token_of user_id workspace_id at) s.oauth_refresh_tokens;
}

unfoldable pub revoke_session_of : Uuid → Time → Session → Session
revoke_session_of user_id at session =
    if session.user_id == user_id && not (is_some session.revoked_at)
    then record session { revoked_at = some at }
    else session

unfoldable pub revoke_user_sessions_locked : Uuid → Time → Store → Store
revoke_user_sessions_locked user_id at s = record s {
  sessions = map_values (revoke_session_of user_id at) s.sessions;
}
