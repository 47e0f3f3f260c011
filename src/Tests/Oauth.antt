-- ===== src/Tests/Oauth.antt =====
-- Runs of the authorization server's part of the store.
use credbound.Prelude.{◌≡◌, refl, true, none, some, [], ◌∷◌, lookup}
use credbound.Types.{
  AuthMethod, err, Error, Commit, OauthClient, OauthGrant, OauthAuthorizationCode, OauthAccessToken,
  OauthRefreshToken,
}
use credbound.Store.State.{Store, snapshot}
use credbound.Store.Commits
use credbound.Store.Pats.{lookup_prefix}
use credbound.Store.Oauth.Clients
use credbound.Store.Oauth.Clients.{zero_oauth_client}
use credbound.Store.Oauth.Codes
use credbound.Store.Oauth.Codes.{zero_oauth_code, zero_access_token}
use credbound.Store.Oauth.Refresh
use credbound.Store.Oauth.Refresh.{zero_refresh_token}
use credbound.Store.Oauth.SingleUse.{
  consume_oauth_authorization_code-no_reuse, rotate_oauth_refresh_token-no_reuse,
}
use credbound.Store.Oauth.Families.{FamilyRevoked, revoke_oauth_refresh_family-FamilyRevoked}
use credbound.Store.Oauth.GrantRevocation.{GrantRevoked}
use credbound.Store.Oauth.Disabling.{set_oauth_client_disabled-GrantRevoked}
use credbound.Store.Oauth.Index.{IndexLost, transact-IndexLost}
use credbound.Tests.Fixture.{crypto, commit, store}

abbrev client : OauthClient
client = record zero_oauth_client { id = 20; issuer_id = 21; client_id = "app" }

abbrev grant : OauthGrant
grant = record {
  id = 30;
  issuer_id = 21;
  client_record_id = 20;
  user_id = 1;
  workspace_id = 8;
  resource_id = 22;
  scopes = [];
  aal = 2;
  auth_time = 10;
  auth_method = AuthMethod.totp;
  metadata_hash = [];
  created_at = 10;
  updated_at = 10;
  revoked_at = none;
}

abbrev code : OauthAuthorizationCode
code = record zero_oauth_code { id = 31; prefix = "code"; grant_id = 30; expires_at = 100 }

abbrev access : OauthAccessToken
access = record zero_access_token { id = 32; prefix = "access"; grant_id = 30; expires_at = 100 }

abbrev refresh : OauthRefreshToken
refresh = record zero_refresh_token {
  id = 33;
  family_id = 34;
  prefix = "refresh";
  grant_id = 30;
  expires_at = 1000;
}

abbrev next_access : OauthAccessToken
next_access = record access { id = 35; prefix = "access2" }

abbrev next_refresh : OauthRefreshToken
next_refresh = record refresh { id = 36; prefix = "refresh2" }

abbrev granted : Store
granted = record store {
  oauth_clients = (20, client) ∷ [];
  oauth_client_keys = ((21, "app"), 20) ∷ [];
  oauth_grants = (30, grant) ∷ [];
  oauth_codes = (31, code) ∷ [];
  oauth_code_keys = ("code", 31) ∷ [];
}

abbrev redeemed : Store
redeemed =
    (Codes.consume_oauth_authorization_code crypto none 31 50 access (some refresh) (commit 90)
      granted).1

consume_oauth_authorization_code-no_reuse_example :
    Codes.consume_oauth_authorization_code crypto none 31 60 next_access none (commit 91) redeemed
    ≡ (err Error.conflict, redeemed)
unfolding Codes.consume_oauth_authorization_code Commits.transact Commits.prepare_commit
    Commits.prepare_after Commits.can_audit Commits.contains Commits.consume_ceremony
    Commits.snapshot_for Commits.finish_commit Commits.finish_after lookup lookup_prefix
consume_oauth_authorization_code-no_reuse_example =
    consume_oauth_authorization_code-no_reuse crypto none 31 50 60 access next_access (some refresh)
      none (commit 90) (commit 91) granted redeemed refl

abbrev with_refresh : Store
with_refresh = record granted {
  oauth_access_tokens = (32, access) ∷ [];
  oauth_access_keys = ("access", 32) ∷ [];
  oauth_refresh_tokens = (33, refresh) ∷ [];
  oauth_refresh_keys = ("refresh", 33) ∷ [];
}

abbrev rotated : Store
rotated =
    (Refresh.rotate_oauth_refresh_token crypto none 33 50 next_access next_refresh (commit 90)
      with_refresh).1

rotate_oauth_refresh_token-no_reuse_example :
    Refresh.rotate_oauth_refresh_token crypto none 33 60 access next_refresh (commit 91) rotated
    ≡ (err Error.conflict, rotated)
unfolding Refresh.rotate_oauth_refresh_token Commits.transact Commits.prepare_commit
    Commits.prepare_after Commits.can_audit Commits.contains Commits.consume_ceremony
    Commits.snapshot_for Commits.finish_commit Commits.finish_after lookup lookup_prefix
rotate_oauth_refresh_token-no_reuse_example =
    rotate_oauth_refresh_token-no_reuse crypto none 33 50 60 next_access access next_refresh
      next_refresh (commit 90) (commit 91) with_refresh rotated refl refl

abbrev family_revoked : Store
family_revoked = (Refresh.revoke_oauth_refresh_family crypto none 34 70 (commit 92) with_refresh).1

revoke_oauth_refresh_family-FamilyRevoked_example : FamilyRevoked 34 family_revoked
unfolding Refresh.revoke_oauth_refresh_family Refresh.family_grants Commits.transact
    Commits.prepare_commit Commits.prepare_after Commits.can_audit Commits.contains
    Commits.consume_ceremony Commits.snapshot_for Commits.finish_commit Commits.finish_after lookup
revoke_oauth_refresh_family-FamilyRevoked_example =
    revoke_oauth_refresh_family-FamilyRevoked crypto none (commit 92) with_refresh family_revoked 34
      70 refl

abbrev client_disabled : Store
client_disabled =
    (Clients.set_oauth_client_disabled crypto none 20 true 70 (commit 92) with_refresh).1

set_oauth_client_disabled-GrantRevoked_example : GrantRevoked 30 client_disabled
unfolding Clients.set_oauth_client_disabled Commits.transact Commits.prepare_commit
    Commits.prepare_after Commits.can_audit Commits.contains Commits.consume_ceremony
    Commits.snapshot_for Commits.finish_commit Commits.finish_after lookup
set_oauth_client_disabled-GrantRevoked_example =
    set_oauth_client_disabled-GrantRevoked crypto none (commit 92) with_refresh client_disabled 20
      70 refl 30 grant refl refl

abbrev rejected : Commit
rejected = record (commit 93) { transactional = some (some Error.forbidden) }

transact-IndexLost_example :
    (s' : Store) × (Commits.transact crypto rejected
        (Clients.put_oauth_client (record client { id = 40; client_id = "other" }))
        granted
      ≡ (err Error.forbidden, s'))
    × IndexLost crypto granted s'
unfolding Commits.prepare_commit Commits.prepare_after Commits.can_audit Commits.contains
    Commits.consume_ceremony Commits.snapshot_for
transact-IndexLost_example =
    transact-IndexLost crypto rejected
      (Clients.put_oauth_client (record client { id = 40; client_id = "other" })) Error.forbidden
      granted granted (some (snapshot granted)) refl refl
