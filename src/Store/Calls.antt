-- ===== src/Store/Calls.antt =====
-- Every mutation of the modelled store as one value, so that a statement can range over all of them.
use credbound.Prelude.{ℕ, Bool, true, Option, List, String}
use credbound.Types.{
  Uuid, Time, Bytes, PasswordCredential, PasswordResetCredential, TotpFactor, RecoveryCode, Session,
  Pat, Membership, InstanceAdministrator, OauthIssuer, OauthProtectedResource, OauthClient,
  OauthInitialAccessToken, OauthClientAccessToken, OauthGrant, OauthAuthorizationCode,
  OauthAccessToken, OauthRefreshToken, Crypto, Commit, Error, Result, ok, err,
}
use credbound.Store.State.{Store, Tx}
use credbound.Store.Users
use credbound.Store.Passwords
use credbound.Store.Factors
use credbound.Store.Sessions
use credbound.Store.Pats
use credbound.Store.Members
use credbound.Store.Admins
use credbound.Store.Oauth.Issuers
use credbound.Store.Oauth.Initials
use credbound.Store.Oauth.Clients
use credbound.Store.Oauth.Codes
use credbound.Store.Oauth.Refresh

pub data Call : Type 0 where
  append_audit : Call
  set_user_disabled : Uuid → Bool → Time → Call
  record_authentication : Uuid → Time → Call
  change_password : PasswordCredential → Time → Call
  rehash_password : PasswordCredential → String → Call
  record_password_authentication : Uuid → String → Time → Call
  record_login_failure : Uuid → Time → ℕ → Time → Call
  create_password_reset : PasswordResetCredential → Call
  complete_password_reset : Uuid → PasswordCredential → Time → Call
  save_totp_enrollment : TotpFactor → Call
  activate_totp : TotpFactor → List RecoveryCode → Call
  use_totp : Uuid → ℕ → Call
  consume_recovery_code : Uuid → Bytes → Time → Call
  disable_totp : Uuid → Call
  replace_recovery_codes : Uuid → List RecoveryCode → Call
  reset_second_factor : Uuid → Time → Call
  create_session : Session → Bytes → Call
  touch_session revoke_session revoke_user_sessions : Uuid → Time → Call
  create_pat : Pat → Call
  touch_pat : Uuid → Time → Call
  revoke_pat : Uuid → Uuid → Time → Call
  revoke_user_credentials : Uuid → Time → Call
  upsert_membership : Membership → Call
  remove_membership : Uuid → Uuid → Time → Call
  set_instance_role : InstanceAdministrator → Call
  remove_instance_role : Uuid → Call
  create_oauth_issuer update_oauth_issuer : OauthIssuer → Call
  set_oauth_issuer_disabled : Uuid → Bool → Time → Call
  create_oauth_protected_resource : OauthProtectedResource → Call
  set_oauth_protected_resource_disabled : Uuid → Bool → Time → Call
  create_oauth_client : OauthClient → Uuid → Time → Call
  upsert_oauth_cimd_client : OauthClient → Call
  rotate_oauth_client_credentials : Uuid → Option Bytes → Option Bytes → Bytes → Time → Call
  set_oauth_client_disabled : Uuid → Bool → Time → Call
  create_oauth_initial_access_token : OauthInitialAccessToken → Call
  revoke_oauth_initial_access_token : Uuid → Time → Call
  create_oauth_client_access_token : OauthClientAccessToken → Call
  revoke_oauth_client_access_token : Uuid → Time → Call
  create_oauth_grant_and_code : OauthGrant → OauthAuthorizationCode → Call
  revoke_oauth_grant : Uuid → Time → Call
  consume_oauth_authorization_code :
      Uuid → Time → OauthAccessToken → Option OauthRefreshToken → Call
  rotate_oauth_refresh_token : Uuid → Time → OauthAccessToken → OauthRefreshToken → Call
  revoke_oauth_access_token revoke_oauth_refresh_family : Uuid → Time → Call

-- What a call answers: the Boolean of `UseTOTP` and `ConsumeRecoveryCode`, and `true` for the rest.
abbrev pub answer {ℓ} : {A : Type ℓ} → (A → Bool) → Result A × Store → Result Bool × Store
answer f (ok a, s) = (ok (f a), s)
answer f (err e, s) = (err e, s)

module _ (crypto : Crypto) (ctx : Option Error) (commit : Commit) where
  unfoldable pub run_call : Call → Tx Bool
  run_call Call.append_audit s = answer (λ _. true) (Users.append_audit crypto ctx commit s)
  run_call (Call.set_user_disabled a b c) s =
      answer (λ _. true) (Users.set_user_disabled crypto ctx a b c commit s)
  run_call (Call.record_authentication a b) s =
      answer (λ _. true) (Users.record_authentication crypto ctx a b commit s)
  run_call (Call.change_password a b) s =
      answer (λ _. true) (Passwords.change_password crypto ctx a b commit s)
  run_call (Call.rehash_password a b) s =
      answer (λ _. true) (Passwords.rehash_password crypto ctx a b commit s)
  run_call (Call.record_password_authentication a b c) s =
      answer (λ _. true) (Passwords.record_password_authentication crypto ctx a b c commit s)
  run_call (Call.record_login_failure a b c d) s =
      answer (λ _. true) (Passwords.record_login_failure crypto ctx a b c d commit s)
  run_call (Call.create_password_reset a) s =
      answer (λ _. true) (Passwords.create_password_reset crypto ctx a commit s)
  run_call (Call.complete_password_reset a b c) s =
      answer (λ _. true) (Passwords.complete_password_reset crypto ctx a b c commit s)
  run_call (Call.save_totp_enrollment a) s =
      answer (λ _. true) (Factors.save_totp_enrollment crypto ctx a commit s)
  run_call (Call.activate_totp a b) s =
      answer (λ _. true) (Factors.activate_totp crypto ctx a b commit s)
  run_call (Call.use_totp a b) s = answer (λ b. b) (Factors.use_totp crypto ctx a b commit s)
  run_call (Call.consume_recovery_code a b c) s =
      answer (λ b. b) (Factors.consume_recovery_code crypto ctx a b c commit s)
  run_call (Call.disable_totp a) s = answer (λ _. true) (Factors.disable_totp crypto ctx a commit s)
  run_call (Call.replace_recovery_codes a b) s =
      answer (λ _. true) (Factors.replace_recovery_codes crypto ctx a b commit s)
  run_call (Call.reset_second_factor a b) s =
      answer (λ _. true) (Factors.reset_second_factor crypto ctx a b commit s)
  run_call (Call.create_session a b) s =
      answer (λ _. true) (Sessions.create_session crypto ctx a b commit s)
  run_call (Call.touch_session a b) s =
      answer (λ _. true) (Sessions.touch_session crypto ctx a b commit s)
  run_call (Call.revoke_session a b) s =
      answer (λ _. true) (Sessions.revoke_session crypto ctx a b commit s)
  run_call (Call.revoke_user_sessions a b) s =
      answer (λ _. true) (Sessions.revoke_user_sessions crypto ctx a b commit s)
  run_call (Call.create_pat a) s = answer (λ _. true) (Pats.create_pat crypto ctx a commit s)
  run_call (Call.touch_pat a b) s = answer (λ _. true) (Pats.touch_pat crypto ctx a b commit s)
  run_call (Call.revoke_pat a b c) s =
      answer (λ _. true) (Pats.revoke_pat crypto ctx a b c commit s)
  run_call (Call.revoke_user_credentials a b) s =
      answer (λ _. true) (Pats.revoke_user_credentials crypto ctx a b commit s)
  run_call (Call.upsert_membership a) s =
      answer (λ _. true) (Members.upsert_membership crypto ctx a commit s)
  run_call (Call.remove_membership a b c) s =
      answer (λ _. true) (Members.remove_membership crypto ctx a b c commit s)
  run_call (Call.set_instance_role a) s =
      answer (λ _. true) (Admins.set_instance_role crypto ctx a commit s)
  run_call (Call.remove_instance_role a) s =
      answer (λ _. true) (Admins.remove_instance_role crypto ctx a commit s)
  run_call (Call.create_oauth_issuer a) s =
      answer (λ _. true) (Issuers.create_oauth_issuer crypto ctx a commit s)
  run_call (Call.update_oauth_issuer a) s =
      answer (λ _. true) (Issuers.update_oauth_issuer crypto ctx a commit s)
  run_call (Call.set_oauth_issuer_disabled a b c) s =
      answer (λ _. true) (Issuers.set_oauth_issuer_disabled crypto ctx a b c commit s)
  run_call (Call.create_oauth_protected_resource a) s =
      answer (λ _. true) (Issuers.create_oauth_protected_resource crypto ctx a commit s)
  run_call (Call.set_oauth_protected_resource_disabled a b c) s =
      answer (λ _. true) (Issuers.set_oauth_protected_resource_disabled crypto ctx a b c commit s)
  run_call (Call.create_oauth_client a b c) s =
      answer (λ _. true) (Clients.create_oauth_client crypto ctx a b c commit s)
  run_call (Call.upsert_oauth_cimd_client a) s =
      answer (λ _. true) (Clients.upsert_oauth_cimd_client crypto ctx a commit s)
  run_call (Call.rotate_oauth_client_credentials a b c d e) s =
      answer (λ _. true) (Clients.rotate_oauth_client_credentials crypto ctx a b c d e commit s)
  run_call (Call.set_oauth_client_disabled a b c) s =
      answer (λ _. true) (Clients.set_oauth_client_disabled crypto ctx a b c commit s)
  run_call (Call.create_oauth_initial_access_token a) s =
      answer (λ _. true) (Initials.create_oauth_initial_access_token crypto ctx a commit s)
  run_call (Call.revoke_oauth_initial_access_token a b) s =
      answer (λ _. true) (Initials.revoke_oauth_initial_access_token crypto ctx a b commit s)
  run_call (Call.create_oauth_client_access_token a) s =
      answer (λ _. true) (Initials.create_oauth_client_access_token crypto ctx a commit s)
  run_call (Call.revoke_oauth_client_access_token a b) s =
      answer (λ _. true) (Initials.revoke_oauth_client_access_token crypto ctx a b commit s)
  run_call (Call.create_oauth_grant_and_code a b) s =
      answer (λ _. true) (Codes.create_oauth_grant_and_code crypto ctx a b commit s)
  run_call (Call.revoke_oauth_grant a b) s =
      answer (λ _. true) (Codes.revoke_oauth_grant crypto ctx a b commit s)
  run_call (Call.consume_oauth_authorization_code a b c d) s =
      answer (λ _. true) (Codes.consume_oauth_authorization_code crypto ctx a b c d commit s)
  run_call (Call.rotate_oauth_refresh_token a b c d) s =
      answer (λ _. true) (Refresh.rotate_oauth_refresh_token crypto ctx a b c d commit s)
  run_call (Call.revoke_oauth_access_token a b) s =
      answer (λ _. true) (Codes.revoke_oauth_access_token crypto ctx a b commit s)
  run_call (Call.revoke_oauth_refresh_family a b) s =
      answer (λ _. true) (Refresh.revoke_oauth_refresh_family crypto ctx a b commit s)
