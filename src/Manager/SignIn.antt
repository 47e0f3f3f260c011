-- ===== src/Manager/SignIn.antt =====
-- auth.go: `AuthenticatePassword`, from what `UserByEmail` answered on.
use credbound.Prelude.{
  Bool, true, false, not, ◌&&◌, ◌||◌, Option, none, some, [], String, ◌==◌, if◌then◌else◌, is_some,
}
use credbound.Types.{
  Uuid, Time, User, LoginThrottle, AuditEvent, AuditOutcome, AuthMethod, Error, Result, ok, err,
  is_not_found, is_conflict,
}
use credbound.Store.Revocation.{zero_user}
use credbound.Store.Users.{append_audit}
use credbound.Store.Passwords.{
  password_by_user_id, login_throttle_by_user_id, rehash_password, zero_throttle,
}
use credbound.Store.Factors.{totp_by_user_id}
use credbound.Store.Sessions.{credential_fingerprint}
use credbound.Manager.State.{
  Env, Op, done, refuse, either, emit, now, call, plain_commit, ◌>>=◌, ◌>>◌,
}
use credbound.Manager.Config.{Config}
use credbound.Manager.Authn.{Authentication, aal1}
use credbound.Manager.Ids.{new_id}
use credbound.Manager.Audits.{
  new_audit, record_authentication_audit, record_authentication_failure, fail_store, emit_event,
  emit_authentication_failed, is_locked_at,
}
use credbound.Manager.Authorize.{of_result}
use credbound.Manager.Passwords.{confirm_password_current, fail_stale_password, finalize}

-- What the lookups found: the user, whether the address is known, the hash to verify against, the
-- throttle, and an error that is not a missing record.
pub record Found : Type 0 where
  pub user : User
  pub known : Bool
  pub hash : String
  pub throttle : LoginThrottle
  pub failure : Option Error

abbrev pub with_failure : Error → Found → Found
with_failure e found = if is_not_found e then found else record found { failure = some e }

module _ (env : Env) (config : Config) (dummy_hash : String) where
  unfoldable pub find_throttle : Found → Op Found
  find_throttle found =
      if config.max_failed_logins == 0 || is_some found.failure
      then done found
      else either (call env (λ ctx. login_throttle_by_user_id config.crypto ctx found.user.id))
          (λ throttle. done (record found { throttle = throttle }))
          (λ e. done (with_failure e found))

  unfoldable pub find_credential : Result User → Op Found
  find_credential (err e) = done (
      with_failure e (record {
        user = zero_user;
        known = false;
        hash = dummy_hash;
        throttle = zero_throttle;
        failure = none;
      }))
  find_credential (ok user) =
      let found : Found = record {
        user = user;
        known = true;
        hash = dummy_hash;
        throttle = zero_throttle;
        failure = none;
      } in
      either (call env (λ ctx. password_by_user_id config.crypto ctx user.id))
        (λ credential. find_throttle (record found { hash = credential.hash }))
        (λ e. find_throttle (with_failure e found))

  -- A failed sign-in, with its audit.
  unfoldable pub fail_sign_in : {A : Type 0} → Uuid → String → Op AuditEvent → Op A
  fail_sign_in user_id reason audit = do
    event ← audit
    emit_authentication_failed env config "auth.password.authenticate" user_id reason
    refuse Error.invalid_credentials

  unfoldable pub refuse_while_locked : Found → Option Time → Op (Unit {0})
  refuse_while_locked found none = done tt
  refuse_while_locked found (some locked_until) = do
    at ← now env
    if is_locked_at at (some locked_until)
        then fail_sign_in found.user.id "locked" (
            record_authentication_audit env config found.user.id "auth.password" AuditOutcome.failed
              "locked")
        else done tt

  -- The transparent rehash: the hash that the sign-in goes on with.
  unfoldable pub rehash : Uuid → String → String → Op String
  rehash user_id password hash = do
    new_hash ← of_result (config.hash password)
    event ←
        new_audit env config user_id "password.rehash" "user" (config.crypto.uuid_string user_id) 0
          AuditOutcome.succeeded ""
    meta ← new_id env
    meta_at ← now env
    at ← now env
    either
        (call env (λ ctx.
          rehash_password config.crypto ctx
            (record { user_id = user_id; hash = new_hash; updated_at = at }) hash
            (plain_commit env event)))
        (λ _. do
          emit (record {
            name = "password.rehashed";
            operation = "auth.password.authenticate";
            user_id = user_id;
            reason = "";
          })
          done new_hash)
        (λ e. if is_conflict e then done hash else fail_store env config "auth.password.rehash" e)

  -- Whether an active TOTP factor is pending.
  unfoldable pub requires_second_factor : Uuid → Op Bool
  requires_second_factor user_id =
      either (call env (λ ctx. totp_by_user_id config.crypto ctx user_id))
        (λ factor. done factor.active) (λ e. if is_not_found e then done false else refuse e)

  -- The end of a sign-in whose second factor is pending: the hash at the end.
  unfoldable pub finish_pending : Uuid → String → String → Op String
  finish_pending user_id password current_hash =
      either (confirm_password_current env config user_id password current_hash)
        (λ refreshed. do
          event ←
              new_audit env config user_id "auth.password" "user"
                (config.crypto.uuid_string user_id) 0 AuditOutcome.succeeded ""
          either (call env (λ ctx. append_audit config.crypto ctx (plain_commit env event)))
              (λ _. done refreshed) (fail_store env config "auth.password"))
        (fail_stale_password env config user_id)

  unfoldable pub complete_sign_in : User → String → String → Bool → Op Authentication
  complete_sign_in user password hash outdated = do
    current_hash ← if outdated then rehash user.id password hash else done hash
    pending ← requires_second_factor user.id
    final_hash ←
        if pending
        then finish_pending user.id password current_hash
        else finalize env config 2 user.id password current_hash
    at ← now env
    emit_event env config "authentication.succeeded" "auth.password.authenticate" user.id ""
    done (record {
      user_id = user.id;
      method = AuthMethod.password;
      level = aal1;
      authenticated_at = at;
      second_factor_required = pending;
      workspace_id = 0;
      scopes = [];
      credential_digest = credential_fingerprint config.crypto final_hash;
    })

  unfoldable pub refuse_failure : Option Error → Op (Unit {0})
  refuse_failure none = done tt
  refuse_failure (some e) = refuse e

  unfoldable pub authenticate_password : Result User → String → Op Authentication
  authenticate_password looked_up password = do
    found ← find_credential looked_up
    (matches, outdated) ← of_result (config.verify password found.hash)
    refuse_failure found.failure
    refuse_while_locked found found.throttle.locked_until
    if not found.known || (not matches || found.user.disabled)
        then fail_sign_in found.user.id "invalid_credentials" (
            record_authentication_failure env config found.user.id "auth.password"
              (found.known && (not found.user.disabled && not matches)))
        else complete_sign_in found.user password found.hash outdated
