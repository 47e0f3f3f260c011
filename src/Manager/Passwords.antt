-- ===== src/Manager/Passwords.antt =====
-- auth.go: `AuthenticatePassword` with `confirmPasswordCurrent`, `recordPasswordAuthentication` and
-- `failStalePassword`.
use credbound.Prelude.{ℕ, zero, suc, not, String, str_eq, if◌then◌else◌}
use credbound.Types.{
  Uuid, AuditEvent, AuditOutcome, Error, is_not_found, is_conflict, is_invalid_credentials,
}
use credbound.Store.Passwords.{password_by_user_id, record_password_authentication}
use credbound.Manager.State.{
  Env, Op, done, refuse, refuse_if, either, now, call, plain_commit, ◌>>=◌, ◌>>◌,
}
use credbound.Manager.Config.{Config}
use credbound.Manager.Audits.{
  new_audit, record_authentication_audit, fail_store, emit_authentication_failed,
}
use credbound.Manager.Authorize.{of_result}

module _ (env : Env) (config : Config) where
  -- The check of a password against a hash that moved.
  unfoldable pub match_moved : String → String → Op String
  match_moved password current = do
    (matches, outdated) ← of_result (config.verify password current)
    refuse_if (not matches) Error.invalid_credentials
    done current

  unfoldable pub confirm_password_current : Uuid → String → String → Op String
  confirm_password_current user_id password verified_hash =
      either (call env (λ ctx. password_by_user_id config.crypto ctx user_id))
        (λ credential.
          if str_eq credential.hash verified_hash
          then done verified_hash
          else match_moved password credential.hash)
        (λ e. refuse (if is_not_found e then Error.invalid_credentials else e))

  unfoldable pub record_password_success : Uuid → String → Op AuditEvent
  record_password_success user_id current_hash = do
    event ←
        new_audit env config user_id "auth.password" "user" (config.crypto.uuid_string user_id) 0
          AuditOutcome.succeeded ""
    at ← now env
    either
        (call env (λ ctx.
          record_password_authentication config.crypto ctx user_id current_hash at
            (plain_commit env event)))
        (λ _. done event)
        (λ e.
          if is_conflict e then refuse Error.conflict else fail_store env config "auth.password" e)

  unfoldable pub fail_stale_password : {A : Type 0} → Uuid → Error → Op A
  fail_stale_password user_id cause =
      if is_invalid_credentials cause
      then (do
        event ←
            record_authentication_audit env config user_id "auth.password" AuditOutcome.failed
              "stale_credential"
        emit_authentication_failed env config "auth.password.authenticate" user_id
            "stale_credential"
        refuse Error.invalid_credentials)
      else refuse cause

  -- The loop that finalizes a sign-in, with the retries that are left: the hash at the end.
  unfoldable pub finalize : ℕ → Uuid → String → String → Op String
  finalize zero user_id password current_hash =
      either (record_password_success user_id current_hash) (λ event. done current_hash)
        (λ e.
          if is_conflict e then fail_stale_password user_id Error.invalid_credentials else refuse e)
  finalize (suc left) user_id password current_hash =
      either (record_password_success user_id current_hash) (λ event. done current_hash)
        (λ e.
          if is_conflict e
          then either (confirm_password_current user_id password current_hash)
              (finalize left user_id password) (fail_stale_password user_id)
          else refuse e)
