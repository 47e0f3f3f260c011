-- ===== src/Manager/ChangePassword.antt =====
-- auth.go: `ChangePassword` and `validatePassword`.
use Prim.Native.String.{String}
use credbound.Prelude.{ℕ, suc, true, Option, none, some, ltb, if◌then◌else◌}
use credbound.Types.{Uuid, Time, AuditOutcome, Commit, Error}
use credbound.Store.Passwords.{password_by_user_id, change_password}
use credbound.Manager.State.{Env, Op, done, refuse, refuse_if, either, emit, now, call, ◌>>=◌, ◌>>◌}
use credbound.Manager.Config.{Config}
use credbound.Manager.Authn.{Authentication}
use credbound.Manager.Ids.{new_id}
use credbound.Manager.Audits.{
  new_audit, record_authentication_failure, require_unlocked, fail_store,
  emit_authentication_failed,
}
use credbound.Manager.StepUp.{require_recent_interactive}
use credbound.Manager.Authorize.{of_result}
use credbound.Manager.Sessions.{transactional_commit}

-- `len([]rune(password))`
unfoldable pub rune_count : String → ℕ
rune_count String.[] = 0
rune_count (String.◌∷◌ c s) = suc (rune_count s)

-- The host's policy on top of the lengths.
unfoldable pub apply_policy : Option Error → Op (Unit {0})
apply_policy none = done tt
apply_policy (some e) = refuse e

module _ (env : Env) (config : Config) where
  unfoldable pub validate_password : String → Op (Unit {0})
  validate_password password = do
    refuse_if (ltb (rune_count password) config.min_password_len)
        (Error.validation "password" "too_short")
    refuse_if (ltb 1024 (rune_count password)) (Error.validation "password" "too_long")
    apply_policy (config.password_policy password)

  -- A wrong current password counts toward the lockout.
  unfoldable pub fail_current_password : {A : Type 0} → Uuid → Op A
  fail_current_password user_id = do
    event ← record_authentication_failure env config user_id "password.change" true
    emit_authentication_failed env config "auth.password.change" user_id "invalid_credentials"
    refuse Error.invalid_credentials

  -- The call of the store and the two events after it.
  unfoldable pub perform_change : Uuid → String → Time → Commit → Op (Unit {0})
  perform_change user_id hash at commit =
      either
        (call env (λ ctx.
          change_password config.crypto ctx
            (record { user_id = user_id; hash = hash; updated_at = at }) at commit))
        (λ _. do
          emit (record {
            name = "password.changed";
            operation = "auth.password.change";
            user_id = user_id;
            reason = "";
          })
          emit (record {
            name = "session.user_revoked";
            operation = "auth.password.change";
            user_id = user_id;
            reason = "";
          }))
        (fail_store env config "auth.password.change")

  -- The new hash, the audit event and the metadata of the two events.
  unfoldable pub replace_password : Uuid → String → Op (Unit {0})
  replace_password user_id new_password = do
    hash ← of_result (config.hash new_password)
    at ← now env
    event ←
        new_audit env config user_id "password.change" "user" (config.crypto.uuid_string user_id) 0
          AuditOutcome.succeeded ""
    meta ← new_id env
    meta_at ← now env
    session_meta ← new_id env
    session_meta_at ← now env
    commit ← transactional_commit env config event
    perform_change user_id hash at commit

  unfoldable pub check_and_replace : Authentication → String → String → Op (Unit {0})
  check_and_replace actor current_password new_password =
      either (call env (λ ctx. password_by_user_id config.crypto ctx actor.user_id))
        (λ credential. do
          (matches, outdated) ← of_result (config.verify current_password credential.hash)
          if matches
              then replace_password actor.user_id new_password
              else fail_current_password actor.user_id)
        (λ e. refuse Error.invalid_credentials)

  unfoldable pub change_own_password : Authentication → String → String → Op (Unit {0})
  change_own_password actor current_password new_password = do
    require_recent_interactive env config actor
    require_unlocked env config actor.user_id "password.change"
    validate_password new_password
    check_and_replace actor current_password new_password
