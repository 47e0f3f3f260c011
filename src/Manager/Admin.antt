-- ===== src/Manager/Admin.antt =====
-- admin.go: `AuthorizeAdmin`, `RequireAdminMutation` and `requireAdminMutation`.
use credbound.Prelude.{Bool, false, not, ◌&&◌, ◌||◌, String, ◌==◌, if◌then◌else◌}
use credbound.Types.{
  User, InstanceAdministrator, AuditOutcome, Error, Result, ok, err, is_not_found,
}
use credbound.Store.Users.{user_by_id, append_audit}
use credbound.Store.Admins.{instance_administrator}
use credbound.Manager.State.{
  Env, Op, done, refuse, refuse_if, either, attempt, call, plain_commit, ◌>>=◌, ◌>>◌,
}
use credbound.Manager.Config.{Config, StepUpScope}
use credbound.Manager.Authn.{Authentication, interactive, has_scope, is_scoped}
use credbound.Manager.Audits.{new_audit, fail_store}
use credbound.Manager.Roles.{member}
use credbound.Manager.StepUp.{require_step_up, require_scoped_step_up}

-- `actor.WorkspaceID == (UUID{}) && (len(actor.Scopes) == 0 || actor.HasScope("*"))`
unfoldable pub is_instance_credential : Authentication → Bool
is_instance_credential actor =
    actor.workspace_id == 0 && (not (is_scoped actor) || has_scope actor "*")

unfoldable pub enabled_result : Result User → Bool
enabled_result (ok user) = not user.disabled
enabled_result (err e) = false

-- The return of an error that is not a missing record.
unfoldable pub fail_unless_missing : {A : Type 0} → Result A → Op (Unit {0})
fail_unless_missing (ok a) = done tt
fail_unless_missing (err e) = if is_not_found e then done tt else refuse e

module _ (env : Env) (config : Config) where
  unfoldable pub has_admin_permission : Result InstanceAdministrator → String → Bool
  has_admin_permission (ok admin) permission =
      member permission (config.admin_permissions admin.role)
  has_admin_permission (err e) permission = false

  unfoldable pub authorize_admin : Authentication → String → Op (Unit {0})
  authorize_admin actor permission = do
    refuse_if (actor.user_id == 0) Error.unauthorized
    user ← attempt (call env (λ ctx. user_by_id config.crypto ctx actor.user_id))
    admin ← attempt (call env (λ ctx. instance_administrator config.crypto ctx actor.user_id))
    let allowed =
        is_instance_credential actor
        && (enabled_result user && has_admin_permission admin permission)
    event ←
        new_audit env config actor.user_id "admin.access" "permission" permission 0
          (if allowed then AuditOutcome.succeeded else AuditOutcome.failed)
          (if allowed then "" else "forbidden")
    either (call env (λ ctx. append_audit config.crypto ctx (plain_commit env event)))
        (λ _. do
          fail_unless_missing admin
          fail_unless_missing user
          refuse_if (not allowed) Error.forbidden)
        (fail_store env config "admin.access")

  -- `local` tells a request that the server verified as loopback.
  unfoldable pub require_admin_mutation : Authentication → Bool → Op (Unit {0})
  require_admin_mutation actor is_local = do
    refuse_if (actor.user_id == 0 || not (interactive actor)) Error.unauthorized
    if is_local then done tt else require_step_up env config actor

  unfoldable pub require_scoped_admin_mutation : Authentication → Bool → String → Op (Unit {0})
  require_scoped_admin_mutation actor is_local operation = do
    refuse_if (actor.user_id == 0 || not (interactive actor)) Error.unauthorized
    if is_local
        then done tt
        else require_scoped_step_up env config actor StepUpScope.admin operation
