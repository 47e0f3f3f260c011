-- ===== src/Manager/Authorize.antt =====
-- rbac.go: `Authorize` and `AuthorizePermission`.
use credbound.Prelude.{
  Bool, true, false, not, ◌&&◌, ◌||◌, String, ◌==◌, ltb, if◌then◌else◌, is_some,
}
use credbound.Types.{Uuid, is_active, Error, Result, is_not_found}
use credbound.Store.Users.{user_by_id}
use credbound.Store.Members.{workspace_by_id, membership_of}
use credbound.Manager.State.{Env, Op, done, refuse, refuse_if, either, call, ◌>>=◌, ◌>>◌}
use credbound.Manager.Config.{Config}
use credbound.Manager.Authn.{Authentication, interactive, has_scope, is_scoped, aal2}
use credbound.Manager.Audits.{emit_event}
use credbound.Manager.Roles.{normalize, includes, allows, is_permission}

-- The value of a result, or its error as the operation's.
abbrev pub of_result : {A : Type 0} → Result A → Op A
of_result r w = (r, w)

-- An authentication that is bound to another workspace.
abbrev pub is_bound_elsewhere : Authentication → Uuid → Bool
is_bound_elsewhere authn workspace_id =
    not (authn.workspace_id == 0) && not (authn.workspace_id == workspace_id)

module _ (env : Env) (config : Config) where
  unfoldable pub emit_authorization_denied : Authentication → Op (Unit {0})
  emit_authorization_denied authn =
      emit_event env config "authorization.denied" "rbac.authorize" authn.user_id ""

  unfoldable pub deny : Authentication → Op (Unit {0})
  deny authn = do emit_authorization_denied authn; refuse Error.forbidden

  unfoldable pub deny_if : Bool → Authentication → Op (Unit {0})
  deny_if true authn = deny authn
  deny_if false authn = done tt

  -- Any failure of the lookup is the same refusal as a disabled user.
  unfoldable pub require_enabled : Uuid → Op (Unit {0})
  require_enabled user_id =
      either (call env (λ ctx. user_by_id config.crypto ctx user_id))
        (λ user. refuse_if user.disabled Error.forbidden) (λ e. refuse Error.forbidden)

  -- The workspace with the checks on it: found, enabled, and the level that it asks for.
  unfoldable pub require_workspace : Authentication → Uuid → Op (Unit {0})
  require_workspace authn workspace_id =
      either (call env (λ ctx. workspace_by_id config.crypto ctx workspace_id))
        (λ workspace. do
          refuse_if (is_some workspace.disabled_at) Error.forbidden
          refuse_if (workspace.require_mfa && (interactive authn && ltb authn.level aal2))
              Error.step_up_required)
        (λ e. refuse (if is_not_found e then Error.forbidden else e))

  unfoldable pub authorize : Authentication → Uuid → String → Op (Unit {0})
  authorize authn workspace_id minimum_role = do
    refuse_if (authn.user_id == 0) Error.unauthorized
    refuse_if authn.second_factor_required Error.step_up_required
    refuse_if (workspace_id == 0) Error.invalid_input
    require_enabled authn.user_id
    role ← of_result (normalize config.workspace_roles minimum_role)
    deny_if (is_scoped authn && not (has_scope authn "*")) authn
    deny_if (is_bound_elsewhere authn workspace_id) authn
    require_workspace authn workspace_id
    either (call env (λ ctx. membership_of config.crypto ctx workspace_id authn.user_id))
        (λ membership.
          deny_if
            (not (is_active membership.status)
              || not (includes config.workspace_roles membership.role role))
            authn)
        (λ e. if is_not_found e then deny authn else refuse e)

  unfoldable pub authorize_permission : Authentication → Uuid → String → Op (Unit {0})
  authorize_permission authn workspace_id permission = do
    refuse_if (authn.user_id == 0) Error.unauthorized
    refuse_if authn.second_factor_required Error.step_up_required
    refuse_if (workspace_id == 0 || not (is_permission permission)) Error.invalid_input
    deny_if (is_scoped authn && not (has_scope authn permission)) authn
    require_enabled authn.user_id
    deny_if (is_bound_elsewhere authn workspace_id) authn
    require_workspace authn workspace_id
    either (call env (λ ctx. membership_of config.crypto ctx workspace_id authn.user_id))
        (λ membership.
          refuse_if
            (not (is_active membership.status)
              || not (allows config.workspace_roles membership.role permission))
            Error.forbidden)
        (λ e. refuse (if is_not_found e then Error.forbidden else e))
