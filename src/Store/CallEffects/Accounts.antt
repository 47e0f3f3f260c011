-- ===== src/Store/CallEffects/Accounts.antt =====
-- Every operation on users, memberships and administrators has an effect.
use credbound.Prelude.{Option, Bool, true, lookup, not, leb, ◌&&◌}
use credbound.Types.{Uuid, Time, Membership, InstanceAdministrator, is_root, Crypto, Commit, Error}
use credbound.Store.State.{Store}
use credbound.Store.Users.{
  append_audit, set_user_disabled, record_authentication, disable_is_refused, is_active_admin,
  is_active_admin_of, is_root_of,
}
use credbound.Store.Members.{upsert_membership, remove_membership, members_of, has_one_admin}
use credbound.Store.Admins.{set_instance_role, remove_instance_role, roots}
use credbound.Store.Revocation.{touch_last_seen}
use credbound.Store.Kept.{
  disable_user-KeepsAudit, drop_membership-KeepsAudit, put_admin-KeepsAudit,
  put_membership-KeepsAudit,
}
use credbound.Store.Effects.{
  Effect, Kept-refl, check_context-Effect, require-Effect, fail_if-Effect, transact-Effect,
}

module _ (crypto : Crypto) (ctx : Option Error) (commit : Commit) (s : Store) where
  pub append_audit-Effect : Effect crypto commit s (λ _. true) (append_audit crypto ctx commit s)
  unfolding append_audit
  append_audit-Effect =
      check_context-Effect ctx _ (transact-Effect crypto commit _ (λ t. Kept-refl t) s)

  pub set_user_disabled-Effect :
      (id : Uuid) (disabled : Bool) (at : Time)
      → Effect crypto commit s (λ _. true) (set_user_disabled crypto ctx id disabled at commit s)
  unfolding set_user_disabled
  set_user_disabled-Effect id disabled at = check_context-Effect ctx _ (
      require-Effect (lookup id s.users) Error.not_found _ λ user.
        fail_if-Effect (disabled && disable_is_refused id s) Error.conflict _
          (transact-Effect crypto commit _ (disable_user-KeepsAudit id disabled at user) s))

  pub record_authentication-Effect :
      (id : Uuid) (at : Time)
      → Effect crypto commit s (λ _. true) (record_authentication crypto ctx id at commit s)
  unfolding record_authentication touch_last_seen
  record_authentication-Effect id at = check_context-Effect ctx _ (
      require-Effect (lookup id s.users) Error.not_found _
        λ user. transact-Effect crypto commit _ (λ t. Kept-refl t) s)

  pub upsert_membership-Effect :
      (membership : Membership)
      → Effect crypto commit s (λ _. true) (upsert_membership crypto ctx membership commit s)
  unfolding upsert_membership
  upsert_membership-Effect membership = check_context-Effect ctx _ (
      require-Effect (lookup membership.workspace_id s.workspaces) Error.not_found _ λ workspace.
        require-Effect (lookup membership.user_id s.users) Error.not_found _ λ user.
          fail_if-Effect
            (is_active_admin_of (lookup membership.user_id (members_of membership.workspace_id s))
              && (not (is_active_admin membership)
                  && has_one_admin (members_of membership.workspace_id s)))
            Error.conflict _
            (transact-Effect crypto commit _
              (put_membership-KeepsAudit membership commit.audit.occurred_at) s))

  pub remove_membership-Effect :
      (workspace_id user_id : Uuid) (at : Time)
      → Effect crypto commit s
          (λ _. true)
          (remove_membership crypto ctx workspace_id user_id at commit s)
  unfolding remove_membership
  remove_membership-Effect workspace_id user_id at = check_context-Effect ctx _ (
      require-Effect (lookup user_id (members_of workspace_id s)) Error.not_found _ λ membership.
        fail_if-Effect (is_active_admin membership && has_one_admin (members_of workspace_id s))
          Error.conflict _
          (transact-Effect crypto commit _ (drop_membership-KeepsAudit workspace_id user_id at) s))

  pub set_instance_role-Effect :
      (admin : InstanceAdministrator)
      → Effect crypto commit s (λ _. true) (set_instance_role crypto ctx admin commit s)
  unfolding set_instance_role
  set_instance_role-Effect admin = check_context-Effect ctx _ (
      require-Effect (lookup admin.user_id s.users) Error.not_found _ λ user.
        fail_if-Effect
          (is_root_of (lookup admin.user_id s.admins)
            && (not (is_root admin.role) && leb (roots s.admins) 1))
          Error.conflict _ (transact-Effect crypto commit _ (put_admin-KeepsAudit admin) s))

  pub remove_instance_role-Effect :
      (id : Uuid) → Effect crypto commit s (λ _. true) (remove_instance_role crypto ctx id commit s)
  unfolding remove_instance_role
  remove_instance_role-Effect id = check_context-Effect ctx _ (
      require-Effect (lookup id s.admins) Error.not_found _ λ admin.
        fail_if-Effect (is_root admin.role && leb (roots s.admins) 1) Error.conflict _
          (transact-Effect crypto commit _ (λ t. Kept-refl t) s))
