-- ===== src/Store/Members.antt =====
-- memory/store.go: workspace memberships.
use credbound.Prelude.{
  Bool, not, ◌&&◌, Option, none, some, [], str_eq, Map, lookup, insert, erase, count, leb,
  if◌then◌else◌,
}
use credbound.Types.{
  Uuid, Time, Workspace, Membership, MembershipStatus, is_active, Crypto, Commit, Error,
}
use credbound.Store.State.{Store, Tx, pure, gets, ◌>>=◌, ◌>>◌, fail_if, require, check_context}
use credbound.Store.Commits.{transact}
use credbound.Store.Revocation.{revoke_user_credentials_locked}
use credbound.Store.Users.{is_active_admin, is_active_admin_of}

-- `s.memberships[workspaceID]`, an empty map when there is none.
abbrev pub or_empty : Option (Map Membership) → Map Membership
or_empty none = []
or_empty (some ms) = ms

abbrev pub members_of : Uuid → Store → Map Membership
members_of workspace_id s = or_empty (lookup workspace_id s.memberships)

unfoldable pub normalize_membership : Membership → Membership
normalize_membership value = record value {
  status = elim value.status [ MembershipStatus.unset ↦ MembershipStatus.active | other ↦ other ];
  provisioning_source =
      if str_eq value.provisioning_source "" then "local" else value.provisioning_source;
}

abbrev pub keep_created_at : Option Membership → Membership → Membership
keep_created_at none m = m
keep_created_at (some existing) m = record m { created_at = existing.created_at }

-- `activeWorkspaceAdminsLocked(workspaceID) <= 1`
unfoldable pub has_one_admin : Map Membership → Bool
has_one_admin ms = leb (count (λ user_id m. is_active_admin m) ms) 1

unfoldable pub put_membership : Membership → Time → Store → Store
unfolding normalize_membership
put_membership membership at s =
    let ms = members_of membership.workspace_id s in
    let m = keep_created_at (lookup membership.user_id ms) membership in
    let s' = record s {
      memberships =
          insert membership.workspace_id (insert membership.user_id (normalize_membership m) ms)
            s.memberships;
    } in
    if is_active membership.status
    then s'
    else revoke_user_credentials_locked membership.user_id membership.workspace_id at s'

unfoldable pub drop_membership : Uuid → Uuid → Time → Store → Store
drop_membership workspace_id user_id at s =
    revoke_user_credentials_locked user_id workspace_id at (record s {
      memberships = insert workspace_id (erase user_id (members_of workspace_id s)) s.memberships;
    })

module _ (crypto : Crypto) (ctx : Option Error) where
  unfoldable pub membership_of : Uuid → Uuid → Tx Membership
  membership_of workspace_id user_id = do
    check_context ctx
    ms ← gets (members_of workspace_id)
    membership ← require (lookup user_id ms) Error.not_found
    pure (normalize_membership membership)

  unfoldable pub workspace_by_id : Uuid → Tx Workspace
  workspace_by_id id = do
    check_context ctx
    workspaces ← gets (λ s. s.workspaces)
    require (lookup id workspaces) Error.not_found

  unfoldable pub upsert_membership : Membership → Commit → Tx (Unit {0})
  upsert_membership membership commit = do
    check_context ctx
    workspaces ← gets (λ s. s.workspaces)
    workspace ← require (lookup membership.workspace_id workspaces) Error.not_found
    users ← gets (λ s. s.users)
    user ← require (lookup membership.user_id users) Error.not_found
    ms ← gets (members_of membership.workspace_id)
    fail_if
        (is_active_admin_of (lookup membership.user_id ms)
          && (not (is_active_admin membership) && has_one_admin ms))
        Error.conflict
    transact crypto commit (put_membership membership commit.audit.occurred_at)

  unfoldable pub remove_membership : Uuid → Uuid → Time → Commit → Tx (Unit {0})
  remove_membership workspace_id user_id at commit = do
    check_context ctx
    ms ← gets (members_of workspace_id)
    membership ← require (lookup user_id ms) Error.not_found
    fail_if (is_active_admin membership && has_one_admin ms) Error.conflict
    transact crypto commit (drop_membership workspace_id user_id at)
