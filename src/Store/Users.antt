-- ===== src/Store/Users.antt =====
-- memory/store.go: users, and the guards that keep an enabled administrator.
use credbound.Prelude.{
  Bool, false, not, ◌&&◌, ◌||◌, Option, none, some, [], ◌∷◌, String, str_eq, Map, lookup, insert,
  erase, count, ◌==◌, leb, if◌then◌else◌,
}
use credbound.Types.{
  Uuid, Time, User, Membership, is_active, InstanceAdministrator, is_root, Crypto, Commit, Error,
}
use credbound.Store.State.{Store, Tx, gets, ◌>>=◌, ◌>>◌, fail_if, require, check_context}
use credbound.Store.Commits.{transact}
use credbound.Store.Revocation.{
  or_zero_user, touch_last_seen, revoke_user_credentials_locked, revoke_user_sessions_locked,
}

abbrev pub role_admin : String
role_admin = "admin"

unfoldable pub is_active_admin : Membership → Bool
is_active_admin m = str_eq m.role role_admin && is_active m.status

-- `!s.users[id].Disabled`: a missing user counts as enabled.
unfoldable pub is_enabled : Map User → Uuid → Bool
is_enabled users id = not (or_zero_user (lookup id users)).disabled

unfoldable pub is_enabled_root : Map User → Uuid → InstanceAdministrator → Bool
unfolding is_enabled
is_enabled_root users id admin = is_root admin.role && is_enabled users id

unfoldable pub is_root_of : Option InstanceAdministrator → Bool
is_root_of none = false
is_root_of (some admin) = is_root admin.role

-- The inner loop of `SetUserDisabled`.
unfoldable pub has_other_admin : Map User → Uuid → Map Membership → Bool
unfolding is_active_admin is_enabled
has_other_admin users user_id [] = false
has_other_admin users user_id ((other, m) ∷ ms) =
    (not (other == user_id) && (is_active_admin m && is_enabled users other))
    || has_other_admin users user_id ms

unfoldable pub is_active_admin_of : Option Membership → Bool
unfolding is_active_admin
is_active_admin_of none = false
is_active_admin_of (some m) = is_active_admin m

-- The outer loop: some workspace would lose its last active admin.
unfoldable pub orphans_workspace : Map User → Uuid → Map (Map Membership) → Bool
unfolding is_active_admin_of has_other_admin
orphans_workspace users user_id [] = false
orphans_workspace users user_id ((workspace_id, ms) ∷ rest) =
    (is_active_admin_of (lookup user_id ms) && not (has_other_admin users user_id ms))
    || orphans_workspace users user_id rest

-- The guard under `if disabled`.
unfoldable pub disable_is_refused : Uuid → Store → Bool
unfolding is_root_of is_enabled_root orphans_workspace
disable_is_refused user_id s =
    (is_root_of (lookup user_id s.admins) && leb (count (is_enabled_root s.users) s.admins) 1)
    || orphans_workspace s.users user_id s.memberships

unfoldable pub disable_user : Uuid → Bool → Time → User → Store → Store
disable_user user_id disabled at user s =
    let s' = record s {
      users = insert user_id (record user { disabled = disabled; updated_at = at }) s.users;
    } in
    if disabled
    then revoke_user_sessions_locked user_id at (revoke_user_credentials_locked user_id 0 at s')
    else s'

module _ (crypto : Crypto) (ctx : Option Error) where
  unfoldable pub user_by_id : Uuid → Tx User
  user_by_id id = do
    check_context ctx
    users ← gets (λ s. s.users)
    require (lookup id users) Error.not_found

  unfoldable pub set_user_disabled : Uuid → Bool → Time → Commit → Tx (Unit {0})
  set_user_disabled user_id disabled at commit = do
    check_context ctx
    users ← gets (λ s. s.users)
    user ← require (lookup user_id users) Error.not_found
    refused ← gets (disable_is_refused user_id)
    fail_if (disabled && refused) Error.conflict
    transact crypto commit (disable_user user_id disabled at user)

  unfoldable pub record_authentication : Uuid → Time → Commit → Tx (Unit {0})
  record_authentication user_id seen_at commit = do
    check_context ctx
    users ← gets (λ s. s.users)
    user ← require (lookup user_id users) Error.not_found
    transact crypto commit λ s.
        let s' = touch_last_seen user_id seen_at s in
        record s' { throttles = erase user_id s'.throttles }

  unfoldable pub append_audit : Commit → Tx (Unit {0})
  append_audit commit = do check_context ctx; transact crypto commit (λ s. s)
