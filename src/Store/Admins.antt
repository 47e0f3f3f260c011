-- ===== src/Store/Admins.antt =====
-- memory/store.go: instance administrators.
use credbound.Prelude.{ℕ, not, ◌&&◌, Option, none, some, Map, lookup, insert, erase, count, leb}
use credbound.Types.{Uuid, InstanceAdministrator, is_root, Crypto, Commit, Error}
use credbound.Store.State.{Store, Tx, gets, ◌>>=◌, ◌>>◌, fail_if, require, check_context}
use credbound.Store.Commits.{transact}
use credbound.Store.Users.{is_root_of}

-- The loop that counts the roots, disabled or not.
abbrev pub roots : Map InstanceAdministrator → ℕ
roots = count (λ id candidate. is_root candidate.role)

abbrev pub keep_role_created_at :
    Option InstanceAdministrator → InstanceAdministrator → InstanceAdministrator
keep_role_created_at none admin = admin
keep_role_created_at (some existing) admin = record admin { created_at = existing.created_at }

unfoldable pub put_admin : InstanceAdministrator → Store → Store
put_admin admin s = record s {
  admins =
      insert admin.user_id (keep_role_created_at (lookup admin.user_id s.admins) admin) s.admins;
}

module _ (crypto : Crypto) (ctx : Option Error) where
  unfoldable pub instance_administrator : Uuid → Tx InstanceAdministrator
  instance_administrator user_id = do
    check_context ctx
    admins ← gets (λ s. s.admins)
    require (lookup user_id admins) Error.not_found

  unfoldable pub set_instance_role : InstanceAdministrator → Commit → Tx (Unit {0})
  set_instance_role admin commit = do
    check_context ctx
    users ← gets (λ s. s.users)
    user ← require (lookup admin.user_id users) Error.not_found
    admins ← gets (λ s. s.admins)
    fail_if
        (is_root_of (lookup admin.user_id admins)
          && (not (is_root admin.role) && leb (roots admins) 1))
        Error.conflict
    transact crypto commit (put_admin admin)

  unfoldable pub remove_instance_role : Uuid → Commit → Tx (Unit {0})
  remove_instance_role user_id commit = do
    check_context ctx
    admins ← gets (λ s. s.admins)
    admin ← require (lookup user_id admins) Error.not_found
    fail_if (is_root admin.role && leb (roots admins) 1) Error.conflict
    transact crypto commit (λ s. record s { admins = erase user_id s.admins })
