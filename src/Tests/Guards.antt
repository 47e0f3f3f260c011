-- ===== src/Tests/Guards.antt =====
-- Runs of the guarded operations, of the login throttle and of a ceremony.
use credbound.Prelude.{◌+◌, ◌<◌, ◌≡◌, ◌≢◌, refl, true, none, some, [], ◌∷◌, lookup, count, arith}
use credbound.Types.{
  Membership, MembershipStatus, Commit, CeremonyConsumption, LoginThrottle, Error, ok,
}
use credbound.Store.State.{Store}
use credbound.Store.Commits
use credbound.Store.Users
use credbound.Store.Members
use credbound.Store.Admins
use credbound.Store.Passwords
use credbound.Store.Passwords.{zero_throttle}
use credbound.Store.LastAdmin.{set_user_disabled-keeps_root, remove_instance_role-keeps_root}
use credbound.Store.LastMember.{
  admins_of, upsert_membership-keeps_admin, remove_membership-keeps_admin,
}
use credbound.Store.Ceremonies.{transact-single_use}
use credbound.Store.Lockout.{fail_at, fail_at-locks}
use credbound.Store.LoginFailures.{Counted, record_login_failure-counts}
use credbound.Tests.Fixture.{crypto, commit, store, member}

abbrev disabled : Store
disabled = (Users.set_user_disabled crypto none 1 true 50 (commit 90) store).1

set_user_disabled-keeps_root_example :
    0 < count (Users.is_enabled_root disabled.users) disabled.admins
unfolding Users.set_user_disabled Users.disable_is_refused Users.is_root_of Users.is_enabled_root
    Users.is_enabled Users.orphans_workspace Users.is_active_admin_of Users.is_active_admin
    Users.has_other_admin count Commits.transact Commits.prepare_commit Commits.prepare_after
    Commits.can_audit Commits.contains Commits.consume_ceremony Commits.snapshot_for
    Commits.finish_commit Commits.finish_after lookup
set_user_disabled-keeps_root_example =
    set_user_disabled-keeps_root crypto none (commit 90) store disabled 1 true 50 (refl, (refl, tt))
      (omega arith) refl

abbrev removed : Store
removed = (Admins.remove_instance_role crypto none 1 (commit 90) store).1

remove_instance_role-keeps_root_example : 0 < Admins.roots removed.admins
unfolding Admins.remove_instance_role Users.is_root_of count Commits.transact Commits.prepare_commit
    Commits.prepare_after Commits.can_audit Commits.contains Commits.consume_ceremony
    Commits.snapshot_for Commits.finish_commit Commits.finish_after lookup
remove_instance_role-keeps_root_example =
    remove_instance_role-keeps_root crypto none (commit 90) store removed 1 (refl, (refl, tt))
      (omega arith) refl

abbrev suspended : Membership
suspended = record (member 1) { status = MembershipStatus.suspended }

abbrev suspended_store : Store
suspended_store = (Members.upsert_membership crypto none suspended (commit 90) store).1

upsert_membership-keeps_admin_example : 0 < admins_of 8 suspended_store
unfolding Members.upsert_membership Members.has_one_admin Users.is_active_admin_of
    Users.is_active_admin count Commits.transact Commits.prepare_commit Commits.prepare_after
    Commits.can_audit Commits.contains Commits.consume_ceremony Commits.snapshot_for
    Commits.finish_commit Commits.finish_after lookup
upsert_membership-keeps_admin_example =
    upsert_membership-keeps_admin crypto none (commit 90) store suspended_store 8 suspended
      (omega arith) refl

abbrev left_store : Store
left_store = (Members.remove_membership crypto none 8 1 50 (commit 90) store).1

remove_membership-keeps_admin_example : 0 < admins_of 8 left_store
unfolding Members.remove_membership Members.has_one_admin Users.is_active_admin_of
    Users.is_active_admin count Commits.transact Commits.prepare_commit Commits.prepare_after
    Commits.can_audit Commits.contains Commits.consume_ceremony Commits.snapshot_for
    Commits.finish_commit Commits.finish_after lookup
remove_membership-keeps_admin_example =
    remove_membership-keeps_admin crypto none (commit 90) store left_store 8 8 1 50
      (refl, (refl, tt)) (omega arith) refl

-- The third failure reaches a threshold of three.
fail_at-locks_example :
    (Passwords.count_failure 1 3 3
      (3 + 100)
      (fail_at 1 3 100 (1 ∷ 2 ∷ []) zero_throttle)).locked_until
    ≡ some 103
unfolding lookup
fail_at-locks_example = fail_at-locks 1 3 100 (1 ∷ 2 ∷ []) 3 zero_throttle refl refl (omega arith)

-- A throttle whose lockout has ended at 40.
abbrev unlocked : Store
unlocked = record store {
  throttles =
      (1, record { user_id = 1; failed_attempts = 3; locked_until = some 40; updated_at = 10 })
      ∷ [];
}

abbrev failed : Store
failed = (Passwords.record_login_failure crypto none 1 50 3 150 (commit 90) unlocked).1

abbrev counted : LoginThrottle
counted = record { user_id = 1; failed_attempts = 1; locked_until = none; updated_at = 50 }

record_login_failure-counts_example :
    Counted 3 50 150 (lookup 1 unlocked.throttles) counted
    × (counted.user_id ≡ 1)
    × (counted.updated_at ≡ 50)
    × (lookup 1 failed.throttles ≡ some counted)
unfolding Passwords.record_login_failure Passwords.count_failure Commits.transact
    Commits.prepare_commit Commits.prepare_after Commits.can_audit Commits.contains
    Commits.consume_ceremony Commits.snapshot_for Commits.finish_commit Commits.finish_after lookup
record_login_failure-counts_example =
    record_login_failure-counts crypto none (commit 90) unlocked failed 1 50 3 150 counted refl

abbrev ceremony : CeremonyConsumption
ceremony = record { id = 12; expires_at = 6000 }

-- A commit whose hooks refuse it.
abbrev hooked : Commit
hooked = record (commit 90) {
  transactional = some (some Error.forbidden);
  ceremony = some ceremony;
}

abbrev replayed : Commit
replayed = record (commit 91) { ceremony = some ceremony }

abbrev refused : Store
refused = (Commits.transact crypto hooked (λ s. s) store).1

transact-single_use_example : Commits.transact crypto replayed (λ s. s) refused ≢ (ok tt, store)
unfolding Commits.can_audit Commits.contains lookup
transact-single_use_example =
    transact-single_use crypto hooked replayed ceremony ceremony (λ s. s) (λ s. s) store store refl
      refl refl refl refl (λ t. refl) (omega arith)
