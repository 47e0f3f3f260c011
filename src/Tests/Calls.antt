-- ===== src/Tests/Calls.antt =====
-- Runs of the store's operations.
use credbound.Prelude.{
  ◌≡◌, refl, true, false, none, some, [], ◌∷◌, lookup, arith, count, bytes_equal,
}
use credbound.Types.{ok, err, Error}
use credbound.Store.State.{Store}
use credbound.Store.Commits
use credbound.Store.Users
use credbound.Store.Passwords
use credbound.Store.Factors
use credbound.Store.Revoking.{SessionsRevoked, CredentialsRevoked}
use credbound.Store.RevokingCalls.{
  change_password-SessionsRevoked, set_user_disabled-revokes, complete_password_reset-revokes,
}
use credbound.Store.SingleUse.{
  matching, use_totp-no_replay, consume_recovery_code-no_reuse, complete_password_reset-no_reuse,
}
use credbound.Tests.Fixture.{crypto, commit, store, new_password}

abbrev changed : Store
changed = (Passwords.change_password crypto none new_password 50 (commit 90) store).1

change_password-SessionsRevoked_example :
    SessionsRevoked 1 changed × (lookup 1 changed.passwords ≡ some new_password)
unfolding Passwords.change_password Commits.transact Commits.prepare_commit Commits.prepare_after
    Commits.can_audit Commits.contains Commits.consume_ceremony Commits.snapshot_for
    Commits.finish_commit Commits.finish_after lookup
change_password-SessionsRevoked_example =
    change_password-SessionsRevoked crypto none (commit 90) store changed new_password 50 refl

abbrev disabled : Store
disabled = (Users.set_user_disabled crypto none 1 true 50 (commit 90) store).1

set_user_disabled-revokes_example :
    SessionsRevoked 1 disabled
    × CredentialsRevoked 1 disabled
    × (Users.is_enabled disabled.users 1 ≡ false)
unfolding Users.set_user_disabled Users.disable_is_refused Users.is_root_of Users.is_enabled_root
    Users.is_enabled Users.orphans_workspace Users.is_active_admin_of Users.is_active_admin
    Users.has_other_admin count Commits.transact Commits.prepare_commit Commits.prepare_after
    Commits.can_audit Commits.contains Commits.consume_ceremony Commits.snapshot_for
    Commits.finish_commit Commits.finish_after lookup
set_user_disabled-revokes_example =
    set_user_disabled-revokes crypto none (commit 90) store disabled 1 50 refl

abbrev completed : Store
completed = (Passwords.complete_password_reset crypto none 6 new_password 50 (commit 90) store).1

complete_password_reset-revokes_example :
    SessionsRevoked 1 completed
    × CredentialsRevoked 1 completed
    × (lookup 1 completed.passwords ≡ some new_password)
    × (lookup 1 completed.throttles ≡ none)
unfolding Passwords.complete_password_reset Commits.transact Commits.prepare_commit
    Commits.prepare_after Commits.can_audit Commits.contains Commits.consume_ceremony
    Commits.snapshot_for Commits.finish_commit Commits.finish_after lookup
complete_password_reset-revokes_example =
    complete_password_reset-revokes crypto none (commit 90) store completed 6 new_password 50 refl

complete_password_reset-no_reuse_example :
    Passwords.complete_password_reset crypto none 6 new_password 60 (commit 91) completed
    ≡ (err Error.conflict, completed)
unfolding Passwords.complete_password_reset Commits.transact Commits.prepare_commit
    Commits.prepare_after Commits.can_audit Commits.contains Commits.consume_ceremony
    Commits.snapshot_for Commits.finish_commit Commits.finish_after lookup
complete_password_reset-no_reuse_example =
    complete_password_reset-no_reuse crypto none 6 new_password new_password 50 60 (commit 90)
      (commit 91) store completed refl

abbrev stepped : Store
stepped = (Factors.use_totp crypto none 1 5 (commit 90) store).1

use_totp-no_replay_example :
    Factors.use_totp crypto none 1 4 (commit 91) stepped ≡ (ok false, stepped)
unfolding Factors.use_totp Commits.transact Commits.prepare_commit Commits.prepare_after
    Commits.can_audit Commits.contains Commits.consume_ceremony Commits.snapshot_for
    Commits.finish_commit Commits.finish_after lookup
use_totp-no_replay_example =
    use_totp-no_replay crypto 1 none 5 4 (commit 90) (commit 91) store stepped refl (omega arith)

abbrev recovered : Store
recovered = (Factors.consume_recovery_code crypto none 1 (9 ∷ []) 50 (commit 90) store).1

consume_recovery_code-no_reuse_example :
    Factors.consume_recovery_code crypto none 1 (9 ∷ []) 60 (commit 91) recovered
    ≡ (ok false, recovered)
unfolding Factors.consume_recovery_code Factors.consume_marked Factors.mark_used
    Factors.is_unused_match matching bytes_equal Commits.transact Commits.prepare_commit
    Commits.prepare_after Commits.can_audit Commits.contains Commits.consume_ceremony
    Commits.snapshot_for Commits.finish_commit Commits.finish_after lookup
consume_recovery_code-no_reuse_example =
    consume_recovery_code-no_reuse crypto 1 none (9 ∷ []) 50 60 (commit 90) (commit 91) store
      recovered refl refl
