-- ===== src/Tests/Managers.antt =====
-- Runs of the manager's operations.
use credbound.Prelude.{
  ℕ, ◌<◌, ◌≡◌, false, refl, some, [], lookup, zeros, arith, length, bytes_equal, subst,
}
use credbound.Types.{Uuid, User, ok, AuthMethod}
use credbound.Audit.Encoding.{utf8, utf8_rune}
use credbound.Store.Commits
use credbound.Store.Users
use credbound.Store.Members
use credbound.Store.Factors
use credbound.Store.Passwords
use credbound.Store.Sessions
use credbound.Store.RevokingCalls.{IsRevoked}
use credbound.Manager.State.{World}
use credbound.Manager.Config.{StepUpScope, policy_for}
use credbound.Manager.Authn
use credbound.Manager.Authn.{Authentication}
use credbound.Manager.Ids
use credbound.Manager.Audits
use credbound.Manager.StepUp
use credbound.Manager.Roles
use credbound.Manager.Authorize
use credbound.Manager.Sessions as Signing
use credbound.Manager.Passwords as Verifying
use credbound.Manager.Gates.{
  Fresh, Floor, IsEnabled, require_step_up-Fresh, require_step_up_for-Floor,
}
use credbound.Manager.Capable.{HasFactor, require_step_up_for-has_factor}
use credbound.Manager.Permits.{Permitted, authorize_permission-Permitted}
use credbound.Manager.LiveSessions.{Live, authenticate_session-Live}
use credbound.Manager.SignOuts.{sign_out-IsRevoked}
use credbound.Manager.ChangePassword as Changing
use credbound.Manager.SignIn as Entering
use credbound.Manager.SignInLookups.{Verified}
use credbound.Manager.SignIns.{SignedIn, authenticate_password-SignedIn}
use credbound.Manager.PasswordChanges.{Replaced, change_own_password-Replaced}
use credbound.Manager.CurrentPasswords.{Holds, finalize-Holds}
use credbound.Manager.Monotonic.{AllBytes, GivesBlocks, new_id-increases}
use credbound.Tests.Fixture.{env, config, crypto, world, store, user, authn, session, factor}

abbrev gated : World
gated = (StepUp.require_step_up_for env config authn StepUpScope.account world).1

require_step_up_for-Floor_example : Floor authn × IsEnabled 1 gated.store
unfolding StepUp.require_step_up_for StepUp.capable_under StepUp.needs_full_step_up
    StepUp.step_up_capable policy_for StepUp.require_step_up StepUp.require_active_user
    StepUp.is_stale Authn.interactive Authn.interactive_method Factors.totp_by_user_id
    Users.user_by_id lookup
require_step_up_for-Floor_example =
    require_step_up_for-Floor env config authn StepUpScope.account world gated refl

require_step_up_for-has_factor_example : Fresh config 5000 authn
unfolding StepUp.require_step_up_for StepUp.capable_under StepUp.needs_full_step_up
    StepUp.step_up_capable policy_for StepUp.require_step_up StepUp.require_active_user
    StepUp.is_stale Authn.interactive Authn.interactive_method Factors.totp_by_user_id
    Users.user_by_id lookup
require_step_up_for-has_factor_example =
    require_step_up_for-has_factor env config authn StepUpScope.account world gated refl
      (HasFactor.active_factor factor refl refl refl) refl

abbrev fresh : World
fresh = (StepUp.require_step_up env config authn world).1

require_step_up-Fresh_example : Fresh config 5000 authn
unfolding StepUp.require_step_up StepUp.is_stale Authn.interactive Authn.interactive_method
require_step_up-Fresh_example = require_step_up-Fresh env config authn world fresh refl

abbrev permitted : World
permitted = (Authorize.authorize_permission env config authn 8 "rbac.write" world).1

authorize_permission-Permitted_example : Permitted config authn 8 "rbac.write" permitted.store
unfolding Authorize.authorize_permission Authorize.deny_if Authorize.require_enabled
    Authorize.require_workspace Authn.interactive Authn.interactive_method Users.user_by_id
    Members.workspace_by_id Members.membership_of Members.normalize_membership Roles.is_permission
    Roles.matches_permission Roles.all_permission_bytes Roles.is_permission_byte utf8 utf8_rune
    Roles.allows Roles.find_role Roles.member lookup
authorize_permission-Permitted_example =
    authorize_permission-Permitted env config authn 8 "rbac.write" world permitted refl

zeros-AllBytes : (n : ℕ) → AllBytes (zeros n)
unfolding zeros
zeros-AllBytes ℕ.zero = tt
zeros-AllBytes (ℕ.suc n) = (omega arith, zeros-AllBytes n)

env-GivesBlocks : GivesBlocks env
unfolding zeros
env-GivesBlocks n b e =
    let same : zeros 16 ≡ b = cc in
    subst (λ b. (length b ≡ 16) × AllBytes b) same (refl, zeros-AllBytes 16)

abbrev drawn : World
drawn = (Ids.new_id env world).1

abbrev drawn_twice : World
drawn_twice = (Ids.new_id env drawn).1

abbrev first_id : Uuid
first_id = Ids.uuid_from 0 (Ids.stamp_id 0 1 (zeros 16))

abbrev second_id : Uuid
second_id = Ids.uuid_from 0 (Ids.stamp_id 0 2 (zeros 16))

new_id-increases_example : first_id < second_id
unfolding Ids.new_id Ids.tick zeros
new_id-increases_example =
    new_id-increases env world drawn drawn drawn_twice first_id second_id env-GivesBlocks
      (omega arith) refl refl (omega arith) refl refl

abbrev finalized : World
finalized = (Verifying.finalize env config 2 1 "secret" "old" world).1

finalize-Holds_example : Holds 1 "old" finalized.store
unfolding Verifying.finalize Verifying.record_password_success Audits.new_audit Ids.new_id Ids.tick
    Ids.stamp_id Ids.timestamp_bytes Ids.uuid_from zeros Passwords.record_password_authentication
    Passwords.hash_differs Commits.transact Commits.prepare_commit Commits.prepare_after
    Commits.can_audit Commits.contains Commits.consume_ceremony Commits.snapshot_for
    Commits.finish_commit Commits.finish_after lookup
finalize-Holds_example = finalize-Holds env config 2 1 "secret" "old" "old" world finalized refl

abbrev authenticated : World
authenticated = (Signing.authenticate_session env config "token" world).1

authenticate_session-Live_example : Live env config "token" world (Signing.snapshot_of session)
unfolding Signing.authenticate_session Signing.answer_session Signing.find_session
    Signing.reject_token_if Signing.match_token Signing.match_digest_ring Signing.check_idle
    Signing.require_session_user Signing.is_touched Signing.touch_and_answer bytes_equal
    Sessions.session_by_id Sessions.touch_session Users.user_by_id Audits.new_audit Ids.new_id
    Ids.tick Ids.stamp_id Ids.timestamp_bytes Ids.uuid_from zeros Commits.transact
    Commits.prepare_commit Commits.prepare_after Commits.can_audit Commits.contains
    Commits.consume_ceremony Commits.snapshot_for Commits.finish_commit Commits.finish_after lookup
authenticate_session-Live_example =
    authenticate_session-Live env config "token" world authenticated (Signing.snapshot_of session)
      (record session { digest = []; last_seen_at = 5000 }) refl

abbrev signed_out : World
signed_out = (Signing.sign_out env config "token" world).1

sign_out-IsRevoked_example : (id : Uuid) × (some 4 ≡ some id) × IsRevoked id signed_out.store
unfolding Signing.sign_out Signing.find_session Signing.reject_token_if Signing.match_token
    Signing.match_digest_ring Signing.commit_revocation Signing.perform_revocation
    Signing.transactional_commit bytes_equal Sessions.session_by_id Sessions.revoke_session
    Audits.new_audit Ids.new_id Ids.tick Ids.stamp_id Ids.timestamp_bytes Ids.uuid_from zeros
    Commits.transact Commits.prepare_commit Commits.prepare_after Commits.can_audit Commits.contains
    Commits.consume_ceremony Commits.snapshot_for Commits.finish_commit Commits.finish_after lookup
sign_out-IsRevoked_example =
    sign_out-IsRevoked env config "token" world signed_out (λ id s' e. ground arith) refl

abbrev changed : World
changed = (Changing.change_own_password env config authn "secret" "new secret" world).1

change_own_password-Replaced_example : Replaced config 1 "new secret" changed.store
unfolding Changing.change_own_password Changing.validate_password Changing.apply_policy
    Changing.rune_count Changing.check_and_replace Changing.replace_password Changing.perform_change
    StepUp.require_recent_interactive StepUp.require_active_user StepUp.is_stale Authn.interactive
    Authn.interactive_method Audits.require_unlocked Audits.refuse_locked Users.user_by_id
    Passwords.password_by_user_id Passwords.change_password Passwords.login_throttle_by_user_id
    Signing.transactional_commit Audits.new_audit Ids.new_id Ids.tick Ids.stamp_id
    Ids.timestamp_bytes Ids.uuid_from zeros Commits.transact Commits.prepare_commit
    Commits.prepare_after Commits.can_audit Commits.contains Commits.consume_ceremony
    Commits.snapshot_for Commits.finish_commit Commits.finish_after lookup
change_own_password-Replaced_example =
    change_own_password-Replaced env config authn "secret" "new secret" world changed refl

-- The world without a second factor.
abbrev single : World
single = record world { store = record store { totp = [] } }

abbrev entered : World
entered = (Entering.authenticate_password env config "dummy" (ok (user 1)) "secret" single).1

abbrev signed_in : Authentication
signed_in = record {
  user_id = 1;
  method = AuthMethod.password;
  level = 1;
  authenticated_at = 5000;
  second_factor_required = false;
  workspace_id = 0;
  scopes = [];
  credential_digest = Sessions.credential_fingerprint crypto "old";
}

authenticate_password-SignedIn_example :
    (found : User) × (ok (user 1) ≡ ok found)
    × (found.disabled ≡ false)
    × Verified config "dummy" found "secret" single.store
    × SignedIn config found signed_in entered.store
unfolding Entering.authenticate_password Entering.find_credential Entering.find_throttle
    Entering.refuse_failure Entering.refuse_while_locked Entering.complete_sign_in
    Entering.requires_second_factor Passwords.password_by_user_id
    Passwords.login_throttle_by_user_id Factors.totp_by_user_id Audits.emit_event Verifying.finalize
    Verifying.record_password_success Audits.new_audit Ids.new_id Ids.tick Ids.stamp_id
    Ids.timestamp_bytes Ids.uuid_from zeros Passwords.record_password_authentication
    Passwords.hash_differs Commits.transact Commits.prepare_commit Commits.prepare_after
    Commits.can_audit Commits.contains Commits.consume_ceremony Commits.snapshot_for
    Commits.finish_commit Commits.finish_after lookup
authenticate_password-SignedIn_example =
    authenticate_password-SignedIn env config "dummy" (ok (user 1)) "secret" signed_in single
      entered (λ n e h. absurd (cc)) refl
