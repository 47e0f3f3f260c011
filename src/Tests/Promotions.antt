-- ===== src/Tests/Promotions.antt =====
-- Runs of the second step of a sign-in.
use credbound.Prelude.{◌≡◌, ◌≢◌, refl, true, [], ◌∷◌, lookup, zeros}
use credbound.Types.{AuthMethod}
use credbound.Store.Commits
use credbound.Store.Users
use credbound.Store.Factors
use credbound.Store.Passwords
use credbound.Manager.State.{World}
use credbound.Manager.Authn
use credbound.Manager.Authn.{Authentication, interactive}
use credbound.Manager.Ids
use credbound.Manager.Audits
use credbound.Manager.StepUp
use credbound.Manager.Sealing
use credbound.Manager.Totp
use credbound.Manager.Promotions.{IsPromotion}
use credbound.Manager.SecondFactor.{Spent, verify_totp-Proved}
use credbound.Tests.Fixture.{env, config, world, store, authn, factor}

abbrev enrolled : World
enrolled = record world {
  store = record store { totp = (1, record factor { encrypted_secret = zeros 12 }) ∷ [] };
}

abbrev actor : Authentication
actor = record authn { method = AuthMethod.password; level = 1 }

abbrev promoted : Authentication
promoted = record actor { method = AuthMethod.totp; level = 2; authenticated_at = 5000 }

abbrev verified : World
verified = (Totp.verify_totp env config actor "123456" enrolled).1

verify_totp-Proved_example :
    (actor.user_id ≢ 0)
    × (interactive actor ≡ true)
    × IsPromotion actor promoted
    × Spent env config "123456" 1 enrolled verified.store
unfolding Totp.verify_totp Totp.active_factor Totp.verify_code Totp.verify_step Totp.answer_promoted
    Totp.promote_totp Sealing.open_sealed Sealing.open_with Sealing.split_at
    StepUp.require_active_user Authn.interactive Authn.interactive_method Audits.require_unlocked
    Passwords.login_throttle_by_user_id Factors.totp_by_user_id Factors.use_totp Users.user_by_id
    Audits.emit_event Audits.new_audit Ids.new_id Ids.tick Ids.stamp_id Ids.timestamp_bytes
    Ids.uuid_from zeros Commits.transact Commits.prepare_commit Commits.prepare_after
    Commits.can_audit Commits.contains Commits.consume_ceremony Commits.snapshot_for
    Commits.finish_commit Commits.finish_after lookup
verify_totp-Proved_example =
    verify_totp-Proved env config actor "123456" enrolled verified promoted refl
