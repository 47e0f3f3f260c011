-- ===== src/Store/Kept.antt =====
-- The changes that the operations make touch neither the audit log nor the ceremonies.
use credbound.Prelude.{ℕ, Bool, true, false, List, arith}
use credbound.Types.{
  Uuid, Time, User, PasswordCredential, PasswordResetCredential, TotpFactor, RecoveryCode, Session,
  Pat, Membership, InstanceAdministrator,
}
use credbound.Store.Revocation.{
  touch_last_seen, revoke_user_credentials_locked, revoke_user_sessions_locked,
}
use credbound.Store.Users.{disable_user}
use credbound.Store.Passwords.{install_reset_password}
use credbound.Store.Factors.{use_step, store_used_code}
use credbound.Store.Sessions.{stamp_revoked, touch}
use credbound.Store.Pats.{touch_token}
use credbound.Store.Members.{put_membership, drop_membership}
use credbound.Store.Admins.{put_admin}
use credbound.Store.Effects.{KeepsAudit, Kept-refl}

pub disable_user-KeepsAudit :
    (id : Uuid) (disabled : Bool) (at : Time) (user : User)
    → KeepsAudit (disable_user id disabled at user)
unfolding disable_user revoke_user_sessions_locked revoke_user_credentials_locked
disable_user-KeepsAudit id true at user s = Kept-refl s
disable_user-KeepsAudit id false at user s = Kept-refl s

pub install_reset_password-KeepsAudit :
    (id : Uuid) (credential : PasswordResetCredential) (password : PasswordCredential) (at : Time)
    → KeepsAudit (install_reset_password id credential password at)
unfolding install_reset_password revoke_user_sessions_locked revoke_user_credentials_locked
install_reset_password-KeepsAudit id credential password at s = Kept-refl s

pub use_step-KeepsAudit :
    (id : Uuid) (factor : TotpFactor) (step : ℕ) (at : Time)
    → KeepsAudit (use_step id factor step at)
unfolding use_step touch_last_seen
use_step-KeepsAudit id factor step at s = Kept-refl s

pub store_used_code-KeepsAudit :
    (id : Uuid) (marked : List RecoveryCode) (at : Time) → KeepsAudit (store_used_code id marked at)
unfolding store_used_code touch_last_seen
store_used_code-KeepsAudit id marked at s = Kept-refl s

pub stamp_revoked-KeepsAudit :
    (id : Uuid) (session : Session) (at : Time) → KeepsAudit (stamp_revoked id session at)
unfolding stamp_revoked
stamp_revoked-KeepsAudit id session at s = ground arith

pub touch-KeepsAudit :
    (id : Uuid) (session : Session) (at : Time) → KeepsAudit (touch id session at)
unfolding touch touch_last_seen
touch-KeepsAudit id session at s = Kept-refl s

pub touch_token-KeepsAudit :
    (id : Uuid) (pat : Pat) (at : Time) → KeepsAudit (touch_token id pat at)
unfolding touch_token touch_last_seen
touch_token-KeepsAudit id pat at s = Kept-refl s

pub put_membership-KeepsAudit :
    (membership : Membership) (at : Time) → KeepsAudit (put_membership membership at)
unfolding put_membership revoke_user_credentials_locked
put_membership-KeepsAudit membership at s = ground arith

pub drop_membership-KeepsAudit :
    (workspace_id user_id : Uuid) (at : Time) → KeepsAudit (drop_membership workspace_id user_id at)
unfolding drop_membership revoke_user_credentials_locked
drop_membership-KeepsAudit workspace_id user_id at s = Kept-refl s

pub put_admin-KeepsAudit : (admin : InstanceAdministrator) → KeepsAudit (put_admin admin)
unfolding put_admin
put_admin-KeepsAudit admin s = Kept-refl s
