-- ===== src/Store/RevokingCalls.antt =====
-- The operations that end what a user holds: a password change, a password reset, a disabling, the
-- reset of the second factor, and the revocations.
use credbound.Prelude.{
  ◌≡◌, refl, true, false, ◌&&◌, Option, none, some, lookup, lookup-inserted, is_some, Bool-cases,
  inl, inr,
}
use credbound.Types.{Uuid, Time, Session, Crypto, Commit, Error, ok, PasswordCredential}
use credbound.Store.State.{Store}
use credbound.Store.Revocation.{revoke_user_credentials_locked, revoke_user_sessions_locked}
use credbound.Store.Users.{set_user_disabled, disable_user, disable_is_refused, is_enabled}
use credbound.Store.Passwords.{change_password, complete_password_reset, install_reset_password}
use credbound.Store.Pats.{revoke_user_credentials}
use credbound.Store.Sessions.{revoke_session, stamp_revoked}
use credbound.Store.Factors.{reset_second_factor}
use credbound.Store.Inversion.{check_context-ok, require-ok, fail_if-ok, transact-elim}
use credbound.Store.Revoking.{
  SessionsRevoked, CredentialsRevoked, kept_credentials, lookup-erased,
  revoke_user_sessions_locked-SessionsRevoked,
}

-- The state after a successful call, with the maps that its change leaves.
module _ (crypto : Crypto) (ctx : Option Error) (commit : Commit) (s s' : Store) where
  -- After a successful `ChangePassword` every session of the user is revoked and the password is
  -- the stored one.
  pub change_password-SessionsRevoked :
      (password : PasswordCredential) (at : Time)
      → change_password crypto ctx password at commit s ≡ (ok tt, s')
      → SessionsRevoked password.user_id s' × (lookup password.user_id s'.passwords ≡ some password)
  unfolding change_password
  change_password-SessionsRevoked password at h =
      let h1 = check_context-ok ctx _ h in
      let (current, found, h2) =
        require-ok {s = s} (lookup password.user_id s.passwords) Error.not_found _ h1 in
      transact-elim crypto commit _
        (λ t.
          SessionsRevoked password.user_id t
          × (lookup password.user_id t.passwords ≡ some password))
        s s' h2
        λ c audits ids sequence head. (
          revoke_user_sessions_locked-SessionsRevoked password.user_id at _,
          unfold revoke_user_sessions_locked in lookup-inserted _ _ s.passwords,
        )

  -- After a successful `RevokeUserCredentials` every session, personal access token, OAuth grant,
  -- access token and refresh token of the user is revoked.
  pub revoke_user_credentials-revokes :
      (user_id : Uuid) (at : Time)
      → revoke_user_credentials crypto ctx user_id at commit s ≡ (ok tt, s')
      → SessionsRevoked user_id s' × CredentialsRevoked user_id s'
  unfolding revoke_user_credentials
  revoke_user_credentials-revokes user_id at h =
      let h1 = check_context-ok ctx _ h in
      let (user, found, h2) = require-ok {s = s} (lookup user_id s.users) Error.not_found _ h1 in
      transact-elim crypto commit _ (λ t. SessionsRevoked user_id t × CredentialsRevoked user_id t)
        s s' h2
        λ c audits ids sequence head. (
          revoke_user_sessions_locked-SessionsRevoked user_id at _,
          unfold revoke_user_sessions_locked in kept_credentials user_id at _ _ refl refl refl refl,
        )

  -- After a successful `ResetSecondFactor` every session of the user is revoked and the user has
  -- no TOTP factor, no recovery codes and no passkeys.
  pub reset_second_factor-revokes :
      (user_id : Uuid) (at : Time)
      → reset_second_factor crypto ctx user_id at commit s ≡ (ok tt, s')
      → SessionsRevoked user_id s'
        × (lookup user_id s'.totp ≡ none)
        × (lookup user_id s'.recovery ≡ none)
        × (lookup user_id s'.passkeys ≡ none)
  unfolding reset_second_factor
  reset_second_factor-revokes user_id at h =
      let h1 = check_context-ok ctx _ h in
      let (user, found, h2) = require-ok {s = s} (lookup user_id s.users) Error.not_found _ h1 in
      transact-elim crypto commit _
        (λ t.
          SessionsRevoked user_id t
          × (lookup user_id t.totp ≡ none)
          × (lookup user_id t.recovery ≡ none)
          × (lookup user_id t.passkeys ≡ none))
        s s' h2
        λ c audits ids sequence head. (
          revoke_user_sessions_locked-SessionsRevoked user_id at _,
          unfold revoke_user_sessions_locked in lookup-erased user_id s.totp,
          unfold revoke_user_sessions_locked in lookup-erased user_id s.recovery,
          unfold revoke_user_sessions_locked in lookup-erased user_id s.passkeys,
        )

  -- After a successful disabling of a user every session, personal access token, OAuth grant,
  -- access token and refresh token of the user is revoked and the user is not enabled.
  pub set_user_disabled-revokes :
      (user_id : Uuid) (at : Time)
      → set_user_disabled crypto ctx user_id true at commit s ≡ (ok tt, s')
      → SessionsRevoked user_id s'
        × CredentialsRevoked user_id s'
        × (is_enabled s'.users user_id ≡ false)
  unfolding set_user_disabled
  set_user_disabled-revokes user_id at h =
      let h1 = check_context-ok ctx _ h in
      let (user, found, h2) = require-ok {s = s} (lookup user_id s.users) Error.not_found _ h1 in
      let (allowed, h3) =
        fail_if-ok {s = s} (true && disable_is_refused user_id s) Error.conflict _ h2 in
      transact-elim crypto commit _
        (λ t.
          SessionsRevoked user_id t
          × CredentialsRevoked user_id t
          × (is_enabled t.users user_id ≡ false))
        s s' h3
        λ c audits ids sequence head. (
          unfold disable_user in revoke_user_sessions_locked-SessionsRevoked user_id at _,
          unfold disable_user revoke_user_sessions_locked in
              kept_credentials user_id at _ _ refl refl refl refl,
          unfold disable_user revoke_user_sessions_locked revoke_user_credentials_locked
                is_enabled in
              rw
                (lookup-inserted user_id (record user { disabled = true; updated_at = at }) s.users)
                refl,
        )

  -- After a successful `CompletePasswordReset` every session, personal access token, OAuth grant,
  -- access token and refresh token of the password's user is revoked, the password is the stored
  -- one and the user has no login throttle.
  pub complete_password_reset-revokes :
      (reset_id : Uuid) (password : PasswordCredential) (at : Time)
      → complete_password_reset crypto ctx reset_id password at commit s ≡ (ok tt, s')
      → SessionsRevoked password.user_id s'
        × CredentialsRevoked password.user_id s'
        × (lookup password.user_id s'.passwords ≡ some password)
        × (lookup password.user_id s'.throttles ≡ none)
  unfolding complete_password_reset
  complete_password_reset-revokes reset_id password at h =
      let h1 = check_context-ok ctx _ h in
      let (credential, found, h2) =
        require-ok {s = s} (lookup reset_id s.password_resets) Error.not_found _ h1 in
      let (unused, h3) = fail_if-ok {s = s} (is_some credential.used_at) Error.conflict _ h2 in
      let (user, owner, h4) =
        require-ok {s = s} (lookup password.user_id s.users) Error.not_found _ h3 in
      transact-elim crypto commit _
        (λ t.
          SessionsRevoked password.user_id t
          × CredentialsRevoked password.user_id t
          × (lookup password.user_id t.passwords ≡ some password)
          × (lookup password.user_id t.throttles ≡ none))
        s s' h4
        λ c audits ids sequence head. (
          unfold install_reset_password in
              revoke_user_sessions_locked-SessionsRevoked password.user_id at _,
          unfold install_reset_password revoke_user_sessions_locked in
              kept_credentials password.user_id at _ _ refl refl refl refl,
          unfold install_reset_password revoke_user_sessions_locked
                revoke_user_credentials_locked in
              lookup-inserted _ _ s.passwords,
          unfold install_reset_password in lookup-erased password.user_id _,
        )

-- The session under a key is there and revoked.
abbrev pub IsRevoked : Uuid → Store → Type 0
IsRevoked id s =
    (session : Session) × (lookup id s.sessions ≡ some session)
    × (is_some session.revoked_at ≡ true)

module _ (crypto : Crypto) (ctx : Option Error) (commit : Commit) (s s' : Store) where
  -- After a successful `RevokeSession` the store holds the session under its identifier, revoked,
  -- whether or not it was revoked before.
  pub revoke_session-IsRevoked :
      (id : Uuid) (at : Time)
      → revoke_session crypto ctx id at commit s ≡ (ok tt, s')
      → IsRevoked id s'
  unfolding revoke_session
  revoke_session-IsRevoked id at h =
      let h1 = check_context-ok ctx _ h in
      let (session, found, h2) = require-ok {s = s} (lookup id s.sessions) Error.not_found _ h1 in
      transact-elim crypto commit (stamp_revoked id session at) (IsRevoked id) s s' h2
        λ c audits ids sequence head.
          unfold stamp_revoked in
          elim (Bool-cases (is_some session.revoked_at)) [
            | inl revoked ↦ rw revoked (session, found, revoked)
            | inr live ↦ rw live (_, lookup-inserted id _ s.sessions, refl)
          ]
