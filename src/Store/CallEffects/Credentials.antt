-- ===== src/Store/CallEffects/Credentials.antt =====
-- Every operation on passwords and second factors has an effect.
use credbound.Prelude.{
  Option, ℕ, List, String, none, some, true, false, refl, lookup, is_some, not, leb,
}
use credbound.Types.{
  Uuid, Time, Bytes, PasswordCredential, PasswordResetCredential, TotpFactor, RecoveryCode, Crypto,
  Commit, Error,
}
use credbound.Store.State.{Store}
use credbound.Store.Passwords.{
  change_password, rehash_password, record_password_authentication, record_login_failure,
  create_password_reset, complete_password_reset, hash_differs, put_throttle, count_failure,
  or_zero_throttle,
}
use credbound.Store.Factors.{
  save_totp_enrollment, activate_totp, use_totp, consume_recovery_code, disable_totp,
  replace_recovery_codes, reset_second_factor, use_step, is_active_factor, consume_marked,
  mark_used, codes_of, store_used_code,
}
use credbound.Store.Commits.{transact}
use credbound.Store.Revocation.{touch_last_seen, revoke_user_sessions_locked}
use credbound.Store.Kept.{
  install_reset_password-KeepsAudit, store_used_code-KeepsAudit, use_step-KeepsAudit,
}
use credbound.Store.Effects.{
  Effect, Kept-refl, check_context-Effect, require-Effect, fail_if-Effect, if-Effect, pure-Effect,
  transact-Effect,
}

module _ (crypto : Crypto) (ctx : Option Error) (commit : Commit) (s : Store) where
  pub change_password-Effect :
      (password : PasswordCredential) (at : Time)
      → Effect crypto commit s (λ _. true) (change_password crypto ctx password at commit s)
  unfolding change_password revoke_user_sessions_locked
  change_password-Effect password at = check_context-Effect ctx _ (
      require-Effect (lookup password.user_id s.passwords) Error.not_found _
        λ current. transact-Effect crypto commit _ (λ t. Kept-refl t) s)

  pub rehash_password-Effect :
      (password : PasswordCredential) (previous : String)
      → Effect crypto commit s (λ _. true) (rehash_password crypto ctx password previous commit s)
  unfolding rehash_password
  rehash_password-Effect password previous = check_context-Effect ctx _ (
      fail_if-Effect (hash_differs previous (lookup password.user_id s.passwords)) Error.conflict _
        (transact-Effect crypto commit _ (λ t. Kept-refl t) s))

  pub record_password_authentication-Effect :
      (id : Uuid) (current : String) (at : Time)
      → Effect crypto commit s
          (λ _. true)
          (record_password_authentication crypto ctx id current at commit s)
  unfolding record_password_authentication touch_last_seen
  record_password_authentication-Effect id current at = check_context-Effect ctx _ (
      require-Effect (lookup id s.users) Error.not_found _ λ user.
        fail_if-Effect (hash_differs current (lookup id s.passwords)) Error.conflict _
          (transact-Effect crypto commit _ (λ t. Kept-refl t) s))

  pub record_login_failure-Effect :
      (id : Uuid) (at : Time) (threshold : ℕ) (until : Time)
      → Effect crypto commit s
          (λ _. true)
          (record_login_failure crypto ctx id at threshold until commit s)
  unfolding record_login_failure put_throttle
  record_login_failure-Effect id at threshold until = check_context-Effect ctx _ (
      require-Effect (lookup id s.users) Error.not_found _ λ user.
        pure-Effect
          (transact crypto commit (
            put_throttle id
              (count_failure id at threshold until (or_zero_throttle (lookup id s.throttles)))))
          _ refl
          (transact-Effect crypto commit
            (put_throttle id
              (count_failure id at threshold until (or_zero_throttle (lookup id s.throttles))))
            (λ t. Kept-refl t) s))

  pub create_password_reset-Effect :
      (credential : PasswordResetCredential)
      → Effect crypto commit s (λ _. true) (create_password_reset crypto ctx credential commit s)
  unfolding create_password_reset
  create_password_reset-Effect credential = check_context-Effect ctx _ (
      require-Effect (lookup credential.user_id s.users) Error.not_found _ λ user.
        fail_if-Effect (is_some (lookup credential.id s.password_resets)) Error.conflict _
          (transact-Effect crypto commit _ (λ t. Kept-refl t) s))

  pub complete_password_reset-Effect :
      (id : Uuid) (password : PasswordCredential) (at : Time)
      → Effect crypto commit s
          (λ _. true)
          (complete_password_reset crypto ctx id password at commit s)
  unfolding complete_password_reset
  complete_password_reset-Effect id password at = check_context-Effect ctx _ (
      require-Effect (lookup id s.password_resets) Error.not_found _ λ credential.
        fail_if-Effect (is_some credential.used_at) Error.conflict _ (
          require-Effect (lookup password.user_id s.users) Error.not_found _ λ user.
            transact-Effect crypto commit _
              (install_reset_password-KeepsAudit id credential password at) s))

  pub save_totp_enrollment-Effect :
      (factor : TotpFactor)
      → Effect crypto commit s (λ _. true) (save_totp_enrollment crypto ctx factor commit s)
  unfolding save_totp_enrollment
  save_totp_enrollment-Effect factor = check_context-Effect ctx _ (
      fail_if-Effect (is_active_factor (lookup factor.user_id s.totp)) Error.conflict _ (
        require-Effect (lookup factor.user_id s.users) Error.not_found _
          λ user. transact-Effect crypto commit _ (λ t. Kept-refl t) s))

  pub activate_totp-Effect :
      (factor : TotpFactor) (codes : List RecoveryCode)
      → Effect crypto commit s (λ _. true) (activate_totp crypto ctx factor codes commit s)
  unfolding activate_totp
  activate_totp-Effect factor codes = check_context-Effect ctx _ (
      require-Effect (lookup factor.user_id s.totp) Error.conflict _ λ existing.
        fail_if-Effect (existing.active) Error.conflict _
          (transact-Effect crypto commit _ (λ t. Kept-refl t) s))

  pub use_totp-Effect :
      (id : Uuid) (step : ℕ)
      → Effect crypto commit s (λ b. b) (use_totp crypto ctx id step commit s)
  unfolding use_totp
  use_totp-Effect id step = check_context-Effect ctx _ (
      require-Effect (lookup id s.totp) Error.not_found _ λ factor.
        fail_if-Effect (not factor.active) Error.not_found _ (
          if-Effect (leb step factor.last_used_step) _ _ (Effect.idle false refl refl) (
            pure-Effect (transact crypto commit (use_step id factor step commit.audit.occurred_at))
              true refl
              (transact-Effect crypto commit (use_step id factor step commit.audit.occurred_at)
                (use_step-KeepsAudit id factor step commit.audit.occurred_at) s))))

  consume_marked-Effect :
      (o : Option (List RecoveryCode)) (id : Uuid) (at : Time)
      → Effect crypto commit s (λ b. b) (consume_marked crypto ctx o id at commit s)
  unfolding consume_marked
  consume_marked-Effect none id at = Effect.idle false refl refl
  consume_marked-Effect (some marked) id at =
      pure-Effect (transact crypto commit (store_used_code id marked at)) true refl
        (transact-Effect crypto commit _ (store_used_code-KeepsAudit id marked at) s)

  pub consume_recovery_code-Effect :
      (id : Uuid) (digest : Bytes) (at : Time)
      → Effect crypto commit s (λ b. b) (consume_recovery_code crypto ctx id digest at commit s)
  unfolding consume_recovery_code
  consume_recovery_code-Effect id digest at =
      check_context-Effect ctx _
        (consume_marked-Effect (mark_used digest at (codes_of (lookup id s.recovery))) id at)

  pub disable_totp-Effect :
      (id : Uuid) → Effect crypto commit s (λ _. true) (disable_totp crypto ctx id commit s)
  unfolding disable_totp
  disable_totp-Effect id = check_context-Effect ctx _ (
      require-Effect (lookup id s.totp) Error.not_found _
        λ factor. transact-Effect crypto commit _ (λ t. Kept-refl t) s)

  pub replace_recovery_codes-Effect :
      (id : Uuid) (codes : List RecoveryCode)
      → Effect crypto commit s (λ _. true) (replace_recovery_codes crypto ctx id codes commit s)
  unfolding replace_recovery_codes
  replace_recovery_codes-Effect id codes = check_context-Effect ctx _ (
      fail_if-Effect (not (is_active_factor (lookup id s.totp))) Error.not_found _
        (transact-Effect crypto commit _ (λ t. Kept-refl t) s))

  pub reset_second_factor-Effect :
      (id : Uuid) (at : Time)
      → Effect crypto commit s (λ _. true) (reset_second_factor crypto ctx id at commit s)
  unfolding reset_second_factor revoke_user_sessions_locked
  reset_second_factor-Effect id at = check_context-Effect ctx _ (
      require-Effect (lookup id s.users) Error.not_found _
        λ user. transact-Effect crypto commit _ (λ t. Kept-refl t) s)
