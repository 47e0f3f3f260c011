-- ===== src/Manager/Totp.antt =====
-- totp.go: `VerifyTOTP`, the second step of a sign-in.
use Prim.Native.Char.{code}
use Prim.Native.String.{String}
use credbound.Prelude.{
  ℕ, ◌-◌, Bool, true, false, not, ◌||◌, Option, none, some, List, [], ◌∷◌, ◌++◌, ◌==◌, ltb,
  if◌then◌else◌,
}
use credbound.Types.{Uuid, Bytes, TotpFactor, AuditEvent, AuditOutcome, AuthMethod, Error}
use credbound.Audit.Encoding.{utf8_rune}
use credbound.Store.Factors.{totp_by_user_id, use_totp, consume_recovery_code}
use credbound.Manager.State.{
  Env, Op, done, refuse, refuse_if, either, now, call, plain_commit, ◌>>=◌, ◌>>◌,
}
use credbound.Manager.Config.{Config}
use credbound.Manager.Authn.{Authentication, interactive, aal2}
use credbound.Manager.Audits.{
  new_audit, record_authentication_audit, record_authentication_failure, fail_store, emit_event,
  emit_authentication_failed, require_unlocked,
}
use credbound.Manager.StepUp.{require_active_user}
use credbound.Manager.Roles.{is_lower}
use credbound.Manager.Authorize.{of_result}
use credbound.Manager.PatScopes.{trim_space}
use credbound.Manager.Sealing.{open_sealed}

-- `strings.ToUpper` of one character.
abbrev pub to_upper : Config → ℕ → ℕ
to_upper config c = if is_lower c then c - 32 else if ltb c 128 then c else config.upper_rune c

module _ (config : Config) where
  -- The bytes of a text without dashes and blanks, in upper case.
  unfoldable pub strip_and_raise : String → Bytes
  strip_and_raise String.[] = []
  strip_and_raise (String.◌∷◌ c s) =
      let rest = strip_and_raise s in
      if code c == b'-' || code c == b' '
      then rest
      else utf8_rune (to_upper config (code c)) ++ rest

  unfoldable pub normalize_recovery_code : String → Bytes
  unfolding strip_and_raise
  normalize_recovery_code raw = strip_and_raise (trim_space raw)

module _ (env : Env) (config : Config) where
  unfoldable pub active_factor : Uuid → Op TotpFactor
  active_factor user_id =
      either (call env (λ ctx. totp_by_user_id config.crypto ctx user_id))
        (λ factor. if factor.active then done factor else refuse Error.invalid_credentials)
        (λ e. refuse Error.invalid_credentials)

  unfoldable pub promote_totp : Authentication → Op Authentication
  promote_totp actor = do
    at ← now env
    done (record {
      user_id = actor.user_id;
      method = AuthMethod.totp;
      level = aal2;
      authenticated_at = at;
      second_factor_required = false;
      workspace_id = 0;
      scopes = [];
      credential_digest = actor.credential_digest;
    })

  -- The promotion with the events that report it.
  unfoldable pub answer_promoted : Authentication → String → Op Authentication
  answer_promoted actor name = do
    promoted ← promote_totp actor
    emit_event env config name "auth.totp.verify" actor.user_id ""
    emit_event env config "authentication.succeeded" "auth.totp.verify" actor.user_id ""
    done promoted

  unfoldable pub reject_replay : {A : Type 0} → Uuid → Op A
  reject_replay user_id = do
    event ←
        record_authentication_audit env config user_id "auth.totp" AuditOutcome.failed
          "invalid_credentials"
    emit_event env config "totp.replay_rejected" "auth.totp.verify" user_id ""
    emit_authentication_failed env config "auth.totp.verify" user_id "invalid_credentials"
    refuse Error.invalid_credentials

  unfoldable pub reject_code : {A : Type 0} → Uuid → Op A
  reject_code user_id = do
    event ← record_authentication_failure env config user_id "auth.totp" true
    emit_authentication_failed env config "auth.totp.verify" user_id "invalid_credentials"
    refuse Error.invalid_credentials

  -- A code that the provider has placed at a time step.
  unfoldable pub verify_step : Authentication → ℕ → Op Authentication
  verify_step actor step = do
    event ←
        new_audit env config actor.user_id "auth.totp" "user"
          (config.crypto.uuid_string actor.user_id) 0 AuditOutcome.succeeded ""
    either
        (call env (λ ctx. use_totp config.crypto ctx actor.user_id step (plain_commit env event)))
        (λ used.
          if used then answer_promoted actor "totp.verified" else reject_replay actor.user_id)
        (fail_store env config "auth.totp.verify")

  -- The loop over the peppers, with one audit event for all attempts.
  unfoldable pub try_peppers : Uuid → Bytes → AuditEvent → List Bytes → Op Bool
  try_peppers user_id normalized event [] = done false
  try_peppers user_id normalized event (pepper ∷ peppers) = do
    at ← now env
    either
        (call env (λ ctx.
          consume_recovery_code config.crypto ctx user_id (config.crypto.hmac pepper normalized) at
            (plain_commit env event)))
        (λ used. if used then done true else try_peppers user_id normalized event peppers)
        (fail_store env config "auth.totp.verify")

  unfoldable pub verify_recovery_code : Authentication → String → Op Authentication
  verify_recovery_code actor raw = do
    event ←
        new_audit env config actor.user_id "auth.recovery_code" "user"
          (config.crypto.uuid_string actor.user_id) 0 AuditOutcome.succeeded ""
    used ←
        try_peppers actor.user_id (normalize_recovery_code config raw) event
          config.read_recovery_peppers
    if used then answer_promoted actor "recovery_code.consumed" else reject_code actor.user_id

  unfoldable pub verify_code : Authentication → String → Option ℕ → Op Authentication
  verify_code actor raw (some step) = verify_step actor step
  verify_code actor raw none = verify_recovery_code actor raw

  unfoldable pub verify_totp : Authentication → String → Op Authentication
  verify_totp actor raw = do
    refuse_if (not config.has_totp) Error.not_supported
    refuse_if (actor.user_id == 0 || not (interactive actor)) Error.unauthorized
    require_unlocked env config actor.user_id "auth.totp"
    require_active_user env config actor.user_id
    factor ← active_factor actor.user_id
    secret ← of_result (open_sealed config factor.encrypted_secret)
    at ← now env
    verify_code actor (trim_space raw) (config.validate_totp (trim_space raw) secret at)
