-- ===== src/Manager/Audits.antt =====
-- auth.go and events.go: the audit events of the manager, the events that it emits, and the lockout.
use credbound.Prelude.{
  ◌+◌, ◌*◌, ◌/◌, Bool, true, false, not, ◌&&◌, ◌||◌, Option, none, some, [], String, ◌==◌, ltb,
  if◌then◌else◌, is_some,
}
use credbound.Types.{
  Uuid, Time, AuditEvent, AuditOutcome, ActorKind, Error, is_audit_unavailable, is_not_found,
}
use credbound.Store.Users.{append_audit, record_authentication}
use credbound.Store.Passwords.{record_login_failure, login_throttle_by_user_id}
use credbound.Manager.State.{
  Env, Op, done, refuse, emit, either, now, call, plain_commit, ◌>>=◌, ◌>>◌,
}
use credbound.Manager.Config.{Config}
use credbound.Manager.Ids.{new_id}

-- `AuditFailed` or `AuditSucceeded` with a reason.
abbrev pub is_succeeded : AuditOutcome → Bool
is_succeeded AuditOutcome.succeeded = true
is_succeeded AuditOutcome.failed = false

-- `throttle.LockedUntil != nil && now.Before(*throttle.LockedUntil)`
unfoldable pub is_locked_at : Time → Option Time → Bool
is_locked_at at none = false
is_locked_at at (some locked_until) = ltb at locked_until

module _ (env : Env) (config : Config) where
  unfoldable pub new_audit :
      Uuid → String → String → String → Uuid → AuditOutcome → String → Op AuditEvent
  new_audit actor action resource_type resource_id workspace_id outcome reason = do
    id ← new_id env
    at ← now env
    done (record {
      id = id;
      occurred_at = (at / 1000) * 1000;
      actor_kind = ActorKind.user;
      actor_id = actor;
      action = action;
      resource_type = resource_type;
      resource_id = resource_id;
      workspace_id = workspace_id;
      outcome = outcome;
      reason = reason;
      ip_address = env.ip_address;
      user_agent = env.user_agent;
      sequence = 0;
      previous_hash = [];
      hash = [];
    })

  -- `newEventMeta` followed by `emit`: without an identifier nothing is emitted.
  unfoldable pub emit_event : String → String → Uuid → String → Op (Unit {0})
  emit_event name operation user_id reason =
      either (new_id env)
        (λ id. do
          at ← now env
          emit (record { name = name; operation = operation; user_id = user_id; reason = reason }))
        (λ e. done tt)

  unfoldable pub emit_authentication_failed : String → Uuid → String → Op (Unit {0})
  emit_authentication_failed operation user_id reason =
      emit_event "authentication.failed" operation user_id reason

  -- `mapStoreError`, then the return of what it gives.
  unfoldable pub fail_store : {A : Type 0} → String → Error → Op A
  fail_store operation e = do
    if is_audit_unavailable e then emit_event "audit.unavailable" operation 0 "" else done tt
    refuse e

  unfoldable pub record_authentication_audit : Uuid → String → AuditOutcome → String → Op AuditEvent
  record_authentication_audit actor action outcome reason = do
    event ← new_audit actor action "user" (config.crypto.uuid_string actor) 0 outcome reason
    if is_succeeded outcome && not (actor == 0)
        then (do
          seen_at ← now env
          either
              (call env (λ ctx.
                record_authentication config.crypto ctx actor seen_at (plain_commit env event)))
              (λ _. done event) (fail_store action))
        else either (call env (λ ctx. append_audit config.crypto ctx (plain_commit env event)))
            (λ _. done event) (fail_store action)

  unfoldable pub record_authentication_failure : Uuid → String → Bool → Op AuditEvent
  record_authentication_failure user_id action count_failure =
      if not count_failure || config.max_failed_logins == 0
      then record_authentication_audit user_id action AuditOutcome.failed "invalid_credentials"
      else do
        event ←
            new_audit user_id action "user" (config.crypto.uuid_string user_id) 0
              AuditOutcome.failed "invalid_credentials"
        at ← now env
        locks_at ← now env
        either
            (call env (λ ctx.
              record_login_failure config.crypto ctx user_id at config.max_failed_logins
                (locks_at + config.lockout_duration) (plain_commit env event)))
            (λ throttle. do
              if is_some throttle.locked_until
                    && throttle.failed_attempts == config.max_failed_logins
                  then emit_event "user.locked" action user_id ""
                  else done tt
              done event)
            (fail_store action)

  -- What `requireUnlocked` does with the throttle that it read.
  unfoldable pub refuse_locked : Uuid → String → Option Time → Op (Unit {0})
  refuse_locked user_id action none = done tt
  refuse_locked user_id action (some locked_until) = do
    at ← now env
    if is_locked_at at (some locked_until)
        then (do
          event ← record_authentication_audit user_id action AuditOutcome.failed "locked"
          refuse Error.locked)
        else done tt

  unfoldable pub require_unlocked : Uuid → String → Op (Unit {0})
  require_unlocked user_id action =
      if config.max_failed_logins == 0
      then done tt
      else either (call env (λ ctx. login_throttle_by_user_id config.crypto ctx user_id))
          (λ throttle. refuse_locked user_id action throttle.locked_until)
          (λ e. if is_not_found e then done tt else refuse e)
