-- ===== src/Manager/StepUp.antt =====
-- auth.go: the step-up gates.
use credbound.Prelude.{
  ℕ, ◌+◌, Bool, true, false, not, ◌||◌, Option, none, some, [], String, lookup, ◌==◌, ltb,
  if◌then◌else◌,
}
use credbound.Types.{Uuid, Time, Error, ok, is_not_found, is_step_up_required}
use credbound.Store.State.{Store}
use credbound.Store.Users.{user_by_id}
use credbound.Store.Factors.{totp_by_user_id}
use credbound.Manager.State.{Env, Op, done, refuse, refuse_if, either, now, call, ◌>>=◌, ◌>>◌}
use credbound.Manager.Config.{Config, StepUpPolicy, StepUpScope, policy_for}
use credbound.Manager.Authn.{Authentication, interactive, aal2}
use credbound.Manager.Audits.{emit_event}

-- `age < 0 || age > maximum` for the age at a time, in whole nanoseconds.
unfoldable pub is_stale : ℕ → Time → Time → Bool
is_stale maximum at authenticated_at =
    ltb at authenticated_at || ltb (authenticated_at + maximum) at

-- `for range m.store.Passkeys(ctx, userID) { return true }`: a first passkey, or an error.
unfoldable pub first_passkey : Option Error → Uuid → Store → Bool
first_passkey (some e) user_id s = true
first_passkey none user_id s = elim (lookup user_id s.passkeys) [
  | none ↦ false
  | some keys ↦ elim keys [ [] ↦ false | _ ↦ true ]
]

unfoldable pub needs_full_step_up : StepUpPolicy → Bool → Bool
needs_full_step_up StepUpPolicy.required capable = true
needs_full_step_up StepUpPolicy.user_capable capable = capable
needs_full_step_up StepUpPolicy.none capable = false
needs_full_step_up StepUpPolicy.unset capable = false
needs_full_step_up StepUpPolicy.unknown capable = false

module _ (env : Env) (config : Config) where
  unfoldable pub require_active_user : Uuid → Op (Unit {0})
  require_active_user user_id =
      either (call env (λ ctx. user_by_id config.crypto ctx user_id))
        (λ user. refuse_if user.disabled Error.forbidden) (λ e. refuse Error.forbidden)

  unfoldable pub require_step_up : Authentication → Op (Unit {0})
  require_step_up authn = do
    refuse_if (authn.user_id == 0) Error.unauthorized
    at ← now env
    refuse_if
        (not (interactive authn)
          || (ltb authn.level aal2
              || (authn.second_factor_required
                  || is_stale config.step_up_max_age at authn.authenticated_at)))
        Error.step_up_required

  -- The end of `stepUpCapable`, after the TOTP factor.
  unfoldable pub passkey_capable : Uuid → Op Bool
  passkey_capable user_id =
      if config.has_passkeys
      then call env (λ ctx s. (ok (first_passkey ctx user_id s), s))
      else done false

  unfoldable pub step_up_capable : Uuid → Op Bool
  step_up_capable user_id =
      if user_id == 0
      then done false
      else either (call env (λ ctx. totp_by_user_id config.crypto ctx user_id))
          (λ factor. if factor.active then done true else passkey_capable user_id)
          (λ e. if is_not_found e then passkey_capable user_id else done true)

  unfoldable pub require_interactive : Authentication → Op (Unit {0})
  require_interactive authn = do
    refuse_if (authn.user_id == 0) Error.unauthorized
    refuse_if (not (interactive authn) || authn.second_factor_required) Error.step_up_required
    require_active_user authn.user_id

  unfoldable pub require_recent_interactive : Authentication → Op (Unit {0})
  require_recent_interactive authn = do
    refuse_if (authn.user_id == 0) Error.unauthorized
    at ← now env
    refuse_if
        (not (interactive authn)
          || (authn.second_factor_required
              || is_stale config.step_up_max_age at authn.authenticated_at))
        Error.step_up_required
    require_active_user authn.user_id

  -- Whether the user is capable, read under the policy that asks for it alone.
  unfoldable pub capable_under : StepUpPolicy → Uuid → Op Bool
  capable_under StepUpPolicy.user_capable user_id = step_up_capable user_id
  capable_under policy user_id = done false

  unfoldable pub require_step_up_for : Authentication → StepUpScope → Op (Unit {0})
  require_step_up_for authn scope = do
    capable ← capable_under (policy_for config.step_up scope) authn.user_id
    if needs_full_step_up (policy_for config.step_up scope) capable
        then (do require_step_up authn; require_active_user authn.user_id)
        else require_interactive authn

  -- The event of a refusal that is a demand for a step-up.
  unfoldable pub deny_step_up : Authentication → String → Error → Op (Unit {0})
  deny_step_up authn operation e = do
    if is_step_up_required e
        then emit_event env config "step_up.denied" operation authn.user_id ""
        else done tt
    refuse e

  unfoldable pub require_scoped_step_up : Authentication → StepUpScope → String → Op (Unit {0})
  require_scoped_step_up authn scope operation =
      either (require_step_up_for authn scope) (λ _. done tt) (deny_step_up authn operation)
