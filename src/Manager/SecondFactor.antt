-- ===== src/Manager/SecondFactor.antt =====
-- totp.go: `VerifyTOTP` as a whole, and what an accepted code has spent.
use credbound.Prelude.{
  lookup, sym, ℕ, ◌+◌, ◌≡◌, ◌≢◌, refl, Bool, true, false, not, ◌||◌, Option, none, some, String,
  arith, ap, subst, ◌∙◌, ◌⊎◌, inl, inr, if◌then◌else◌, ◌==◌,
}
use credbound.Types.{TotpFactor, Uuid, Bytes, Error, ok}
use credbound.Store.State.{Store}
use credbound.Store.Factors.{totp_by_user_id}
use credbound.Store.SingleUse.{StepAccepted}
use credbound.Store.Inversion.{check_context-ok, require-end}
use credbound.Manager.State.{World, Env, done, refuse, call, reached}
use credbound.Manager.Config.{Config}
use credbound.Manager.Authn.{Authentication, interactive}
use credbound.Manager.Audits.{require_unlocked}
use credbound.Manager.StepUp.{require_active_user}
use credbound.Manager.Authorize.{of_result}
use credbound.Manager.PatScopes.{trim_space}
use credbound.Manager.Sealing.{open_sealed}
use credbound.Manager.Totp.{normalize_recovery_code, active_factor, verify_code, verify_totp}
use credbound.Manager.Inversion.{>>=-ok, either-ok, call-ok, refuse_if-ok}
use credbound.Manager.SpentCodes.{CodeSpent}
use credbound.Manager.Recoveries.{verify_recovery_code-CodeSpent}
use credbound.Manager.Promotions.{IsPromotion, verify_step-ok}

-- What `VerifyTOTP` has read of the store before it looks at the code: the world in which the
-- factor is read, and the factor with its secret.
pub record FactorRead (env : Env) (config : Config) (user_id : Uuid) (w : World) : Type 0 where
  pub unlocked : World
  pub reading : World
  pub is_unlocked : require_unlocked env config user_id "auth.totp" w ≡ (ok tt, unlocked)
  pub is_enabled : require_active_user env config user_id unlocked ≡ (ok tt, reading)
  pub factor : TotpFactor
  pub found : lookup user_id (reached env reading).totp ≡ some factor
  pub active : factor.active ≡ true
  pub secret : Bytes
  pub opened : open_sealed config factor.encrypted_secret ≡ ok secret

-- What the provider answers about the code with that secret, at the clock reading that follows.
abbrev pub validated : (env : Env) (config : Config) → Bytes → String → World → Option ℕ
validated env config secret raw reading =
    config.validate_totp (trim_space raw) secret (env.clock reading.clock_reads)

-- The step is accepted, or it is no valid step and a recovery code is used, by the calls of the
-- store that follow the reading of the factor.
abbrev pub SpentAfter :
    (env : Env) (config : Config) → String → Uuid → Option ℕ → World → Store → Type 0
SpentAfter env config raw user_id answer reading s' =
    ((step : ℕ) × (answer ≡ some step)
      × StepAccepted user_id step (env.other_calls (reading.calls + 1) (reached env reading)) s')
    ⊎ ((answer ≡ none)
        × CodeSpent env config user_id (normalize_recovery_code config (trim_space raw))
            config.read_recovery_peppers (reading.calls + 1) (reached env reading) s')

-- What an accepted code has spent of the store that is left.
abbrev pub Spent : Env → Config → String → Uuid → World → Store → Type 0
Spent env config raw user_id w s' =
    (r : FactorRead env config user_id w) × SpentAfter env config raw user_id
      (validated env config r.secret raw r.reading) r.reading s'

module _ (env : Env) (config : Config) where
  taken :
      (active : Bool) (stored factor : TotpFactor) (u v' : World)
      → (if active then done stored else refuse Error.invalid_credentials) u ≡ (ok factor, v')
      → (active ≡ true) × (stored ≡ factor) × (u ≡ v')
  taken true stored factor u v' h = (refl, cc, cc)
  taken false stored factor u v' h = absurd (cc)

  active_factor-ok :
      (user_id : Uuid) (v v' : World) (factor : TotpFactor)
      → active_factor env config user_id v ≡ (ok factor, v')
      → (lookup user_id (reached env v).totp ≡ some factor)
        × (factor.active ≡ true)
        × (v' ≡ record v { store = reached env v; calls = v.calls + 1 })
  unfolding active_factor totp_by_user_id
  active_factor-ok user_id v v' factor h =
      elim (either-ok {w = v} (call env (λ ctx. totp_by_user_id config.crypto ctx user_id)) _ _ h) [
        | inr (e, u, failed, g) ↦ absurd (cc)
        | inl (stored, u, called, g) ↦
            let read : totp_by_user_id config.crypto (env.context_error v.calls) user_id
                  (reached env v)
                ≡ (ok stored, u.store) =
              call-ok env (λ ctx. totp_by_user_id config.crypto ctx user_id) v u stored called in
            let (found, same) =
              require-end (lookup user_id (reached env v).totp) Error.not_found (reached env v)
                u.store stored (check_context-ok (env.context_error v.calls) _ read) in
            let (is_active, at_once, last) = taken stored.active stored factor u v' g in
            (
              found ∙ ap some at_once,
              ap (λ (f : TotpFactor). f.active) (sym at_once) ∙ is_active,
              sym last
                  ∙ sym (ap (λ r. r.1) called)
                  ∙ ap (λ s. record v { store = s; calls = v.calls + 1 })
                      (ap (λ r. r.1) read ∙ sym same),
            )
      ]

  verify_code-SpentAfter :
      (actor : Authentication) (raw : String) (answer : Option ℕ) (reading w' : World)
      (authn : Authentication)
      → verify_code env config actor (trim_space raw) answer (record reading {
        store = reached env reading;
        calls = reading.calls + 1;
        clock_reads = reading.clock_reads + 1;
      })
        ≡ (ok authn, w')
      → IsPromotion actor authn × SpentAfter env config raw actor.user_id answer reading w'.store
  unfolding verify_code
  verify_code-SpentAfter actor raw (some step) reading w' authn h =
      let (promoted, accepted) = verify_step-ok env config actor step _ w' authn h in
      (promoted, inl (step, refl, accepted))
  verify_code-SpentAfter actor raw none reading w' authn h =
      let (promoted, spent) =
        verify_recovery_code-CodeSpent env config actor (trim_space raw) _ w' authn h in
      (promoted, inr (refl, spent))

  -- When `VerifyTOTP` answers an authentication, whatever other callers do to the store
  -- meanwhile, the actor names a user and is interactive, and the answer is of the same user and
  -- credential, of the second level, made by TOTP and complete. The store, when it was read after
  -- the checks, held an active factor of the user whose sealed secret opens. Either the provider
  -- places the code for that secret at the next clock reading at a step, which is above the
  -- factor's last used step in the store that the next call reached and is the last used step in
  -- the store that is left. Or the provider refuses the code and, under a pepper of the ring, the
  -- store that the call for that pepper reached had one more unused recovery code with the code's
  -- digest than the store that is left.
  pub verify_totp-Proved :
      (actor : Authentication) (raw : String) (w w' : World) (authn : Authentication)
      → verify_totp env config actor raw w ≡ (ok authn, w')
      → (actor.user_id ≢ 0)
        × (interactive actor ≡ true)
        × IsPromotion actor authn
        × Spent env config raw actor.user_id w w'.store
  unfolding verify_totp
  verify_totp-Proved actor raw w w' authn h =
      let (supported, h1) = refuse_if-ok {w = w} (not config.has_totp) Error.not_supported _ h in
      let (named, h2) =
        refuse_if-ok {w = w} (actor.user_id == 0 || not (interactive actor)) Error.unauthorized _
          h1 in
      let (t, v1, unlocked, h3) =
        >>=-ok {w = w} (require_unlocked env config actor.user_id "auth.totp") _ h2 in
      let (t', v2, enabled, h4) =
        >>=-ok {w = v1} (require_active_user env config actor.user_id) _ h3 in
      let (factor, v3, taken, h5) = >>=-ok {w = v2} (active_factor env config actor.user_id) _ h4 in
      let (found, active, last) = active_factor-ok actor.user_id v2 v3 factor taken in
      let (secret, v4, opened, h6) =
        >>=-ok {w = v3} (of_result (open_sealed config factor.encrypted_secret)) _ h5 in
      let same : v4 ≡ record v2 { store = reached env v2; calls = v2.calls + 1 } =
        sym (ap (λ r. r.1) opened) ∙ last in
      let (promoted, spent) =
        verify_code-SpentAfter actor raw (validated env config secret raw v2) v2 w' authn (
          subst
            (λ (v : World).
              verify_code env config actor (trim_space raw)
                (config.validate_totp (trim_space raw) secret (env.clock v.clock_reads))
                (record v { clock_reads = v.clock_reads + 1 })
              ≡ (ok authn, w'))
            same h6) in
      (
        ground arith,
        ground arith,
        promoted,
        (
          record {
            unlocked = v1;
            reading = v2;
            is_unlocked = unlocked;
            is_enabled = enabled;
            factor = factor;
            found = found;
            active = active;
            secret = secret;
            opened = ap (λ r. r.0) opened;
          },
          spent,
        ),
      )
