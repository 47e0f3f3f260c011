-- ===== src/Manager/Gates.antt =====
-- What the step-up gates ask for under every policy.
use credbound.Prelude.{
  ℕ, ◌+◌, ◌≤◌, ◌≡◌, ◌≢◌, refl, ap, sym, ◌∙◌, Bool, true, false, not, ◌||◌, Option, some, lookup,
  ◌==◌, arith, if◌then◌else◌, inl, inr,
}
use credbound.Types.{Uuid, User, Error, ok}
use credbound.Store.State.{Store}
use credbound.Store.Users.{user_by_id}
use credbound.Store.Inversion.{check_context-ok, require-end}
use credbound.Manager.State.{World, Env, call, refuse_if, reached, ◌>>=◌}
use credbound.Manager.Config.{Config, StepUpPolicy, StepUpScope, policy_for}
use credbound.Manager.Authn.{Authentication, interactive, aal2}
use credbound.Manager.StepUp.{
  require_active_user, require_step_up, require_interactive, require_step_up_for, is_stale,
  needs_full_step_up, capable_under, step_up_capable,
}
use credbound.Manager.Inversion.{refuse_if-ok, >>=-ok, refuse_if-end, either-ok, call-ok}

-- The user is in the store and enabled.
abbrev pub IsEnabled : Uuid → Store → Type 0
IsEnabled user_id s = (user : User) × (lookup user_id s.users ≡ some user) × (user.disabled ≡ false)

-- What a full step-up asks of an authentication at a time.
pub record Fresh (config : Config) (at : ℕ) (authn : Authentication) : Type 0 where
  pub identified : authn.user_id ≢ 0
  pub is_interactive : interactive authn ≡ true
  pub level : aal2 ≤ authn.level
  pub complete : authn.second_factor_required ≡ false
  pub not_future : authn.authenticated_at ≤ at
  pub recent : at ≤ authn.authenticated_at + config.step_up_max_age

-- What every policy asks of an authentication.
pub record Floor (authn : Authentication) : Type 0 where
  pub identified : authn.user_id ≢ 0
  pub is_interactive : interactive authn ≡ true
  pub complete : authn.second_factor_required ≡ false

module _ (env : Env) (config : Config) where
  pub user_by_id-ok :
      (ctx : Option Error) (user_id : Uuid) (s s' : Store) (user : User)
      → user_by_id config.crypto ctx user_id s ≡ (ok user, s')
      → (lookup user_id s.users ≡ some user) × (s ≡ s')
  unfolding user_by_id
  user_by_id-ok ctx user_id s s' user h =
      require-end (lookup user_id s.users) Error.not_found s s' user (check_context-ok ctx _ h)

  pub require_active_user-ok :
      (user_id : Uuid) (w w' : World)
      → require_active_user env config user_id w ≡ (ok tt, w')
      → IsEnabled user_id w'.store
  unfolding require_active_user
  require_active_user-ok user_id w w' h =
      elim (either-ok {w = w} (call env (λ ctx. user_by_id config.crypto ctx user_id))
        (λ user. refuse_if user.disabled Error.forbidden) _ h) [
          | inr (e, v, called, g) ↦ absurd (cc)
          | inl (user, v, called, g) ↦
              let (found, same) =
                user_by_id-ok (env.context_error w.calls) user_id (reached env w) v.store user
                  (call-ok env (λ ctx. user_by_id config.crypto ctx user_id) w v user called) in
              let (enabled, last) = refuse_if-end user.disabled Error.forbidden v w' g in
              (
                user,
                ap (λ (s : Store). lookup user_id s.users)
                      (sym (same ∙ ap (λ (x : World). x.store) last))
                    ∙ found,
                enabled,
              )
        ]

  -- When `RequireStepUp` accepts, the authentication names a user, is interactive, has level 2 at
  -- least and no pending second factor, and was made at most the maximum age before the clock
  -- reading and not after it.
  pub require_step_up-Fresh :
      (authn : Authentication) (w w' : World)
      → require_step_up env config authn w ≡ (ok tt, w')
      → Fresh config (env.clock w.clock_reads) authn
  unfolding require_step_up is_stale
  require_step_up-Fresh authn w w' h =
      let (identified, h1) = refuse_if-ok {w = w} (authn.user_id == 0) Error.unauthorized _ h in
      let (fresh, last) = refuse_if-end _ Error.step_up_required _ w' h1 in
      record {
        identified = λ e. ground arith;
        is_interactive = ground arith;
        level = ground arith;
        complete = ground arith;
        not_future = ground arith;
        recent = ground arith;
      }

  -- The gate asks for nothing else: what is fresh passes.
  pub require_step_up-passes :
      (authn : Authentication) (w : World)
      → Fresh config (env.clock w.clock_reads) authn
      → (require_step_up env config authn w).0 ≡ ok tt
  unfolding require_step_up is_stale
  require_step_up-passes authn w fresh = ground (
    arith, fresh.identified, fresh.is_interactive, fresh.level, fresh.complete, fresh.not_future,
    fresh.recent,
  )

  require_interactive-Floor :
      (authn : Authentication) (w w' : World)
      → require_interactive env config authn w ≡ (ok tt, w')
      → Floor authn × IsEnabled authn.user_id w'.store
  unfolding require_interactive
  require_interactive-Floor authn w w' h =
      let (identified, h1) = refuse_if-ok {w = w} (authn.user_id == 0) Error.unauthorized _ h in
      let (user_present, h2) =
        refuse_if-ok {w = w} (not (interactive authn) || authn.second_factor_required)
          Error.step_up_required _ h1 in
      (
        record {
          identified = λ e. ground arith;
          is_interactive = ground arith;
          complete = ground arith;
        },
        require_active_user-ok authn.user_id w w' h2,
      )

  -- When `RequireStepUpFor` accepts an authentication, under any policies, in any scope and
  -- whatever other callers do, the authentication names a user, its method is interactive (so it
  -- is no personal access token), no second factor is pending, and the store that is left has the
  -- user enabled.
  pub require_step_up_for-Floor :
      (authn : Authentication) (scope : StepUpScope) (w w' : World)
      → require_step_up_for env config authn scope w ≡ (ok tt, w')
      → Floor authn × IsEnabled authn.user_id w'.store
  unfolding require_step_up_for
  require_step_up_for-Floor authn scope w w' h =
      let (capable, v, asked, h1) =
        >>=-ok {w = w} (capable_under env config (policy_for config.step_up scope) authn.user_id) _
          h in
      go (needs_full_step_up (policy_for config.step_up scope) capable) v h1
    where
      go :
          (full : Bool) (v : World)
          → (if full
                then (require_step_up env config authn >>= λ _.
                    require_active_user env config authn.user_id)
                else require_interactive env config authn)
              v
            ≡ (ok tt, w')
          → Floor authn × IsEnabled authn.user_id w'.store
      go false v h = require_interactive-Floor authn v w' h
      go true v h =
          let (u, v', stepped, h2) = >>=-ok {w = v} (require_step_up env config authn) _ h in
          let fresh = require_step_up-Fresh authn v v' stepped in
          (
            record {
              identified = fresh.identified;
              is_interactive = fresh.is_interactive;
              complete = fresh.complete;
            },
            require_active_user-ok authn.user_id v' w' h2,
          )

  -- Suppose the policy of a scope is `user_capable` and the user is found capable of a step-up.
  -- When `RequireStepUpFor` then accepts, the authentication is fresh at the clock reading that
  -- follows: interactive, of level 2 at least, with no pending second factor, and no older than
  -- the maximum age.
  pub require_step_up_for-capable :
      (authn : Authentication) (scope : StepUpScope) (w v w' : World)
      → policy_for config.step_up scope ≡ StepUpPolicy.user_capable
      → step_up_capable env config authn.user_id w ≡ (ok true, v)
      → require_step_up_for env config authn scope w ≡ (ok tt, w')
      → Fresh config (env.clock v.clock_reads) authn
  unfolding require_step_up_for capable_under needs_full_step_up
  require_step_up_for-capable authn scope w v w' policy capable h =
      let full : require_step_up_for env config authn scope w
          ≡ (require_step_up env config authn >>= λ _. require_active_user env config authn.user_id)
              v =
        rw (policy, capable) refl in
      let h1 = sym full ∙ h in
      let (u, v', stepped, h2) = >>=-ok {w = v} (require_step_up env config authn) _ h1 in
      require_step_up-Fresh authn v v' stepped
