-- ===== src/Manager/Capable.antt =====
-- What `RequireStepUpFor` asks of a user who has a second factor, under the policy `user_capable`.
use credbound.Prelude.{
  ◌+◌, ◌≡◌, refl, ap, subst, true, false, Option, none, some, Map, ◌∷◌, lookup, ◌==◌, arith,
  Bool-cases, inl, inr,
}
use credbound.Types.{Uuid, TotpFactor, Passkey, Error, ok, is_not_found}
use credbound.Store.State.{Store}
use credbound.Store.Factors.{totp_by_user_id}
use credbound.Manager.State.{World, Env, reached}
use credbound.Manager.Config.{Config, StepUpPolicy, StepUpScope, policy_for}
use credbound.Manager.Authn.{Authentication}
use credbound.Manager.StepUp.{require_step_up_for, step_up_capable, passkey_capable, first_passkey}
use credbound.Manager.Gates.{Fresh, require_step_up_for-Floor, require_step_up_for-capable}

-- The store has a second factor of the user when it is read: at the next call an active TOTP
-- factor, or at the call after that a passkey. A factor that cannot be read counts.
pub data HasFactor (env : Env) (config : Config) (user_id : Uuid) (w : World) : Type 0 where
  active_factor :
      (factor : TotpFactor)
      → env.context_error w.calls ≡ none
      → lookup user_id (reached env w).totp ≡ some factor
      → factor.active ≡ true
      → HasFactor env config user_id w
  unreadable_factor :
      (e : Error)
      → env.context_error w.calls ≡ some e
      → is_not_found e ≡ false
      → HasFactor env config user_id w
  passkey :
      (key : Uuid × Passkey) (keys : Map Passkey)
      → config.has_passkeys ≡ true
      → env.context_error (w.calls + 1) ≡ none
      → lookup user_id (env.other_calls (w.calls + 1) (reached env w)).passkeys ≡ some (key ∷ keys)
      → HasFactor env config user_id w
  unreadable_passkeys :
      (e : Error)
      → config.has_passkeys ≡ true
      → env.context_error (w.calls + 1) ≡ some e
      → HasFactor env config user_id w

first_passkey-true :
    (user_id : Uuid) (s : Store) (key : Uuid × Passkey) (keys : Map Passkey)
    → lookup user_id s.passkeys ≡ some (key ∷ keys)
    → first_passkey none user_id s ≡ true
unfolding first_passkey
first_passkey-true user_id s key keys found = rw (first_passkey, found) refl

module _ (env : Env) (config : Config) (user_id : Uuid) (w : World) where
  -- The answer that the user is capable, with no reading of the clock.
  abbrev IsCapable : Type 0
  IsCapable =
      (v : World) × (step_up_capable env config user_id w ≡ (ok true, v))
      × (v.clock_reads ≡ w.clock_reads)

  -- The world after the call that reads the TOTP factor.
  abbrev after_factor : World
  after_factor = record w { store = reached env w; calls = w.calls + 1 }

  abbrev after_passkeys : World
  after_passkeys = record after_factor {
    store = env.other_calls (w.calls + 1) (reached env w);
    calls = w.calls + 1 + 1;
  }

  -- Whatever the TOTP factor is, a passkey makes the user capable.
  by_passkey :
      (v : World)
      → user_id == 0 ≡ false
      → passkey_capable env config user_id after_factor ≡ (ok true, v)
      → v.clock_reads ≡ w.clock_reads
      → IsCapable
  unfolding step_up_capable totp_by_user_id
  by_passkey v named capable unread =
      go (env.context_error w.calls) (lookup user_id (reached env w).totp) refl refl
    where
      go :
          (failed : Option Error) (found : Option TotpFactor)
          → env.context_error w.calls ≡ failed
          → lookup user_id (reached env w).totp ≡ found
          → IsCapable
      go (some e) found failed read = elim (Bool-cases (is_not_found e)) [
        | inl missing ↦ (v, rw (named, failed, missing) capable, unread)
        | inr other ↦ (after_factor, rw (named, failed, other) refl, refl)
      ]
      go none none failed read = (v, rw (named, failed, read) capable, unread)
      go none (some factor) failed read = elim (Bool-cases factor.active) [
        | inl active ↦ (after_factor, rw (named, failed, read, active) refl, refl)
        | inr inactive ↦ (v, rw (named, failed, read, inactive) capable, unread)
      ]

  HasFactor-IsCapable : user_id == 0 ≡ false → HasFactor env config user_id w → IsCapable
  unfolding step_up_capable totp_by_user_id passkey_capable first_passkey
  HasFactor-IsCapable named (HasFactor.active_factor factor readable found active) =
      (after_factor, rw (named, readable, found, active) refl, refl)
  HasFactor-IsCapable named (HasFactor.unreadable_factor e failed other) =
      (after_factor, rw (named, failed, other) refl, refl)
  HasFactor-IsCapable named (HasFactor.passkey key keys supported readable found) =
      by_passkey after_passkeys named
        (rw (supported, readable)
          (ap (λ b. (ok b, after_passkeys))
            (first_passkey-true user_id (reached env after_factor) key keys found)))
        refl
  HasFactor-IsCapable named (HasFactor.unreadable_passkeys e supported failed) =
      by_passkey after_passkeys named (rw (supported, failed) refl) refl

module _ (env : Env) (config : Config) where
  -- Suppose the policy of a scope is `user_capable`, and the user has a second factor: the store
  -- has an active TOTP factor when the next call reads it, or a passkey at the call after that
  -- where passkeys are configured, or the factor or the passkeys cannot be read for an error of
  -- the context, for the factor one that is not of a missing record. When `RequireStepUpFor` then
  -- accepts, the authentication is fresh at the clock reading that follows: interactive, of level
  -- 2 at least, with no pending second factor, and no older than the maximum age.
  pub require_step_up_for-has_factor :
      (authn : Authentication) (scope : StepUpScope) (w w' : World)
      → policy_for config.step_up scope ≡ StepUpPolicy.user_capable
      → HasFactor env config authn.user_id w
      → require_step_up_for env config authn scope w ≡ (ok tt, w')
      → Fresh config (env.clock w.clock_reads) authn
  require_step_up_for-has_factor authn scope w w' policy has h =
      let floor = (require_step_up_for-Floor env config authn scope w w' h).0 in
      let (v, capable, unread) =
        HasFactor-IsCapable env config authn.user_id w (ground (arith, floor.identified)) has in
      subst (λ n. Fresh config (env.clock n) authn) unread
        (require_step_up_for-capable env config authn scope w v w' policy capable h)
