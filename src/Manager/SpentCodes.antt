-- ===== src/Manager/SpentCodes.antt =====
-- What `VerifyTOTP` spends of the store: a step of the authenticator or a recovery code.
use credbound.Prelude.{
  ℕ, suc, ◌+◌, ◌≡◌, refl, ap, sym, ◌∙◌, false, Option, none, some, List, [], ◌∷◌, String, ◌⊎◌,
}
use credbound.Types.{
  Uuid, Time, Bytes, RecoveryCode, AuditEvent, AuditOutcome, Commit, Error, Result, ok, err,
}
use credbound.Store.State.{Store}
use credbound.Store.Factors.{consume_recovery_code, consume_marked, mark_used, store_used_code}
use credbound.Store.Commits.{transact}
use credbound.Store.SingleUse.{matching, codes_in}
use credbound.Store.Inversion as Committing
use credbound.Store.Inversion.{check_context-ok}
use credbound.Manager.State.{World, Env, go_on}
use credbound.Manager.Config.{Config}
use credbound.Manager.Ids.{new_id, stamped}
use credbound.Manager.Audits.{new_audit}
use credbound.Manager.Inversion.{>>=-ok}

-- One unused code of the user with the digest was in the store before, and is not after.
abbrev pub UsesOne : Uuid → Bytes → Store → Store → Type 0
UsesOne user_id digest s s' =
    matching digest (codes_in user_id s) ≡ suc (matching digest (codes_in user_id s'))

-- From the numbered call on, the digests of the text under the keys are tried in turn, and one of
-- them uses a code.
abbrev pub CodeSpent : Env → Config → Uuid → Bytes → List Bytes → ℕ → Store → Store → Type 0
CodeSpent env config user_id normalized [] n s s' = ⊥
CodeSpent env config user_id normalized (pepper ∷ peppers) n s s' =
    UsesOne user_id (config.crypto.hmac pepper normalized) (env.other_calls n s) s'
    ⊎ CodeSpent env config user_id normalized peppers (n + 1) (env.other_calls n s) s'

-- What a world gives to the next call of the store.
abbrev SameReach : {A : Type 0} → World → Result A × World → Type 0
SameReach w r = (r.1.store ≡ w.store) × (r.1.calls ≡ w.calls)

stamped-SameReach : (drawn : Result Bytes) (w : World) → SameReach w (go_on stamped (drawn, w))
stamped-SameReach (ok b) w = (refl, refl)
stamped-SameReach (err e) w = (refl, refl)

module _ (env : Env) (config : Config) where
  new_id-SameReach : (w : World) → SameReach w (new_id env w)
  unfolding new_id
  new_id-SameReach w = stamped-SameReach (env.random w.draws) _

  pub new_audit-SameReach :
      (actor : Uuid) (action resource_type resource_id : String) (workspace_id : Uuid)
      (outcome : AuditOutcome) (reason : String) (event : AuditEvent) (w v : World)
      → new_audit env config actor action resource_type resource_id workspace_id outcome reason w
        ≡ (ok event, v)
      → (v.store ≡ w.store) × (v.calls ≡ w.calls)
  unfolding new_audit
  new_audit-SameReach actor action resource_type resource_id workspace_id outcome reason event w v
        h =
      let (id, u, drawn, g) = >>=-ok {w = w} (new_id env) _ h in
      let (same, calls) = new_id-SameReach w in
      (
        sym (ap (λ r. r.1.store) g) ∙ sym (ap (λ r. r.1.store) drawn) ∙ same,
        sym (ap (λ r. r.1.calls) g) ∙ sym (ap (λ r. r.1.calls) drawn) ∙ calls,
      )

  pub consume_recovery_code-unused :
      (ctx : Option Error) (user_id : Uuid) (digest : Bytes) (at : Time) (commit : Commit)
      (s s' : Store)
      → consume_recovery_code config.crypto ctx user_id digest at commit s ≡ (ok false, s')
      → s ≡ s'
  unfolding consume_recovery_code consume_marked
  consume_recovery_code-unused ctx user_id digest at commit s s' h =
      go (mark_used digest at (codes_in user_id s)) (check_context-ok ctx _ h)
    where
      go :
          (found : Option (List RecoveryCode))
          → consume_marked config.crypto ctx found user_id at commit s ≡ (ok false, s')
          → s ≡ s'
      go none h = cc
      go (some marked) h =
          let (u, t, committed, q) =
            Committing.>>=-ok {s = s}
              (transact config.crypto commit (store_used_code user_id marked at)) _ h in
          absurd (cc)
