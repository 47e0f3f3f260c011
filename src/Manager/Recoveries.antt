-- ===== src/Manager/Recoveries.antt =====
-- The recovery code that a promotion by `VerifyTOTP` spends.
use credbound.Prelude.{
  sym, ◌+◌, ◌≡◌, refl, Bool, true, false, List, [], ◌∷◌, String, ap, subst, ◌∙◌, ◌⊎◌, inl, inr,
  if◌then◌else◌,
}
use credbound.Types.{Uuid, Bytes, AuditEvent, AuditOutcome, ok}
use credbound.Store.Factors.{consume_recovery_code}
use credbound.Store.SingleUse.{consume_recovery_code-uses_one}
use credbound.Manager.State.{World, Env, done, call, reached, plain_commit}
use credbound.Manager.Config.{Config}
use credbound.Manager.Authn.{Authentication}
use credbound.Manager.Audits.{new_audit}
use credbound.Manager.Totp.{
  normalize_recovery_code, answer_promoted, reject_code, try_peppers, verify_recovery_code,
}
use credbound.Manager.Failures.{fail_store-fails}
use credbound.Manager.Inversion.{>>=-ok, either-ok, call-ok}
use credbound.Manager.SpentCodes.{
  UsesOne, CodeSpent, new_audit-SameReach, consume_recovery_code-unused,
}
use credbound.Manager.Promotions.{IsPromotion, answer_promoted-ok, reject_code-fails}

module _ (env : Env) (config : Config) where
  tried :
      (used : Bool) (user_id : Uuid) (normalized : Bytes) (event : AuditEvent)
      (peppers : List Bytes) (v w' : World)
      → (if used then done true else try_peppers env config user_id normalized event peppers) v
        ≡ (ok true, w')
      → ((used ≡ true) × (v.store ≡ w'.store))
        ⊎ ((used ≡ false)
            × (try_peppers env config user_id normalized event peppers v ≡ (ok true, w')))
  tried true user_id normalized event peppers v w' h = inl (refl, ap (λ r. r.1.store) h)
  tried false user_id normalized event peppers v w' h = inr (refl, h)

  try_peppers-CodeSpent :
      (user_id : Uuid) (normalized : Bytes) (event : AuditEvent) (peppers : List Bytes)
      (w w' : World)
      → try_peppers env config user_id normalized event peppers w ≡ (ok true, w')
      → CodeSpent env config user_id normalized peppers w.calls w.store w'.store
  unfolding try_peppers
  try_peppers-CodeSpent user_id normalized event [] w w' h = absurd (cc)
  try_peppers-CodeSpent user_id normalized event (pepper ∷ peppers) w w' h =
      let digest = config.crypto.hmac pepper normalized in
      let at = env.clock w.clock_reads in
      let ctx = env.context_error w.calls in
      let w1 : World = record w { clock_reads = w.clock_reads + 1 } in
      elim (either-ok {w = w1}
        (call env (λ ctx.
          consume_recovery_code config.crypto ctx user_id digest at (plain_commit env event)))
        _ _ h) [
          | inr (e, u, failed, g) ↦ absurd (fail_store-fails env config _ e u w' true g)
          | inl (used, u, called, g) ↦
              let consumed : consume_recovery_code config.crypto ctx user_id digest at
                    (plain_commit env event) (reached env w)
                  ≡ (ok used, u.store) =
                call-ok env
                  (λ ctx.
                    consume_recovery_code config.crypto ctx user_id digest at
                      (plain_commit env event))
                  w1 u used called in
              elim (tried used user_id normalized event peppers u w' g) [
                | inl (is_used, same) ↦ inl (
                    subst (UsesOne user_id digest (reached env w)) same
                      (consume_recovery_code-uses_one config.crypto user_id ctx digest at
                        (plain_commit env event) (reached env w) u.store
                        (consumed ∙ ap (λ b. (ok b, u.store)) is_used)).1)
                | inr (unused, later) ↦
                    let same =
                      consume_recovery_code-unused env config ctx user_id digest at
                        (plain_commit env event) (reached env w) u.store
                        (consumed ∙ ap (λ b. (ok b, u.store)) unused) in
                    let calls : u.calls ≡ w.calls + 1 = sym (ap (λ r. r.1.calls) called) in
                    let spent = try_peppers-CodeSpent user_id normalized event peppers u w' later in
                    inr (
                      subst
                        (λ n.
                          CodeSpent env config user_id normalized peppers n (reached env w)
                            w'.store)
                        calls
                        (subst
                          (λ s. CodeSpent env config user_id normalized peppers u.calls s w'.store)
                          (sym same) spent))
              ]
        ]

  recovered :
      (used : Bool) (actor : Authentication) (v w' : World) (authn : Authentication)
      → (if used
            then answer_promoted env config actor "recovery_code.consumed"
            else reject_code env config actor.user_id)
          v
        ≡ (ok authn, w')
      → (used ≡ true) × IsPromotion actor authn × (v.store ≡ w'.store)
  recovered true actor v w' authn h =
      let (promoted, same) =
        answer_promoted-ok env config actor "recovery_code.consumed" v w' authn h in
      (refl, promoted, same)
  recovered false actor v w' authn h =
      absurd (reject_code-fails env config actor.user_id v w' authn h)

  pub verify_recovery_code-CodeSpent :
      (actor : Authentication) (raw : String) (w w' : World) (authn : Authentication)
      → verify_recovery_code env config actor raw w ≡ (ok authn, w')
      → IsPromotion actor authn
        × CodeSpent env config actor.user_id
            (normalize_recovery_code config raw)
            config.read_recovery_peppers
            w.calls
            w.store
            w'.store
  unfolding verify_recovery_code
  verify_recovery_code-CodeSpent actor raw w w' authn h =
      let normalized = normalize_recovery_code config raw in
      let peppers = config.read_recovery_peppers in
      let (event, v, audited, h1) =
        >>=-ok {w = w}
          (new_audit env config actor.user_id "auth.recovery_code" "user"
            (config.crypto.uuid_string actor.user_id) 0 AuditOutcome.succeeded "")
          _ h in
      let (kept, calls) =
        new_audit-SameReach env config actor.user_id "auth.recovery_code" "user" _ 0
          AuditOutcome.succeeded "" event w v audited in
      let (used, v1, attempted, h2) =
        >>=-ok {w = v} (try_peppers env config actor.user_id normalized event peppers) _ h1 in
      let (is_used, promoted, same) = recovered used actor v1 w' authn h2 in
      let spent =
        try_peppers-CodeSpent actor.user_id normalized event peppers v v1
          (attempted ∙ ap (λ b. (ok b, v1)) is_used) in
      (
        promoted,
        subst (λ n. CodeSpent env config actor.user_id normalized peppers n w.store w'.store) calls
            (subst (λ s. CodeSpent env config actor.user_id normalized peppers v.calls s w'.store)
              kept
              (subst (CodeSpent env config actor.user_id normalized peppers v.calls v.store) same
                spent)),
      )
