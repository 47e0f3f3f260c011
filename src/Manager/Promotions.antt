-- ===== src/Manager/Promotions.antt =====
-- What a promotion by `VerifyTOTP` is, and the code of an authenticator that it rests on.
use credbound.Prelude.{
  ℕ, ◌+◌, ◌≡◌, ◌≢◌, refl, Bool, true, false, [], String, ap, sym, subst, ◌∙◌, inl, inr,
  if◌then◌else◌,
}
use credbound.Types.{Uuid, AuthMethod, AuditOutcome, ok}
use credbound.Store.Factors.{use_totp}
use credbound.Store.SingleUse.{StepAccepted, use_totp-StepAccepted}
use credbound.Manager.State.{World, Env, call, reached, plain_commit}
use credbound.Manager.Config.{Config}
use credbound.Manager.Authn.{Authentication, aal2}
use credbound.Manager.Audits.{
  new_audit, record_authentication_audit, record_authentication_failure, emit_event,
  emit_authentication_failed,
}
use credbound.Manager.Totp.{promote_totp, answer_promoted, reject_replay, reject_code, verify_step}
use credbound.Manager.Failures.{fail_store-fails}
use credbound.Manager.SignInLookups.{done-ok, emit_event-Untouched}
use credbound.Manager.Inversion.{>>=-ok, either-ok, call-ok}
use credbound.Manager.SpentCodes.{new_audit-SameReach}

-- The promotion of an authentication.
pub record IsPromotion (actor authn : Authentication) : Type 0 where
  pub same_user : authn.user_id ≡ actor.user_id
  pub by_totp : authn.method ≡ AuthMethod.totp
  pub second_level : authn.level ≡ aal2
  pub complete : authn.second_factor_required ≡ false
  pub same_credential : authn.credential_digest ≡ actor.credential_digest

module _ (env : Env) (config : Config) where
  pub answer_promoted-ok :
      (actor : Authentication) (name : String) (v w' : World) (authn : Authentication)
      → answer_promoted env config actor name v ≡ (ok authn, w')
      → IsPromotion actor authn × (v.store ≡ w'.store)
  unfolding answer_promoted promote_totp
  answer_promoted-ok actor name v w' authn h =
      let v1 : World = record v { clock_reads = v.clock_reads + 1 } in
      let promoted : Authentication = record {
        user_id = actor.user_id;
        method = AuthMethod.totp;
        level = aal2;
        authenticated_at = env.clock v.clock_reads;
        second_factor_required = false;
        workspace_id = 0;
        scopes = [];
        credential_digest = actor.credential_digest;
      } in
      let (t, v2, told, h1) =
        >>=-ok {w = v1} (emit_event env config name "auth.totp.verify" actor.user_id "") _ h in
      let (t', v3, told', h2) =
        >>=-ok {w = v2}
          (emit_event env config "authentication.succeeded" "auth.totp.verify" actor.user_id "") _
          h1 in
      let (made, kept) = done-ok promoted authn v3 w' h2 in
      (
        subst (IsPromotion actor) made (record {
          same_user = refl;
          by_totp = refl;
          second_level = refl;
          complete = refl;
          same_credential = refl;
        }),
        sym (emit_event-Untouched env config name _ actor.user_id "" v1 v2 told)
            ∙ sym (emit_event-Untouched env config _ _ actor.user_id "" v2 v3 told')
            ∙ kept,
      )

  reject_replay-fails :
      {A : Type 0} (user_id : Uuid) (w w' : World) (a : A)
      → reject_replay env config user_id w ≢ (ok a, w')
  unfolding reject_replay
  reject_replay-fails user_id w w' a h =
      let (event, v, audited, h1) =
        >>=-ok {w = w}
          (record_authentication_audit env config user_id "auth.totp" AuditOutcome.failed
            "invalid_credentials")
          _ h in
      let (t, v1, told, h2) =
        >>=-ok {w = v} (emit_event env config "totp.replay_rejected" "auth.totp.verify" user_id "")
          _ h1 in
      let (t', v2, told', h3) =
        >>=-ok {w = v1}
          (emit_authentication_failed env config "auth.totp.verify" user_id "invalid_credentials") _
          h2 in
      absurd (cc)

  pub reject_code-fails :
      {A : Type 0} (user_id : Uuid) (w w' : World) (a : A)
      → reject_code env config user_id w ≢ (ok a, w')
  unfolding reject_code
  reject_code-fails user_id w w' a h =
      let (event, v, audited, h1) =
        >>=-ok {w = w} (record_authentication_failure env config user_id "auth.totp" true) _ h in
      let (t, v1, told, h2) =
        >>=-ok {w = v}
          (emit_authentication_failed env config "auth.totp.verify" user_id "invalid_credentials") _
          h1 in
      absurd (cc)

  used-ok :
      (used : Bool) (actor : Authentication) (v w' : World) (authn : Authentication)
      → (if used
            then answer_promoted env config actor "totp.verified"
            else reject_replay env config actor.user_id)
          v
        ≡ (ok authn, w')
      → (used ≡ true) × IsPromotion actor authn × (v.store ≡ w'.store)
  used-ok true actor v w' authn h =
      let (promoted, same) = answer_promoted-ok actor "totp.verified" v w' authn h in
      (refl, promoted, same)
  used-ok false actor v w' authn h = absurd (reject_replay-fails actor.user_id v w' authn h)

  pub verify_step-ok :
      (actor : Authentication) (step : ℕ) (w w' : World) (authn : Authentication)
      → verify_step env config actor step w ≡ (ok authn, w')
      → IsPromotion actor authn × StepAccepted actor.user_id step (reached env w) w'.store
  unfolding verify_step
  verify_step-ok actor step w w' authn h =
      let (event, v, audited, h1) =
        >>=-ok {w = w}
          (new_audit env config actor.user_id "auth.totp" "user"
            (config.crypto.uuid_string actor.user_id) 0 AuditOutcome.succeeded "")
          _ h in
      elim (either-ok {w = v}
        (call env (λ ctx. use_totp config.crypto ctx actor.user_id step (plain_commit env event))) _
        _ h1) [
          | inr (e, u, failed, g) ↦ absurd (fail_store-fails env config _ e u w' authn g)
          | inl (used, u, called, g) ↦
              let (is_used, promoted, same) = used-ok used actor u w' authn g in
              let accepted =
                call-ok env
                  (λ ctx. use_totp config.crypto ctx actor.user_id step (plain_commit env event)) v
                  u used called in
              let before : reached env v ≡ reached env w =
                let (kept, calls) =
                  new_audit-SameReach env config actor.user_id "auth.totp" "user" _ 0
                    AuditOutcome.succeeded "" event w v audited in
                ap (λ n. env.other_calls n v.store) calls ∙ ap (env.other_calls w.calls) kept in
              (
                promoted,
                subst (λ s. StepAccepted actor.user_id step s w'.store) before
                    (subst (StepAccepted actor.user_id step (reached env v)) same (
                      use_totp-StepAccepted config.crypto actor.user_id (env.context_error v.calls)
                        step (plain_commit env event) (reached env v) u.store
                        (accepted ∙ ap (λ b. (ok b, u.store)) is_used))),
              )
        ]
