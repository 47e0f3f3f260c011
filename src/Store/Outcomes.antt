-- ===== src/Store/Outcomes.antt =====
-- One statement over every call: what a failed call leaves, and what a successful one commits.
use credbound.Prelude.{
  Bool, true, Option, ◌≡◌, refl, ap, ◌∙◌, [], ◌∷◌, ◌++◌, Map, false, arith, ◌⊎◌, inl, inr,
}
use credbound.Types.{Time, AuditEvent, Crypto, Commit, Error, Result, ok, err}
use credbound.Store.State.{Store}
use credbound.Store.CallEffects.Accounts.{
  append_audit-Effect, set_user_disabled-Effect, record_authentication-Effect,
  upsert_membership-Effect, remove_membership-Effect, set_instance_role-Effect,
  remove_instance_role-Effect,
}
use credbound.Store.CallEffects.Credentials.{
  change_password-Effect, rehash_password-Effect, record_password_authentication-Effect,
  record_login_failure-Effect, create_password_reset-Effect, complete_password_reset-Effect,
  save_totp_enrollment-Effect, activate_totp-Effect, use_totp-Effect, consume_recovery_code-Effect,
  disable_totp-Effect, replace_recovery_codes-Effect, reset_second_factor-Effect,
}
use credbound.Store.CallEffects.Tokens.{
  create_session-Effect, touch_session-Effect, revoke_session-Effect, revoke_user_sessions-Effect,
  create_pat-Effect, touch_pat-Effect, revoke_pat-Effect, revoke_user_credentials-Effect,
}
use credbound.Store.CallEffects.Registrations.{
  create_oauth_issuer-Effect, update_oauth_issuer-Effect, set_oauth_issuer_disabled-Effect,
  create_oauth_protected_resource-Effect, set_oauth_protected_resource_disabled-Effect,
  create_oauth_client-Effect, upsert_oauth_cimd_client-Effect,
  rotate_oauth_client_credentials-Effect, set_oauth_client_disabled-Effect,
}
use credbound.Store.CallEffects.Authorization.{
  create_oauth_initial_access_token-Effect, revoke_oauth_initial_access_token-Effect,
  create_oauth_client_access_token-Effect, revoke_oauth_client_access_token-Effect,
  create_oauth_grant_and_code-Effect, revoke_oauth_grant-Effect,
  consume_oauth_authorization_code-Effect, rotate_oauth_refresh_token-Effect,
  revoke_oauth_access_token-Effect, revoke_oauth_refresh_family-Effect,
}
use credbound.Store.Commits.{commit_audit, chain_event, default_actor_kind}
use credbound.Store.Effects.{Effect, with_ceremonies, undone}
use credbound.Store.Calls.{Call, answer, run_call}

module _ {crypto : Crypto} {commit : Commit} {s : Store} where
  answer-Effect :
      {A : Type 0} (f : A → Bool) {r : Result A × Store}
      → Effect crypto commit s f r
      → Effect crypto commit s (λ b. b) (answer f r)
  answer-Effect f (Effect.rejected e c h) = Effect.rejected e c (ap (answer f) h)
  answer-Effect f (Effect.rolled_back e c h) = Effect.rolled_back e c (ap (answer f) h)
  answer-Effect f (Effect.idle a ha h) = Effect.idle (f a) ha (ap (answer f) h)
  answer-Effect f (Effect.committed a change c keeps ha h) =
      Effect.committed (f a) change c keeps ha (ap (answer f) h)

module _ (crypto : Crypto) (ctx : Option Error) (commit : Commit) where
  pub run_call-Effect :
      (call : Call) (s : Store)
      → Effect crypto commit s (λ b. b) (run_call crypto ctx commit call s)
  unfolding run_call
  run_call-Effect Call.append_audit s =
      answer-Effect (λ _. true) (append_audit-Effect crypto ctx commit s)
  run_call-Effect (Call.set_user_disabled a b c) s =
      answer-Effect (λ _. true) (set_user_disabled-Effect crypto ctx commit s a b c)
  run_call-Effect (Call.record_authentication a b) s =
      answer-Effect (λ _. true) (record_authentication-Effect crypto ctx commit s a b)
  run_call-Effect (Call.change_password a b) s =
      answer-Effect (λ _. true) (change_password-Effect crypto ctx commit s a b)
  run_call-Effect (Call.rehash_password a b) s =
      answer-Effect (λ _. true) (rehash_password-Effect crypto ctx commit s a b)
  run_call-Effect (Call.record_password_authentication a b c) s =
      answer-Effect (λ _. true) (record_password_authentication-Effect crypto ctx commit s a b c)
  run_call-Effect (Call.record_login_failure a b c d) s =
      answer-Effect (λ _. true) (record_login_failure-Effect crypto ctx commit s a b c d)
  run_call-Effect (Call.create_password_reset a) s =
      answer-Effect (λ _. true) (create_password_reset-Effect crypto ctx commit s a)
  run_call-Effect (Call.complete_password_reset a b c) s =
      answer-Effect (λ _. true) (complete_password_reset-Effect crypto ctx commit s a b c)
  run_call-Effect (Call.save_totp_enrollment a) s =
      answer-Effect (λ _. true) (save_totp_enrollment-Effect crypto ctx commit s a)
  run_call-Effect (Call.activate_totp a b) s =
      answer-Effect (λ _. true) (activate_totp-Effect crypto ctx commit s a b)
  run_call-Effect (Call.use_totp a b) s =
      answer-Effect (λ b. b) (use_totp-Effect crypto ctx commit s a b)
  run_call-Effect (Call.consume_recovery_code a b c) s =
      answer-Effect (λ b. b) (consume_recovery_code-Effect crypto ctx commit s a b c)
  run_call-Effect (Call.disable_totp a) s =
      answer-Effect (λ _. true) (disable_totp-Effect crypto ctx commit s a)
  run_call-Effect (Call.replace_recovery_codes a b) s =
      answer-Effect (λ _. true) (replace_recovery_codes-Effect crypto ctx commit s a b)
  run_call-Effect (Call.reset_second_factor a b) s =
      answer-Effect (λ _. true) (reset_second_factor-Effect crypto ctx commit s a b)
  run_call-Effect (Call.create_session a b) s =
      answer-Effect (λ _. true) (create_session-Effect crypto ctx commit s a b)
  run_call-Effect (Call.touch_session a b) s =
      answer-Effect (λ _. true) (touch_session-Effect crypto ctx commit s a b)
  run_call-Effect (Call.revoke_session a b) s =
      answer-Effect (λ _. true) (revoke_session-Effect crypto ctx commit s a b)
  run_call-Effect (Call.revoke_user_sessions a b) s =
      answer-Effect (λ _. true) (revoke_user_sessions-Effect crypto ctx commit s a b)
  run_call-Effect (Call.create_pat a) s =
      answer-Effect (λ _. true) (create_pat-Effect crypto ctx commit s a)
  run_call-Effect (Call.touch_pat a b) s =
      answer-Effect (λ _. true) (touch_pat-Effect crypto ctx commit s a b)
  run_call-Effect (Call.revoke_pat a b c) s =
      answer-Effect (λ _. true) (revoke_pat-Effect crypto ctx commit s a b c)
  run_call-Effect (Call.revoke_user_credentials a b) s =
      answer-Effect (λ _. true) (revoke_user_credentials-Effect crypto ctx commit s a b)
  run_call-Effect (Call.upsert_membership a) s =
      answer-Effect (λ _. true) (upsert_membership-Effect crypto ctx commit s a)
  run_call-Effect (Call.remove_membership a b c) s =
      answer-Effect (λ _. true) (remove_membership-Effect crypto ctx commit s a b c)
  run_call-Effect (Call.set_instance_role a) s =
      answer-Effect (λ _. true) (set_instance_role-Effect crypto ctx commit s a)
  run_call-Effect (Call.remove_instance_role a) s =
      answer-Effect (λ _. true) (remove_instance_role-Effect crypto ctx commit s a)
  run_call-Effect (Call.create_oauth_issuer a) s =
      answer-Effect (λ _. true) (create_oauth_issuer-Effect crypto ctx commit s a)
  run_call-Effect (Call.update_oauth_issuer a) s =
      answer-Effect (λ _. true) (update_oauth_issuer-Effect crypto ctx commit s a)
  run_call-Effect (Call.set_oauth_issuer_disabled a b c) s =
      answer-Effect (λ _. true) (set_oauth_issuer_disabled-Effect crypto ctx commit s a b c)
  run_call-Effect (Call.create_oauth_protected_resource a) s =
      answer-Effect (λ _. true) (create_oauth_protected_resource-Effect crypto ctx commit s a)
  run_call-Effect (Call.set_oauth_protected_resource_disabled a b c) s =
      answer-Effect (λ _. true)
        (set_oauth_protected_resource_disabled-Effect crypto ctx commit s a b c)
  run_call-Effect (Call.create_oauth_client a b c) s =
      answer-Effect (λ _. true) (create_oauth_client-Effect crypto ctx commit s a b c)
  run_call-Effect (Call.upsert_oauth_cimd_client a) s =
      answer-Effect (λ _. true) (upsert_oauth_cimd_client-Effect crypto ctx commit s a)
  run_call-Effect (Call.rotate_oauth_client_credentials a b c d e) s =
      answer-Effect (λ _. true)
        (rotate_oauth_client_credentials-Effect crypto ctx commit s a b c d e)
  run_call-Effect (Call.set_oauth_client_disabled a b c) s =
      answer-Effect (λ _. true) (set_oauth_client_disabled-Effect crypto ctx commit s a b c)
  run_call-Effect (Call.create_oauth_initial_access_token a) s =
      answer-Effect (λ _. true) (create_oauth_initial_access_token-Effect crypto ctx commit s a)
  run_call-Effect (Call.revoke_oauth_initial_access_token a b) s =
      answer-Effect (λ _. true) (revoke_oauth_initial_access_token-Effect crypto ctx commit s a b)
  run_call-Effect (Call.create_oauth_client_access_token a) s =
      answer-Effect (λ _. true) (create_oauth_client_access_token-Effect crypto ctx commit s a)
  run_call-Effect (Call.revoke_oauth_client_access_token a b) s =
      answer-Effect (λ _. true) (revoke_oauth_client_access_token-Effect crypto ctx commit s a b)
  run_call-Effect (Call.create_oauth_grant_and_code a b) s =
      answer-Effect (λ _. true) (create_oauth_grant_and_code-Effect crypto ctx commit s a b)
  run_call-Effect (Call.revoke_oauth_grant a b) s =
      answer-Effect (λ _. true) (revoke_oauth_grant-Effect crypto ctx commit s a b)
  run_call-Effect (Call.consume_oauth_authorization_code a b c d) s =
      answer-Effect (λ _. true)
        (consume_oauth_authorization_code-Effect crypto ctx commit s a b c d)
  run_call-Effect (Call.rotate_oauth_refresh_token a b c d) s =
      answer-Effect (λ _. true) (rotate_oauth_refresh_token-Effect crypto ctx commit s a b c d)
  run_call-Effect (Call.revoke_oauth_access_token a b) s =
      answer-Effect (λ _. true) (revoke_oauth_access_token-Effect crypto ctx commit s a b)
  run_call-Effect (Call.revoke_oauth_refresh_family a b) s =
      answer-Effect (λ _. true) (revoke_oauth_refresh_family-Effect crypto ctx commit s a b)

-- A new entry of the log carries what the caller asked to be audited.
pub record Records (raw e : AuditEvent) : Type 0 where
  pub id : e.id ≡ raw.id
  pub occurred_at : e.occurred_at ≡ raw.occurred_at
  pub actor_id : e.actor_id ≡ raw.actor_id
  pub action : e.action ≡ raw.action
  pub resource_id : e.resource_id ≡ raw.resource_id
  pub outcome : e.outcome ≡ raw.outcome
  pub reason : e.reason ≡ raw.reason

commit_audit-Records :
    (crypto : Crypto) (raw : AuditEvent) (unchained : Bool) (s : Store)
    → (e : AuditEvent) × ((commit_audit crypto raw unchained s).audits ≡ s.audits ++ e ∷ [])
      × Records raw e
unfolding commit_audit
commit_audit-Records crypto raw true s =
    (record raw { actor_kind = default_actor_kind raw.actor_kind }, refl, ground arith)
commit_audit-Records crypto raw false s = (
  chain_event crypto (record raw { actor_kind = default_actor_kind raw.actor_kind }) s,
  refl,
  ground arith,
)

module _ (crypto : Crypto) (ctx : Option Error) (commit : Commit) (call : Call) (s : Store) where
  -- When any of the 47 mutations returns an error, the store it leaves differs from the store
  -- before in its consumed ceremonies at most, or in them and in the index of the clients' texts,
  -- which is then empty.
  pub run_call_atomic :
      (e : Error) (s' : Store)
      → run_call crypto ctx commit call s ≡ (err e, s')
      → (c : Map Time) × ((s' ≡ with_ceremonies c s) ⊎ (s' ≡ undone c s))
  run_call_atomic e s' h = go (run_call-Effect crypto ctx commit call s)
    where
      go :
          Effect crypto commit s (λ b. b) (run_call crypto ctx commit call s)
          → (c : Map Time) × ((s' ≡ with_ceremonies c s) ⊎ (s' ≡ undone c s))
      go (Effect.rejected e' c q) = (c, inl (cc))
      go (Effect.rolled_back e' c q) = (c, inr (cc))
      go (Effect.idle a ha q) = absurd (cc)
      go (Effect.committed a change c keeps ha q) = absurd (cc)

  -- What a successful call did to the log, by its answer.
  abbrev pub Audited : Bool → Store → Type 0
  Audited true s' = (e : AuditEvent) × (s'.audits ≡ s.audits ++ e ∷ []) × Records commit.audit e
  Audited false s' = s' ≡ s

  -- When any of the 47 mutations succeeds and reports a change, it appends exactly one event to
  -- the log, with the identifier, time, actor, action, resource, outcome and reason of the
  -- commit. When it reports no change, the store is the same.
  pub run_call-Audited :
      (b : Bool) (s' : Store) → run_call crypto ctx commit call s ≡ (ok b, s') → Audited b s'
  run_call-Audited b s' h = go b h (run_call-Effect crypto ctx commit call s)
    where
      go :
          (b : Bool)
          → run_call crypto ctx commit call s ≡ (ok b, s')
          → Effect crypto commit s (λ b. b) (run_call crypto ctx commit call s)
          → Audited b s'
      go b h (Effect.rejected e c q) = absurd (cc)
      go b h (Effect.rolled_back e c q) = absurd (cc)
      go true h (Effect.idle a ha q) = absurd (cc)
      go false h (Effect.idle a ha q) = cc
      go false h (Effect.committed a change c keeps ha q) = absurd (cc)
      go true h (Effect.committed a change c keeps ha q) =
          let (e, appended, content) =
            commit_audit-Records crypto commit.audit commit.unchained
              (change (with_ceremonies c s)) in
          let final : s'
              ≡ commit_audit crypto commit.audit commit.unchained (change (with_ceremonies c s)) =
            cc in
          (
            e,
            ap (λ (t : Store). t.audits) final
                ∙ appended
                ∙ ap (λ l. l ++ e ∷ []) (keeps (with_ceremonies c s)).0,
            content,
          )
