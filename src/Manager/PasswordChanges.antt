-- ===== src/Manager/PasswordChanges.antt =====
-- What a change of the own password leaves.
use credbound.Prelude.{◌+◌, ◌≡◌, ◌≢◌, ap, subst, true, some, lookup, inl, inr, String}
use credbound.Types.{Uuid, Time, PasswordCredential, AuditOutcome, Commit, Error, ok}
use credbound.Store.State.{Store}
use credbound.Store.Passwords.{password_by_user_id, change_password}
use credbound.Store.Revoking.{SessionsRevoked}
use credbound.Store.RevokingCalls.{change_password-SessionsRevoked}
use credbound.Manager.State.{World, Env, refuse, call, reached}
use credbound.Manager.Config.{Config}
use credbound.Manager.Authn.{Authentication}
use credbound.Manager.Audits.{
  new_audit, fail_store, require_unlocked, record_authentication_failure,
  emit_authentication_failed,
}
use credbound.Manager.Ids.{new_id}
use credbound.Manager.StepUp.{require_recent_interactive}
use credbound.Manager.Authorize.{of_result}
use credbound.Manager.Sessions.{transactional_commit}
use credbound.Manager.ChangePassword.{
  validate_password, fail_current_password, perform_change, replace_password, check_and_replace,
  change_own_password,
}
use credbound.Manager.Failures.{fail_store-fails}
use credbound.Manager.Inversion.{>>=-ok, either-ok, call-ok, if-cases}

-- The sessions of the user are revoked and the stored password is a hash of this one.
abbrev pub Replaced : Config → Uuid → String → Store → Type 0
Replaced config user_id password s =
    SessionsRevoked user_id s
    × (credential : PasswordCredential) × (lookup user_id s.passwords ≡ some credential)
    × (config.hash password ≡ ok credential.hash)

module _ (env : Env) (config : Config) where
  perform_change-Replaced :
      (user_id : Uuid) (password hash : String) (at : Time) (commit : Commit) (w w' : World)
      → config.hash password ≡ ok hash
      → perform_change env config user_id hash at commit w ≡ (ok tt, w')
      → Replaced config user_id password w'.store
  unfolding perform_change
  perform_change-Replaced user_id password hash at commit w w' hashed h =
      let credential : PasswordCredential = record {
        user_id = user_id;
        hash = hash;
        updated_at = at;
      } in
      elim (either-ok {w = w}
        (call env (λ ctx. change_password config.crypto ctx credential at commit)) _
        (fail_store env config "auth.password.change") h) [
          | inr (e, u, failed, g) ↦ absurd (fail_store-fails env config _ e u w' tt g)
          | inl (t, u, called, g) ↦
              let (revoked, stored) =
                change_password-SessionsRevoked config.crypto (env.context_error w.calls) commit
                  (reached env w) u.store credential at
                  (call-ok env (λ ctx. change_password config.crypto ctx credential at commit) w u t
                    called) in
              subst (Replaced config user_id password) (ap (λ r. r.1.store) g)
                (revoked, credential, stored, hashed)
        ]

  replace_password-Replaced :
      (user_id : Uuid) (password : String) (w w' : World)
      → replace_password env config user_id password w ≡ (ok tt, w')
      → Replaced config user_id password w'.store
  unfolding replace_password
  replace_password-Replaced user_id password w w' h =
      let (hash, v, hashed, h1) = >>=-ok {w = w} (of_result (config.hash password)) _ h in
      let v1 : World = record v { clock_reads = v.clock_reads + 1 } in
      let (event, v2, audited, h2) =
        >>=-ok {w = v1}
          (new_audit env config user_id "password.change" "user" (config.crypto.uuid_string user_id)
            0 AuditOutcome.succeeded "")
          _ h1 in
      let (meta, v3, drawn, h3) = >>=-ok {w = v2} (new_id env) _ h2 in
      let v4 : World = record v3 { clock_reads = v3.clock_reads + 1 } in
      let (session_meta, v5, drawn', h4) = >>=-ok {w = v4} (new_id env) _ h3 in
      let v6 : World = record v5 { clock_reads = v5.clock_reads + 1 } in
      let (commit, v7, made, h5) = >>=-ok {w = v6} (transactional_commit env config event) _ h4 in
      perform_change-Replaced user_id password hash (env.clock v.clock_reads) commit v7 w'
        (ap (λ r. r.0) hashed) h5

  fail_current_password-fails :
      (user_id : Uuid) (w w' : World) → fail_current_password env config user_id w ≢ (ok tt, w')
  unfolding fail_current_password
  fail_current_password-fails user_id w w' h =
      let (event, v, recorded, h1) =
        >>=-ok {w = w} (record_authentication_failure env config user_id "password.change" true) _
          h in
      let (u, v1, reported, h2) =
        >>=-ok {w = v}
          (emit_authentication_failed env config "auth.password.change" user_id
            "invalid_credentials")
          _ h1 in
      absurd (cc)

  check_and_replace-Replaced :
      (actor : Authentication) (current password : String) (w w' : World)
      → check_and_replace env config actor current password w ≡ (ok tt, w')
      → Replaced config actor.user_id password w'.store
  unfolding check_and_replace
  check_and_replace-Replaced actor current password w w' h =
      elim (either-ok {w = w}
        (call env (λ ctx. password_by_user_id config.crypto ctx actor.user_id)) _
        (λ e. refuse Error.invalid_credentials) h) [
          | inr (e, u, failed, g) ↦ absurd (cc)
          | inl (credential, u, called, g) ↦
              let ((matches, outdated), v, verified, k) =
                >>=-ok {w = u} (of_result (config.verify current credential.hash)) _ g in
              elim (if-cases matches (replace_password env config actor.user_id password)
                (fail_current_password env config actor.user_id) v _ k) [
                  | inl replaced ↦ replace_password-Replaced actor.user_id password v w' replaced
                  | inr failed ↦ absurd (fail_current_password-fails actor.user_id v w' failed)
                ]
        ]

  -- When a change of the own password succeeds, whatever other callers do between its store
  -- calls, the store that is left has every session of the user revoked and holds as the user's
  -- password the hash of the new one.
  pub change_own_password-Replaced :
      (actor : Authentication) (current password : String) (w w' : World)
      → change_own_password env config actor current password w ≡ (ok tt, w')
      → Replaced config actor.user_id password w'.store
  unfolding change_own_password
  change_own_password-Replaced actor current password w w' h =
      let (t, v, recent, h1) = >>=-ok {w = w} (require_recent_interactive env config actor) _ h in
      let (t1, v1, unlocked, h2) =
        >>=-ok {w = v} (require_unlocked env config actor.user_id "password.change") _ h1 in
      let (t2, v2, valid, h3) = >>=-ok {w = v1} (validate_password env config password) _ h2 in
      check_and_replace-Replaced actor current password v2 w' h3
