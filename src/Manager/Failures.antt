-- ===== src/Manager/Failures.antt =====
-- The operations that only refuse.
use credbound.Prelude.{◌≢◌, Bool, true, false, String, if◌then◌else◌}
use credbound.Types.{Uuid, AuditOutcome, Error, ok, is_audit_unavailable, is_invalid_credentials}
use credbound.Manager.State.{World, Env, Op, done, refuse, ◌>>=◌}
use credbound.Manager.Config.{Config}
use credbound.Manager.Audits.{
  emit_event, fail_store, record_authentication_audit, emit_authentication_failed,
}
use credbound.Manager.Passwords.{fail_stale_password}
use credbound.Manager.Inversion.{>>=-ok}

module _ (env : Env) (config : Config) where
  pub fail_store-fails :
      {A : Type 0} (operation : String) (e : Error) (w w' : World) (a : A)
      → fail_store env config operation e w ≢ (ok a, w')
  unfolding fail_store
  fail_store-fails operation e w w' a h =
      let (u, v, reported, g) =
        >>=-ok {w = w}
          (if is_audit_unavailable e
            then emit_event env config "audit.unavailable" operation 0 ""
            else done tt)
          _ h in
      absurd (cc)

  pub fail_stale_password-fails :
      {A : Type 0} (user_id : Uuid) (e : Error) (w w' : World) (a : A)
      → fail_stale_password env config user_id e w ≢ (ok a, w')
  unfolding fail_stale_password
  fail_stale_password-fails {A = A} user_id e w w' a h = go (is_invalid_credentials e) h
    where
      audited : Op A
      audited =
          record_authentication_audit env config user_id "auth.password" AuditOutcome.failed
            "stale_credential"
          >>= λ event.
              emit_authentication_failed env config "auth.password.authenticate" user_id
                "stale_credential"
              >>= λ _. refuse Error.invalid_credentials

      go : (invalid : Bool) → (if invalid then audited else refuse e) w ≢ (ok a, w')
      go false h = absurd (cc)
      go true h =
          let (event, v, recorded, h1) =
            >>=-ok {w = w}
              (record_authentication_audit env config user_id "auth.password" AuditOutcome.failed
                "stale_credential")
              _ h in
          let (u, v1, reported, h2) =
            >>=-ok {w = v}
              (emit_authentication_failed env config "auth.password.authenticate" user_id
                "stale_credential")
              _ h1 in
          absurd (cc)
