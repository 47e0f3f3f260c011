-- ===== src/Manager/CurrentPasswords.antt =====
-- A completed password sign-in finished against the password that the store holds.
use credbound.Prelude.{
  ℕ, zero, suc, ◌+◌, ◌≡◌, ◌≢◌, refl, ap, subst, Bool, true, false, Option, none, some, lookup,
  arith, if◌then◌else◌, inl, inr, String, eq_iff, erase,
}
use credbound.Types.{
  Uuid, Time, PasswordCredential, AuditEvent, AuditOutcome, Crypto, Commit, Error, ok, is_conflict,
}
use credbound.Store.State.{Store}
use credbound.Store.Passwords.{record_password_authentication, hash_differs}
use credbound.Store.Revocation.{touch_last_seen}
use credbound.Store.Inversion.{check_context-ok, require-ok, fail_if-ok, transact-elim}
use credbound.Manager.State.{World, Env, done, refuse, either, call, reached, plain_commit}
use credbound.Manager.Config.{Config}
use credbound.Manager.Audits.{new_audit, fail_store}
use credbound.Manager.Passwords.{
  record_password_success, confirm_password_current, fail_stale_password, finalize,
}
use credbound.Manager.Failures.{fail_store-fails, fail_stale_password-fails}
use credbound.Manager.Inversion.{>>=-ok, either-ok, call-ok, if-cases}

-- The store holds a password credential with this hash.
abbrev pub Holds : Uuid → String → Store → Type 0
Holds user_id hash s =
    (credential : PasswordCredential) × (lookup user_id s.passwords ≡ some credential)
    × (credential.hash ≡ hash)

module _ (crypto : Crypto) (ctx : Option Error) (commit : Commit) (s s' : Store) where
  record_password_authentication-Holds :
      (user_id : Uuid) (hash : String) (at : Time)
      → record_password_authentication crypto ctx user_id hash at commit s ≡ (ok tt, s')
      → Holds user_id hash s'
  unfolding record_password_authentication
  record_password_authentication-Holds user_id hash at h =
      let h1 = check_context-ok ctx _ h in
      let (user, found, h2) = require-ok {s = s} (lookup user_id s.users) Error.not_found _ h1 in
      let (current, h3) =
        fail_if-ok {s = s} (hash_differs hash (lookup user_id s.passwords)) Error.conflict _ h2 in
      transact-elim crypto commit
        (λ s.
          let s' = touch_last_seen user_id at s in
          record s' { throttles = erase user_id s'.throttles })
        (Holds user_id hash) s s' h3
        λ c audits ids sequence head.
          unfold touch_last_seen in held (lookup user_id s.passwords) refl current
    where
      held :
          (o : Option PasswordCredential)
          → lookup user_id s.passwords ≡ o
          → hash_differs hash o ≡ false
          → Holds user_id hash s
      held none e h = absurd (unfold hash_differs in cc)
      held (some credential) e h =
          (credential, e, (eq_iff credential.hash hash).0 (unfold hash_differs in ground arith))

module _ (env : Env) (config : Config) where
  failed_record :
      {A : Type 0} (conflicting : Bool) (e : Error) (w w' : World) (a : A)
      → (if conflicting then refuse Error.conflict else fail_store env config "auth.password" e) w
        ≢ (ok a, w')
  failed_record true e w w' a h = absurd (cc)
  failed_record false e w w' a h = fail_store-fails env config _ e w w' a h

  record_password_success-Holds :
      (user_id : Uuid) (hash : String) (w w' : World) (event : AuditEvent)
      → record_password_success env config user_id hash w ≡ (ok event, w')
      → Holds user_id hash w'.store
  unfolding record_password_success
  record_password_success-Holds user_id hash w w' event h =
      let (audit, v, made, h1) =
        >>=-ok {w = w}
          (new_audit env config user_id "auth.password" "user" (config.crypto.uuid_string user_id) 0
            AuditOutcome.succeeded "")
          _ h in
      let v1 : World = record v { clock_reads = v.clock_reads + 1 } in
      let at = env.clock v.clock_reads in
      elim (either-ok {w = v1}
        (call env (λ ctx.
          record_password_authentication config.crypto ctx user_id hash at
            (plain_commit env audit)))
        (λ _. done audit) _ h1) [
          | inr (e, u, failed, g) ↦ absurd (failed_record (is_conflict e) e u w' event g)
          | inl (t, u, called, g) ↦ subst (Holds user_id hash) (ap (λ r. r.1.store) g) (
              record_password_authentication-Holds config.crypto (env.context_error v1.calls)
                (plain_commit env audit) (reached env v1) u.store user_id hash at
                (call-ok env
                  (λ ctx.
                    record_password_authentication config.crypto ctx user_id hash at
                      (plain_commit env audit))
                  v1 u t called))
        ]

  finished :
      (user_id : Uuid) (hash final : String) (event : AuditEvent) (w u w' : World)
      → record_password_success env config user_id hash w ≡ (ok event, u)
      → done hash u ≡ (ok final, w')
      → Holds user_id final w'.store
  finished user_id hash final event w u w' recorded g =
      let same : hash ≡ final = cc in
      let last : u ≡ w' = cc in
      subst (λ (x : World). Holds user_id final x.store) last
        (subst (λ k. Holds user_id k u.store) same
          (record_password_success-Holds user_id hash w u event recorded))

  -- When the loop that finalizes a password sign-in succeeds, after any number of allowed retries
  -- and whatever other callers do between its store calls, the store that it leaves holds for the
  -- user a password credential with exactly the hash that the sign-in ended with.
  pub finalize-Holds :
      (retries : ℕ) (user_id : Uuid) (password hash final : String) (w w' : World)
      → finalize env config retries user_id password hash w ≡ (ok final, w')
      → Holds user_id final w'.store
  unfolding finalize
  finalize-Holds zero user_id password hash final w w' h =
      elim (either-ok {w = w} (record_password_success env config user_id hash) (λ event. done hash)
        _ h) [
          | inl (event, u, recorded, g) ↦ finished user_id hash final event w u w' recorded g
          | inr (e, u, failed, g) ↦
              elim (if-cases (is_conflict e)
                (fail_stale_password env config user_id Error.invalid_credentials) (refuse e) u _
                g) [
                  | inl stale ↦
                      absurd (fail_stale_password-fails env config user_id _ u w' final stale)
                  | inr refused ↦ absurd (cc)
                ]
        ]
  finalize-Holds (suc left) user_id password hash final w w' h =
      elim (either-ok {w = w} (record_password_success env config user_id hash) (λ event. done hash)
        _ h) [
          | inl (event, u, recorded, g) ↦ finished user_id hash final event w u w' recorded g
          | inr (e, u, failed, g) ↦
              elim (if-cases (is_conflict e)
                (either (confirm_password_current env config user_id password hash)
                  (finalize env config left user_id password)
                  (fail_stale_password env config user_id))
                (refuse e) u _ g) [
                  | inr refused ↦ absurd (cc)
                  | inl again ↦
                      elim (either-ok {w = u}
                        (confirm_password_current env config user_id password hash)
                        (finalize env config left user_id password) _ again) [
                          | inl (refreshed, v, confirmed, k) ↦
                              finalize-Holds left user_id password refreshed final v w' k
                          | inr (e', v, moved, k) ↦
                              absurd (fail_stale_password-fails env config user_id e' v w' final k)
                        ]
                ]
        ]
