-- ===== src/Manager/SignIns.antt =====
-- What a sign-in with a password has established.
use credbound.Prelude.{
  ℕ, Option, none, some, inl, inr, ◌+◌, ◌≡◌, ◌≢◌, refl, ap, sym, ◌∙◌, subst, Bool, true, false, not,
  ◌||◌, [], if◌then◌else◌, String,
}
use credbound.Types.{Uuid, User, AuthMethod, AuditEvent, Error, Result, ok, is_not_found}
use credbound.Store.State.{Store}
use credbound.Store.Sessions.{credential_fingerprint}
use credbound.Manager.State.{World, Env, Op, done, reached}
use credbound.Manager.Config.{Config}
use credbound.Manager.Authn.{Authentication, aal1}
use credbound.Manager.Audits.{emit_event, emit_authentication_failed}
use credbound.Manager.Passwords.{finalize}
use credbound.Manager.SignIn.{
  find_credential, rehash, requires_second_factor, finish_pending, complete_sign_in, fail_sign_in,
  refuse_failure, refuse_while_locked, authenticate_password,
}
use credbound.Manager.Authorize.{of_result}
use credbound.Manager.CurrentPasswords.{Holds, finalize-Holds}
use credbound.Manager.Inversion.{>>=-ok}
use credbound.Manager.SignInLookups.{
  emit_event-Untouched, guard-ok, accepted, done-ok, Verified, find_credential-user,
}

-- A sign-in that is complete without a second factor is bound to the password in the store.
abbrev pub BoundToPassword : Config → Authentication → Store → Type 0
BoundToPassword config authn s =
    (hash : String) × Holds authn.user_id hash s
    × (authn.credential_digest ≡ credential_fingerprint config.crypto hash)

-- What a successful sign-in has established.
pub record SignedIn (config : Config) (user : User) (authn : Authentication) (s : Store)
    : Type 0 where
  pub same : authn.user_id ≡ user.id
  pub first_level : authn.level ≡ aal1
  pub by_password : authn.method ≡ AuthMethod.password
  pub bound : authn.second_factor_required ≡ false → BoundToPassword config authn s

module _ (env : Env) (config : Config) (dummy : String) where
  completed :
      (pending : Bool) (user : User) (password current final : String) (w w' : World)
      → (if pending
            then finish_pending env config dummy user.id password current
            else finalize env config 2 user.id password current)
          w
        ≡ (ok final, w')
      → pending ≡ false
      → Holds user.id final w'.store
  completed true user password current final w w' h complete = absurd (cc)
  completed false user password current final w w' h complete =
      finalize-Holds env config 2 user.id password current final w w' h

  complete_sign_in-SignedIn :
      (user : User) (password hash : String) (outdated : Bool) (authn : Authentication)
      (w w' : World)
      → complete_sign_in env config dummy user password hash outdated w ≡ (ok authn, w')
      → SignedIn config user authn w'.store
  unfolding complete_sign_in
  complete_sign_in-SignedIn user password hash outdated authn w w' h =
      let (current, v, rehashed, h1) =
        >>=-ok {w = w}
          (if outdated then rehash env config dummy user.id password hash else done hash) _ h in
      let (pending, v1, asked, h2) =
        >>=-ok {w = v} (requires_second_factor env config dummy user.id) _ h1 in
      let (final, v2, finished, h3) =
        >>=-ok {w = v1}
          (if pending
            then finish_pending env config dummy user.id password current
            else finalize env config 2 user.id password current)
          _ h2 in
      let v3 : World = record v2 { clock_reads = v2.clock_reads + 1 } in
      let (u, v4, emitted, h4) =
        >>=-ok {w = v3}
          (emit_event env config "authentication.succeeded" "auth.password.authenticate" user.id "")
          _ h3 in
      let signed : Authentication = record {
        user_id = user.id;
        method = AuthMethod.password;
        level = aal1;
        authenticated_at = env.clock v2.clock_reads;
        second_factor_required = pending;
        workspace_id = 0;
        scopes = [];
        credential_digest = credential_fingerprint config.crypto final;
      } in
      let (made, kept) = done-ok signed authn v4 w' h4 in
      let last : v2.store ≡ w'.store =
        sym (emit_event-Untouched env config _ _ user.id "" v3 v4 emitted) ∙ kept in
      subst (λ a. SignedIn config user a w'.store) made
        (record {
          same = refl;
          first_level = refl;
          by_password = refl;
          bound = λ complete. (
            final,
            subst (Holds user.id final) last
                (completed pending user password current final v1 v2 finished complete),
            refl,
          );
        })

  fail_sign_in-fails :
      {A : Type 0} (user_id : Uuid) (reason : String) (audit : Op AuditEvent) (w w' : World) (a : A)
      → fail_sign_in env config dummy user_id reason audit w ≢ (ok a, w')
  unfolding fail_sign_in
  fail_sign_in-fails user_id reason audit w w' a h =
      let (event, v, recorded, h1) = >>=-ok {w = w} audit _ h in
      let (u, v1, emitted, h2) =
        >>=-ok {w = v}
          (emit_authentication_failed env config "auth.password.authenticate" user_id reason) _
          h1 in
      absurd (cc)

  refuse_failure-ok :
      (failure : Option Error) (w w' : World)
      → refuse_failure env config dummy failure w ≡ (ok tt, w')
      → failure ≡ none
  unfolding refuse_failure
  refuse_failure-ok none w w' h = refl
  refuse_failure-ok (some e) w w' h = absurd (cc)

  -- Suppose that the context's error is never one of a missing record. When
  -- `AuthenticatePassword` answers an authentication, whatever other callers do meanwhile, the
  -- address has given an enabled user. The password verified against the hash that the store held
  -- for the user when it was read or, only if the store then held no password for the user,
  -- against the dummy hash. The answer names that user, is of the first level and made by a
  -- password. Without a pending second factor, the store that is left holds for the user a
  -- password credential whose hash the answer's fingerprint is made from.
  pub authenticate_password-SignedIn :
      (looked_up : Result User) (password : String) (authn : Authentication) (w w' : World)
      → ((n : ℕ) (e : Error) → env.context_error n ≡ some e → is_not_found e ≡ false)
      → authenticate_password env config dummy looked_up password w ≡ (ok authn, w')
      → (user : User) × (looked_up ≡ ok user)
        × (user.disabled ≡ false)
        × Verified config dummy user password (reached env w)
        × SignedIn config user authn w'.store
  unfolding authenticate_password
  authenticate_password-SignedIn looked_up password authn w w' contexts h =
      let (found, v, read, h1) = >>=-ok {w = w} (find_credential env config dummy looked_up) _ h in
      let ((matches, outdated), v1, verified, h2) =
        >>=-ok {w = v} (of_result (config.verify password found.hash)) _ h1 in
      let (u, v2, sound, h3) =
        >>=-ok {w = v1} (refuse_failure env config dummy found.failure) _ h2 in
      let (u1, v3, unlocked, h4) =
        >>=-ok {w = v2} (refuse_while_locked env config dummy found found.throttle.locked_until) _
          h3 in
      let (passed, h5) =
        guard-ok (not found.known || (not matches || found.user.disabled)) _ _ v3 w' authn
          (fail_sign_in-fails found.user.id "invalid_credentials" _ v3 w' authn) h4 in
      let (known, matching, enabled) = accepted found.known matches found.user.disabled passed in
      let (same, compared) =
        find_credential-user env config dummy looked_up found w v read known
          (refuse_failure-ok found.failure v1 v2 sound) (contexts w.calls) in
      (
        found.user,
        same,
        enabled,
        (
          found.hash,
          outdated,
          ap (λ r. r.0) verified ∙ ap (λ b. ok (b, outdated)) matching,
          compared,
        ),
        complete_sign_in-SignedIn found.user password found.hash outdated authn v3 w' h5,
      )

  -- Suppose also that the given password does not verify against the dummy hash, which the manager
  -- makes from random bytes. Then the password of an accepted sign-in verified against the hash of
  -- the user's password in the store when it was read.
  pub authenticate_password-Holds :
      (looked_up : Result User) (password : String) (authn : Authentication) (w w' : World)
      → ((n : ℕ) (e : Error) → env.context_error n ≡ some e → is_not_found e ≡ false)
      → ((outdated : Bool) → config.verify password dummy ≢ ok (true, outdated))
      → authenticate_password env config dummy looked_up password w ≡ (ok authn, w')
      → (user : User) × (hash : String) × (outdated : Bool) × (looked_up ≡ ok user)
        × Holds user.id hash (reached env w)
        × (config.verify password hash ≡ ok (true, outdated))
  authenticate_password-Holds looked_up password authn w w' contexts refused h =
      let (user, same, enabled, (hash, outdated, verified, compared), signed) =
        authenticate_password-SignedIn looked_up password authn w w' contexts h in
      elim compared [
        | inl held ↦ (user, hash, outdated, same, held, verified)
        | inr (dummied, absent) ↦
            absurd (refused outdated (ap (config.verify password) (sym dummied) ∙ verified))
      ]
