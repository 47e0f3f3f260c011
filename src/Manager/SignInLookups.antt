-- ===== src/Manager/SignInLookups.antt =====
-- What the lookups of a sign-in with a password have found, and the steps around them.
use credbound.Prelude.{
  ◌≡◌, ◌≢◌, refl, ap, sym, subst, ◌∙◌, Bool, true, false, not, ◌||◌, Bool-cases, Option-cases,
  Option, none, some, if◌then◌else◌, inl, inr, ◌⊎◌, arith, lookup, String, ◌==◌, is_some,
}
use credbound.Types.{Uuid, Bytes, User, PasswordCredential, Error, Result, ok, err, is_not_found}
use credbound.Store.State.{Store}
use credbound.Store.Inversion.{check_context-ok, require-end}
use credbound.Store.Revocation.{zero_user}
use credbound.Store.Passwords.{password_by_user_id, login_throttle_by_user_id, zero_throttle}
use credbound.Manager.State.{World, Env, Op, done, either, go_on, call, reached}
use credbound.Manager.Config.{Config}
use credbound.Manager.Ids.{new_id, stamped}
use credbound.Manager.Audits.{emit_event}
use credbound.Manager.SignIn.{Found, with_failure, find_throttle, find_credential}
use credbound.Manager.CurrentPasswords.{Holds}
use credbound.Manager.Inversion.{either-ok, call-ok, if-cases}

-- The store is the one of the world before.
abbrev Untouched : {A : Type 0} → World → Result A × World → Type 0
Untouched w r = r.1.store ≡ w.store

stamped-Untouched : (drawn : Result Bytes) (w : World) → Untouched w (go_on stamped (drawn, w))
stamped-Untouched (ok b) w = refl
stamped-Untouched (err e) w = refl

-- The hash that a password is compared with: the one in the store, or, for a user without a
-- password, the dummy one.
abbrev pub Compared : String → User → String → Store → Type 0
Compared dummy user hash s =
    Holds user.id hash s ⊎ ((hash ≡ dummy) × (lookup user.id s.passwords ≡ none))

-- The password verified against the hash that a sign-in compares it with.
abbrev pub Verified : Config → String → User → String → Store → Type 0
Verified config dummy user password s =
    (hash : String) × (outdated : Bool) × (config.verify password hash ≡ ok (true, outdated))
    × Compared dummy user hash s

pub guard-ok :
    {A : Type 0} (test : Bool) (m n : Op A) (w w' : World) (a : A)
    → m w ≢ (ok a, w')
    → (if test then m else n) w ≡ (ok a, w')
    → (test ≡ false) × (n w ≡ (ok a, w'))
guard-ok true m n w w' a fails h = absurd (fails h)
guard-ok false m n w w' a fails h = (refl, h)

pub accepted :
    (known matches disabled : Bool)
    → not known || (not matches || disabled) ≡ false
    → (not known ≡ false) × (matches ≡ true) × (disabled ≡ false)
accepted known matches disabled h = ground arith

pub done-ok :
    {A : Type 0} (a b : A) (w w' : World) → done a w ≡ (ok b, w') → (a ≡ b) × (w.store ≡ w'.store)
done-ok a b w w' h = (cc, ap (λ r. r.1.store) h)

-- The event that follows the drawing of its identifier.
module _ (env : Env) (config : Config) where
  new_id-Untouched : (w : World) → Untouched w (new_id env w)
  unfolding new_id
  new_id-Untouched w = stamped-Untouched (env.random w.draws) _

  pub emit_event-Untouched :
      (name operation : String) (user_id : Uuid) (reason : String) (w w' : World)
      → emit_event env config name operation user_id reason w ≡ (ok tt, w')
      → w'.store ≡ w.store
  unfolding emit_event
  emit_event-Untouched name operation user_id reason w w' h =
      elim (either-ok {w = w} (new_id env) _ (λ e. done tt) h) [
        | inl (id, v, drawn, g) ↦
            sym (ap (λ r. r.1.store) g) ∙ sym (ap (λ r. r.1.store) drawn) ∙ new_id-Untouched w
        | inr (e, v, failed, g) ↦
            sym (ap (λ r. r.1.store) g) ∙ sym (ap (λ r. r.1.store) failed) ∙ new_id-Untouched w
      ]

  -- The user that the lookups keep.
  with_failure-user :
      (e : Error) (found : Found)
      → ((with_failure e found).user ≡ found.user)
        × ((with_failure e found).hash ≡ found.hash)
        × ((with_failure e found).known ≡ found.known)
  with_failure-user e found = go (is_not_found e)
    where
      go :
          (missing : Bool)
          → ((if missing then found else record found { failure = some e }).user ≡ found.user)
            × ((if missing then found else record found { failure = some e }).hash ≡ found.hash)
            × ((if missing then found else record found { failure = some e }).known ≡ found.known)
      go true = (refl, refl, refl)
      go false = (refl, refl, refl)

  find_throttle-user :
      (dummy : String) (found found' : Found) (w w' : World)
      → find_throttle env config dummy found w ≡ (ok found', w')
      → (found'.user ≡ found.user) × (found'.hash ≡ found.hash)
  unfolding find_throttle
  find_throttle-user dummy found found' w w' h =
      elim (if-cases (config.max_failed_logins == 0 || is_some found.failure) (done found) _ w _
        h) [
          | inl g ↦ (cc, cc)
          | inr g ↦
              elim (either-ok {w = w}
                (call env (λ ctx. login_throttle_by_user_id config.crypto ctx found.user.id)) _ _
                g) [
                  | inl (throttle, v, called, k) ↦ (cc, cc)
                  | inr (e, v, called, k) ↦
                      let same : with_failure e found ≡ found' = cc in
                      (
                        ap (λ (f : Found). f.user) (sym same) ∙ (with_failure-user e found).0,
                        ap (λ (f : Found). f.hash) (sym same) ∙ (with_failure-user e found).1,
                      )
                ]
        ]

  password_by_user_id-ok :
      (ctx : Option Error) (user_id : Uuid) (s s' : Store) (credential : PasswordCredential)
      → password_by_user_id config.crypto ctx user_id s ≡ (ok credential, s')
      → lookup user_id s.passwords ≡ some credential
  unfolding password_by_user_id
  password_by_user_id-ok ctx user_id s s' credential h =
      (require-end (lookup user_id s.passwords) Error.not_found s s' credential
        (check_context-ok ctx _ h)).0

  password_by_user_id-none :
      (ctx : Option Error) (user_id : Uuid) (s s' : Store) (e : Error)
      → ((e' : Error) → ctx ≡ some e' → is_not_found e' ≡ false)
      → password_by_user_id config.crypto ctx user_id s ≡ (err e, s')
      → is_not_found e ≡ true
      → lookup user_id s.passwords ≡ none
  unfolding password_by_user_id
  password_by_user_id-none (some e') user_id s s' e contexts h missing =
      let same : e' ≡ e = cc in absurd (cc (contexts e' refl, missing, same))
  password_by_user_id-none none user_id s s' e contexts h missing =
      elim (Option-cases (lookup user_id s.passwords)) [
        | inl absent ↦ absent
        | inr (credential, found) ↦ absurd (cc)
      ]

  -- The throttle is not read after a failure.
  find_throttle-skips :
      (dummy : String) (e : Error) (found : Found) (w : World)
      → find_throttle env config dummy (record found { failure = some e }) w
        ≡ (ok (record found { failure = some e }), w)
  unfolding find_throttle
  find_throttle-skips dummy e found w = go (config.max_failed_logins == 0)
    where
      later : Op Found
      later =
          either (call env (λ ctx. login_throttle_by_user_id config.crypto ctx found.user.id))
            (λ throttle. done (record found { failure = some e; throttle = throttle }))
            (λ e'. done (with_failure e' (record found { failure = some e })))

      go :
          (unlimited : Bool)
          → (if unlimited || true then done (record found { failure = some e }) else later) w
            ≡ (ok (record found { failure = some e }), w)
      go true = refl
      go false = refl

  -- An error that is not a missing record is kept.
  find_throttle-failure :
      (dummy : String) (e : Error) (start found : Found) (w w' : World)
      → find_throttle env config dummy (with_failure e start) w ≡ (ok found, w')
      → found.failure ≡ none
      → is_not_found e ≡ true
  find_throttle-failure dummy e start found w w' h sound = elim (Bool-cases (is_not_found e)) [
    | inl missing ↦ missing
    | inr other ↦
        let failed : with_failure e start ≡ record start { failure = some e } =
          ap (λ b. if b then start else record start { failure = some e }) other in
        let kept = subst (λ f. find_throttle env config dummy f w ≡ (ok found, w')) failed h in
        let same : record start { failure = some e } ≡ found =
          (done-ok _ _ w w' (sym (find_throttle-skips dummy e start w) ∙ kept)).0 in
        absurd (cc (ap (λ (f : Found). f.failure) same, sound))
  ]

  pub find_credential-user :
      (dummy : String) (looked_up : Result User) (found : Found) (w w' : World)
      → find_credential env config dummy looked_up w ≡ (ok found, w')
      → not found.known ≡ false
      → found.failure ≡ none
      → ((e : Error) → env.context_error w.calls ≡ some e → is_not_found e ≡ false)
      → (looked_up ≡ ok found.user) × Compared dummy found.user found.hash (reached env w)
  unfolding find_credential
  find_credential-user dummy (err e) found w w' h known sound contexts =
      let unknown : Found = record {
        user = zero_user;
        known = false;
        hash = dummy;
        throttle = zero_throttle;
        failure = none;
      } in
      let same : with_failure e unknown ≡ found = cc in
      let missing : found.known ≡ false =
        ap (λ (f : Found). f.known) (sym same) ∙ (with_failure-user e unknown).2 in
      absurd (cc)
  find_credential-user dummy (ok user) found w w' h known sound contexts =
      let start : Found = record {
        user = user;
        known = true;
        hash = dummy;
        throttle = zero_throttle;
        failure = none;
      } in
      elim (either-ok {w = w} (call env (λ ctx. password_by_user_id config.crypto ctx user.id)) _ _
        h) [
          | inl (credential, v, called, g) ↦
              let (same, hashed) =
                find_throttle-user dummy (record start { hash = credential.hash }) found v w' g in
              let held =
                password_by_user_id-ok (env.context_error w.calls) user.id (reached env w) v.store
                  credential
                  (call-ok env (λ ctx. password_by_user_id config.crypto ctx user.id) w v credential
                    called) in
              (
                ap ok (sym same),
                inl (
                  credential,
                  ap (λ (u : User). lookup u.id (reached env w).passwords) same ∙ held,
                  sym hashed,
                ),
              )
          | inr (e, v, called, g) ↦
              let (same, hashed) = find_throttle-user dummy (with_failure e start) found v w' g in
              let (same', hashed', known') = with_failure-user e start in
              let missing = find_throttle-failure dummy e start found v w' g sound in
              let absent =
                password_by_user_id-none (env.context_error w.calls) user.id (reached env w) v.store
                  e contexts
                  (ap (λ (r : Result PasswordCredential × World). (r.0, r.1.store)) called)
                  missing in
              (
                ap ok (sym (same ∙ same')),
                inr (
                  hashed ∙ hashed',
                  subst (λ (u : User). lookup u.id (reached env w).passwords ≡ none)
                      (sym (same ∙ same')) absent,
                ),
              )
        ]
