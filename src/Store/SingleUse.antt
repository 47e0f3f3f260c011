-- ===== src/Store/SingleUse.antt =====
-- What can be used once: a TOTP step, a recovery code and a password reset.
use credbound.Prelude.{
  ℕ, suc, ◌≤◌, ◌<◌, ◌≡◌, refl, Bool, true, false, not, Option, none, some, Map, lookup, List, [],
  ◌∷◌, arith, is_some, Option-cases, Bool-cases, inl, inr, leb, lookup-inserted, if◌then◌else◌,
}
use credbound.Types.{
  Uuid, Time, Bytes, TotpFactor, RecoveryCode, Crypto, Commit, Error, ok, err, PasswordCredential,
  PasswordResetCredential,
}
use credbound.Store.State.{Store, Tx, pure, ◌>>=◌}
use credbound.Store.Commits.{transact}
use credbound.Store.Revocation.{
  revoke_user_credentials_locked, revoke_user_sessions_locked, touch_last_seen,
}
use credbound.Store.Passwords.{complete_password_reset, install_reset_password, drop_other_resets}
use credbound.Store.Factors.{
  use_totp, use_step, consume_recovery_code, consume_marked, mark_used, is_unused_match, codes_of,
  count_unused, store_used_code,
}
use credbound.Store.Inversion.{check_context-ok, require-ok, fail_if-ok, pure-ok, transact-elim}

-- An accepted step is the factor's last used one afterwards, and was above it before.
abbrev pub StepAccepted : Uuid → ℕ → Store → Store → Type 0
StepAccepted user_id step s s' =
    (factor : TotpFactor) × (used : TotpFactor) × (lookup user_id s.totp ≡ some factor)
    × (factor.active ≡ true)
    × (factor.last_used_step < step)
    × (lookup user_id s'.totp ≡ some used)
    × (used.active ≡ true)
    × (used.last_used_step ≡ step)

module _ (crypto : Crypto) (user_id : Uuid) where
  pub use_totp-StepAccepted :
      (ctx : Option Error) (step : ℕ) (commit : Commit) (s s' : Store)
      → use_totp crypto ctx user_id step commit s ≡ (ok true, s')
      → StepAccepted user_id step s s'
  unfolding use_totp
  use_totp-StepAccepted ctx step commit s s' h =
      let h1 = check_context-ok ctx _ h in
      let (factor, found, h2) = require-ok {s = s} (lookup user_id s.totp) Error.not_found _ h1 in
      let (active, h3) = fail_if-ok {s = s} (not factor.active) Error.not_found _ h2 in
      go factor found active (leb step factor.last_used_step) refl h3
    where
      accept : TotpFactor → Tx Bool
      accept factor =
          transact crypto commit (use_step user_id factor step commit.audit.occurred_at) >>= λ _.
          pure true

      go :
          (factor : TotpFactor)
          → lookup user_id s.totp ≡ some factor
          → not factor.active ≡ false
          → (replayed : Bool) → leb step factor.last_used_step ≡ replayed
          → (if replayed then pure false else accept factor) s ≡ (ok true, s')
          → StepAccepted user_id step s s'
      go factor found active true e h = absurd (cc)
      go factor found active false e h =
          let committed =
            pure-ok (transact crypto commit (use_step user_id factor step commit.audit.occurred_at))
              true true s s' h in
          let used : TotpFactor = record factor {
            last_used_step = step;
            updated_at = commit.audit.occurred_at;
          } in
          let last : lookup user_id s'.totp ≡ some used =
            transact-elim crypto commit (use_step user_id factor step commit.audit.occurred_at)
              (λ t. lookup user_id t.totp ≡ some used) s s' committed
              λ c audits ids sequence head.
                unfold use_step touch_last_seen in lookup-inserted _ _ s.totp in
          (factor, used, found, ground arith, ground arith, last, ground arith, refl)

  -- After `UseTOTP` accepts a step, a call with that step or a smaller one on the store it left,
  -- without a context error, reports false and changes nothing.
  pub use_totp-no_replay :
      (ctx : Option Error) (step step' : ℕ) (commit commit' : Commit) (s s' : Store)
      → use_totp crypto ctx user_id step commit s ≡ (ok true, s')
      → step' ≤ step
      → use_totp crypto none user_id step' commit' s' ≡ (ok false, s')
  use_totp-no_replay ctx step step' commit commit' s s' h le =
      let (factor, used, found, active, above, last, still, at_step) =
        use_totp-StepAccepted ctx step commit s s' h in
      let low : leb step' used.last_used_step ≡ true = ground arith in
      unfold use_totp in rw (last, still, low) refl

-- How many unused codes of a list have a digest.
unfoldable pub matching : Bytes → List RecoveryCode → ℕ
matching digest [] = 0
matching digest (code ∷ codes) =
    let rest = matching digest codes in if is_unused_match digest code then suc rest else rest

mark_used-none :
    (digest : Bytes) (at : Time) (codes : List RecoveryCode)
    → matching digest codes ≡ 0
    → mark_used digest at codes ≡ none
unfolding mark_used matching
mark_used-none digest at [] e = refl
mark_used-none digest at (code ∷ codes) e = ground (arith, mark_used-none digest at codes)

-- The stamped code no longer matches, and the others are as they were.
mark_used-some :
    (digest : Bytes) (at : Time) (codes marked : List RecoveryCode)
    → mark_used digest at codes ≡ some marked
    → (count_unused codes ≡ suc (count_unused marked))
      × (matching digest codes ≡ suc (matching digest marked))
unfolding mark_used matching count_unused is_unused_match
mark_used-some digest at [] marked e = absurd (cc)
mark_used-some digest at (code ∷ codes) marked e = elim (Bool-cases (is_unused_match digest code)) [
  | inl hit ↦ ground arith
  | inr miss ↦ elim (Option-cases (mark_used digest at codes)) [
    | inl none_found ↦ absurd (ground arith)
    | inr (found, h) ↦ ground (arith, mark_used-some digest at codes found h)
  ]
]

abbrev pub codes_in : Uuid → Store → List RecoveryCode
codes_in user_id s = codes_of (lookup user_id s.recovery)

module _ (crypto : Crypto) (user_id : Uuid) where
  -- When `ConsumeRecoveryCode` accepts a digest, the user has exactly one unused code less than
  -- before, and exactly one unused code with that digest less.
  pub consume_recovery_code-uses_one :
      (ctx : Option Error) (digest : Bytes) (at : Time) (commit : Commit) (s s' : Store)
      → consume_recovery_code crypto ctx user_id digest at commit s ≡ (ok true, s')
      → (count_unused (codes_in user_id s) ≡ suc (count_unused (codes_in user_id s')))
        × (matching digest (codes_in user_id s) ≡ suc (matching digest (codes_in user_id s')))
  unfolding consume_recovery_code consume_marked
  consume_recovery_code-uses_one ctx digest at commit s s' h =
      let h1 = check_context-ok ctx _ h in go (mark_used digest at (codes_in user_id s)) refl h1
    where
      go :
          (found : Option (List RecoveryCode))
          → mark_used digest at (codes_in user_id s) ≡ found
          → consume_marked crypto ctx found user_id at commit s ≡ (ok true, s')
          → (count_unused (codes_in user_id s) ≡ suc (count_unused (codes_in user_id s')))
            × (matching digest (codes_in user_id s) ≡ suc (matching digest (codes_in user_id s')))
      go none e h = absurd (cc)
      go (some marked) e h =
          let committed =
            pure-ok (transact crypto commit (store_used_code user_id marked at)) true true s s' h in
          let stored : lookup user_id s'.recovery ≡ some marked =
            transact-elim crypto commit (store_used_code user_id marked at)
              (λ t. lookup user_id t.recovery ≡ some marked) s s' committed
              λ c audits ids sequence head.
                unfold store_used_code touch_last_seen in lookup-inserted _ _ s.recovery in
          rw stored (mark_used-some digest at (codes_in user_id s) marked e)

  -- When one unused recovery code of the user has a digest and `ConsumeRecoveryCode` accepts that
  -- digest, a second call with it on the store it left, without a context error, reports false
  -- and changes nothing.
  pub consume_recovery_code-no_reuse :
      (ctx : Option Error) (digest : Bytes) (at at' : Time) (commit commit' : Commit) (s s' : Store)
      → matching digest (codes_in user_id s) ≡ 1
      → consume_recovery_code crypto ctx user_id digest at commit s ≡ (ok true, s')
      → consume_recovery_code crypto none user_id digest at' commit' s' ≡ (ok false, s')
  consume_recovery_code-no_reuse ctx digest at at' commit commit' s s' one h =
      let used = consume_recovery_code-uses_one ctx digest at commit s s' h in
      let gone = mark_used-none digest at' (codes_in user_id s') (omega (arith, used.1, one)) in
      unfold consume_recovery_code consume_marked in rw gone refl

drop_other_resets-kept :
    (reset_id user_id : Uuid) (m : Map PasswordResetCredential) (v : PasswordResetCredential)
    → lookup reset_id m ≡ some v
    → lookup reset_id (drop_other_resets reset_id user_id m) ≡ some v
unfolding drop_other_resets lookup
drop_other_resets-kept reset_id user_id [] v h = h
drop_other_resets-kept reset_id user_id ((id, w) ∷ m) v h =
    ground (arith, drop_other_resets-kept reset_id user_id m v)

module _ (crypto : Crypto) where
  -- After `CompletePasswordReset` succeeds, a second completion of that reset on the store it
  -- left, without a context error and with whatever password, fails with a conflict and changes
  -- nothing.
  pub complete_password_reset-no_reuse :
      (ctx : Option Error) (reset_id : Uuid) (password password' : PasswordCredential)
      (at at' : Time) (commit commit' : Commit) (s s' : Store)
      → complete_password_reset crypto ctx reset_id password at commit s ≡ (ok tt, s')
      → complete_password_reset crypto none reset_id password' at' commit' s'
        ≡ (err Error.conflict, s')
  unfolding complete_password_reset
  complete_password_reset-no_reuse ctx reset_id password password' at at' commit commit' s s' h =
      let h1 = check_context-ok ctx _ h in
      let (credential, found, h2) =
        require-ok {s = s} (lookup reset_id s.password_resets) Error.not_found _ h1 in
      let (unused, h3) = fail_if-ok {s = s} (is_some credential.used_at) Error.conflict _ h2 in
      let (user, owner, h4) =
        require-ok {s = s} (lookup password.user_id s.users) Error.not_found _ h3 in
      let used : lookup reset_id s'.password_resets
          ≡ some (record credential { used_at = some at }) =
        transact-elim crypto commit (install_reset_password reset_id credential password at)
          (λ t. lookup reset_id t.password_resets ≡ some (record credential { used_at = some at }))
          s s' h4
          λ c audits ids sequence head.
            unfold install_reset_password revoke_user_sessions_locked
              revoke_user_credentials_locked in
            drop_other_resets-kept reset_id password.user_id _ _ (
              lookup-inserted reset_id (record credential { used_at = some at })
                s.password_resets) in
      rw used refl
