-- ===== src/Store/Factors.antt =====
-- memory/store.go: TOTP factors and recovery codes.
use credbound.Prelude.{
  ℕ, suc, Bool, true, false, not, ◌&&◌, Option, none, some, List, [], ◌∷◌, lookup, insert, erase,
  leb, if◌then◌else◌, is_some, bytes_equal,
}
use credbound.Types.{Uuid, Time, Bytes, TotpFactor, RecoveryCode, Crypto, Commit, Error}
use credbound.Store.State.{Store, Tx, pure, gets, ◌>>=◌, ◌>>◌, fail_if, require, check_context}
use credbound.Store.Commits.{transact}
use credbound.Store.Revocation.{touch_last_seen, revoke_user_sessions_locked}

abbrev pub is_active_factor : Option TotpFactor → Bool
is_active_factor none = false
is_active_factor (some factor) = factor.active

abbrev pub codes_of : Option (List RecoveryCode) → List RecoveryCode
codes_of none = []
codes_of (some codes) = codes

unfoldable pub is_unused_match : Bytes → RecoveryCode → Bool
is_unused_match digest code = not (is_some code.used_at) && bytes_equal code.digest digest

-- The loop up to its first hit: the codes with that one stamped, or none without a hit.
unfoldable pub mark_used : Bytes → Time → List RecoveryCode → Option (List RecoveryCode)
unfolding is_unused_match
mark_used digest used_at [] = none
mark_used digest used_at (code ∷ codes) =
    let rest = mark_used digest used_at codes in
    if is_unused_match digest code
    then some (record code { used_at = some used_at } ∷ codes)
    else elim rest [ none ↦ none | some marked ↦ some (code ∷ marked) ]

unfoldable pub count_unused : List RecoveryCode → ℕ
count_unused [] = 0
count_unused (code ∷ codes) =
    let rest = count_unused codes in if is_some code.used_at then rest else suc rest

unfoldable pub use_step : Uuid → TotpFactor → ℕ → Time → Store → Store
use_step user_id factor step at s =
    let s1 = record s {
      totp = insert user_id (record factor { last_used_step = step; updated_at = at }) s.totp;
    } in
    let s2 = touch_last_seen user_id at s1 in record s2 { throttles = erase user_id s2.throttles }

unfoldable pub store_used_code : Uuid → List RecoveryCode → Time → Store → Store
store_used_code user_id marked used_at s =
    let s1 =
      touch_last_seen user_id used_at (record s { recovery = insert user_id marked s.recovery }) in
    record s1 { throttles = erase user_id s1.throttles }

module _ (crypto : Crypto) (ctx : Option Error) where
  unfoldable pub totp_by_user_id : Uuid → Tx TotpFactor
  totp_by_user_id user_id = do
    check_context ctx
    totp ← gets (λ s. s.totp)
    require (lookup user_id totp) Error.not_found

  unfoldable pub save_totp_enrollment : TotpFactor → Commit → Tx (Unit {0})
  save_totp_enrollment factor commit = do
    check_context ctx
    totp ← gets (λ s. s.totp)
    fail_if (is_active_factor (lookup factor.user_id totp)) Error.conflict
    users ← gets (λ s. s.users)
    user ← require (lookup factor.user_id users) Error.not_found
    transact crypto commit λ s. record s {
      totp = insert factor.user_id factor s.totp;
      recovery = erase factor.user_id s.recovery;
    }

  unfoldable pub activate_totp : TotpFactor → List RecoveryCode → Commit → Tx (Unit {0})
  activate_totp factor codes commit = do
    check_context ctx
    totp ← gets (λ s. s.totp)
    existing ← require (lookup factor.user_id totp) Error.conflict
    fail_if existing.active Error.conflict
    transact crypto commit λ s. record s {
      totp = insert factor.user_id factor s.totp;
      recovery = insert factor.user_id codes s.recovery;
    }

  -- `false` reports a replayed step.
  unfoldable pub use_totp : Uuid → ℕ → Commit → Tx Bool
  use_totp user_id step commit = do
    check_context ctx
    totp ← gets (λ s. s.totp)
    factor ← require (lookup user_id totp) Error.not_found
    fail_if (not factor.active) Error.not_found
    if leb step factor.last_used_step then pure false else (do
      transact crypto commit (use_step user_id factor step commit.audit.occurred_at)
      pure true)

  unfoldable pub consume_marked : Option (List RecoveryCode) → Uuid → Time → Commit → Tx Bool
  consume_marked none user_id used_at commit = pure false
  consume_marked (some marked) user_id used_at commit = do
    transact crypto commit (store_used_code user_id marked used_at)
    pure true

  -- `false` reports that no unused code has the digest.
  unfoldable pub consume_recovery_code : Uuid → Bytes → Time → Commit → Tx Bool
  consume_recovery_code user_id digest used_at commit = do
    check_context ctx
    recovery ← gets (λ s. s.recovery)
    consume_marked (mark_used digest used_at (codes_of (lookup user_id recovery))) user_id used_at
        commit

  unfoldable pub count_unused_recovery_codes : Uuid → Tx ℕ
  count_unused_recovery_codes user_id = do
    check_context ctx
    recovery ← gets (λ s. s.recovery)
    pure (count_unused (codes_of (lookup user_id recovery)))

  unfoldable pub disable_totp : Uuid → Commit → Tx (Unit {0})
  disable_totp user_id commit = do
    check_context ctx
    totp ← gets (λ s. s.totp)
    factor ← require (lookup user_id totp) Error.not_found
    transact crypto commit
        λ s. record s { totp = erase user_id s.totp; recovery = erase user_id s.recovery }

  unfoldable pub replace_recovery_codes : Uuid → List RecoveryCode → Commit → Tx (Unit {0})
  replace_recovery_codes user_id codes commit = do
    check_context ctx
    totp ← gets (λ s. s.totp)
    fail_if (not (is_active_factor (lookup user_id totp))) Error.not_found
    transact crypto commit (λ s. record s { recovery = insert user_id codes s.recovery })

  unfoldable pub reset_second_factor : Uuid → Time → Commit → Tx (Unit {0})
  reset_second_factor user_id at commit = do
    check_context ctx
    users ← gets (λ s. s.users)
    user ← require (lookup user_id users) Error.not_found
    transact crypto commit λ s. revoke_user_sessions_locked user_id at (record s {
      totp = erase user_id s.totp;
      recovery = erase user_id s.recovery;
      passkeys = erase user_id s.passkeys;
    })
