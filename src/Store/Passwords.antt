-- ===== src/Store/Passwords.antt =====
-- memory/store.go: password credentials, password resets and login throttles.
use credbound.Prelude.{
  ℕ, ◌+◌, Bool, true, false, not, ◌&&◌, Option, none, some, [], ◌∷◌, String, str_eq, Map, lookup,
  insert, erase, ◌==◌, ltb, leb, if◌then◌else◌, is_some,
}
use credbound.Types.{
  Uuid, Time, PasswordCredential, PasswordResetCredential, LoginThrottle, Crypto, Commit, Error,
}
use credbound.Store.State.{Store, Tx, pure, gets, ◌>>=◌, ◌>>◌, fail_if, require, check_context}
use credbound.Store.Commits.{transact}
use credbound.Store.Revocation.{
  touch_last_seen, revoke_user_credentials_locked, revoke_user_sessions_locked,
}

abbrev pub zero_throttle : LoginThrottle
zero_throttle = record { user_id = 0; failed_attempts = 0; locked_until = none; updated_at = 0 }

abbrev pub or_zero_throttle : Option LoginThrottle → LoginThrottle
or_zero_throttle none = zero_throttle
or_zero_throttle (some throttle) = throttle

-- A lockout that has ended at `at`.
abbrev pub lockout_is_over : Time → Option Time → Bool
lockout_is_over at none = false
lockout_is_over at (some locked_until) = leb locked_until at

-- The throttle after one more failure.
unfoldable pub count_failure : Uuid → Time → ℕ → Time → LoginThrottle → LoginThrottle
count_failure user_id at threshold locked_until previous =
    let throttle = if lockout_is_over at previous.locked_until then zero_throttle else previous in
    let attempts = throttle.failed_attempts + 1 in
    record {
      user_id = user_id;
      failed_attempts = attempts;
      locked_until =
          if ltb 0 threshold && leb threshold attempts
          then some locked_until
          else throttle.locked_until;
      updated_at = at;
    }

-- The loop that drops the user's other resets.
unfoldable pub drop_other_resets :
    Uuid → Uuid → Map PasswordResetCredential → Map PasswordResetCredential
drop_other_resets reset_id user_id [] = []
drop_other_resets reset_id user_id ((id, other) ∷ m) =
    let rest = drop_other_resets reset_id user_id m in
    if not (id == reset_id) && other.user_id == user_id then rest else (id, other) ∷ rest

unfoldable pub install_reset_password :
    Uuid → PasswordResetCredential → PasswordCredential → Time → Store → Store
unfolding drop_other_resets
install_reset_password reset_id credential password at s =
    let s1 = record s {
      password_resets =
          drop_other_resets reset_id password.user_id
            (insert reset_id (record credential { used_at = some at }) s.password_resets);
      passwords = insert password.user_id password s.passwords;
    } in
    let s2 =
      revoke_user_sessions_locked password.user_id at
        (revoke_user_credentials_locked password.user_id 0 at s1) in
    record s2 { throttles = erase password.user_id s2.throttles }

unfoldable pub put_throttle : Uuid → LoginThrottle → Store → Store
put_throttle user_id throttle s = record s { throttles = insert user_id throttle s.throttles }

-- `!ok || credential.Hash != hash`
unfoldable pub hash_differs : String → Option PasswordCredential → Bool
hash_differs hash none = true
hash_differs hash (some credential) = not (str_eq credential.hash hash)

module _ (crypto : Crypto) (ctx : Option Error) where
  unfoldable pub password_by_user_id : Uuid → Tx PasswordCredential
  password_by_user_id user_id = do
    check_context ctx
    passwords ← gets (λ s. s.passwords)
    require (lookup user_id passwords) Error.not_found

  unfoldable pub change_password : PasswordCredential → Time → Commit → Tx (Unit {0})
  change_password password at commit = do
    check_context ctx
    passwords ← gets (λ s. s.passwords)
    current ← require (lookup password.user_id passwords) Error.not_found
    transact crypto commit λ s.
        revoke_user_sessions_locked password.user_id at
          (record s { passwords = insert password.user_id password s.passwords })

  unfoldable pub rehash_password : PasswordCredential → String → Commit → Tx (Unit {0})
  rehash_password password previous_hash commit = do
    check_context ctx
    passwords ← gets (λ s. s.passwords)
    fail_if (hash_differs previous_hash (lookup password.user_id passwords)) Error.conflict
    transact crypto commit
        λ s. record s { passwords = insert password.user_id password s.passwords }

  unfoldable pub record_password_authentication : Uuid → String → Time → Commit → Tx (Unit {0})
  record_password_authentication user_id current_hash seen_at commit = do
    check_context ctx
    users ← gets (λ s. s.users)
    user ← require (lookup user_id users) Error.not_found
    passwords ← gets (λ s. s.passwords)
    fail_if (hash_differs current_hash (lookup user_id passwords)) Error.conflict
    transact crypto commit λ s.
        let s' = touch_last_seen user_id seen_at s in
        record s' { throttles = erase user_id s'.throttles }

  unfoldable pub login_throttle_by_user_id : Uuid → Tx LoginThrottle
  login_throttle_by_user_id user_id = do
    check_context ctx
    throttles ← gets (λ s. s.throttles)
    require (lookup user_id throttles) Error.not_found

  unfoldable pub record_login_failure : Uuid → Time → ℕ → Time → Commit → Tx LoginThrottle
  record_login_failure user_id at threshold locked_until commit = do
    check_context ctx
    users ← gets (λ s. s.users)
    user ← require (lookup user_id users) Error.not_found
    throttles ← gets (λ s. s.throttles)
    let throttle =
        count_failure user_id at threshold locked_until
          (or_zero_throttle (lookup user_id throttles))
    transact crypto commit (put_throttle user_id throttle)
    pure throttle

  unfoldable pub create_password_reset : PasswordResetCredential → Commit → Tx (Unit {0})
  create_password_reset credential commit = do
    check_context ctx
    users ← gets (λ s. s.users)
    user ← require (lookup credential.user_id users) Error.not_found
    resets ← gets (λ s. s.password_resets)
    fail_if (is_some (lookup credential.id resets)) Error.conflict
    transact crypto commit
        λ s. record s { password_resets = insert credential.id credential s.password_resets }

  unfoldable pub password_reset_by_id : Uuid → Tx PasswordResetCredential
  password_reset_by_id reset_id = do
    check_context ctx
    resets ← gets (λ s. s.password_resets)
    require (lookup reset_id resets) Error.not_found

  unfoldable pub complete_password_reset : Uuid → PasswordCredential → Time → Commit → Tx (Unit {0})
  complete_password_reset reset_id password at commit = do
    check_context ctx
    resets ← gets (λ s. s.password_resets)
    credential ← require (lookup reset_id resets) Error.not_found
    fail_if (is_some credential.used_at) Error.conflict
    users ← gets (λ s. s.users)
    user ← require (lookup password.user_id users) Error.not_found
    transact crypto commit (install_reset_password reset_id credential password at)
