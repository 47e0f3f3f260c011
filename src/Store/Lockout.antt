-- ===== src/Store/Lockout.antt =====
-- The login throttle: when a run of failures locks an account, and when it starts again.
use credbound.Prelude.{
  ℕ, suc, ◌+◌, ◌≤◌, ◌<◌, ◌≡◌, none, some, List, [], ◌∷◌, arith, ◌==◌, if◌then◌else◌, length,
}
use credbound.Types.{Uuid, Time, LoginThrottle}
use credbound.Store.Passwords.{count_failure}

module _ (user_id : Uuid) (threshold duration : ℕ) where
  -- The throttle after failures at these times, each of which would lock until `duration` later.
  unfoldable pub fail_at : List Time → LoginThrottle → LoginThrottle
  fail_at [] throttle = throttle
  fail_at (at ∷ times) throttle =
      fail_at times (count_failure user_id at threshold (at + duration) throttle)

  count_failure-below :
      (at locked_until : Time) (throttle : LoginThrottle)
      → throttle.locked_until ≡ none
      → throttle.failed_attempts + 1 < threshold
      → ((count_failure user_id at threshold locked_until throttle).locked_until ≡ none)
        × ((count_failure user_id at threshold locked_until throttle).failed_attempts
            ≡ throttle.failed_attempts + 1)
  unfolding count_failure
  count_failure-below at locked_until throttle unlocked below = rw unlocked (ground arith)

  -- Below the threshold nothing is locked, and the failures are counted.
  pub fail_at-below :
      (times : List Time) (throttle : LoginThrottle)
      → throttle.locked_until ≡ none
      → throttle.failed_attempts + length times < threshold
      → ((fail_at times throttle).locked_until ≡ none)
        × ((fail_at times throttle).failed_attempts ≡ throttle.failed_attempts + length times)
  unfolding fail_at count_failure
  fail_at-below [] throttle unlocked below = (unlocked, omega arith)
  fail_at-below (at ∷ times) throttle unlocked below =
      let (still, counted) =
        count_failure-below at (at + duration) throttle unlocked (omega arith) in
      let (unlocked_after, total) =
        fail_at-below times (count_failure user_id at threshold (at + duration) throttle) still
          (omega (arith, counted)) in
      (unlocked_after, omega (arith, total, counted))

  -- From a throttle without failures and without a lockout, fewer failures than the threshold
  -- followed by one more lock the account until that failure's time plus the duration if the last
  -- one reaches the threshold, and do not lock it otherwise.
  pub fail_at-locks :
      (times : List Time) (at : Time) (throttle : LoginThrottle)
      → throttle.locked_until ≡ none
      → throttle.failed_attempts ≡ 0
      → length times < threshold
      → (count_failure user_id at threshold (at + duration) (fail_at times throttle)).locked_until
        ≡ (if suc (length times) == threshold then some (at + duration) else none)
  unfolding count_failure
  fail_at-locks times at throttle unlocked none_yet below =
      let (still, counted) = fail_at-below times throttle unlocked (omega arith) in
      rw (still, counted, none_yet) (ground arith)

  -- When a lockout has ended by the time of the next failure and the threshold is above one, that
  -- failure counts as the first and the account is not locked.
  pub count_failure-restarts :
      (at locked_until : Time) (throttle : LoginThrottle)
      → throttle.locked_until ≡ some locked_until
      → locked_until ≤ at
      → 1 < threshold
      → ((count_failure user_id at threshold (at + duration) throttle).failed_attempts ≡ 1)
        × ((count_failure user_id at threshold (at + duration) throttle).locked_until ≡ none)
  unfolding count_failure
  count_failure-restarts at locked_until throttle locked over more = rw locked (ground arith)

  -- While the lockout lasts, one more failure extends it.
  pub count_failure-extends :
      (at locked_until : Time) (throttle : LoginThrottle)
      → throttle.locked_until ≡ some locked_until
      → at < locked_until
      → 0 < threshold
      → threshold ≤ throttle.failed_attempts
      → (count_failure user_id at threshold (at + duration) throttle).locked_until
        ≡ some (at + duration)
  unfolding count_failure
  count_failure-extends at locked_until throttle locked early some_threshold reached =
      rw locked (ground arith)
