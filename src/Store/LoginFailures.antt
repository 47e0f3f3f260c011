-- ===== src/Store/LoginFailures.antt =====
-- memory/store.go: `RecordLoginFailure`, by what was stored for the user before.
use credbound.Prelude.{
  Bool, false, ◌∙◌, ℕ, ◌+◌, ◌≤◌, ◌<◌, ◌≡◌, Option, none, some, lookup, arith, sym, ap, subst,
  Bool-cases, ltb, leb, ◌&&◌, refl, inl, inr, lookup-inserted, if◌then◌else◌,
}
use credbound.Types.{Uuid, Time, LoginThrottle, Crypto, Commit, Error, ok}
use credbound.Store.State.{Store}
use credbound.Store.Commits.{transact}
use credbound.Store.Passwords.{
  zero_throttle, lockout_is_over, count_failure, or_zero_throttle, record_login_failure,
  put_throttle,
}
use credbound.Store.Inversion.{check_context-ok, require-ok, >>=-ok, transact-elim}

-- How a failure at a time counts, given the throttle that was stored, and the lockout that still
-- runs then.
pub data CountsAs (at : Time) (stored : Option LoginThrottle) (attempts : ℕ) (running : Option Time)
    : Type 0 where
  first : stored ≡ none → attempts ≡ 1 → running ≡ none → CountsAs at stored attempts running
  next :
      (previous : LoginThrottle)
      → stored ≡ some previous
      → previous.locked_until ≡ none
      → attempts ≡ previous.failed_attempts + 1
      → running ≡ none
      → CountsAs at stored attempts running
  restarted :
      (previous : LoginThrottle) (ended : Time)
      → stored ≡ some previous
      → previous.locked_until ≡ some ended
      → ended ≤ at
      → attempts ≡ 1
      → running ≡ none
      → CountsAs at stored attempts running
  while_locked :
      (previous : LoginThrottle) (ending : Time)
      → stored ≡ some previous
      → previous.locked_until ≡ some ending
      → at < ending
      → attempts ≡ previous.failed_attempts + 1
      → running ≡ some ending
      → CountsAs at stored attempts running

-- The lockout after so many failures: a new one at the threshold, and else the one that runs.
pub data LocksUntil (threshold attempts : ℕ) (locked_until : Time) (running after : Option Time)
    : Type 0 where
  locked :
      0 < threshold
      → threshold ≤ attempts
      → after ≡ some locked_until
      → LocksUntil threshold attempts locked_until running after
  unlimited :
      threshold ≡ 0 → after ≡ running → LocksUntil threshold attempts locked_until running after
  below :
      attempts < threshold
      → after ≡ running
      → LocksUntil threshold attempts locked_until running after

lockout_after-LocksUntil :
    (threshold attempts : ℕ) (locked_until : Time) (running kept : Option Time)
    → kept ≡ running
    → LocksUntil threshold attempts locked_until running
        (if ltb 0 threshold && leb threshold attempts then some locked_until else kept)
lockout_after-LocksUntil threshold attempts locked_until running kept same =
    elim (Bool-cases (ltb 0 threshold)) [
      | inr no_limit ↦ LocksUntil.unlimited (ground arith) (rw no_limit same)
      | inl limit ↦ elim (Bool-cases (leb threshold attempts)) [
        | inl full ↦ LocksUntil.locked (ground arith) (ground arith) (rw (limit, full) refl)
        | inr early ↦ LocksUntil.below (ground arith) (rw (limit, early) same)
      ]
    ]

-- The stored throttle, the failures counted and the lockout that follow from a failure.
abbrev pub Counted : ℕ → Time → Time → Option LoginThrottle → LoginThrottle → Type 0
Counted threshold at locked_until stored throttle =
    (running : Option Time) × CountsAs at stored throttle.failed_attempts running
    × LocksUntil threshold throttle.failed_attempts locked_until running throttle.locked_until

module _ (user_id : Uuid) (threshold : ℕ) (at locked_until : Time) where
  count_failure-Counted :
      (stored : Option LoginThrottle)
      → Counted threshold at locked_until stored
          (count_failure user_id at threshold locked_until (or_zero_throttle stored))
  unfolding count_failure
  count_failure-Counted none =
      (none, CountsAs.first refl refl refl, lockout_after-LocksUntil threshold 1 _ none none refl)
  count_failure-Counted (some previous) = go previous.locked_until refl
    where
      attempts_if : Bool → ℕ
      attempts_if over = (if over then zero_throttle else previous).failed_attempts + 1

      kept_if : Bool → Option Time
      kept_if over = (if over then zero_throttle else previous).locked_until

      go :
          (lockout : Option Time)
          → previous.locked_until ≡ lockout
          → Counted threshold at locked_until
              (some previous)
              (count_failure user_id at threshold locked_until previous)
      go none e =
          let open_still : lockout_is_over at previous.locked_until ≡ false =
            ap (lockout_is_over at) e in
          (
            none,
            CountsAs.next previous refl e (ap attempts_if open_still) refl,
            lockout_after-LocksUntil threshold _ _ none _ (ap kept_if open_still ∙ e),
          )
      go (some until) e = elim (Bool-cases (leb until at)) [
        | inl over ↦
            let ended = ap (lockout_is_over at) e ∙ over in
            (
              none,
              CountsAs.restarted previous until refl e (ground arith) (ap attempts_if ended) refl,
              lockout_after-LocksUntil threshold _ _ none _ (ap kept_if ended),
            )
        | inr early ↦
            let lasting = ap (lockout_is_over at) e ∙ early in
            (
              some until,
              CountsAs.while_locked previous until refl e (ground arith) (ap attempts_if lasting)
                  refl,
              lockout_after-LocksUntil threshold _ _ (some until) _ (ap kept_if lasting ∙ e),
            )
      ]

module _ (crypto : Crypto) (ctx : Option Error) (commit : Commit) (s s' : Store) where
  record_login_failure-stored :
      (user_id : Uuid) (at : Time) (threshold : ℕ) (locked_until : Time) (throttle : LoginThrottle)
      → record_login_failure crypto ctx user_id at threshold locked_until commit s
        ≡ (ok throttle, s')
      → (count_failure user_id at threshold locked_until
            (or_zero_throttle (lookup user_id s.throttles))
          ≡ throttle)
        × (lookup user_id s'.throttles ≡ some throttle)
  unfolding record_login_failure
  record_login_failure-stored user_id at threshold locked_until throttle h =
      let h1 = check_context-ok ctx _ h in
      let (user, found, h2) = require-ok {s = s} (lookup user_id s.users) Error.not_found _ h1 in
      let counted =
        count_failure user_id at threshold locked_until
          (or_zero_throttle (lookup user_id s.throttles)) in
      let (u, t, committed, q) =
        >>=-ok {s = s} (transact crypto commit (put_throttle user_id counted)) _ h2 in
      let same : counted ≡ throttle = cc in
      let last : t ≡ s' = cc in
      let stored : lookup user_id t.throttles ≡ some counted =
        transact-elim crypto commit (put_throttle user_id counted)
          (λ r. lookup user_id r.throttles ≡ some counted) s t committed
          λ c audits ids sequence head.
            unfold put_throttle in lookup-inserted user_id counted s.throttles in
      (same, cc)

  -- When `RecordLoginFailure` returns a throttle, it names the user, is dated at the failure, and
  -- the store that is left holds it. Its failures are one if none was stored or the stored
  -- lockout has ended by then, and else one more than the stored. If the threshold is positive
  -- and the failures reach it, it is locked until the given time. Otherwise it keeps a stored
  -- lockout that still runs, and has none if there is no such lockout.
  pub record_login_failure-counts :
      (user_id : Uuid) (at : Time) (threshold : ℕ) (locked_until : Time) (throttle : LoginThrottle)
      → record_login_failure crypto ctx user_id at threshold locked_until commit s
        ≡ (ok throttle, s')
      → Counted threshold at locked_until (lookup user_id s.throttles) throttle
        × (throttle.user_id ≡ user_id)
        × (throttle.updated_at ≡ at)
        × (lookup user_id s'.throttles ≡ some throttle)
  unfolding count_failure
  record_login_failure-counts user_id at threshold locked_until throttle h =
      let (same, stored) =
        record_login_failure-stored user_id at threshold locked_until throttle h in
      (
        subst (Counted threshold at locked_until (lookup user_id s.throttles)) same
            (count_failure-Counted user_id threshold at locked_until (lookup user_id s.throttles)),
        sym (ap (λ (t : LoginThrottle). t.user_id) same),
        sym (ap (λ (t : LoginThrottle). t.updated_at) same),
        stored,
      )
