-- ===== src/Audit/Chain.antt =====
-- A log whose chained events verify stays verifiable as it grows, from every earlier head.
use credbound.Prelude.{ℕ, ◌+◌, ◌≤◌, ◌≡◌, refl, List, [], ◌∷◌, ◌++◌, arith}
use credbound.Types.{Bytes, Crypto, AuditEvent, ok}
use credbound.Audit.Verify.{chained_after, sort_events, extends, verify_events}

pub chained_after-append :
    (n : ℕ) (xs ys : List AuditEvent)
    → chained_after n (xs ++ ys) ≡ chained_after n xs ++ chained_after n ys
unfolding chained_after
chained_after-append n [] ys = refl
chained_after-append n (x ∷ xs) ys = ground (arith, chained_after-append n xs ys)

module _ (crypto : Crypto) where
  -- The chain may be checked in two parts.
  pub verify_events-append :
      (h : Bytes) (n : ℕ) (xs ys : List AuditEvent) (m : ℕ) (g : Bytes)
      → verify_events crypto h n xs ≡ ok (m, g)
      → verify_events crypto h n (xs ++ ys) ≡ verify_events crypto g m ys
  unfolding verify_events
  verify_events-append h n [] ys m g e = cc
  verify_events-append h n (x ∷ xs) ys m g e =
      ground (arith, verify_events-append x.hash (n + 1) xs ys m g)

  -- Verified events carry the sequence numbers from the first to the last.
  pub verify_events-le :
      (h : Bytes) (n : ℕ) (xs : List AuditEvent) (m : ℕ) (g : Bytes)
      → verify_events crypto h n xs ≡ ok (m, g)
      → n ≤ m
  unfolding verify_events
  verify_events-le h n [] m g e = ground arith
  verify_events-le h n (x ∷ xs) m g e = ground (arith, verify_events-le x.hash (n + 1) xs m g)

  -- None of them lies above the last.
  pub chained_after_verified :
      (h : Bytes) (n k : ℕ) (xs : List AuditEvent) (m : ℕ) (g : Bytes)
      → verify_events crypto h n xs ≡ ok (m, g)
      → m ≤ k
      → chained_after k xs ≡ []
  unfolding verify_events chained_after extends
  chained_after_verified h n k [] m g e le = refl
  chained_after_verified h n k (x ∷ xs) m g e le = ground (
    arith,
    chained_after_verified x.hash (n + 1) k xs m g,
    verify_events-le x.hash (n + 1) xs m g,
  )

  -- Sorting leaves verified events as they are.
  pub sort_events_verified :
      (h : Bytes) (n : ℕ) (xs : List AuditEvent) (m : ℕ) (g : Bytes)
      → verify_events crypto h n xs ≡ ok (m, g)
      → sort_events xs ≡ xs
  unfolding sort_events verify_events extends
  sort_events_verified h n [] m g e = refl
  sort_events_verified h n (x ∷ []) m g e = ground arith
  sort_events_verified h n (x ∷ y ∷ xs) m g e =
      ground (arith, sort_events_verified x.hash (n + 1) (y ∷ xs) m g)

-- The events that a higher threshold keeps are among those that a lower one keeps.
pub chained_after_twice :
    (n k : ℕ) (xs : List AuditEvent)
    → n ≤ k
    → chained_after k (chained_after n xs) ≡ chained_after k xs
unfolding chained_after
chained_after_twice n k [] le = refl
chained_after_twice n k (x ∷ xs) le = ground (arith, chained_after_twice n k xs le)
