-- ===== src/Store/Chain.antt =====
-- The audit log of the store is a verifiable hash chain after every history of calls.
use credbound.Prelude.{
  ℕ, ◌+◌, ◌≤◌, ◌≡◌, refl, ap, sym, ◌∙◌, Bool, true, false, List, [], ◌++◌, arith, bytes_equal_refl,
}
use credbound.Types.{Bytes, Crypto, AuditEvent, ok}
use credbound.Audit.Hash.{compute_audit_hash}
use credbound.Audit.Verify.{chained_after, verify_events, extends}
use credbound.Audit.Chain.{chained_after-append, verify_events-append, verify_events-le}
use mathlib.Core.List.{append-nil, append_assoc}
use native.Mathlib.Nat.{le_refl}
use credbound.Store.State.{Store}
use credbound.Store.Commits.{commit_audit, chain_event, default_actor_kind}

module _ (crypto : Crypto) where
  -- `t` has the log of `s` and after it events that continue the chain from the head of `s`.
  pub record Extends (s t : Store) : Type 0 where
    pub added : List AuditEvent
    pub log : t.audits ≡ s.audits ++ added
    pub chain :
        verify_events crypto s.audit_head s.audit_sequence (chained_after s.audit_sequence added)
        ≡ ok (t.audit_sequence, t.audit_head)
    -- The added events are unchained or lie above the head of `s`.
    pub fresh :
        (k : ℕ)
        → k ≤ s.audit_sequence
        → chained_after k added ≡ chained_after s.audit_sequence added

  -- The hash does not read the fields that chain the event.
  hash_of_chained :
      (p a b : Bytes) (e : AuditEvent)
      → compute_audit_hash crypto p (record e { previous_hash = a; hash = b })
        ≡ compute_audit_hash crypto p e
  unfolding compute_audit_hash
  hash_of_chained p a b e = refl

  chain_event-verified :
      (raw : AuditEvent) (s : Store)
      → extends crypto s.audit_head s.audit_sequence (chain_event crypto raw s) ≡ true
  unfolding extends chain_event
  chain_event-verified raw s = ground (
    arith,
    bytes_equal_refl s.audit_head,
    bytes_equal_refl (chain_event crypto raw s).hash,
    hash_of_chained s.audit_head s.audit_head (chain_event crypto raw s).hash
        (record raw { sequence = s.audit_sequence + 1 }),
  )

  pub commit_audit-Extends :
      (raw : AuditEvent) (unchained : Bool) (s : Store)
      → raw.sequence ≡ 0
      → Extends s (commit_audit crypto raw unchained s)
  unfolding commit_audit chained_after verify_events
  commit_audit-Extends raw true s h = record {
    added = _;
    log = refl;
    chain = ground arith;
    fresh = λ k le. ground arith;
  }
  commit_audit-Extends raw false s h = record {
    added = _;
    log = refl;
    chain = ground (
      arith,
      chain_event-verified (record raw { actor_kind = default_actor_kind raw.actor_kind }) s,
    );
    fresh = λ k le. unfold chain_event in ground arith;
  }

  pub Extends-refl : (s : Store) → Extends s s
  Extends-refl s = record {
    added = [];
    log = sym (append-nil s.audits);
    chain = unfold chained_after verify_events in refl;
    fresh = λ k le. unfold chained_after in refl;
  }

  pub Extends-trans : (s t u : Store) → Extends s t → Extends t u → Extends s u
  Extends-trans s t u x y = record {
    added = x.added ++ y.added;
    log = y.log ∙ ap (λ l. l ++ y.added) x.log ∙ append_assoc s.audits x.added y.added;
    chain = joined;
    fresh = λ k le. split k le ∙ sym (split s.audit_sequence (le_refl s.audit_sequence));
  }
    where
      grows : s.audit_sequence ≤ t.audit_sequence
      grows = verify_events-le crypto _ _ _ _ _ x.chain

      split :
          (k : ℕ)
          → k ≤ s.audit_sequence
          → chained_after k (x.added ++ y.added)
            ≡ chained_after s.audit_sequence x.added ++ chained_after t.audit_sequence y.added
      split k le =
          rw
            (chained_after-append k x.added y.added, x.fresh k le, y.fresh k (omega (arith, grows)))

      joined :
          verify_events crypto s.audit_head s.audit_sequence
            (chained_after s.audit_sequence (x.added ++ y.added))
          ≡ ok (u.audit_sequence, u.audit_head)
      joined =
          rw (split s.audit_sequence (le_refl s.audit_sequence))
            (verify_events-append crypto _ _ _ _ _ _ x.chain ∙ y.chain)
