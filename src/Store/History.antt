-- ===== src/Store/History.antt =====
-- Histories of store calls, and the audit log that they leave.
use credbound.Prelude.{
  ℕ, zero, suc, ◌+◌, ◌≡◌, refl, ap, sym, ◌∙◌, subst, Bool, true, Option, List, [], ◌∷◌, ◌++◌, arith,
  bytes_equal_refl,
}
use credbound.Types.{
  Bytes, Crypto, AuditEvent, AuditChainCheckpoint, AuditChainReport, Commit, Error, Result, ok,
}
use credbound.Audit.Hash.{audit_chain_genesis}
use credbound.Audit.Verify.{
  chained_after, verify_events, verify_log, is_checkpoint, start_hash, compare_head,
}
use credbound.Audit.Chain.{
  chained_after-append, verify_events-append, verify_events-le, chained_after_verified,
  sort_events_verified, chained_after_twice,
}
use native.Mathlib.Nat.{le_refl}
use credbound.Store.State.{Store}
use credbound.Store.Effects.{Effect, with_ceremonies, undone}
use credbound.Store.Calls.{Call, run_call}
use credbound.Store.Outcomes.{run_call-Effect}
use credbound.Store.Chain.{Extends, Extends-refl, Extends-trans, commit_audit-Extends}

-- One call: what `ctx.Err()` reports to it, its commit and its arguments.
pub record Step : Type 0 where
  pub ctx : Option Error
  pub commit : Commit
  pub call : Call

-- The caller leaves the sequence number of an event to the store.
abbrev pub IsFresh : List Step → Type 0
IsFresh [] = Unit
IsFresh (step ∷ steps) = (step.commit.audit.sequence ≡ 0) × IsFresh steps

module _ (crypto : Crypto) where
  -- The state after the calls, each with whatever it returned.
  unfoldable pub run_history : List Step → Store → Store
  run_history [] s = s
  run_history (step ∷ steps) s =
      run_history steps (run_call crypto step.ctx step.commit step.call s).1

  -- The chained events of the log verify from the genesis to the persisted head.
  abbrev pub IsChained : Store → Type 0
  IsChained s =
      verify_events crypto audit_chain_genesis 0 (chained_after 0 s.audits)
      ≡ ok (s.audit_sequence, s.audit_head)

  Extends-Kept :
      (s t u : Store)
      → (t.audits ≡ s.audits)
      → (t.audit_sequence ≡ s.audit_sequence)
      → (t.audit_head ≡ s.audit_head)
      → Extends crypto t u
      → Extends crypto s u
  Extends-Kept s t u h0 h1 h2 x = record {
    added = x.added;
    log = rw (sym h0) x.log;
    chain = rw (sym h1, sym h2) x.chain;
    fresh = rw (sym h1) x.fresh;
  }

  Effect-Extends :
      (commit : Commit) (s : Store) {A : Type 0} {done : A → Bool} {r : Result A × Store}
      → commit.audit.sequence ≡ 0
      → Effect crypto commit s done r
      → Extends crypto s r.1
  Effect-Extends commit s z (Effect.rejected e c h) =
      subst (λ q. Extends crypto s q.1) (sym h)
        (Extends-Kept s (with_ceremonies c s) (with_ceremonies c s) refl refl refl
          (Extends-refl crypto (with_ceremonies c s)))
  Effect-Extends commit s z (Effect.rolled_back e c h) =
      subst (λ q. Extends crypto s q.1) (sym h)
        (Extends-Kept s (undone c s) (undone c s) refl refl refl (Extends-refl crypto (undone c s)))
  Effect-Extends commit s z (Effect.idle a ha h) =
      subst (λ q. Extends crypto s q.1) (sym h) (Extends-refl crypto s)
  Effect-Extends commit s z (Effect.committed a change c keeps ha h) =
      let kept = keeps (with_ceremonies c s) in
      subst (λ q. Extends crypto s q.1) (sym h)
        (Extends-Kept s (change (with_ceremonies c s)) _ kept.0 kept.2 kept.3 (
          commit_audit-Extends crypto commit.audit commit.unchained (change (with_ceremonies c s))
            z))

  pub run_history-Extends :
      (steps : List Step) (s : Store) → IsFresh steps → Extends crypto s (run_history steps s)
  unfolding run_history
  run_history-Extends [] s h = Extends-refl crypto s
  run_history-Extends (step ∷ steps) s h =
      Extends-trans crypto _ _ _
        (Effect-Extends step.commit s h.0 (run_call-Effect crypto step.ctx step.commit step.call s))
        (run_history-Extends steps _ h.1)

  pub run_history-IsChained :
      (steps : List Step) (s : Store)
      → IsFresh steps
      → IsChained s
      → IsChained (run_history steps s)
  run_history-IsChained steps s h chained =
      let x = run_history-Extends steps s h in
      let grown : chained_after 0 (run_history steps s).audits
          ≡ chained_after 0 s.audits ++ chained_after s.audit_sequence x.added =
        ap (chained_after 0) x.log
        ∙ chained_after-append 0 s.audits x.added
        ∙ ap (λ l. chained_after 0 s.audits ++ l) (x.fresh 0 (omega arith)) in
      rw grown (verify_events-append crypto _ _ _ _ _ _ chained ∙ x.chain)

  -- The report of a verification that succeeds.
  abbrev pub report_of : Store → AuditChainReport
  report_of s = record {
    events = s.audit_sequence;
    head_sequence = s.audit_sequence;
    head_hash = s.audit_head;
  }

  abbrev pub verify_store : AuditChainCheckpoint → Store → Result AuditChainReport
  verify_store checkpoint s = verify_log crypto checkpoint s.audits s.audit_sequence s.audit_head

  pub verify_store-IsChained :
      (s : Store)
      → IsChained s
      → verify_store (record { sequence = 0; hash = [] }) s ≡ ok (report_of s)
  unfolding verify_log is_checkpoint start_hash compare_head
  verify_store-IsChained s chained =
      rw (sort_events_verified crypto _ _ _ _ _ chained, chained)
        (ground (arith, bytes_equal_refl s.audit_head))

  -- Take a store whose chained events verify from the genesis to its persisted head, and any list
  -- of the 47 mutations, each with whatever context error, hook outcome and result, whose audit
  -- events leave the sequence number to the store. Afterwards the verification from the zero
  -- checkpoint succeeds and reports the persisted head.
  pub verify_store-run_history :
      (steps : List Step) (s : Store)
      → IsFresh steps
      → IsChained s
      → verify_store (record { sequence = 0; hash = [] }) (run_history steps s)
        ≡ ok (report_of (run_history steps s))
  verify_store-run_history steps s h chained =
      verify_store-IsChained (run_history steps s) (run_history-IsChained steps s h chained)

  -- The head of a store, as a caller keeps it to verify the later events alone.
  abbrev pub checkpoint_of : Store → AuditChainCheckpoint
  checkpoint_of s = record { sequence = s.audit_sequence; hash = s.audit_head }

  -- No event is verified before the first number.
  verify_events-none :
      (h : Bytes) (xs : List AuditEvent) (n : ℕ) (g : Bytes)
      → verify_events crypto h n xs ≡ ok (n, g)
      → h ≡ g
  unfolding verify_events
  verify_events-none h [] n g e = cc
  verify_events-none h (x ∷ xs) n g e =
      ground (arith, verify_events-le crypto x.hash (n + 1) xs n g)

  checkpoint_genesis :
      (n : ℕ) (h : Bytes)
      → is_checkpoint crypto (record { sequence = n; hash = h }) ≡ true
      → (n ≡ 0 → audit_chain_genesis ≡ h)
      → start_hash crypto (record { sequence = n; hash = h }) ≡ h
  unfolding is_checkpoint start_hash
  checkpoint_genesis zero [] e f = f refl
  checkpoint_genesis zero (x ∷ xs) e f = absurd (cc)
  checkpoint_genesis (suc n) h e f = ground arith

  start_hash-is_checkpoint :
      (s : Store)
      → is_checkpoint crypto (checkpoint_of s) ≡ true
      → IsChained s
      → start_hash crypto (checkpoint_of s) ≡ s.audit_head
  start_hash-is_checkpoint s h chained =
      checkpoint_genesis s.audit_sequence s.audit_head h
        λ z. verify_events-none _ _ 0 s.audit_head (chained ∙ ap (λ n. ok (n, s.audit_head)) z)

  -- Take a store whose chained events verify from the genesis to its persisted head, and the
  -- checkpoint of that head, if it pairs a positive sequence number with a hash or zero with
  -- none. After any list of mutations whose audit events leave the sequence number to the store,
  -- the verification from that checkpoint succeeds and reports the persisted head.
  pub checkpoint-run_history :
      (steps : List Step) (s : Store)
      → IsFresh steps
      → IsChained s
      → is_checkpoint crypto (checkpoint_of s) ≡ true
      → verify_store (checkpoint_of s) (run_history steps s) ≡ ok (report_of (run_history steps s))
  unfolding verify_log compare_head
  checkpoint-run_history steps s h chained at_head =
      let x = run_history-Extends steps s h in
      let old : chained_after s.audit_sequence s.audits ≡ [] =
        sym (chained_after_twice 0 s.audit_sequence s.audits (omega arith))
        ∙ chained_after_verified crypto _ _ s.audit_sequence _ _ _ chained
            (le_refl s.audit_sequence) in
      let later : chained_after s.audit_sequence (run_history steps s).audits
          ≡ chained_after s.audit_sequence x.added =
        ap (chained_after s.audit_sequence) x.log
        ∙ chained_after-append s.audit_sequence s.audits x.added
        ∙ ap (λ l. l ++ chained_after s.audit_sequence x.added) old in
      rw
        (
          at_head,
          start_hash-is_checkpoint s at_head chained,
          later,
          sort_events_verified crypto _ _ _ _ _ x.chain,
          x.chain,
        )
        (ground (arith, bytes_equal_refl (run_history steps s).audit_head))
