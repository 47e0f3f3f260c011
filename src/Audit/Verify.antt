-- ===== src/Audit/Verify.antt =====
-- memory/store.go: `ChainedAuditEvents`; audit.go: the checks of `VerifyAuditChainFrom` after its
-- authorization.
use credbound.Prelude.{
  ℕ, ◌+◌, Bool, not, ◌&&◌, List, [], ◌∷◌, ltb, ◌==◌, if◌then◌else◌, bytes_equal,
}
use credbound.Types.{
  Bytes, Crypto, AuditEvent, AuditChainCheckpoint, AuditChainReport, Error, Result, ok, err,
}
use credbound.Audit.Hash.{compute_audit_hash, audit_chain_genesis}

-- The events above a sequence number, in the order of the log.
unfoldable pub chained_after : ℕ → List AuditEvent → List AuditEvent
chained_after n [] = []
chained_after n (e ∷ es) =
    let rest = chained_after n es in if ltb n e.sequence then e ∷ rest else rest

-- `sort.Slice` by sequence number.
unfoldable pub insert_event : AuditEvent → List AuditEvent → List AuditEvent
insert_event e [] = e ∷ []
insert_event e (f ∷ fs) = if ltb f.sequence e.sequence then f ∷ insert_event e fs else e ∷ f ∷ fs

unfoldable pub sort_events : List AuditEvent → List AuditEvent
unfolding insert_event
sort_events [] = []
sort_events (e ∷ es) = insert_event e (sort_events es)

module _ (crypto : Crypto) where
  -- The two tests that the loop makes on one event.
  unfoldable pub extends : Bytes → ℕ → AuditEvent → Bool
  extends previous sequence e =
      e.sequence == sequence + 1
      && (bytes_equal e.previous_hash previous
          && bytes_equal e.hash (compute_audit_hash crypto previous e))

  -- The loop: the sequence number and the hash of the last event.
  unfoldable pub verify_events : Bytes → ℕ → List AuditEvent → Result (ℕ × Bytes)
  verify_events previous sequence [] = ok (sequence, previous)
  verify_events previous sequence (e ∷ es) =
      let rest = verify_events e.hash (sequence + 1) es in
      if extends previous sequence e then rest else err Error.audit_compromised

  unfoldable pub is_checkpoint : AuditChainCheckpoint → Bool
  is_checkpoint checkpoint = elim checkpoint.hash [
    | [] ↦ checkpoint.sequence == 0
    | _ ↦ not (checkpoint.sequence == 0)
  ]

  unfoldable pub start_hash : AuditChainCheckpoint → Bytes
  start_hash checkpoint = if ltb 0 checkpoint.sequence then checkpoint.hash else audit_chain_genesis

  -- The comparison with the persisted head.
  unfoldable pub compare_head : ℕ → Bytes → Result (ℕ × Bytes) → Result AuditChainReport
  compare_head head_sequence head_hash (err e) = err e
  compare_head head_sequence head_hash (ok (sequence, previous)) =
      if head_sequence == sequence && bytes_equal head_hash previous
      then ok (record { events = sequence; head_sequence = head_sequence; head_hash = head_hash })
      else err Error.audit_compromised

  unfoldable pub verify_log :
      AuditChainCheckpoint → List AuditEvent → ℕ → Bytes → Result AuditChainReport
  verify_log checkpoint audits head_sequence head_hash =
      if is_checkpoint checkpoint
      then compare_head head_sequence head_hash (
          verify_events (start_hash checkpoint) checkpoint.sequence
            (sort_events (chained_after checkpoint.sequence audits)))
      else err Error.invalid_input
