-- ===== src/Tests/Chains.antt =====
-- A history of calls, its log and the verification of it.
use credbound.Prelude.{◌≡◌, refl, true, none, some, List, [], ◌∷◌, lookup, zeros, map, ◌⊎◌, Map}
use credbound.Types.{ok, Error, Commit, AuditEvent, Time}
use credbound.Audit.Hash.{compute_audit_hash, canonical, audit_chain_genesis}
use credbound.Audit.Verify.{chained_after, is_checkpoint, verify_events}
use credbound.Audit.Tamper.{Collision, tampering_needs_collision}
use credbound.Store.State.{Store}
use credbound.Store.Commits
use credbound.Store.Passwords
use credbound.Store.Users
use credbound.Store.Effects.{with_ceremonies, undone}
use credbound.Store.Calls.{Call, run_call}
use credbound.Store.Outcomes.{run_call_atomic, run_call-Audited, Records}
use credbound.Store.History.{
  Step, run_history, IsChained, run_history-IsChained, verify_store, report_of,
  verify_store-run_history, checkpoint_of, checkpoint-run_history,
}
use credbound.Tests.Fixture.{crypto, event, commit, store, new_password}

-- An audited event, then a password change.
abbrev first : List Step
first = record { ctx = none; commit = commit 90; call = Call.append_audit } ∷ []

abbrev second : List Step
second = record { ctx = none; commit = commit 91; call = Call.change_password new_password 50 } ∷ []

abbrev started : Store
started = run_history crypto first store

abbrev logged : Store
logged = run_history crypto second started

store-IsChained : IsChained crypto store
unfolding chained_after verify_events
store-IsChained = refl

started-IsChained : IsChained crypto started
started-IsChained = run_history-IsChained crypto first store (refl, tt) store-IsChained

logged-IsChained : IsChained crypto logged
logged-IsChained = run_history-IsChained crypto second started (refl, tt) started-IsChained

verify_store-run_history_example :
    verify_store crypto (record { sequence = 0; hash = [] }) logged ≡ ok (report_of crypto logged)
verify_store-run_history_example =
    verify_store-run_history crypto second started (refl, tt) started-IsChained

checkpoint-run_history_example :
    verify_store crypto (checkpoint_of crypto started) logged ≡ ok (report_of crypto logged)
unfolding is_checkpoint run_history run_call Users.append_audit Commits.transact
    Commits.prepare_commit Commits.prepare_after Commits.can_audit Commits.contains
    Commits.consume_ceremony Commits.snapshot_for Commits.finish_commit Commits.finish_after
    Commits.commit_audit Commits.chain_event Commits.append_audit_event compute_audit_hash zeros
checkpoint-run_history_example =
    checkpoint-run_history crypto second started (refl, tt) started-IsChained refl

tampering_needs_collision_example :
    ((audit_chain_genesis ≡ audit_chain_genesis)
      × (map (canonical crypto) (chained_after 0 logged.audits)
          ≡ map (canonical crypto) (chained_after 0 logged.audits)))
    ⊎ Collision crypto
unfolding zeros
tampering_needs_collision_example =
    tampering_needs_collision crypto (λ x. refl) (chained_after 0 logged.audits)
      (chained_after 0 logged.audits) audit_chain_genesis audit_chain_genesis 0
      logged.audit_sequence logged.audit_head refl refl logged-IsChained logged-IsChained

-- A hook that refuses the change.
abbrev rejected : Commit
rejected = record (commit 90) { transactional = some (some Error.forbidden) }

abbrev after_rejection : Store
after_rejection = (run_call crypto none rejected (Call.change_password new_password 50) store).1

run_call_atomic_example :
    (c : Map Time) × ((after_rejection ≡ with_ceremonies c store)
      ⊎ (after_rejection ≡ undone c store))
unfolding run_call Passwords.change_password Commits.transact Commits.prepare_commit
    Commits.prepare_after Commits.can_audit Commits.contains Commits.consume_ceremony
    Commits.snapshot_for Commits.finish_commit Commits.finish_after lookup
run_call_atomic_example =
    run_call_atomic crypto none rejected (Call.change_password new_password 50) store
      Error.forbidden after_rejection refl

abbrev after_change : Store
after_change = (run_call crypto none (commit 90) (Call.change_password new_password 50) store).1

run_call-Audited_example : (e : AuditEvent) × (after_change.audits ≡ e ∷ []) × Records (event 90) e
unfolding run_call Passwords.change_password Commits.transact Commits.prepare_commit
    Commits.prepare_after Commits.can_audit Commits.contains Commits.consume_ceremony
    Commits.snapshot_for Commits.finish_commit Commits.finish_after lookup
run_call-Audited_example =
    run_call-Audited crypto none (commit 90) (Call.change_password new_password 50) store true
      after_change refl
