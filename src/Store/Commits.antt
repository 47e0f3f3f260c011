-- ===== src/Store/Commits.antt =====
-- memory/store.go: `prepareCommitLocked`, `finishCommitLocked`, `canAudit` and `commitAudit`, the
-- two halves that every mutation shares.
use credbound.Prelude.{
  ◌+◌, Bool, false, ◌||◌, Option, none, some, List, [], ◌∷◌, ◌++◌, str_eq, Map, lookup, insert,
  ◌==◌, ltb, if◌then◌else◌, is_some,
}
use credbound.Types.{
  Uuid, Time, Crypto, AuditEvent, ActorKind, Commit, CeremonyConsumption, Error, ok, err,
}
use credbound.Audit.Hash.{compute_audit_hash}
use credbound.Store.State.{Store, Tx, snapshot, restore, fail, gets, modify, ◌>>=◌, ◌>>◌}

unfoldable pub contains : Uuid → List Uuid → Bool
contains k [] = false
contains k (j ∷ js) = j == k || contains k js

unfoldable pub can_audit : AuditEvent → Store → Option Error
unfolding contains
can_audit event s =
    if is_some s.audit_failure
    then some Error.audit_unavailable
    else if event.id == 0 || str_eq event.action "" || event.occurred_at == 0
    then some Error.audit_unavailable
    else if contains event.id s.audit_ids
    then some Error.conflict
    else none

-- The loop that deletes the ceremonies whose expiry has passed.
unfoldable pub purge_ceremonies : Time → Map Time → Map Time
purge_ceremonies now [] = []
purge_ceremonies now ((id, expires) ∷ m) =
    let rest = purge_ceremonies now m in if ltb expires now then rest else (id, expires) ∷ rest

unfoldable pub consume_ceremony : Option CeremonyConsumption → Time → Tx (Unit {0})
unfolding purge_ceremonies
consume_ceremony none now s = (ok tt, s)
consume_ceremony (some c) now s =
    let live = purge_ceremonies now s.ceremonies in
    if is_some (lookup c.id live)
    then (err Error.conflict, record s { ceremonies = live })
    else (ok tt, record s { ceremonies = insert c.id c.expires_at live })

-- The snapshot is taken only for a commit with hooks.
unfoldable pub snapshot_for : Option (Option Error) → Store → Option Store
unfolding snapshot
snapshot_for none s = none
snapshot_for (some outcome) s = some (snapshot s)

-- What follows `canAudit`, by the error that it found.
unfoldable pub prepare_after : Option Error → Commit → Tx (Option Store)
prepare_after (some e) commit = fail e
prepare_after none commit = do
  consume_ceremony commit.ceremony commit.audit.occurred_at
  gets (snapshot_for commit.transactional)

unfoldable pub prepare_commit : Commit → Tx (Option Store)
prepare_commit commit s = prepare_after (can_audit commit.audit s) commit s

unfoldable pub default_actor_kind : ActorKind → ActorKind
default_actor_kind ActorKind.unset = ActorKind.user
default_actor_kind kind = kind

module _ (crypto : Crypto) where
  unfoldable pub chain_event : AuditEvent → Store → AuditEvent
  chain_event event s = record event {
    sequence = s.audit_sequence + 1;
    previous_hash = s.audit_head;
    hash =
        compute_audit_hash crypto s.audit_head (record event { sequence = s.audit_sequence + 1 });
  }

  unfoldable pub append_audit_event : AuditEvent → Store → Store
  append_audit_event event s = record s {
    audits = s.audits ++ event ∷ [];
    audit_ids = event.id ∷ s.audit_ids;
  }

  unfoldable pub commit_audit : AuditEvent → Bool → Store → Store
  unfolding chain_event append_audit_event default_actor_kind
  commit_audit raw unchained s =
      let event = record raw { actor_kind = default_actor_kind raw.actor_kind } in
      if unchained
      then append_audit_event event s
      else let chained = chain_event event s in
        append_audit_event chained
          (record s { audit_sequence = chained.sequence; audit_head = chained.hash })

  unfoldable pub roll_back : Option Store → Store → Store
  unfolding restore
  roll_back none s = s
  roll_back (some previous) s = restore previous s

  -- The end of a commit, by the outcome of its hooks.
  unfoldable pub finish_after : Option (Option Error) → Commit → Option Store → Tx (Unit {0})
  finish_after none commit previous s = (ok tt, commit_audit commit.audit commit.unchained s)
  finish_after (some none) commit previous s = (ok tt, commit_audit commit.audit commit.unchained s)
  finish_after (some (some e)) commit previous s = (err e, roll_back previous s)

  unfoldable pub finish_commit : Commit → Option Store → Tx (Unit {0})
  finish_commit commit = finish_after commit.transactional commit

  -- The shape of every mutation: prepare, change the maps, finish.
  unfoldable pub transact : Commit → (Store → Store) → Tx (Unit {0})
  transact commit change = do
    previous ← prepare_commit commit
    modify change
    finish_commit commit previous
