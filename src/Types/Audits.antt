-- ===== src/Types/Audits.antt =====
-- types.go and ports.go: audit events, and what a store call commits with its change.
use credbound.Prelude.{ℕ, Bool, Option, String}
use credbound.Types.Errors.{Error}
use credbound.Types.Accounts.{Uuid, Time}
use credbound.Types.Credentials.{Bytes}

-- `ActorKind`; `unset` is the empty string.
pub data ActorKind : Type 0 where
  unset user service system : ActorKind

pub data AuditOutcome : Type 0 where
  succeeded failed : AuditOutcome

pub record AuditEvent : Type 0 where
  pub id : Uuid
  pub occurred_at : Time
  pub actor_kind : ActorKind
  pub actor_id : Uuid
  pub action : String
  pub resource_type : String
  pub resource_id : String
  pub workspace_id : Uuid
  pub outcome : AuditOutcome
  pub reason : String
  pub ip_address : String
  pub user_agent : String
  pub sequence : ℕ
  pub previous_hash : Bytes
  pub hash : Bytes

pub record CeremonyConsumption : Type 0 where
  pub id : Uuid
  pub expires_at : Time

-- `transactional` is absent, or the outcome of the host's hooks: `some none` is their success, and
-- `some (some e)` the error with which they reject the transaction.
pub record Commit : Type 0 where
  pub audit : AuditEvent
  pub transactional : Option (Option Error)
  pub ceremony : Option CeremonyConsumption
  pub unchained : Bool

pub record AuditChainCheckpoint : Type 0 where
  pub sequence : ℕ
  pub hash : Bytes

pub record AuditChainReport : Type 0 where
  pub events : ℕ
  pub head_sequence : ℕ
  pub head_hash : Bytes
