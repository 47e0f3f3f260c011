-- ===== src/Audit/Hash.antt =====
-- audit.go: `ComputeAuditHash`, with the fields that it writes, in its order.
use credbound.Prelude.{◌/◌, String, List, [], ◌∷◌, ◌++◌, ◌==◌, if◌then◌else◌, zeros}
use credbound.Types.{Bytes, Uuid, Crypto, AuditEvent, ActorKind, AuditOutcome}
use credbound.Audit.Encoding.{utf8, decimal, frames}

unfoldable pub actor_kind_text : ActorKind → String
actor_kind_text ActorKind.unset = ""
actor_kind_text ActorKind.user = "user"
actor_kind_text ActorKind.service = "service"
actor_kind_text ActorKind.system = "system"

unfoldable pub outcome_text : AuditOutcome → String
outcome_text AuditOutcome.succeeded = "succeeded"
outcome_text AuditOutcome.failed = "failed"

-- `auditChainGenesis`: 32 zero bytes.
abbrev pub audit_chain_genesis : Bytes
audit_chain_genesis = zeros 32

module _ (crypto : Crypto) where
  unfoldable pub hashed_id : Uuid → Bytes
  hashed_id id = if id == 0 then [] else utf8 (crypto.uuid_string id)

  -- The thirteen fields that are hashed.
  unfoldable pub canonical : AuditEvent → List Bytes
  canonical event =
      decimal event.sequence
      ∷ hashed_id event.id
      ∷ decimal (event.occurred_at / 1000)
      ∷ utf8 (actor_kind_text event.actor_kind)
      ∷ hashed_id event.actor_id
      ∷ utf8 event.action
      ∷ utf8 event.resource_type
      ∷ utf8 event.resource_id
      ∷ hashed_id event.workspace_id
      ∷ utf8 (outcome_text event.outcome)
      ∷ utf8 event.reason
      ∷ utf8 event.ip_address
      ∷ utf8 event.user_agent
      ∷ []

  unfoldable pub or_genesis : Bytes → Bytes
  or_genesis [] = audit_chain_genesis
  or_genesis (b ∷ bs) = b ∷ bs

  unfoldable pub compute_audit_hash : Bytes → AuditEvent → Bytes
  unfolding or_genesis canonical
  compute_audit_hash previous event =
      crypto.sha256 (or_genesis previous ++ frames (canonical event))
