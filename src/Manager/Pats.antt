-- ===== src/Manager/Pats.antt =====
-- pat.go: `AuthenticatePAT`.
use Prim.Native.String.{String}
use credbound.Prelude.{
  ◌+◌, Bool, true, false, not, ◌&&◌, ◌||◌, Option, none, some, [], ◌==◌, ltb, if◌then◌else◌,
  is_some,
}
use credbound.Types.{Uuid, Time, Pat, AuditEvent, AuditOutcome, AuthMethod, Error}
use credbound.Audit.Encoding.{utf8}
use credbound.Store.Users.{append_audit, user_by_id}
use credbound.Store.Pats.{zero_pat, pat_by_prefix, touch_pat}
use credbound.Manager.State.{Env, Op, done, refuse, either, now, call, plain_commit, ◌>>=◌, ◌>>◌}
use credbound.Manager.Config.{Config}
use credbound.Manager.Authn.{Authentication, aal1}
use credbound.Manager.Audits.{
  new_audit, record_authentication_audit, fail_store, emit_event, emit_authentication_failed,
}
use credbound.Manager.Authorize.{authorize_permission}
use credbound.Manager.Sessions.{match_digest_ring}
use credbound.Manager.Tokens.{parse_pat}

-- `pat.ExpiresAt != nil && !now.Before(*pat.ExpiresAt)`
unfoldable pub has_ended : Time → Option Time → Bool
has_ended at none = false
has_ended at (some expires_at) = not (ltb at expires_at)

-- The snapshot that a token stands for.
abbrev pub pat_authentication : Pat → Time → Authentication
pat_authentication pat at = record {
  user_id = pat.user_id;
  method = AuthMethod.pat;
  level = aal1;
  authenticated_at = at;
  second_factor_required = false;
  workspace_id = pat.workspace_id;
  scopes = pat.scopes;
  credential_digest = [];
}

abbrev pub workspace_actor : Pat → Authentication
workspace_actor pat = record {
  user_id = pat.user_id;
  method = AuthMethod.unset;
  level = 0;
  authenticated_at = 0;
  second_factor_required = false;
  workspace_id = pat.workspace_id;
  scopes = [];
  credential_digest = [];
}

module _ (env : Env) (config : Config) where
  -- The user whom a rejection names: none without a record.
  abbrev pub rejected_user : Pat → Uuid
  rejected_user pat = if pat.id == 0 then 0 else pat.user_id

  unfoldable pub record_unknown_pat_rejection : Op AuditEvent
  record_unknown_pat_rejection = do
    event ←
        new_audit env config 0 "auth.pat" "user" (config.crypto.uuid_string 0) 0 AuditOutcome.failed
          "invalid_credentials"
    either
        (call env (λ ctx.
          append_audit config.crypto ctx (record (plain_commit env event) { unchained = true })))
        (λ _. done event) (fail_store env config "auth.pat")

  unfoldable pub record_rejection : Uuid → Op AuditEvent
  record_rejection user_id =
      if user_id == 0
      then record_unknown_pat_rejection
      else record_authentication_audit env config user_id "auth.pat" AuditOutcome.failed
          "invalid_credentials"

  -- The events and the error after the audit of a rejection.
  unfoldable pub answer_rejection : {A : Type 0} → Uuid → Op A
  answer_rejection user_id = do
    emit_event env config "pat.rejected" "auth.pat.authenticate" user_id "invalid_credentials"
    emit_authentication_failed env config "auth.pat.authenticate" user_id "invalid_credentials"
    refuse Error.invalid_credentials

  unfoldable pub reject_pat : {A : Type 0} → Pat → Op A
  reject_pat pat = do
    event ← record_rejection (rejected_user pat)
    answer_rejection (rejected_user pat)

  unfoldable pub reject_owner : {A : Type 0} → Pat → Op A
  reject_owner pat = do
    event ←
        record_authentication_audit env config pat.user_id "auth.pat" AuditOutcome.failed
          "invalid_credentials"
    answer_rejection pat.user_id

  -- The token's record, or the zero record, and whether it was found.
  unfoldable pub find_pat : Option String → Op (Pat × Bool)
  find_pat none = done (zero_pat, false)
  find_pat (some prefix) =
      either (call env (λ ctx. pat_by_prefix config.crypto ctx prefix)) (λ pat. done (pat, true))
        (λ e. done (zero_pat, false))

  unfoldable pub accepts : String → Time → Pat × Bool → Bool
  accepts raw at (pat, known) =
      (known && match_digest_ring config pat.digest config.read_pat_peppers (utf8 raw))
      && not (is_some pat.revoked_at || has_ended at pat.expires_at)

  unfoldable pub require_owner : Pat → Op (Unit {0})
  require_owner pat =
      either (call env (λ ctx. user_by_id config.crypto ctx pat.user_id))
        (λ user. if user.disabled then reject_owner pat else done tt) (λ e. reject_owner pat)

  unfoldable pub require_binding : Pat → Op (Unit {0})
  require_binding pat =
      if pat.workspace_id == 0
      then done tt
      else either
          (authorize_permission env config (workspace_actor pat) pat.workspace_id
            "workspace.access")
          (λ _. done tt) (λ e. refuse Error.invalid_credentials)

  unfoldable pub is_recent : Time → Option Time → Bool
  is_recent at none = false
  is_recent at (some last_used_at) =
      ltb 0 config.pat_touch_interval && ltb at (last_used_at + config.pat_touch_interval)

  -- The audit and the touch that end an authentication outside the touch interval.
  unfoldable pub touch_and_answer_pat : Pat → Time → Op Authentication
  touch_and_answer_pat pat at = do
    event ←
        new_audit env config pat.user_id "auth.pat" "pat" (config.crypto.uuid_string pat.id)
          pat.workspace_id AuditOutcome.succeeded ""
    either (call env (λ ctx. touch_pat config.crypto ctx pat.id at (plain_commit env event)))
        (λ _. do
          emit_event env config "pat.authenticated" "auth.pat.authenticate" pat.user_id ""
          emit_event env config "authentication.succeeded" "auth.pat.authenticate" pat.user_id ""
          done (pat_authentication pat at))
        (fail_store env config "auth.pat.authenticate")

  unfoldable pub answer_pat : Pat → Time → Op Authentication
  answer_pat pat at = do
    require_owner pat
    require_binding pat
    if is_recent at pat.last_used_at
        then done (pat_authentication pat at)
        else touch_and_answer_pat pat at

  unfoldable pub authenticate_pat : String → Op Authentication
  authenticate_pat raw = do
    found ← find_pat (parse_pat config.pat_prefix raw)
    at ← now env
    if accepts raw at found then answer_pat found.0 at else reject_pat found.0
