-- ===== src/Manager/Sessions.antt =====
-- session.go: `AuthenticateSession`, `SignOut` and `RevokeSession`; internal.go: `matchTokenDigest`.
-- The store keeps sessions, so the operations never answer `ErrNotSupported`.
use credbound.Prelude.{
  ◌+◌, Bool, true, false, not, ◌&&◌, ◌||◌, Option, none, some, List, [], ◌∷◌, ◌++◌, String, ◌==◌,
  ltb, if◌then◌else◌, is_some, bytes_equal,
}
use credbound.Types.{
  Uuid, Time, Bytes, Session, AuditEvent, AuditOutcome, Commit, Error, ok, is_not_found,
  is_conflict, map_transaction_error,
}
use credbound.Audit.Encoding.{utf8}
use credbound.Store.Users.{user_by_id}
use credbound.Store.Sessions.{session_by_id, touch_session, revoke_session}
use credbound.Manager.State.{
  Env, Op, done, refuse, refuse_if, either, emit, now, call, plain_commit, ◌>>=◌, ◌>>◌,
}
use credbound.Manager.Config.{Config, StepUpScope}
use credbound.Manager.Authn.{Authentication}
use credbound.Manager.Audits.{new_audit, record_authentication_audit, fail_store}
use credbound.Manager.Ids.{new_id}
use credbound.Manager.StepUp.{require_scoped_step_up}

module _ (config : Config) where
  unfoldable pub match_digest_ring : Bytes → List Bytes → Bytes → Bool
  match_digest_ring stored [] value = false
  match_digest_ring stored (key ∷ keys) value =
      bytes_equal stored (config.crypto.hmac key value) || match_digest_ring stored keys value

  unfoldable pub match_token : Session → String → Bool
  match_token session raw =
      match_digest_ring session.digest config.read_digest_keys (utf8 "session:" ++ utf8 raw)

  -- Past the idle timeout, if there is one.
  unfoldable pub is_idle : Time → Session → Bool
  is_idle at session =
      ltb 0 config.session_idle_timeout
      && not (ltb at (session.last_seen_at + config.session_idle_timeout))

  -- Within the touch interval, if there is one.
  unfoldable pub is_touched : Time → Session → Bool
  is_touched at session =
      ltb 0 config.session_touch_interval
      && ltb at (session.last_seen_at + config.session_touch_interval)

abbrev pub scrub : Session → Session
scrub session = record session { digest = [] }

-- The snapshot that a session holds of the authentication that created it.
unfoldable pub snapshot_of : Session → Authentication
snapshot_of session = record {
  user_id = session.user_id;
  method = session.method;
  level = session.level;
  authenticated_at = session.authenticated_at;
  second_factor_required = session.second_factor_required;
  workspace_id = 0;
  scopes = [];
  credential_digest = [];
}

module _ (env : Env) (config : Config) where
  -- `transactionalCommit`: the hooks' outcome, with a hook's error mapped.
  unfoldable pub transactional_commit : AuditEvent → Op Commit
  transactional_commit event w = (
    ok (record {
      audit = event;
      transactional = some (elim (env.hook_outcome w.calls) [
        | none ↦ none
        | some e ↦ some (map_transaction_error e)
      ]);
      ceremony = none;
      unchained = false;
    }),
    w,
  )

  -- The rejection of a token, audited with its reason.
  unfoldable pub reject_token : {A : Type 0} → Session → String → String → Error → Op A
  reject_token session action reason e = do
    event ← record_authentication_audit env config session.user_id action AuditOutcome.failed reason
    refuse e

  unfoldable pub reject_token_if : Bool → Session → String → String → Error → Op (Unit {0})
  reject_token_if true session action reason e = reject_token session action reason e
  reject_token_if false session action reason e = done tt

  -- `parseSecretToken` and the lookup of the session that it names.
  unfoldable pub find_session : Option Uuid → Op Session
  find_session none = refuse Error.invalid_credentials
  find_session (some session_id) =
      either (call env (λ ctx. session_by_id config.crypto ctx session_id))
        (λ session. done session)
        (λ e. refuse (if is_not_found e then Error.invalid_credentials else e))

  -- The audit and the touch that end an authentication outside the touch interval.
  unfoldable pub touch_and_answer : Session → Time → Op (Authentication × Session)
  touch_and_answer session at = do
    event ←
        new_audit env config session.user_id "session.authenticate" "session"
          (config.crypto.uuid_string session.id) 0 AuditOutcome.succeeded ""
    either
        (call env (λ ctx. touch_session config.crypto ctx session.id at (plain_commit env event)))
        (λ _. done (snapshot_of session, scrub (record session { last_seen_at = at })))
        (λ e.
          if is_conflict e
          then refuse Error.invalid_credentials
          else fail_store env config "auth.session.authenticate" e)

  unfoldable pub require_session_user : Session → Op (Unit {0})
  require_session_user session =
      either (call env (λ ctx. user_by_id config.crypto ctx session.user_id))
        (λ user.
          reject_token_if user.disabled session "session.authenticate" "user_disabled"
            Error.invalid_credentials)
        (λ e.
          if is_not_found e
          then reject_token session "session.authenticate" "user_disabled" Error.invalid_credentials
          else refuse e)

  -- The idle check reads the clock only under a timeout.
  unfoldable pub check_idle : Session → Op Bool
  check_idle session =
      if ltb 0 config.session_idle_timeout
      then (do at ← now env; done (is_idle config at session))
      else done false

  -- The checks on the session that was found.
  unfoldable pub answer_session : String → Session → Op (Authentication × Session)
  answer_session raw session = do
    reject_token_if (not (match_token config session raw)) session "session.authenticate"
        "invalid_credentials" Error.invalid_credentials
    reject_token_if (is_some session.revoked_at) session "session.authenticate" "revoked"
        Error.invalid_credentials
    checked_at ← now env
    reject_token_if (not (ltb checked_at session.expires_at)) session "session.authenticate"
        "expired" Error.expired
    idle ← check_idle session
    reject_token_if idle session "session.authenticate" "idle" Error.expired
    require_session_user session
    at ← now env
    if is_touched config at session
        then done (snapshot_of session, scrub session)
        else touch_and_answer session at

  unfoldable pub authenticate_session : String → Op (Authentication × Session)
  authenticate_session raw = do
    session ← find_session (config.parse_token raw)
    answer_session raw session

  -- The call of the store and the event after it.
  unfoldable pub perform_revocation : Uuid → Uuid → String → Commit → Time → Op (Unit {0})
  perform_revocation actor session_id operation commit at =
      either (call env (λ ctx. revoke_session config.crypto ctx session_id at commit))
        (λ _. emit (record {
          name = "session.revoked";
          operation = operation;
          user_id = actor;
          reason = "";
        }))
        (fail_store env config operation)

  -- The revocation that both operations below end in.
  unfoldable pub commit_revocation : Uuid → Uuid → String → String → Op (Unit {0})
  commit_revocation actor session_id action operation = do
    event ←
        new_audit env config actor action "session" (config.crypto.uuid_string session_id) 0
          AuditOutcome.succeeded ""
    meta ← new_id env
    meta_at ← now env
    commit ← transactional_commit event
    at ← now env
    perform_revocation actor session_id operation commit at

  unfoldable pub sign_out : String → Op (Unit {0})
  sign_out raw = do
    session ← find_session (config.parse_token raw)
    reject_token_if (not (match_token config session raw)) session "session.sign_out"
        "invalid_credentials" Error.invalid_credentials
    if is_some session.revoked_at
        then done tt
        else commit_revocation session.user_id session.id "session.sign_out" "auth.session.sign_out"

  unfoldable pub revoke_own_session : Authentication → Uuid → Op (Unit {0})
  revoke_own_session actor session_id = do
    require_scoped_step_up env config actor StepUpScope.account "auth.session.revoke"
    refuse_if (session_id == 0) Error.invalid_input
    session ← call env (λ ctx. session_by_id config.crypto ctx session_id)
    refuse_if (not (session.user_id == actor.user_id)) Error.not_found
    commit_revocation actor.user_id session_id "session.revoke" "auth.session.revoke"
