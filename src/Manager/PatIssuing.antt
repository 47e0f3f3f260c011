-- ===== src/Manager/PatIssuing.antt =====
-- pat.go: `CreatePAT` and `RevokePAT`.
use Prim.Native.String.{String}
use credbound.Prelude.{
  not, ◌||◌, Option, none, some, List, [], str_eq, ◌==◌, ltb, leb, length, if◌then◌else◌,
}
use credbound.Types.{Uuid, Time, Bytes, Pat, AuditOutcome, Commit, Error}
use credbound.Audit.Encoding.{utf8}
use credbound.Store.Pats.{create_pat, revoke_pat}
use credbound.Manager.State.{
  Env, Op, done, refuse_if, either, emit, now, random_bytes, call, ◌>>=◌, ◌>>◌,
}
use credbound.Manager.Config.{Config, StepUpScope}
use credbound.Manager.Authn.{Authentication}
use credbound.Manager.Ids.{new_id}
use credbound.Manager.Audits.{new_audit, fail_store}
use credbound.Manager.StepUp.{require_scoped_step_up}
use credbound.Manager.Authorize.{authorize_permission, of_result}
use credbound.Manager.Sessions.{transactional_commit}
use credbound.Manager.Tokens.{pat_text, hex_encode}
use credbound.Manager.PatScopes.{trim_space, normalize_scopes}

pub record CreatePatInput : Type 0 where
  pub name : String
  pub workspace_id : Uuid
  pub scopes : List String
  pub expires_at : Option Time

pub record IssuedPat : Type 0 where
  pub pat : Pat
  pub token : String

module _ (env : Env) (config : Config) where
  unfoldable pub check_expiration : Option Time → Op (Unit {0})
  check_expiration none = done tt
  check_expiration (some expires_at) = do
    at ← now env
    refuse_if (not (ltb at expires_at)) (Error.validation "expires_at" "past")

  unfoldable pub new_pat :
      Authentication → CreatePatInput → List String → Bytes → String → Uuid → Time → Pat
  new_pat actor input scopes prefix raw id at = record {
    id = id;
    user_id = actor.user_id;
    name = trim_space input.name;
    prefix = hex_encode prefix;
    digest = config.crypto.hmac config.pat_pepper (utf8 raw);
    workspace_id = input.workspace_id;
    scopes = scopes;
    created_at = at;
    expires_at = input.expires_at;
    last_used_at = none;
    revoked_at = none;
  }

  unfoldable pub store_pat : Pat → String → Commit → Op IssuedPat
  store_pat pat raw commit =
      either (call env (λ ctx. create_pat config.crypto ctx pat commit))
        (λ _. do
          emit (record {
            name = "pat.created";
            operation = "auth.pat.create";
            user_id = pat.user_id;
            reason = "";
          })
          done (record { pat = record pat { digest = [] }; token = raw }))
        (fail_store env config "auth.pat.create")

  -- The draws of the two parts, the identifier, the audit and the call of the store.
  unfoldable pub issue_pat : Authentication → CreatePatInput → List String → Op IssuedPat
  unfolding new_pat store_pat
  issue_pat actor input scopes = do
    prefix ← random_bytes env
    secret ← random_bytes env
    id ← new_id env
    at ← now env
    event ←
        new_audit env config actor.user_id "pat.create" "pat" (config.crypto.uuid_string id)
          input.workspace_id AuditOutcome.succeeded ""
    meta ← new_id env
    meta_at ← now env
    commit ← transactional_commit env config event
    store_pat (new_pat actor input scopes prefix (pat_text config.pat_prefix prefix secret) id at)
        (pat_text config.pat_prefix prefix secret) commit

  unfoldable pub create_own_pat : Authentication → CreatePatInput → Op IssuedPat
  create_own_pat actor input = do
    require_scoped_step_up env config actor StepUpScope.pat "auth.pat.create"
    refuse_if
        (str_eq (trim_space input.name) "" || not (leb (length (utf8 (trim_space input.name))) 100))
        (Error.validation "name" "length")
    check_expiration input.expires_at
    if input.workspace_id == 0
        then done tt
        else authorize_permission env config actor input.workspace_id "workspace.access"
    scopes ← of_result (normalize_scopes input.scopes)
    issue_pat actor input scopes

  unfoldable pub perform_pat_revocation : Uuid → Uuid → Commit → Time → Op (Unit {0})
  perform_pat_revocation user_id pat_id commit at =
      either (call env (λ ctx. revoke_pat config.crypto ctx user_id pat_id at commit))
        (λ _. emit (record {
          name = "pat.revoked";
          operation = "auth.pat.revoke";
          user_id = user_id;
          reason = "";
        }))
        (fail_store env config "auth.pat.revoke")

  unfoldable pub revoke_own_pat : Authentication → Uuid → Op (Unit {0})
  revoke_own_pat actor pat_id = do
    require_scoped_step_up env config actor StepUpScope.pat "auth.pat.revoke"
    refuse_if (pat_id == 0) Error.invalid_input
    event ←
        new_audit env config actor.user_id "pat.revoke" "pat" (config.crypto.uuid_string pat_id) 0
          AuditOutcome.succeeded ""
    meta ← new_id env
    meta_at ← now env
    commit ← transactional_commit env config event
    at ← now env
    perform_pat_revocation actor.user_id pat_id commit at
