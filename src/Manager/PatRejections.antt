-- ===== src/Manager/PatRejections.antt =====
-- The rejections of a personal access token only refuse.
use credbound.Prelude.{◌≢◌}
use credbound.Types.{Uuid, Pat, AuditOutcome, ok}
use credbound.Manager.State.{World, Env}
use credbound.Manager.Config.{Config}
use credbound.Manager.Audits.{record_authentication_audit, emit_event, emit_authentication_failed}
use credbound.Manager.Pats.{
  rejected_user, record_rejection, answer_rejection, reject_pat, reject_owner,
}
use credbound.Manager.Inversion.{>>=-ok}

module _ (env : Env) (config : Config) where
  answer_rejection-fails :
      {A : Type 0} (user_id : Uuid) (w w' : World) (a : A)
      → answer_rejection env config user_id w ≢ (ok a, w')
  unfolding answer_rejection
  answer_rejection-fails user_id w w' a h =
      let (u, v, rejected, h1) =
        >>=-ok {w = w}
          (emit_event env config "pat.rejected" "auth.pat.authenticate" user_id
            "invalid_credentials")
          _ h in
      let (u', v', failed, h2) =
        >>=-ok {w = v}
          (emit_authentication_failed env config "auth.pat.authenticate" user_id
            "invalid_credentials")
          _ h1 in
      absurd (cc)

  pub reject_pat-fails :
      {A : Type 0} (pat : Pat) (w w' : World) (a : A) → reject_pat env config pat w ≢ (ok a, w')
  unfolding reject_pat
  reject_pat-fails pat w w' a h =
      let (event, v, audited, h1) =
        >>=-ok {w = w} (record_rejection env config (rejected_user env config pat)) _ h in
      answer_rejection-fails (rejected_user env config pat) v w' a h1

  pub reject_owner-fails :
      {A : Type 0} (pat : Pat) (w w' : World) (a : A) → reject_owner env config pat w ≢ (ok a, w')
  unfolding reject_owner
  reject_owner-fails pat w w' a h =
      let (event, v, audited, h1) =
        >>=-ok {w = w}
          (record_authentication_audit env config pat.user_id "auth.pat" AuditOutcome.failed
            "invalid_credentials")
          _ h in
      answer_rejection-fails pat.user_id v w' a h1
