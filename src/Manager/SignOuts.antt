-- ===== src/Manager/SignOuts.antt =====
-- What a sign-out leaves.
use credbound.Prelude.{
  ◌+◌, ◌≡◌, refl, ap, ◌∙◌, subst, Bool, true, false, not, some, lookup, if◌then◌else◌, inl, inr,
  is_some, String,
}
use credbound.Types.{Uuid, Time, Session, AuditOutcome, Commit, ok}
use credbound.Store.State.{Store}
use credbound.Store.Sessions.{revoke_session}
use credbound.Store.RevokingCalls.{IsRevoked, revoke_session-IsRevoked}
use credbound.Manager.State.{World, Env, done, emit, call, reached}
use credbound.Manager.Config.{Config}
use credbound.Manager.Audits.{new_audit, fail_store}
use credbound.Manager.Ids.{new_id}
use credbound.Manager.Sessions.{
  sign_out, find_session, match_token, commit_revocation, perform_revocation, transactional_commit,
}
use credbound.Manager.Failures.{fail_store-fails}
use credbound.Manager.Inversion.{>>=-ok, either-ok, call-ok}
use credbound.Manager.LiveSessions.{find_session-ok, reject_token_if-ok}

module _ (env : Env) (config : Config) where
  perform_revocation-IsRevoked :
      (actor id : Uuid) (operation : String) (commit : Commit) (at : Time) (w w' : World)
      → perform_revocation env config actor id operation commit at w ≡ (ok tt, w')
      → IsRevoked id w'.store
  unfolding perform_revocation
  perform_revocation-IsRevoked actor id operation commit at w w' h =
      elim (either-ok {w = w} (call env (λ ctx. revoke_session config.crypto ctx id at commit))
        (λ _. emit (record {
          name = "session.revoked";
          operation = operation;
          user_id = actor;
          reason = "";
        }))
        (fail_store env config operation) h) [
          | inr (e, u, failed, g) ↦ absurd (fail_store-fails env config operation e u w' tt g)
          | inl (t, u, called, g) ↦ subst (IsRevoked id) (ap (λ r. r.1.store) g) (
              revoke_session-IsRevoked config.crypto (env.context_error w.calls) commit
                (reached env w) u.store id at
                (call-ok env (λ ctx. revoke_session config.crypto ctx id at commit) w u t called))
        ]

  commit_revocation-IsRevoked :
      (actor id : Uuid) (action operation : String) (w w' : World)
      → commit_revocation env config actor id action operation w ≡ (ok tt, w')
      → IsRevoked id w'.store
  unfolding commit_revocation
  commit_revocation-IsRevoked actor id action operation w w' h =
      let (event, v, audited, h1) =
        >>=-ok {w = w}
          (new_audit env config actor action "session" (config.crypto.uuid_string id) 0
            AuditOutcome.succeeded "")
          _ h in
      let (meta, v1, drawn, h2) = >>=-ok {w = v} (new_id env) _ h1 in
      let v2 : World = record v1 { clock_reads = v1.clock_reads + 1 } in
      let (commit, v3, made, h3) = >>=-ok {w = v2} (transactional_commit env config event) _ h2 in
      perform_revocation-IsRevoked actor id operation commit (env.clock v3.clock_reads)
        (record v3 { clock_reads = v3.clock_reads + 1 }) w' h3

  -- Suppose the sessions that the store holds when a sign-out reads it are kept under their own
  -- identifiers. When the sign-out succeeds, whatever other callers do, the token parses to an
  -- identifier under which the store that is left has a revoked session.
  pub sign_out-IsRevoked :
      (raw : String) (w w' : World)
      → ((id : Uuid) (session : Session)
          → lookup id (reached env w).sessions ≡ some session
          → session.id ≡ id)
      → sign_out env config raw w ≡ (ok tt, w')
      → (id : Uuid) × (config.parse_token raw ≡ some id) × IsRevoked id w'.store
  unfolding sign_out
  sign_out-IsRevoked raw w w' keyed h =
      let (session, v, named, h1) =
        >>=-ok {w = w} (find_session env config (config.parse_token raw)) _ h in
      let (id, parsed, found, reads, same) =
        find_session-ok env config (config.parse_token raw) w v session named in
      let (matching, h2) =
        reject_token_if-ok env config (not (match_token config session raw)) session _ _ _ _ v w' tt
          h1 in
      (
        id,
        parsed,
        go (is_some session.revoked_at) v id session refl (keyed id session found)
            (ap (λ (s : Store). lookup id s.sessions) same ∙ found) h2,
      )
    where
      go :
          (revoked : Bool) (v : World) (id : Uuid) (session : Session)
          → is_some session.revoked_at ≡ revoked
          → session.id ≡ id
          → lookup id v.store.sessions ≡ some session
          → (if revoked
                then done tt
                else commit_revocation env config session.user_id session.id "session.sign_out"
                    "auth.session.sign_out")
              v
            ≡ (ok tt, w')
          → IsRevoked id w'.store
      go true v id session revoked key found h =
          subst (IsRevoked id) (ap (λ r. r.1.store) h) (session, found, revoked)
      go false v id session live key found h =
          subst (λ k. IsRevoked k w'.store) key
            (commit_revocation-IsRevoked session.user_id session.id _ _ v w' h)
