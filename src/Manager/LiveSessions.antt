-- ===== src/Manager/LiveSessions.antt =====
-- Which session tokens authenticate.
use credbound.Prelude.{
  ◌+◌, ◌<◌, ◌≡◌, ◌≢◌, refl, ap, sym, ◌∙◌, subst, Bool, true, false, not, Option, none, some, lookup,
  ltb, arith, if◌then◌else◌, inl, inr, is_some, String,
}
use credbound.Types.{Uuid, Time, Session, AuditOutcome, Error, ok, is_conflict}
use credbound.Store.State.{Store}
use credbound.Store.Sessions.{session_by_id, touch_session}
use credbound.Store.Inversion.{check_context-ok, require-end}
use credbound.Manager.State.{World, Env, Op, done, refuse, call, reached, plain_commit, ◌>>=◌}
use credbound.Manager.Config.{Config}
use credbound.Manager.Authn.{Authentication}
use credbound.Manager.Audits.{new_audit, record_authentication_audit, fail_store}
use credbound.Manager.Sessions.{
  authenticate_session, answer_session, find_session, match_token, reject_token, reject_token_if,
  snapshot_of, touch_and_answer, check_idle, require_session_user, is_touched, scrub,
}
use credbound.Manager.Failures.{fail_store-fails}
use credbound.Manager.Inversion.{>>=-ok, either-ok, call-ok}

-- The session that a token names is in the store, unrevoked, unexpired, and holds its digest.
pub record Live (env : Env) (config : Config) (raw : String) (w : World) (authn : Authentication)
    : Type 0 where
  pub id : Uuid
  pub stored : Session
  pub parsed : config.parse_token raw ≡ some id
  pub found : lookup id (reached env w).sessions ≡ some stored
  pub matches : match_token config stored raw ≡ true
  pub unrevoked : is_some stored.revoked_at ≡ false
  pub unexpired : env.clock w.clock_reads < stored.expires_at
  pub answer : authn ≡ snapshot_of stored

module _ (env : Env) (config : Config) where
  session_by_id-ok :
      (ctx : Option Error) (id : Uuid) (s s' : Store) (session : Session)
      → session_by_id config.crypto ctx id s ≡ (ok session, s')
      → (lookup id s.sessions ≡ some session) × (s ≡ s')
  unfolding session_by_id
  session_by_id-ok ctx id s s' session h =
      require-end (lookup id s.sessions) Error.not_found s s' session (check_context-ok ctx _ h)

  pub find_session-ok :
      (o : Option Uuid) (w v : World) (session : Session)
      → find_session env config o w ≡ (ok session, v)
      → (id : Uuid) × (o ≡ some id)
        × (lookup id (reached env w).sessions ≡ some session)
        × (v.clock_reads ≡ w.clock_reads)
        × (v.store ≡ reached env w)
  unfolding find_session
  find_session-ok none w v session h = absurd (cc)
  find_session-ok (some id) w v session h =
      elim (either-ok {w = w} (call env (λ ctx. session_by_id config.crypto ctx id))
        (λ session. done session) _ h) [
          | inr (e, u, called, g) ↦ absurd (cc)
          | inl (stored, u, called, g) ↦
              let (found, same) =
                session_by_id-ok (env.context_error w.calls) id (reached env w) u.store stored
                  (call-ok env (λ ctx. session_by_id config.crypto ctx id) w u stored called) in
              let same_session : stored ≡ session = cc in
              let last : u ≡ v = cc in
              (
                id,
                refl,
                found ∙ ap some same_session,
                ap (λ (x : World). x.clock_reads) (sym last)
                    ∙ ap (λ r. r.1.clock_reads) (sym called),
                ap (λ (x : World). x.store) (sym last) ∙ sym same,
              )
        ]

  module _ {A : Type 0} (session : Session) (action reason : String) (e : Error) where
    reject_token-fails :
        (w w' : World) (a : A) → reject_token env config session action reason e w ≢ (ok a, w')
    unfolding reject_token
    reject_token-fails w w' a h =
        let (event, v, audited, g) =
          >>=-ok {w = w}
            (record_authentication_audit env config session.user_id action AuditOutcome.failed
              reason)
            _ h in
        absurd (cc)

  pub reject_token_if-ok :
      {B : Type 0} (test : Bool) (session : Session) (action reason : String) (e : Error) (m : Op B)
      (w w' : World) (b : B)
      → (reject_token_if env config test session action reason e >>= λ _. m) w ≡ (ok b, w')
      → (test ≡ false) × (m w ≡ (ok b, w'))
  unfolding reject_token_if
  reject_token_if-ok true session action reason e m w w' b h =
      let (u, v, rejected, g) =
        >>=-ok {w = w} (reject_token env config session action reason e) _ h in
      absurd (reject_token-fails session action reason e w v u rejected)
  reject_token_if-ok false session action reason e m w w' b h = (refl, h)

  failed_touch :
      {A : Type 0} (conflicting : Bool) (e : Error) (w w' : World) (a : A)
      → (if conflicting
            then refuse Error.invalid_credentials
            else fail_store env config "auth.session.authenticate" e)
          w
        ≢ (ok a, w')
  failed_touch true e w w' a h = absurd (cc)
  failed_touch false e w w' a h = fail_store-fails env config _ e w w' a h

  touch_and_answer-snapshot :
      (session : Session) (at : Time) (w w' : World) (authn : Authentication) (answer : Session)
      → touch_and_answer env config session at w ≡ (ok (authn, answer), w')
      → authn ≡ snapshot_of session
  unfolding touch_and_answer
  touch_and_answer-snapshot session at w w' authn answer h =
      let (event, v, audited, h1) =
        >>=-ok {w = w}
          (new_audit env config session.user_id "session.authenticate" "session"
            (config.crypto.uuid_string session.id) 0 AuditOutcome.succeeded "")
          _ h in
      elim (either-ok {w = v}
        (call env (λ ctx. touch_session config.crypto ctx session.id at (plain_commit env event)))
        (λ _. done (snapshot_of session, scrub (record session { last_seen_at = at }))) _ h1) [
          | inl (u, v', touched, g) ↦ cc
          | inr (e, v', failed, g) ↦ absurd (failed_touch (is_conflict e) e v' w' (authn, answer) g)
        ]

  answer-snapshot :
      (touched : Bool) (session : Session) (at : Time) (w w' : World) (authn : Authentication)
      (answer : Session)
      → (if touched
            then done (snapshot_of session, scrub session)
            else touch_and_answer env config session at)
          w
        ≡ (ok (authn, answer), w')
      → authn ≡ snapshot_of session
  answer-snapshot true session at w w' authn answer h = cc
  answer-snapshot false session at w w' authn answer h =
      touch_and_answer-snapshot session at w w' authn answer h

  answer_session-ok :
      (raw : String) (session : Session) (v w' : World) (authn : Authentication) (answer : Session)
      → answer_session env config raw session v ≡ (ok (authn, answer), w')
      → (match_token config session raw ≡ true)
        × (is_some session.revoked_at ≡ false)
        × (env.clock v.clock_reads < session.expires_at)
        × (authn ≡ snapshot_of session)
  unfolding answer_session
  answer_session-ok raw session v w' authn answer h1 =
      let (matching, h2) =
        reject_token_if-ok (not (match_token config session raw)) session _ _ _ _ v w'
          (authn, answer) h1 in
      let (unrevoked, h3) =
        reject_token_if-ok (is_some session.revoked_at) session _ _ _ _ v w' (authn, answer) h2 in
      let v1 : World = record v { clock_reads = v.clock_reads + 1 } in
      let (unexpired, h4) =
        reject_token_if-ok (not (ltb (env.clock v.clock_reads) session.expires_at)) session _ _ _ _
          v1 w' (authn, answer) h3 in
      let (idle, v2, checked, h5) = >>=-ok {w = v1} (check_idle env config session) _ h4 in
      let (not_idle, h6) = reject_token_if-ok idle session _ _ _ _ v2 w' (authn, answer) h5 in
      let (u, v3, user, h7) = >>=-ok {w = v2} (require_session_user env config session) _ h6 in
      (
        ground arith,
        unrevoked,
        ground arith,
        answer-snapshot (is_touched config (env.clock v3.clock_reads) session) session
            (env.clock v3.clock_reads) (record v3 { clock_reads = v3.clock_reads + 1 }) w' authn
            answer h7,
      )

  -- When `AuthenticateSession` answers an authentication, whatever other callers do to the store
  -- meanwhile, the token parses to an identifier under which the store, when it was read, holds a
  -- session with a matching digest, not revoked, that expires after the first clock reading, and
  -- the answer is that session's snapshot.
  pub authenticate_session-Live :
      (raw : String) (w w' : World) (authn : Authentication) (answer : Session)
      → authenticate_session env config raw w ≡ (ok (authn, answer), w')
      → Live env config raw w authn
  unfolding authenticate_session
  authenticate_session-Live raw w w' authn answer h =
      let (session, v, named, h1) =
        >>=-ok {w = w} (find_session env config (config.parse_token raw)) _ h in
      let (id, parsed, found, reads, same) =
        find_session-ok (config.parse_token raw) w v session named in
      let (matches, unrevoked, unexpired, snapshot) =
        answer_session-ok raw session v w' authn answer h1 in
      record {
        id = id;
        stored = session;
        parsed = parsed;
        found = found;
        matches = matches;
        unrevoked = unrevoked;
        unexpired = subst (λ n. env.clock n < session.expires_at) reads unexpired;
        answer = snapshot;
      }
