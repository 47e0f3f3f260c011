-- ===== src/Store/CallEffects/Tokens.antt =====
-- Every operation on sessions and personal access tokens has an effect.
use credbound.Prelude.{Option, true, lookup, is_some, not, ◌&&◌, ◌==◌}
use credbound.Types.{Uuid, Time, Bytes, Session, Pat, Crypto, Commit, Error}
use credbound.Store.State.{Store}
use credbound.Store.Sessions.{
  create_session, touch_session, revoke_session, revoke_user_sessions, is_present,
  fingerprint_differs,
}
use credbound.Store.Pats.{create_pat, touch_pat, revoke_pat, revoke_user_credentials, lookup_prefix}
use credbound.Store.Revocation.{revoke_user_sessions_locked, revoke_user_credentials_locked}
use credbound.Store.Kept.{stamp_revoked-KeepsAudit, touch-KeepsAudit, touch_token-KeepsAudit}
use credbound.Store.Effects.{
  Effect, Kept-refl, check_context-Effect, require-Effect, fail_if-Effect, transact-Effect,
}

module _ (crypto : Crypto) (ctx : Option Error) (commit : Commit) (s : Store) where
  pub create_session-Effect :
      (session : Session) (digest : Bytes)
      → Effect crypto commit s (λ _. true) (create_session crypto ctx session digest commit s)
  unfolding create_session
  create_session-Effect session digest = check_context-Effect ctx _ (
      fail_if-Effect (is_some (lookup session.id s.sessions)) Error.conflict _ (
        require-Effect (lookup session.user_id s.users) Error.not_found _ λ user.
          fail_if-Effect
            (is_present digest
              && fingerprint_differs crypto digest (lookup session.user_id s.passwords))
            Error.conflict _ (transact-Effect crypto commit _ (λ t. Kept-refl t) s)))

  pub touch_session-Effect :
      (id : Uuid) (at : Time)
      → Effect crypto commit s (λ _. true) (touch_session crypto ctx id at commit s)
  unfolding touch_session
  touch_session-Effect id at = check_context-Effect ctx _ (
      require-Effect (lookup id s.sessions) Error.not_found _ λ session.
        fail_if-Effect (is_some session.revoked_at) Error.conflict _
          (transact-Effect crypto commit _ (touch-KeepsAudit id session at) s))

  pub revoke_session-Effect :
      (id : Uuid) (at : Time)
      → Effect crypto commit s (λ _. true) (revoke_session crypto ctx id at commit s)
  unfolding revoke_session
  revoke_session-Effect id at = check_context-Effect ctx _ (
      require-Effect (lookup id s.sessions) Error.not_found _
        λ session. transact-Effect crypto commit _ (stamp_revoked-KeepsAudit id session at) s)

  pub revoke_user_sessions-Effect :
      (id : Uuid) (at : Time)
      → Effect crypto commit s (λ _. true) (revoke_user_sessions crypto ctx id at commit s)
  unfolding revoke_user_sessions revoke_user_sessions_locked
  revoke_user_sessions-Effect id at = check_context-Effect ctx _ (
      require-Effect (lookup id s.users) Error.not_found _
        λ user. transact-Effect crypto commit _ (λ t. Kept-refl t) s)

  pub create_pat-Effect :
      (pat : Pat) → Effect crypto commit s (λ _. true) (create_pat crypto ctx pat commit s)
  unfolding create_pat
  create_pat-Effect pat = check_context-Effect ctx _ (
      fail_if-Effect (is_some (lookup pat.id s.pats)) Error.conflict _ (
        fail_if-Effect (is_some (lookup_prefix pat.prefix s.pat_prefixes)) Error.conflict _ (
          require-Effect (lookup pat.user_id s.users) Error.not_found _
            λ user. transact-Effect crypto commit _ (λ t. Kept-refl t) s)))

  pub touch_pat-Effect :
      (id : Uuid) (at : Time)
      → Effect crypto commit s (λ _. true) (touch_pat crypto ctx id at commit s)
  unfolding touch_pat
  touch_pat-Effect id at = check_context-Effect ctx _ (
      require-Effect (lookup id s.pats) Error.not_found _
        λ pat. transact-Effect crypto commit _ (touch_token-KeepsAudit id pat at) s)

  pub revoke_pat-Effect :
      (user_id id : Uuid) (at : Time)
      → Effect crypto commit s (λ _. true) (revoke_pat crypto ctx user_id id at commit s)
  unfolding revoke_pat
  revoke_pat-Effect user_id id at = check_context-Effect ctx _ (
      require-Effect (lookup id s.pats) Error.not_found _ λ pat.
        fail_if-Effect (not (pat.user_id == user_id)) Error.not_found _
          (transact-Effect crypto commit _ (λ t. Kept-refl t) s))

  pub revoke_user_credentials-Effect :
      (id : Uuid) (at : Time)
      → Effect crypto commit s (λ _. true) (revoke_user_credentials crypto ctx id at commit s)
  unfolding revoke_user_credentials revoke_user_sessions_locked revoke_user_credentials_locked
  revoke_user_credentials-Effect id at = check_context-Effect ctx _ (
      require-Effect (lookup id s.users) Error.not_found _
        λ user. transact-Effect crypto commit _ (λ t. Kept-refl t) s)
