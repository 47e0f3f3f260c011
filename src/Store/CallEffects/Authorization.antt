-- ===== src/Store/CallEffects/Authorization.antt =====
-- memory/oauth.go: the effects of the mutations of tokens, grants and codes.
use credbound.Prelude.{true, not, ◌||◌, Option, lookup, ltb, ◌==◌, is_some}
use credbound.Types.{
  Uuid, Time, OauthInitialAccessToken, OauthClientAccessToken, OauthGrant, OauthAuthorizationCode,
  OauthAccessToken, OauthRefreshToken, Crypto, Commit, Error,
}
use credbound.Store.State.{Store}
use credbound.Store.Pats.{lookup_prefix}
use credbound.Store.Effects.{
  Effect, Kept-refl, check_context-Effect, require-Effect, fail_if-Effect, transact-Effect,
}
use credbound.Store.Oauth.Initials.{
  create_oauth_initial_access_token, revoke_oauth_initial_access_token,
  create_oauth_client_access_token, revoke_oauth_client_access_token,
}
use credbound.Store.Oauth.Codes.{
  refresh_is_taken, create_oauth_grant_and_code, revoke_oauth_grant,
  consume_oauth_authorization_code, revoke_oauth_access_token,
}
use credbound.Store.Oauth.Refresh.{
  family_grants, is_empty, rotate_oauth_refresh_token, revoke_oauth_refresh_family,
}
use credbound.Store.Oauth.Kept.{
  redeem_code-KeepsAudit, replace_refresh_token-KeepsAudit, revoke_family-KeepsAudit,
  stamp_access_token-KeepsAudit, revoke_grant_locked-KeepsAudit,
}

module _ (crypto : Crypto) (ctx : Option Error) (commit : Commit) (s : Store) where
  pub create_oauth_initial_access_token-Effect :
      (token : OauthInitialAccessToken)
      → Effect crypto commit s
          (λ _. true)
          (create_oauth_initial_access_token crypto ctx token commit s)
  unfolding create_oauth_initial_access_token
  create_oauth_initial_access_token-Effect token = check_context-Effect ctx _ (
      fail_if-Effect (not (is_some (lookup token.issuer_id s.oauth_issuers))) Error.not_found _ (
        fail_if-Effect (is_some (lookup token.id s.oauth_initial_tokens)) Error.conflict _ (
          fail_if-Effect (is_some (lookup_prefix token.prefix s.oauth_initial_keys)) Error.conflict
            _ (transact-Effect crypto commit _ (λ t. Kept-refl t) s))))

  pub revoke_oauth_initial_access_token-Effect :
      (id : Uuid) (at : Time)
      → Effect crypto commit s
          (λ _. true)
          (revoke_oauth_initial_access_token crypto ctx id at commit s)
  unfolding revoke_oauth_initial_access_token
  revoke_oauth_initial_access_token-Effect id at = check_context-Effect ctx _ (
      require-Effect (lookup id s.oauth_initial_tokens) Error.not_found _
        (λ token. transact-Effect crypto commit _ (λ t. Kept-refl t) s))

  pub create_oauth_client_access_token-Effect :
      (token : OauthClientAccessToken)
      → Effect crypto commit s
          (λ _. true)
          (create_oauth_client_access_token crypto ctx token commit s)
  unfolding create_oauth_client_access_token
  create_oauth_client_access_token-Effect token = check_context-Effect ctx _ (
      fail_if-Effect (is_some (lookup_prefix token.prefix s.oauth_client_token_keys)) Error.conflict
        _ (transact-Effect crypto commit _ (λ t. Kept-refl t) s))

  pub revoke_oauth_client_access_token-Effect :
      (id : Uuid) (at : Time)
      → Effect crypto commit s
          (λ _. true)
          (revoke_oauth_client_access_token crypto ctx id at commit s)
  unfolding revoke_oauth_client_access_token
  revoke_oauth_client_access_token-Effect id at = check_context-Effect ctx _ (
      require-Effect (lookup id s.oauth_client_tokens) Error.not_found _
        (λ token. transact-Effect crypto commit _ (λ t. Kept-refl t) s))

  pub create_oauth_grant_and_code-Effect :
      (grant : OauthGrant) (code : OauthAuthorizationCode)
      → Effect crypto commit s
          (λ _. true)
          (create_oauth_grant_and_code crypto ctx grant code commit s)
  unfolding create_oauth_grant_and_code
  create_oauth_grant_and_code-Effect grant code = check_context-Effect ctx _ (
      fail_if-Effect (not (is_some (lookup grant.client_record_id s.oauth_clients))) Error.not_found
        _
        (fail_if-Effect (not (is_some (lookup grant.resource_id s.oauth_resources))) Error.not_found
          _
          (fail_if-Effect (is_some (lookup grant.id s.oauth_grants)) Error.conflict _ (
            fail_if-Effect (is_some (lookup code.id s.oauth_codes)) Error.conflict _ (
              fail_if-Effect (is_some (lookup_prefix code.prefix s.oauth_code_keys)) Error.conflict
                _ (transact-Effect crypto commit _ (λ t. Kept-refl t) s))))))

  pub revoke_oauth_grant-Effect :
      (id : Uuid) (at : Time)
      → Effect crypto commit s (λ _. true) (revoke_oauth_grant crypto ctx id at commit s)
  unfolding revoke_oauth_grant
  revoke_oauth_grant-Effect id at = check_context-Effect ctx _ (
      fail_if-Effect (not (is_some (lookup id s.oauth_grants))) Error.not_found _
        (transact-Effect crypto commit _ (revoke_grant_locked-KeepsAudit id at) s))

  pub consume_oauth_authorization_code-Effect :
      (id : Uuid) (at : Time) (access : OauthAccessToken) (refresh : Option OauthRefreshToken)
      → Effect crypto commit s
          (λ _. true)
          (consume_oauth_authorization_code crypto ctx id at access refresh commit s)
  unfolding consume_oauth_authorization_code
  consume_oauth_authorization_code-Effect id at access refresh = check_context-Effect ctx _ (
      require-Effect (lookup id s.oauth_codes) Error.not_found _ (λ code.
        fail_if-Effect (is_some code.used_at || not (ltb at code.expires_at)) Error.conflict _ (
          fail_if-Effect (is_some (lookup_prefix access.prefix s.oauth_access_keys)) Error.conflict
            _
            (fail_if-Effect (refresh_is_taken refresh s.oauth_refresh_keys) Error.conflict _ (
              transact-Effect crypto commit _ (redeem_code-KeepsAudit id code at access refresh)
                s)))))

  pub rotate_oauth_refresh_token-Effect :
      (id : Uuid) (at : Time) (access : OauthAccessToken) (refresh : OauthRefreshToken)
      → Effect crypto commit s
          (λ _. true)
          (rotate_oauth_refresh_token crypto ctx id at access refresh commit s)
  unfolding rotate_oauth_refresh_token
  rotate_oauth_refresh_token-Effect id at access refresh = check_context-Effect ctx _ (
      require-Effect (lookup id s.oauth_refresh_tokens) Error.not_found _ (λ previous.
        fail_if-Effect
          (is_some previous.used_at
            || (is_some previous.revoked_at || not (ltb at previous.expires_at)))
          Error.conflict _
          (fail_if-Effect
            (not (previous.family_id == refresh.family_id)
              || not (previous.grant_id == refresh.grant_id))
            Error.conflict _
            (fail_if-Effect (is_some (lookup_prefix access.prefix s.oauth_access_keys))
              Error.conflict _
              (fail_if-Effect (is_some (lookup_prefix refresh.prefix s.oauth_refresh_keys))
                Error.conflict _
                (transact-Effect crypto commit _
                  (replace_refresh_token-KeepsAudit id previous at access refresh) s))))))

  pub revoke_oauth_access_token-Effect :
      (id : Uuid) (at : Time)
      → Effect crypto commit s (λ _. true) (revoke_oauth_access_token crypto ctx id at commit s)
  unfolding revoke_oauth_access_token
  revoke_oauth_access_token-Effect id at = check_context-Effect ctx _ (
      require-Effect (lookup id s.oauth_access_tokens) Error.not_found _
        (λ token. transact-Effect crypto commit _ (stamp_access_token-KeepsAudit id at token) s))

  pub revoke_oauth_refresh_family-Effect :
      (id : Uuid) (at : Time)
      → Effect crypto commit s (λ _. true) (revoke_oauth_refresh_family crypto ctx id at commit s)
  unfolding revoke_oauth_refresh_family
  revoke_oauth_refresh_family-Effect id at = check_context-Effect ctx _ (
      fail_if-Effect (is_empty (family_grants id s.oauth_refresh_tokens)) Error.not_found _ (
        transact-Effect crypto commit _
          (revoke_family-KeepsAudit id (family_grants id s.oauth_refresh_tokens) at) s))
