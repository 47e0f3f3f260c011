-- ===== src/Store/CallEffects/Registrations.antt =====
-- memory/oauth.go: the effects of the mutations of issuers, resources and clients.
use credbound.Prelude.{Bool, true, not, Option, lookup, str_eq, is_some}
use credbound.Types.{
  Uuid, Time, Bytes, OauthIssuer, OauthProtectedResource, OauthClient, Crypto, Commit, Error,
}
use credbound.Store.State.{Store}
use credbound.Store.Pats.{lookup_prefix}
use credbound.Store.Effects.{
  Effect, Kept-refl, check_context-Effect, require-Effect, fail_if-Effect, read-Effect,
  transact-Effect,
}
use credbound.Store.Oauth.Issuers.{
  create_oauth_issuer, update_oauth_issuer, set_oauth_issuer_disabled,
  create_oauth_protected_resource, set_oauth_protected_resource_disabled,
}
use credbound.Store.Oauth.Initials.{find_initial}
use credbound.Store.Oauth.Clients.{
  lookup_client, registration_is_full, is_taken, create_oauth_client, upsert_oauth_cimd_client,
  rotate_oauth_client_credentials, set_oauth_client_disabled,
}
use credbound.Store.Oauth.Kept.{
  disable_issuer-KeepsAudit, disable_resource-KeepsAudit, disable_client-KeepsAudit,
  register-KeepsAudit, put_oauth_client-KeepsAudit, find_initial-reads,
}

module _ (crypto : Crypto) (ctx : Option Error) (commit : Commit) (s : Store) where
  pub create_oauth_issuer-Effect :
      (issuer : OauthIssuer)
      → Effect crypto commit s (λ _. true) (create_oauth_issuer crypto ctx issuer commit s)
  unfolding create_oauth_issuer
  create_oauth_issuer-Effect issuer = check_context-Effect ctx _ (
      fail_if-Effect (is_some (lookup issuer.id s.oauth_issuers)) Error.conflict _ (
        fail_if-Effect (is_some (lookup_prefix issuer.issuer s.oauth_issuer_urls)) Error.conflict _
          (transact-Effect crypto commit _ (λ t. Kept-refl t) s)))

  pub update_oauth_issuer-Effect :
      (issuer : OauthIssuer)
      → Effect crypto commit s (λ _. true) (update_oauth_issuer crypto ctx issuer commit s)
  unfolding update_oauth_issuer
  update_oauth_issuer-Effect issuer = check_context-Effect ctx _ (
      require-Effect (lookup issuer.id s.oauth_issuers) Error.not_found _ (λ current.
        fail_if-Effect (not (str_eq current.issuer issuer.issuer)) Error.not_found _
          (transact-Effect crypto commit _ (λ t. Kept-refl t) s)))

  pub set_oauth_issuer_disabled-Effect :
      (id : Uuid) (disabled : Bool) (at : Time)
      → Effect crypto commit s
          (λ _. true)
          (set_oauth_issuer_disabled crypto ctx id disabled at commit s)
  unfolding set_oauth_issuer_disabled
  set_oauth_issuer_disabled-Effect id disabled at = check_context-Effect ctx _ (
      require-Effect (lookup id s.oauth_issuers) Error.not_found _ (λ issuer.
        transact-Effect crypto commit _ (disable_issuer-KeepsAudit id disabled at issuer) s))

  pub create_oauth_protected_resource-Effect :
      (resource : OauthProtectedResource)
      → Effect crypto commit s
          (λ _. true)
          (create_oauth_protected_resource crypto ctx resource commit s)
  unfolding create_oauth_protected_resource
  create_oauth_protected_resource-Effect resource = check_context-Effect ctx _ (
      fail_if-Effect (not (is_some (lookup resource.issuer_id s.oauth_issuers))) Error.not_found _ (
        fail_if-Effect (not (is_some (lookup resource.workspace_id s.workspaces))) Error.not_found _
          (fail_if-Effect (is_some (lookup resource.id s.oauth_resources)) Error.conflict _ (
            fail_if-Effect (is_some (lookup_prefix resource.resource s.oauth_resource_uris))
              Error.conflict _ (transact-Effect crypto commit _ (λ t. Kept-refl t) s)))))

  pub set_oauth_protected_resource_disabled-Effect :
      (id : Uuid) (disabled : Bool) (at : Time)
      → Effect crypto commit s
          (λ _. true)
          (set_oauth_protected_resource_disabled crypto ctx id disabled at commit s)
  unfolding set_oauth_protected_resource_disabled
  set_oauth_protected_resource_disabled-Effect id disabled at = check_context-Effect ctx _ (
      require-Effect (lookup id s.oauth_resources) Error.not_found _ (λ resource.
        transact-Effect crypto commit _ (disable_resource-KeepsAudit id disabled at resource) s))

  pub create_oauth_client-Effect :
      (client : OauthClient) (initial_id : Uuid) (at : Time)
      → Effect crypto commit s
          (λ _. true)
          (create_oauth_client crypto ctx client initial_id at commit s)
  unfolding create_oauth_client
  create_oauth_client-Effect client initial_id at = check_context-Effect ctx _ (
      require-Effect (lookup client.issuer_id s.oauth_issuers) Error.not_found _ (λ issuer.
        fail_if-Effect (registration_is_full issuer client s) Error.conflict _ (
          fail_if-Effect (is_some (lookup client.id s.oauth_clients)) Error.conflict _ (
            fail_if-Effect
              (is_some (lookup_client client.issuer_id client.client_id s.oauth_client_keys))
              Error.conflict _
              (read-Effect (find_initial initial_id client.issuer_id at) _
                (find_initial-reads initial_id client.issuer_id at s)
                (λ initial.
                  transact-Effect crypto commit _ (register-KeepsAudit initial_id initial client)
                    s))))))

  pub upsert_oauth_cimd_client-Effect :
      (client : OauthClient)
      → Effect crypto commit s (λ _. true) (upsert_oauth_cimd_client crypto ctx client commit s)
  unfolding upsert_oauth_cimd_client
  upsert_oauth_cimd_client-Effect client = check_context-Effect ctx _ (
      fail_if-Effect (not (is_some (lookup client.issuer_id s.oauth_issuers))) Error.not_found _ (
        fail_if-Effect
          (is_taken client.id (lookup_client client.issuer_id client.client_id s.oauth_client_keys))
          Error.conflict _
          (transact-Effect crypto commit _ (put_oauth_client-KeepsAudit client) s)))

  pub rotate_oauth_client_credentials-Effect :
      (id : Uuid) (secret jwks : Option Bytes) (hash : Bytes) (at : Time)
      → Effect crypto commit s
          (λ _. true)
          (rotate_oauth_client_credentials crypto ctx id secret jwks hash at commit s)
  unfolding rotate_oauth_client_credentials
  rotate_oauth_client_credentials-Effect id secret jwks hash at = check_context-Effect ctx _ (
      require-Effect (lookup id s.oauth_clients) Error.not_found _
        (λ client. transact-Effect crypto commit _ (λ t. Kept-refl t) s))

  pub set_oauth_client_disabled-Effect :
      (id : Uuid) (disabled : Bool) (at : Time)
      → Effect crypto commit s
          (λ _. true)
          (set_oauth_client_disabled crypto ctx id disabled at commit s)
  unfolding set_oauth_client_disabled
  set_oauth_client_disabled-Effect id disabled at = check_context-Effect ctx _ (
      require-Effect (lookup id s.oauth_clients) Error.not_found _ (λ client.
        transact-Effect crypto commit _ (disable_client-KeepsAudit id disabled at client) s))
