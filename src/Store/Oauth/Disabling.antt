-- ===== src/Store/Oauth/Disabling.antt =====
-- memory/oauth.go: what the disabling of a client, a resource or an issuer does to the grants under
-- it.
use credbound.Prelude.{◌≡◌, refl, true, Option, some, arith, lookup, ◌==◌}
use credbound.Types.{Uuid, Time, OauthGrant, Crypto, Commit, Error, ok}
use credbound.Store.State.{Store}
use credbound.Store.Inversion.{check_context-ok, require-ok, transact-elim}
use credbound.Store.Oauth.Clients.{set_oauth_client_disabled, disable_client}
use credbound.Store.Oauth.Issuers.{
  set_oauth_issuer_disabled, set_oauth_protected_resource_disabled, disable_issuer,
  disable_resource,
}
use credbound.Store.Oauth.GrantRevocation.{
  GrantRevoked, kept_revoked, revoke_grants_if-GrantRevoked,
}

module _ (crypto : Crypto) (ctx : Option Error) (commit : Commit) (s s' : Store) where
  -- After a successful disabling of a client, every grant that the store held for the client
  -- before is revoked, and so is every access token and refresh token under it.
  pub set_oauth_client_disabled-GrantRevoked :
      (id : Uuid) (at : Time)
      → set_oauth_client_disabled crypto ctx id true at commit s ≡ (ok tt, s')
      → (grant_id : Uuid) (grant : OauthGrant) → lookup grant_id s.oauth_grants ≡ some grant
      → grant.client_record_id ≡ id
      → GrantRevoked grant_id s'
  unfolding set_oauth_client_disabled
  set_oauth_client_disabled-GrantRevoked id at h grant_id grant found owned =
      let h1 = check_context-ok ctx _ h in
      let (client, there, h2) =
        require-ok {s = s} (lookup id s.oauth_clients) Error.not_found _ h1 in
      transact-elim crypto commit (disable_client id true at client) (GrantRevoked grant_id) s s' h2
        λ c audits ids sequence head.
          unfold disable_client in
          kept_revoked grant_id _ _ refl refl refl (
            revoke_grants_if-GrantRevoked (λ g. g.client_record_id == id) at grant_id grant _ found
              (ground arith))

  pub set_oauth_protected_resource_disabled-GrantRevoked :
      (id : Uuid) (at : Time)
      → set_oauth_protected_resource_disabled crypto ctx id true at commit s ≡ (ok tt, s')
      → (grant_id : Uuid) (grant : OauthGrant) → lookup grant_id s.oauth_grants ≡ some grant
      → grant.resource_id ≡ id
      → GrantRevoked grant_id s'
  unfolding set_oauth_protected_resource_disabled
  set_oauth_protected_resource_disabled-GrantRevoked id at h grant_id grant found owned =
      let h1 = check_context-ok ctx _ h in
      let (resource, there, h2) =
        require-ok {s = s} (lookup id s.oauth_resources) Error.not_found _ h1 in
      transact-elim crypto commit (disable_resource id true at resource) (GrantRevoked grant_id) s
        s' h2
        λ c audits ids sequence head.
          unfold disable_resource in
          kept_revoked grant_id _ _ refl refl refl (
            revoke_grants_if-GrantRevoked (λ g. g.resource_id == id) at grant_id grant _ found
              (ground arith))

  pub set_oauth_issuer_disabled-GrantRevoked :
      (id : Uuid) (at : Time)
      → set_oauth_issuer_disabled crypto ctx id true at commit s ≡ (ok tt, s')
      → (grant_id : Uuid) (grant : OauthGrant) → lookup grant_id s.oauth_grants ≡ some grant
      → grant.issuer_id ≡ id
      → GrantRevoked grant_id s'
  unfolding set_oauth_issuer_disabled
  set_oauth_issuer_disabled-GrantRevoked id at h grant_id grant found owned =
      let h1 = check_context-ok ctx _ h in
      let (issuer, there, h2) =
        require-ok {s = s} (lookup id s.oauth_issuers) Error.not_found _ h1 in
      transact-elim crypto commit (disable_issuer id true at issuer) (GrantRevoked grant_id) s s' h2
        λ c audits ids sequence head.
          unfold disable_issuer in
          kept_revoked grant_id _ _ refl refl refl (
            revoke_grants_if-GrantRevoked (λ g. g.issuer_id == id) at grant_id grant _ found
              (ground arith))
