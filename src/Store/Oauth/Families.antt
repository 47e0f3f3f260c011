-- ===== src/Store/Oauth/Families.antt =====
-- memory/oauth.go: `RevokeOAuthRefreshFamily`, the answer to a refresh token used twice.
use credbound.Prelude.{
  ◌≡◌, true, Option, some, List, [], ◌∷◌, arith, Map, lookup, held_value, is_some, sym, ◌∙◌, ap,
}
use credbound.Types.{Uuid, Time, OauthAccessToken, OauthRefreshToken, Crypto, Commit, Error, ok}
use credbound.Store.State.{Store}
use credbound.Store.Commits.{contains}
use credbound.Store.Inversion.{check_context-ok, fail_if-ok, transact-elim}
use credbound.Store.Oauth.Refresh.{
  family_grants, is_empty, revoke_refresh_in, revoke_access_of, revoke_family,
  revoke_oauth_refresh_family,
}

-- Every refresh token of the family is revoked, and so is every access token of the grant that one
-- of them descends from.
pub record FamilyRevoked (family_id : Uuid) (s : Store) : Type 0 where
  pub refresh_tokens :
      (id : Uuid) (token : OauthRefreshToken)
      → lookup id s.oauth_refresh_tokens ≡ some token
      → token.family_id ≡ family_id
      → is_some token.revoked_at ≡ true
  pub access_tokens :
      (id id' : Uuid) (token : OauthRefreshToken) (access : OauthAccessToken)
      → lookup id s.oauth_refresh_tokens ≡ some token
      → token.family_id ≡ family_id
      → lookup id' s.oauth_access_tokens ≡ some access
      → access.grant_id ≡ token.grant_id
      → is_some access.revoked_at ≡ true

module _ (family_id : Uuid) where
  family_grants-contains :
      (id : Uuid) (tokens : Map OauthRefreshToken) (token : OauthRefreshToken)
      → lookup id tokens ≡ some token
      → token.family_id ≡ family_id
      → contains token.grant_id (family_grants family_id tokens) ≡ true
  unfolding family_grants contains lookup
  family_grants-contains id [] token found in_family = absurd (cc)
  family_grants-contains id ((at, held) ∷ tokens) token found in_family =
      ground (arith, family_grants-contains id tokens token)

module _ (family_id : Uuid) (at : Time) (s : Store) where
  revoke_refresh_in-revoked :
      (w : OauthRefreshToken)
      → (revoke_refresh_in family_id at w).family_id ≡ family_id
      → is_some (revoke_refresh_in family_id at w).revoked_at ≡ true
  unfolding revoke_refresh_in
  revoke_refresh_in-revoked w h = ground arith

  revoke_refresh_in-grant :
      (w : OauthRefreshToken)
      → ((revoke_refresh_in family_id at w).grant_id ≡ w.grant_id)
        × ((revoke_refresh_in family_id at w).family_id ≡ w.family_id)
  unfolding revoke_refresh_in
  revoke_refresh_in-grant w = ground arith

  revoke_access_of-revoked :
      (grants : List Uuid) (w : OauthAccessToken)
      → contains (revoke_access_of grants at w).grant_id grants ≡ true
      → is_some (revoke_access_of grants at w).revoked_at ≡ true
  unfolding revoke_access_of
  revoke_access_of-revoked grants w h = ground arith

  revoke_family-FamilyRevoked :
      FamilyRevoked family_id
        (revoke_family family_id (family_grants family_id s.oauth_refresh_tokens) at s)
  unfolding revoke_family
  revoke_family-FamilyRevoked = record {
    refresh_tokens = λ id token found in_family.
        let (held, there, q) = held_value _ id s.oauth_refresh_tokens token found in
        rw (sym q) (revoke_refresh_in-revoked held (ap (λ t. t.family_id) q ∙ in_family));
    access_tokens = λ id id' token access found in_family found' shared.
        let (held, there, q) = held_value _ id s.oauth_refresh_tokens token found in
        let (before, there', q') = held_value _ id' s.oauth_access_tokens access found' in
        let same = revoke_refresh_in-grant held in
        let listed =
          family_grants-contains family_id id s.oauth_refresh_tokens held there
            (sym same.1 ∙ ap (λ t. t.family_id) q ∙ in_family) in
        rw (sym q') (
          revoke_access_of-revoked (family_grants family_id s.oauth_refresh_tokens) before
            (rw (ap (λ t. t.grant_id) q' ∙ shared ∙ sym (ap (λ t. t.grant_id) q) ∙ same.0) listed));
  }

module _ (crypto : Crypto) (ctx : Option Error) (commit : Commit) (s s' : Store) where
  -- After a successful `RevokeOAuthRefreshFamily` every refresh token of the family is revoked,
  -- and so is every access token under the grant of such a refresh token.
  pub revoke_oauth_refresh_family-FamilyRevoked :
      (family_id : Uuid) (at : Time)
      → revoke_oauth_refresh_family crypto ctx family_id at commit s ≡ (ok tt, s')
      → FamilyRevoked family_id s'
  unfolding revoke_oauth_refresh_family
  revoke_oauth_refresh_family-FamilyRevoked family_id at h =
      let h1 = check_context-ok ctx _ h in
      let (known, h2) =
        fail_if-ok {s = s} (is_empty (family_grants family_id s.oauth_refresh_tokens))
          Error.not_found _ h1 in
      transact-elim crypto commit
        (revoke_family family_id (family_grants family_id s.oauth_refresh_tokens) at)
        (FamilyRevoked family_id) s s' h2
        λ c audits ids sequence head.
          let revoked = revoke_family-FamilyRevoked family_id at s in
          unfold revoke_family in
          record {
            refresh_tokens = unfold revoke_family in revoked.refresh_tokens;
            access_tokens = unfold revoke_family in revoked.access_tokens;
          }
