-- ===== src/Store/Revoking.antt =====
-- What it is that a user holds nothing live, and the loops that bring it about.
use credbound.Prelude.{
  ℕ, ◌≡◌, true, none, some, Map, lookup, lookup-map_values_elim, lookup-erase, erase, arith,
  is_some, sym,
}
use credbound.Types.{Uuid, Time, Session, Pat, OauthGrant, OauthAccessToken, OauthRefreshToken}
use credbound.Store.State.{Store}
use credbound.Store.Revocation.{
  revocable, revoke_pat_of, revoke_grant_of, revoke_access_token_of, revoke_refresh_token_of,
  revoke_session_of, revoke_user_credentials_locked, revoke_user_sessions_locked,
}

-- Every session of the user is revoked.
abbrev pub SessionsRevoked : Uuid → Store → Type 0
SessionsRevoked user_id s =
    (id : Uuid) (session : Session)
    → lookup id s.sessions ≡ some session
    → session.user_id ≡ user_id
    → is_some session.revoked_at ≡ true

-- Every personal access token, OAuth grant, access token and refresh token of the user is revoked.
pub record CredentialsRevoked (user_id : Uuid) (s : Store) : Type 0 where
  pub pats :
      (id : Uuid) (pat : Pat)
      → lookup id s.pats ≡ some pat
      → pat.user_id ≡ user_id
      → is_some pat.revoked_at ≡ true
  pub grants :
      (id : Uuid) (grant : OauthGrant)
      → lookup id s.oauth_grants ≡ some grant
      → grant.user_id ≡ user_id
      → is_some grant.revoked_at ≡ true
  pub access_tokens :
      (id : Uuid) (token : OauthAccessToken)
      → lookup id s.oauth_access_tokens ≡ some token
      → token.user_id ≡ user_id
      → is_some token.revoked_at ≡ true
  pub refresh_tokens :
      (id : Uuid) (token : OauthRefreshToken)
      → lookup id s.oauth_refresh_tokens ≡ some token
      → token.user_id ≡ user_id
      → is_some token.revoked_at ≡ true

module _ (user_id : Uuid) (at : Time) where
  revoke_session_of-revoked :
      (w : Session)
      → (revoke_session_of user_id at w).user_id ≡ user_id
      → is_some (revoke_session_of user_id at w).revoked_at ≡ true
  unfolding revoke_session_of
  revoke_session_of-revoked w h = ground arith

  revoke_pat_of-revoked :
      (w : Pat)
      → (revoke_pat_of user_id 0 at w).user_id ≡ user_id
      → is_some (revoke_pat_of user_id 0 at w).revoked_at ≡ true
  unfolding revoke_pat_of
  revoke_pat_of-revoked w h = unfold revocable in ground arith

  revoke_grant_of-revoked :
      (w : OauthGrant)
      → (revoke_grant_of user_id 0 at w).user_id ≡ user_id
      → is_some (revoke_grant_of user_id 0 at w).revoked_at ≡ true
  unfolding revoke_grant_of
  revoke_grant_of-revoked w h = unfold revocable in ground arith

  revoke_access_token_of-revoked :
      (w : OauthAccessToken)
      → (revoke_access_token_of user_id 0 at w).user_id ≡ user_id
      → is_some (revoke_access_token_of user_id 0 at w).revoked_at ≡ true
  unfolding revoke_access_token_of
  revoke_access_token_of-revoked w h = unfold revocable in ground arith

  revoke_refresh_token_of-revoked :
      (w : OauthRefreshToken)
      → (revoke_refresh_token_of user_id 0 at w).user_id ≡ user_id
      → is_some (revoke_refresh_token_of user_id 0 at w).revoked_at ≡ true
  unfolding revoke_refresh_token_of
  revoke_refresh_token_of-revoked w h = unfold revocable in ground arith

  pub revoke_user_sessions_locked-SessionsRevoked :
      (s : Store) → SessionsRevoked user_id (revoke_user_sessions_locked user_id at s)
  unfolding revoke_user_sessions_locked
  revoke_user_sessions_locked-SessionsRevoked s id session found owned =
      lookup-map_values_elim (revoke_session_of user_id at)
        (λ w. w.user_id ≡ user_id → is_some w.revoked_at ≡ true) id s.sessions session found
        revoke_session_of-revoked owned

  pub revoke_user_credentials_locked-CredentialsRevoked :
      (s : Store) → CredentialsRevoked user_id (revoke_user_credentials_locked user_id 0 at s)
  unfolding revoke_user_credentials_locked
  revoke_user_credentials_locked-CredentialsRevoked s = record {
    pats = λ id w found owned.
        lookup-map_values_elim (revoke_pat_of user_id 0 at)
          (λ w. w.user_id ≡ user_id → is_some w.revoked_at ≡ true) id s.pats w found
          revoke_pat_of-revoked owned;
    grants = λ id w found owned.
        lookup-map_values_elim (revoke_grant_of user_id 0 at)
          (λ w. w.user_id ≡ user_id → is_some w.revoked_at ≡ true) id s.oauth_grants w found
          revoke_grant_of-revoked owned;
    access_tokens = λ id w found owned.
        lookup-map_values_elim (revoke_access_token_of user_id 0 at)
          (λ w. w.user_id ≡ user_id → is_some w.revoked_at ≡ true) id s.oauth_access_tokens w found
          revoke_access_token_of-revoked owned;
    refresh_tokens = λ id w found owned.
        lookup-map_values_elim (revoke_refresh_token_of user_id 0 at)
          (λ w. w.user_id ≡ user_id → is_some w.revoked_at ≡ true) id s.oauth_refresh_tokens w found
          revoke_refresh_token_of-revoked owned;
  }

-- The tokens of one state that another keeps.
pub kept_credentials :
    (user_id : Uuid) (at : Time) (s t : Store)
    → t.pats ≡ (revoke_user_credentials_locked user_id 0 at s).pats
    → t.oauth_grants ≡ (revoke_user_credentials_locked user_id 0 at s).oauth_grants
    → t.oauth_access_tokens ≡ (revoke_user_credentials_locked user_id 0 at s).oauth_access_tokens
    → t.oauth_refresh_tokens ≡ (revoke_user_credentials_locked user_id 0 at s).oauth_refresh_tokens
    → CredentialsRevoked user_id t
kept_credentials user_id at s t p g a r = record {
  pats = λ id w found. revoked.pats id w (rw (sym p) found);
  grants = λ id w found. revoked.grants id w (rw (sym g) found);
  access_tokens = λ id w found. revoked.access_tokens id w (rw (sym a) found);
  refresh_tokens = λ id w found. revoked.refresh_tokens id w (rw (sym r) found);
}
  where
    revoked : CredentialsRevoked user_id (revoke_user_credentials_locked user_id 0 at s)
    revoked = revoke_user_credentials_locked-CredentialsRevoked user_id at s

pub lookup-erased : {V : Type 0} (k : ℕ) (m : Map V) → lookup k (erase k m) ≡ none
lookup-erased k m = ground (arith, lookup-erase k k m)
