-- ===== src/Store/Oauth/GrantRevocation.antt =====
-- memory/oauth.go: what `revokeOAuthGrantLocked` and the loops over it leave.
use credbound.Prelude.{
  ◌≡◌, refl, Bool, true, Option, none, some, [], ◌∷◌, arith, Map, lookup, lookup-insert,
  lookup-inserted, held_value, is_some, ◌==◌, sym, ◌∙◌, ap, Option-cases, Bool-cases, inl, inr,
}
use credbound.Types.{Uuid, Time, OauthGrant, OauthAccessToken, OauthRefreshToken}
use credbound.Store.State.{Store}
use credbound.Store.Oauth.Revocation.{
  revoke_access_token_under, revoke_refresh_token_under, revoke_grant_found, revoke_grant_locked,
  revoke_grants, revoke_grants_if,
}

-- The grant under an identifier is revoked, and so is every token under it.
pub record GrantRevoked (grant_id : Uuid) (s : Store) : Type 0 where
  pub grant :
      (g : OauthGrant) → lookup grant_id s.oauth_grants ≡ some g → is_some g.revoked_at ≡ true
  pub access_tokens :
      (id : Uuid) (token : OauthAccessToken)
      → lookup id s.oauth_access_tokens ≡ some token
      → token.grant_id ≡ grant_id
      → is_some token.revoked_at ≡ true
  pub refresh_tokens :
      (id : Uuid) (token : OauthRefreshToken)
      → lookup id s.oauth_refresh_tokens ≡ some token
      → token.grant_id ≡ grant_id
      → is_some token.revoked_at ≡ true

pub kept_revoked :
    (grant_id : Uuid) (s t : Store)
    → t.oauth_grants ≡ s.oauth_grants
    → t.oauth_access_tokens ≡ s.oauth_access_tokens
    → t.oauth_refresh_tokens ≡ s.oauth_refresh_tokens
    → GrantRevoked grant_id s
    → GrantRevoked grant_id t
kept_revoked grant_id s t g a r h = record {
  grant = λ w found. h.grant w (rw (sym g) found);
  access_tokens = λ id w found. h.access_tokens id w (rw (sym a) found);
  refresh_tokens = λ id w found. h.refresh_tokens id w (rw (sym r) found);
}

module _ (grant_id : Uuid) (at : Time) where
  access_under-revoked :
      (w : OauthAccessToken)
      → (revoke_access_token_under grant_id at w).grant_id ≡ grant_id
      → is_some (revoke_access_token_under grant_id at w).revoked_at ≡ true
  unfolding revoke_access_token_under
  access_under-revoked w h = ground arith

  refresh_under-revoked :
      (w : OauthRefreshToken)
      → (revoke_refresh_token_under grant_id at w).grant_id ≡ grant_id
      → is_some (revoke_refresh_token_under grant_id at w).revoked_at ≡ true
  unfolding revoke_refresh_token_under
  refresh_under-revoked w h = ground arith

  -- A revocation under another grant undoes none.
  access_under-stays :
      (other : Uuid) (w : OauthAccessToken)
      → (w.grant_id ≡ other → is_some w.revoked_at ≡ true)
      → (revoke_access_token_under grant_id at w).grant_id ≡ other
      → is_some (revoke_access_token_under grant_id at w).revoked_at ≡ true
  unfolding revoke_access_token_under
  access_under-stays other w h e = ground (arith, h)

  refresh_under-stays :
      (other : Uuid) (w : OauthRefreshToken)
      → (w.grant_id ≡ other → is_some w.revoked_at ≡ true)
      → (revoke_refresh_token_under grant_id at w).grant_id ≡ other
      → is_some (revoke_refresh_token_under grant_id at w).revoked_at ≡ true
  unfolding revoke_refresh_token_under
  refresh_under-stays other w h e = ground (arith, h)

  revoke_grant_found-GrantRevoked :
      (g : OauthGrant) (s : Store)
      → GrantRevoked grant_id (revoke_grant_found grant_id at (some g) s)
  unfolding revoke_grant_found
  revoke_grant_found-GrantRevoked g s = record {
    grant = λ w found.
        let inserted =
          lookup-inserted grant_id (record g { revoked_at = some at; updated_at = at })
            s.oauth_grants in
        cc;
    access_tokens = λ id w found under.
        let (held, there, q) = held_value _ id s.oauth_access_tokens w found in
        rw (sym q) (access_under-revoked held (ap (λ t. t.grant_id) q ∙ under));
    refresh_tokens = λ id w found under.
        let (held, there, q) = held_value _ id s.oauth_refresh_tokens w found in
        rw (sym q) (refresh_under-revoked held (ap (λ t. t.grant_id) q ∙ under));
  }

  revoke_grant_found-stays :
      (other : Uuid) (o : Option OauthGrant) (s : Store)
      → GrantRevoked other s
      → GrantRevoked other (revoke_grant_found grant_id at o s)
  unfolding revoke_grant_found
  revoke_grant_found-stays other none s h = h
  revoke_grant_found-stays other (some g) s h = record {
    grant = λ w found. ground (
      arith,
      h.grant w,
      lookup-insert grant_id other (record g { revoked_at = some at; updated_at = at })
          s.oauth_grants,
    );
    access_tokens = λ id w found under.
        let (held, there, q) = held_value _ id s.oauth_access_tokens w found in
        rw (sym q) (
          access_under-stays other held (h.access_tokens id held there)
            (ap (λ t. t.grant_id) q ∙ under));
    refresh_tokens = λ id w found under.
        let (held, there, q) = held_value _ id s.oauth_refresh_tokens w found in
        rw (sym q) (
          refresh_under-stays other held (h.refresh_tokens id held there)
            (ap (λ t. t.grant_id) q ∙ under));
  }

  revoke_grant_found-known :
      (other : Uuid) (o : Option OauthGrant) (s : Store)
      → is_some (lookup other s.oauth_grants) ≡ true
      → is_some (lookup other (revoke_grant_found grant_id at o s).oauth_grants) ≡ true
  unfolding revoke_grant_found
  revoke_grant_found-known other none s h = h
  revoke_grant_found-known other (some g) s h = ground (
    arith,
    lookup-insert grant_id other (record g { revoked_at = some at; updated_at = at })
        s.oauth_grants,
  )

module _ (test : OauthGrant → Bool) (at : Time) where
  revoke_grant_locked-GrantRevoked :
      (id : Uuid) (s : Store)
      → is_some (lookup id s.oauth_grants) ≡ true
      → GrantRevoked id (revoke_grant_locked id at s)
  unfolding revoke_grant_locked
  revoke_grant_locked-GrantRevoked id s known = elim (Option-cases (lookup id s.oauth_grants)) [
    | inl missing ↦ absurd (ground arith)
    | inr (g, found) ↦ rw found (revoke_grant_found-GrantRevoked id at g s)
  ]

  revoke_grants-stays :
      (id : Uuid) (grants : Map OauthGrant) (s : Store)
      → GrantRevoked id s
      → GrantRevoked id (revoke_grants test at grants s)
  unfolding revoke_grants revoke_grant_locked
  revoke_grants-stays id [] s h = h
  revoke_grants-stays id ((other, grant) ∷ grants) s h = elim (Bool-cases (test grant)) [
    | inl hit ↦ rw hit (
        revoke_grants-stays id grants (revoke_grant_locked other at s)
          (revoke_grant_found-stays other at id (lookup other s.oauth_grants) s h))
    | inr miss ↦ rw miss (revoke_grants-stays id grants s h)
  ]

  revoke_grants-GrantRevoked :
      (id : Uuid) (g : OauthGrant) (grants : Map OauthGrant) (s : Store)
      → lookup id grants ≡ some g
      → test g ≡ true
      → is_some (lookup id s.oauth_grants) ≡ true
      → GrantRevoked id (revoke_grants test at grants s)
  unfolding revoke_grants lookup
  revoke_grants-GrantRevoked id g [] s found selected known = absurd (cc)
  revoke_grants-GrantRevoked id g ((other, grant) ∷ grants) s found selected known =
      elim (Bool-cases (other == id)) [
        | inl here ↦
            let same : other ≡ id = ground arith in
            let hit : test grant ≡ true = ground arith in
            rw (hit, same)
              (revoke_grants-stays id grants (revoke_grant_locked id at s)
                (revoke_grant_locked-GrantRevoked id s known))
        | inr elsewhere ↦ elim (Bool-cases (test grant)) [
          | inl hit ↦ rw hit (
              revoke_grants-GrantRevoked id g grants (revoke_grant_locked other at s) (ground arith)
                selected
                (unfold revoke_grant_locked in
                  revoke_grant_found-known other at id (lookup other s.oauth_grants) s known))
          | inr miss ↦
              rw miss (revoke_grants-GrantRevoked id g grants s (ground arith) selected known)
        ]
      ]

  pub revoke_grants_if-GrantRevoked :
      (id : Uuid) (g : OauthGrant) (s : Store)
      → lookup id s.oauth_grants ≡ some g
      → test g ≡ true
      → GrantRevoked id (revoke_grants_if true test at s)
  unfolding revoke_grants_if
  revoke_grants_if-GrantRevoked id g s found selected =
      revoke_grants-GrantRevoked id g s.oauth_grants s found selected (rw found refl)
