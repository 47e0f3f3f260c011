-- ===== src/Store/Oauth/Kept.antt =====
-- The authorization server's changes touch neither the audit log nor the ceremonies.
use credbound.Prelude.{
  ◌≡◌, Bool, true, false, not, ◌||◌, Option, none, some, List, [], ◌∷◌, arith, Map, lookup, insert,
  ltb, leb, ◌==◌, is_some, ◌⊎◌, inl, inr, Option-cases, Bool-cases, if◌then◌else◌,
}
use credbound.Types.{
  Uuid, Time, OauthIssuer, OauthProtectedResource, OauthClient, OauthInitialAccessToken, OauthGrant,
  OauthAuthorizationCode, OauthAccessToken, OauthRefreshToken, Error, ok, err,
}
use credbound.Store.State.{Store}
use credbound.Store.Effects.{Kept, KeepsAudit, Kept-refl, Kept-trans}
use credbound.Store.Oauth.Revocation.{
  revoke_grant_found, revoke_grant_locked, revoke_grants, revoke_grants_if,
}
use credbound.Store.Oauth.Issuers.{disabled_since, disable_issuer, disable_resource}
use credbound.Store.Oauth.Initials.{find_initial, count_registration}
use credbound.Store.Oauth.Clients.{put_oauth_client, disable_client}
use credbound.Store.Oauth.Codes.{
  put_access_token, put_refresh_token, redeem_code, stamp_access_token,
}
use credbound.Store.Oauth.Refresh.{replace_refresh_token, revoke_family}

revoke_grant_found-Kept :
    (id : Uuid) (at : Time) (o : Option OauthGrant) (s : Store)
    → Kept s (revoke_grant_found id at o s)
unfolding revoke_grant_found
revoke_grant_found-Kept id at none s = Kept-refl s
revoke_grant_found-Kept id at (some grant) s = Kept-refl s

pub revoke_grant_locked-KeepsAudit :
    (id : Uuid) (at : Time) → KeepsAudit (revoke_grant_locked id at)
unfolding revoke_grant_locked
revoke_grant_locked-KeepsAudit id at s = revoke_grant_found-Kept id at (lookup id s.oauth_grants) s

revoke_grants-Kept :
    (test : OauthGrant → Bool) (at : Time) (grants : Map OauthGrant) (s : Store)
    → Kept s (revoke_grants test at grants s)
unfolding revoke_grants
revoke_grants-Kept test at [] s = Kept-refl s
revoke_grants-Kept test at ((id, grant) ∷ grants) s =
    elim (test grant)
      as (λ b.
        Kept s (revoke_grants test at grants (if b then revoke_grant_locked id at s else s))) [
          | true ↦
              Kept-trans s (revoke_grant_locked id at s)
                (revoke_grants test at grants (revoke_grant_locked id at s))
                (revoke_grant_locked-KeepsAudit id at s)
                (revoke_grants-Kept test at grants (revoke_grant_locked id at s))
          | false ↦ revoke_grants-Kept test at grants s
        ]

revoke_grants_if-Kept :
    (disabled : Bool) (test : OauthGrant → Bool) (at : Time) (s : Store)
    → Kept s (revoke_grants_if disabled test at s)
unfolding revoke_grants_if
revoke_grants_if-Kept true test at s = revoke_grants-Kept test at s.oauth_grants s
revoke_grants_if-Kept false test at s = Kept-refl s

pub disable_issuer-KeepsAudit :
    (id : Uuid) (disabled : Bool) (at : Time) (issuer : OauthIssuer)
    → KeepsAudit (disable_issuer id disabled at issuer)
unfolding disable_issuer
disable_issuer-KeepsAudit id disabled at issuer s = revoke_grants_if-Kept disabled _ at (record s {
  oauth_issuers =
      insert id (record issuer { disabled_at = disabled_since disabled at; updated_at = at })
        s.oauth_issuers;
})

pub disable_resource-KeepsAudit :
    (id : Uuid) (disabled : Bool) (at : Time) (resource : OauthProtectedResource)
    → KeepsAudit (disable_resource id disabled at resource)
unfolding disable_resource
disable_resource-KeepsAudit id disabled at resource s =
    revoke_grants_if-Kept disabled _ at (record s {
      oauth_resources =
          insert id (record resource { disabled_at = disabled_since disabled at; updated_at = at })
            s.oauth_resources;
    })

pub disable_client-KeepsAudit :
    (id : Uuid) (disabled : Bool) (at : Time) (client : OauthClient)
    → KeepsAudit (disable_client id disabled at client)
unfolding disable_client
disable_client-KeepsAudit id disabled at client s = revoke_grants_if-Kept disabled _ at (record s {
  oauth_clients =
      insert id (record client { disabled_at = disabled_since disabled at; updated_at = at })
        s.oauth_clients;
})

pub register-KeepsAudit :
    (id : Uuid) (initial : Option OauthInitialAccessToken) (client : OauthClient)
    → KeepsAudit (λ s. count_registration id initial (put_oauth_client client s))
unfolding count_registration put_oauth_client
register-KeepsAudit id none client s = Kept-refl s
register-KeepsAudit id (some initial) client s = Kept-refl s

pub put_oauth_client-KeepsAudit : (client : OauthClient) → KeepsAudit (put_oauth_client client)
unfolding put_oauth_client
put_oauth_client-KeepsAudit client s = Kept-refl s

pub redeem_code-KeepsAudit :
    (id : Uuid) (code : OauthAuthorizationCode) (at : Time) (access : OauthAccessToken)
    (refresh : Option OauthRefreshToken)
    → KeepsAudit (redeem_code id code at access refresh)
unfolding redeem_code put_access_token put_refresh_token
redeem_code-KeepsAudit id code at access none s = Kept-refl s
redeem_code-KeepsAudit id code at access (some refresh) s = Kept-refl s

pub replace_refresh_token-KeepsAudit :
    (id : Uuid) (previous : OauthRefreshToken) (at : Time) (access : OauthAccessToken)
    (refresh : OauthRefreshToken)
    → KeepsAudit (replace_refresh_token id previous at access refresh)
unfolding replace_refresh_token put_access_token put_refresh_token
replace_refresh_token-KeepsAudit id previous at access refresh s = Kept-refl s

pub revoke_family-KeepsAudit :
    (id : Uuid) (grants : List Uuid) (at : Time) → KeepsAudit (revoke_family id grants at)
unfolding revoke_family
revoke_family-KeepsAudit id grants at s = Kept-refl s

pub stamp_access_token-KeepsAudit :
    (id : Uuid) (at : Time) (token : OauthAccessToken) → KeepsAudit (stamp_access_token id at token)
unfolding stamp_access_token
stamp_access_token-KeepsAudit id at token s = ground arith

-- What a registration reads of its initial access token, or why it is refused.
pub find_initial-reads :
    (id issuer_id : Uuid) (used_at : Time) (s : Store)
    → ((e : Error) × (find_initial id issuer_id used_at s ≡ (err e, s)))
      ⊎ ((o : Option OauthInitialAccessToken) × (find_initial id issuer_id used_at s ≡ (ok o, s)))
unfolding find_initial
find_initial-reads id issuer_id used_at s = elim (Bool-cases (id == 0)) [
  | inl absent ↦ inr (none, rw absent)
  | inr given ↦ elim (Option-cases (lookup id s.oauth_initial_tokens)) [
    | inl missing ↦ inl (Error.not_found, rw (given, missing))
    | inr (initial, found) ↦ elim (Bool-cases (initial.issuer_id == issuer_id)) [
      | inr other ↦ inl (Error.not_found, ground arith)
      | inl same ↦
          elim (Bool-cases (
            is_some initial.revoked_at
            || (not (ltb used_at initial.expires_at)
                || leb initial.max_registrations initial.registration_count))) [
                  | inl spent ↦ inl (Error.conflict, rw (given, found, same, spent))
                  | inr usable ↦ inr (some initial, rw (given, found, same, usable))
                ]
    ]
  ]
]
