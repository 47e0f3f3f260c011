-- ===== src/Store/Oauth/SingleUse.antt =====
-- memory/oauth.go: what can be redeemed once, an authorization code and a refresh token.
use credbound.Prelude.{
  ◌≡◌, refl, false, not, ◌||◌, Option, none, some, lookup, insert, lookup-inserted, lookup-insert,
  is_some, ltb, ◌==◌, arith,
}
use credbound.Types.{
  Uuid, Time, OauthAuthorizationCode, OauthAccessToken, OauthRefreshToken, Crypto, Commit, Error,
  ok, err,
}
use credbound.Store.State.{Store}
use credbound.Store.Pats.{lookup_prefix}
use credbound.Store.Inversion.{check_context-ok, require-ok, fail_if-ok, transact-elim}
use credbound.Store.Oauth.Codes.{
  consume_oauth_authorization_code, redeem_code, put_access_token, put_refresh_if,
  put_refresh_token, refresh_is_taken,
}
use credbound.Store.Oauth.Refresh.{rotate_oauth_refresh_token, replace_refresh_token}

redeemed-used :
    (code_id : Uuid) (code : OauthAuthorizationCode) (at : Time) (access : OauthAccessToken)
    (refresh : Option OauthRefreshToken) (s : Store)
    → lookup code_id (redeem_code code_id code at access refresh s).oauth_codes
      ≡ some (record code { used_at = some at })
unfolding redeem_code put_access_token put_refresh_if put_refresh_token
redeemed-used code_id code at access none s = lookup-inserted code_id _ s.oauth_codes
redeemed-used code_id code at access (some refresh) s = lookup-inserted code_id _ s.oauth_codes

module _ (crypto : Crypto) where
  -- After `ConsumeOAuthAuthorizationCode` succeeds, a second consumption of that code on the
  -- store it left, without a context error and with whatever tokens, fails with a conflict and
  -- changes nothing.
  pub consume_oauth_authorization_code-no_reuse :
      (ctx : Option Error) (code_id : Uuid) (at at' : Time) (access access' : OauthAccessToken)
      (refresh refresh' : Option OauthRefreshToken) (commit commit' : Commit) (s s' : Store)
      → consume_oauth_authorization_code crypto ctx code_id at access refresh commit s ≡ (ok tt, s')
      → consume_oauth_authorization_code crypto none code_id at' access' refresh' commit' s'
        ≡ (err Error.conflict, s')
  unfolding consume_oauth_authorization_code
  consume_oauth_authorization_code-no_reuse ctx code_id at at' access access' refresh refresh'
        commit commit' s s' h =
      let h1 = check_context-ok ctx _ h in
      let (code, found, h2) =
        require-ok {s = s} (lookup code_id s.oauth_codes) Error.not_found _ h1 in
      let (usable, h3) =
        fail_if-ok {s = s} (is_some code.used_at || not (ltb at code.expires_at)) Error.conflict _
          h2 in
      let (fresh, h4) =
        fail_if-ok {s = s} (is_some (lookup_prefix access.prefix s.oauth_access_keys))
          Error.conflict _ h3 in
      let (fresh', h5) =
        fail_if-ok {s = s} (refresh_is_taken refresh s.oauth_refresh_keys) Error.conflict _ h4 in
      let used : lookup code_id s'.oauth_codes ≡ some (record code { used_at = some at }) =
        transact-elim crypto commit (redeem_code code_id code at access refresh)
          (λ t. lookup code_id t.oauth_codes ≡ some (record code { used_at = some at })) s s' h5
          λ c audits ids sequence head.
            redeemed-used code_id code at access refresh (record s { ceremonies = c }) in
      rw used refl

  -- Suppose the new refresh token has another identifier than the one that it replaces. After
  -- `RotateOAuthRefreshToken` succeeds, a second rotation of the replaced token on the store it
  -- left, without a context error and with whatever new tokens, fails with a conflict and changes
  -- nothing.
  pub rotate_oauth_refresh_token-no_reuse :
      (ctx : Option Error) (previous_id : Uuid) (at at' : Time) (access access' : OauthAccessToken)
      (refresh refresh' : OauthRefreshToken) (commit commit' : Commit) (s s' : Store)
      → (refresh.id == previous_id) ≡ false
      → rotate_oauth_refresh_token crypto ctx previous_id at access refresh commit s ≡ (ok tt, s')
      → rotate_oauth_refresh_token crypto none previous_id at' access' refresh' commit' s'
        ≡ (err Error.conflict, s')
  unfolding rotate_oauth_refresh_token
  rotate_oauth_refresh_token-no_reuse ctx previous_id at at' access access' refresh refresh' commit
        commit' s s' other h =
      let h1 = check_context-ok ctx _ h in
      let (previous, found, h2) =
        require-ok {s = s} (lookup previous_id s.oauth_refresh_tokens) Error.not_found _ h1 in
      let (usable, h3) =
        fail_if-ok {s = s}
          (is_some previous.used_at
            || (is_some previous.revoked_at || not (ltb at previous.expires_at)))
          Error.conflict _ h2 in
      let (same, h4) =
        fail_if-ok {s = s}
          (not (previous.family_id == refresh.family_id)
            || not (previous.grant_id == refresh.grant_id))
          Error.conflict _ h3 in
      let (fresh, h5) =
        fail_if-ok {s = s} (is_some (lookup_prefix access.prefix s.oauth_access_keys))
          Error.conflict _ h4 in
      let (fresh', h6) =
        fail_if-ok {s = s} (is_some (lookup_prefix refresh.prefix s.oauth_refresh_keys))
          Error.conflict _ h5 in
      let spent : OauthRefreshToken = record previous {
        used_at = some at;
        replaced_by_id = refresh.id;
      } in
      let used : lookup previous_id s'.oauth_refresh_tokens ≡ some spent =
        transact-elim crypto commit (replace_refresh_token previous_id previous at access refresh)
          (λ t. lookup previous_id t.oauth_refresh_tokens ≡ some spent) s s' h6
          λ c audits ids sequence head.
            unfold replace_refresh_token put_access_token put_refresh_token in
            ground (
              arith,
              lookup-insert refresh.id previous_id refresh
                  (insert previous_id spent s.oauth_refresh_tokens),
              lookup-inserted previous_id spent s.oauth_refresh_tokens,
            ) in
      rw used refl
