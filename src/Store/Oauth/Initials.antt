-- ===== src/Store/Oauth/Initials.antt =====
-- memory/oauth.go: initial access tokens, and the tokens that clients get for themselves.
use credbound.Prelude.{
  ◌+◌, not, ◌||◌, Option, none, some, [], ◌∷◌, lookup, insert, ltb, leb, ◌==◌, String,
  if◌then◌else◌, is_some,
}
use credbound.Types.{
  Uuid, Time, OauthInitialAccessToken, OauthClientAccessToken, Crypto, Commit, Error,
}
use credbound.Store.State.{Store, Tx, gets, ◌>>=◌, ◌>>◌, fail_if, require, check_context, pure}
use credbound.Store.Commits.{transact}
use credbound.Store.Pats.{lookup_prefix}
use credbound.Store.Oauth.Revocation.{read_by_key}

abbrev pub zero_initial_token : OauthInitialAccessToken
zero_initial_token = record {
  id = 0;
  issuer_id = 0;
  prefix = "";
  digest = [];
  max_registrations = 0;
  registration_count = 0;
  created_at = 0;
  expires_at = 0;
  revoked_at = none;
}

abbrev pub zero_client_token : OauthClientAccessToken
zero_client_token = record {
  id = 0;
  prefix = "";
  digest = [];
  client_record_id = 0;
  issuer_id = 0;
  resource_id = 0;
  workspace_id = 0;
  scopes = [];
  created_at = 0;
  expires_at = 0;
  revoked_at = none;
}

-- The initial access token that a registration uses: none is asked for, none fits, or this one.
unfoldable pub find_initial : Uuid → Uuid → Time → Tx (Option OauthInitialAccessToken)
find_initial token_id issuer_id used_at = if token_id == 0 then pure none else do
  tokens ← gets (λ s. s.oauth_initial_tokens)
  initial ← require (lookup token_id tokens) Error.not_found
  fail_if (not (initial.issuer_id == issuer_id)) Error.not_found
  fail_if
      (is_some initial.revoked_at
        || (not (ltb used_at initial.expires_at)
            || leb initial.max_registrations initial.registration_count))
      Error.conflict
  pure (some initial)

unfoldable pub count_registration : Uuid → Option OauthInitialAccessToken → Store → Store
count_registration token_id none s = s
count_registration token_id (some initial) s = record s {
  oauth_initial_tokens =
      insert token_id (record initial { registration_count = initial.registration_count + 1 })
        s.oauth_initial_tokens;
}

module _ (crypto : Crypto) (ctx : Option Error) where
  unfoldable pub create_oauth_initial_access_token :
      OauthInitialAccessToken → Commit → Tx (Unit {0})
  create_oauth_initial_access_token token commit = do
    check_context ctx
    issuers ← gets (λ s. s.oauth_issuers)
    fail_if (not (is_some (lookup token.issuer_id issuers))) Error.not_found
    tokens ← gets (λ s. s.oauth_initial_tokens)
    fail_if (is_some (lookup token.id tokens)) Error.conflict
    keys ← gets (λ s. s.oauth_initial_keys)
    fail_if (is_some (lookup_prefix token.prefix keys)) Error.conflict
    transact crypto commit λ s. record s {
      oauth_initial_tokens = insert token.id token s.oauth_initial_tokens;
      oauth_initial_keys = (token.prefix, token.id) ∷ s.oauth_initial_keys;
    }

  unfoldable pub oauth_initial_access_token_by_prefix : String → Tx OauthInitialAccessToken
  oauth_initial_access_token_by_prefix prefix =
      read_by_key ctx zero_initial_token (λ s. s.oauth_initial_keys) (λ s. s.oauth_initial_tokens)
        prefix

  unfoldable pub revoke_oauth_initial_access_token : Uuid → Time → Commit → Tx (Unit {0})
  revoke_oauth_initial_access_token id at commit = do
    check_context ctx
    tokens ← gets (λ s. s.oauth_initial_tokens)
    token ← require (lookup id tokens) Error.not_found
    transact crypto commit λ s. record s {
      oauth_initial_tokens =
          insert id (record token { revoked_at = some at }) s.oauth_initial_tokens;
    }

  unfoldable pub create_oauth_client_access_token : OauthClientAccessToken → Commit → Tx (Unit {0})
  create_oauth_client_access_token token commit = do
    check_context ctx
    keys ← gets (λ s. s.oauth_client_token_keys)
    fail_if (is_some (lookup_prefix token.prefix keys)) Error.conflict
    transact crypto commit λ s. record s {
      oauth_client_tokens = insert token.id token s.oauth_client_tokens;
      oauth_client_token_keys = (token.prefix, token.id) ∷ s.oauth_client_token_keys;
    }

  unfoldable pub oauth_client_access_token_by_prefix : String → Tx OauthClientAccessToken
  oauth_client_access_token_by_prefix prefix =
      read_by_key ctx zero_client_token (λ s. s.oauth_client_token_keys)
        (λ s. s.oauth_client_tokens) prefix

  unfoldable pub revoke_oauth_client_access_token : Uuid → Time → Commit → Tx (Unit {0})
  revoke_oauth_client_access_token id at commit = do
    check_context ctx
    tokens ← gets (λ s. s.oauth_client_tokens)
    token ← require (lookup id tokens) Error.not_found
    transact crypto commit λ s. record s {
      oauth_client_tokens = insert id (record token { revoked_at = some at }) s.oauth_client_tokens;
    }
