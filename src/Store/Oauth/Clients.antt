-- ===== src/Store/Oauth/Clients.antt =====
-- memory/oauth.go: clients, registered or described by a document.
use credbound.Prelude.{
  Bool, true, false, not, ◌&&◌, Option, none, some, [], ◌∷◌, lookup, insert, count, leb, ◌==◌,
  String, str_eq, if◌then◌else◌, is_some,
}
use credbound.Types.{
  Uuid, Time, Bytes, OauthIssuer, OauthDcrMode, OauthClient, OauthClientSource,
  OauthApplicationType, OauthTokenEndpointAuthMethod, Crypto, Commit, Error,
}
use credbound.Store.State.{
  Store, Tx, ClientKeys, gets, ◌>>=◌, ◌>>◌, fail_if, require, check_context, pure,
}
use credbound.Store.Commits.{transact}
use credbound.Store.Oauth.Revocation.{revoke_grants_if, read_by_id, value_or}
use credbound.Store.Oauth.Issuers.{disabled_since}
use credbound.Store.Oauth.Initials.{find_initial, count_registration}

abbrev pub zero_oauth_client : OauthClient
zero_oauth_client = record {
  id = 0;
  issuer_id = 0;
  client_id = "";
  source = OauthClientSource.unset;
  name = "";
  application_type = OauthApplicationType.unset;
  redirect_uris = [];
  sector_identifier = "";
  grant_types = [];
  response_types = [];
  scopes = [];
  client_credentials_resources = [];
  token_endpoint_auth_method = OauthTokenEndpointAuthMethod.unset;
  jwks_uri = "";
  jwks = [];
  trusted = false;
  secret_digest = [];
  metadata_hash = [];
  metadata_expires_at = none;
  created_at = 0;
  updated_at = 0;
  disabled_at = none;
}

-- A read of `oauthClientKeys`.
unfoldable pub lookup_client : Uuid → String → ClientKeys → Option Uuid
lookup_client issuer_id client_id [] = none
lookup_client issuer_id client_id (((i, c), id) ∷ m) =
    if i == issuer_id && str_eq c client_id then some id else lookup_client issuer_id client_id m

abbrev pub is_dcr : OauthClientSource → Bool
is_dcr OauthClientSource.dcr = true
is_dcr source = false

abbrev pub is_open : OauthDcrMode → Bool
is_open OauthDcrMode.open_registration = true
is_open mode = false

-- The clients that count toward the limit of open registrations.
unfoldable pub is_active_dcr : Uuid → Uuid → OauthClient → Bool
is_active_dcr issuer_id id client =
    client.issuer_id == issuer_id && (is_dcr client.source && not (is_some client.disabled_at))

unfoldable pub registration_is_full : OauthIssuer → OauthClient → Store → Bool
unfolding is_active_dcr
registration_is_full issuer client s =
    is_dcr client.source
    && (is_open issuer.dcr_mode
        && leb issuer.dcr_open_registration_limit
            (count (is_active_dcr client.issuer_id) s.oauth_clients))

-- A key that is there already leads to the same client, so the entry in front changes no read.
unfoldable pub put_oauth_client : OauthClient → Store → Store
put_oauth_client client s = record s {
  oauth_clients = insert client.id client s.oauth_clients;
  oauth_client_keys = ((client.issuer_id, client.client_id), client.id) ∷ s.oauth_client_keys;
}

-- `if secretDigest != nil`, `if jwks != nil`
abbrev pub with_secret : Option Bytes → OauthClient → OauthClient
with_secret none client = client
with_secret (some digest) client = record client { secret_digest = digest }

abbrev pub with_jwks : Option Bytes → Bytes → OauthClient → OauthClient
with_jwks none metadata_hash client = client
with_jwks (some jwks) metadata_hash client = record client {
  jwks = jwks;
  metadata_hash = metadata_hash;
}

abbrev pub with_credentials : Option Bytes → Option Bytes → Bytes → Time → OauthClient → OauthClient
with_credentials secret jwks metadata_hash at client =
    record (with_jwks jwks metadata_hash (with_secret secret client)) { updated_at = at }

unfoldable pub disable_client : Uuid → Bool → Time → OauthClient → Store → Store
disable_client id disabled at client s =
    revoke_grants_if disabled (λ grant. grant.client_record_id == id) at
      (record s {
        oauth_clients =
            insert id (record client { disabled_at = disabled_since disabled at; updated_at = at })
              s.oauth_clients;
      })

-- Another client's use of the key.
abbrev pub is_taken : Uuid → Option Uuid → Bool
is_taken id none = false
is_taken id (some other) = not (other == id)

module _ (crypto : Crypto) (ctx : Option Error) where
  unfoldable pub create_oauth_client : OauthClient → Uuid → Time → Commit → Tx (Unit {0})
  create_oauth_client client initial_id used_at commit = do
    check_context ctx
    issuers ← gets (λ s. s.oauth_issuers)
    issuer ← require (lookup client.issuer_id issuers) Error.not_found
    full ← gets (registration_is_full issuer client)
    fail_if full Error.conflict
    clients ← gets (λ s. s.oauth_clients)
    fail_if (is_some (lookup client.id clients)) Error.conflict
    keys ← gets (λ s. s.oauth_client_keys)
    fail_if (is_some (lookup_client client.issuer_id client.client_id keys)) Error.conflict
    initial ← find_initial initial_id client.issuer_id used_at
    transact crypto commit λ s. count_registration initial_id initial (put_oauth_client client s)

  unfoldable pub upsert_oauth_cimd_client : OauthClient → Commit → Tx (Unit {0})
  upsert_oauth_cimd_client client commit = do
    check_context ctx
    issuers ← gets (λ s. s.oauth_issuers)
    fail_if (not (is_some (lookup client.issuer_id issuers))) Error.not_found
    keys ← gets (λ s. s.oauth_client_keys)
    fail_if (is_taken client.id (lookup_client client.issuer_id client.client_id keys))
        Error.conflict
    transact crypto commit (put_oauth_client client)

  unfoldable pub rotate_oauth_client_credentials :
      Uuid → Option Bytes → Option Bytes → Bytes → Time → Commit → Tx (Unit {0})
  rotate_oauth_client_credentials id secret jwks metadata_hash at commit = do
    check_context ctx
    clients ← gets (λ s. s.oauth_clients)
    client ← require (lookup id clients) Error.not_found
    transact crypto commit λ s. record s {
      oauth_clients =
          insert id (with_credentials secret jwks metadata_hash at client) s.oauth_clients;
    }

  unfoldable pub set_oauth_client_disabled : Uuid → Bool → Time → Commit → Tx (Unit {0})
  set_oauth_client_disabled id disabled at commit = do
    check_context ctx
    clients ← gets (λ s. s.oauth_clients)
    client ← require (lookup id clients) Error.not_found
    transact crypto commit (disable_client id disabled at client)

  unfoldable pub oauth_client_by_id : Uuid → Tx OauthClient
  oauth_client_by_id id = read_by_id ctx (λ s. s.oauth_clients) id

  unfoldable pub oauth_client_by_client_id : Uuid → String → Tx OauthClient
  oauth_client_by_client_id issuer_id client_id = do
    check_context ctx
    keys ← gets (λ s. s.oauth_client_keys)
    id ← require (lookup_client issuer_id client_id keys) Error.not_found
    clients ← gets (λ s. s.oauth_clients)
    pure (value_or zero_oauth_client (lookup id clients))
