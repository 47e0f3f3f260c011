-- ===== src/Store/State.antt =====
-- memory/store.go: the maps of `Store`, its snapshot cycle, and calls that may fail.
use credbound.Prelude.{ℕ, Bool, Option, none, some, List, [], String, Map, if◌then◌else◌, zeros}
use credbound.Types.{
  Uuid, Time, Bytes, User, Workspace, Membership, InstanceAdministrator, PasswordCredential,
  TotpFactor, RecoveryCode, Passkey, LoginThrottle, PasswordResetCredential, Session, Pat,
  OauthGrant, OauthAccessToken, OauthRefreshToken, OauthIssuer, OauthProtectedResource, OauthClient,
  OauthInitialAccessToken, OauthAuthorizationCode, OauthClientAccessToken, AuditEvent, Error,
  Result, ok, err,
}

-- A map from texts to identifiers.
abbrev pub Keys : Type 0
Keys = List (String × Uuid)

-- `oauthClientKey` joins an issuer's text and a client's identifier by a NUL, which the text of a
-- UUID does not hold; here the key is the pair.
abbrev pub ClientKeys : Type 0
ClientKeys = List ((Uuid × String) × Uuid)

-- The maps of email addresses, SSO, SCIM, domains and invitations are left out. `passkeys` and
-- `memberships` are maps of maps, by user and by workspace.
pub record Store : Type 0 where
  pub users : Map User
  pub passwords : Map PasswordCredential
  pub workspaces : Map Workspace
  pub memberships : Map (Map Membership)
  pub admins : Map InstanceAdministrator
  pub totp : Map TotpFactor
  pub recovery : Map (List RecoveryCode)
  pub passkeys : Map (Map Passkey)
  pub pats : Map Pat
  pub pat_prefixes : Keys
  pub sessions : Map Session
  pub ceremonies : Map Time
  pub oauth_issuers : Map OauthIssuer
  pub oauth_issuer_urls : Keys
  pub oauth_resources : Map OauthProtectedResource
  pub oauth_resource_uris : Keys
  pub oauth_clients : Map OauthClient
  pub oauth_client_keys : ClientKeys
  pub oauth_initial_tokens : Map OauthInitialAccessToken
  pub oauth_initial_keys : Keys
  pub oauth_grants : Map OauthGrant
  pub oauth_codes : Map OauthAuthorizationCode
  pub oauth_code_keys : Keys
  pub oauth_access_tokens : Map OauthAccessToken
  pub oauth_access_keys : Keys
  pub oauth_client_tokens : Map OauthClientAccessToken
  pub oauth_client_token_keys : Keys
  pub oauth_refresh_tokens : Map OauthRefreshToken
  pub oauth_refresh_keys : Keys
  pub throttles : Map LoginThrottle
  pub password_resets : Map PasswordResetCredential
  pub audits : List AuditEvent
  pub audit_ids : List Uuid
  pub audit_sequence : ℕ
  pub audit_head : Bytes
  pub audit_failure : Option Error

-- `snapshotLocked` copies every map but one: where `oauthClientKeys` would be copied, the code
-- copies `oauthClientTokenKeys`, so the copy of the former is empty.
unfoldable pub snapshot : Store → Store
snapshot s = record s { oauth_client_keys = [] }

-- `restoreLocked`: every map but the consumed ceremonies goes back to its copy.
unfoldable pub restore : Store → Store → Store
restore previous s = record previous { ceremonies = s.ceremonies; audit_failure = s.audit_failure }

abbrev pub Tx : Type 0 → Type 0
Tx A = Store → Result A × Store

abbrev pub pure : {A : Type 0} → A → Tx A
pure a s = (ok a, s)

abbrev pub fail : {A : Type 0} → Error → Tx A
fail e s = (err e, s)

abbrev pub gets : {A : Type 0} → (Store → A) → Tx A
gets f s = (ok (f s), s)

abbrev pub modify : (Store → Store) → Tx (Unit {0})
modify f s = (ok tt, f s)

-- What follows a call, by its result.
abbrev pub continue : {A B : Type 0} → (A → Tx B) → Result A × Store → Result B × Store
continue f (ok a, s) = f a s
continue f (err e, s) = (err e, s)

infixl 5 ◌>>=◌ ◌>>◌
abbrev pub ◌>>=◌ : {A B : Type 0} → Tx A → (A → Tx B) → Tx B
◌>>=◌ m f s = continue f (m s)

abbrev pub ◌>>◌ : {B : Type 0} → Tx (Unit {0}) → Tx B → Tx B
m >> k = m >>= λ _. k

-- An early `return err` under a test.
abbrev pub fail_if : Bool → Error → Tx (Unit {0})
fail_if b e s = (if b then err e else ok tt, s)

-- `value, ok := map[key]; if !ok { return e }`
abbrev pub require : {A : Type 0} → Option A → Error → Tx A
require none e s = (err e, s)
require (some a) e s = (ok a, s)

-- `if err := ctx.Err(); err != nil { return err }`, with what `ctx.Err()` returns.
abbrev pub check_context : Option Error → Tx (Unit {0})
check_context none s = (ok tt, s)
check_context (some e) s = (err e, s)

-- `New`: 32 zero bytes as the head of the chain.
abbrev pub new_store : Store
new_store = record {
  users = [];
  passwords = [];
  workspaces = [];
  memberships = [];
  admins = [];
  totp = [];
  recovery = [];
  passkeys = [];
  pats = [];
  pat_prefixes = [];
  sessions = [];
  ceremonies = [];
  oauth_issuers = [];
  oauth_issuer_urls = [];
  oauth_resources = [];
  oauth_resource_uris = [];
  oauth_clients = [];
  oauth_client_keys = [];
  oauth_initial_tokens = [];
  oauth_initial_keys = [];
  oauth_grants = [];
  oauth_codes = [];
  oauth_code_keys = [];
  oauth_access_tokens = [];
  oauth_access_keys = [];
  oauth_client_tokens = [];
  oauth_client_token_keys = [];
  oauth_refresh_tokens = [];
  oauth_refresh_keys = [];
  throttles = [];
  password_resets = [];
  audits = [];
  audit_ids = [];
  audit_sequence = 0;
  audit_head = zeros 32;
  audit_failure = none;
}
