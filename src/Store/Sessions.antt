-- ===== src/Store/Sessions.antt =====
-- memory/store.go: server-side sessions; types.go: `CredentialFingerprint`.
use credbound.Prelude.{
  Bool, true, false, not, ◌&&◌, Option, none, some, [], ◌∷◌, ◌++◌, String, lookup, insert,
  if◌then◌else◌, is_some, bytes_equal,
}
use credbound.Types.{Uuid, Time, Bytes, Session, PasswordCredential, Crypto, Commit, Error}
use credbound.Audit.Encoding.{utf8}
use credbound.Store.State.{Store, Tx, gets, ◌>>=◌, ◌>>◌, fail_if, require, check_context}
use credbound.Store.Commits.{transact}
use credbound.Store.Revocation.{touch_last_seen, revoke_user_sessions_locked}

-- `len(digest) > 0`
abbrev pub is_present : Bytes → Bool
is_present [] = false
is_present (b ∷ bs) = true

-- `RevokeSession` keeps the time of a first revocation.
unfoldable pub stamp_revoked : Uuid → Session → Time → Store → Store
stamp_revoked id session at s =
    if is_some session.revoked_at
    then s
    else record s { sessions = insert id (record session { revoked_at = some at }) s.sessions }

unfoldable pub touch : Uuid → Session → Time → Store → Store
touch id session at s =
    touch_last_seen session.user_id at
      (record s { sessions = insert id (record session { last_seen_at = at }) s.sessions })

module _ (crypto : Crypto) where
  unfoldable pub credential_fingerprint : String → Bytes
  credential_fingerprint hash = crypto.sha256 (utf8 "credbound-credential-v1:" ++ utf8 hash)

  -- The guard of `CreateSession` on the credential behind the authentication.
  unfoldable pub fingerprint_differs : Bytes → Option PasswordCredential → Bool
  fingerprint_differs digest none = true
  fingerprint_differs digest (some credential) =
      not (bytes_equal (credential_fingerprint credential.hash) digest)

module _ (crypto : Crypto) (ctx : Option Error) where
  unfoldable pub create_session : Session → Bytes → Commit → Tx (Unit {0})
  create_session session credential_digest commit = do
    check_context ctx
    sessions ← gets (λ s. s.sessions)
    fail_if (is_some (lookup session.id sessions)) Error.conflict
    users ← gets (λ s. s.users)
    user ← require (lookup session.user_id users) Error.not_found
    passwords ← gets (λ s. s.passwords)
    fail_if
        (is_present credential_digest
          && fingerprint_differs crypto credential_digest (lookup session.user_id passwords))
        Error.conflict
    transact crypto commit (λ s. record s { sessions = insert session.id session s.sessions })

  unfoldable pub session_by_id : Uuid → Tx Session
  session_by_id id = do
    check_context ctx
    sessions ← gets (λ s. s.sessions)
    require (lookup id sessions) Error.not_found

  unfoldable pub touch_session : Uuid → Time → Commit → Tx (Unit {0})
  touch_session id at commit = do
    check_context ctx
    sessions ← gets (λ s. s.sessions)
    session ← require (lookup id sessions) Error.not_found
    fail_if (is_some session.revoked_at) Error.conflict
    transact crypto commit (touch id session at)

  unfoldable pub revoke_session : Uuid → Time → Commit → Tx (Unit {0})
  revoke_session id at commit = do
    check_context ctx
    sessions ← gets (λ s. s.sessions)
    session ← require (lookup id sessions) Error.not_found
    transact crypto commit (stamp_revoked id session at)

  unfoldable pub revoke_user_sessions : Uuid → Time → Commit → Tx (Unit {0})
  revoke_user_sessions user_id at commit = do
    check_context ctx
    users ← gets (λ s. s.users)
    user ← require (lookup user_id users) Error.not_found
    transact crypto commit (revoke_user_sessions_locked user_id at)
