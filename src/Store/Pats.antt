-- ===== src/Store/Pats.antt =====
-- memory/store.go: personal access tokens and the revocation of all that a user holds.
use credbound.Prelude.{
  not, Option, none, some, List, [], ◌∷◌, String, str_eq, lookup, insert, ◌==◌, if◌then◌else◌,
  is_some,
}
use credbound.Types.{Uuid, Time, Pat, Crypto, Commit, Error}
use credbound.Store.State.{Store, Tx, gets, ◌>>=◌, ◌>>◌, fail_if, require, check_context, pure}
use credbound.Store.Commits.{transact}
use credbound.Store.Revocation.{
  touch_last_seen, revoke_user_credentials_locked, revoke_user_sessions_locked,
}

-- `map[string]UUID`: a read, and a write of a key that is not there.
unfoldable pub lookup_prefix : String → List (String × Uuid) → Option Uuid
lookup_prefix prefix [] = none
lookup_prefix prefix ((p, id) ∷ m) = if str_eq p prefix then some id else lookup_prefix prefix m

-- The zero value of `PAT`, which `s.pats[id]` gives for a missing key.
abbrev pub zero_pat : Pat
zero_pat = record {
  id = 0;
  user_id = 0;
  name = "";
  prefix = "";
  digest = [];
  workspace_id = 0;
  scopes = [];
  created_at = 0;
  expires_at = none;
  last_used_at = none;
  revoked_at = none;
}

abbrev pub or_zero_pat : Option Pat → Pat
or_zero_pat none = zero_pat
or_zero_pat (some pat) = pat

unfoldable pub touch_token : Uuid → Pat → Time → Store → Store
touch_token id pat used_at s =
    touch_last_seen pat.user_id used_at
      (record s { pats = insert id (record pat { last_used_at = some used_at }) s.pats })

module _ (crypto : Crypto) (ctx : Option Error) where
  unfoldable pub create_pat : Pat → Commit → Tx (Unit {0})
  create_pat pat commit = do
    check_context ctx
    pats ← gets (λ s. s.pats)
    fail_if (is_some (lookup pat.id pats)) Error.conflict
    prefixes ← gets (λ s. s.pat_prefixes)
    fail_if (is_some (lookup_prefix pat.prefix prefixes)) Error.conflict
    users ← gets (λ s. s.users)
    user ← require (lookup pat.user_id users) Error.not_found
    transact crypto commit λ s. record s {
      pats = insert pat.id pat s.pats;
      pat_prefixes = (pat.prefix, pat.id) ∷ s.pat_prefixes;
    }

  unfoldable pub pat_by_prefix : String → Tx Pat
  pat_by_prefix prefix = do
    check_context ctx
    prefixes ← gets (λ s. s.pat_prefixes)
    id ← require (lookup_prefix prefix prefixes) Error.not_found
    pats ← gets (λ s. s.pats)
    pure (or_zero_pat (lookup id pats))

  unfoldable pub pat_by_id : Uuid → Tx Pat
  pat_by_id id = do
    check_context ctx
    pats ← gets (λ s. s.pats)
    require (lookup id pats) Error.not_found

  unfoldable pub touch_pat : Uuid → Time → Commit → Tx (Unit {0})
  touch_pat id used_at commit = do
    check_context ctx
    pats ← gets (λ s. s.pats)
    pat ← require (lookup id pats) Error.not_found
    transact crypto commit (touch_token id pat used_at)

  unfoldable pub revoke_pat : Uuid → Uuid → Time → Commit → Tx (Unit {0})
  revoke_pat user_id id revoked_at commit = do
    check_context ctx
    pats ← gets (λ s. s.pats)
    pat ← require (lookup id pats) Error.not_found
    fail_if (not (pat.user_id == user_id)) Error.not_found
    transact crypto commit
        λ s. record s { pats = insert id (record pat { revoked_at = some revoked_at }) s.pats }

  unfoldable pub revoke_user_credentials : Uuid → Time → Commit → Tx (Unit {0})
  revoke_user_credentials user_id at commit = do
    check_context ctx
    users ← gets (λ s. s.users)
    user ← require (lookup user_id users) Error.not_found
    transact crypto commit
        λ s. revoke_user_sessions_locked user_id at (revoke_user_credentials_locked user_id 0 at s)
