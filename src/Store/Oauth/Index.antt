-- ===== src/Store/Oauth/Index.antt =====
-- memory/store.go and memory/oauth.go: `snapshotLocked` copies `oauthClientTokenKeys` where
-- `oauthClientKeys` would be copied, and what a refused change then does to the clients.
use credbound.Prelude.{◌≡◌, refl, ap, ◌∙◌, Option, none, some, Map, inl, inr, lookup, String}
use credbound.Types.{Uuid, Time, Crypto, Commit, Error, Result, ok, err}
use credbound.Store.State.{Store, Tx, continue, restore, snapshot, require}
use credbound.Store.Commits.{
  transact, prepare_commit, can_audit, finish_commit, finish_after, roll_back, snapshot_for,
}
use credbound.Store.Effects.{with_ceremonies, Prepared, prepare_after-Prepared}
use credbound.Store.Oauth.Clients.{oauth_client_by_id, oauth_client_by_client_id, lookup_client}
use credbound.Store.Oauth.Revocation.{read_by_id}

-- Every client is there under its own identifier as before, and none under its text.
abbrev pub IndexLost : Crypto → Store → Store → Type 0
IndexLost crypto s s' =
    ((id : Uuid)
      → (oauth_client_by_id crypto none id s').0 ≡ (oauth_client_by_id crypto none id s).0)
    × ((issuer_id : Uuid) (client_id : String)
        → oauth_client_by_client_id crypto none issuer_id client_id s' ≡ (err Error.not_found, s'))

require-answer :
    {A : Type 0} (o : Option A) (e : Error) (s t : Store) → (require o e s).0 ≡ (require o e t).0
require-answer none e s t = refl
require-answer (some a) e s t = refl

module _ (crypto : Crypto) (commit : Commit) (change : Store → Store) (e : Error) where
  finish-IndexLost :
      (c : Map Time) (s : Store) (t : Option (Option Error))
      → t ≡ some (some e)
      → (s' : Store) × (finish_after crypto t commit
            (snapshot_for t (with_ceremonies c s))
            (change (with_ceremonies c s))
          ≡ (err e, s'))
        × IndexLost crypto s s'
  unfolding finish_after snapshot_for roll_back restore snapshot oauth_client_by_id
      oauth_client_by_client_id read_by_id lookup_client
  finish-IndexLost c s none refuses = absurd (cc)
  finish-IndexLost c s (some none) refuses = absurd (cc)
  finish-IndexLost c s (some (some f)) refuses =
      let same : f ≡ e = cc in
      rw same (
        restore (snapshot (with_ceremonies c s)) (change (with_ceremonies c s)),
        refl,
        (
          (λ id. require-answer (lookup id s.oauth_clients) Error.not_found _ s),
          λ issuer_id client_id. refl,
        ),
      )

  -- Take a commit that the store can prepare and whose transaction hooks fail. Whatever change of
  -- the maps the commit is for, the call fails with the hooks' error and leaves a store in which
  -- every client is found by its identifier as before and none is found by its issuer and client
  -- identifier.
  pub transact-IndexLost :
      (s t : Store) (previous : Option Store)
      → commit.transactional ≡ some (some e)
      → prepare_commit commit s ≡ (ok previous, t)
      → (s' : Store) × (transact crypto commit change s ≡ (err e, s')) × IndexLost crypto s s'
  unfolding transact prepare_commit finish_commit
  transact-IndexLost s t previous refuses prepared =
      go _ (prepare_after-Prepared (can_audit commit.audit s) commit s) prepared refl
    where
      rest : Option Store → Tx (Unit {0})
      rest saved u = finish_after crypto commit.transactional commit saved (change u)

      go :
          (r : Result (Option Store) × Store)
          → Prepared commit s r
          → r ≡ (ok previous, t)
          → transact crypto commit change s ≡ continue rest r
          → (s' : Store) × (transact crypto commit change s ≡ (err e, s')) × IndexLost crypto s s'
      go r (inl (f, c, q)) prepared h = absurd (cc)
      go r (inr (c, q)) prepared h =
          let (s', ended, lost) = finish-IndexLost c s commit.transactional refuses in
          (s', h ∙ ap (continue rest) q ∙ ended, lost)
