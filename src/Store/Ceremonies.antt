-- ===== src/Store/Ceremonies.antt =====
-- `prepareCommitLocked`: a ceremony is consumed once, also when the commit fails afterwards.
use credbound.Prelude.{
  ◌≤◌, ◌≡◌, ◌≢◌, refl, ap, sym, ◌∙◌, subst, Option, none, some, Map, lookup, lookup-inserted,
  insert, [], ◌∷◌, arith, Option-cases, inl, inr, Bool, true, false,
}
use credbound.Types.{Uuid, Time, Crypto, Commit, CeremonyConsumption, Error, Result, ok, err}
use credbound.Store.State.{Store, Tx, continue, gets, restore}
use credbound.Store.Commits.{
  can_audit, purge_ceremonies, consume_ceremony, prepare_after, prepare_commit, snapshot_for,
  finish_after, finish_commit, roll_back, commit_audit, append_audit_event, transact,
}

purge_ceremonies-keeps :
    (id : Uuid) (now expires : Time) (m : Map Time)
    → now ≤ expires
    → lookup id m ≡ some expires
    → lookup id (purge_ceremonies now m) ≡ some expires
unfolding purge_ceremonies lookup
purge_ceremonies-keeps id now expires [] late h = h
purge_ceremonies-keeps id now expires ((at, until) ∷ m) late h =
    ground (arith, purge_ceremonies-keeps id now expires m late)

purge_ceremonies-none :
    (id : Uuid) (now : Time) (m : Map Time)
    → lookup id m ≡ none
    → lookup id (purge_ceremonies now m) ≡ none
unfolding purge_ceremonies lookup
purge_ceremonies-none id now [] h = h
purge_ceremonies-none id now ((at, until) ∷ m) h = ground (arith, purge_ceremonies-none id now m)

-- The store has recorded the ceremony with this expiry.
abbrev pub IsConsumed : Uuid → Time → Store → Type 0
IsConsumed id expires s = lookup id s.ceremonies ≡ some expires

consume_ceremony-IsConsumed :
    (c : CeremonyConsumption) (now : Time) (s : Store)
    → lookup c.id s.ceremonies ≡ none
    → (live : Map Time) × (consume_ceremony (some c) now s
        ≡ (ok tt, record s { ceremonies = live }))
      × (lookup c.id live ≡ some c.expires_at)
unfolding consume_ceremony
consume_ceremony-IsConsumed c now s fresh =
    let live = insert c.id c.expires_at (purge_ceremonies now s.ceremonies) in
    (
      live,
      rw (purge_ceremonies-none c.id now s.ceremonies fresh) refl,
      lookup-inserted c.id c.expires_at (purge_ceremonies now s.ceremonies),
    )

consume_ceremony-refuses :
    (c : CeremonyConsumption) (now expires : Time) (s : Store)
    → now ≤ expires
    → IsConsumed c.id expires s
    → consume_ceremony (some c) now s
      ≡ (err Error.conflict, record s { ceremonies = purge_ceremonies now s.ceremonies })
unfolding consume_ceremony
consume_ceremony-refuses c now expires s late used =
    rw (purge_ceremonies-keeps c.id now expires s.ceremonies late used) refl

-- What `canAudit` accepted goes on with the ceremony.
prepare_commit-consumed :
    (commit : Commit) (r : Result (Unit {0}) × Store) (s : Store)
    → can_audit commit.audit s ≡ none
    → consume_ceremony commit.ceremony commit.audit.occurred_at s ≡ r
    → prepare_commit commit s ≡ continue (λ _. gets (snapshot_for commit.transactional)) r
unfolding prepare_commit prepare_after
prepare_commit-consumed commit r s audited consumed =
    ap (λ o. prepare_after o commit s) audited
    ∙ ap (continue (λ _. gets (snapshot_for commit.transactional))) consumed

module _ (crypto : Crypto) where
  commit_audit-ceremonies :
      (commit : Commit) (unchained : Bool) (s : Store)
      → (commit_audit crypto commit.audit unchained s).ceremonies ≡ s.ceremonies
  unfolding commit_audit append_audit_event
  commit_audit-ceremonies commit true s = refl
  commit_audit-ceremonies commit false s = refl

  -- Whatever the hooks answer, the end of a commit leaves the ceremonies.
  finish_after-ceremonies :
      (outcome : Option (Option Error)) (commit : Commit) (before s : Store)
      → (finish_after crypto outcome commit (snapshot_for outcome before) s).1.ceremonies
        ≡ s.ceremonies
  unfolding finish_after snapshot_for
  finish_after-ceremonies none commit before s = commit_audit-ceremonies commit commit.unchained s
  finish_after-ceremonies (some none) commit before s =
      commit_audit-ceremonies commit commit.unchained s
  finish_after-ceremonies (some (some e)) commit before s = unfold roll_back restore in refl

  -- The rest of a mutation, after its preparation.
  abbrev finish : Commit → (Store → Store) → Option Store → Tx (Unit {0})
  finish commit change previous t =
      finish_after crypto commit.transactional commit previous (change t)

  transact-IsConsumed :
      (commit : Commit) (c : CeremonyConsumption) (change : Store → Store) (s : Store)
      → commit.ceremony ≡ some c
      → can_audit commit.audit s ≡ none
      → lookup c.id s.ceremonies ≡ none
      → ((t : Store) → (change t).ceremonies ≡ t.ceremonies)
      → IsConsumed c.id c.expires_at (transact crypto commit change s).1
  unfolding transact finish_commit
  transact-IsConsumed commit c change s bound audited fresh keeps =
      let at = commit.audit.occurred_at in
      let (live, consumed, held) = consume_ceremony-IsConsumed c at s fresh in
      let t : Store = record s { ceremonies = live } in
      let prepared =
        prepare_commit-consumed commit (ok tt, t) s audited
          (ap (λ o. consume_ceremony o at s) bound ∙ consumed) in
      ap (λ r. lookup c.id (continue (finish commit change) r).1.ceremonies) prepared
      ∙ ap (lookup c.id)
          (finish_after-ceremonies commit.transactional commit t (change t) ∙ keeps t)
      ∙ held

  transact-refuses :
      (commit : Commit) (c : CeremonyConsumption) (expires : Time) (change : Store → Store)
      (s s' : Store)
      → commit.ceremony ≡ some c
      → commit.audit.occurred_at ≤ expires
      → IsConsumed c.id expires s
      → transact crypto commit change s ≢ (ok tt, s')
  unfolding transact finish_commit prepare_commit
  transact-refuses commit c expires change s s' bound late used h =
      elim (Option-cases (can_audit commit.audit s)) [
        | inl audited ↦
            let refused = prepare_commit-consumed commit _ s audited (
              ap (λ o. consume_ceremony o commit.audit.occurred_at s) bound
              ∙ consume_ceremony-refuses c commit.audit.occurred_at expires s late used) in
            let stopped = sym (ap (continue (finish commit change)) refused) ∙ h in absurd (cc)
        | inr (e, refused) ↦
            let stopped : continue (finish commit change) (prepare_after (some e) commit s)
                ≡ (ok tt, s') =
              ap (λ o. continue (finish commit change) (prepare_after o commit s)) (sym refused)
              ∙ h in
            absurd (unfold prepare_after in cc)
      ]

  -- Take a commit with a ceremony that the store has not consumed and an audit event that it can
  -- audit, with a change of the maps that leaves the ceremonies. However the commit ends, a
  -- failure of its hooks included, no later commit with a ceremony of the same identifier and an
  -- audit event not after the first ceremony's expiry succeeds on the store that it leaves.
  pub transact-single_use :
      (first second : Commit) (c d : CeremonyConsumption) (change later : Store → Store)
      (s s' : Store)
      → first.ceremony ≡ some c
      → second.ceremony ≡ some d
      → c.id ≡ d.id
      → can_audit first.audit s ≡ none
      → lookup c.id s.ceremonies ≡ none
      → ((t : Store) → (change t).ceremonies ≡ t.ceremonies)
      → second.audit.occurred_at ≤ c.expires_at
      → transact crypto second later (transact crypto first change s).1 ≢ (ok tt, s')
  transact-single_use first second c d change later s s' bound rebound same audited fresh keeps at =
      transact-refuses second d c.expires_at later _ s' rebound at (
        subst (λ id. IsConsumed id c.expires_at (transact crypto first change s).1) same
          (transact-IsConsumed first c change s bound audited fresh keeps))
