-- ===== src/Store/Effects.antt =====
-- What one call of the store does to its state: nothing but the consumption of a ceremony when it
-- fails, and otherwise one change of the maps followed by one committed audit event.
use credbound.Prelude.{
  ◌≡◌, refl, ap, sym, subst, ◌∙◌, Bool, true, false, Option, none, some, Map, Bool-cases, inl, inr,
  ◌⊎◌, is_some, lookup, insert, [], if◌then◌else◌,
}
use credbound.Types.{Time, Crypto, Commit, CeremonyConsumption, Error, Result, ok, err}
use credbound.Store.State.{
  Store, Tx, pure, continue, ◌>>=◌, fail_if, require, check_context, restore, snapshot,
}
use credbound.Store.Commits.{
  prepare_after, finish_after, purge_ceremonies, can_audit, consume_ceremony, prepare_commit,
  snapshot_for, finish_commit, roll_back, commit_audit, transact,
}

-- The audit log and the ceremonies are the same in both states.
abbrev pub Kept : Store → Store → Type 0
Kept s t =
    (t.audits ≡ s.audits)
    × (t.audit_ids ≡ s.audit_ids)
    × (t.audit_sequence ≡ s.audit_sequence)
    × (t.audit_head ≡ s.audit_head)
    × (t.audit_failure ≡ s.audit_failure)
    × (t.ceremonies ≡ s.ceremonies)

-- A change of the maps that leaves the audit log and the ceremonies alone.
abbrev pub KeepsAudit : (Store → Store) → Type 0
KeepsAudit change = (s : Store) → Kept s (change s)

-- This fits `Kept s (record s { … })` too, where no kept field is named.
pub Kept-refl : (s : Store) → Kept s s
Kept-refl s = (refl, refl, refl, refl, refl, refl)

pub Kept-trans : (s t u : Store) → Kept s t → Kept t u → Kept s u
Kept-trans s t u h k = (k.0 ∙ h.0, k.1 ∙ h.1, k.2 ∙ h.2, k.3 ∙ h.3, k.4 ∙ h.4, k.5 ∙ h.5)

abbrev pub with_ceremonies : Map Time → Store → Store
with_ceremonies c s = record s { ceremonies = c }

-- What a rollback leaves: the index of the clients is lost.
abbrev pub undone : Map Time → Store → Store
undone c s = record s { ceremonies = c; oauth_client_keys = [] }

-- `done` tells an answer that reports a change from one that reports none.
pub data Effect (crypto : Crypto) (commit : Commit) (s : Store) {A : Type 0} (done : A → Bool)
    (r : Result A × Store) : Type 0 where
  rejected :
      (e : Error) (c : Map Time) → r ≡ (err e, with_ceremonies c s) → Effect crypto commit s done r
  rolled_back : (e : Error) (c : Map Time) → r ≡ (err e, undone c s) → Effect crypto commit s done r
  idle : (a : A) → done a ≡ false → r ≡ (ok a, s) → Effect crypto commit s done r
  committed :
      (a : A) (change : Store → Store) (c : Map Time)
      → KeepsAudit change
      → done a ≡ true
      → r ≡ (ok a, commit_audit crypto commit.audit commit.unchained (change (with_ceremonies c s)))
      → Effect crypto commit s done r

module _ {crypto : Crypto} {commit : Commit} {s : Store} where
  pub check_context-Effect :
      {A : Type 0} {done : A → Bool} (ctx : Option Error) (m : Tx A)
      → Effect crypto commit s done (m s)
      → Effect crypto commit s done ((check_context ctx >>= λ _. m) s)
  check_context-Effect none m h = h
  check_context-Effect (some e) m h = Effect.rejected e s.ceremonies refl

  pub require-Effect :
      {A B : Type 0} {done : B → Bool} (o : Option A) (e : Error) (f : A → Tx B)
      → ((a : A) → Effect crypto commit s done (f a s))
      → Effect crypto commit s done ((require o e >>= f) s)
  require-Effect none e f h = Effect.rejected e s.ceremonies refl
  require-Effect (some a) e f h = h a

  pub fail_if-Effect :
      {A : Type 0} {done : A → Bool} (b : Bool) (e : Error) (m : Tx A)
      → Effect crypto commit s done (m s)
      → Effect crypto commit s done ((fail_if b e >>= λ _. m) s)
  fail_if-Effect true e m h = Effect.rejected e s.ceremonies refl
  fail_if-Effect false e m h = h

  pub if-Effect :
      {A : Type 0} {done : A → Bool} (b : Bool) (m n : Tx A)
      → Effect crypto commit s done (m s)
      → Effect crypto commit s done (n s)
      → Effect crypto commit s done ((if b then m else n) s)
  if-Effect true m n hm hn = hm
  if-Effect false m n hm hn = hn

  -- A read that leaves the state, then what follows it.
  pub read-Effect :
      {A B : Type 0} {done : B → Bool} (m : Tx A) (f : A → Tx B)
      → ((e : Error) × (m s ≡ (err e, s))) ⊎ ((a : A) × (m s ≡ (ok a, s)))
      → ((a : A) → Effect crypto commit s done (f a s))
      → Effect crypto commit s done ((m >>= f) s)
  read-Effect m f (inl (e, q)) h = Effect.rejected e s.ceremonies (ap (continue f) q)
  read-Effect {done = done} m f (inr (a, q)) h =
      subst (λ r. Effect crypto commit s done (continue f r)) (sym q) (h a)

  pub pure-Effect :
      {A B : Type 0} {done : B → Bool} (m : Tx A) (b : B)
      → done b ≡ true
      → Effect crypto commit s (λ _. true) (m s)
      → Effect crypto commit s done ((m >>= λ _. pure b) s)
  pure-Effect m b hb (Effect.rejected e c h) = Effect.rejected e c (ap (continue (λ _. pure b)) h)
  pure-Effect m b hb (Effect.rolled_back e c h) =
      Effect.rolled_back e c (ap (continue (λ _. pure b)) h)
  pure-Effect m b hb (Effect.idle a ha h) = absurd (cc)
  pure-Effect m b hb (Effect.committed a change c keeps ha h) =
      Effect.committed b change c keeps hb (ap (continue (λ _. pure b)) h)

consume_ceremony-cases :
    (o : Option CeremonyConsumption) (now : Time) (s : Store)
    → (c : Map Time) × ((consume_ceremony o now s ≡ (ok tt, with_ceremonies c s))
        ⊎ (consume_ceremony o now s ≡ (err Error.conflict, with_ceremonies c s)))
unfolding consume_ceremony
consume_ceremony-cases none now s = (s.ceremonies, inl refl)
consume_ceremony-cases (some c) now s = elim (Bool-cases (is_some (lookup c.id live))) [
  | inl used ↦ (live, inr (rw used))
  | inr fresh ↦ (insert c.id c.expires_at live, inl (rw fresh))
]
  where
    live : Map Time
    live = purge_ceremonies now s.ceremonies

abbrev pub Prepared : Commit → Store → Result (Option Store) × Store → Type 0
Prepared commit s r =
    ((e : Error) × (c : Map Time) × (r ≡ (err e, with_ceremonies c s)))
    ⊎ ((c : Map Time) × (r
          ≡ (ok (snapshot_for commit.transactional (with_ceremonies c s)), with_ceremonies c s)))

pub prepare_after-Prepared :
    (o : Option Error) (commit : Commit) (s : Store) → Prepared commit s (prepare_after o commit s)
unfolding prepare_after
prepare_after-Prepared (some e) commit s = inl (e, s.ceremonies, refl)
prepare_after-Prepared none commit s = elim split.1 [
  | inl consumed ↦ inr (split.0, rw consumed)
  | inr used ↦ inl (Error.conflict, split.0, rw used)
]
  where
    split :
        (c : Map Time) × ((consume_ceremony commit.ceremony commit.audit.occurred_at s
            ≡ (ok tt, with_ceremonies c s))
          ⊎ (consume_ceremony commit.ceremony commit.audit.occurred_at s
              ≡ (err Error.conflict, with_ceremonies c s)))
    split = consume_ceremony-cases commit.ceremony commit.audit.occurred_at s

module _ (crypto : Crypto) (commit : Commit) (change : Store → Store)
    (keeps : KeepsAudit change) where
  finish_after-Effect :
      (t : Option (Option Error)) (s : Store) (c : Map Time)
      → Effect crypto commit s
          (λ _. true)
          (finish_after crypto t commit
            (snapshot_for t (with_ceremonies c s))
            (change (with_ceremonies c s)))
  unfolding finish_after snapshot_for
  finish_after-Effect none s c = Effect.committed tt change c keeps refl refl
  finish_after-Effect (some none) s c = Effect.committed tt change c keeps refl refl
  finish_after-Effect (some (some e)) s c = Effect.rolled_back e c (
      unfold roll_back restore snapshot in
      rw ((keeps (with_ceremonies c s)).5, (keeps (with_ceremonies c s)).4))

  pub transact-Effect :
      (s : Store) → Effect crypto commit s (λ _. true) (transact crypto commit change s)
  unfolding transact prepare_commit finish_commit
  transact-Effect s = elim (prepare_after-Prepared (can_audit commit.audit s) commit s) [
    | inl (e, c, refused) ↦ rw (refused, ◌>>=◌) (Effect.rejected e c refl)
    | inr (c, ready) ↦ rw (ready, ◌>>=◌) (finish_after-Effect commit.transactional s c)
  ]
