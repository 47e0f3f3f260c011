-- ===== src/Store/Inversion.antt =====
-- What a call that succeeded has passed: its guards, and the shape of its last state.
use credbound.Prelude.{
  ◌≡◌, refl, Bool, true, false, Option, none, some, Map, inl, inr, ap, sym, ◌∙◌, subst, List, ℕ,
}
use credbound.Types.{Uuid, Bytes, AuditEvent, Time, Crypto, Commit, Error, Result, ok, err}
use credbound.Store.State.{Store, Tx, pure, continue, ◌>>=◌, fail_if, require, check_context}
use credbound.Store.Commits.{
  prepare_commit, can_audit, finish_commit, finish_after, commit_audit, append_audit_event,
  transact,
}
use credbound.Store.Effects.{with_ceremonies, Prepared, prepare_after-Prepared}

module _ {B : Type 0} {s s' : Store} {b : B} where
  pub check_context-ok :
      (ctx : Option Error) (m : Tx B)
      → (check_context ctx >>= λ _. m) s ≡ (ok b, s')
      → m s ≡ (ok b, s')
  check_context-ok none m h = h
  check_context-ok (some e) m h = absurd (cc)

  pub require-ok :
      {A : Type 0} (o : Option A) (e : Error) (f : A → Tx B)
      → (require o e >>= f) s ≡ (ok b, s')
      → (a : A) × (o ≡ some a) × (f a s ≡ (ok b, s'))
  require-ok none e f h = absurd (cc)
  require-ok (some a) e f h = (a, refl, h)

  pub fail_if-ok :
      (test : Bool) (e : Error) (m : Tx B)
      → (fail_if test e >>= λ _. m) s ≡ (ok b, s')
      → (test ≡ false) × (m s ≡ (ok b, s'))
  fail_if-ok true e m h = absurd (cc)
  fail_if-ok false e m h = (refl, h)

  pub >>=-ok :
      {A : Type 0} (m : Tx A) (f : A → Tx B)
      → (m >>= f) s ≡ (ok b, s')
      → (a : A) × (t : Store) × (m s ≡ (ok a, t)) × (f a t ≡ (ok b, s'))
  >>=-ok {A = A} m f h = go (m s) refl h
    where
      go :
          (r : Result A × Store)
          → m s ≡ r
          → continue f r ≡ (ok b, s')
          → (a : A) × (t : Store) × (m s ≡ (ok a, t)) × (f a t ≡ (ok b, s'))
      go (ok a, t) e h = (a, t, e, h)
      go (err e', t) e h = absurd (cc)

-- A call that ends in `return value, nil`.
pub pure-ok :
    {A : Type 0} (m : Tx (Unit {0})) (a b : A) (s s' : Store)
    → (m >>= λ _. pure a) s ≡ (ok b, s')
    → m s ≡ (ok tt, s')
pure-ok m a b s s' h =
    let (u, t, called, q) = >>=-ok {s = s} m _ h in called ∙ ap (λ r. (ok tt, r.1)) q

module _ (crypto : Crypto) (commit : Commit) (change : Store → Store) where
  finish_after-ok :
      (t : Option (Option Error)) (c : Map Time) (s s' : Store) (previous : Option Store)
      → finish_after crypto t commit previous (change (with_ceremonies c s)) ≡ (ok tt, s')
      → s' ≡ commit_audit crypto commit.audit commit.unchained (change (with_ceremonies c s))
  unfolding finish_after
  finish_after-ok none c s s' previous h = cc
  finish_after-ok (some none) c s s' previous h = cc
  finish_after-ok (some (some e)) c s s' previous h = absurd (cc)

  pub transact-ok :
      (s s' : Store)
      → transact crypto commit change s ≡ (ok tt, s')
      → (c : Map Time) × (s'
          ≡ commit_audit crypto commit.audit commit.unchained (change (with_ceremonies c s)))
  unfolding transact prepare_commit finish_commit
  transact-ok s s' h = go _ (prepare_after-Prepared (can_audit commit.audit s) commit s) h
    where
      rest : Option Store → Tx (Unit {0})
      rest previous t = finish_after crypto commit.transactional commit previous (change t)

      go :
          (r : Result (Option Store) × Store)
          → Prepared commit s r
          → continue rest r ≡ (ok tt, s')
          → (c : Map Time) × (s'
              ≡ commit_audit crypto commit.audit commit.unchained (change (with_ceremonies c s)))
      go r (inl (e, c, q)) h =
          let stopped : continue rest (err e, with_ceremonies c s) ≡ (ok tt, s') =
            ap (continue rest) (sym q) ∙ h in
          absurd (cc)
      go r (inr (c, q)) h =
          (c, finish_after-ok commit.transactional c s s' _ (ap (continue rest) (sym q) ∙ h))

  commit_audit-elim :
      (P : Store → Type 0) (raw : AuditEvent) (unchained : Bool) (t : Store)
      → ((audits : List AuditEvent) (ids : List Uuid) (sequence : ℕ) (head : Bytes)
          → P (record t {
            audits = audits;
            audit_ids = ids;
            audit_sequence = sequence;
            audit_head = head;
          }))
      → P (commit_audit crypto raw unchained t)
  unfolding commit_audit append_audit_event
  commit_audit-elim P raw true t all = all _ _ _ _
  commit_audit-elim P raw false t all = all _ _ _ _

  -- What the change of the maps establishes holds after the call, whatever was audited.
  pub transact-elim :
      (P : Store → Type 0) (s s' : Store)
      → transact crypto commit change s ≡ (ok tt, s')
      → ((c : Map Time) (audits : List AuditEvent) (ids : List Uuid) (sequence : ℕ) (head : Bytes)
          → P (record (change (with_ceremonies c s)) {
            audits = audits;
            audit_ids = ids;
            audit_sequence = sequence;
            audit_head = head;
          }))
      → P s'
  transact-elim P s s' h all =
      let (c, final) = transact-ok s s' h in
      subst P (sym final)
        (commit_audit-elim P commit.audit commit.unchained (change (with_ceremonies c s)) (all c))

-- A lookup that ends a read.
pub require-end :
    {A : Type 0} (o : Option A) (e : Error) (s s' : Store) (a : A)
    → require o e s ≡ (ok a, s')
    → (o ≡ some a) × (s ≡ s')
require-end none e s s' a h = absurd (cc)
require-end (some b) e s s' a h = (cc, cc)
