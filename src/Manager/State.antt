-- ===== src/Manager/State.antt =====
-- What an operation of the manager reads and changes. Each read of the clock, each draw of
-- randomness and each call of the store is numbered, and the environment answers it by its number.
use credbound.Prelude.{
  ℕ, ◌+◌, Bool, false, Option, none, List, [], ◌∷◌, ◌++◌, String, if◌then◌else◌,
}
use credbound.Types.{Uuid, Time, Bytes, AuditEvent, Commit, Error, Result, ok, err}
use credbound.Store.State.{Store, Tx}

-- An emitted event: its name, its operation, its user and its reason.
pub record Event : Type 0 where
  pub name : String
  pub operation : String
  pub user_id : Uuid
  pub reason : String

-- `other_calls` is what other callers make of the store before the numbered call, `hook_outcome`
-- what the host's transaction hooks return in it, and `context_error` what `ctx.Err()` then is.
pub record Env : Type 0 where
  pub clock : ℕ → Time
  pub random : ℕ → Result Bytes
  pub context_error : ℕ → Option Error
  pub other_calls : ℕ → Store → Store
  pub hook_outcome : ℕ → Option Error
  pub ip_address : String
  pub user_agent : String

pub record World : Type 0 where
  pub store : Store
  pub id_unix_milli : ℕ
  pub id_sequence : ℕ
  pub clock_reads : ℕ
  pub draws : ℕ
  pub calls : ℕ
  pub emitted : List Event

abbrev pub Op : Type 0 → Type 0
Op A = World → Result A × World

abbrev pub done : {A : Type 0} → A → Op A
done a w = (ok a, w)

abbrev pub refuse : {A : Type 0} → Error → Op A
refuse e w = (err e, w)

abbrev pub go_on : {A B : Type 0} → (A → Op B) → Result A × World → Result B × World
go_on f (ok a, w) = f a w
go_on f (err e, w) = (err e, w)

-- What follows a call whose error is examined.
abbrev pub go_on_either :
    {A B : Type 0} → (A → Op B) → (Error → Op B) → Result A × World → Result B × World
go_on_either f g (ok a, w) = f a w
go_on_either f g (err e, w) = g e w

infixl 5 ◌>>=◌ ◌>>◌
abbrev pub ◌>>=◌ : {A B : Type 0} → Op A → (A → Op B) → Op B
◌>>=◌ m f w = go_on f (m w)

abbrev pub ◌>>◌ : {B : Type 0} → Op (Unit {0}) → Op B → Op B
m >> k = m >>= λ _. k

abbrev pub either : {A B : Type 0} → Op A → (A → Op B) → (Error → Op B) → Op B
either m f g w = go_on_either f g (m w)

-- A call whose result is a value.
abbrev pub attempt : {A : Type 0} → Op A → Op (Result A)
attempt m w = (ok (m w).0, (m w).1)

abbrev pub refuse_if : Bool → Error → Op (Unit {0})
refuse_if b e w = (if b then err e else ok tt, w)

abbrev pub emit : Event → Op (Unit {0})
emit event w = (ok tt, record w { emitted = w.emitted ++ event ∷ [] })

module _ (env : Env) where
  -- `m.now()`
  abbrev pub now : Op Time
  now w = (ok (env.clock w.clock_reads), record w { clock_reads = w.clock_reads + 1 })

  -- `randomBytes`
  abbrev pub random_bytes : Op Bytes
  random_bytes w = (env.random w.draws, record w { draws = w.draws + 1 })

  -- The state of the store when the next call reaches it.
  abbrev pub reached : World → Store
  reached w = env.other_calls w.calls w.store

  abbrev pub after_call : {A : Type 0} → World → Result A × Store → Result A × World
  after_call w r = (r.0, record w { store = r.1; calls = w.calls + 1 })

  abbrev pub call : {A : Type 0} → (Option Error → Tx A) → Op A
  call f w = after_call w (f (env.context_error w.calls) (reached w))

  -- `Commit{Audit: event}`
  abbrev pub plain_commit : AuditEvent → Commit
  plain_commit event = record {
    audit = event;
    transactional = none;
    ceremony = none;
    unchained = false;
  }
