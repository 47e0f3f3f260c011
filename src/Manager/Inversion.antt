-- ===== src/Manager/Inversion.antt =====
-- What an operation that succeeded has passed.
use credbound.Prelude.{◌≡◌, refl, Bool, true, false, Option, ap, ◌⊎◌, inl, inr, if◌then◌else◌}
use credbound.Types.{Error, Result, ok, err}
use credbound.Store.State.{Tx}
use credbound.Manager.State.{
  World, Env, Op, go_on, go_on_either, either, refuse_if, call, reached, ◌>>=◌,
}

module _ {B : Type 0} {w w' : World} {b : B} where
  pub refuse_if-ok :
      (test : Bool) (e : Error) (m : Op B)
      → (refuse_if test e >>= λ _. m) w ≡ (ok b, w')
      → (test ≡ false) × (m w ≡ (ok b, w'))
  refuse_if-ok true e m h = absurd (cc)
  refuse_if-ok false e m h = (refl, h)

  -- A step after a sequence.
  pub >>=-ok :
      {A : Type 0} (m : Op A) (f : A → Op B)
      → (m >>= f) w ≡ (ok b, w')
      → (a : A) × (v : World) × (m w ≡ (ok a, v)) × (f a v ≡ (ok b, w'))
  >>=-ok {A = A} m f h = go (m w) refl h
    where
      go :
          (r : Result A × World)
          → m w ≡ r
          → go_on f r ≡ (ok b, w')
          → (a : A) × (v : World) × (m w ≡ (ok a, v)) × (f a v ≡ (ok b, w'))
      go (ok a, v) e h = (a, v, e, h)
      go (err e', v) e h = absurd (cc)

  -- Both ways out of a call whose error is examined.
  pub either-ok :
      {A : Type 0} (m : Op A) (f : A → Op B) (g : Error → Op B)
      → either m f g w ≡ (ok b, w')
      → ((a : A) × (v : World) × (m w ≡ (ok a, v)) × (f a v ≡ (ok b, w')))
        ⊎ ((e : Error) × (v : World) × (m w ≡ (err e, v)) × (g e v ≡ (ok b, w')))
  either-ok {A = A} m f g h = go (m w) refl h
    where
      go :
          (r : Result A × World)
          → m w ≡ r
          → go_on_either f g r ≡ (ok b, w')
          → ((a : A) × (v : World) × (m w ≡ (ok a, v)) × (f a v ≡ (ok b, w')))
            ⊎ ((e : Error) × (v : World) × (m w ≡ (err e, v)) × (g e v ≡ (ok b, w')))
      go (ok a, v) e h = inl (a, v, e, h)
      go (err e', v) e h = inr (e', v, e, h)

-- A call of the store that succeeded, as the store sees it.
pub call-ok :
    {A : Type 0} (env : Env) (f : Option Error → Tx A) (w w' : World) (a : A)
    → call env f w ≡ (ok a, w')
    → f (env.context_error w.calls) (reached env w) ≡ (ok a, w'.store)
call-ok env f w w' a h = ap (λ r. (r.0, r.1.store)) h

-- A test that ends an operation.
pub refuse_if-end :
    (test : Bool) (e : Error) (w w' : World)
    → refuse_if test e w ≡ (ok tt, w')
    → (test ≡ false) × (w ≡ w')
refuse_if-end true e w w' h = absurd (cc)
refuse_if-end false e w w' h = (refl, cc)

-- The branch that an operation took.
pub if-cases :
    {A : Type 0} (test : Bool) (m n : Op A) (w : World) (r : Result A × World)
    → (if test then m else n) w ≡ r
    → (m w ≡ r) ⊎ (n w ≡ r)
if-cases true m n w r h = inl h
if-cases false m n w r h = inr h
