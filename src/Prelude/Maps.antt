-- ===== src/Prelude/Maps.antt =====
-- Go maps keyed by identifiers, as association lists: reads, writes, `delete`, a loop that rewrites
-- every entry, and a loop that counts entries.
use Prim.Native.Nat.{ℕ, suc, ◌+◌, ◌<◌}
use mathlib.Core.Path.{◌≡◌, refl, sym, ◌∙◌, subst}
use mathlib.Core.Logic.{inl, inr}
use mathlib.Core.Bool.{Bool, true}
use mathlib.Core.Option
use mathlib.Core.Option.{Option, none, some}
use mathlib.Core.List.{List, [], ◌∷◌}
use native.Mathlib.Omega.{arith}
use credbound.Prelude.Tests.{◌==◌, if◌then◌else◌, Bool-cases}

abbrev pub Map {ℓ} : Type ℓ → Type ℓ
Map V = List (ℕ × V)

module _ {ℓ} {V : Type ℓ} where
  unfoldable pub lookup : ℕ → Map V → Option V
  lookup key [] = none
  lookup key ((first, value) ∷ others) = if first == key then some value else lookup key others

  unfoldable pub insert : ℕ → V → Map V → Map V
  insert key value [] = (key, value) ∷ []
  insert key value ((at, held) ∷ others) =
      if at == key then (key, value) ∷ others else (at, held) ∷ insert key value others

  unfoldable pub erase : ℕ → Map V → Map V
  erase key [] = []
  erase key ((at, held) ∷ others) =
      let rest = erase key others in if at == key then rest else (at, held) ∷ rest

  unfoldable pub map_values : (V → V) → Map V → Map V
  map_values f [] = []
  map_values f ((at, held) ∷ others) = (at, f held) ∷ map_values f others

  -- How many entries pass a test on the key and the value.
  unfoldable pub count : (ℕ → V → Bool) → Map V → ℕ
  count p [] = 0
  count p ((at, held) ∷ others) = let rest = count p others in if p at held then suc rest else rest

  pub lookup-insert :
      (key at : ℕ) (value : V) (others : Map V)
      → lookup at (insert key value others) ≡ (if key == at then some value else lookup at others)
  unfolding lookup insert
  lookup-insert key at value [] = refl
  lookup-insert key at value ((head, held) ∷ others) =
      ground (arith, lookup-insert key at value others)

  pub lookup-erase :
      (key at : ℕ) (others : Map V)
      → lookup at (erase key others) ≡ (if key == at then none else lookup at others)
  unfolding lookup erase
  lookup-erase key at [] = ground arith
  lookup-erase key at ((head, held) ∷ others) = ground (arith, lookup-erase key at others)

  pub lookup-map_values :
      (f : V → V) (at : ℕ) (others : Map V)
      → lookup at (map_values f others) ≡ Option.map f (lookup at others)
  unfolding lookup map_values
  lookup-map_values f at [] = refl
  lookup-map_values f at ((head, held) ∷ others) = ground (arith, lookup-map_values f at others)

  -- No key is listed twice, as in every Go map.
  abbrev pub IsUnique : Map V → Type ℓ
  IsUnique [] = Unit
  IsUnique ((key, value) ∷ others) = (lookup key others ≡ none) × IsUnique others

  -- What the entry at a key adds to a count.
  abbrev pub weight : (ℕ → V → Bool) → ℕ → Option V → ℕ
  weight p key none = 0
  weight p key (some value) = if p key value then 1 else 0

  -- A write moves the count by the old and the new value at its key.
  pub count-insert :
      (p : ℕ → V → Bool) (key : ℕ) (value : V) (others : Map V)
      → count p (insert key value others) + weight p key (lookup key others)
        ≡ count p others + (if p key value then 1 else 0)
  unfolding count insert lookup
  count-insert p key value [] = ground arith
  count-insert p key value ((at, held) ∷ others) = ground (arith, count-insert p key value others)

  pub count-erase :
      (p : ℕ → V → Bool) (key : ℕ) (others : Map V)
      → IsUnique others
      → count p (erase key others) + weight p key (lookup key others) ≡ count p others
  unfolding count erase lookup
  count-erase p key [] u = refl
  count-erase p key ((at, held) ∷ others) u = ground (arith, count-erase p key others u.1)

  pub insert-IsUnique :
      (key : ℕ) (value : V) (others : Map V) → IsUnique others → IsUnique (insert key value others)
  unfolding insert
  insert-IsUnique key value [] u = (unfold lookup in refl, tt)
  insert-IsUnique key value ((at, held) ∷ others) u =
      ground (arith, insert-IsUnique key value others u.1, lookup-insert key at value others)

  pub erase-IsUnique : (key : ℕ) (others : Map V) → IsUnique others → IsUnique (erase key others)
  unfolding erase
  erase-IsUnique key [] u = tt
  erase-IsUnique key ((at, held) ∷ others) u =
      ground (arith, erase-IsUnique key others u.1, lookup-erase key at others)

  -- A positive count shows an entry that passes, by its key.
  pub count_pos :
      (p : ℕ → V → Bool) (others : Map V)
      → IsUnique others
      → 0 < count p others
      → (key : ℕ) × (value : V) × (lookup key others ≡ some value) × (p key value ≡ true)
  unfolding count lookup
  count_pos p [] u h = absurd (omega arith)
  count_pos p ((at, held) ∷ others) u h = elim (Bool-cases (p at held)) [
    | inl e ↦ (at, held, ground arith, e)
    | inr e ↦
        let (key, value, found, passes) = count_pos p others u.1 (ground arith) in
        (key, value, ground arith, passes)
  ]

  -- A value of a rewritten map is the rewriting of a value.
  pub lookup-map_values_elim :
      (f : V → V) (P : V → Type 0) (key : ℕ) (others : Map V) (value : V)
      → lookup key (map_values f others) ≡ some value
      → ((held : V) → P (f held))
      → P value
  lookup-map_values_elim f P key others value h all =
      go (lookup key others) (sym (lookup-map_values f key others) ∙ h)
    where
      go : (o : Option V) → Option.map f o ≡ some value → P value
      go none e = absurd (cc)
      go (some held) e = subst P (cc) (all held)

  pub lookup-inserted :
      (key : ℕ) (value : V) (others : Map V) → lookup key (insert key value others) ≡ some value
  lookup-inserted key value others = ground (arith, lookup-insert key key value others)

  -- The value that a rewritten map's value comes from.
  pub held_value :
      (f : V → V) (key : ℕ) (others : Map V) (value : V)
      → lookup key (map_values f others) ≡ some value
      → (held : V) × (lookup key others ≡ some held) × (f held ≡ value)
  held_value f key others value h =
      go (lookup key others) refl (sym (lookup-map_values f key others) ∙ h)
    where
      go :
          (o : Option V)
          → lookup key others ≡ o
          → Option.map f o ≡ some value
          → (held : V) × (lookup key others ≡ some held) × (f held ≡ value)
      go none e q = absurd (cc)
      go (some held) e q = (held, e, cc)
