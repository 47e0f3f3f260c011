-- ===== src/Manager/Catalog/Terminates.antt =====
-- The recursion of `compile` is no deeper than the number of definitions.
use credbound.Prelude.{
  ℕ, zero, suc, ◌+◌, ◌≤◌, ◌<◌, ◌≡◌, ◌≢◌, refl, false, Option, none, some, List, [], ◌∷◌, String,
  str_eq, eq_iff, length, arith, Bool-cases, inl, inr, if◌then◌else◌,
}
use credbound.Types.{Result, ok, err}
use credbound.Manager.Config.{CompiledRole}
use credbound.Manager.Roles.{find_role, member}
use credbound.Manager.Catalog.{
  RoleDefinition, Outcome, done, refused, out_of_fuel, proceed, find_definition, definitions_of,
  Compiled, own_role, merge_role, inherit_all, record_role, answer_or, compile_new, compile,
  compile_all, compile_definitions, role_names, build_role_catalog,
}

-- The definitions whose role is not being visited.
unvisited : List String → List RoleDefinition → ℕ
unvisited visiting [] = 0
unvisited visiting (d ∷ ds) = (if member d.role visiting then 0 else 1) + unvisited visiting ds

unvisited-le :
    (visiting : List String) (ds : List RoleDefinition) → unvisited visiting ds ≤ length ds
unfolding unvisited
unvisited-le visiting [] = omega arith
unvisited-le visiting (d ∷ ds) = ground (arith, unvisited-le visiting ds)

unvisited_mono :
    (role : String) (visiting : List String) (ds : List RoleDefinition)
    → unvisited (role ∷ visiting) ds ≤ unvisited visiting ds
unfolding unvisited member
unvisited_mono role visiting [] = omega arith
unvisited_mono role visiting (d ∷ ds) = ground (arith, unvisited_mono role visiting ds)

-- A visit of a defined role that was not being visited leaves less.
unvisited-lt :
    (role : String) (visiting : List String) (ds : List RoleDefinition) (d : RoleDefinition)
    → find_definition role ds ≡ some d
    → member role visiting ≡ false
    → unvisited (role ∷ visiting) ds < unvisited visiting ds
unfolding unvisited member find_definition
unvisited-lt role visiting [] d h new = absurd (cc)
unvisited-lt role visiting (e ∷ ds) d h new = elim (Bool-cases (str_eq e.role role)) [
  | inl same ↦
      let named = (eq_iff e.role role).0 same in
      ground (arith, unvisited_mono role visiting ds, eq_iff role e.role, named)
  | inr other ↦ ground (arith, unvisited-lt role visiting ds d)
]

-- The recursion has not stopped for its fuel.
abbrev Ends : {A : Type 0} → Outcome A → Type 0
Ends r = r ≢ out_of_fuel

proceed-Ends :
    {A B : Type 0} (r : Outcome A) (f : A → Outcome B)
    → Ends r
    → ((a : A) → Ends (f a))
    → Ends (proceed r f)
proceed-Ends (done a) f h k = k a
proceed-Ends (refused e) f h k = λ e. cc
proceed-Ends out_of_fuel f h k = absurd (h refl)

record_role-Ends : (r : Outcome Compiled) → Ends r → Ends (record_role r)
record_role-Ends r h = proceed-Ends r _ h (λ a. λ e. cc)

inherit_all-Ends :
    (compile_one : String → List CompiledRole → Outcome Compiled)
    → ((role : String) (catalog : List CompiledRole) → Ends (compile_one role catalog))
    → (roles : List String) (result : CompiledRole) (catalog : List CompiledRole)
    → Ends (inherit_all compile_one roles result catalog)
unfolding inherit_all
inherit_all-Ends one ends [] result catalog = λ e. cc
inherit_all-Ends one ends (role ∷ roles) result catalog =
    proceed-Ends (one role catalog) _ (ends role catalog) λ (inherited, catalog').
      inherit_all-Ends one ends roles (merge_role result inherited) catalog'

answer_or-Ends :
    (o : Option CompiledRole) (catalog : List CompiledRole) (r : Outcome Compiled)
    → Ends r
    → Ends (answer_or o catalog r)
unfolding answer_or
answer_or-Ends none catalog r h = h
answer_or-Ends (some c) catalog r h = λ e. cc

module _ (ds : List RoleDefinition) where
  -- `visits` is the hypothesis at the role's definition and at what is left to visit.
  compile_new-Ends :
      (one : String → List CompiledRole → Outcome Compiled) (visiting : List String) (role : String)
      (catalog : List CompiledRole) (o : Option RoleDefinition)
      → ((d : RoleDefinition)
          → o ≡ some d
          → member role visiting ≡ false
          → (r : String) (c : List CompiledRole) → Ends (one r c))
      → Ends (compile_new one visiting role catalog o)
  unfolding compile_new
  compile_new-Ends one visiting role catalog none visits = λ e. cc
  compile_new-Ends one visiting role catalog (some d) visits =
      elim (Bool-cases (member role visiting)) [
        | inl cyclic ↦ rw cyclic (λ e. cc)
        | inr fresh ↦ rw fresh (
            record_role-Ends _
              (inherit_all-Ends one (visits d refl fresh) d.inherits (own_role role d) catalog))
      ]

  compile-Ends :
      (fuel : ℕ) (visiting : List String)
      → unvisited visiting ds < fuel
      → (role : String) (catalog : List CompiledRole) → Ends (compile ds fuel visiting role catalog)
  unfolding compile
  compile-Ends zero visiting h role catalog = absurd (omega arith)
  compile-Ends (suc fuel) visiting h role catalog =
      answer_or-Ends (find_role role catalog) catalog _ (
        compile_new-Ends (compile ds fuel (role ∷ visiting)) visiting role catalog
          (find_definition role ds)
          λ d defined fresh.
            compile-Ends fuel (role ∷ visiting)
              (omega (arith, unvisited-lt role visiting ds d defined fresh)))

  compile_all-Ends :
      (fuel : ℕ) (roles : List String) (catalog : List CompiledRole)
      → unvisited [] ds < fuel
      → Ends (compile_all ds fuel roles catalog)
  unfolding compile_all
  compile_all-Ends fuel [] catalog h = λ e. cc
  compile_all-Ends fuel (role ∷ roles) catalog h =
      proceed-Ends (compile ds fuel [] role catalog) _ (compile-Ends fuel [] h role catalog)
        λ (compiled, catalog'). compile_all-Ends fuel roles catalog' h

-- For every configuration and every order in which the definitions are gone through, the
-- compilation of the roles ends by itself, with a catalog or an error: the depth of its recursion
-- never exceeds the number of definitions and one.
pub build_role_catalog_terminates :
    (order : List String → List String) (configured : List RoleDefinition)
    → build_role_catalog order configured ≢ out_of_fuel
unfolding build_role_catalog
build_role_catalog_terminates order configured = go (definitions_of configured)
  where
    go : (r : Result (List RoleDefinition)) → compile_definitions order r ≢ out_of_fuel
    go (err e) = λ h. cc
    go (ok ds) =
        compile_all-Ends ds (suc (length ds)) (order (role_names ds)) []
          (omega (arith, unvisited-le [] ds))
