-- ===== src/Manager/Catalog/Correct.antt =====
-- What `includes` and `allows` answer on the catalog that the code builds.
use credbound.Prelude.{
  ℕ, suc, ◌≡◌, sym, ap, ◌∙◌, subst, true, some, List, [], ◌∷◌, String, arith, inl, inr, ◌↔◌,
  Option-cases, length,
}
use credbound.Types.{ok}
use credbound.Manager.Config.{CompiledRole}
use credbound.Manager.Roles.{find_role, member, includes, allows}
use credbound.Manager.Catalog.{
  RoleDefinition, done, find_definition, definitions_of, compile, compile_all, role_names,
  compile_definitions, build_role_catalog,
}
use credbound.Manager.Catalog.Reach.{
  Reaches, here, inherited, Carries, not-member-nil, member-cons_iff, find_role-name, AllExact,
  find_role-IsExact,
}
use credbound.Manager.Catalog.Exact.{proceed-done, Keeps, compile-IsCompiled}

-- The catalog that has compiled these roles.
record IsComplete (ds : List RoleDefinition) (roles : List String)
    (catalog catalog' : List CompiledRole) : Type 0 where
  all : AllExact ds catalog'
  keeps : Keeps catalog catalog'
  listed :
      (role : String)
      → member role roles ≡ true
      → (c : CompiledRole) × (find_role role catalog' ≡ some c)

module _ (ds : List RoleDefinition) (fuel : ℕ) where
  compile_all-IsComplete :
      (roles : List String) (catalog catalog' : List CompiledRole)
      → AllExact ds catalog
      → compile_all ds fuel roles catalog ≡ done catalog'
      → IsComplete ds roles catalog catalog'
  unfolding compile_all
  compile_all-IsComplete [] catalog catalog' all h =
      let same : catalog ≡ catalog' = cc in
      subst (IsComplete ds [] catalog) same (record {
        all = all;
        keeps = λ n c found. (c, found);
        listed = λ n among. absurd (not-member-nil n among);
      })
  compile_all-IsComplete (role ∷ roles) catalog catalog' all h =
      let ((c, middle), run, h1) = proceed-done (compile ds fuel [] role catalog) _ catalog' h in
      let step = compile-IsCompiled ds fuel [] role catalog middle c all run in
      let rest = compile_all-IsComplete roles middle catalog' step.all h1 in
      record {
        all = rest.all;
        keeps = λ n d found. let (d', found') = step.keeps n d found in rest.keeps n d' found';
        listed = λ n among. elim ((member-cons_iff n role roles).0 among) [
          | inl same ↦
              let (d, found) = step.listed in
              rest.keeps n d (subst (λ k. find_role k middle ≡ some d) same found)
          | inr later ↦ rest.listed n later
        ];
      }

-- A defined role is one of the names.
member-role_names :
    (role : String) (ds : List RoleDefinition) (d : RoleDefinition)
    → find_definition role ds ≡ some d
    → member role (role_names ds) ≡ true
unfolding find_definition member
member-role_names role [] d h = absurd (cc)
member-role_names role (e ∷ ds) d h = ground (arith, member-role_names role ds d)

-- What a role reaches or carries, it is defined for.
Reaches-defined :
    {ds : List RoleDefinition} {a b : String}
    → Reaches ds a b
    → (d : RoleDefinition) × (find_definition a ds ≡ some d)
Reaches-defined (here d defined) = (d, defined)
Reaches-defined (inherited d defined among rest) = (d, defined)

module _ (ds : List RoleDefinition) (catalog : List CompiledRole)
    (complete : IsComplete ds (role_names ds) [] catalog) where
  includes_iff : (a b : String) → (includes catalog a b ≡ true) ↔ Reaches ds a b
  unfolding includes
  includes_iff a b = elim (Option-cases (find_role a catalog)) [
    | inl missing ↦ (
      λ h. ground arith,
      λ w.
          let (d, defined) = Reaches-defined w in
          let (c, found) = complete.listed a (member-role_names a ds d defined) in absurd (cc),
    )
    | inr (c, found) ↦
        rw (found, includes)
          (subst (λ k. (member b c.roles ≡ true) ↔ Reaches ds k b)
            (find_role-name a catalog c found)
            ((find_role-IsExact ds a catalog c complete.all found).reached b))
  ]

  allows_iff : (a p : String) → (allows catalog a p ≡ true) ↔ Carries ds a p
  unfolding allows
  allows_iff a p = elim (Option-cases (find_role a catalog)) [
    | inl missing ↦ (
      λ h. ground arith,
      λ (b, e, w, has, holds).
          let (d, defined) = Reaches-defined w in
          let (c, found) = complete.listed a (member-role_names a ds d defined) in absurd (cc),
    )
    | inr (c, found) ↦
        rw (found, allows)
          (subst (λ k. (member p c.permissions ≡ true) ↔ Carries ds k p)
            (find_role-name a catalog c found)
            ((find_role-IsExact ds a catalog c complete.all found).carried p))
  ]

-- Suppose the order in which the definitions are gone through keeps the names that it is given.
-- When the configured roles build a catalog, the catalog's `includes` holds of two roles exactly
-- when the definitions, with the built-in ones, lead from the first to the second by inheritance
-- in any number of steps, and its `allows` holds of a role and a permission exactly when the role
-- reaches in this way a role that is defined with the permission.
pub build_role_catalog_iff :
    (order : List String → List String) (configured ds : List RoleDefinition)
    (catalog : List CompiledRole)
    → ((names : List String) (role : String) → member role (order names) ≡ member role names)
    → definitions_of configured ≡ ok ds
    → build_role_catalog order configured ≡ done catalog
    → (a b : String)
    → ((includes catalog a b ≡ true) ↔ Reaches ds a b)
      × ((allows catalog a b ≡ true) ↔ Carries ds a b)
unfolding build_role_catalog
build_role_catalog_iff order configured ds catalog keeps defined built a b =
    let run : compile_all ds (suc (length ds)) (order (role_names ds)) [] ≡ done catalog =
      sym (ap (compile_definitions order) defined) ∙ built in
    let done_all =
      compile_all-IsComplete ds (suc (length ds)) (order (role_names ds)) [] catalog tt run in
    let complete : IsComplete ds (role_names ds) [] catalog = record {
      all = done_all.all;
      keeps = done_all.keeps;
      listed = λ role among. done_all.listed role (keeps (role_names ds) role ∙ among);
    } in
    (includes_iff ds catalog complete a b, allows_iff ds catalog complete a b)
