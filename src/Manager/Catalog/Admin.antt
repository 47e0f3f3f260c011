-- ===== src/Manager/Catalog/Admin.antt =====
-- The administrators' role carries every permission of the catalog.
use credbound.Prelude.{
  ◌≡◌, refl, sym, ◌∙◌, subst, true, ◌||◌, some, List, [], ◌∷◌, ◌++◌, String, str_eq, eq_iff, arith,
  inl, inr, Bool-cases, if◌then◌else◌,
}
use credbound.Types.{Result, ok, err}
use credbound.Store.Users.{role_admin}
use credbound.Manager.Config.{CompiledRole}
use credbound.Manager.Roles.{member, allows}
use credbound.Manager.Catalog.{
  RoleDefinition, done, find_definition, put_definition, definition_or_zero, built_in,
  add_configured, insert_sorted, sort, drop_equal, compact, unique, permissions_of, complete_admin,
  complete, normalize_all, definitions_of, build_role_catalog,
}
use credbound.Manager.Catalog.Reach.{Carries, here, member-append_iff}
use credbound.Manager.Catalog.Correct.{build_role_catalog_iff}

member-insert_sorted :
    (x y : String) (ys : List String) → member x (insert_sorted y ys) ≡ (str_eq y x || member x ys)
unfolding member insert_sorted
member-insert_sorted x y [] = refl
member-insert_sorted x y (z ∷ ys) = ground (arith, member-insert_sorted x y ys)

member-sort : (x : String) (xs : List String) → member x (sort xs) ≡ member x xs
unfolding member sort
member-sort x [] = refl
member-sort x (y ∷ xs) = ground (arith, member-insert_sorted x y (sort xs), member-sort x xs)

member-drop_equal :
    (x y : String) (ys : List String) → member x (drop_equal y ys) ≡ (str_eq y x || member x ys)
unfolding member drop_equal
member-drop_equal x y [] = refl
member-drop_equal x y (z ∷ ys) =
    ground (
      arith,
      member-drop_equal x y ys,
      member-drop_equal x z ys,
      eq_iff y z,
      eq_iff y x,
      eq_iff z x,
    )

member-unique : (x : String) (xs : List String) → member x (unique xs) ≡ member x xs
unfolding unique
member-unique x xs = go (sort xs) ∙ member-sort x xs
  where
    go : (ys : List String) → member x (compact ys) ≡ member x ys
    go [] = unfold compact in refl
    go (y ∷ ys) = unfold compact member in member-drop_equal x y ys

find_definition-put :
    (role : String) (d : RoleDefinition) (ds : List RoleDefinition)
    → find_definition role (put_definition d ds)
      ≡ (if str_eq d.role role then some d else find_definition role ds)
unfolding find_definition put_definition
find_definition-put role d [] = refl
find_definition-put role d (e ∷ ds) = ground (
  arith,
  find_definition-put role d ds,
  eq_iff e.role d.role,
  eq_iff e.role role,
  eq_iff d.role role,
)

member-permissions_of :
    (p role : String) (ds : List RoleDefinition) (d : RoleDefinition)
    → find_definition role ds ≡ some d
    → member p d.permissions ≡ true
    → member p (permissions_of ds) ≡ true
unfolding find_definition permissions_of
member-permissions_of p role [] d h m = absurd (cc)
member-permissions_of p role (e ∷ ds) d h m = elim (Bool-cases (str_eq e.role role)) [
  | inl same ↦
      let found : some e ≡ some d = ground arith in
      let equal : e ≡ d = cc in
      (member-append_iff p e.permissions (permissions_of ds)).1
        (inl (subst (λ k. member p k.permissions ≡ true) (sym equal) m))
  | inr other ↦
      (member-append_iff p e.permissions (permissions_of ds)).1
        (inr (member-permissions_of p role ds d (ground arith) m))
]

abbrev admin_of : List RoleDefinition → RoleDefinition
admin_of ds = record {
  role = role_admin;
  permissions =
      unique
        ((definition_or_zero (find_definition role_admin ds)).permissions ++ permissions_of ds);
  inherits = (definition_or_zero (find_definition role_admin ds)).inherits;
}

complete_admin-Carries :
    (ds : List RoleDefinition) (a p : String)
    → Carries (complete_admin ds) a p
    → Carries (complete_admin ds) role_admin p
unfolding complete_admin
complete_admin-Carries ds a p (b, e, w, defined, m) =
    let admin : find_definition role_admin (complete_admin ds) ≡ some (admin_of ds) =
      ground
        (arith, find_definition-put role_admin (admin_of ds) ds, eq_iff role_admin role_admin) in
    (role_admin, admin_of ds, here (admin_of ds) admin, admin, carried)
  where
    carried : member p (admin_of ds).permissions ≡ true
    carried =
        let put = find_definition-put b (admin_of ds) ds in
        elim (Bool-cases (str_eq role_admin b)) [
          | inl own ↦
              let equal : e ≡ admin_of ds = ground arith in
              subst (λ k. member p k.permissions ≡ true) equal m
          | inr other ↦
              let found : find_definition b ds ≡ some e = ground arith in
              member-unique p _
              ∙ (member-append_iff p _ (permissions_of ds)).1
                  (inr (member-permissions_of p b ds e found m))
        ]

definitions_of-completed :
    (configured ds : List RoleDefinition)
    → definitions_of configured ≡ ok ds
    → (es : List RoleDefinition) × (ds ≡ complete_admin es)
unfolding definitions_of
definitions_of-completed configured ds h = go (normalize_all (add_configured built_in configured)) h
  where
    go :
        (r : Result (List RoleDefinition))
        → complete r ≡ ok ds
        → (es : List RoleDefinition) × (ds ≡ complete_admin es)
    go (err e) h = absurd (cc)
    go (ok es) h = (es, cc)

-- Suppose the order in which the definitions are gone through keeps the names that it is given.
-- On a catalog that was built, a permission that any role is allowed is allowed to the
-- administrators' role.
pub build_role_catalog-admin :
    (order : List String → List String) (configured ds : List RoleDefinition)
    (catalog : List CompiledRole)
    → ((names : List String) (role : String) → member role (order names) ≡ member role names)
    → definitions_of configured ≡ ok ds
    → build_role_catalog order configured ≡ done catalog
    → (a p : String) → allows catalog a p ≡ true
    → allows catalog role_admin p ≡ true
build_role_catalog-admin order configured ds catalog keeps defined built a p h =
    let (es, completed) = definitions_of-completed configured ds defined in
    let carried =
      (build_role_catalog_iff order configured ds catalog keeps defined built a p).1.0 h in
    (build_role_catalog_iff order configured ds catalog keeps defined built role_admin p).1.1 (
      subst (λ k. Carries k role_admin p) (sym completed)
        (complete_admin-Carries es a p (subst (λ k. Carries k a p) completed carried)))
